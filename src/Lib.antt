-- ===== src/Lib.antt =====
-- tlshub-ebpf: capture of TCP connections in the kernel, and the TLS keys for them in user space.
--
-- A kernel program (capture/src/capture.bpf.c) notices connections and sends one event for each. The
-- capture process (capture/src/main.c) handles the event: it asks the key provider for a key and measures
-- the exchange. The key provider (capture/src/key_provider.c) takes the key from the TLSHub kernel module
-- through the client of capture/src/tlshub_client.c, or from the TLS library. capture/src/ktls_config.c
-- hands a key to the kernel's TLS sockets. tlshub-api/ offers the exchange with the kernel module to
-- other programs, and bench/ measures connections with a client and an echo server.
--
-- Base: Boolean tests, lists, memory as bytes, C strings and the return values of C functions.
-- Capture: the types of capture/include/capture.h that the parts share.
-- Bpf: capture/src/capture.bpf.c, one function for each probe, over the two hash maps. Bpf/Trace runs
--   sequences of probes.
-- Tlshub: capture/src/tlshub_client.c. Tlshub/Netlink is the interface of the system calls, Tlshub/Wire
--   the messages as bytes, Tlshub/Client the operations `tlshub_client_init`, `tlshub_fetch_key`,
--   `tlshub_handshake` and `tlshub_client_cleanup`.
-- KeyProvider: capture/src/key_provider.c, the functions under their own names; KeyProvider/Ledger says
--   what its calls open and allocate in the system.
-- Ktls: capture/src/ktls_config.c.
-- Stdio: `fgets` and `sscanf` as far as the readers of the configuration files use them.
-- PodMapping: capture/src/pod_mapping.c; PodMapping/Print has what it prints. Config: `load_config` of
--   capture/src/main.c.
-- Metrics: capture/src/performance_metrics.c and the structures of its header. Metrics/Init and
--   Metrics/Record have the operations on the context and on one connection, Metrics/Proc and
--   Metrics/System the figures of the machine, Metrics/Stats the summary, Metrics/Export what the report
--   and the exports write, Metrics/Table the context under sequences of calls.
-- Handler: `handle_tcp_event` of capture/src/main.c, which joins Metrics and KeyProvider.
-- MainLoop: the loop of `main` in capture/src/main.c, which polls for events and updates the metrics.
--   MainLoop/Start has the rest of `main`, the start of the parts and the shutdown; MainLoop/Kept,
--   MainLoop/Ledger, MainLoop/Owned, MainLoop/Shutdown, MainLoop/Interrupted and MainLoop/Batch have the
--   proofs.
-- Bench: the programs of bench/. Bench/Types has the structures of bench/include/bench_common.h,
--   Bench/Metrics, Bench/CpuUsage and Bench/Export the functions of bench/src/bench_common.c,
--   Bench/Connection and Bench/Client those of bench/src/tcp_client.c, Bench/Server those of
--   bench/src/echo_server.c, Bench/Options and Bench/Main those of bench/src/main.c; Bench/Sockets is the
--   interface of the system calls. Bench/Stream says what a connection does to the bytes, and
--   Bench/Transmit, Bench/Reply, Bench/Finite, Bench/Answer, Bench/Outcome, Bench/Accounts, Bench/Ranges,
--   Bench/Report and Bench/Latency have the proofs, and Bench/Ledger those on the sockets and the memory
--   of the programs.
-- Api: tlshub-api/tlshub.c. Api/Wire has its messages, Api/Context the netlink context, Api/Service
--   `tlshub_service_init`, Api/Requests `tlshub_handshake` and `tlshub_fetch_key`, Api/Hypertls the older
--   copy tlshub-api/hypertls.c, Api/Ledger, Api/Kept, Api/Leak, Api/Wait and Api/Reply proofs.
--   Api/Program is the program tlshub-api/tlshub_handshake.c with its older copy hypertls_handshake.c.
--   Api shares Tlshub/Netlink and the layout of the messages with Tlshub.
--
-- State is passed explicitly: each module's static variables are a record, and the system outside is a
-- type `W` with the calls as parameters (`Netlink`, `Ssl`, `Sockets`, `Clock`, `ProcFiles`, `Events`,
-- `TcpSockets`, `Resources`, the two `Host`, `Libbpf`, `Surroundings`). Doubles are a type `F` with its
-- operations as a parameter. Unsigned integers wrap where the source lets them; a pointer that may be
-- null is an `Option`. A write past a buffer is a result of its own (`overrun`), after which nothing is
-- said; only the slot of a connection whose number is negative as an `int`, from 2^31 on, is left
-- unwritten.
--
-- The loops that wait for a message run on fuel, one unit for each message received, so that more fuel
-- than there are messages before the deciding one is enough; without such a message the source's loops do
-- not end, and the result is `none` for every fuel. The main loop runs a given number of turns. The loops
-- of the benchmark run on fuel as well, one unit for each system call in a loop. Those of the client end
-- when only finitely many bytes and signals come; the bound on these and the size of the data together
-- are fuel enough. Those of the server end only when a call fails or the program is stopped, so that what
-- is said of them is said of runs that end, or of a client whose bytes are finitely many. In the
-- handshake program the fuel of a handshake is what it waits for until the alarm. The loops that read a
-- file run on the number of its bytes, which is enough since no line is empty.
--
-- Not modelled: printed messages; a signal that ends the process, SIGPIPE on a `send` to a closed peer
-- among them: the calls of the model are those that return; releasing memory without other effect
-- (`perf_metrics_cleanup`); what libbpf does to load and attach the kernel program; the code for OpenSSL
-- before 1.1.0; in tlshub-api/ the logging, `print_hex_dump` and `app_tm_interval`; the text around the
-- exported values; the test programs of capture/test and the superseded client.
pub mod Base
pub mod Capture
pub mod Tlshub
pub mod KeyProvider
pub mod Ktls
pub mod Bpf
pub mod Stdio
pub mod PodMapping
pub mod Config
pub mod Metrics
pub mod Handler
pub mod MainLoop
pub mod Bench
pub mod Api
