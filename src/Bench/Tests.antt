-- ===== src/Bench/Tests.antt =====
-- The benchmark tool on the network of the samples.
use tlshub_ebpf.Config.{strncpy}
use tlshub_ebpf.Metrics.Proc.{digits, scan_llu}
use tlshub_ebpf.Stdio.{skip_space, is_space}
use tlshub_ebpf.Base.{
  true, ℕ, ◌+◌, ◌≡◌, refl, ℤ, pos, Option, none, some, List, [], ◌∷◌, Bytes, codes, map, length,
  arith,
}
use tlshub_ebpf.Metrics.Record.{int_of}
use tlshub_ebpf.Metrics.Samples.{natural, natural-IsOrder, natural-lt-IsNumber}
use tlshub_ebpf.Bench.Latency.Reported.{AllCovered, run-AllCovered}
use tlshub_ebpf.Bench.Types.{BenchConfig, ConnStats, GlobalMetrics, ConnState, closed}
use tlshub_ebpf.Bench.Metrics.{Resources, init_metrics, finalize_metrics}
use tlshub_ebpf.Bench.Connection.{
  count_from, test_data, close_stats, connect_to, prepare, tcp_client_connect, send_all, end_send,
  tcp_client_send_data, receive_loop, tcp_client_receive_data, drain, end_close, tcp_client_close,
}
use tlshub_ebpf.Bench.Client.{
  fresh_stats, after_receive, after_send, after_connect, run_single_connection, settle,
  run_connections, run_tcp_client,
}
use tlshub_ebpf.Bench.Server.{finish_client, echo, echo_loop, echo_server_handle_client}
use tlshub_ebpf.Bench.Stream.{Conversation}
use tlshub_ebpf.Bench.Transmit.{Transmitted, tcp_client_send_data-Transmitted}
use tlshub_ebpf.Bench.Reply.{Echoed, echo_server_handle_client-Echoed}
use tlshub_ebpf.Bench.Accounts.{Accounted, run_tcp_client-Accounted}
use tlshub_ebpf.Bench.Options.{
  configured, exits, init_config, port_of, positive_int, signed_int, atoi, count_of, size_t_of,
  size_of, assigned, apply_option, parse_options,
}
use tlshub_ebpf.Bench.Ranges.{OfParsed, InRange, parse_options-InRange, init_config-InRange}
use tlshub_ebpf.Bench.Main.{Host, Ending, Bounds, main}
use tlshub_ebpf.Bench.Report.{HasReports, main-IsComplete}
use tlshub_ebpf.Bench.Samples.{
  still, toy, toy-IsStream, toy-IsApart, toy-IsFinite, hello, two_times_three,
}

tcp_client_send_data-Transmitted_example :
    (o : ℤ × ConnStats ℕ × Conversation) × (tcp_client_send_data natural still toy 9
        (pos 3)
        3
        (fresh_stats natural 1)
        hello
      ≡ some o)
    × Transmitted natural still toy (pos 3) (λ w. w) toy-IsStream 3 hello o
tcp_client_send_data-Transmitted_example =
    tcp_client_send_data-Transmitted natural still toy (pos 3) (λ w. w) toy-IsStream toy-IsApart 9 3
      (fresh_stats natural 1) hello (omega arith)

echo_server_handle_client-Echoed_example :
    (w : Conversation) × (echo_server_handle_client toy 7 65538 (pos 3) hello ≡ some w)
    × Echoed hello w
echo_server_handle_client-Echoed_example =
    echo_server_handle_client-Echoed toy (pos 3) (λ w. w) toy-IsStream 7 65538 hello (omega arith)
      (omega arith)

abbrev idle : Resources Conversation
idle = record { getrusage = λ w. (none, w) }

run_tcp_client-Accounted_example :
    (o : List (ConnStats ℕ) × GlobalMetrics ℕ × Conversation) × (run_tcp_client natural still toy 10
        two_times_three
        (init_metrics natural still idle hello).0
        hello
      ≡ some o)
    × (length o.0 ≡ 2)
    × Accounted (init_metrics natural still idle hello).0 o.0 o.1
run_tcp_client-Accounted_example =
    run_tcp_client-Accounted natural still toy (λ w. length w.pending + w.interrupts) toy-IsFinite
      10 two_times_three (init_metrics natural still idle hello).0 hello (omega arith)

echo_hello_lem :
    echo_server_handle_client toy 7 20 (pos 3) hello
    ≡ some (record { out = codes "hello"; pending = []; interrupts = 0; failures = 0 })
unfolding echo_server_handle_client echo_loop echo finish_client
echo_hello_lem = refl

abbrev states : Option (List (ConnStats ℕ) × GlobalMetrics ℕ × Conversation) → List ConnState
states none = []
states (some (ss, m, w)) = map (λ s. s.state) ss

run_hello_lem :
    states (
      run_tcp_client natural still toy 10 two_times_three
        (init_metrics natural still idle hello).0
        hello)
    ≡ closed ∷ (closed ∷ [])
unfolding run_tcp_client run_connections run_single_connection after_connect after_send
    after_receive tcp_client_connect prepare connect_to tcp_client_send_data send_all end_send
    tcp_client_receive_data receive_loop tcp_client_close end_close close_stats drain settle
    test_data count_from
run_hello_lem = refl

abbrev small : List (ℕ × Bytes)
small = (b'n', codes "2") ∷ ((b's', codes "3") ∷ ((b't', codes "10.0.0.1") ∷ []))

abbrev small_config : BenchConfig
small_config = record (init_config (codes "m.json") (codes "m.csv")) {
  target_ip =
      strncpy (init_config (codes "m.json") (codes "m.csv")).target_ip (codes "10.0.0.1") 255;
  data_size = 3;
  total_connections = 2;
}

abbrev open_host : Host Conversation
open_host = record { calloc = λ n w. (true, w); fopen = λ name w. (true, w) }

abbrev wide : Bounds
wide = record { turns = 1; rounds = 1; fuel = 10485770 }

small_lem :
    parse_options (init_config (codes "m.json") (codes "m.csv")) small ≡ configured small_config
unfolding parse_options apply_option assigned count_of size_of size_t_of atoi signed_int
    positive_int int_of skip_space is_space digits scan_llu
small_lem = refl

-- A count of 0, a port with a letter, and a size that `int` cannot hold.
refused_lem :
    (parse_options two_times_three ((b'n', codes "0") ∷ []) ≡ exits 1)
    × (parse_options two_times_three ((b'p', codes "80x") ∷ []) ≡ exits 1)
    × (parse_options two_times_three ((b's', codes "4294967299") ∷ []) ≡ configured two_times_three)
unfolding parse_options apply_option assigned count_of port_of size_of size_t_of atoi signed_int
    positive_int int_of skip_space is_space digits scan_llu
refused_lem = (refl, refl, refl)

parse_options-InRange_example :
    OfParsed InRange (parse_options (init_config (codes "m.json") (codes "m.csv")) small)
parse_options-InRange_example =
    parse_options-InRange (init_config (codes "m.json") (codes "m.csv")) small
      (init_config-InRange (codes "m.json") (codes "m.csv"))

main-IsComplete_example :
    (e : Ending ℕ Conversation) × (main natural still toy idle open_host wide
        (codes "m.json")
        (codes "m.csv")
        small
        hello
      ≡ some e)
    × (e.status ≡ 0)
    × ((v : Conversation) × HasReports toy open_host small_config e v)
unfolding init_config
main-IsComplete_example =
    main-IsComplete natural still toy idle open_host (λ w. length w.pending + w.interrupts)
      toy-IsFinite wide (codes "m.json") (codes "m.csv") small small_config hello small_lem refl
      refl (omega arith) (omega arith)

run-AllCovered_example :
    (r : List (ConnStats ℕ) × GlobalMetrics ℕ × Conversation) × (run_tcp_client natural still toy 10
        two_times_three
        (init_metrics natural still idle hello).0
        hello
      ≡ some r)
    × AllCovered natural natural-IsOrder natural-lt-IsNumber still toy idle
        (finalize_metrics natural still idle r.1 r.2).0
        r.0
run-AllCovered_example =
    run-AllCovered natural natural-IsOrder natural-lt-IsNumber still toy idle
      (λ w. length w.pending + w.interrupts) toy-IsFinite 10 two_times_three hello hello
      (omega arith)
