-- ===== src/Bench/Client.antt =====
-- bench/src/tcp_client.c: one connection from `connect` to `close`, and the run of all of them. Printed messages
-- are left out.
use tlshub_ebpf.Base.{
  ℕ, zero, suc, ◌+◌, ℤ, pos, minus_one, is_negative, Option, none, some, List, [], ◌∷◌,
  if◌then◌else◌,
}
use tlshub_ebpf.Stdio.{c_string}
use tlshub_ebpf.Metrics.Types.{Doubles, Clock}
use tlshub_ebpf.Metrics.Init.{zero_time}
use tlshub_ebpf.Bench.Types.{BenchConfig, init, failed, ConnStats, GlobalMetrics}
use tlshub_ebpf.Bench.Metrics.{update_metrics}
use tlshub_ebpf.Bench.Sockets.{TcpSockets}
use tlshub_ebpf.Bench.Connection.{
  tcp_client_close, tcp_client_connect, tcp_client_receive_data, tcp_client_send_data,
}

module _ {F : Type 0} (fp : Doubles F) where
  -- `memset(stats, 0, …)`, then the number of the connection.
  abbrev pub fresh_stats : ℕ → ConnStats F
  fresh_stats id = record {
    conn_id = id;
    state = init;
    start_time = zero_time;
    connect_time = zero_time;
    first_byte_time = zero_time;
    close_time = zero_time;
    bytes_sent = 0;
    bytes_received = 0;
    connection_latency_ms = fp.of_ℕ 0;
    data_transfer_time_ms = fp.of_ℕ 0;
    throughput_mbps = fp.of_ℕ 0;
  }

  module _ {W : Type 0} (sys : Clock W) (net : TcpSockets W) where
    -- The tail of `run_single_connection` after the data was sent, and after the answer.
    unfoldable pub after_receive : ℕ → ℤ → ℤ × ConnStats F × W → Option (ℤ × ConnStats F × W)
    after_receive fuel fd (r, s, w) =
        let done = tcp_client_close fp sys net fuel fd s w in
        if is_negative r then some (minus_one, s, net.close fd w) else done

    unfoldable pub after_send : ℕ → ℤ → ℤ × ConnStats F × W → Option (ℤ × ConnStats F × W)
    unfolding after_receive
    after_send fuel fd (r, s, w) =
        let answer = tcp_client_receive_data fp sys net fuel fd s w in
        if is_negative r
        then some (minus_one, s, net.close fd w)
        else elim answer [ none ↦ none | some o ↦ after_receive fuel fd o ]

    unfoldable pub after_connect : ℕ → ℕ → ℤ × ConnStats F × W → Option (ℤ × ConnStats F × W)
    unfolding after_send
    after_connect fuel data_size (fd, s, w) =
        let transmitted = tcp_client_send_data fp sys net fuel fd data_size s w in
        if is_negative fd
        then some (minus_one, s, w)
        else elim transmitted [ none ↦ none | some o ↦ after_send fuel fd o ]

    -- `run_single_connection(config, stats)`
    unfoldable pub run_single_connection :
        ℕ → BenchConfig → ConnStats F → W → Option (ℤ × ConnStats F × W)
    unfolding after_connect
    run_single_connection fuel config s w =
        after_connect fuel config.data_size
          (tcp_client_connect fp sys net (c_string config.target_ip) config.target_port s w)

    -- The state that the run records for a connection with the result `r`.
    unfoldable pub settle : ℤ × ConnStats F × W → ConnStats F
    settle (pos zero, s, w) = s
    settle (r, s, w) = record s { state = failed }

    -- The loop of `run_tcp_client`: so many connections, the first with the index `i`.
    unfoldable pub run_connections :
        ℕ
        → ℕ
        → BenchConfig
        → ℕ
        → GlobalMetrics F
        → W
        → Option (List (ConnStats F) × GlobalMetrics F × W)
    unfolding settle
    run_connections zero fuel config i m w = some ([], m, w)
    run_connections (suc n) fuel config i m w =
        elim (run_single_connection fuel config (fresh_stats (i + 1)) w) [
          | none ↦ none
          | some o ↦
              elim (run_connections n fuel config (i + 1) (update_metrics fp m (settle o))
                (net.usleep 10000 o.2)) [
                  | none ↦ none
                  | some (ss, m', w') ↦ some (settle o ∷ ss, m', w')
                ]
        ]

    -- `run_tcp_client(config, metrics, conn_stats_array)`
    unfoldable pub run_tcp_client :
        ℕ → BenchConfig → GlobalMetrics F → W → Option (List (ConnStats F) × GlobalMetrics F × W)
    unfolding run_connections
    run_tcp_client fuel config m w = run_connections config.total_connections fuel config 0 m w
