-- ===== src/Bench/Ledger/Run.antt =====
-- What the run of all connections of bench/src/tcp_client.c leaves open and allocated.
use tlshub_ebpf.Base.{
  ℕ, zero, suc, ◌+◌, ℤ, is_negative, ◌≡◌, ◌∙◌, inl, inr, Option, none, some, List, ◌∷◌, Bool-cases,
}
use tlshub_ebpf.Base.Holdings.{Holdings}
use tlshub_ebpf.Stdio.{c_string}
use tlshub_ebpf.Metrics.Types.{Doubles, Clock}
use tlshub_ebpf.Bench.Types.{receiving, BenchConfig, ConnStats, GlobalMetrics}
use tlshub_ebpf.Bench.Metrics.{update_metrics}
use tlshub_ebpf.Bench.Sockets.{TcpSockets}
use tlshub_ebpf.Bench.Connection.{tcp_client_connect, tcp_client_send_data, tcp_client_receive_data}
use tlshub_ebpf.Bench.Client.{
  fresh_stats, after_receive, after_send, after_connect, run_single_connection, settle,
  run_connections, run_tcp_client,
}
use tlshub_ebpf.Bench.Ledger.{IsLedger, Leaves, with_fd}
use tlshub_ebpf.Bench.Ledger.Client.{
  Connects, Keeps, tcp_client_connect-Connects, tcp_client_send_data-Keeps, receive_loop-Keeps,
  tcp_client_close-closed,
}

module _ {F : Type 0} (fp : Doubles F) {W : Type 0} (sys : Clock W) (net : TcpSockets W)
    (view : W → Holdings) (ledger : IsLedger sys net view) where
  -- The step that follows the step `o`, if `o` ended.
  follows :
      (h h' : Holdings) (o : Option (ℤ × ConnStats F × W))
      (step : ℤ × ConnStats F × W → Option (ℤ × ConnStats F × W))
      → ((r : ℤ) (s : ConnStats F) (w : W)
          → view w ≡ h
          → Keeps fp sys net view ledger h' (step (r, s, w)))
      → Keeps fp sys net view ledger h o
      → Keeps fp sys net view ledger h' (elim o [ none ↦ none | some x ↦ step x ])
  follows h h' none step every left = tt
  follows h h' (some (r, s, w)) step every left = every r s w left

  after_receive-closed :
      (fuel : ℕ) (fd : ℤ) (h : Holdings) (r : ℤ) (s : ConnStats F) (w : W)
      → view w ≡ with_fd fd h
      → Keeps fp sys net view ledger h (after_receive fp sys net fuel fd (r, s, w))
  unfolding after_receive
  after_receive-closed fuel fd h r s w e = elim (Bool-cases (is_negative r)) [
    | inl n ↦ rw (after_receive, n) (ledger.close_undoes fd h w e)
    | inr n ↦ rw (after_receive, n) (tcp_client_close-closed fp sys net view ledger fuel fd s h w e)
  ]

  after_send-closed :
      (fuel : ℕ) (fd : ℤ) (h : Holdings) (r : ℤ) (s : ConnStats F) (w : W)
      → view w ≡ with_fd fd h
      → Keeps fp sys net view ledger h (after_send fp sys net fuel fd (r, s, w))
  unfolding after_send tcp_client_receive_data
  after_send-closed fuel fd h r s w e = elim (Bool-cases (is_negative r)) [
    | inl n ↦ rw (after_send, n) (ledger.close_undoes fd h w e)
    | inr n ↦
        rw (after_send, n)
          (follows (with_fd fd h) h (tcp_client_receive_data fp sys net fuel fd s w)
            (after_receive fp sys net fuel fd) (after_receive-closed fuel fd h)
            (receive_loop-Keeps fp sys net view ledger fuel fd (record s { state = receiving })
              (with_fd fd h) w e))
  ]

  after_connect-Keeps :
      (fuel data_size : ℕ) (h : Holdings) (o : ℤ × ConnStats F × W)
      → Connects fp sys net view ledger h o
      → Keeps fp sys net view ledger h (after_connect fp sys net fuel data_size o)
  unfolding after_connect
  after_connect-Keeps fuel data_size h (fd, s, w) (inl (n, e)) = rw (after_connect, n) e
  after_connect-Keeps fuel data_size h (fd, s, w) (inr (n, e)) =
      rw (after_connect, n)
        (follows (with_fd fd h) h (tcp_client_send_data fp sys net fuel fd data_size s w)
          (after_send fp sys net fuel fd) (after_send-closed fuel fd h)
          (tcp_client_send_data-Keeps fp sys net view ledger fuel fd data_size s (with_fd fd h) w
            e))

  run_single_connection-Keeps :
      (fuel : ℕ) (config : BenchConfig) (s : ConnStats F) (h : Holdings) (w : W)
      → view w ≡ h
      → Keeps fp sys net view ledger h (run_single_connection fp sys net fuel config s w)
  unfolding run_single_connection
  run_single_connection-Keeps fuel config s h w e =
      after_connect-Keeps fuel config.data_size h
        (tcp_client_connect fp sys net (c_string config.target_ip) config.target_port s w)
        (tcp_client_connect-Connects fp sys net view ledger (c_string config.target_ip)
          config.target_port s h w e)

  -- What the run leaves.
  abbrev pub RunKeeps : Holdings → Option (List (ConnStats F) × GlobalMetrics F × W) → Type 0
  RunKeeps = Leaves (λ o. o.2) view

  run_connections-keeps :
      (n fuel : ℕ) (config : BenchConfig) (i : ℕ) (m : GlobalMetrics F) (h : Holdings) (w : W)
      → view w ≡ h
      → RunKeeps h (run_connections fp sys net n fuel config i m w)
  unfolding run_connections
  run_connections-keeps zero fuel config i m h w e = e
  run_connections-keeps (suc n) fuel config i m h w e =
      one (run_single_connection fp sys net fuel config (fresh_stats fp (i + 1)) w)
        (run_connections fp sys net n fuel config (i + 1))
        (λ m' w' e'. run_connections-keeps n fuel config (i + 1) m' h w' e')
        (run_single_connection-Keeps fuel config (fresh_stats fp (i + 1)) h w e)
    where
      prepended :
          (s : ConnStats F) (o : Option (List (ConnStats F) × GlobalMetrics F × W))
          → RunKeeps h o
          → RunKeeps h (elim o [ none ↦ none | some (ss, m', w') ↦ some (s ∷ ss, m', w') ])
      prepended s none left = tt
      prepended s (some (ss, m', w')) left = left

      one :
          (o : Option (ℤ × ConnStats F × W))
          (others : GlobalMetrics F → W → Option (List (ConnStats F) × GlobalMetrics F × W))
          → ((m' : GlobalMetrics F) (w' : W) → view w' ≡ h → RunKeeps h (others m' w'))
          → Keeps fp sys net view ledger h o
          → RunKeeps h (elim o [
            | none ↦ none
            | some x ↦
                elim (others (update_metrics fp m (settle fp sys net x)) (net.usleep 10000 x.2)) [
                  | none ↦ none
                  | some (ss, m', w') ↦ some (settle fp sys net x ∷ ss, m', w')
                ]
          ])
      one none others every left = tt
      one (some x) others every left =
          prepended (settle fp sys net x)
            (others (update_metrics fp m (settle fp sys net x)) (net.usleep 10000 x.2))
            (every (update_metrics fp m (settle fp sys net x)) (net.usleep 10000 x.2)
              (ledger.usleep_keeps 10000 x.2 ∙ left))

  pub run_tcp_client-RunKeeps :
      (fuel : ℕ) (config : BenchConfig) (m : GlobalMetrics F) (h : Holdings) (w : W)
      → view w ≡ h
      → RunKeeps h (run_tcp_client fp sys net fuel config m w)
  unfolding run_tcp_client
  run_tcp_client-RunKeeps fuel config m h w e =
      run_connections-keeps config.total_connections fuel config 0 m h w e
