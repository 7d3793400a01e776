-- ===== src/Bench/Outcome.antt =====
-- How `run_single_connection` of bench/src/tcp_client.c ends, with a budget of bytes to come and of signals.
use tlshub_ebpf.Base.{
  ℕ, ◌+◌, ◌≤◌, ◌<◌, ◌≡◌, refl, ◌⊎◌, inl, inr, ℤ, pos, minus_one, is_negative, Option, none, some,
  Bytes, Bool-cases, Option-cases, arith,
}
use tlshub_ebpf.Stdio.{c_string}
use tlshub_ebpf.Metrics.Types.{Doubles, Clock}
use tlshub_ebpf.Bench.Types.{
  BenchConfig, ConnStats, connecting, sending, receiving, closing, closed, failed,
}
use tlshub_ebpf.Bench.Sockets.{TcpSockets, tcp_nodelay, so_rcvtimeo, shut_wr}
use tlshub_ebpf.Bench.Connection.{
  test_data, close_stats, connect_to, prepare, tcp_client_connect, end_send, tcp_client_send_data,
  tcp_client_receive_data, end_close, tcp_client_close,
}
use tlshub_ebpf.Bench.Client.{after_receive, after_send, after_connect, run_single_connection}
use tlshub_ebpf.Bench.Transmit.{length-test_data}
use tlshub_ebpf.Bench.Answer.{receive_loop_ends}
use tlshub_ebpf.Bench.Finite.{IsFinite, send_all_ends, drain_ends}

-- The result 0 comes with the state `closed`.
abbrev pub Ended : {F W : Type 0} → ℤ × ConnStats F × W → Type 0
Ended (r, s, w) = ((r ≡ pos 0) × (s.state ≡ closed)) ⊎ (r ≡ minus_one)

module _ {F : Type 0} (fp : Doubles F) {W : Type 0} (sys : Clock W) (net : TcpSockets W)
    (budget : W → ℕ) (finite : IsFinite sys net budget) where
  connect_to_le :
      (address port : ℕ) (fd : ℤ) (s : ConnStats F) (w : W)
      → budget (connect_to fp sys net address port fd s w).2 ≤ budget w
  unfolding connect_to
  connect_to_le address port fd s w =
      let (r, w1) = net.connect fd address port w in
      let le1 = finite.connect_le fd address port w in
      let le2 = finite.gettime_le w1 in
      let le3 = finite.close_le fd w1 in
      elim (Bool-cases (is_negative r)) [
        | inl e ↦ rw (connect_to, e) (omega arith)
        | inr e ↦ rw (connect_to, e) (omega arith)
      ]

  prepare_le :
      (ip : Bytes) (port : ℕ) (fd : ℤ) (s : ConnStats F) (w : W)
      → budget (prepare fp sys net ip port fd s w).2 ≤ budget w
  unfolding prepare
  prepare_le ip port fd s w =
      let (r, w1) = net.setsockopt fd tcp_nodelay w in
      let le1 = finite.setsockopt_le fd tcp_nodelay w in
      let le2 = finite.close_le fd w1 in
      elim (Option-cases (net.inet_pton ip)) [
        | inl e ↦ rw (prepare, e) (omega arith)
        | inr (address, e) ↦
            let le3 = connect_to_le address port fd s w1 in rw (prepare, e) (omega arith)
      ]

  tcp_client_connect_le :
      (ip : Bytes) (port : ℕ) (s : ConnStats F) (w : W)
      → budget (tcp_client_connect fp sys net ip port s w).2 ≤ budget w
  unfolding tcp_client_connect
  tcp_client_connect_le ip port s w =
      let (now, w1) = sys.gettime w in
      let (fd, w2) = net.socket w1 in
      let le1 = finite.gettime_le w in
      let le2 = finite.socket_le w1 in
      let le3 = prepare_le ip port fd (record s { start_time = now; state = connecting }) w2 in
      elim (Bool-cases (is_negative fd)) [
        | inl e ↦ rw (tcp_client_connect, e) (omega arith)
        | inr e ↦ rw (tcp_client_connect, e) (omega arith)
      ]

  end_send_le :
      (s : ConnStats F) (o : Option ℕ × W) → budget (end_send fp sys net s o).2 ≤ budget o.1
  unfolding end_send
  end_send_le s (none, w) = finite.free_le w
  end_send_le s (some total, w) =
      let le1 = finite.gettime_le w in let le2 = finite.free_le (sys.gettime w).1 in omega arith

  tcp_client_send_data_ends :
      (fuel : ℕ) (fd : ℤ) (n : ℕ) (s : ConnStats F) (w : W)
      → n + budget w < fuel
      → (o : ℤ × ConnStats F × W) × (tcp_client_send_data fp sys net fuel fd n s w ≡ some o)
        × (budget o.2 ≤ budget w)
  unfolding tcp_client_send_data
  tcp_client_send_data_ends fuel fd n s w enough =
      let (now, w1) = sys.gettime w in
      let (granted, w2) = net.malloc n w1 in
      let le1 = finite.gettime_le w in
      let le2 = finite.malloc_le n w1 in
      let size = length-test_data n in
      let (o, run, le3) =
        send_all_ends fp sys net budget finite fuel fd 0 (test_data n) w2 (omega arith)
          (omega arith) in
      let le4 = end_send_le (record s { state = sending }) o in
      elim (Bool-cases granted) [
        | inl e ↦ (
          end_send fp sys net (record s { state = sending }) o,
          rw (tcp_client_send_data, e, run) refl,
          omega arith,
        )
        | inr e ↦ (
          (minus_one, record s { state = failed }, w2),
          rw (tcp_client_send_data, e) refl,
          omega arith,
        )
      ]

  tcp_client_close_ends :
      (fuel : ℕ) (fd : ℤ) (s : ConnStats F) (w : W)
      → budget w < fuel
      → (o : ℤ × ConnStats F × W) × (tcp_client_close fp sys net fuel fd s w ≡ some o)
        × (budget o.2 ≤ budget w)
        × (o.0 ≡ pos 0)
        × (o.1.state ≡ closed)
  unfolding tcp_client_close end_close close_stats
  tcp_client_close_ends fuel fd s w enough =
      let (start, w1) = sys.gettime w in
      let w2 = (net.setsockopt fd (so_rcvtimeo 5) w1).1 in
      let le1 = finite.gettime_le w in
      let le2 = finite.setsockopt_le fd (so_rcvtimeo 5) w1 in
      let le3 = finite.shutdown_le fd shut_wr w2 in
      let (w3, run, le4) =
        drain_ends fp sys net budget finite fuel fd (net.shutdown fd shut_wr w2) (omega arith) in
      let le5 = finite.close_le fd w3 in
      let le6 = finite.gettime_le (net.close fd w3) in
      (
        end_close fp sys net fd (record s { state = closing }) w3,
        rw (tcp_client_close, run) refl,
        omega arith,
        refl,
        refl,
      )

  after_receive_ends :
      (fuel : ℕ) (fd : ℤ) (o : ℤ × ConnStats F × W)
      → budget o.2 < fuel
      → (o' : ℤ × ConnStats F × W) × (after_receive fp sys net fuel fd o ≡ some o')
        × (budget o'.2 ≤ budget o.2)
        × Ended o'
  unfolding after_receive
  after_receive_ends fuel fd (r, s, w) enough =
      let le = finite.close_le fd w in
      let (o, run, after, zero_result, is_closed) = tcp_client_close_ends fuel fd s w enough in
      elim (Bool-cases (is_negative r)) [
        | inl e ↦ ((minus_one, s, net.close fd w), rw (after_receive, e) refl, le, inr refl)
        | inr e ↦ (o, rw (after_receive, e) run, after, inl (zero_result, is_closed))
      ]

  after_send_ends :
      (fuel : ℕ) (fd : ℤ) (o : ℤ × ConnStats F × W)
      → budget o.2 < fuel
      → (o' : ℤ × ConnStats F × W) × (after_send fp sys net fuel fd o ≡ some o')
        × (budget o'.2 ≤ budget o.2)
        × Ended o'
  unfolding after_send tcp_client_receive_data
  after_send_ends fuel fd (r, s, w) enough =
      let le = finite.close_le fd w in
      let (a, run, le1, answer) =
        receive_loop_ends fp sys net budget finite fuel fd (record s { state = receiving }) w
          enough in
      let (o, run', le2, ended) = after_receive_ends fuel fd a (omega arith) in
      elim (Bool-cases (is_negative r)) [
        | inl e ↦ ((minus_one, s, net.close fd w), rw (after_send, e) refl, le, inr refl)
        | inr e ↦ (o, rw (after_send, e, tcp_client_receive_data, run) run', omega arith, ended)
      ]

  after_connect_ends :
      (fuel n : ℕ) (o : ℤ × ConnStats F × W)
      → n + budget o.2 < fuel
      → (o' : ℤ × ConnStats F × W) × (after_connect fp sys net fuel n o ≡ some o')
        × (budget o'.2 ≤ budget o.2)
        × Ended o'
  unfolding after_connect
  after_connect_ends fuel n (fd, s, w) enough =
      let (a, run, le1) = tcp_client_send_data_ends fuel fd n s w enough in
      let (o, run', le2, ended) = after_send_ends fuel fd a (omega arith) in
      elim (Bool-cases (is_negative fd)) [
        | inl e ↦ ((minus_one, s, w), rw (after_connect, e) refl, omega arith, inr refl)
        | inr e ↦ (o, rw (after_connect, e, run) run', omega arith, ended)
      ]

  pub run_single_connection_ends :
      (fuel : ℕ) (config : BenchConfig) (s : ConnStats F) (w : W)
      → config.data_size + budget w < fuel
      → (o : ℤ × ConnStats F × W) × (run_single_connection fp sys net fuel config s w ≡ some o)
        × (budget o.2 ≤ budget w)
        × Ended o
  unfolding run_single_connection
  run_single_connection_ends fuel config s w enough =
      let le = tcp_client_connect_le (c_string config.target_ip) config.target_port s w in
      let (o, run, le', ended) =
        after_connect_ends fuel config.data_size
          (tcp_client_connect fp sys net (c_string config.target_ip) config.target_port s w)
          (omega arith) in
      (o, run, omega arith, ended)
