-- ===== src/Bench/Ledger/Server.antt =====
-- What bench/src/echo_server.c leaves open.
use tlshub_ebpf.Base.{
  ℕ, zero, suc, ◌+◌, ℤ, pos, is_negative, ◌≡◌, refl, ◌∙◌, ◌⊎◌, inl, inr, Bool, true, false, Option,
  none, some, ◌∷◌, Bytes, ltb, length, drop, Bool-cases,
}
use tlshub_ebpf.Base.Holdings.{Holdings}
use tlshub_ebpf.Metrics.Types.{Clock}
use tlshub_ebpf.Bench.Sockets.{tcp_nodelay, so_reuseaddr, so_reuseport, shut_rdwr, TcpSockets}
use tlshub_ebpf.Bench.Server.{
  keep_running, start_listening, start_bind, echo_server_start, echo, finish_client, echo_loop,
  echo_server_handle_client, accept_loop, run_echo_server,
}
use tlshub_ebpf.Bench.Stream.{Sent-cases}
use tlshub_ebpf.Bench.Received.{Received-cases}
use tlshub_ebpf.Bench.Ledger.{Accepted-cases, IsLedger, Leaves, with_fd}

module _ {W : Type 0} (sys : Clock W) (net : TcpSockets W) (view : W → Holdings)
    (ledger : IsLedger sys net view) where
  -- How `echo_server_start` ends: without a socket, or with the one that listens.
  abbrev Starts : Holdings → ℤ × W → Type 0
  Starts h (fd, w) =
      ((is_negative fd ≡ true) × (view w ≡ h))
      ⊎ ((is_negative fd ≡ false) × (view w ≡ with_fd fd h))

  start_listening-Starts :
      (h : Holdings) (fd : ℤ) (w : W)
      → is_negative fd ≡ false
      → view w ≡ with_fd fd h
      → Starts h (start_listening net fd w)
  unfolding start_listening
  start_listening-Starts h fd w n e =
      let (r, w1) = net.listen fd 128 w in
      let e1 = ledger.listen_keeps fd 128 w ∙ e in
      elim (Bool-cases (is_negative r)) [
        | inl b ↦ rw (start_listening, b) (inl (refl, ledger.close_undoes fd h w1 e1))
        | inr b ↦ rw (start_listening, b) (inr (n, e1))
      ]

  start_bind-Starts :
      (h : Holdings) (port : ℕ) (fd : ℤ) (w : W)
      → is_negative fd ≡ false
      → view w ≡ with_fd fd h
      → Starts h (start_bind net port fd w)
  unfolding start_bind
  start_bind-Starts h port fd w n e =
      let (reuseaddr, w1) = net.setsockopt fd so_reuseaddr w in
      let (reuseport, w2) = net.setsockopt fd so_reuseport w1 in
      let (bound, w3) = net.bind fd port w2 in
      let e1 = ledger.setsockopt_keeps fd so_reuseaddr w ∙ e in
      let e2 = ledger.setsockopt_keeps fd so_reuseport w1 ∙ e1 in
      let e3 = ledger.bind_keeps fd port w2 ∙ e2 in
      elim (Bool-cases (is_negative reuseaddr)) [
        | inl a ↦ rw (start_bind, a) (inl (refl, ledger.close_undoes fd h w1 e1))
        | inr a ↦ elim (Bool-cases (is_negative reuseport)) [
          | inl p ↦ rw (start_bind, a, p) (inl (refl, ledger.close_undoes fd h w2 e2))
          | inr p ↦ elim (Bool-cases (is_negative bound)) [
            | inl b ↦ rw (start_bind, a, p, b) (inl (refl, ledger.close_undoes fd h w3 e3))
            | inr b ↦ rw (start_bind, a, p, b) (start_listening-Starts h fd w3 n e3)
          ]
        ]
      ]

  echo_server_start-Starts : (port : ℕ) (w : W) → Starts (view w) (echo_server_start net port w)
  unfolding echo_server_start
  echo_server_start-Starts port w =
      let (fd, w1) = net.socket w in
      let opens = ledger.socket_opens w in
      elim (Bool-cases (is_negative fd)) [
        | inl n ↦ let e = rw n at opens in rw (echo_server_start, n) (inl (refl, e))
        | inr n ↦
            let e = rw n at opens in
            rw (echo_server_start, n) (start_bind-Starts (view w) port fd w1 n e)
      ]

  abbrev Kept : Holdings → Option (Bool × W) → Type 0
  Kept = Leaves (λ o. o.1) view

  abbrev Left : Holdings → Option W → Type 0
  Left = Leaves (λ w. w) view

  echo-Kept :
      (fuel : ℕ) (fd : ℤ) (total : ℕ) (buffer : Bytes) (h : Holdings) (w : W)
      → view w ≡ h
      → Kept h (echo net fuel fd total buffer w)
  unfolding echo
  echo-Kept zero fd total buffer h w e = tt
  echo-Kept (suc fuel) fd total buffer h w e =
      let (r, w1) = net.send fd (drop total buffer) w in
      let e1 = ledger.send_keeps fd (drop total buffer) w ∙ e in
      elim (Bool-cases (ltb total (length buffer))) [
        | inr l ↦ rw (echo, l) e
        | inl l ↦ elim (Sent-cases r) [
          | inl (n, s) ↦ rw (echo, l, s) (echo-Kept fuel fd (total + n) buffer h w1 e1)
          | inr (inl s) ↦ rw (echo, l, s) (echo-Kept fuel fd total buffer h w1 e1)
          | inr (inr s) ↦ rw (echo, l, s) e1
        ]
      ]

  finish_client-closed :
      (fd : ℤ) (h : Holdings) (w : W) → view w ≡ with_fd fd h → view (finish_client net fd w) ≡ h
  unfolding finish_client
  finish_client-closed fd h w e =
      ledger.close_undoes fd h (net.shutdown fd shut_rdwr w)
        (ledger.shutdown_keeps fd shut_rdwr w ∙ e)

  echo_loop-Left :
      (round fuel : ℕ) (fd : ℤ) (h : Holdings) (w : W)
      → view w ≡ with_fd fd h
      → Left h (echo_loop net round fuel fd w)
  unfolding echo_loop
  echo_loop-Left zero fuel fd h w e = tt
  echo_loop-Left (suc round) fuel fd h w e =
      let (r, w1) = net.recv fd 65536 w in
      let e1 = ledger.recv_keeps fd 65536 w ∙ e in
      elim (Received-cases r) [
        | inl i ↦ rw (echo_loop, i) (echo_loop-Left round fuel fd h w1 e1)
        | inr (inl b) ↦ rw (echo_loop, b) (finish_client-closed fd h w1 e1)
        | inr (inr (inl z)) ↦ rw (echo_loop, z) (finish_client-closed fd h w1 e1)
        | inr (inr (inr (c, cs, g))) ↦
            rw (echo_loop, g)
              (sent_back (echo net fuel fd 0 (c ∷ cs) w1) (echo_loop net round fuel fd)
                (echo_loop-Left round fuel fd h)
                (echo-Kept fuel fd 0 (c ∷ cs) (with_fd fd h) w1 e1))
      ]
    where
      sent_back :
          (o : Option (Bool × W)) (again : W → Option W)
          → ((w' : W) → view w' ≡ with_fd fd h → Left h (again w'))
          → Kept (with_fd fd h) o
          → Left h (elim o [
            | none ↦ none
            | some o' ↦ elim o'.0 [ true ↦ again o'.1 | false ↦ some (net.close fd o'.1) ]
          ])
      sent_back none again every left = tt
      sent_back (some (true, w')) again every left = every w' left
      sent_back (some (false, w')) again every left = ledger.close_undoes fd h w' left

  echo_server_handle_client-Left :
      (rounds fuel : ℕ) (fd : ℤ) (h : Holdings) (w : W)
      → view w ≡ with_fd fd h
      → Left h (echo_server_handle_client net rounds fuel fd w)
  unfolding echo_server_handle_client
  echo_server_handle_client-Left rounds fuel fd h w e =
      echo_loop-Left rounds fuel fd h (net.setsockopt fd tcp_nodelay w).1
        (ledger.setsockopt_keeps fd tcp_nodelay w ∙ e)

  accept_loop-Left :
      (turns rounds fuel : ℕ) (fd : ℤ) (h : Holdings) (w : W)
      → view w ≡ with_fd fd h
      → Left h (accept_loop net turns rounds fuel fd w)
  unfolding accept_loop
  accept_loop-Left zero rounds fuel fd h w e = tt
  accept_loop-Left (suc turns) rounds fuel fd h w e =
      let (r, w1) = net.accept fd w in
      let opens = ledger.accept_opens fd w in
      elim (Bool-cases (keep_running net w)) [
        | inr k ↦ rw (accept_loop, k) (ledger.close_undoes fd h w e)
        | inl k ↦ elim (Accepted-cases r) [
          | inl (client_fd, a) ↦
              let opens' = rw (a, e) at opens in
              rw (accept_loop, k, a)
                (served (echo_server_handle_client net rounds fuel client_fd w1)
                  (accept_loop net turns rounds fuel fd) (accept_loop-Left turns rounds fuel fd h)
                  (echo_server_handle_client-Left rounds fuel client_fd (with_fd fd h) w1 opens'))
          | inr (inl i) ↦
              let opens' = rw (i, e) at opens in
              rw (accept_loop, k, i) (accept_loop-Left turns rounds fuel fd h w1 opens')
          | inr (inr b) ↦
              let opens' = rw (b, e) at opens in
              rw (accept_loop, k, b) (ledger.close_undoes fd h w1 opens')
        ]
      ]
    where
      served :
          (o : Option W) (again : W → Option W)
          → ((w' : W) → view w' ≡ with_fd fd h → Left h (again w'))
          → Left (with_fd fd h) o
          → Left h (elim o [ none ↦ none | some w' ↦ again w' ])
      served none again every left = tt
      served (some w') again every left = every w' left

  -- However the server ends, the sockets that are open are those from before.
  pub run_echo_server-Leaves :
      (turns rounds fuel port : ℕ) (w : W)
      → Leaves (λ (o : ℤ × W). o.1) view (view w) (run_echo_server net turns rounds fuel port w)
  unfolding run_echo_server
  run_echo_server-Leaves turns rounds fuel port w =
      let (fd, w1) = echo_server_start net port w in
      elim (echo_server_start-Starts port w) [
        | inl (n, e) ↦ rw (run_echo_server, n) e
        | inr (n, e) ↦
            rw (run_echo_server, n)
              (stopped (accept_loop net turns rounds fuel fd w1)
                (accept_loop-Left turns rounds fuel fd (view w) w1 e))
      ]
    where
      stopped :
          (o : Option W)
          → Left (view w) o
          → Leaves
              (λ (x : ℤ × W). x.1)
              view
              (view w)
              (elim o [ none ↦ none | some w2 ↦ some (pos 0, w2) ])
      stopped none left = tt
      stopped (some w2) left = left
