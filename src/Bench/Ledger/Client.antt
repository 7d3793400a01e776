-- ===== src/Bench/Ledger/Client.antt =====
-- What bench/src/tcp_client.c leaves open and allocated.
use tlshub_ebpf.Base.{
  ℕ, zero, suc, ◌+◌, ◌%◌, ◌^◌, ℤ, is_negative, ◌≡◌, refl, ap, ◌∙◌, ◌⊎◌, inl, inr, true, false,
  Option, none, some, ◌∷◌, Bytes, ltb, leb, length, drop, Bool-cases,
}
use tlshub_ebpf.Base.Holdings.{Holdings, opened, allocated}
use tlshub_ebpf.Metrics.Types.{Doubles, Clock}
use tlshub_ebpf.Bench.Types.{connecting, closing, ConnStats}
use tlshub_ebpf.Bench.Sockets.{tcp_nodelay, so_rcvtimeo, shut_wr, TcpSockets}
use tlshub_ebpf.Bench.Connection.{
  connect_to, prepare, tcp_client_connect, send_all, end_send, test_data, tcp_client_send_data,
  buffer_size, receive_loop, drain, end_close, tcp_client_close,
}
use tlshub_ebpf.Bench.Stream.{Sent-cases}
use tlshub_ebpf.Bench.Received.{Received-cases}
use tlshub_ebpf.Bench.Finite.{Polled-cases}
use tlshub_ebpf.Bench.Ledger.{IsLedger, Leaves, with_fd}

module _ {F : Type 0} (fp : Doubles F) {W : Type 0} (sys : Clock W) (net : TcpSockets W)
    (view : W → Holdings) (ledger : IsLedger sys net view) where
  -- How `tcp_client_connect` ends: without a socket, or with a connected one.
  abbrev pub Connects : Holdings → ℤ × ConnStats F × W → Type 0
  Connects h (fd, s, w) =
      ((is_negative fd ≡ true) × (view w ≡ h))
      ⊎ ((is_negative fd ≡ false) × (view w ≡ with_fd fd h))

  connect_to-Connects :
      (address port : ℕ) (fd : ℤ) (s : ConnStats F) (h : Holdings) (w : W)
      → is_negative fd ≡ false
      → view w ≡ with_fd fd h
      → Connects h (connect_to fp sys net address port fd s w)
  unfolding connect_to
  connect_to-Connects address port fd s h w n e =
      let (r, w1) = net.connect fd address port w in
      let e1 = ledger.connect_keeps fd address port w ∙ e in
      elim (Bool-cases (is_negative r)) [
        | inl b ↦ rw (connect_to, b) (inl (refl, ledger.close_undoes fd h w1 e1))
        | inr b ↦ rw (connect_to, b) (inr (n, ledger.gettime_keeps w1 ∙ e1))
      ]

  Option-cases : (o : Option ℕ) → (o ≡ none) ⊎ ((n : ℕ) × (o ≡ some n))
  Option-cases none = inl refl
  Option-cases (some n) = inr (n, refl)

  prepare-Connects :
      (ip : Bytes) (port : ℕ) (fd : ℤ) (s : ConnStats F) (h : Holdings) (w : W)
      → is_negative fd ≡ false
      → view w ≡ with_fd fd h
      → Connects h (prepare fp sys net ip port fd s w)
  unfolding prepare
  prepare-Connects ip port fd s h w n e =
      let (r, w1) = net.setsockopt fd tcp_nodelay w in
      let e1 = ledger.setsockopt_keeps fd tcp_nodelay w ∙ e in
      elim (Option-cases (net.inet_pton ip)) [
        | inl p ↦ rw (prepare, p) (inl (refl, ledger.close_undoes fd h w1 e1))
        | inr (a, p) ↦ rw (prepare, p) (connect_to-Connects a port fd s h w1 n e1)
      ]

  pub tcp_client_connect-Connects :
      (ip : Bytes) (port : ℕ) (s : ConnStats F) (h : Holdings) (w : W)
      → view w ≡ h
      → Connects h (tcp_client_connect fp sys net ip port s w)
  unfolding tcp_client_connect
  tcp_client_connect-Connects ip port s h w e =
      let (now, w1) = sys.gettime w in
      let (fd, w2) = net.socket w1 in
      let e1 = ledger.gettime_keeps w ∙ e in
      let opens = ledger.socket_opens w1 ∙ ap (opened (is_negative fd) fd) e1 in
      elim (Bool-cases (is_negative fd)) [
        | inl n ↦ let e2 = rw n at opens in rw (tcp_client_connect, n) (inl (refl, e2))
        | inr n ↦
            let e2 = rw n at opens in
            rw (tcp_client_connect, n)
              (prepare-Connects ip port fd (record s { start_time = now; state = connecting }) h w2
                n e2)
      ]

  -- What a step on the socket leaves.
  abbrev pub Keeps : Holdings → Option (ℤ × ConnStats F × W) → Type 0
  Keeps = Leaves (λ o. o.2) view

  send_all-keeps :
      (fuel : ℕ) (fd : ℤ) (total : ℕ) (buffer : Bytes) (h : Holdings) (w : W)
      → view w ≡ h
      → Leaves (λ (o : Option ℕ × W). o.1) view h (send_all fp sys net fuel fd total buffer w)
  unfolding send_all
  send_all-keeps zero fd total buffer h w e = tt
  send_all-keeps (suc fuel) fd total buffer h w e =
      let (r, w1) = net.send fd (drop total buffer) w in
      let e1 = ledger.send_keeps fd (drop total buffer) w ∙ e in
      elim (Bool-cases (ltb total (length buffer))) [
        | inr l ↦ rw (send_all, l) e
        | inl l ↦ elim (Sent-cases r) [
          | inl (n, s) ↦ rw (send_all, l, s) (send_all-keeps fuel fd (total + n) buffer h w1 e1)
          | inr (inl s) ↦ rw (send_all, l, s) (send_all-keeps fuel fd total buffer h w1 e1)
          | inr (inr s) ↦ rw (send_all, l, s) e1
        ]
      ]

  end_send-freed :
      (s : ConnStats F) (h : Holdings) (o : Option ℕ × W)
      → view o.1 ≡ allocated true h
      → view (end_send fp sys net s o).2 ≡ h
  unfolding end_send
  end_send-freed s h (none, w) e = ledger.free_undoes h w e
  end_send-freed s h (some total, w) e =
      ledger.free_undoes h (sys.gettime w).1 (ledger.gettime_keeps w ∙ e)

  pub tcp_client_send_data-Keeps :
      (fuel : ℕ) (fd : ℤ) (data_size : ℕ) (s : ConnStats F) (h : Holdings) (w : W)
      → view w ≡ h
      → Keeps h (tcp_client_send_data fp sys net fuel fd data_size s w)
  unfolding tcp_client_send_data
  tcp_client_send_data-Keeps fuel fd data_size s h w e =
      let (now, w1) = sys.gettime w in
      let (granted, w2) = net.malloc data_size w1 in
      let e1 = ledger.gettime_keeps w ∙ e in
      let grants = ledger.malloc_allocates data_size w1 in
      elim (Bool-cases granted) [
        | inl g ↦
            let e2 = (rw g at grants) ∙ ap (allocated true) e1 in
            rw (tcp_client_send_data, g)
              (freed _ (send_all fp sys net fuel fd 0 (test_data data_size) w2)
                (send_all-keeps fuel fd 0 (test_data data_size) (allocated true h) w2 e2))
        | inr g ↦ let e2 = (rw g at grants) ∙ e1 in rw (tcp_client_send_data, g) e2
      ]
    where
      freed :
          (s1 : ConnStats F) (o : Option (Option ℕ × W))
          → Leaves (λ (x : Option ℕ × W). x.1) view (allocated true h) o
          → Keeps h (elim o [ none ↦ none | some x ↦ some (end_send fp sys net s1 x) ])
      freed s1 none left = tt
      freed s1 (some x) left = end_send-freed s1 h x left

  pub receive_loop-Keeps :
      (fuel : ℕ) (fd : ℤ) (s : ConnStats F) (h : Holdings) (w : W)
      → view w ≡ h
      → Keeps h (receive_loop fp sys net fuel fd s w)
  unfolding receive_loop
  receive_loop-Keeps zero fd s h w e = tt
  receive_loop-Keeps (suc fuel) fd s h w e =
      let (p, w1) = net.poll fd 5000 w in
      let (r, w2) = net.recv fd buffer_size w1 in
      let e1 = ledger.poll_keeps fd 5000 w ∙ e in
      let e2 = ledger.recv_keeps fd buffer_size w1 ∙ e1 in
      elim (Polled-cases p) [
        | inr (inl t) ↦ elim (Bool-cases (ltb s.bytes_received s.bytes_sent)) [
          | inl l ↦ rw (receive_loop, t, l) e1
          | inr l ↦ rw (receive_loop, t, l) e1
        ]
        | inr (inr (inl i)) ↦ rw (receive_loop, i) (receive_loop-Keeps fuel fd s h w1 e1)
        | inr (inr (inr b)) ↦ rw (receive_loop, b) e1
        | inl a ↦ elim (Received-cases r) [
          | inl i ↦ rw (receive_loop, a, i) (receive_loop-Keeps fuel fd s h w2 e2)
          | inr (inl b) ↦ rw (receive_loop, a, b) e2
          | inr (inr (inl z)) ↦ rw (receive_loop, a, z) e2
          | inr (inr (inr (c, cs, g))) ↦
              let s1 : ConnStats F = record s {
                bytes_received = (s.bytes_received + length (c ∷ cs)) % 2 ^ 64;
              } in
              elim (Bool-cases (leb s.bytes_sent s1.bytes_received)) [
                | inl d ↦ rw (receive_loop, a, g, d) e2
                | inr d ↦ rw (receive_loop, a, g, d) (receive_loop-Keeps fuel fd s1 h w2 e2)
              ]
        ]
      ]

  drain-keeps :
      (fuel : ℕ) (fd : ℤ) (h : Holdings) (w : W)
      → view w ≡ h
      → Leaves (λ (w' : W). w') view h (drain fp sys net fuel fd w)
  unfolding drain
  drain-keeps zero fd h w e = tt
  drain-keeps (suc fuel) fd h w e =
      let (r, w1) = net.recv fd 1024 w in
      let e1 = ledger.recv_keeps fd 1024 w ∙ e in
      elim (Received-cases r) [
        | inl i ↦ rw (drain, i) e1
        | inr (inl b) ↦ rw (drain, b) e1
        | inr (inr (inl z)) ↦ rw (drain, z) e1
        | inr (inr (inr (c, cs, g))) ↦ rw (drain, g) (drain-keeps fuel fd h w1 e1)
      ]

  pub tcp_client_close-closed :
      (fuel : ℕ) (fd : ℤ) (s : ConnStats F) (h : Holdings) (w : W)
      → view w ≡ with_fd fd h
      → Keeps h (tcp_client_close fp sys net fuel fd s w)
  unfolding tcp_client_close end_close
  tcp_client_close-closed fuel fd s h w e =
      let (start, w1) = sys.gettime w in
      let (r, w2) = net.setsockopt fd (so_rcvtimeo 5) w1 in
      let w3 = net.shutdown fd shut_wr w2 in
      let e3 =
        ledger.shutdown_keeps fd shut_wr w2
        ∙ ledger.setsockopt_keeps fd (so_rcvtimeo 5) w1
        ∙ ledger.gettime_keeps w
        ∙ e in
      drained (record s { state = closing }) (drain fp sys net fuel fd w3)
        (drain-keeps fuel fd (with_fd fd h) w3 e3)
    where
      drained :
          (s1 : ConnStats F) (o : Option W)
          → Leaves (λ (w' : W). w') view (with_fd fd h) o
          → Keeps h (elim o [ none ↦ none | some w3 ↦ some (end_close fp sys net fd s1 w3) ])
      drained s1 none left = tt
      drained s1 (some w3) left =
          ledger.gettime_keeps (net.close fd w3) ∙ ledger.close_undoes fd h w3 left
