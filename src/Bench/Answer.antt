-- ===== src/Bench/Answer.antt =====
-- The loop of `tcp_client_receive_data` ends when only finitely many bytes arrive and finitely many signals come.
use tlshub_ebpf.Base.{
  ℕ, zero, suc, ◌+◌, ◌%◌, ◌^◌, ◌≤◌, ◌<◌, ◌≡◌, refl, ◌∙◌, ◌⊎◌, inl, inr, ℤ, pos, minus_one, false,
  some, ◌∷◌, Bytes, ltb, leb, length, Bool-cases, arith,
}
use tlshub_ebpf.Metrics.Types.{Doubles, Clock}
use tlshub_ebpf.Bench.Types.{ConnStats, failed, timeout}
use tlshub_ebpf.Bench.Sockets.{got, ready, interrupted, TcpSockets}
use tlshub_ebpf.Bench.Connection.{receive_loop}
use tlshub_ebpf.Bench.Received.{Received-cases}
use tlshub_ebpf.Bench.Finite.{IsFinite, Polled-cases}

abbrev counted : {F : Type 0} → ConnStats F → Bytes → ConnStats F
counted s bs = record s { bytes_received = (s.bytes_received + length bs) % 2 ^ 64 }

module _ {F : Type 0} (fp : Doubles F) {W : Type 0} (sys : Clock W) (net : TcpSockets W)
    (budget : W → ℕ) (finite : IsFinite sys net budget) where
  receive_loop-interrupted :
      (fuel : ℕ) (fd : ℤ) (s : ConnStats F) (w : W)
      → (net.poll fd 5000 w).0 ≡ interrupted
      → receive_loop fp sys net (suc fuel) fd s w
        ≡ receive_loop fp sys net fuel fd s (net.poll fd 5000 w).1
  unfolding receive_loop
  receive_loop-interrupted fuel fd s w e = rw (receive_loop, e) refl

  receive_loop-ready_interrupted :
      (fuel : ℕ) (fd : ℤ) (s : ConnStats F) (w : W)
      → (net.poll fd 5000 w).0 ≡ ready
      → (net.recv fd 65536 (net.poll fd 5000 w).1).0 ≡ interrupted
      → receive_loop fp sys net (suc fuel) fd s w
        ≡ receive_loop fp sys net fuel fd s (net.recv fd 65536 (net.poll fd 5000 w).1).1
  unfolding receive_loop
  receive_loop-ready_interrupted fuel fd s w e e' = rw (receive_loop, e, e') refl

  receive_loop-ready_more :
      (fuel : ℕ) (fd : ℤ) (c : ℕ) (cs : Bytes) (s : ConnStats F) (w : W)
      → (net.poll fd 5000 w).0 ≡ ready
      → (net.recv fd 65536 (net.poll fd 5000 w).1).0 ≡ got (c ∷ cs)
      → leb s.bytes_sent (counted s (c ∷ cs)).bytes_received ≡ false
      → receive_loop fp sys net (suc fuel) fd s w
        ≡ receive_loop fp sys net fuel fd
            (counted s (c ∷ cs))
            (net.recv fd 65536 (net.poll fd 5000 w).1).1
  unfolding receive_loop
  receive_loop-ready_more fuel fd c cs s w e e' e2 = rw (receive_loop, e, e', e2) refl

  -- With the budget as fuel the loop ends: with the state as it was, or the connection has failed or timed out.
  pub receive_loop_ends :
      (fuel : ℕ) (fd : ℤ) (s : ConnStats F) (w : W)
      → budget w < fuel
      → (o : ℤ × ConnStats F × W) × (receive_loop fp sys net fuel fd s w ≡ some o)
        × (budget o.2 ≤ budget w)
        × ((o.0 ≡ pos 0) ⊎ (o.0 ≡ minus_one))
  unfolding receive_loop
  receive_loop_ends zero fd s w enough = absurd (omega arith)
  receive_loop_ends (suc fuel) fd s w enough =
      let w1 = (net.poll fd 5000 w).1 in
      let w2 = (net.recv fd 65536 w1).1 in
      let polled = finite.polls fd 5000 w in
      let cost = finite.receives fd 65536 w1 in
      elim (Polled-cases (net.poll fd 5000 w).0) [
        | inl e ↦
            let less = rw e at polled in
            elim (Received-cases (net.recv fd 65536 w1).0) [
              | inl e' ↦
                  let less' = rw e' at cost in
                  let (o, run, after, r) = receive_loop_ends fuel fd s w2 (omega arith) in
                  (o, receive_loop-ready_interrupted fuel fd s w e e' ∙ run, omega arith, r)
              | inr (inl e') ↦
                  let less' = rw e' at cost in
                  (
                    (minus_one, record s { state = failed }, w2),
                    rw (receive_loop, e, e') refl,
                    omega arith,
                    inr refl,
                  )
              | inr (inr (inl e')) ↦
                  let less' = rw e' at cost in
                  ((pos 0, s, w2), rw (receive_loop, e, e') refl, omega arith, inl refl)
              | inr (inr (inr (c, cs, e'))) ↦
                  let less' = rw e' at cost in
                  elim (Bool-cases (leb s.bytes_sent (counted s (c ∷ cs)).bytes_received)) [
                    | inl e2 ↦ (
                      (pos 0, counted s (c ∷ cs), w2),
                      rw (receive_loop, e, e', e2) refl,
                      omega arith,
                      inl refl,
                    )
                    | inr e2 ↦
                        let (o, run, after, r) =
                          receive_loop_ends fuel fd (counted s (c ∷ cs)) w2 (omega arith) in
                        (o, receive_loop-ready_more fuel fd c cs s w e e' e2 ∙ run, omega arith, r)
                  ]
            ]
        | inr (inl e) ↦
            let less = rw e at polled in
            elim (Bool-cases (ltb s.bytes_received s.bytes_sent)) [
              | inl e' ↦ (
                (minus_one, record s { state = timeout }, w1),
                rw (receive_loop, e, e') refl,
                less,
                inr refl,
              )
              | inr e' ↦ ((pos 0, s, w1), rw (receive_loop, e, e') refl, less, inl refl)
            ]
        | inr (inr (inl e)) ↦
            let less = rw e at polled in
            let (o, run, after, r) = receive_loop_ends fuel fd s w1 (omega arith) in
            (o, receive_loop-interrupted fuel fd s w e ∙ run, omega arith, r)
        | inr (inr (inr e)) ↦
            let less = rw e at polled in
            (
              (minus_one, record s { state = failed }, w1),
              rw (receive_loop, e) refl,
              less,
              inr refl,
            )
      ]
