-- ===== src/Bench/Reply.antt =====
-- What `echo_server_handle_client` sends back on the stream.
use tlshub_ebpf.Base.{
  ℕ, zero, suc, ◌+◌, ◌≤◌, ◌<◌, ◌≡◌, refl, sym, ap, ◌∙◌, ◌⊎◌, inl, inr, ℤ, Bool, true, false, some,
  [], ◌∷◌, ◌++◌, append-nil, append_assoc, Bytes, length, length-append, take, drop, arith,
}
use tlshub_ebpf.Bench.Sockets.{got, interrupted, TcpSockets, tcp_nodelay, shut_rdwr}
use tlshub_ebpf.Bench.Server.{echo, finish_client, echo_loop, echo_server_handle_client}
use tlshub_ebpf.Bench.Received.{Received-cases}
use tlshub_ebpf.Bench.Stream.{Conversation, IsStream, SendEnds, echo-SendEnds}

take_append_drop : (n : ℕ) (xs : Bytes) → take n xs ++ drop n xs ≡ xs
take_append_drop zero xs = refl
take_append_drop (suc n) [] = refl
take_append_drop (suc n) (x ∷ xs) = ap (◌∷◌ x) (take_append_drop n xs)

-- How serving a client ends: all that was to be received was sent back, or one call failed and the bytes
-- `lost` at the end were not.
abbrev pub Echoed : Conversation → Conversation → Type 0
Echoed a b =
    ((b.out ≡ a.out ++ a.pending) × (b.failures ≡ a.failures))
    ⊎ ((lost : Bytes) × (b.out ++ lost ≡ a.out ++ a.pending) × (b.failures ≡ a.failures + 1))

Echoed-later :
    (a b c : Conversation)
    → b.out ++ b.pending ≡ a.out ++ a.pending
    → b.failures ≡ a.failures
    → Echoed b c
    → Echoed a c
Echoed-later a b c o f (inl (o', f')) = inl (o' ∙ o, f' ∙ f)
Echoed-later a b c o f (inr (lost, o', f')) = inr (lost, o' ∙ o, f' ∙ ap (λ k. k + 1) f)

-- The bytes `bs` were taken from the front of what was to be received.
abbrev Moved : Bytes → Conversation → Conversation → Type 0
Moved bs a b = (a.pending ≡ bs ++ b.pending) × (b.out ≡ a.out) × (b.failures ≡ a.failures)

Moved-echoed :
    (bs : Bytes) (a b c : Conversation)
    → Moved bs a b
    → c.out ≡ b.out ++ bs
    → c.pending ≡ b.pending
    → c.out ++ c.pending ≡ a.out ++ a.pending
Moved-echoed bs a b c (p, o, f) o' p' = rw (o', p', o, p) (append_assoc a.out bs b.pending)

Moved-lost :
    (n : ℕ) (bs : Bytes) (a b c : Conversation)
    → Moved bs a b
    → c.out ≡ b.out ++ take n bs
    → c.out ++ (drop n bs ++ b.pending) ≡ a.out ++ a.pending
Moved-lost n bs a b c (p, o, f) o' =
    rw (o', o, p)
      (append_assoc a.out (take n bs) (drop n bs ++ b.pending)
        ∙ ap (◌++◌ a.out) (
            sym (append_assoc (take n bs) (drop n bs) b.pending)
            ∙ ap (λ z. z ++ b.pending) (take_append_drop n bs)))

module _ {W : Type 0} (net : TcpSockets W) (fd : ℤ) (view : W → Conversation)
    (stream : IsStream net fd view) where
  finish_client_keeps : (w : W) → view (finish_client net fd w) ≡ view w
  unfolding finish_client
  finish_client_keeps w = stream.close_keeps _ ∙ stream.shutdown_keeps shut_rdwr w

  echo_loop-interrupted :
      (round fuel : ℕ) (w : W)
      → (net.recv fd 65536 w).0 ≡ interrupted
      → echo_loop net (suc round) fuel fd w ≡ echo_loop net round fuel fd (net.recv fd 65536 w).1
  unfolding echo_loop
  echo_loop-interrupted round fuel w e = rw (echo_loop, e) refl

  echo_loop-echoed :
      (round fuel c : ℕ) (cs : Bytes) (w w' : W)
      → (net.recv fd 65536 w).0 ≡ got (c ∷ cs)
      → echo net fuel fd 0 (c ∷ cs) (net.recv fd 65536 w).1 ≡ some (true, w')
      → echo_loop net (suc round) fuel fd w ≡ echo_loop net round fuel fd w'
  unfolding echo_loop
  echo_loop-echoed round fuel c cs w w' e e' = rw (echo_loop, e, e') refl

  echo_loop-heard :
      (round fuel c : ℕ) (cs : Bytes) (w : W) (x : Bool × W)
      → (net.recv fd 65536 w).0 ≡ got (c ∷ cs)
      → echo net fuel fd 0 (c ∷ cs) (net.recv fd 65536 w).1 ≡ some x
      → Moved (c ∷ cs) (view w) (view (net.recv fd 65536 w).1)
      → SendEnds net fd view stream (c ∷ cs) (view (net.recv fd 65536 w).1) x.0 (view x.1)
      → ((view x.1).pending ≡ (view (net.recv fd 65536 w).1).pending
          → (view x.1).interrupts ≤ (view (net.recv fd 65536 w).1).interrupts
          → (w' : W) × (echo_loop net round fuel fd x.1 ≡ some w') × Echoed (view x.1) (view w'))
      → (w' : W) × (echo_loop net (suc round) fuel fd w ≡ some w') × Echoed (view w) (view w')
  unfolding echo_loop
  echo_loop-heard round fuel c cs w (true, w2) e run moved (o, p, i, f) rest =
      let (w', run', ends) = rest p i in
      (
        w',
        echo_loop-echoed round fuel c cs w w2 e run ∙ run',
        Echoed-later (view w) (view w2) (view w')
            (Moved-echoed (c ∷ cs) (view w) (view (net.recv fd 65536 w).1) (view w2) moved o p)
            (f ∙ moved.2) ends,
      )
  echo_loop-heard round fuel c cs w (false, w2) e run moved ((n, o), p, i, f) rest = (
    net.close fd w2,
    rw (echo_loop, e, run) refl,
    inr (
      drop n (c ∷ cs) ++ (view (net.recv fd 65536 w).1).pending,
      rw (stream.close_keeps w2)
          (Moved-lost n (c ∷ cs) (view w) (view (net.recv fd 65536 w).1) (view w2) moved o),
      rw (stream.close_keeps w2) (f ∙ ap (λ k. k + 1) moved.2),
    ),
  )

  echo_loop-Echoed :
      (round fuel : ℕ) (w : W)
      → length (view w).pending + (view w).interrupts < round
      → 65536 + (view w).interrupts < fuel
      → (w' : W) × (echo_loop net round fuel fd w ≡ some w') × Echoed (view w) (view w')
  unfolding echo_loop
  echo_loop-Echoed zero fuel w rounds enough = absurd (omega arith)
  echo_loop-Echoed (suc round) fuel w rounds enough =
      let w1 = (net.recv fd 65536 w).1 in
      let law = stream.receives 65536 w (omega arith) in
      elim (Received-cases (net.recv fd 65536 w).0) [
        | inl e ↦
            let (o, p, i, f) = rw e at law in
            let len = ap length p in
            let (w', run, ends) = echo_loop-Echoed round fuel w1 (omega arith) (omega arith) in
            (
              w',
              echo_loop-interrupted round fuel w e ∙ run,
              Echoed-later (view w) (view w1) (view w') (rw (o, p) refl) f ends,
            )
        | inr (inl e) ↦
            let (o, p, i, f) = rw e at law in
            let kept = finish_client_keeps w1 in
            (
              finish_client net fd w1,
              rw (echo_loop, e) refl,
              inr ((view w).pending, rw (kept, o) refl, rw kept f),
            )
        | inr (inr (inl e)) ↦
            let (none_left, o, i, f) = rw e at law in
            let kept = finish_client_keeps w1 in
            (
              finish_client net fd w1,
              rw (echo_loop, e) refl,
              inl (rw (kept, o, none_left) (sym (append-nil (view w).out)), rw kept f),
            )
        | inr (inr (inr (c, cs, e))) ↦
            let (p, most, o, i, f) = rw e at law in
            let len = ap length p ∙ length-append (c ∷ cs) (view w1).pending in
            let (x, run, ends) = echo-SendEnds net fd view stream fuel (c ∷ cs) w1 (omega arith) in
            echo_loop-heard round fuel c cs w x e run (p, o, f) ends
              (λ p' i'.
                let len' = ap length p' in
                echo_loop-Echoed round fuel x.1 (omega arith) (omega arith))
      ]

  -- With a round for each byte that is to be received and each interruption, and fuel for a full buffer and
  -- each interruption, `echo_server_handle_client` returns. Either all that was to be received was sent back,
  -- in order and once, and no call failed; or one call failed, and what was sent back lacks only bytes at
  -- the end.
  pub echo_server_handle_client-Echoed :
      (rounds fuel : ℕ) (w : W)
      → length (view w).pending + (view w).interrupts < rounds
      → 65536 + (view w).interrupts < fuel
      → (w' : W) × (echo_server_handle_client net rounds fuel fd w ≡ some w')
        × Echoed (view w) (view w')
  unfolding echo_server_handle_client
  echo_server_handle_client-Echoed rounds fuel w turns enough =
      let kept = stream.setsockopt_keeps tcp_nodelay w in
      rw (sym kept) (
        echo_loop-Echoed rounds fuel (net.setsockopt fd tcp_nodelay w).1 (rw kept turns)
          (rw kept enough))
