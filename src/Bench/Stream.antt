-- ===== src/Bench/Stream.antt =====
-- What `send` and `recv` on a connected socket do to the two streams of the connection, and the loop that
-- sends a whole buffer.
use native.Mathlib.Nat.{zero-add, suc-add}
use tlshub_ebpf.Base.{
  ltb→lt, ℕ, zero, suc, ◌+◌, ◌≤◌, ◌<◌, ◌≡◌, refl, sym, ap, ◌∙◌, ◌⊎◌, inl, inr, ℤ, Bool, true, false,
  some, List, [], ◌∷◌, ◌++◌, Bytes, ltb, length, take, drop, take_all, append_assoc, append-nil,
  Bool-cases, arith,
}
use tlshub_ebpf.Bench.Sockets.{
  Sent, sent, Received, got, interrupted, broken, TcpSockets, Direction, SocketOption,
}
use tlshub_ebpf.Bench.Server.{echo}

-- What was taken for sending, what is still to be received, how often signals will interrupt a call, and
-- how many calls failed.
pub record Conversation : Type 0 where
  pub out : Bytes
  pub pending : Bytes
  pub interrupts : ℕ
  pub failures : ℕ

-- A `send` takes some of the bytes from the front, or none if it is interrupted or fails.
abbrev pub SendLaw : Bytes → Conversation → Sent → Conversation → Type 0
SendLaw bs a (sent n) b =
    (0 < n)
    × (n ≤ length bs)
    × (b.out ≡ a.out ++ take n bs)
    × (b.pending ≡ a.pending)
    × (b.interrupts ≤ a.interrupts)
    × (b.failures ≡ a.failures)
SendLaw bs a interrupted b =
    (b.out ≡ a.out)
    × (b.pending ≡ a.pending)
    × (b.interrupts < a.interrupts)
    × (b.failures ≡ a.failures)
SendLaw bs a broken b =
    (b.out ≡ a.out)
    × (b.pending ≡ a.pending)
    × (b.interrupts ≤ a.interrupts)
    × (b.failures ≡ a.failures + 1)

-- A `recv` gives bytes from the front, at most as many as there is room for, or nothing at the end.
abbrev pub RecvLaw : ℕ → Conversation → Received → Conversation → Type 0
RecvLaw room a (got []) b =
    (a.pending ≡ []) × (b.out ≡ a.out) × (b.interrupts ≤ a.interrupts) × (b.failures ≡ a.failures)
RecvLaw room a (got (c ∷ cs)) b =
    (a.pending ≡ (c ∷ cs) ++ b.pending)
    × (length (c ∷ cs) ≤ room)
    × (b.out ≡ a.out)
    × (b.interrupts ≤ a.interrupts)
    × (b.failures ≡ a.failures)
RecvLaw room a interrupted b =
    (b.out ≡ a.out)
    × (b.pending ≡ a.pending)
    × (b.interrupts < a.interrupts)
    × (b.failures ≡ a.failures)
RecvLaw room a broken b =
    (b.out ≡ a.out)
    × (b.pending ≡ a.pending)
    × (b.interrupts ≤ a.interrupts)
    × (b.failures ≡ a.failures + 1)

-- The calls on one socket follow these laws; the others of the tool leave the streams alone.
pub record IsStream {W : Type 0} (net : TcpSockets W) (fd : ℤ) (view : W → Conversation)
    : Type 0 where
  pub sends :
      (bs : Bytes) (w : W)
      → 0 < length bs
      → SendLaw bs (view w) (net.send fd bs w).0 (view (net.send fd bs w).1)
  pub receives :
      (room : ℕ) (w : W)
      → 0 < room
      → RecvLaw room (view w) (net.recv fd room w).0 (view (net.recv fd room w).1)
  pub close_keeps : (w : W) → view (net.close fd w) ≡ view w
  pub shutdown_keeps : (d : Direction) (w : W) → view (net.shutdown fd d w) ≡ view w
  pub setsockopt_keeps : (o : SocketOption) (w : W) → view (net.setsockopt fd o w).1 ≡ view w

pub Sent-cases : (r : Sent) → ((n : ℕ) × (r ≡ sent n)) ⊎ ((r ≡ interrupted) ⊎ (r ≡ broken))
Sent-cases (sent n) = inl (n, refl)
Sent-cases interrupted = inr (inl refl)
Sent-cases broken = inr (inr refl)

pub take-add {ℓ} :
    {A : Type ℓ} (m n : ℕ) (xs : List A) → take (m + n) xs ≡ take m xs ++ take n (drop m xs)
take-add zero n xs = rw zero-add refl
take-add (suc m) zero [] = rw suc-add refl
take-add (suc m) (suc n) [] = rw suc-add refl
take-add (suc m) n (x ∷ xs) = rw (suc-add, take-add m n xs) refl

pub length-drop_pos {ℓ} :
    {A : Type ℓ} (m : ℕ) (xs : List A) → m < length xs → length (drop m xs) + m ≡ length xs
length-drop_pos zero xs h = omega arith
length-drop_pos (suc m) [] h = elim h [ ]
length-drop_pos (suc m) (x ∷ xs) h = omega (arith, length-drop_pos m xs)

module _ {W : Type 0} (net : TcpSockets W) (fd : ℤ) (view : W → Conversation)
    (stream : IsStream net fd view) where
  -- How the sending of a buffer ends: all of it is on its way, or a call failed on the way.
  abbrev pub SendEnds : Bytes → Conversation → Bool → Conversation → Type 0
  SendEnds buffer a true b =
      (b.out ≡ a.out ++ buffer)
      × (b.pending ≡ a.pending)
      × (b.interrupts ≤ a.interrupts)
      × (b.failures ≡ a.failures)
  SendEnds buffer a false b =
      ((n : ℕ) × (b.out ≡ a.out ++ take n buffer))
      × (b.pending ≡ a.pending)
      × (b.interrupts ≤ a.interrupts)
      × (b.failures ≡ a.failures + 1)

  echo-sent :
      (fuel total n : ℕ) (buffer : Bytes) (w : W)
      → ltb total (length buffer) ≡ true
      → (net.send fd (drop total buffer) w).0 ≡ sent n
      → echo net (suc fuel) fd total buffer w
        ≡ echo net fuel fd (total + n) buffer (net.send fd (drop total buffer) w).1
  unfolding echo
  echo-sent fuel total n buffer w e e' = rw (echo, e, e') refl

  echo-interrupted :
      (fuel total : ℕ) (buffer : Bytes) (w : W)
      → ltb total (length buffer) ≡ true
      → (net.send fd (drop total buffer) w).0 ≡ interrupted
      → echo net (suc fuel) fd total buffer w
        ≡ echo net fuel fd total buffer (net.send fd (drop total buffer) w).1
  unfolding echo
  echo-interrupted fuel total buffer w e e' = rw (echo, e, e') refl

  echo-SendEnds_from :
      (fuel total : ℕ) (buffer : Bytes) (a : Conversation) (w : W)
      → total ≤ length buffer
      → length buffer + (view w).interrupts < fuel + total
      → (view w).out ≡ a.out ++ take total buffer
      → (view w).pending ≡ a.pending
      → (view w).interrupts ≤ a.interrupts
      → (view w).failures ≡ a.failures
      → (o : Bool × W) × (echo net fuel fd total buffer w ≡ some o)
        × SendEnds buffer a o.0 (view o.1)
  unfolding echo
  echo-SendEnds_from zero total buffer a w le enough o p i f = absurd (omega arith)
  echo-SendEnds_from (suc fuel) total buffer a w le enough o p i f =
      elim (Bool-cases (ltb total (length buffer))) [
        | inr e ↦ (
          (true, w),
          rw (echo, e) refl,
          (o ∙ ap (◌++◌ a.out) (take_all total buffer (ground arith)), p, i, f),
        )
        | inl e ↦
            let less = ltb→lt total (length buffer) e in
            let rest = length-drop_pos total buffer less in
            let law = stream.sends (drop total buffer) w (omega arith) in
            elim (Sent-cases (net.send fd (drop total buffer) w).0) [
              | inl (n, e') ↦
                  let (positive, most, o', p', i', f') = rw e' at law in
                  let (x, run, ends) =
                    echo-SendEnds_from fuel (total + n) buffer a
                      (net.send fd (drop total buffer) w).1 (omega arith) (omega arith)
                      (o'
                        ∙ rw (o, take-add total n buffer)
                            (append_assoc a.out (take total buffer) (take n (drop total buffer))))
                      (p' ∙ p) (omega arith) (f' ∙ f) in
                  (x, echo-sent fuel total n buffer w e e' ∙ run, ends)
              | inr (inl e') ↦
                  let (o', p', i', f') = rw e' at law in
                  let (x, run, ends) =
                    echo-SendEnds_from fuel total buffer a (net.send fd (drop total buffer) w).1 le
                      (omega arith) (o' ∙ o) (p' ∙ p) (omega arith) (f' ∙ f) in
                  (x, echo-interrupted fuel total buffer w e e' ∙ run, ends)
              | inr (inr e') ↦
                  let (o', p', i', f') = rw e' at law in
                  (
                    (false, (net.send fd (drop total buffer) w).1),
                    rw (echo, e, e') refl,
                    ((total, o' ∙ o), p' ∙ p, omega arith, f' ∙ ap (λ k. k + 1) f),
                  )
            ]
      ]

  -- `echo` sends the buffer or stops at a failed call, with fuel for each byte and each interrupt.
  pub echo-SendEnds :
      (fuel : ℕ) (buffer : Bytes) (w : W)
      → length buffer + (view w).interrupts < fuel
      → (o : Bool × W) × (echo net fuel fd 0 buffer w ≡ some o)
        × SendEnds buffer (view w) o.0 (view o.1)
  echo-SendEnds fuel buffer w enough =
      echo-SendEnds_from fuel 0 buffer (view w) w (omega arith) (omega arith)
        (sym (append-nil (view w).out)) refl (omega arith) refl
