-- ===== src/Bench/Finite.antt =====
-- The loops of bench/src/tcp_client.c end when only finitely many bytes arrive and finitely many signals come.
use tlshub_ebpf.Base.{
  ℕ, zero, suc, ◌+◌, ◌≤◌, ◌<◌, ◌≡◌, refl, ◌∙◌, ◌⊎◌, inl, inr, ℤ, true, Option, none, some, [], ◌∷◌,
  Bytes, ltb, ltb→lt, length, drop, Bool-cases, arith,
}
use tlshub_ebpf.Metrics.Types.{Doubles, Clock}
use tlshub_ebpf.Bench.Sockets.{
  Sent, sent, Received, got, Polled, ready, timed_out, interrupted, broken, SocketOption, Direction,
  TcpSockets,
}
use tlshub_ebpf.Bench.Connection.{send_all, drain}
use tlshub_ebpf.Bench.Stream.{Sent-cases, length-drop_pos}
use tlshub_ebpf.Bench.Received.{Received-cases}

-- What a call takes from a budget of bytes to come and of signals: `a` before, `b` after. A `send` is offered
-- `size` bytes.
abbrev pub SendCost : ℕ → ℕ → Sent → ℕ → Type 0
SendCost size a (sent n) b = (0 < n) × (n ≤ size) × (b ≤ a)
SendCost size a interrupted b = b < a
SendCost size a broken b = b ≤ a

abbrev pub RecvCost : ℕ → Received → ℕ → Type 0
RecvCost a (got []) b = b ≤ a
RecvCost a (got (c ∷ cs)) b = b < a
RecvCost a interrupted b = b < a
RecvCost a broken b = b ≤ a

abbrev pub PollCost : ℕ → Polled → ℕ → Type 0
PollCost a ready b = b ≤ a
PollCost a timed_out b = b ≤ a
PollCost a interrupted b = b < a
PollCost a broken b = b ≤ a

pub record IsFinite {W : Type 0} (sys : Clock W) (net : TcpSockets W) (budget : W → ℕ)
    : Type 0 where
  pub sends :
      (fd : ℤ) (bs : Bytes) (w : W)
      → 0 < length bs
      → SendCost (length bs) (budget w) (net.send fd bs w).0 (budget (net.send fd bs w).1)
  pub receives :
      (fd : ℤ) (room : ℕ) (w : W)
      → RecvCost (budget w) (net.recv fd room w).0 (budget (net.recv fd room w).1)
  pub polls :
      (fd : ℤ) (ms : ℕ) (w : W)
      → PollCost (budget w) (net.poll fd ms w).0 (budget (net.poll fd ms w).1)
  pub gettime_le : (w : W) → budget (sys.gettime w).1 ≤ budget w
  pub socket_le : (w : W) → budget (net.socket w).1 ≤ budget w
  pub setsockopt_le :
      (fd : ℤ) (o : SocketOption) (w : W) → budget (net.setsockopt fd o w).1 ≤ budget w
  pub connect_le : (fd : ℤ) (a p : ℕ) (w : W) → budget (net.connect fd a p w).1 ≤ budget w
  pub shutdown_le : (fd : ℤ) (d : Direction) (w : W) → budget (net.shutdown fd d w) ≤ budget w
  pub close_le : (fd : ℤ) (w : W) → budget (net.close fd w) ≤ budget w
  pub malloc_le : (n : ℕ) (w : W) → budget (net.malloc n w).1 ≤ budget w
  pub free_le : (w : W) → budget (net.free w) ≤ budget w
  pub usleep_le : (us : ℕ) (w : W) → budget (net.usleep us w) ≤ budget w

pub Polled-cases :
    (r : Polled) → (r ≡ ready) ⊎ ((r ≡ timed_out) ⊎ ((r ≡ interrupted) ⊎ (r ≡ broken)))
Polled-cases ready = inl refl
Polled-cases timed_out = inr (inl refl)
Polled-cases interrupted = inr (inr (inl refl))
Polled-cases broken = inr (inr (inr refl))

module _ {F : Type 0} (fp : Doubles F) {W : Type 0} (sys : Clock W) (net : TcpSockets W)
    (budget : W → ℕ) (finite : IsFinite sys net budget) where
  send_all-sent :
      (fuel : ℕ) (fd : ℤ) (total n : ℕ) (buffer : Bytes) (w : W)
      → ltb total (length buffer) ≡ true
      → (net.send fd (drop total buffer) w).0 ≡ sent n
      → send_all fp sys net (suc fuel) fd total buffer w
        ≡ send_all fp sys net fuel fd (total + n) buffer (net.send fd (drop total buffer) w).1
  unfolding send_all
  send_all-sent fuel fd total n buffer w e e' = rw (send_all, e, e') refl

  send_all-interrupted :
      (fuel : ℕ) (fd : ℤ) (total : ℕ) (buffer : Bytes) (w : W)
      → ltb total (length buffer) ≡ true
      → (net.send fd (drop total buffer) w).0 ≡ interrupted
      → send_all fp sys net (suc fuel) fd total buffer w
        ≡ send_all fp sys net fuel fd total buffer (net.send fd (drop total buffer) w).1
  unfolding send_all
  send_all-interrupted fuel fd total buffer w e e' = rw (send_all, e, e') refl

  pub send_all_ends :
      (fuel : ℕ) (fd : ℤ) (total : ℕ) (buffer : Bytes) (w : W)
      → total ≤ length buffer
      → length buffer + budget w < fuel + total
      → (o : Option ℕ × W) × (send_all fp sys net fuel fd total buffer w ≡ some o)
        × (budget o.1 ≤ budget w)
  unfolding send_all
  send_all_ends zero fd total buffer w le enough = absurd (omega arith)
  send_all_ends (suc fuel) fd total buffer w le enough =
      elim (Bool-cases (ltb total (length buffer))) [
        | inr e ↦ ((some total, w), rw (send_all, e) refl, omega arith)
        | inl e ↦
            let w1 = (net.send fd (drop total buffer) w).1 in
            let less = ltb→lt total (length buffer) e in
            let rest = length-drop_pos total buffer less in
            let cost = finite.sends fd (drop total buffer) w (omega arith) in
            elim (Sent-cases (net.send fd (drop total buffer) w).0) [
              | inl (n, e') ↦
                  let (positive, most, least) = rw e' at cost in
                  let (o, run, after) =
                    send_all_ends fuel fd (total + n) buffer w1 (omega arith) (omega arith) in
                  (o, send_all-sent fuel fd total n buffer w e e' ∙ run, omega arith)
              | inr (inl e') ↦
                  let least = rw e' at cost in
                  let (o, run, after) = send_all_ends fuel fd total buffer w1 le (omega arith) in
                  (o, send_all-interrupted fuel fd total buffer w e e' ∙ run, omega arith)
              | inr (inr e') ↦
                  let least = rw e' at cost in ((none, w1), rw (send_all, e, e') refl, least)
            ]
      ]

  drain_more :
      (fuel : ℕ) (fd : ℤ) (c : ℕ) (cs : Bytes) (w : W)
      → (net.recv fd 1024 w).0 ≡ got (c ∷ cs)
      → drain fp sys net (suc fuel) fd w ≡ drain fp sys net fuel fd (net.recv fd 1024 w).1
  unfolding drain
  drain_more fuel fd c cs w e = rw (drain, e) refl

  pub drain_ends :
      (fuel : ℕ) (fd : ℤ) (w : W)
      → budget w < fuel
      → (w' : W) × (drain fp sys net fuel fd w ≡ some w') × (budget w' ≤ budget w)
  unfolding drain
  drain_ends zero fd w enough = absurd (omega arith)
  drain_ends (suc fuel) fd w enough =
      let w1 = (net.recv fd 1024 w).1 in
      let cost = finite.receives fd 1024 w in
      elim (Received-cases (net.recv fd 1024 w).0) [
        | inl e ↦ let less = rw e at cost in (w1, rw (drain, e) refl, omega arith)
        | inr (inl e) ↦ let less = rw e at cost in (w1, rw (drain, e) refl, less)
        | inr (inr (inl e)) ↦ let less = rw e at cost in (w1, rw (drain, e) refl, less)
        | inr (inr (inr (c, cs, e))) ↦
            let less = rw e at cost in
            let (w', run, le) = drain_ends fuel fd w1 (omega arith) in
            (w', drain_more fuel fd c cs w e ∙ run, omega arith)
      ]
