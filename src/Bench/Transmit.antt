-- ===== src/Bench/Transmit.antt =====
-- What `tcp_client_send_data` puts on the stream.
use tlshub_ebpf.Base.{
  ℕ, zero, suc, ◌+◌, ◌++◌, ◌≤◌, ◌<◌, ◌≡◌, refl, sym, ap, ◌∙◌, ◌⊎◌, inl, inr, ℤ, pos, minus_one,
  Bool, true, false, Option, none, some, Bytes, ltb, ltb→lt, subst, append-nil, length, take, drop,
  min, replicate, length-replicate, length-overwrite, Bool-cases, arith,
}
use tlshub_ebpf.Metrics.Types.{Doubles, Clock}
use tlshub_ebpf.Bench.Types.{ConnStats, sending, failed}
use tlshub_ebpf.Bench.Sockets.{TcpSockets}
use tlshub_ebpf.Bench.Connection.{count_from, send_all, end_send, test_data, tcp_client_send_data}
use tlshub_ebpf.Bench.Server.{echo}
use tlshub_ebpf.Bench.Stream.{
  Conversation, IsStream, SendEnds, Sent-cases, length-drop_pos, echo-SendEnds,
}

-- The clock and the memory are apart from the streams.
pub record IsApart {W : Type 0} (sys : Clock W) (net : TcpSockets W) (view : W → Conversation)
    : Type 0 where
  pub gettime_keeps : (w : W) → view (sys.gettime w).1 ≡ view w
  pub malloc_keeps : (n : ℕ) (w : W) → view (net.malloc n w).1 ≡ view w
  pub free_keeps : (w : W) → view (net.free w) ≡ view w

-- The outcome of the client's loop, from that of the server's.
abbrev pub as_total : {W : Type 0} → ℕ → Option (Bool × W) → Option (Option ℕ × W)
as_total n none = none
as_total n (some (true, w)) = some (some n, w)
as_total n (some (false, w)) = some (none, w)

length-count_from : (i n : ℕ) → length (count_from i n) ≡ n
unfolding count_from
length-count_from i zero = refl
length-count_from i (suc n) = ap suc (length-count_from (i + 1) n)

pub length-test_data : (n : ℕ) → length (test_data n) ≡ n
unfolding test_data
length-test_data n =
    let counted = length-count_from 0 (min n 256) in
    let whole : length {A = ℕ} (replicate n 170) ≡ n = length-replicate {A = ℕ} n 170 in
    length-overwrite (count_from 0 (min n 256)) (replicate n 170) (omega arith) ∙ whole

module _ {F : Type 0} (fp : Doubles F) {W : Type 0} (sys : Clock W) (net : TcpSockets W) (fd : ℤ)
    (view : W → Conversation) (stream : IsStream net fd view) where
  pub send_all-echo_from :
      (fuel total : ℕ) (buffer : Bytes) (w : W)
      → total ≤ length buffer
      → send_all fp sys net fuel fd total buffer w
        ≡ as_total (length buffer) (echo net fuel fd total buffer w)
  unfolding send_all echo
  send_all-echo_from zero total buffer w le = refl
  send_all-echo_from (suc fuel) total buffer w le = elim (Bool-cases (ltb total (length buffer))) [
    | inr e ↦
        let same : total ≡ length buffer = ground arith in
        rw (send_all, echo, e) (ap (λ k. some (some k, w)) same)
    | inl e ↦
        let less = ltb→lt total (length buffer) e in
        let rest = length-drop_pos total buffer less in
        let law = stream.sends (drop total buffer) w (omega arith) in
        elim (Sent-cases (net.send fd (drop total buffer) w).0) [
          | inl (n, e') ↦
              let (positive, most, o, p, i, f) = rw e' at law in
              rw (send_all, echo, e, e')
                (send_all-echo_from fuel (total + n) buffer (net.send fd (drop total buffer) w).1
                  (omega arith))
          | inr (inl e') ↦
              rw (send_all, echo, e, e')
                (send_all-echo_from fuel total buffer (net.send fd (drop total buffer) w).1 le)
          | inr (inr e') ↦ rw (send_all, echo, e, e') refl
        ]
  ]

  -- How the sending of the test data ends.
  abbrev pub Transmitted : ℕ → Conversation → ℤ × ConnStats F × W → Type 0
  Transmitted data_size a (r, s, w) =
      ((r ≡ pos 0)
        × (s.bytes_sent ≡ data_size)
        × ((view w).out ≡ a.out ++ test_data data_size)
        × ((view w).pending ≡ a.pending))
      ⊎ ((r ≡ minus_one)
          × (s.state ≡ failed)
          × ((n : ℕ) × ((view w).out ≡ a.out ++ take n (test_data data_size)))
          × ((view w).pending ≡ a.pending))

  module _ (apart : IsApart sys net view) where
    end_send-Transmitted :
        (n : ℕ) (s : ConnStats F) (w : W) (o : Bool × W)
        → SendEnds net fd view stream (test_data n) (view w) o.0 (view o.1)
        → (r : Option ℕ × W) × (as_total n (some o) ≡ some r)
          × Transmitted n (view w) (end_send fp sys net s r)
    unfolding end_send
    end_send-Transmitted n s w (true, w1) (o, p, i, f) = (
      (some n, w1),
      refl,
      inl (
        refl,
        refl,
        ap (λ c. c.out) (apart.free_keeps _ ∙ apart.gettime_keeps _) ∙ o,
        ap (λ c. c.pending) (apart.free_keeps _ ∙ apart.gettime_keeps _) ∙ p,
      ),
    )
    end_send-Transmitted n s w (false, w1) ((m, o), p, i, f) = (
      (none, w1),
      refl,
      inr (
        refl,
        refl,
        (m, ap (λ c. c.out) (apart.free_keeps _) ∙ o),
        ap (λ c. c.pending) (apart.free_keeps _) ∙ p,
      ),
    )

    -- With fuel for each byte and each interruption, `tcp_client_send_data` returns. Its result is 0, the
    -- count of bytes sent is `data_size`, and all of the test data follows what was on the stream; or its
    -- result is -1, the connection is marked as failed and some bytes from the front of the test data follow.
    -- Nothing is received.
    pub tcp_client_send_data-Transmitted :
        (fuel data_size : ℕ) (s : ConnStats F) (w : W)
        → data_size + (view w).interrupts < fuel
        → (o : ℤ × ConnStats F × W) × (tcp_client_send_data fp sys net fuel fd data_size s w
            ≡ some o)
          × Transmitted data_size (view w) o
    unfolding tcp_client_send_data
    tcp_client_send_data-Transmitted fuel n s w enough =
        let (now, w1) = sys.gettime w in
        let (granted, w2) = net.malloc n w1 in
        let same : view w2 ≡ view w = apart.malloc_keeps n w1 ∙ apart.gettime_keeps w in
        let fits = ap (λ c. c.interrupts) same in
        let size = length-test_data n in
        let (o, run, ends) = echo-SendEnds net fd view stream fuel (test_data n) w2 (omega arith) in
        let whole = send_all-echo_from fuel 0 (test_data n) w2 (omega arith) in
        elim (Bool-cases granted) [
          | inl e ↦
              let (r, made, good) =
                end_send-Transmitted n (record s { state = sending }) w2 o ends in
              let outcome : send_all fp sys net fuel fd 0 (test_data n) w2 ≡ some r =
                whole
                ∙ (ap (λ k. as_total k (echo net fuel fd 0 (test_data n) w2)) size
                    ∙ (ap (as_total n) run ∙ made)) in
              (
                end_send fp sys net (record s { state = sending }) r,
                rw (tcp_client_send_data, e, outcome) refl,
                subst (λ c. Transmitted n c (end_send fp sys net (record s { state = sending }) r))
                    same good,
              )
          | inr e ↦ (
            (minus_one, record s { state = failed }, w2),
            rw (tcp_client_send_data, e) refl,
            inr (
              refl,
              refl,
              (0, ap (λ c. c.out) same ∙ sym (append-nil (view w).out)),
              ap (λ c. c.pending) same,
            ),
          )
        ]
