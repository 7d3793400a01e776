-- ===== src/Metrics/Record/Transfers.antt =====
-- The bytes of one connection over a sequence of data transfers.
use tlshub_ebpf.Base.{
  ℕ, ◌+◌, ◌%◌, ◌^◌, ◌<◌, ◌≡◌, ◌&&◌, inl, inr, List, [], ◌∷◌, ◌==◌, ltb, Bool-cases, arith,
}
use tlshub_ebpf.Metrics.Types.{Doubles, Clock, ConnectionMetrics, perf_time_diff_ns}
use tlshub_ebpf.Metrics.Record.{mark_first, measure_throughput, transfer}

abbrev pub sum_sent : List (ℕ × ℕ) → ℕ
sum_sent [] = 0
sum_sent (x ∷ xs) = x.0 + sum_sent xs

abbrev pub sum_received : List (ℕ × ℕ) → ℕ
sum_received [] = 0
sum_received (x ∷ xs) = x.1 + sum_received xs

module _ {ℓ} {W F : Type ℓ} (sys : Clock W) (fp : Doubles F) where
  -- The transfers of a tracked connection, one after the other: bytes sent and received by each.
  unfoldable pub transfers : List (ℕ × ℕ) → ConnectionMetrics F → W → ConnectionMetrics F × W
  transfers [] cm w = (cm, w)
  transfers (x ∷ xs) cm w = let (cm1, w1) = transfer sys fp x.0 x.1 cm w in transfers xs cm1 w1

  -- The number of bytes in each direction, as the table holds it.
  record Holds (cm : ConnectionMetrics F) (sent received : ℕ) : Type ℓ where
    sent_held : cm.bytes_sent ≡ sent % 2 ^ 64
    received_held : cm.bytes_received ≡ received % 2 ^ 64

  measure-Holds :
      (cm : ConnectionMetrics F) (s r : ℕ) → Holds cm s r → Holds (measure_throughput sys fp cm) s r
  unfolding measure_throughput
  measure-Holds cm s r h =
      elim (Bool-cases (ltb 100000000 (perf_time_diff_ns cm.first_data_time cm.last_data_time))) [
        | inl e ↦ rw e (record { sent_held = h.sent_held; received_held = h.received_held })
        | inr e ↦ rw e h
      ]

  mark_first-Holds :
      (cm : ConnectionMetrics F) (w : W) (s r : ℕ)
      → Holds cm s r
      → Holds ((mark_first sys fp cm w).0) s r
  unfolding mark_first
  mark_first-Holds cm w s r h = elim (Bool-cases (cm.bytes_sent == 0 && cm.bytes_received == 0)) [
    | inl e ↦ rw e (record { sent_held = h.sent_held; received_held = h.received_held })
    | inr e ↦ rw e h
  ]

  transfer-Holds :
      (a b : ℕ) (cm : ConnectionMetrics F) (w : W) (s r : ℕ)
      → Holds cm s r
      → Holds ((transfer sys fp a b cm w).0) (s + a) (r + b)
  unfolding transfer
  transfer-Holds a b cm w s r h =
      let k = mark_first-Holds cm w s r h in
      measure-Holds _ (s + a) (r + b) (record {
        sent_held = omega (arith, k.sent_held);
        received_held = omega (arith, k.received_held);
      })

  transfers-Holds :
      (xs : List (ℕ × ℕ)) (cm : ConnectionMetrics F) (w : W) (s r : ℕ)
      → Holds cm s r
      → Holds ((transfers xs cm w).0) (s + sum_sent xs) (r + sum_received xs)
  unfolding transfers
  transfers-Holds [] cm w s r h = record {
    sent_held = omega (arith, h.sent_held);
    received_held = omega (arith, h.received_held);
  }
  transfers-Holds (x ∷ xs) cm w s r h =
      let k =
        transfers-Holds xs ((transfer sys fp x.0 x.1 cm w).0) ((transfer sys fp x.0 x.1 cm w).1)
          (s + x.0) (r + x.1) (transfer-Holds x.0 x.1 cm w s r h) in
      record {
        sent_held = omega (arith, k.sent_held);
        received_held = omega (arith, k.received_held);
      }

  -- Over any sequence of transfers on a connection that holds 64-bit counts, the count of each direction
  -- grows by the sum of the bytes of that direction, modulo 2^64.
  pub transfers_sum :
      (xs : List (ℕ × ℕ)) (cm : ConnectionMetrics F) (w : W)
      → cm.bytes_sent < 2 ^ 64
      → cm.bytes_received < 2 ^ 64
      → ((transfers xs cm w).0.bytes_sent ≡ (cm.bytes_sent + sum_sent xs) % 2 ^ 64)
        × ((transfers xs cm w).0.bytes_received ≡ (cm.bytes_received + sum_received xs) % 2 ^ 64)
  transfers_sum xs cm w hs hr =
      let k =
        transfers-Holds xs cm w cm.bytes_sent cm.bytes_received
          (record { sent_held = omega arith; received_held = omega arith }) in
      (k.sent_held, k.received_held)
