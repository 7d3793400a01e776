-- ===== src/Metrics/Stats/Tallies.antt =====
-- One measured quantity of the summary: its minimum, maximum and count over a list of durations.
use tlshub_ebpf.Base.{
  ℕ, suc, ◌+◌, ◌^◌, ◌≤◌, ◌<◌, ◌≡◌, refl, inl, inr, true, false, List, [], ◌∷◌, ltb, lt→ltb, length,
  Bool-cases, arith,
}
use tlshub_ebpf.Metrics.Types.{Doubles, ConnectionMetrics, perf_ns_to_ms}
use tlshub_ebpf.Metrics.Stats.{
  Tally, Summary, add_sample, add_time, add_connection, add_connections,
}

-- What the comparison of doubles promises for values that are no NaN: converted integers, and a
-- converted integer divided by one above zero, are such values.
pub record IsOrder {ℓ} {F : Type ℓ} (fp : Doubles F) : Type (ℓ + 1) where
  pub IsNumber : F → Type ℓ
  pub of_ℕ-IsNumber : (n : ℕ) → IsNumber (fp.of_ℕ n)
  pub div-IsNumber : (n m : ℕ) → IsNumber (fp.div (fp.of_ℕ n) (fp.of_ℕ (suc m)))
  pub lt_irrefl : (x : F) → fp.lt x x ≡ false
  pub lt_asymm : (x y : F) → fp.lt x y ≡ true → fp.lt y x ≡ false
  pub le_trans :
      (x y z : F) → IsNumber y → fp.lt y x ≡ false → fp.lt z y ≡ false → fp.lt z x ≡ false

-- An element of a list of durations.
pub data Holds (n : ℕ) : List ℕ → Type 0 where
  here : {ns : List ℕ} → Holds n (n ∷ ns)
  there : {m : ℕ} {ns : List ℕ} → Holds n ns → Holds n (m ∷ ns)

-- A connection among those of the table.
pub data IsAmong {ℓ} {F : Type ℓ} (cm : ConnectionMetrics F)
    : List (ConnectionMetrics F) → Type ℓ where
  first : {cms : List (ConnectionMetrics F)} → IsAmong cm (cm ∷ cms)
  later :
      {d : ConnectionMetrics F} {cms : List (ConnectionMetrics F)}
      → IsAmong cm cms
      → IsAmong cm (d ∷ cms)

module _ {ℓ} {F : Type ℓ} (fp : Doubles F) where
  -- The loop, for one of the two times.
  abbrev pub add_times : List ℕ → Tally F → Tally F
  add_times [] t = t
  add_times (n ∷ ns) t = add_times ns (add_time fp n t)

  unfoldable pub latencies : List (ConnectionMetrics F) → List ℕ
  latencies [] = []
  latencies (cm ∷ cms) = cm.connection_latency.duration_ns ∷ latencies cms

  unfoldable pub negotiations : List (ConnectionMetrics F) → List ℕ
  negotiations [] = []
  negotiations (cm ∷ cms) = cm.key_negotiation.duration_ns ∷ negotiations cms

  pub latency-add_connections :
      (cms : List (ConnectionMetrics F)) (s : Summary F)
      → (add_connections fp cms s).latency ≡ add_times (latencies cms) s.latency
  unfolding add_connections add_connection latencies
  latency-add_connections [] s = refl
  latency-add_connections (cm ∷ cms) s = latency-add_connections cms (add_connection fp cm s)

  pub negotiation-add_connections :
      (cms : List (ConnectionMetrics F)) (s : Summary F)
      → (add_connections fp cms s).negotiation ≡ add_times (negotiations cms) s.negotiation
  unfolding add_connections add_connection negotiations
  negotiation-add_connections [] s = refl
  negotiation-add_connections (cm ∷ cms) s =
      negotiation-add_connections cms (add_connection fp cm s)

module _ {ℓ} {F : Type ℓ} (fp : Doubles F) (o : IsOrder fp) where
  -- The numbers of a tally are no NaN.
  pub record IsSound (t : Tally F) : Type ℓ where
    pub least_number : o.IsNumber t.least
    pub greatest_number : o.IsNumber t.greatest

  -- A later tally has a lower minimum and a higher maximum.
  pub record Widens (t t' : Tally F) : Type ℓ where
    pub least_le : fp.lt t.least t'.least ≡ false
    pub greatest_le : fp.lt t'.greatest t.greatest ≡ false

  pub record Bounds (x : F) (t : Tally F) : Type ℓ where
    pub least_bound : fp.lt x t.least ≡ false
    pub greatest_bound : fp.lt t.greatest x ≡ false

  pub add_sample-IsSound :
      (x : F) (t : Tally F) → o.IsNumber x → IsSound t → IsSound (add_sample fp x t)
  unfolding add_sample
  add_sample-IsSound x t n s = record {
    least_number = elim (Bool-cases (fp.lt x t.least)) [
      | inl e ↦ rw e n
      | inr e ↦ rw e s.least_number
    ];
    greatest_number = elim (Bool-cases (fp.lt t.greatest x)) [
      | inl e ↦ rw e n
      | inr e ↦ rw e s.greatest_number
    ];
  }

  pub add_sample-Widens : (x : F) (t : Tally F) → Widens t (add_sample fp x t)
  unfolding add_sample
  add_sample-Widens x t = record {
    least_le = elim (Bool-cases (fp.lt x t.least)) [
      | inl e ↦ rw e (o.lt_asymm x t.least e)
      | inr e ↦ rw e (o.lt_irrefl t.least)
    ];
    greatest_le = elim (Bool-cases (fp.lt t.greatest x)) [
      | inl e ↦ rw e (o.lt_asymm t.greatest x e)
      | inr e ↦ rw e (o.lt_irrefl t.greatest)
    ];
  }

  pub add_sample-Bounds : (x : F) (t : Tally F) → Bounds x (add_sample fp x t)
  unfolding add_sample
  add_sample-Bounds x t = record {
    least_bound = elim (Bool-cases (fp.lt x t.least)) [
      | inl e ↦ rw e (o.lt_irrefl x)
      | inr e ↦ rw (e, e) refl
    ];
    greatest_bound = elim (Bool-cases (fp.lt t.greatest x)) [
      | inl e ↦ rw e (o.lt_irrefl x)
      | inr e ↦ rw (e, e) refl
    ];
  }

  pub ms-IsNumber : (n : ℕ) → o.IsNumber (perf_ns_to_ms fp n)
  unfolding perf_ns_to_ms
  ms-IsNumber n = o.div-IsNumber n 999999

  pub add_time-IsSound : (n : ℕ) (t : Tally F) → IsSound t → IsSound (add_time fp n t)
  unfolding add_time
  add_time-IsSound n t s = elim (Bool-cases (ltb 0 n)) [
    | inl e ↦ rw e (add_sample-IsSound (perf_ns_to_ms fp n) t (ms-IsNumber n) s)
    | inr e ↦ rw e s
  ]

  pub add_time-Widens : (n : ℕ) (t : Tally F) → Widens t (add_time fp n t)
  unfolding add_time
  add_time-Widens n t = elim (Bool-cases (ltb 0 n)) [
    | inl e ↦ rw e (add_sample-Widens (perf_ns_to_ms fp n) t)
    | inr e ↦ rw e (record { least_le = o.lt_irrefl t.least; greatest_le = o.lt_irrefl t.greatest })
  ]

  pub add_time-Bounds :
      (n : ℕ) (t : Tally F) → 0 < n → Bounds (perf_ns_to_ms fp n) (add_time fp n t)
  unfolding add_time
  add_time-Bounds n t p = rw (lt→ltb 0 n p) (add_sample-Bounds (perf_ns_to_ms fp n) t)

  pub Bounds-Widens : (x : F) (t t' : Tally F) → IsSound t → Bounds x t → Widens t t' → Bounds x t'
  Bounds-Widens x t t' s b w = record {
    least_bound = o.le_trans t'.least t.least x s.least_number w.least_le b.least_bound;
    greatest_bound =
        o.le_trans x t.greatest t'.greatest s.greatest_number b.greatest_bound w.greatest_le;
  }

  pub add_times-Bounds_keep :
      (x : F) (ns : List ℕ) (t : Tally F) → IsSound t → Bounds x t → Bounds x (add_times fp ns t)
  add_times-Bounds_keep x [] t s b = b
  add_times-Bounds_keep x (n ∷ ns) t s b =
      add_times-Bounds_keep x ns (add_time fp n t) (add_time-IsSound n t s)
        (Bounds-Widens x t (add_time fp n t) s b (add_time-Widens n t))

  pub add_times-Bounds :
      (n : ℕ) (ns : List ℕ) (t : Tally F)
      → Holds n ns
      → 0 < n
      → IsSound t
      → Bounds (perf_ns_to_ms fp n) (add_times fp ns t)
  add_times-Bounds n [] t h p s = elim h [ ]
  add_times-Bounds n (_ ∷ ns) t here p s =
      add_times-Bounds_keep (perf_ns_to_ms fp n) ns (add_time fp n t) (add_time-IsSound n t s)
        (add_time-Bounds n t p)
  add_times-Bounds n (m ∷ ns) t (there h) p s =
      add_times-Bounds n ns (add_time fp m t) h p (add_time-IsSound m t s)

  pub add_time-count :
      (n : ℕ) (t : Tally F)
      → t.count + 1 < 2 ^ 32
      → (t.count ≤ (add_time fp n t).count) × ((add_time fp n t).count ≤ t.count + 1)
  unfolding add_time add_sample
  add_time-count n t h = elim (Bool-cases (ltb 0 n)) [
    | inl e ↦ rw e (omega arith, omega arith)
    | inr e ↦ rw e (omega arith, omega arith)
  ]

  pub add_time-count_pos :
      (n : ℕ) (t : Tally F) → 0 < n → t.count + 1 < 2 ^ 32 → 0 < (add_time fp n t).count
  unfolding add_time add_sample
  add_time-count_pos n t p h = rw (lt→ltb 0 n p) (omega arith)

  pub add_times-count_keep :
      (ns : List ℕ) (t : Tally F)
      → t.count + length ns < 2 ^ 32
      → 0 < t.count
      → 0 < (add_times fp ns t).count
  add_times-count_keep [] t h p = p
  add_times-count_keep (n ∷ ns) t h p =
      let grows = add_time-count n t (omega arith) in
      add_times-count_keep ns (add_time fp n t) (omega (arith, grows)) (omega (arith, grows))

  pub add_times-count :
      (n : ℕ) (ns : List ℕ) (t : Tally F)
      → Holds n ns
      → 0 < n
      → t.count + length ns < 2 ^ 32
      → 0 < (add_times fp ns t).count
  add_times-count n [] t q p h = elim q [ ]
  add_times-count n (_ ∷ ns) t here p h =
      let grows = add_time-count n t (omega arith) in
      add_times-count_keep ns (add_time fp n t) (omega (arith, grows))
        (add_time-count_pos n t p (omega arith))
  add_times-count n (m ∷ ns) t (there q) p h =
      let grows = add_time-count m t (omega arith) in
      add_times-count n ns (add_time fp m t) q p (omega (arith, grows))
