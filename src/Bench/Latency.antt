-- ===== src/Bench/Latency.antt =====
-- The least and the greatest latency that bench/src/bench_common.c reports, against the connections.
pub mod Reported
use tlshub_ebpf.Base.{
  ℕ, zero, suc, ◌+◌, ◌%◌, ◌^◌, ◌<◌, ltb, ◌≡◌, refl, sym, ap, subst, ◌∙◌, ◌⊎◌, inl, inr, ℤ, true,
  false, Option, none, some, List, [], ◌∷◌, Bool-cases, if◌then◌else◌, arith,
}
use tlshub_ebpf.Metrics.Types.{Doubles, Clock}
use tlshub_ebpf.Metrics.Stats.Tallies.{IsOrder}
use tlshub_ebpf.Metrics.Stats.Bounds.{LiesBetween}
use tlshub_ebpf.Bench.Types.{
  ConnState, init, connecting, connected, sending, receiving, closing, closed, failed, timeout,
  BenchConfig, ConnStats, GlobalMetrics,
}
use tlshub_ebpf.Bench.Metrics.{
  count_latency, count_throughput, count_success, count_state, update_metrics,
}

-- A connection among those of a run.
pub data IsAmong {F : Type 0} (s : ConnStats F) : List (ConnStats F) → Type 0 where
  first : {ss : List (ConnStats F)} → IsAmong s (s ∷ ss)
  later : {d : ConnStats F} {ss : List (ConnStats F)} → IsAmong s ss → IsAmong s (d ∷ ss)

-- The least and the greatest latency.
pub record Range (F : Type 0) : Type 0 where
  pub least : F
  pub greatest : F

abbrev pub range_of : {F : Type 0} → GlobalMetrics F → Range F
range_of m = record { least = m.min_connection_latency_ms; greatest = m.max_connection_latency_ms }

module _ {F : Type 0} (fp : Doubles F) (o : IsOrder fp)
    (lt-IsNumber : (x y : F) → fp.lt x y ≡ true → o.IsNumber y) where
  -- The least and the greatest latency are no NaN.
  pub record IsSound (m : Range F) : Type 0 where
    pub least_number : o.IsNumber m.least
    pub greatest_number : o.IsNumber m.greatest

  -- From `m` to `m'` the range has not become narrower.
  record Widens (m m' : Range F) : Type 0 where
    pub least_le : fp.lt m.least m'.least ≡ false
    pub greatest_le : fp.lt m'.greatest m.greatest ≡ false

  abbrev pub Bounds : F → Range F → Type 0
  Bounds x m = LiesBetween fp x m.least m.greatest

  Widens-refl : (m : Range F) → Widens m m
  Widens-refl m = record { least_le = o.lt_irrefl m.least; greatest_le = o.lt_irrefl m.greatest }

  Bounds-Widens : (x : F) (m m' : Range F) → IsSound m → Bounds x m → Widens m m' → Bounds x m'
  Bounds-Widens x m m' s b w = record {
    not_below = o.le_trans m'.least m.least x s.least_number w.least_le b.not_below;
    not_above = o.le_trans x m.greatest m'.greatest s.greatest_number b.not_above w.greatest_le;
  }

  -- What a step of the metrics does to the range.
  record Steps (m m' : Range F) : Type 0 where
    pub sound : IsSound m → IsSound m'
    pub widens : Widens m m'

  Steps-refl : (m : Range F) → Steps m m
  Steps-refl m = record { sound = λ s. s; widens = Widens-refl m }

  count_latency-Steps :
      (x : F) (m : GlobalMetrics F) → Steps (range_of m) (range_of (count_latency fp x m))
  unfolding count_latency
  count_latency-Steps x m = elim (Bool-cases (fp.lt (fp.of_ℕ 0) x)) [
    | inr e ↦ rw (count_latency, e) (Steps-refl (range_of m))
    | inl e ↦
        let number = lt-IsNumber (fp.of_ℕ 0) x e in
        rw (count_latency, e)
          (record {
            sound = λ s. record {
              least_number = elim (Bool-cases (fp.lt x m.min_connection_latency_ms)) [
                | inl l ↦ rw l number
                | inr l ↦ rw l s.least_number
              ];
              greatest_number = elim (Bool-cases (fp.lt m.max_connection_latency_ms x)) [
                | inl l ↦ rw l number
                | inr l ↦ rw l s.greatest_number
              ];
            };
            widens = record {
              least_le = elim (Bool-cases (fp.lt x m.min_connection_latency_ms)) [
                | inl l ↦ rw l (o.lt_asymm x m.min_connection_latency_ms l)
                | inr l ↦ rw l (o.lt_irrefl m.min_connection_latency_ms)
              ];
              greatest_le = elim (Bool-cases (fp.lt m.max_connection_latency_ms x)) [
                | inl l ↦ rw l (o.lt_asymm m.max_connection_latency_ms x l)
                | inr l ↦ rw l (o.lt_irrefl m.max_connection_latency_ms)
              ];
            };
          })
  ]

  count_latency-Bounds :
      (x : F) (m : GlobalMetrics F)
      → fp.lt (fp.of_ℕ 0) x ≡ true
      → Bounds x (range_of (count_latency fp x m))
  unfolding count_latency
  count_latency-Bounds x m e =
      rw (count_latency, e)
        (record {
          not_below = elim (Bool-cases (fp.lt x m.min_connection_latency_ms)) [
            | inl l ↦ rw l (o.lt_irrefl x)
            | inr l ↦ rw (l, l) refl
          ];
          not_above = elim (Bool-cases (fp.lt m.max_connection_latency_ms x)) [
            | inl l ↦ rw l (o.lt_irrefl x)
            | inr l ↦ rw (l, l) refl
          ];
        })

  update_metrics-Steps :
      (m : GlobalMetrics F) (s : ConnStats F)
      → Steps (range_of m) (range_of (update_metrics fp m s))
  unfolding update_metrics
  update_metrics-Steps m s =
      state_Steps s.state (record m { total_connections = m.total_connections + 1 })
    where
      success : (m' : GlobalMetrics F) → Steps (range_of m') (range_of (count_success fp s m'))
      success m' = elim (Bool-cases (fp.lt (fp.of_ℕ 0) s.throughput_mbps)) [
        | inl e ↦ rw e (
            count_latency-Steps s.connection_latency_ms (record m' {
              successful_connections = m'.successful_connections + 1;
              total_bytes_sent = (m'.total_bytes_sent + s.bytes_sent) % 2 ^ 64;
              total_bytes_received = (m'.total_bytes_received + s.bytes_received) % 2 ^ 64;
            }))
        | inr e ↦ rw e (
            count_latency-Steps s.connection_latency_ms (record m' {
              successful_connections = m'.successful_connections + 1;
              total_bytes_sent = (m'.total_bytes_sent + s.bytes_sent) % 2 ^ 64;
              total_bytes_received = (m'.total_bytes_received + s.bytes_received) % 2 ^ 64;
            }))
      ]

      state_Steps :
          (c : ConnState) (m' : GlobalMetrics F)
          → Steps (range_of m') (range_of (count_state fp c s m'))
      state_Steps closed m' = success m'
      state_Steps failed m' = Steps-refl (range_of m')
      state_Steps timeout m' = Steps-refl (range_of m')
      state_Steps init m' = Steps-refl (range_of m')
      state_Steps connecting m' = Steps-refl (range_of m')
      state_Steps connected m' = Steps-refl (range_of m')
      state_Steps sending m' = Steps-refl (range_of m')
      state_Steps receiving m' = Steps-refl (range_of m')
      state_Steps closing m' = Steps-refl (range_of m')

  count_success-Bounds :
      (s : ConnStats F) (m : GlobalMetrics F)
      → fp.lt (fp.of_ℕ 0) s.connection_latency_ms ≡ true
      → Bounds s.connection_latency_ms (range_of (count_success fp s m))
  unfolding count_success
  count_success-Bounds s m e =
      let m1 : GlobalMetrics F = record m {
        successful_connections = m.successful_connections + 1;
        total_bytes_sent = (m.total_bytes_sent + s.bytes_sent) % 2 ^ 64;
        total_bytes_received = (m.total_bytes_received + s.bytes_received) % 2 ^ 64;
      } in
      let counted = count_latency-Bounds s.connection_latency_ms m1 e in
      elim (Bool-cases (fp.lt (fp.of_ℕ 0) s.throughput_mbps)) [
        | inl t ↦ rw t counted
        | inr t ↦ rw t counted
      ]

  update_metrics-Bounds :
      (m : GlobalMetrics F) (s : ConnStats F)
      → s.state ≡ closed
      → fp.lt (fp.of_ℕ 0) s.connection_latency_ms ≡ true
      → Bounds s.connection_latency_ms (range_of (update_metrics fp m s))
  unfolding update_metrics
  update_metrics-Bounds m s is_closed e =
      let m1 : GlobalMetrics F = record m { total_connections = m.total_connections + 1 } in
      subst (λ c. Bounds s.connection_latency_ms (range_of (count_state fp c s m1))) (sym is_closed)
        (count_success-Bounds s m1 e)

  -- The metrics after the connections `ss`.
  pub counted : GlobalMetrics F → List (ConnStats F) → GlobalMetrics F
  counted m [] = m
  counted m (s ∷ ss) = counted (update_metrics fp m s) ss

  counted-Bounds_kept :
      (x : F) (m : GlobalMetrics F) (ss : List (ConnStats F))
      → IsSound (range_of m)
      → Bounds x (range_of m)
      → Bounds x (range_of (counted m ss))
  unfolding counted
  counted-Bounds_kept x m [] sound b = b
  counted-Bounds_kept x m (s ∷ ss) sound b =
      let step = update_metrics-Steps m s in
      counted-Bounds_kept x (update_metrics fp m s) ss (step.sound sound)
        (Bounds-Widens x (range_of m) (range_of (update_metrics fp m s)) sound b step.widens)

  pub counted-Bounds :
      (s : ConnStats F) (m : GlobalMetrics F) (ss : List (ConnStats F))
      → IsSound (range_of m)
      → IsAmong s ss
      → s.state ≡ closed
      → fp.lt (fp.of_ℕ 0) s.connection_latency_ms ≡ true
      → Bounds s.connection_latency_ms (range_of (counted m ss))
  unfolding counted
  counted-Bounds s m [] sound among is_closed e = elim among [ ]
  counted-Bounds s m (_ ∷ ss) sound first is_closed e =
      counted-Bounds_kept s.connection_latency_ms (update_metrics fp m s) ss
        ((update_metrics-Steps m s).sound sound) (update_metrics-Bounds m s is_closed e)
  counted-Bounds s m (d ∷ ss) sound (later among) is_closed e =
      counted-Bounds s (update_metrics fp m d) ss ((update_metrics-Steps m d).sound sound) among
        is_closed e
