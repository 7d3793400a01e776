-- ===== src/Metrics/Stats/Bounds.antt =====
-- The summary of capture/src/performance_metrics.c against the connections that it reads.
use tlshub_ebpf.Base.{
  ℕ, zero, suc, ◌^◌, ◌<◌, ◌≡◌, refl, ap, ◌⊎◌, inl, inr, false, some, List, [], ◌∷◌, lt→ltb, take,
  length, arith,
}
use tlshub_ebpf.Metrics.Types.{Doubles, ConnectionMetrics, PerfMetrics, perf_ns_to_ms}
use tlshub_ebpf.Metrics.Stats.{
  add_connections, empty_tally, empty_summary, least_or_zero, store_summary,
  perf_metrics_calculate_stats,
}
use tlshub_ebpf.Metrics.Stats.Tallies.{
  IsOrder, Holds, here, there, IsAmong, first, later, add_times, latencies, negotiations,
  latency-add_connections, negotiation-add_connections, IsSound, add_times-Bounds, add_times-count,
}

module _ {ℓ} {F : Type ℓ} (fp : Doubles F) where
  latencies-Holds :
      (cm : ConnectionMetrics F) (cms : List (ConnectionMetrics F))
      → IsAmong cm cms
      → Holds cm.connection_latency.duration_ns (latencies fp cms)
  unfolding latencies
  latencies-Holds cm [] h = elim h [ ]
  latencies-Holds cm (_ ∷ cms) first = here
  latencies-Holds cm (d ∷ cms) (later h) = there (latencies-Holds cm cms h)

  negotiations-Holds :
      (cm : ConnectionMetrics F) (cms : List (ConnectionMetrics F))
      → IsAmong cm cms
      → Holds cm.key_negotiation.duration_ns (negotiations fp cms)
  unfolding negotiations
  negotiations-Holds cm [] h = elim h [ ]
  negotiations-Holds cm (_ ∷ cms) first = here
  negotiations-Holds cm (d ∷ cms) (later h) = there (negotiations-Holds cm cms h)

  length-latencies : (cms : List (ConnectionMetrics F)) → length (latencies fp cms) ≡ length cms
  unfolding latencies
  length-latencies [] = refl
  length-latencies (cm ∷ cms) = ap suc (length-latencies cms)

  length-negotiations :
      (cms : List (ConnectionMetrics F)) → length (negotiations fp cms) ≡ length cms
  unfolding negotiations
  length-negotiations [] = refl
  length-negotiations (cm ∷ cms) = ap suc (length-negotiations cms)

  -- A measured time lies between the reported minimum and maximum.
  pub record LiesBetween (x least greatest : F) : Type ℓ where
    pub not_below : fp.lt x least ≡ false
    pub not_above : fp.lt greatest x ≡ false

  times-LieBetween :
      (o : IsOrder fp) (n : ℕ) (ns : List ℕ)
      → Holds n ns
      → 0 < n
      → length ns < 2 ^ 32
      → LiesBetween
          (perf_ns_to_ms fp n)
          (least_or_zero fp (add_times fp ns (empty_tally fp)))
          ((add_times fp ns (empty_tally fp)).greatest)
  unfolding least_or_zero
  times-LieBetween o n ns h p size =
      let start : IsSound fp o (empty_tally fp) = record {
        least_number = o.of_ℕ-IsNumber 999999;
        greatest_number = o.of_ℕ-IsNumber 0;
      } in
      let bounds = add_times-Bounds fp o n ns (empty_tally fp) h p start in
      let positive = add_times-count fp o n ns (empty_tally fp) h p (omega arith) in
      record {
        not_below =
            rw (lt→ltb 0 ((add_times fp ns (empty_tally fp)).count) positive) (bounds.least_bound);
        not_above = bounds.greatest_bound;
      }

  -- No time was measured, or it lies between the reported minimum and maximum.
  abbrev pub IsCovered : ℕ → F → F → Type ℓ
  IsCovered ns least greatest = (ns ≡ 0) ⊎ LiesBetween (perf_ns_to_ms fp ns) least greatest

  times-IsCovered :
      (o : IsOrder fp) (n : ℕ) (ns : List ℕ)
      → Holds n ns
      → length ns < 2 ^ 32
      → IsCovered n
          (least_or_zero fp (add_times fp ns (empty_tally fp)))
          ((add_times fp ns (empty_tally fp)).greatest)
  times-IsCovered o zero ns h size = inl refl
  times-IsCovered o (suc n) ns h size = inr (times-LieBetween o (suc n) ns h (omega arith) size)

  -- `perf_metrics_calculate_stats` on a context: the context `after` it is such that each connection of the
  -- table, of fewer than 2^32, either has no measured latency or has its latency in milliseconds between the
  -- reported minimum and maximum, and the same for its key negotiation. The comparison of doubles is an
  -- order on the values that are no NaN.
  pub calculate_stats-IsCovered :
      (o : IsOrder fp) (ctx : PerfMetrics F) (cm : ConnectionMetrics F)
      → IsAmong cm (take ctx.current_connections ctx.conn_metrics)
      → length (take ctx.current_connections ctx.conn_metrics) < 2 ^ 32
      → (after : PerfMetrics F) × (perf_metrics_calculate_stats fp (some ctx) ≡ some after)
        × IsCovered cm.connection_latency.duration_ns after.stats.min_connection_latency_ms
            after.stats.max_connection_latency_ms
        × IsCovered cm.key_negotiation.duration_ns after.stats.min_key_negotiation_ms
            after.stats.max_key_negotiation_ms
  unfolding perf_metrics_calculate_stats store_summary
  calculate_stats-IsCovered o ctx cm among size =
      let cms = take ctx.current_connections ctx.conn_metrics in
      (
        store_summary fp (add_connections fp cms (empty_summary fp)) ctx,
        refl,
        rw (latency-add_connections fp cms (empty_summary fp)) (
            times-IsCovered o cm.connection_latency.duration_ns (latencies fp cms)
              (latencies-Holds cm cms among) (omega (arith, length-latencies cms))),
        rw (negotiation-add_connections fp cms (empty_summary fp)) (
            times-IsCovered o cm.key_negotiation.duration_ns (negotiations fp cms)
              (negotiations-Holds cm cms among) (omega (arith, length-negotiations cms))),
      )
