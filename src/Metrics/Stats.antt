-- ===== src/Metrics/Stats.antt =====
-- `perf_metrics_calculate_stats` of capture/src/performance_metrics.c.
pub mod Tallies
pub mod Bounds
use tlshub_ebpf.Base.{
  ℕ, suc, ◌+◌, ◌%◌, ◌^◌, Bool, true, false, Option, none, some, List, [], ◌∷◌, map, ltb,
  if◌then◌else◌, take,
}
use tlshub_ebpf.Metrics.Types.{
  Doubles, ConnectionMetrics, PerformanceStats, PerfMetrics, perf_ns_to_ms,
}

-- One measured quantity while the loop runs: the local total and count, the statistics' min and max.
pub record Tally {ℓ} (F : Type ℓ) : Type ℓ where
  pub total : F
  pub count : ℕ
  pub least : F
  pub greatest : F

-- The local variables of the loop, and the statistics that it updates.
pub record Summary {ℓ} (F : Type ℓ) : Type ℓ where
  pub latency : Tally F
  pub negotiation : Tally F
  pub throughput : Tally F
  pub bytes : ℕ

module _ {ℓ} {F : Type ℓ} (fp : Doubles F) where
  -- `total += x; count++; if (x < min) min = x; if (x > max) max = x`
  unfoldable pub add_sample : F → Tally F → Tally F
  add_sample x t = record {
    total = fp.add t.total x;
    count = (t.count + 1) % 2 ^ 32;
    least = if fp.lt x t.least then x else t.least;
    greatest = if fp.lt t.greatest x then x else t.greatest;
  }

  -- A time counts if its duration is above zero.
  unfoldable pub add_time : ℕ → Tally F → Tally F
  unfolding add_sample
  add_time ns t = if ltb 0 ns then add_sample (perf_ns_to_ms fp ns) t else t

  -- A throughput counts if it is above zero; the source keeps no least one, and nothing reads it here.
  unfoldable pub add_throughput : F → Tally F → Tally F
  unfolding add_sample
  add_throughput x t = if fp.lt (fp.of_ℕ 0) x then add_sample x t else t

  -- The body of the loop.
  unfoldable pub add_connection : ConnectionMetrics F → Summary F → Summary F
  unfolding add_time add_throughput
  add_connection cm s = record {
    latency = add_time cm.connection_latency.duration_ns s.latency;
    negotiation = add_time cm.key_negotiation.duration_ns s.negotiation;
    throughput = add_throughput cm.throughput_mbps s.throughput;
    bytes = (s.bytes + (cm.bytes_sent + cm.bytes_received) % 2 ^ 64) % 2 ^ 64;
  }

  -- The loop over the connections.
  unfoldable pub add_connections : List (ConnectionMetrics F) → Summary F → Summary F
  add_connections [] s = s
  add_connections (cm ∷ cms) s = add_connections cms (add_connection cm s)

  abbrev pub empty_tally : Tally F
  empty_tally = record {
    total = fp.of_ℕ 0;
    count = 0;
    least = fp.of_ℕ 999999;
    greatest = fp.of_ℕ 0;
  }

  abbrev pub empty_summary : Summary F
  empty_summary = record {
    latency = empty_tally;
    negotiation = empty_tally;
    throughput = empty_tally;
    bytes = 0;
  }

  -- The average of the samples; without a sample it stays what it was.
  unfoldable pub average : Tally F → F → F
  average t old = if ltb 0 t.count then fp.div t.total (fp.of_ℕ t.count) else old

  -- The least sample; 0 without a sample.
  unfoldable pub least_or_zero : Tally F → F
  least_or_zero t = if ltb 0 t.count then t.least else fp.of_ℕ 0

  -- The assignments after the loop.
  unfoldable pub store_summary : Summary F → PerfMetrics F → PerfMetrics F
  unfolding average least_or_zero
  store_summary s ctx = record ctx {
    stats = record (ctx.stats) {
      avg_connection_latency_ms = average s.latency ctx.stats.avg_connection_latency_ms;
      min_connection_latency_ms = least_or_zero s.latency;
      max_connection_latency_ms = s.latency.greatest;
      avg_key_negotiation_ms = average s.negotiation ctx.stats.avg_key_negotiation_ms;
      min_key_negotiation_ms = least_or_zero s.negotiation;
      max_key_negotiation_ms = s.negotiation.greatest;
      avg_throughput_mbps = average s.throughput ctx.stats.avg_throughput_mbps;
      max_throughput_mbps = s.throughput.greatest;
      total_bytes_transferred = s.bytes;
      avg_cpu_usage = ctx.system_metrics.cpu_usage_percent;
      avg_memory_usage_kb = ctx.system_metrics.memory_usage_kb;
    };
  }

  -- `perf_metrics_calculate_stats(ctx)`
  unfoldable pub perf_metrics_calculate_stats : Option (PerfMetrics F) → Option (PerfMetrics F)
  unfolding add_connections store_summary
  perf_metrics_calculate_stats none = none
  perf_metrics_calculate_stats (some ctx) = some (
      store_summary (add_connections (take ctx.current_connections ctx.conn_metrics) empty_summary)
        ctx)
