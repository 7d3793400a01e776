-- ===== src/Metrics/Table.antt =====
-- The operations of capture/src/performance_metrics.c as calls on one context, and sequences of them.
pub mod Moves
pub mod Capacity
use tlshub_ebpf.Base.{
  ℕ, suc, ◌+◌, ◌-◌, ◌%◌, ◌^◌, ◌≤◌, ◌<◌, ◌≡◌, refl, ◌⊎◌, inl, inr, Bool, true, false, Option, none,
  some, List, [], ◌∷◌, ltb, leb, if◌then◌else◌, length, length-set, length-replicate, get_or, set,
  take, replicate, ℤ, pos, minus_one, is_zero, Bool-cases, Option-cases, arith,
}
use tlshub_ebpf.Metrics.Types.{
  Doubles, Clock, Timespec, ConnectionMetrics, SystemMetrics, PerformanceStats, CpuStat,
  PerfMetrics,
}
use tlshub_ebpf.Metrics.Init.{perf_metrics_init, zero_connection}
use tlshub_ebpf.Metrics.Record.{
  int_of, perf_metrics_set_enabled, connection_start_in, perf_metrics_connection_start, is_tracked,
  index_of, on_connection, perf_metrics_connection_latency_start,
  perf_metrics_connection_latency_end, perf_metrics_key_negotiation_start,
  perf_metrics_key_negotiation_end, perf_metrics_record_data_transfer, start_latency, end_latency,
  start_negotiation, end_negotiation, transfer, count_end, end_active, new_connection,
  end_connection, perf_metrics_connection_end,
}
use tlshub_ebpf.Metrics.Proc.{read_cpu_stat, read_memory_usage}
use tlshub_ebpf.Metrics.System.{
  ProcFiles, calculate_cpu_usage, update_cpu, update_memory, finish_update, update_in,
  perf_metrics_update_system,
}
use tlshub_ebpf.Metrics.Stats.{
  add_connections, empty_summary, store_summary, perf_metrics_calculate_stats,
}

-- A call on the context, with its arguments.
pub data Call : Type 0 where
  set_enabled : ℤ → Call
  connection_start : ℕ → Call
  latency_start : ℤ → Call
  latency_end : ℤ → Call
  negotiation_start : ℤ → Call
  negotiation_end : ℤ → Call
  data_transfer : ℕ → ℕ → ℤ → Call
  connection_end : ℤ → ℤ → Call
  update_system : Call
  calculate_stats : Call

-- The array has `max_connections` slots, of which the first `current_connections` are in use; every
-- connection ever counted still is.
pub record IsWellFormed {ℓ} {F : Type ℓ} (ctx : PerfMetrics F) : Type 0 where
  pub slots : length ctx.conn_metrics ≡ ctx.max_connections
  pub capacity : ctx.current_connections ≤ ctx.max_connections
  pub counted : ctx.stats.total_connections ≡ ctx.current_connections
  pub active : ctx.system_metrics.active_connections ≤ ctx.current_connections
  pub small : ctx.max_connections < 2 ^ 32

-- No slot is left.
abbrev pub IsFull {ℓ} : {F : Type ℓ} → PerfMetrics F → Type 0
IsFull ctx = ctx.max_connections ≤ ctx.current_connections

module _ {ℓ} {W F : Type ℓ} (sys : Clock W) (proc : ProcFiles W) (fp : Doubles F) where
  unfoldable pub call : Call → Option (PerfMetrics F) → W → Option (PerfMetrics F) × W
  call (set_enabled b) c w = (perf_metrics_set_enabled sys fp c b, w)
  call (connection_start id) c w = ((perf_metrics_connection_start sys fp c id).1, w)
  call (latency_start i) c w = perf_metrics_connection_latency_start sys fp c i w
  call (latency_end i) c w = perf_metrics_connection_latency_end sys fp c i w
  call (negotiation_start i) c w = perf_metrics_key_negotiation_start sys fp c i w
  call (negotiation_end i) c w = perf_metrics_key_negotiation_end sys fp c i w
  call (data_transfer s r i) c w = perf_metrics_record_data_transfer sys fp s r c i w
  call (connection_end i b) c w = (perf_metrics_connection_end sys fp c i b, w)
  call update_system c w = let (r, c1, w1) = perf_metrics_update_system sys proc fp c w in (c1, w1)
  call calculate_stats c w = (perf_metrics_calculate_stats fp c, w)

  -- A sequence of calls.
  unfoldable pub calls : List Call → Option (PerfMetrics F) → W → Option (PerfMetrics F) × W
  calls [] c w = (c, w)
  calls (k ∷ ks) c w = let (c1, w1) = call k c w in calls ks c1 w1
