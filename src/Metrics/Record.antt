-- ===== src/Metrics/Record.antt =====
-- The operations of capture/src/performance_metrics.c on the context and on one connection.
pub mod Transfers
use tlshub_ebpf.Base.{
  ℕ, ◌+◌, ◌-◌, ◌%◌, ◌^◌, Bool, true, false, not, ◌&&◌, Option, none, some, ◌==◌, ltb, leb,
  if◌then◌else◌, get_or, set, replicate, ℤ, pos, negsuc, minus_one, is_zero, List,
}
use tlshub_ebpf.Metrics.Types.{
  Doubles, Clock, Timespec, Timepoint, ConnectionMetrics, SystemMetrics, PerformanceStats, CpuStat,
  PerfMetrics, perf_time_diff_ns,
}
use tlshub_ebpf.Metrics.Init.{zero_connection, zero_time, zero_timepoint}

-- An unsigned number of 32 bits as an `int`.
unfoldable pub int_of : ℕ → ℤ
int_of n = if ltb n (2 ^ 31) then pos n else negsuc (2 ^ 32 - 1 - n)

-- `xs[i] = v` with an `int` as the index. A negative one writes before the array, which C leaves undefined;
-- here nothing is written.
abbrev pub set_at {ℓ} : {A : Type ℓ} → List A → ℤ → A → List A
set_at xs (pos i) v = set xs i v
set_at xs (negsuc i) v = xs

module _ {ℓ} {W F : Type ℓ} (sys : Clock W) (fp : Doubles F) where
  -- `perf_metrics_set_enabled(ctx, enabled)`
  unfoldable pub perf_metrics_set_enabled : Option (PerfMetrics F) → ℤ → Option (PerfMetrics F)
  perf_metrics_set_enabled none enabled = none
  perf_metrics_set_enabled (some ctx) enabled = some (record ctx { monitoring_enabled = enabled })

  -- `perf_timepoint_start(tp)`
  unfoldable pub perf_timepoint_start : Timepoint → W → Timepoint × W
  perf_timepoint_start tp w = let (now, w1) = sys.gettime w in (record tp { start = now }, w1)

  -- `perf_timepoint_end(tp)`
  unfoldable pub perf_timepoint_end : Timepoint → W → Timepoint × W
  perf_timepoint_end tp w =
      let (now, w1) = sys.gettime w in
      (record tp { end = now; duration_ns = perf_time_diff_ns tp.start now }, w1)

  -- A connection is counted and put into the next slot, whose number is an `int`.
  unfoldable pub new_connection : PerfMetrics F → ℕ → PerfMetrics F
  unfolding int_of
  new_connection ctx id = record ctx {
    current_connections = (ctx.current_connections + 1) % 2 ^ 32;
    conn_metrics =
        set_at ctx.conn_metrics (int_of ctx.current_connections)
          (record (zero_connection sys fp) { connection_id = id });
    stats = record (ctx.stats) { total_connections = (ctx.stats.total_connections + 1) % 2 ^ 64 };
    system_metrics = record (ctx.system_metrics) {
      active_connections = (ctx.system_metrics.active_connections + 1) % 2 ^ 32;
    };
  }

  -- `perf_metrics_connection_start` on a context.
  unfoldable pub connection_start_in : PerfMetrics F → ℕ → ℤ × PerfMetrics F
  unfolding int_of new_connection
  connection_start_in ctx id =
      if is_zero ctx.monitoring_enabled
      then (minus_one, ctx)
      else if leb ctx.max_connections ctx.current_connections
      then (minus_one, ctx)
      else (int_of ctx.current_connections, new_connection ctx id)

  -- `perf_metrics_connection_start(ctx, connection_id)`
  unfoldable pub perf_metrics_connection_start :
      Option (PerfMetrics F) → ℕ → ℤ × Option (PerfMetrics F)
  unfolding connection_start_in
  perf_metrics_connection_start none id = (minus_one, none)
  perf_metrics_connection_start (some ctx) id =
      let (index, ctx1) = connection_start_in ctx id in (index, some ctx1)

  -- The negation of the guard `!ctx || !ctx->monitoring_enabled || conn_index < 0 ||
  -- conn_index >= (int)ctx->current_connections`, from the second test on.
  unfoldable pub is_tracked : PerfMetrics F → ℤ → Bool
  is_tracked ctx (negsuc n) = false
  is_tracked ctx (pos i) =
      not (is_zero ctx.monitoring_enabled)
      && (ltb ctx.current_connections (2 ^ 31) && ltb i ctx.current_connections)

  unfoldable pub index_of : ℤ → ℕ
  index_of (pos i) = i
  index_of (negsuc n) = 0

  -- The connection at the index, changed by the rest of an operation's body if the guard lets it pass.
  unfoldable pub on_connection :
      (ConnectionMetrics F → W → ConnectionMetrics F × W)
      → Option (PerfMetrics F)
      → ℤ
      → W
      → Option (PerfMetrics F) × W
  unfolding is_tracked index_of
  on_connection f none i w = (none, w)
  on_connection f (some ctx) i w =
      let (cm, w1) = f (get_or ctx.conn_metrics (index_of i) (zero_connection sys fp)) w in
      if is_tracked ctx i
      then (some (record ctx { conn_metrics = set ctx.conn_metrics (index_of i) cm }), w1)
      else (some ctx, w)

  unfoldable pub start_latency : ConnectionMetrics F → W → ConnectionMetrics F × W
  unfolding perf_timepoint_start
  start_latency cm w =
      let (tp, w1) = perf_timepoint_start cm.connection_latency w in
      (record cm { connection_latency = tp }, w1)

  -- `perf_metrics_connection_latency_start(ctx, conn_index)`
  unfoldable pub perf_metrics_connection_latency_start :
      Option (PerfMetrics F) → ℤ → W → Option (PerfMetrics F) × W
  unfolding on_connection start_latency
  perf_metrics_connection_latency_start = on_connection start_latency

  unfoldable pub end_latency : ConnectionMetrics F → W → ConnectionMetrics F × W
  unfolding perf_timepoint_end
  end_latency cm w =
      let (tp, w1) = perf_timepoint_end cm.connection_latency w in
      (record cm { connection_latency = tp }, w1)

  -- `perf_metrics_connection_latency_end(ctx, conn_index)`
  unfoldable pub perf_metrics_connection_latency_end :
      Option (PerfMetrics F) → ℤ → W → Option (PerfMetrics F) × W
  unfolding on_connection end_latency
  perf_metrics_connection_latency_end = on_connection end_latency

  unfoldable pub start_negotiation : ConnectionMetrics F → W → ConnectionMetrics F × W
  unfolding perf_timepoint_start
  start_negotiation cm w =
      let (tp, w1) = perf_timepoint_start cm.key_negotiation w in
      (record cm { key_negotiation = tp }, w1)

  -- `perf_metrics_key_negotiation_start(ctx, conn_index)`
  unfoldable pub perf_metrics_key_negotiation_start :
      Option (PerfMetrics F) → ℤ → W → Option (PerfMetrics F) × W
  unfolding on_connection start_negotiation
  perf_metrics_key_negotiation_start = on_connection start_negotiation

  unfoldable pub end_negotiation : ConnectionMetrics F → W → ConnectionMetrics F × W
  unfolding perf_timepoint_end
  end_negotiation cm w =
      let (tp, w1) = perf_timepoint_end cm.key_negotiation w in
      (record cm { key_negotiation = tp }, w1)

  -- `perf_metrics_key_negotiation_end(ctx, conn_index)`
  unfoldable pub perf_metrics_key_negotiation_end :
      Option (PerfMetrics F) → ℤ → W → Option (PerfMetrics F) × W
  unfolding on_connection end_negotiation
  perf_metrics_key_negotiation_end = on_connection end_negotiation

  -- The time of the first data.
  unfoldable pub mark_first : ConnectionMetrics F → W → ConnectionMetrics F × W
  mark_first cm w =
      let (now, w1) = sys.gettime w in
      if cm.bytes_sent == 0 && cm.bytes_received == 0
      then (record cm { first_data_time = now }, w1)
      else (cm, w)

  -- The throughput, if more than 100 ms lie between the first data and the last.
  unfoldable pub measure_throughput : ConnectionMetrics F → ConnectionMetrics F
  measure_throughput cm =
      let total_bytes = (cm.bytes_sent + cm.bytes_received) % 2 ^ 64 in
      let time_diff_ns = perf_time_diff_ns cm.first_data_time cm.last_data_time in
      let time_seconds = fp.div (fp.of_ℕ time_diff_ns) (fp.of_ℕ 1000000000) in
      if ltb 100000000 time_diff_ns
      then record cm {
        throughput_mbps =
            fp.div (fp.mul (fp.of_ℕ total_bytes) (fp.of_ℕ 8))
              (fp.mul time_seconds (fp.of_ℕ 1000000));
      }
      else cm

  -- The body of `perf_metrics_record_data_transfer` behind its guard.
  unfoldable pub transfer : ℕ → ℕ → ConnectionMetrics F → W → ConnectionMetrics F × W
  unfolding mark_first measure_throughput
  transfer bytes_sent bytes_received cm w =
      let (cm1, w1) = mark_first cm w in
      let (now, w2) = sys.gettime w1 in
      (
        measure_throughput (record cm1 {
          bytes_sent = (cm1.bytes_sent + bytes_sent) % 2 ^ 64;
          bytes_received = (cm1.bytes_received + bytes_received) % 2 ^ 64;
          last_data_time = now;
        }),
        w2,
      )

  -- `perf_metrics_record_data_transfer(ctx, conn_index, bytes_sent, bytes_received)`
  unfoldable pub perf_metrics_record_data_transfer :
      ℕ → ℕ → Option (PerfMetrics F) → ℤ → W → Option (PerfMetrics F) × W
  unfolding on_connection transfer
  perf_metrics_record_data_transfer bytes_sent bytes_received =
      on_connection (transfer bytes_sent bytes_received)

  unfoldable pub count_end : ℤ → PerformanceStats F → PerformanceStats F
  count_end success stats =
      if is_zero success
      then record stats { failed_connections = (stats.failed_connections + 1) % 2 ^ 64 }
      else record stats { successful_connections = (stats.successful_connections + 1) % 2 ^ 64 }

  unfoldable pub end_active : SystemMetrics F → SystemMetrics F
  end_active m =
      if ltb 0 m.active_connections
      then record m { active_connections = m.active_connections - 1 }
      else m

  unfoldable pub end_connection : ℤ → PerfMetrics F → PerfMetrics F
  unfolding count_end end_active
  end_connection success ctx = record ctx {
    stats = count_end success ctx.stats;
    system_metrics = end_active ctx.system_metrics;
  }

  -- `perf_metrics_connection_end(ctx, conn_index, success)`
  unfoldable pub perf_metrics_connection_end :
      Option (PerfMetrics F) → ℤ → ℤ → Option (PerfMetrics F)
  unfolding is_tracked end_connection
  perf_metrics_connection_end none i success = none
  perf_metrics_connection_end (some ctx) i success =
      if is_tracked ctx i then some (end_connection success ctx) else some ctx
