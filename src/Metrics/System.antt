-- ===== src/Metrics/System.antt =====
-- `calculate_cpu_usage` and `perf_metrics_update_system` of capture/src/performance_metrics.c.
use tlshub_ebpf.Base.{
  ℕ, ◌+◌, ◌-◌, ◌%◌, ◌^◌, false, Option, none, some, Bytes, ◌==◌, ltb, if◌then◌else◌, ℤ, pos,
  minus_one, is_zero,
}
use tlshub_ebpf.Metrics.Types.{Doubles, Clock, Timespec, CpuStat, PerfMetrics}
use tlshub_ebpf.Metrics.Proc.{read_cpu_stat, read_memory_usage}

-- The reading of /proc/stat and of /proc/self/status.
pub record ProcFiles {ℓ} (W : Type ℓ) : Type ℓ where
  pub stat_file : W → Option Bytes × W
  pub status_file : W → Option Bytes × W

-- The difference of two `unsigned long long`, which wraps.
unfoldable pub minus_u64 : ℕ → ℕ → ℕ
minus_u64 a b = (a + (2 ^ 64 - b)) % 2 ^ 64

unfoldable pub total_time : CpuStat → ℕ
total_time s = (s.user + s.nice + s.system + s.idle + s.iowait + s.irq + s.softirq) % 2 ^ 64

unfoldable pub idle_time : CpuStat → ℕ
idle_time s = (s.idle + s.iowait) % 2 ^ 64

module _ {ℓ} {W F : Type ℓ} (sys : Clock W) (proc : ProcFiles W) (fp : Doubles F) where
  -- `calculate_cpu_usage(prev, curr)`
  unfoldable pub calculate_cpu_usage : CpuStat → CpuStat → F
  unfolding minus_u64 total_time idle_time
  calculate_cpu_usage prev curr =
      let total_diff = minus_u64 (total_time curr) (total_time prev) in
      let idle_diff = minus_u64 (idle_time curr) (idle_time prev) in
      if total_diff == 0
      then fp.of_ℕ 0
      else fp.div (fp.mul (fp.of_ℕ (minus_u64 total_diff idle_diff)) (fp.of_ℕ 100))
          (fp.of_ℕ total_diff)

  -- The CPU usage and its peak, after a reading.
  unfoldable pub update_cpu : CpuStat → PerfMetrics F → PerfMetrics F
  unfolding calculate_cpu_usage
  update_cpu curr ctx =
      let usage = calculate_cpu_usage ctx.prev_cpu_stat curr in
      if ctx.cpu_first_call
      then record ctx {
        cpu_first_call = false;
        system_metrics = record (ctx.system_metrics) { cpu_usage_percent = fp.of_ℕ 0 };
        prev_cpu_stat = curr;
      }
      else record ctx {
        system_metrics = record (ctx.system_metrics) { cpu_usage_percent = usage };
        stats =
            if fp.lt ctx.stats.peak_cpu_usage usage
            then record (ctx.stats) { peak_cpu_usage = usage }
            else ctx.stats;
        prev_cpu_stat = curr;
      }

  -- The memory usage, its peak and the time, after a reading.
  unfoldable pub update_memory : ℕ × ℕ → Timespec → PerfMetrics F → PerfMetrics F
  update_memory (rss_kb, vms_kb) now ctx = record ctx {
    system_metrics = record (ctx.system_metrics) {
      memory_rss_kb = rss_kb;
      memory_vms_kb = vms_kb;
      memory_usage_kb = rss_kb;
      measurement_time = now;
    };
    stats =
        if ltb ctx.stats.peak_memory_usage_kb rss_kb
        then record (ctx.stats) { peak_memory_usage_kb = rss_kb }
        else ctx.stats;
  }

  -- The second half of the update, once the CPU figures are stored.
  unfoldable pub finish_update : PerfMetrics F → W → ℤ × PerfMetrics F × W
  unfolding update_memory
  finish_update ctx w =
      let (status, w1) = proc.status_file w in
      let (now, w2) = sys.gettime w1 in
      elim (read_memory_usage status) [
        | none ↦ (minus_one, ctx, w1)
        | some usage ↦ (pos 0, update_memory usage now ctx, w2)
      ]

  unfoldable pub update_in : PerfMetrics F → W → ℤ × PerfMetrics F × W
  unfolding update_cpu finish_update
  update_in ctx w =
      let (stat, w1) = proc.stat_file w in
      if is_zero ctx.monitoring_enabled then (minus_one, ctx, w) else (elim (read_cpu_stat stat) [
        | none ↦ (minus_one, ctx, w1)
        | some curr ↦ finish_update (update_cpu curr ctx) w1
      ])

  -- `perf_metrics_update_system(ctx)`
  unfoldable pub perf_metrics_update_system :
      Option (PerfMetrics F) → W → ℤ × Option (PerfMetrics F) × W
  unfolding update_in
  perf_metrics_update_system none w = (minus_one, none, w)
  perf_metrics_update_system (some ctx) w =
      let (r, ctx1, w1) = update_in ctx w in (r, some ctx1, w1)
