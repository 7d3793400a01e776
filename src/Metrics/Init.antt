-- ===== src/Metrics/Init.antt =====
-- `perf_metrics_init` of capture/src/performance_metrics.c and the values that `memset` and `calloc` leave.
use tlshub_ebpf.Base.{ℕ, Bool, true, false, Option, none, some, replicate, pos}
use tlshub_ebpf.Metrics.Types.{
  Doubles, Clock, Timespec, Timepoint, ConnectionMetrics, SystemMetrics, PerformanceStats, CpuStat,
  PerfMetrics,
}

abbrev pub zero_time : Timespec
zero_time = record { tv_sec = 0; tv_nsec = 0 }

abbrev pub zero_timepoint : Timepoint
zero_timepoint = record { start = zero_time; end = zero_time; duration_ns = 0 }

module _ {ℓ} {W F : Type ℓ} (sys : Clock W) (fp : Doubles F) where
  -- A slot of `conn_metrics` after `calloc` or `memset`.
  abbrev pub zero_connection : ConnectionMetrics F
  zero_connection = record {
    connection_id = 0;
    connection_latency = zero_timepoint;
    key_negotiation = zero_timepoint;
    bytes_sent = 0;
    bytes_received = 0;
    throughput_mbps = fp.of_ℕ 0;
    first_data_time = zero_time;
    last_data_time = zero_time;
  }

  abbrev pub zero_system : SystemMetrics F
  zero_system = record {
    cpu_usage_percent = fp.of_ℕ 0;
    memory_usage_kb = 0;
    memory_rss_kb = 0;
    memory_vms_kb = 0;
    active_connections = 0;
    measurement_time = zero_time;
  }

  -- The statistics after the `memset` and the two assignments that follow it.
  abbrev pub initial_stats : PerformanceStats F
  initial_stats = record {
    total_connections = 0;
    successful_connections = 0;
    failed_connections = 0;
    avg_connection_latency_ms = fp.of_ℕ 0;
    min_connection_latency_ms = fp.of_ℕ 999999;
    max_connection_latency_ms = fp.of_ℕ 0;
    avg_key_negotiation_ms = fp.of_ℕ 0;
    min_key_negotiation_ms = fp.of_ℕ 999999;
    max_key_negotiation_ms = fp.of_ℕ 0;
    avg_throughput_mbps = fp.of_ℕ 0;
    max_throughput_mbps = fp.of_ℕ 0;
    total_bytes_transferred = 0;
    avg_cpu_usage = fp.of_ℕ 0;
    peak_cpu_usage = fp.of_ℕ 0;
    avg_memory_usage_kb = 0;
    peak_memory_usage_kb = 0;
  }

  abbrev pub zero_cpu_stat : CpuStat
  zero_cpu_stat = record {
    user = 0;
    nice = 0;
    system = 0;
    idle = 0;
    iowait = 0;
    irq = 0;
    softirq = 0;
  }

  -- `perf_metrics_init(max_connections)`; the tests say whether each `calloc` succeeds.
  unfoldable pub perf_metrics_init : Bool → Bool → ℕ → W → Option (PerfMetrics F) × W
  perf_metrics_init false slots max w = (none, w)
  perf_metrics_init true false max w = (none, w)
  perf_metrics_init true true max w =
      let (now, w1) = sys.gettime w in
      (
        some (record {
          conn_metrics = replicate max zero_connection;
          max_connections = max;
          current_connections = 0;
          system_metrics = zero_system;
          stats = initial_stats;
          start_time = now;
          monitoring_enabled = pos 1;
          prev_cpu_stat = zero_cpu_stat;
          cpu_first_call = true;
        }),
        w1,
      )
