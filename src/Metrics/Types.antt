-- ===== src/Metrics/Types.antt =====
-- The structures of capture/include/performance_metrics.h and what the module calls outside the
-- repository: the monotonic clock and the arithmetic of doubles.
use tlshub_ebpf.Base.{ℕ, ◌+◌, ◌-◌, ◌*◌, ◌%◌, ◌^◌, Bool, List, ℤ}

-- Arithmetic on `double`; `of_ℕ` is the conversion of an unsigned integer and of a literal, `of_ℤ` that
-- of a signed integer.
pub record Doubles {ℓ} (F : Type ℓ) : Type ℓ where
  pub of_ℕ : ℕ → F
  pub of_ℤ : ℤ → F
  pub add : F → F → F
  pub sub : F → F → F
  pub mul : F → F → F
  pub div : F → F → F
  pub lt : F → F → Bool

-- `struct timespec`; the monotonic clock is never negative.
pub record Timespec : Type 0 where
  pub tv_sec : ℕ
  pub tv_nsec : ℕ

-- `clock_gettime(CLOCK_MONOTONIC, ts)`
pub record Clock {ℓ} (W : Type ℓ) : Type ℓ where
  pub gettime : W → Timespec × W

-- `struct timepoint`
pub record Timepoint : Type 0 where
  pub start : Timespec
  pub end : Timespec
  pub duration_ns : ℕ

-- `struct connection_metrics`
pub record ConnectionMetrics {ℓ} (F : Type ℓ) : Type ℓ where
  pub connection_id : ℕ
  pub connection_latency : Timepoint
  pub key_negotiation : Timepoint
  pub bytes_sent : ℕ
  pub bytes_received : ℕ
  pub throughput_mbps : F
  pub first_data_time : Timespec
  pub last_data_time : Timespec

-- `struct system_metrics`
pub record SystemMetrics {ℓ} (F : Type ℓ) : Type ℓ where
  pub cpu_usage_percent : F
  pub memory_usage_kb : ℕ
  pub memory_rss_kb : ℕ
  pub memory_vms_kb : ℕ
  pub active_connections : ℕ
  pub measurement_time : Timespec

-- `struct performance_stats`
pub record PerformanceStats {ℓ} (F : Type ℓ) : Type ℓ where
  pub total_connections : ℕ
  pub successful_connections : ℕ
  pub failed_connections : ℕ
  pub avg_connection_latency_ms : F
  pub min_connection_latency_ms : F
  pub max_connection_latency_ms : F
  pub avg_key_negotiation_ms : F
  pub min_key_negotiation_ms : F
  pub max_key_negotiation_ms : F
  pub avg_throughput_mbps : F
  pub max_throughput_mbps : F
  pub total_bytes_transferred : ℕ
  pub avg_cpu_usage : F
  pub peak_cpu_usage : F
  pub avg_memory_usage_kb : ℕ
  pub peak_memory_usage_kb : ℕ

-- `struct cpu_stat`
pub record CpuStat : Type 0 where
  pub user : ℕ
  pub nice : ℕ
  pub system : ℕ
  pub idle : ℕ
  pub iowait : ℕ
  pub irq : ℕ
  pub softirq : ℕ

-- `struct perf_metrics_ctx`; the array is a list of `max_connections` elements.
pub record PerfMetrics {ℓ} (F : Type ℓ) : Type ℓ where
  pub conn_metrics : List (ConnectionMetrics F)
  pub max_connections : ℕ
  pub current_connections : ℕ
  pub system_metrics : SystemMetrics F
  pub stats : PerformanceStats F
  pub start_time : Timespec
  pub monitoring_enabled : ℤ
  pub prev_cpu_stat : CpuStat
  pub cpu_first_call : Bool

-- A time in nanoseconds, `__u64`.
unfoldable pub ns_of : Timespec → ℕ
ns_of t = (t.tv_sec * 1000000000 + t.tv_nsec) % 2 ^ 64

-- `perf_time_diff_ns(start, end)`: the difference of two `__u64`, which wraps.
unfoldable pub perf_time_diff_ns : Timespec → Timespec → ℕ
unfolding ns_of
perf_time_diff_ns start end = (ns_of end + (2 ^ 64 - ns_of start)) % 2 ^ 64

-- `perf_ns_to_ms(ns)`
unfoldable pub perf_ns_to_ms {ℓ} : {F : Type ℓ} → Doubles F → ℕ → F
perf_ns_to_ms fp ns = fp.div (fp.of_ℕ ns) (fp.of_ℕ 1000000)
