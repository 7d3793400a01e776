-- ===== src/Bench/Types.antt =====
-- The types of bench/include/bench_common.h. The enumeration of the modes is that of this tool.
use tlshub_ebpf.Base.{ℕ, Bool, Bytes}
use tlshub_ebpf.Metrics.Types.{Timespec}

-- `bench_mode_t`
pub data BenchMode : Type 0 where
  client server : BenchMode

-- `conn_state_t`
pub data ConnState : Type 0 where
  init connecting connected sending receiving closing closed failed timeout : ConnState

-- `bench_config_t`; the paths and the address are the buffers.
pub record BenchConfig : Type 0 where
  pub mode : BenchMode
  pub target_ip : Bytes
  pub target_port : ℕ
  pub listen_port : ℕ
  pub data_size : ℕ
  pub concurrency : ℕ
  pub total_connections : ℕ
  pub verbose : Bool
  pub output_json : Bytes
  pub output_csv : Bytes

-- `conn_stats_t`
pub record ConnStats {ℓ} (F : Type ℓ) : Type ℓ where
  pub conn_id : ℕ
  pub state : ConnState
  pub start_time : Timespec
  pub connect_time : Timespec
  pub first_byte_time : Timespec
  pub close_time : Timespec
  pub bytes_sent : ℕ
  pub bytes_received : ℕ
  pub connection_latency_ms : F
  pub data_transfer_time_ms : F
  pub throughput_mbps : F

-- `global_metrics_t`
pub record GlobalMetrics {ℓ} (F : Type ℓ) : Type ℓ where
  pub total_connections : ℕ
  pub successful_connections : ℕ
  pub failed_connections : ℕ
  pub timeout_connections : ℕ
  pub total_bytes_sent : ℕ
  pub total_bytes_received : ℕ
  pub avg_connection_latency_ms : F
  pub min_connection_latency_ms : F
  pub max_connection_latency_ms : F
  pub avg_throughput_mbps : F
  pub total_test_duration_sec : F
  pub test_start_time : Timespec
  pub test_end_time : Timespec
  pub cpu_usage_percent : F
  pub memory_usage_mb : F
