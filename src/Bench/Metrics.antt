-- ===== src/Bench/Metrics.antt =====
-- The metrics of bench/src/bench_common.c: `timespec_diff_ms`, `init_metrics`, `update_metrics`,
-- `finalize_metrics` and `get_memory_usage`. The counters of connections are `int`s, of at most 10000 each.
use tlshub_ebpf.Base.{ℕ, ◌+◌, ◌%◌, ◌^◌, Option, none, some, ltb, if◌then◌else◌, sub_ℕ}
use tlshub_ebpf.Metrics.Types.{Doubles, Clock, Timespec}
use tlshub_ebpf.Metrics.Init.{zero_time}
use tlshub_ebpf.Bench.Types.{
  ConnState, closed, failed, timeout, init, connecting, connected, sending, receiving, closing,
  ConnStats, GlobalMetrics,
}

-- The fields of `struct rusage` that are read; times in seconds and microseconds.
pub record Rusage : Type 0 where
  pub utime_sec : ℕ
  pub utime_usec : ℕ
  pub stime_sec : ℕ
  pub stime_usec : ℕ
  pub maxrss_kb : ℕ

-- `getrusage(RUSAGE_SELF, usage)`; `none` when it fails.
pub record Resources {ℓ} (W : Type ℓ) : Type ℓ where
  pub getrusage : W → Option Rusage × W

module _ {ℓ} {F : Type ℓ} (fp : Doubles F) where
  -- `timespec_diff_ms(start, end)`
  unfoldable pub timespec_diff_ms : Timespec → Timespec → F
  timespec_diff_ms start end =
      fp.add (fp.mul (fp.of_ℤ (sub_ℕ end.tv_sec start.tv_sec)) (fp.of_ℕ 1000))
        (fp.div (fp.of_ℤ (sub_ℕ end.tv_nsec start.tv_nsec)) (fp.of_ℕ 1000000))

  -- The latency of a connection that is above zero.
  unfoldable pub count_latency : F → GlobalMetrics F → GlobalMetrics F
  count_latency x m =
      if fp.lt (fp.of_ℕ 0) x
      then record m {
        avg_connection_latency_ms = fp.add m.avg_connection_latency_ms x;
        min_connection_latency_ms =
            if fp.lt x m.min_connection_latency_ms then x else m.min_connection_latency_ms;
        max_connection_latency_ms =
            if fp.lt m.max_connection_latency_ms x then x else m.max_connection_latency_ms;
      }
      else m

  unfoldable pub count_throughput : F → GlobalMetrics F → GlobalMetrics F
  count_throughput x m =
      if fp.lt (fp.of_ℕ 0) x
      then record m { avg_throughput_mbps = fp.add m.avg_throughput_mbps x }
      else m

  -- A connection that was closed properly.
  unfoldable pub count_success : ConnStats F → GlobalMetrics F → GlobalMetrics F
  unfolding count_latency count_throughput
  count_success s m = count_throughput s.throughput_mbps (
      count_latency s.connection_latency_ms (record m {
        successful_connections = m.successful_connections + 1;
        total_bytes_sent = (m.total_bytes_sent + s.bytes_sent) % 2 ^ 64;
        total_bytes_received = (m.total_bytes_received + s.bytes_received) % 2 ^ 64;
      }))

  -- The tests on the state of the connection.
  unfoldable pub count_state : ConnState → ConnStats F → GlobalMetrics F → GlobalMetrics F
  unfolding count_success
  count_state closed s m = count_success s m
  count_state failed s m = record m { failed_connections = m.failed_connections + 1 }
  count_state timeout s m = record m { timeout_connections = m.timeout_connections + 1 }
  count_state init s m = m
  count_state connecting s m = m
  count_state connected s m = m
  count_state sending s m = m
  count_state receiving s m = m
  count_state closing s m = m

  -- `update_metrics(metrics, conn_stats)`
  unfoldable pub update_metrics : GlobalMetrics F → ConnStats F → GlobalMetrics F
  unfolding count_state
  update_metrics m s =
      count_state s.state s (record m { total_connections = m.total_connections + 1 })

  -- The averages, or zeros if no connection succeeded.
  unfoldable pub finalize_averages : GlobalMetrics F → GlobalMetrics F
  finalize_averages m =
      if ltb 0 m.successful_connections
      then record m {
        avg_connection_latency_ms =
            fp.div m.avg_connection_latency_ms (fp.of_ℕ m.successful_connections);
        avg_throughput_mbps = fp.div m.avg_throughput_mbps (fp.of_ℕ m.successful_connections);
      }
      else record m {
        avg_connection_latency_ms = fp.of_ℕ 0;
        min_connection_latency_ms = fp.of_ℕ 0;
        max_connection_latency_ms = fp.of_ℕ 0;
        avg_throughput_mbps = fp.of_ℕ 0;
      }

  -- A time of `struct timeval` in seconds.
  timeval_sec : ℕ → ℕ → F
  timeval_sec sec usec = fp.add (fp.of_ℕ sec) (fp.div (fp.of_ℕ usec) (fp.of_ℕ 1000000))

  -- The CPU time of the process over the duration of the test, in percent.
  unfoldable pub cpu_usage_of : Option Rusage → F → F
  unfolding timeval_sec
  cpu_usage_of none duration = fp.of_ℕ 0
  cpu_usage_of (some u) duration =
      let cpu_time_sec =
        fp.add (timeval_sec u.utime_sec u.utime_usec) (timeval_sec u.stime_sec u.stime_usec) in
      if fp.lt (fp.of_ℕ 0) duration
      then fp.mul (fp.div cpu_time_sec duration) (fp.of_ℕ 100)
      else fp.of_ℕ 0

  -- `get_memory_usage(memory_mb)`, from what `getrusage` gave.
  unfoldable pub get_memory_usage : Option Rusage → F
  get_memory_usage none = fp.of_ℕ 0
  get_memory_usage (some u) = fp.div (fp.of_ℕ u.maxrss_kb) (fp.of_ℕ 1024)

  module _ {W : Type ℓ} (sys : Clock W) (res : Resources W) where
    -- `init_metrics(metrics)`
    unfoldable pub init_metrics : W → GlobalMetrics F × W
    init_metrics w =
        let (now, w1) = sys.gettime w in
        (
          record {
            total_connections = 0;
            successful_connections = 0;
            failed_connections = 0;
            timeout_connections = 0;
            total_bytes_sent = 0;
            total_bytes_received = 0;
            avg_connection_latency_ms = fp.of_ℕ 0;
            min_connection_latency_ms = fp.of_ℕ 999999;
            max_connection_latency_ms = fp.of_ℕ 0;
            avg_throughput_mbps = fp.of_ℕ 0;
            total_test_duration_sec = fp.of_ℕ 0;
            test_start_time = now;
            test_end_time = zero_time;
            cpu_usage_percent = fp.of_ℕ 0;
            memory_usage_mb = fp.of_ℕ 0;
          },
          w1,
        )

    -- `finalize_metrics(metrics)`
    unfoldable pub finalize_metrics : GlobalMetrics F → W → GlobalMetrics F × W
    unfolding timespec_diff_ms finalize_averages cpu_usage_of get_memory_usage
    finalize_metrics m w =
        let (now, w1) = sys.gettime w in
        let duration = fp.div (timespec_diff_ms m.test_start_time now) (fp.of_ℕ 1000) in
        let (usage, w2) = res.getrusage w1 in
        let (memory, w3) = res.getrusage w2 in
        (
          record (finalize_averages m) {
            test_end_time = now;
            total_test_duration_sec = duration;
            cpu_usage_percent = cpu_usage_of usage duration;
            memory_usage_mb = get_memory_usage memory;
          },
          w3,
        )
