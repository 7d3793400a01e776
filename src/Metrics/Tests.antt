-- ===== src/Metrics/Tests.antt =====
-- The metrics with natural numbers for doubles and a clock that counts its readings.
use tlshub_ebpf.Base.{
  ℕ, suc, ◌≡◌, refl, true, Option, some, List, [], ◌∷◌, pos, minus_one, codes, str_eq, arith,
}
use tlshub_ebpf.Stdio.{chunk, c_string, skip_space, is_space}
use tlshub_ebpf.Metrics.Samples.{natural-IsOrder, natural}
use tlshub_ebpf.Metrics.Types.{Clock, ConnectionMetrics, PerfMetrics}
use tlshub_ebpf.Metrics.Init.{zero_connection, perf_metrics_init}
use tlshub_ebpf.Metrics.Record.{perf_metrics_connection_start}
use tlshub_ebpf.Metrics.Record.Transfers.{transfers, transfers_sum}
use tlshub_ebpf.Metrics.Proc.{read_cpu_stat, read_memory_usage, scan_llu, scan_numbers, status_line}
use tlshub_ebpf.Metrics.System.{ProcFiles}
use tlshub_ebpf.Metrics.Stats.{perf_metrics_calculate_stats}
use tlshub_ebpf.Metrics.Stats.Tallies.{first}
use tlshub_ebpf.Metrics.Stats.Bounds.{IsCovered, calculate_stats-IsCovered}
use tlshub_ebpf.Metrics.Export.{
  Document, perf_metrics_export_json, perf_metrics_export_csv, export_json-IsCovered,
}
use tlshub_ebpf.Metrics.Table.{
  Call, connection_start, negotiation_start, negotiation_end, connection_end, update_system, calls,
}
use tlshub_ebpf.Metrics.Table.Capacity.{IsUsable, calls-IsWellFormed, calls-start_full}

abbrev ticking : Clock ℕ
ticking = record { gettime = λ w. (record { tv_sec = w; tv_nsec = 0 }, suc w) }

abbrev files : ProcFiles ℕ
files = record {
  stat_file = λ w. (some (codes "cpu  10 0 5 80 5 0 0 0\n"), w);
  status_file = λ w. (some (codes "Name:\tcapture\nVmSize:\t  4000 kB\nVmRSS:\t  1500 kB\n"), w);
}

abbrev measured : ConnectionMetrics ℕ
measured = record (zero_connection ticking natural) {
  connection_latency = record {
    start = record { tv_sec = 1; tv_nsec = 0 };
    end = record { tv_sec = 3; tv_nsec = 0 };
    duration_ns = 2000000000;
  };
}

abbrev start_context : Option (PerfMetrics ℕ)
start_context = (perf_metrics_init ticking natural true true 1 0).0

abbrev one_slot : PerfMetrics ℕ
one_slot = record {
  conn_metrics = measured ∷ [];
  max_connections = 1;
  current_connections = 1;
  system_metrics = record {
    cpu_usage_percent = 0;
    memory_usage_kb = 0;
    memory_rss_kb = 0;
    memory_vms_kb = 0;
    active_connections = 0;
    measurement_time = record { tv_sec = 0; tv_nsec = 0 };
  };
  stats = record {
    total_connections = 1;
    successful_connections = 1;
    failed_connections = 0;
    avg_connection_latency_ms = 0;
    min_connection_latency_ms = 0;
    max_connection_latency_ms = 0;
    avg_key_negotiation_ms = 0;
    min_key_negotiation_ms = 0;
    max_key_negotiation_ms = 0;
    avg_throughput_mbps = 0;
    max_throughput_mbps = 0;
    total_bytes_transferred = 0;
    avg_cpu_usage = 0;
    peak_cpu_usage = 0;
    avg_memory_usage_kb = 0;
    peak_memory_usage_kb = 0;
  };
  start_time = record { tv_sec = 0; tv_nsec = 0 };
  monitoring_enabled = pos 1;
  prev_cpu_stat = record {
    user = 0;
    nice = 0;
    system = 0;
    idle = 0;
    iowait = 0;
    irq = 0;
    softirq = 0;
  };
  cpu_first_call = true;
}

calculate_stats-IsCovered_example :
    (after : PerfMetrics ℕ) × (perf_metrics_calculate_stats natural (some one_slot) ≡ some after)
    × IsCovered natural 2000000000 after.stats.min_connection_latency_ms
        after.stats.max_connection_latency_ms
    × IsCovered natural 0 after.stats.min_key_negotiation_ms after.stats.max_key_negotiation_ms
calculate_stats-IsCovered_example =
    calculate_stats-IsCovered natural natural-IsOrder one_slot measured first (omega arith)

export_json-IsCovered_example :
    (after : PerfMetrics ℕ) × (d : Document ℕ) × (perf_metrics_export_json natural 5 true
        (some one_slot)
        (some (codes "a.json"))
      ≡ (pos 0, some after, some d))
    × (perf_metrics_export_csv natural true (some after) (some (codes "a.json"))
        ≡ (pos 0, some d.connections))
    × IsCovered natural 2000000000 d.summary.min_connection_latency_ms
        d.summary.max_connection_latency_ms
    × IsCovered natural 0 d.summary.min_key_negotiation_ms d.summary.max_key_negotiation_ms
export_json-IsCovered_example =
    export_json-IsCovered natural natural-IsOrder 5 (codes "a.json") one_slot measured first
      (omega arith)

transfers_sum_example :
    ((transfers ticking natural ((10, 3) ∷ (5, 4) ∷ []) measured 0).0.bytes_sent ≡ 15)
    × ((transfers ticking natural ((10, 3) ∷ (5, 4) ∷ []) measured 0).0.bytes_received ≡ 7)
transfers_sum_example =
    transfers_sum ticking natural ((10, 3) ∷ (5, 4) ∷ []) measured 0 (omega arith) (omega arith)

abbrev session : List Call
session =
    connection_start 7
    ∷ negotiation_start (pos 0)
    ∷ negotiation_end (pos 0)
    ∷ connection_end (pos 0) (pos 1)
    ∷ update_system
    ∷ []

calls-IsWellFormed_example :
    (after : PerfMetrics ℕ) × ((calls ticking files natural session
        ((perf_metrics_init ticking natural true true 4 0).0)
        ((perf_metrics_init ticking natural true true 4 0).1)).0
      ≡ some after)
    × IsUsable after
calls-IsWellFormed_example = calls-IsWellFormed ticking files natural session 4 0 (omega arith)

calls-start_full_example :
    (after : PerfMetrics ℕ) × ((calls ticking files natural session (some one_slot) 0).0
      ≡ some after)
    × ((perf_metrics_connection_start ticking natural (some after) 9).0 ≡ minus_one)
calls-start_full_example = calls-start_full ticking files natural session one_slot 0 9 (omega arith)

-- The readers of /proc at small files.
cpu_line_read :
    read_cpu_stat (some (codes "cpu  10 0 5 80 5 0 0 0\ncpu0 1\n"))
    ≡ some (record { user = 10; nice = 0; system = 5; idle = 80; iowait = 5; irq = 0; softirq = 0 })
unfolding read_cpu_stat str_eq c_string chunk scan_numbers scan_llu skip_space is_space
cpu_line_read = refl

memory_read :
    read_memory_usage (some (codes "Name:\tcapture\nVmSize:\t  4000 kB\nVmRSS:\t  1500 kB\n"))
    ≡ some (1500, 4000)
unfolding read_memory_usage chunk status_line str_eq c_string scan_llu skip_space is_space
memory_read = refl
