-- ===== src/Handler/Samples.antt =====
-- A handler on the scripted system: natural numbers for doubles, a clock that shows the number of messages
-- sent, the OpenSSL mode, one event.
use tlshub_ebpf.Base.{ℕ, true, some, [], length, replicate, pos}
use tlshub_ebpf.Capture.{openssl, TlsKeyInfo}
use tlshub_ebpf.Tlshub.Scripted.{Script}
use tlshub_ebpf.KeyProvider.{Ssl, Provider, provider_start}
use tlshub_ebpf.Bpf.{TcpConnectEvent}
use tlshub_ebpf.Metrics.Samples.{natural}
use tlshub_ebpf.Metrics.Types.{Clock, PerfMetrics}
use tlshub_ebpf.Metrics.Init.{zero_connection, zero_system, initial_stats, zero_cpu_stat, zero_time}

abbrev pub counting : Clock Script
counting = record { gettime = λ s. (record { tv_sec = length s.outbox; tv_nsec = 0 }, s) }

abbrev pub library : Ssl Script
library = record {
  init_ssl = λ s. s;
  ctx_new = λ s. (true, s);
  ctx_free = λ s. s;
  ssl_new = λ s. (true, s);
  ssl_free = λ s. s;
  export = λ n label size s. (some (replicate n 7), s);
}

abbrev pub event : TcpConnectEvent
event = record {
  saddr = 16777343;
  daddr = 33554559;
  sport = 40000;
  dport = 443;
  pid = 12;
  timestamp = 99;
}

abbrev pub stale : TlsKeyInfo
stale = record { key = replicate 32 9; iv = replicate 16 9; key_len = 9; iv_len = 9 }

abbrev pub ready : Provider
ready = record provider_start { current_mode = openssl; ssl_ctx = true }

abbrev pub quiet : Script
quiet = record { inbox = []; outbox = [] }

abbrev pub context : ℕ → PerfMetrics ℕ
context max = record {
  conn_metrics = replicate max (zero_connection counting natural);
  max_connections = max;
  current_connections = 0;
  system_metrics = zero_system counting natural;
  stats = initial_stats counting natural;
  start_time = zero_time;
  monitoring_enabled = pos 1;
  prev_cpu_stat = zero_cpu_stat counting natural;
  cpu_first_call = true;
}
