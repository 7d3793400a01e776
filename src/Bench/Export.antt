-- ===== src/Bench/Export.antt =====
-- `export_metrics_json` and `export_metrics_csv` of bench/src/bench_common.c: the values that are written, in
-- their order. The text around them and the rounding of the numbers are left out.
use tlshub_ebpf.Base.{
  ℕ, Bool, true, false, Option, none, some, List, [], ◌∷◌, Bytes, ℤ, pos, minus_one, take,
}
use tlshub_ebpf.Stdio.{c_string}
use tlshub_ebpf.Bench.Types.{
  BenchMode, BenchConfig, ConnState, init, connecting, connected, sending, receiving, closing,
  closed, failed, timeout, ConnStats, GlobalMetrics,
}

-- What is written of a connection; the state by its number.
pub record Detail {ℓ} (F : Type ℓ) : Type ℓ where
  pub conn_id : ℕ
  pub state : ℕ
  pub bytes_sent : ℕ
  pub bytes_received : ℕ
  pub connection_latency_ms : F
  pub data_transfer_time_ms : F
  pub throughput_mbps : F

-- What an export writes; the CSV file has no listen port.
pub record Report {ℓ} (F : Type ℓ) : Type ℓ where
  pub mode : BenchMode
  pub target_ip : Bytes
  pub target_port : ℕ
  pub listen_port : Option ℕ
  pub data_size : ℕ
  pub concurrency : ℕ
  pub planned_connections : ℕ
  pub summary : GlobalMetrics F
  pub details : List (Detail F)

unfoldable pub state_number : ConnState → ℕ
state_number init = 0
state_number connecting = 1
state_number connected = 2
state_number sending = 3
state_number receiving = 4
state_number closing = 5
state_number closed = 6
state_number failed = 7
state_number timeout = 8

module _ {ℓ} {F : Type ℓ} where
  unfoldable pub detail : ConnStats F → Detail F
  unfolding state_number
  detail s = record {
    conn_id = s.conn_id;
    state = state_number s.state;
    bytes_sent = s.bytes_sent;
    bytes_received = s.bytes_received;
    connection_latency_ms = s.connection_latency_ms;
    data_transfer_time_ms = s.data_transfer_time_ms;
    throughput_mbps = s.throughput_mbps;
  }

  -- The loop over the connections.
  unfoldable pub details_of : List (ConnStats F) → List (Detail F)
  unfolding detail
  details_of [] = []
  details_of (s ∷ ss) = detail s ∷ details_of ss

  unfoldable pub report_of : BenchConfig → GlobalMetrics F → List (ConnStats F) → Report F
  unfolding details_of
  report_of config m ss = record {
    mode = config.mode;
    target_ip = c_string config.target_ip;
    target_port = config.target_port;
    listen_port = some config.listen_port;
    data_size = config.data_size;
    concurrency = config.concurrency;
    planned_connections = config.total_connections;
    summary = m;
    details = details_of ss;
  }

  -- `export_metrics_json`; the test says whether the file can be opened.
  unfoldable pub export_metrics_json :
      Bool → BenchConfig → GlobalMetrics F → List (ConnStats F) → ℕ → ℤ × Option (Report F)
  unfolding report_of
  export_metrics_json false config m ss n = (minus_one, none)
  export_metrics_json true config m ss n = (pos 0, some (report_of config m (take n ss)))

  -- `export_metrics_csv`, which writes the same values but for the listen port.
  unfoldable pub export_metrics_csv :
      Bool → BenchConfig → GlobalMetrics F → List (ConnStats F) → ℕ → ℤ × Option (Report F)
  unfolding report_of
  export_metrics_csv false config m ss n = (minus_one, none)
  export_metrics_csv true config m ss n =
      (pos 0, some (record (report_of config m (take n ss)) { listen_port = none }))
