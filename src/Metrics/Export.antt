-- ===== src/Metrics/Export.antt =====
-- `perf_metrics_print_report`, `perf_metrics_export_json` and `perf_metrics_export_csv` of
-- capture/src/performance_metrics.c: the values that are written, in their order. The text around them and
-- the rounding to two or three decimals are left out.
use tlshub_ebpf.Base.{
  ℕ, ◌<◌, ◌^◌, ◌≡◌, refl, Bool, true, false, Option, none, some, List, [], ◌∷◌, take, length, Bytes,
  ℤ, pos, minus_one,
}
use tlshub_ebpf.Metrics.Types.{
  Doubles, ConnectionMetrics, PerformanceStats, PerfMetrics, perf_ns_to_ms,
}
use tlshub_ebpf.Metrics.Stats.{perf_metrics_calculate_stats}
use tlshub_ebpf.Metrics.Stats.Tallies.{IsOrder, IsAmong}
use tlshub_ebpf.Metrics.Stats.Bounds.{IsCovered, calculate_stats-IsCovered}

-- What both exports write of a connection.
pub record Row {ℓ} (F : Type ℓ) : Type ℓ where
  pub connection_id : ℕ
  pub connection_latency_ms : F
  pub key_negotiation_ms : F
  pub bytes_sent : ℕ
  pub bytes_received : ℕ
  pub throughput_mbps : F

-- What the JSON export writes; the report prints the same statistics.
pub record Document {ℓ} (F : Type ℓ) : Type ℓ where
  pub timestamp : ℕ
  pub summary : PerformanceStats F
  pub active_connections : ℕ
  pub connections : List (Row F)

module _ {ℓ} {F : Type ℓ} (fp : Doubles F) where
  abbrev pub row : ConnectionMetrics F → Row F
  row cm = record {
    connection_id = cm.connection_id;
    connection_latency_ms = perf_ns_to_ms fp cm.connection_latency.duration_ns;
    key_negotiation_ms = perf_ns_to_ms fp cm.key_negotiation.duration_ns;
    bytes_sent = cm.bytes_sent;
    bytes_received = cm.bytes_received;
    throughput_mbps = cm.throughput_mbps;
  }

  -- The loop over the connections.
  unfoldable pub rows : List (ConnectionMetrics F) → List (Row F)
  rows [] = []
  rows (cm ∷ cms) = row cm ∷ rows cms

  connection_rows : PerfMetrics F → List (Row F)
  unfolding rows
  connection_rows ctx = rows (take ctx.current_connections ctx.conn_metrics)

  document : ℕ → PerfMetrics F → Document F
  unfolding connection_rows
  document now ctx = record {
    timestamp = now;
    summary = ctx.stats;
    active_connections = ctx.system_metrics.active_connections;
    connections = connection_rows ctx;
  }

  json_of : ℕ → Option (PerfMetrics F) → ℤ × Option (PerfMetrics F) × Option (Document F)
  unfolding document
  json_of now none = (minus_one, none, none)
  json_of now (some ctx) = (pos 0, some ctx, some (document now ctx))

  -- `perf_metrics_export_json(ctx, filename)` at a time; the test says whether the file can be opened.
  unfoldable pub perf_metrics_export_json :
      ℕ
      → Bool
      → Option (PerfMetrics F)
      → Option Bytes
      → ℤ × Option (PerfMetrics F) × Option (Document F)
  unfolding json_of
  perf_metrics_export_json now opens none filename = (minus_one, none, none)
  perf_metrics_export_json now opens (some ctx) none = (minus_one, some ctx, none)
  perf_metrics_export_json now false (some ctx) (some name) = (minus_one, some ctx, none)
  perf_metrics_export_json now true (some ctx) (some name) =
      json_of now (perf_metrics_calculate_stats fp (some ctx))

  -- `perf_metrics_export_csv(ctx, filename)`, which computes no statistics.
  unfoldable pub perf_metrics_export_csv :
      Bool → Option (PerfMetrics F) → Option Bytes → ℤ × Option (List (Row F))
  unfolding connection_rows
  perf_metrics_export_csv opens none filename = (minus_one, none)
  perf_metrics_export_csv opens (some ctx) none = (minus_one, none)
  perf_metrics_export_csv false (some ctx) (some name) = (minus_one, none)
  perf_metrics_export_csv true (some ctx) (some name) = (pos 0, some (connection_rows ctx))

  -- `perf_metrics_print_report(ctx)`: the statistics and the number of active connections it prints, and
  -- the context it leaves.
  unfoldable pub perf_metrics_print_report :
      Option (PerfMetrics F) → Option (PerfMetrics F) × Option (PerformanceStats F × ℕ)
  perf_metrics_print_report c = elim (perf_metrics_calculate_stats fp c) [
    | none ↦ (none, none)
    | some ctx ↦ (some ctx, some (ctx.stats, ctx.system_metrics.active_connections))
  ]

  -- `perf_metrics_export_json` on a file that opens, of a context with a connection `cm` among fewer than
  -- 2^32: it succeeds, and the document's rows are those that `perf_metrics_export_csv` writes of the
  -- context it leaves; in its summary the latency of `cm`, if measured, is between the minimum and the maximum,
  -- and its key negotiation as well. The comparison of doubles is an order on the values that are no NaN.
  pub export_json-IsCovered :
      (o : IsOrder fp) (now : ℕ) (name : Bytes) (ctx : PerfMetrics F) (cm : ConnectionMetrics F)
      → IsAmong cm (take ctx.current_connections ctx.conn_metrics)
      → length (take ctx.current_connections ctx.conn_metrics) < 2 ^ 32
      → (after : PerfMetrics F) × (d : Document F) × (perf_metrics_export_json now true
            (some ctx)
            (some name)
          ≡ (pos 0, some after, some d))
        × (perf_metrics_export_csv true (some after) (some name) ≡ (pos 0, some d.connections))
        × IsCovered fp cm.connection_latency.duration_ns d.summary.min_connection_latency_ms
            d.summary.max_connection_latency_ms
        × IsCovered fp cm.key_negotiation.duration_ns d.summary.min_key_negotiation_ms
            d.summary.max_key_negotiation_ms
  unfolding perf_metrics_export_json perf_metrics_export_csv json_of document
  export_json-IsCovered o now name ctx cm among size =
      let (after, e, latency, negotiation) = calculate_stats-IsCovered fp o ctx cm among size in
      (after, document now after, rw e refl, refl, latency, negotiation)
