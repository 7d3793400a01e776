-- ===== src/Handler.antt =====
-- `handle_tcp_event` of capture/src/main.c, which is called for each event of the kernel program: it asks
-- the key provider for a key and measures how long that takes. Printed messages are left out.
pub mod Steps
pub mod Accounts
pub mod Samples
mod Tests
use tlshub_ebpf.Base.{
  ℕ, ℤ, pos, minus_one, is_negative, Bool, true, false, Option, none, some, if◌then◌else◌,
}
use tlshub_ebpf.Capture.{FlowTuple, TlsKeyInfo}
use tlshub_ebpf.Tlshub.Netlink.{Netlink}
use tlshub_ebpf.KeyProvider.{Ssl, Provider, Provided, key_provider_get_key}
use tlshub_ebpf.Bpf.{TcpConnectEvent}
use tlshub_ebpf.Metrics.Types.{Doubles, Clock, PerfMetrics}
use tlshub_ebpf.Metrics.Record.{
  perf_metrics_connection_start, perf_metrics_connection_latency_start,
  perf_metrics_connection_latency_end, perf_metrics_key_negotiation_start,
  perf_metrics_key_negotiation_end, perf_metrics_connection_end,
}

-- The four-tuple of the event.
unfoldable pub tuple_of : TcpConnectEvent → FlowTuple
tuple_of event = record {
  saddr = event.saddr;
  daddr = event.daddr;
  sport = event.sport;
  dport = event.dport;
}

-- `perf_ctx`, the key provider's module and the system after a call.
pub record Handled (W F : Type 0) : Type 0 where
  pub perf_ctx : Option (PerfMetrics F)
  pub provider : Provider
  pub world : W

module _ {W F : Type 0} (sys : Clock W) (fp : Doubles F) (os : Netlink W) (ssl : Ssl W) where
  -- The metrics before the key is asked for; gives `conn_index` as well.
  unfoldable pub begin_metrics : Option (PerfMetrics F) → ℕ → W → ℤ × Option (PerfMetrics F) × W
  begin_metrics none connection_id w = (minus_one, none, w)
  begin_metrics (some ctx) connection_id w =
      let (conn_index, perf1) = perf_metrics_connection_start sys fp (some ctx) connection_id in
      let (perf2, w1) = perf_metrics_connection_latency_start sys fp perf1 conn_index w in
      let (perf3, w2) = perf_metrics_key_negotiation_start sys fp perf2 conn_index w1 in
      if is_negative conn_index then (conn_index, perf1, w) else (conn_index, perf3, w2)

  -- The metrics after the key provider returned `ret`.
  unfoldable pub end_metrics : ℤ → ℤ → Option (PerfMetrics F) → W → Option (PerfMetrics F) × W
  end_metrics conn_index ret perf w =
      let (perf1, w1) = perf_metrics_key_negotiation_end sys fp perf conn_index w in
      let (perf2, w2) = perf_metrics_connection_latency_end sys fp perf1 conn_index w1 in
      if is_negative conn_index
      then (perf, w)
      else if is_negative ret
      then (perf_metrics_connection_end sys fp perf1 conn_index (pos 0), w1)
      else (perf_metrics_connection_end sys fp perf2 conn_index (pos 1), w2)

  unfoldable pub conclude : ℤ → Option (PerfMetrics F) → Provided W → Handled W F
  unfolding end_metrics
  conclude conn_index perf r =
      let (perf1, w1) = end_metrics conn_index r.result perf r.world in
      record { perf_ctx = perf1; provider = r.provider; world = w1 }

  -- `handle_tcp_event(ctx, cpu, data, data_sz)`, with what the stack held where `key_info` is; the fuel is
  -- that of the handshake's waiting loop, and `none` says that it was not enough.
  unfoldable pub handle_tcp_event :
      ℕ
      → TcpConnectEvent
      → TlsKeyInfo
      → Option (PerfMetrics F)
      → Provider
      → W
      → Option (Handled W F)
  unfolding begin_metrics conclude
  handle_tcp_event fuel event key_info perf p w =
      let (conn_index, perf1, w1) = begin_metrics perf event.timestamp w in
      elim (key_provider_get_key os ssl fuel (some (tuple_of event)) (some key_info) p w1) [
        | none ↦ none
        | some r ↦ some (conclude conn_index perf1 r)
      ]
