-- ===== src/MainLoop/Kept.antt =====
-- The metrics while the main loop of capture/src/main.c runs.
use tlshub_ebpf.Base.{
  ℕ, zero, suc, ◌-◌, ◌≡◌, refl, ◌⊎◌, inl, inr, Option, none, some, List, [], ◌∷◌, leb, Bool-cases,
  Option-cases, ℤ, pos, is_negative,
}
use tlshub_ebpf.Capture.{TlsKeyInfo}
use tlshub_ebpf.Tlshub.Netlink.{Netlink}
use tlshub_ebpf.KeyProvider.{Ssl, Provider, key_provider_get_key}
use tlshub_ebpf.Bpf.{TcpConnectEvent}
use tlshub_ebpf.Metrics.Types.{Doubles, Clock, PerfMetrics}
use tlshub_ebpf.Metrics.Record.{
  on_connection, perf_metrics_connection_start, perf_metrics_connection_end,
  perf_metrics_connection_latency_start, perf_metrics_connection_latency_end,
  perf_metrics_key_negotiation_start, perf_metrics_key_negotiation_end,
}
use tlshub_ebpf.Metrics.System.{ProcFiles}
use tlshub_ebpf.Metrics.Table.{
  Call, connection_start, latency_start, latency_end, negotiation_start, negotiation_end,
  connection_end, update_system, call, IsWellFormed,
}
use tlshub_ebpf.Metrics.Table.Moves.{call-Moved, Moves-IsWellFormed}
use tlshub_ebpf.Handler.{Handled, tuple_of, begin_metrics, end_metrics, conclude, handle_tcp_event}
use tlshub_ebpf.MainLoop.{
  keep_running, Events, perf_update_interval_sec, stops, Running, handle_events, periodic, leave,
  main_loop,
}

-- The metrics are disabled or well formed.
abbrev pub IsKept : {F : Type 0} → Option (PerfMetrics F) → Type 0
IsKept none = Unit {0}
IsKept (some ctx) = IsWellFormed ctx

module _ {W F : Type 0} (sys : Clock W) (proc : ProcFiles W) (fp : Doubles F) (os : Netlink W)
    (ssl : Ssl W) where
  some-IsKept :
      (k : Call) (ctx : PerfMetrics F) (w : W)
      → IsWellFormed ctx
      → IsKept (call sys proc fp k (some ctx) w).0
  some-IsKept k ctx w f =
      let (ctx', e, moves) = call-Moved sys proc fp k ctx w in
      rw e (Moves-IsWellFormed sys proc fp ctx ctx' moves f)

  -- The operations that take a connection.
  touch-IsKept :
      (k : Call) (c : Option (PerfMetrics F)) (w : W)
      → (call sys proc fp k none w).0 ≡ none
      → IsKept c
      → IsKept (call sys proc fp k c w).0
  touch-IsKept k none w e f = rw e tt
  touch-IsKept k (some ctx) w e f = some-IsKept k ctx w f

  begin-IsKept :
      (c : Option (PerfMetrics F)) (id : ℕ) (w : W)
      → IsKept c
      → IsKept ((begin_metrics sys fp os ssl c id w).1)
  unfolding begin_metrics call on_connection perf_metrics_connection_latency_start
      perf_metrics_key_negotiation_start
  begin-IsKept none id w f = tt
  begin-IsKept (some ctx) id w f =
      let start = perf_metrics_connection_start sys fp (some ctx) id in
      let c1 = start.1 in
      let latency = perf_metrics_connection_latency_start sys fp c1 start.0 w in
      let k1 = some-IsKept (connection_start id) ctx w f in
      let k2 = touch-IsKept (latency_start start.0) c1 w refl k1 in
      let k3 = touch-IsKept (negotiation_start start.0) latency.0 latency.1 refl k2 in
      elim (Bool-cases (is_negative start.0)) [ inl e ↦ rw e k1 | inr e ↦ rw e k3 ]

  end-IsKept :
      (i ret : ℤ) (c : Option (PerfMetrics F)) (w : W)
      → IsKept c
      → IsKept ((end_metrics sys fp os ssl i ret c w).0)
  unfolding end_metrics call on_connection perf_metrics_connection_latency_end
      perf_metrics_key_negotiation_end perf_metrics_connection_end
  end-IsKept i ret c w f =
      let negotiation = perf_metrics_key_negotiation_end sys fp c i w in
      let latency = perf_metrics_connection_latency_end sys fp negotiation.0 i negotiation.1 in
      let k1 = touch-IsKept (negotiation_end i) c w refl f in
      let k2 = touch-IsKept (latency_end i) negotiation.0 negotiation.1 refl k1 in
      elim (Bool-cases (is_negative i)) [
        | inl e ↦ rw e f
        | inr e ↦ elim (Bool-cases (is_negative ret)) [
          | inl e1 ↦ rw (e, e1) (touch-IsKept (connection_end i (pos 0)) negotiation.0 w refl k1)
          | inr e1 ↦ rw (e, e1) (touch-IsKept (connection_end i (pos 1)) latency.0 w refl k2)
        ]
      ]

  -- A computation still waits, or its result has well-formed metrics.
  abbrev Settled : Option (Handled W F) → Type 0
  Settled o = (o ≡ none) ⊎ ((h : Handled W F) × (o ≡ some h) × IsKept h.perf_ctx)

  handle-Settled :
      (fuel : ℕ) (event : TcpConnectEvent) (k : TlsKeyInfo) (c : Option (PerfMetrics F))
      (p : Provider) (w : W)
      → IsKept c
      → Settled (handle_tcp_event sys fp os ssl fuel event k c p w)
  unfolding handle_tcp_event conclude
  handle-Settled fuel event k c p w f =
      let begun = begin_metrics sys fp os ssl c event.timestamp w in
      let asked = key_provider_get_key os ssl fuel (some (tuple_of event)) (some k) p begun.2 in
      elim (Option-cases asked) [
        | inl e ↦ inl (rw (handle_tcp_event, e) refl)
        | inr (r, e) ↦ inr (
          conclude sys fp os ssl begun.0 begun.1 r,
          rw (handle_tcp_event, e) refl,
          end-IsKept begun.0 r.result begun.1 r.world (begin-IsKept c event.timestamp w f),
        )
      ]

  handle_events-Settled :
      (fuel : ℕ) (k : TlsKeyInfo) (es : List TcpConnectEvent) (c : Option (PerfMetrics F))
      (p : Provider) (w : W) (events : Events W)
      → IsKept c
      → Settled (handle_events sys proc fp os ssl events fuel k es c p w)
  unfolding handle_events
  handle_events-Settled fuel k [] c p w events f = inr (_, refl, f)
  handle_events-Settled fuel k (e ∷ es) c p w events f = elim (handle-Settled fuel e k c p w f) [
    | inl waits ↦ inl (rw (handle_events, waits) refl)
    | inr (h, done, f') ↦
        rw (handle_events, done)
          (handle_events-Settled fuel k es h.perf_ctx h.provider h.world events f')
  ]

  periodic-IsKept :
      (last : ℕ) (err : ℤ) (c : Option (PerfMetrics F)) (p : Provider) (w : W) (events : Events W)
      → IsKept c
      → IsKept (
          (periodic sys proc fp os ssl events last err
            (record { perf_ctx = c; provider = p; world = w })).perf_ctx)
  unfolding periodic call
  periodic-IsKept last err none p w events f = tt
  periodic-IsKept last err (some ctx) p w events f =
      let (now, w1) = events.time w in
      elim (Bool-cases (leb perf_update_interval_sec (now - last))) [
        | inl e ↦ rw e (some-IsKept update_system ctx w1 f)
        | inr e ↦ rw e f
      ]

  -- Started with metrics that are disabled or well formed, and whatever the kernel module, the TLS library,
  -- the polls and the files of /proc give: after any number of turns the main loop waits in a handshake, or it
  -- is in a state in which the metrics are disabled or well formed.
  pub main_loop-IsKept :
      (events : Events W) (turns fuel : ℕ) (k : TlsKeyInfo) (s : Running W F)
      → IsKept s.perf_ctx
      → (main_loop sys proc fp os ssl events turns fuel k s ≡ none)
        ⊎ ((after : Running W F) × (main_loop sys proc fp os ssl events turns fuel k s ≡ some after)
            × IsKept after.perf_ctx)
  unfolding main_loop leave
  main_loop-IsKept events zero fuel k s f = inr (s, refl, f)
  main_loop-IsKept events (suc turns) fuel k s f =
      let polled = events.poll s.world in
      elim (Bool-cases (keep_running events s.world)) [
        | inr e ↦ inr (s, rw (main_loop, e) refl, f)
        | inl e ↦
            elim (handle_events-Settled fuel k polled.1 s.perf_ctx s.provider polled.2 events f) [
              | inl waits ↦ inl (rw (main_loop, e, waits) refl)
              | inr (h, done, f') ↦ elim (Bool-cases (stops polled.0)) [
                | inl e1 ↦ inr (
                  leave sys proc fp os ssl events s.last_perf_update polled.0 h,
                  rw (main_loop, e, done, e1) refl,
                  f',
                )
                | inr e1 ↦
                    rw (main_loop, e, done, e1)
                      (main_loop-IsKept events turns fuel k
                        (periodic sys proc fp os ssl events s.last_perf_update polled.0 h)
                        (periodic-IsKept s.last_perf_update polled.0 h.perf_ctx h.provider h.world
                          events f'))
              ]
            ]
      ]
