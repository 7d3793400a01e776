-- ===== src/MainLoop/Ledger.antt =====
-- The calls of capture/src/main.c around the key provider open no socket and make no context.
pub mod Start
use tlshub_ebpf.Base.{
  ℕ, ◌-◌, leb, ℤ, pos, is_negative, is_zero, ◌≡◌, refl, ◌∙◌, inl, inr, true, false, Option, none,
  some, get_or, Bool-cases, Option-cases,
}
use tlshub_ebpf.Tlshub.Netlink.{Netlink}
use tlshub_ebpf.KeyProvider.{Ssl, Provided}
use tlshub_ebpf.KeyProvider.Ledger.{Held}
use tlshub_ebpf.Metrics.Types.{Doubles, Clock, ConnectionMetrics, PerfMetrics}
use tlshub_ebpf.Metrics.Init.{zero_connection}
use tlshub_ebpf.Metrics.Proc.{read_cpu_stat, read_memory_usage}
use tlshub_ebpf.Metrics.Record.{
  is_tracked, index_of, on_connection, perf_metrics_connection_start,
  perf_metrics_connection_latency_start, perf_metrics_connection_latency_end,
  perf_metrics_key_negotiation_start, perf_metrics_key_negotiation_end, perf_timepoint_start,
  perf_timepoint_end, start_latency, end_latency, start_negotiation, end_negotiation,
}
use tlshub_ebpf.Metrics.System.{
  ProcFiles, update_cpu, finish_update, update_in, perf_metrics_update_system,
}
use tlshub_ebpf.Handler.{Handled, begin_metrics, end_metrics, conclude}
use tlshub_ebpf.MainLoop.{Events, Running, perf_update_interval_sec, periodic}

-- Reading the clock, the files under /proc and the events changes neither.
pub record IsQuiet {W : Type 0} (sys : Clock W) (proc : ProcFiles W) (events : Events W)
    (view : W → Held) : Type 0 where
  pub gettime_keeps : (w : W) → view (sys.gettime w).1 ≡ view w
  pub stat_file_keeps : (w : W) → view (proc.stat_file w).1 ≡ view w
  pub status_file_keeps : (w : W) → view (proc.status_file w).1 ≡ view w
  pub poll_keeps : (w : W) → view (events.poll w).2 ≡ view w
  pub time_keeps : (w : W) → view (events.time w).1 ≡ view w

module _ {W F : Type 0} (sys : Clock W) (proc : ProcFiles W) (fp : Doubles F) (os : Netlink W)
    (ssl : Ssl W) (events : Events W) (view : W → Held) (quiet : IsQuiet sys proc events view) where
  on_connection_keeps :
      (f : ConnectionMetrics F → W → ConnectionMetrics F × W) (c : Option (PerfMetrics F)) (i : ℤ)
      (w : W)
      → ((cm : ConnectionMetrics F) (v : W) → view (f cm v).1 ≡ view v)
      → view (on_connection sys fp f c i w).1 ≡ view w
  unfolding on_connection
  on_connection_keeps f none i w keeps = refl
  on_connection_keeps f (some ctx) i w keeps = elim (Bool-cases (is_tracked sys fp ctx i)) [
    | inl e ↦ rw e (keeps (get_or ctx.conn_metrics (index_of sys fp i) (zero_connection sys fp)) w)
    | inr e ↦ rw e refl
  ]

  pub begin_keeps :
      (c : Option (PerfMetrics F)) (id : ℕ) (w : W)
      → view (begin_metrics sys fp os ssl c id w).2 ≡ view w
  unfolding begin_metrics perf_metrics_connection_latency_start perf_metrics_key_negotiation_start
      start_latency start_negotiation perf_timepoint_start
  begin_keeps none id w = refl
  begin_keeps (some ctx) id w =
      let (i, perf1) = perf_metrics_connection_start sys fp (some ctx) id in
      let (perf2, w1) = perf_metrics_connection_latency_start sys fp perf1 i w in
      let e1 : view w1 ≡ view w =
        on_connection_keeps (start_latency sys fp) perf1 i w (λ cm v. quiet.gettime_keeps v) in
      let e2 =
        on_connection_keeps (start_negotiation sys fp) perf2 i w1 (λ cm v. quiet.gettime_keeps v) in
      elim (Bool-cases (is_negative i)) [
        | inl n ↦ rw (begin_metrics, n) refl
        | inr n ↦ rw (begin_metrics, n) (e2 ∙ e1)
      ]

  end_keeps :
      (i ret : ℤ) (c : Option (PerfMetrics F)) (w : W)
      → view (end_metrics sys fp os ssl i ret c w).1 ≡ view w
  unfolding end_metrics perf_metrics_connection_latency_end perf_metrics_key_negotiation_end
      end_latency end_negotiation perf_timepoint_end
  end_keeps i ret c w =
      let (perf1, w1) = perf_metrics_key_negotiation_end sys fp c i w in
      let e1 : view w1 ≡ view w =
        on_connection_keeps (end_negotiation sys fp) c i w (λ cm v. quiet.gettime_keeps v) in
      let e2 =
        on_connection_keeps (end_latency sys fp) perf1 i w1 (λ cm v. quiet.gettime_keeps v) in
      elim (Bool-cases (is_negative i)) [
        | inl n ↦ rw (end_metrics, n) refl
        | inr n ↦ elim (Bool-cases (is_negative ret)) [
          | inl b ↦ rw (end_metrics, n, b) e1
          | inr b ↦ rw (end_metrics, n, b) (e2 ∙ e1)
        ]
      ]

  pub conclude_keeps :
      (i : ℤ) (c : Option (PerfMetrics F)) (r : Provided W)
      → view (conclude sys fp os ssl i c r).world ≡ view r.world
  unfolding conclude
  conclude_keeps i c r = end_keeps i r.result c r.world

  finish_keeps : (ctx : PerfMetrics F) (w : W) → view (finish_update sys proc fp ctx w).2 ≡ view w
  unfolding finish_update
  finish_keeps ctx w =
      let (status, w1) = proc.status_file w in
      let e1 = quiet.status_file_keeps w in
      elim (Option-cases (read_memory_usage status)) [
        | inl m ↦ rw (finish_update, m) e1
        | inr (usage, m) ↦ rw (finish_update, m) (quiet.gettime_keeps w1 ∙ e1)
      ]

  update_keeps :
      (c : Option (PerfMetrics F)) (w : W)
      → view (perf_metrics_update_system sys proc fp c w).2 ≡ view w
  unfolding perf_metrics_update_system update_in
  update_keeps none w = refl
  update_keeps (some ctx) w =
      let (stat, w1) = proc.stat_file w in
      let e1 = quiet.stat_file_keeps w in
      elim (Bool-cases (is_zero ctx.monitoring_enabled)) [
        | inl z ↦ rw z refl
        | inr z ↦ elim (Option-cases (read_cpu_stat stat)) [
          | inl r ↦ rw (z, r) e1
          | inr (curr, r) ↦ rw (z, r) (finish_keeps (update_cpu sys proc fp curr ctx) w1 ∙ e1)
        ]
      ]

  pub periodic-view :
      (last : ℕ) (err : ℤ) (h : Handled W F)
      → view (periodic sys proc fp os ssl events last err h).world ≡ view h.world
  unfolding periodic
  periodic-view last err h =
      let (now, w1) = events.time h.world in
      let e1 = quiet.time_keeps h.world in
      elim (Option-cases h.perf_ctx) [
        | inl e ↦ rw (periodic, e) refl
        | inr (ctx, e) ↦ elim (Bool-cases (leb perf_update_interval_sec (now - last))) [
          | inl b ↦ rw (periodic, e, b) (update_keeps h.perf_ctx w1 ∙ e1)
          | inr b ↦ rw (periodic, e, b) e1
        ]
      ]
