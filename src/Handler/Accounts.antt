-- ===== src/Handler/Accounts.antt =====
-- What one event changes in the counts of the metrics.
use tlshub_ebpf.Base.{
  ℕ, ◌+◌, ◌%◌, ◌^◌, ◌≤◌, ◌<◌, ◌≡◌, refl, ap, ◌∙◌, inl, inr, true, some, ltb, leb, if◌then◌else◌, ℤ,
  pos, minus_one, is_zero, is_negative, Bool-cases, arith,
}
use tlshub_ebpf.Capture.{TlsKeyInfo}
use tlshub_ebpf.Tlshub.Netlink.{Netlink}
use tlshub_ebpf.KeyProvider.{Ssl, Provider, Provided, key_provider_get_key}
use tlshub_ebpf.Bpf.{TcpConnectEvent}
use tlshub_ebpf.Metrics.Types.{Doubles, Clock, PerfMetrics}
use tlshub_ebpf.Metrics.Record.{
  new_connection, connection_start_in, perf_metrics_connection_start, count_end, end_active,
  end_connection,
}
use tlshub_ebpf.Handler.{Handled, tuple_of, begin_metrics, end_metrics, conclude, handle_tcp_event}
use tlshub_ebpf.Handler.Steps.{Same, after_2, HasRoom, begin_room, success_of, end_tracked}

-- The counts after an event, from those before; `ret` is the result of the request for a key.
pub record Counted {F : Type 0} (ret : ℤ) (ctx after : PerfMetrics F) : Type 0 where
  pub total : after.stats.total_connections ≡ (ctx.stats.total_connections + 1) % 2 ^ 64
  pub successful : after.stats.successful_connections ≡ (
      if is_negative ret
      then ctx.stats.successful_connections
      else (ctx.stats.successful_connections + 1) % 2 ^ 64)
  pub failed : after.stats.failed_connections ≡ (
      if is_negative ret
      then (ctx.stats.failed_connections + 1) % 2 ^ 64
      else ctx.stats.failed_connections)
  pub active : after.system_metrics.active_connections ≡ ctx.system_metrics.active_connections
  pub current : after.current_connections ≡ ctx.current_connections + 1
  pub enabled : after.monitoring_enabled ≡ ctx.monitoring_enabled
  pub max : after.max_connections ≡ ctx.max_connections

module _ {W F : Type 0} (sys : Clock W) (fp : Doubles F) (os : Netlink W) (ssl : Ssl W) where
  ended-Counted :
      (ctx c1 c2 : PerfMetrics F) (id : ℕ) (ret : ℤ)
      → HasRoom sys fp ctx
      → ctx.system_metrics.active_connections + 1 < 2 ^ 32
      → Same (new_connection sys fp ctx id) c1
      → Same c1 c2
      → Counted ret ctx (end_connection sys fp (success_of sys fp ret) c2)
  unfolding end_connection new_connection count_end end_active success_of
  ended-Counted ctx c1 c2 id ret r bound s t =
      let stats = t.stats ∙ s.stats in
      let total : c2.stats.total_connections ≡ (ctx.stats.total_connections + 1) % 2 ^ 64 =
        ap (λ x. x.total_connections) stats in
      let successful : c2.stats.successful_connections ≡ ctx.stats.successful_connections =
        ap (λ x. x.successful_connections) stats in
      let failed : c2.stats.failed_connections ≡ ctx.stats.failed_connections =
        ap (λ x. x.failed_connections) stats in
      let active : c2.system_metrics.active_connections
          ≡ (ctx.system_metrics.active_connections + 1) % 2 ^ 32 =
        ap (λ x. x.active_connections) (t.system ∙ s.system) in
      let current : c2.current_connections ≡ (ctx.current_connections + 1) % 2 ^ 32 =
        t.current ∙ s.current in
      let some_active : ltb 0 c2.system_metrics.active_connections ≡ true =
        ground (arith, active, bound) in
      record {
        total = elim (Bool-cases (is_negative ret)) [ inl e ↦ rw e total | inr e ↦ rw e total ];
        successful = elim (Bool-cases (is_negative ret)) [
          | inl e ↦ rw e successful
          | inr e ↦ rw e (ap (λ n. (n + 1) % 2 ^ 64) successful)
        ];
        failed = elim (Bool-cases (is_negative ret)) [
          | inl e ↦ rw e (ap (λ n. (n + 1) % 2 ^ 64) failed)
          | inr e ↦ rw e failed
        ];
        active = rw some_active (omega (arith, active, bound));
        current = omega (arith, current, r.room, r.small);
        enabled = t.enabled ∙ s.enabled;
        max = t.max ∙ s.max;
      }

  -- `handle_tcp_event` with the metrics enabled, a slot left, a maximum below 2^31 and fewer than 2^32 - 1
  -- active connections, when the request for a key returns: the key provider's module is what the
  -- request leaves, and the event is counted once in the total, once among the successes or
  -- the failures by the sign of the request's result, and no longer among the active connections; the switch and the maximum are as before.
  pub handle-Counted :
      (fuel : ℕ) (event : TcpConnectEvent) (k : TlsKeyInfo) (ctx : PerfMetrics F) (p : Provider)
      (w : W) (r : Provided W)
      → HasRoom sys fp ctx
      → ctx.system_metrics.active_connections + 1 < 2 ^ 32
      → key_provider_get_key os ssl fuel (some (tuple_of event)) (some k) p (after_2 sys fp w)
        ≡ some r
      → (after : PerfMetrics F) × (h : Handled W F) × (handle_tcp_event sys fp os ssl fuel event k
            (some ctx)
            p
            w
          ≡ some h)
        × (h.perf_ctx ≡ some after)
        × (h.provider ≡ r.provider)
        × Counted r.result ctx after
  unfolding handle_tcp_event conclude
  handle-Counted fuel event k ctx p w r room bound asked =
      let (c1, e1, s1, t1) = begin_room sys fp ctx os ssl event.timestamp w room in
      let (c2, e2, s2) = end_tracked sys fp c1 os ssl ctx.current_connections r.result r.world t1 in
      (
        end_connection sys fp (success_of sys fp r.result) c2,
        conclude sys fp os ssl (pos ctx.current_connections) (some c1) r,
        rw (handle_tcp_event, e1, asked, e1) refl,
        rw e2 refl,
        refl,
        ended-Counted ctx c1 c2 event.timestamp r.result room bound s1 s2,
      )

  begin_full :
      (ctx : PerfMetrics F) (id : ℕ) (w : W)
      → ctx.max_connections ≤ ctx.current_connections
      → begin_metrics sys fp os ssl (some ctx) id w ≡ (minus_one, some ctx, w)
  unfolding begin_metrics perf_metrics_connection_start connection_start_in
  begin_full ctx id w full =
      let no_slot : leb ctx.max_connections ctx.current_connections ≡ true = ground (arith, full) in
      elim (Bool-cases (is_zero ctx.monitoring_enabled)) [
        | inl e ↦ rw e refl
        | inr e ↦ rw (e, no_slot) refl
      ]

  -- Without a slot the key is asked for all the same, at once, and the metrics are left as they are.
  pub handle_full :
      (fuel : ℕ) (event : TcpConnectEvent) (k : TlsKeyInfo) (ctx : PerfMetrics F) (p : Provider)
      (w : W) (r : Provided W)
      → ctx.max_connections ≤ ctx.current_connections
      → key_provider_get_key os ssl fuel (some (tuple_of event)) (some k) p w ≡ some r
      → handle_tcp_event sys fp os ssl fuel event k (some ctx) p w
        ≡ some (record { perf_ctx = some ctx; provider = r.provider; world = r.world })
  unfolding handle_tcp_event conclude end_metrics
  handle_full fuel event k ctx p w r full asked =
      rw
        (
          handle_tcp_event,
          begin_full ctx event.timestamp w full,
          asked,
          begin_full ctx event.timestamp w full,
        )
        refl
