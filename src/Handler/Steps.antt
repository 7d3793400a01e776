-- ===== src/Handler/Steps.antt =====
-- The calls of the metrics before and after the request for a key, on a table with room.
use tlshub_ebpf.Base.{
  ℕ, ◌+◌, ◌%◌, ◌^◌, ◌<◌, ◌≡◌, refl, ◌∙◌, inl, inr, true, false, some, ltb, leb, if◌then◌else◌,
  get_or, set, ℤ, pos, negsuc, is_zero, is_negative, Bool-cases, arith,
}
use tlshub_ebpf.Tlshub.Netlink.{Netlink}
use tlshub_ebpf.KeyProvider.{Ssl}
use tlshub_ebpf.Metrics.Types.{Doubles, Clock, ConnectionMetrics, PerfMetrics}
use tlshub_ebpf.Metrics.Init.{zero_connection}
use tlshub_ebpf.Metrics.Record.{
  int_of, new_connection, connection_start_in, perf_metrics_connection_start, is_tracked,
  on_connection, perf_timepoint_start, perf_timepoint_end, start_latency, end_latency,
  start_negotiation, end_negotiation, perf_metrics_connection_latency_start,
  perf_metrics_connection_latency_end, perf_metrics_key_negotiation_start,
  perf_metrics_key_negotiation_end, end_connection, perf_metrics_connection_end,
}
use tlshub_ebpf.Handler.{begin_metrics, end_metrics}

-- All but the slots is the same in two contexts.
pub record Same {F : Type 0} (ctx ctx' : PerfMetrics F) : Type 0 where
  pub enabled : ctx'.monitoring_enabled ≡ ctx.monitoring_enabled
  pub current : ctx'.current_connections ≡ ctx.current_connections
  pub max : ctx'.max_connections ≡ ctx.max_connections
  pub stats : ctx'.stats ≡ ctx.stats
  pub system : ctx'.system_metrics ≡ ctx.system_metrics

pub Same-trans : {F : Type 0} {a b c : PerfMetrics F} → Same a b → Same b c → Same a c
Same-trans p q = record {
  enabled = q.enabled ∙ p.enabled;
  current = q.current ∙ p.current;
  max = q.max ∙ p.max;
  stats = q.stats ∙ p.stats;
  system = q.system ∙ p.system;
}

module _ {W F : Type 0} (sys : Clock W) (fp : Doubles F) where
  -- An operation on a tracked connection gives a context that differs in the slots only.
  abbrev pub Touched :
      (f : ConnectionMetrics F → W → ConnectionMetrics F × W) → PerfMetrics F → ℤ → W → Type 0
  Touched f ctx i w =
      (ctx' : PerfMetrics F) × (on_connection sys fp f (some ctx) i w
        ≡ (some ctx', (sys.gettime w).1))
      × Same ctx ctx'
      × (is_tracked sys fp ctx' i ≡ true)

  pub touch :
      (f : ConnectionMetrics F → W → ConnectionMetrics F × W)
      → ((cm : ConnectionMetrics F) (w : W) → (f cm w).1 ≡ (sys.gettime w).1)
      → (ctx : PerfMetrics F) (i : ℤ) (w : W) → is_tracked sys fp ctx i ≡ true
      → Touched f ctx i w
  unfolding on_connection is_tracked
  touch f time ctx (negsuc n) w e = cc
  touch f time ctx (pos i) w e =
      let cm = get_or ctx.conn_metrics i (zero_connection sys fp) in
      (
        record ctx { conn_metrics = set ctx.conn_metrics i ((f cm w).0) },
        rw (e, time cm w) refl,
        record { enabled = refl; current = refl; max = refl; stats = refl; system = refl },
        e,
      )

  abbrev pub after_1 : W → W
  after_1 w = (sys.gettime w).1

  -- The system after two readings of the clock, as they precede the request for a key.
  abbrev pub after_2 : W → W
  after_2 w = (sys.gettime ((sys.gettime w).1)).1

  -- Monitoring is enabled, a slot is left, and indices are positive numbers of type `int`.
  pub record HasRoom (ctx : PerfMetrics F) : Type 0 where
    pub enabled : is_zero ctx.monitoring_enabled ≡ false
    pub room : ctx.current_connections < ctx.max_connections
    pub small : ctx.max_connections < 2 ^ 31

  pub new-IsTracked :
      (ctx : PerfMetrics F) (id : ℕ)
      → HasRoom ctx
      → is_tracked sys fp (new_connection sys fp ctx id) (pos ctx.current_connections) ≡ true
  unfolding is_tracked new_connection
  new-IsTracked ctx id r =
      let next : (ctx.current_connections + 1) % 2 ^ 32 ≡ ctx.current_connections + 1 =
        omega (arith, r.room, r.small) in
      rw (r.enabled, next) (ground (arith, r.room, r.small))

  pub start_room :
      (ctx : PerfMetrics F) (id : ℕ)
      → HasRoom ctx
      → perf_metrics_connection_start sys fp (some ctx) id
        ≡ (pos ctx.current_connections, some (new_connection sys fp ctx id))
  unfolding perf_metrics_connection_start connection_start_in int_of
  start_room ctx id r =
      let free : leb ctx.max_connections ctx.current_connections ≡ false = ground (arith, r.room) in
      let index : ltb ctx.current_connections (2 ^ 31) ≡ true = ground (arith, r.room, r.small) in
      rw (r.enabled, free, index) refl

  pub begin_room :
      (ctx : PerfMetrics F) (os : Netlink W) (ssl : Ssl W) (id : ℕ) (w : W)
      → HasRoom ctx
      → (ctx' : PerfMetrics F) × (begin_metrics sys fp os ssl (some ctx) id w
          ≡ (pos ctx.current_connections, some ctx', after_2 w))
        × Same (new_connection sys fp ctx id) ctx'
        × (is_tracked sys fp ctx' (pos ctx.current_connections) ≡ true)
  unfolding begin_metrics perf_metrics_connection_latency_start perf_metrics_key_negotiation_start
      start_latency start_negotiation perf_timepoint_start
  begin_room ctx os ssl id w r =
      let i = pos ctx.current_connections in
      let (c1, e1, s1, t1) =
        touch (start_latency sys fp) (λ cm w. refl) (new_connection sys fp ctx id) i w
          (new-IsTracked ctx id r) in
      let (c2, e2, s2, t2) =
        touch (start_negotiation sys fp) (λ cm w. refl) c1 i ((sys.gettime w).1) t1 in
      (c2, rw (start_room ctx id r, e1, e2) refl, Same-trans s1 s2, t2)

  -- What the handler passes to `perf_metrics_connection_end`.
  unfoldable pub success_of : ℤ → ℤ
  success_of ret = if is_negative ret then pos 0 else pos 1

  -- The system after the readings of the clock that follow the request.
  unfoldable pub after_key : ℤ → W → W
  after_key ret w = if is_negative ret then after_1 w else after_2 w

  pub end_tracked :
      (ctx : PerfMetrics F) (os : Netlink W) (ssl : Ssl W) (n : ℕ) (ret : ℤ) (w : W)
      → is_tracked sys fp ctx (pos n) ≡ true
      → (ctx' : PerfMetrics F) × (end_metrics sys fp os ssl (pos n) ret (some ctx) w
          ≡ (some (end_connection sys fp (success_of ret) ctx'), after_key ret w))
        × Same ctx ctx'
  unfolding end_metrics perf_metrics_connection_latency_end perf_metrics_key_negotiation_end
      end_latency end_negotiation perf_timepoint_end after_key success_of
      perf_metrics_connection_end
  end_tracked ctx os ssl n ret w t =
      let (c1, e1, s1, t1) = touch (end_negotiation sys fp) (λ cm w. refl) ctx (pos n) w t in
      let (c2, e2, s2, t2) =
        touch (end_latency sys fp) (λ cm w. refl) c1 (pos n) ((sys.gettime w).1) t1 in
      elim (Bool-cases (is_negative ret)) [
        | inl e ↦ (c1, rw (e1, e2, e, t1) refl, s1)
        | inr e ↦ (c2, rw (e1, e2, e, t2) refl, Same-trans s1 s2)
      ]
