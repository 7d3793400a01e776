-- ===== src/MainLoop/Batch.antt =====
-- What the events of one poll change in the counts of the metrics.
use tlshub_ebpf.Base.{
  ℕ, suc, ◌+◌, ◌^◌, ◌≤◌, ◌<◌, ◌≡◌, refl, ◌∙◌, ◌⊎◌, inl, inr, ℤ, is_zero, is_negative, false, Option,
  none, some, Option-cases, List, [], ◌∷◌, length, arith, Bool-cases,
}
use tlshub_ebpf.Capture.{TlsKeyInfo}
use tlshub_ebpf.Tlshub.Netlink.{Netlink}
use tlshub_ebpf.KeyProvider.{Ssl, Provider, key_provider_get_key}
use tlshub_ebpf.Bpf.{TcpConnectEvent}
use tlshub_ebpf.Metrics.Types.{Doubles, Clock, PerfMetrics}
use tlshub_ebpf.Metrics.System.{ProcFiles}
use tlshub_ebpf.Handler.{Handled, tuple_of, handle_tcp_event}
use tlshub_ebpf.Handler.Steps.{HasRoom, after_2, begin_room}
use tlshub_ebpf.Handler.Accounts.{Counted, handle-Counted}
use tlshub_ebpf.MainLoop.{Events, handle_events}

-- The counts after `n` events, from those before.
pub record Tallied {F : Type 0} (n : ℕ) (ctx after : PerfMetrics F) : Type 0 where
  pub total : after.stats.total_connections ≡ ctx.stats.total_connections + n
  pub outcomes :
      after.stats.successful_connections + after.stats.failed_connections
      ≡ ctx.stats.successful_connections + ctx.stats.failed_connections + n
  pub active : after.system_metrics.active_connections ≡ ctx.system_metrics.active_connections
  pub current : after.current_connections ≡ ctx.current_connections + n

module _ {W F : Type 0} (sys : Clock W) (proc : ProcFiles W) (fp : Doubles F) (os : Netlink W)
    (ssl : Ssl W) (events : Events W) where
  -- The metrics are enabled, have `n` slots left, and no counter is within `n` of its limit.
  pub record HasRoomFor (n : ℕ) (ctx : PerfMetrics F) : Type 0 where
    pub enabled : is_zero ctx.monitoring_enabled ≡ false
    pub slots : ctx.current_connections + n ≤ ctx.max_connections
    pub small : ctx.max_connections < 2 ^ 31
    pub active : ctx.system_metrics.active_connections + 1 < 2 ^ 32
    pub total : ctx.stats.total_connections + n < 2 ^ 64
    pub outcomes : ctx.stats.successful_connections + ctx.stats.failed_connections + n < 2 ^ 64

  one-HasRoom : (n : ℕ) (ctx : PerfMetrics F) → HasRoomFor (n + 1) ctx → HasRoom sys fp ctx
  one-HasRoom n ctx r = record {
    enabled = r.enabled;
    room = omega (arith, r.slots);
    small = r.small;
  }

  one-Tallied :
      (n : ℕ) (ret : ℤ) (ctx c1 : PerfMetrics F)
      → HasRoomFor (n + 1) ctx
      → Counted ret ctx c1
      → Tallied 1 ctx c1 × HasRoomFor n c1
  one-Tallied n ret ctx c1 r c = elim (Bool-cases (is_negative ret)) [
    | inl e ↦ ground (arith)
    | inr e ↦ ground (arith)
  ]

  -- Where the request for the key still waits, so does the handler.
  handle_waits :
      (fuel : ℕ) (event : TcpConnectEvent) (k : TlsKeyInfo) (ctx : PerfMetrics F) (p : Provider)
      (w : W)
      → HasRoom sys fp ctx
      → key_provider_get_key os ssl fuel (some (tuple_of event)) (some k) p (after_2 sys fp w)
        ≡ none
      → handle_tcp_event sys fp os ssl fuel event k (some ctx) p w ≡ none
  unfolding handle_tcp_event
  handle_waits fuel event k ctx p w room waits =
      let (c1, e1, s1, t1) = begin_room sys fp ctx os ssl event.timestamp w room in
      rw (handle_tcp_event, e1, waits) refl

  -- The handler has counted `n` events, or a request for a key still waits.
  abbrev pub WaitsOr : ℕ → PerfMetrics F → Option (Handled W F) → Type 0
  WaitsOr n ctx o =
      (o ≡ none)
      ⊎ ((after : PerfMetrics F) × (h : Handled W F) × (o ≡ some h)
          × (h.perf_ctx ≡ some after)
          × Tallied n ctx after)

  Tallied-trans :
      (n : ℕ) (a b c : PerfMetrics F) → Tallied 1 a b → Tallied n b c → Tallied (suc n) a c
  Tallied-trans n a b c p q = record {
    total = omega (arith, p.total, q.total);
    outcomes = omega (arith, p.outcomes, q.outcomes);
    active = q.active ∙ p.active;
    current = omega (arith, p.current, q.current);
  }

  one_event :
      (fuel : ℕ) (event : TcpConnectEvent) (k : TlsKeyInfo) (n : ℕ) (ctx : PerfMetrics F)
      (p : Provider) (w : W)
      → HasRoomFor (n + 1) ctx
      → (handle_tcp_event sys fp os ssl fuel event k (some ctx) p w ≡ none)
        ⊎ ((c1 : PerfMetrics F) × (h : Handled W F) × (handle_tcp_event sys fp os ssl fuel event k
                (some ctx)
                p
                w
              ≡ some h)
            × (h.perf_ctx ≡ some c1)
            × Tallied 1 ctx c1
            × HasRoomFor n c1)
  one_event fuel event k n ctx p w r =
      let room = one-HasRoom n ctx r in
      elim (Option-cases
        (key_provider_get_key os ssl fuel (some (tuple_of event)) (some k) p (after_2 sys fp w))) [
          | inl waits ↦ inl (handle_waits fuel event k ctx p w room waits)
          | inr (got, asked) ↦
              let (c1, h, runs, kept, provider, counted) =
                handle-Counted sys fp os ssl fuel event k ctx p w got room r.active asked in
              let (tallied, more) = one-Tallied n got.result ctx c1 r counted in
              inr (c1, h, runs, kept, tallied, more)
        ]

  next_room : (n : ℕ) (ctx : PerfMetrics F) → HasRoomFor (suc n) ctx → HasRoomFor (n + 1) ctx
  next_room n ctx r = record {
    enabled = r.enabled;
    slots = omega (arith, r.slots);
    small = r.small;
    active = r.active;
    total = omega (arith, r.total);
    outcomes = omega (arith, r.outcomes);
  }

  -- When the metrics are enabled and have a slot for each event of a poll, and no counter comes near its limit,
  -- then after the events of a poll, unless a request for a key still waits: the total has grown by their
  -- number, the successes and the failures together by as much, and the number of slots in use too, and as many
  -- connections are active as before.
  pub handle_events-Tallied :
      (fuel : ℕ) (k : TlsKeyInfo) (es : List TcpConnectEvent) (ctx : PerfMetrics F) (p : Provider)
      (w : W)
      → HasRoomFor (length es) ctx
      → WaitsOr (length es) ctx (handle_events sys proc fp os ssl events fuel k es (some ctx) p w)
  unfolding handle_events
  handle_events-Tallied fuel k [] ctx p w r = inr (
    ctx,
    record { perf_ctx = some ctx; provider = p; world = w },
    refl,
    refl,
    record { total = omega arith; outcomes = omega arith; active = refl; current = omega arith },
  )
  handle_events-Tallied fuel k (e ∷ es) ctx p w r =
      elim (one_event fuel e k (length es) ctx p w (next_room (length es) ctx r)) [
        | inl waits ↦ inl (rw (handle_events, waits) refl)
        | inr (c1, h, runs, kept, tallied, more) ↦
            elim (handle_events-Tallied fuel k es c1 h.provider h.world more) [
              | inl waits ↦ inl (rw (handle_events, runs, kept) waits)
              | inr (after, h', runs', kept', rest) ↦ inr (
                after,
                h',
                rw (handle_events, runs, kept) runs',
                kept',
                Tallied-trans (length es) ctx c1 after tallied rest,
              )
            ]
      ]
