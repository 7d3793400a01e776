-- ===== src/MainLoop/Owned.antt =====
-- What the key provider holds in the loop of `main` of capture/src/main.c, over any events, and that the system
-- has it open.
use tlshub_ebpf.Base.{
  ℕ, zero, suc, ◌-◌, leb, ℤ, ◌≡◌, refl, sym, subst, ap, ◌∙◌, is_negative, ◌⊎◌, inl, inr, Option,
  none, some, List, [], ◌∷◌, Bool-cases, Option-cases,
}
use tlshub_ebpf.Capture.{Mode, tlshub, openssl, boringssl, unknown, TlsKeyInfo}
use tlshub_ebpf.Tlshub.Netlink.{Netlink}
use tlshub_ebpf.KeyProvider.{Ssl, Provider, key_provider_get_key}
use tlshub_ebpf.KeyProvider.Held.{SameHeld, get_key-KeepsHeld}
use tlshub_ebpf.KeyProvider.Ledger.{Held, with_socket, with_context, socket_of, holding, IsLedger}
use tlshub_ebpf.KeyProvider.Ledger.Requests.{get_key-KeepsView}
use tlshub_ebpf.MainLoop.Ledger.{IsQuiet, begin_keeps, conclude_keeps, periodic-view}
use tlshub_ebpf.KeyProvider.Resources.{IsReleased, IsHeld}
use tlshub_ebpf.Bpf.{TcpConnectEvent}
use tlshub_ebpf.Metrics.Types.{Doubles, Clock, PerfMetrics}
use tlshub_ebpf.Metrics.System.{ProcFiles}
use tlshub_ebpf.Handler.{Handled, tuple_of, begin_metrics, conclude, handle_tcp_event}
use tlshub_ebpf.MainLoop.{
  keep_running, Events, perf_update_interval_sec, stops, Running, handle_events, periodic, leave,
  main_loop,
}

-- The resource of the mode is held and no other, or nothing is.
abbrev pub Owns : Provider → Type 0
Owns p = IsHeld p.current_mode p ⊎ IsReleased p

IsHeld-later : (m : Mode) (p p' : Provider) → SameHeld p p' → IsHeld m p → IsHeld m p'
IsHeld-later tlshub p p' (e, c, s) (h, h') = (rw s h, rw c h')
IsHeld-later openssl p p' (e, c, s) (h, h') = (rw s h, rw c h')
IsHeld-later boringssl p p' (e, c, s) (h, h') = (rw s h, rw c h')
IsHeld-later (unknown n) p p' same h = h

Owns-later : (p p' : Provider) → SameHeld p p' → Owns p → Owns p'
Owns-later p p' (e, c, s) (inl h) =
    inl (subst (λ m. IsHeld m p') (sym e) (IsHeld-later p.current_mode p p' (e, c, s) h))
Owns-later p p' (e, c, s) (inr h) =
    inr (record { no_context = rw c (h.no_context); no_socket = rw s (h.no_socket) })

-- The module owns what it should, and the system has that over `h`.
abbrev pub Owned : {W : Type 0} → (W → Held) → Held → Provider → W → Type 0
Owned view h p w = Owns p × (view w ≡ holding p h)

holding-same : (p p' : Provider) (h : Held) → SameHeld p p' → holding p' h ≡ holding p h
holding-same p p' h (e, c, s) =
    ap (λ b. with_context b (socket_of p'.client h)) c
    ∙ ap (λ fd. with_context p.ssl_ctx (with_socket (is_negative fd) fd h)) s

Owned-later :
    {W : Type 0} (view : W → Held) (h : Held) (p p' : Provider) (w w' : W)
    → SameHeld p p'
    → view w' ≡ view w
    → Owned view h p w
    → Owned view h p' w'
Owned-later view h p p' w w' same e (owns, has) =
    (Owns-later p p' same owns, e ∙ has ∙ sym (holding-same p p' h same))

-- A handler still waits, or what it leaves is owned.
abbrev OwnsAfter : {W F : Type 0} → (W → Held) → Held → Option (Handled W F) → Type 0
OwnsAfter view base none = Unit {0}
OwnsAfter view base (some h) = Owned view base h.provider h.world

abbrev pub OwnsRunning : {W F : Type 0} → (W → Held) → Held → Option (Running W F) → Type 0
OwnsRunning view base none = Unit {0}
OwnsRunning view base (some s) = Owned view base s.provider s.world

same_provider : (p p' : Provider) → p' ≡ p → SameHeld p p'
same_provider p p' e =
    (ap (λ x. x.current_mode) e, ap (λ x. x.ssl_ctx) e, ap (λ x. x.client.netlink_sock) e)

module _ {W F : Type 0} (sys : Clock W) (proc : ProcFiles W) (fp : Doubles F) (os : Netlink W)
    (ssl : Ssl W) (events : Events W) where
  pub periodic_keeps :
      (last : ℕ) (err : ℤ) (h : Handled W F)
      → (periodic sys proc fp os ssl events last err h).provider ≡ h.provider
  unfolding periodic
  periodic_keeps last err h = elim (Option-cases h.perf_ctx) [
    | inl e ↦ rw (periodic, e) refl
    | inr (ctx, e) ↦
        elim (Bool-cases (leb perf_update_interval_sec ((events.time h.world).0 - last))) [
          | inl b ↦ rw (periodic, e, b) refl
          | inr b ↦ rw (periodic, e, b) refl
        ]
  ]

module _ {W F : Type 0} (sys : Clock W) (proc : ProcFiles W) (fp : Doubles F) (os : Netlink W)
    (ssl : Ssl W) (events : Events W) (view : W → Held) (ledger : IsLedger os ssl view)
    (quiet : IsQuiet sys proc events view) (base : Held) where
  handle-OwnsAfter :
      (fuel : ℕ) (event : TcpConnectEvent) (k : TlsKeyInfo) (c : Option (PerfMetrics F))
      (p : Provider) (w : W)
      → Owned view base p w
      → OwnsAfter view base (handle_tcp_event sys fp os ssl fuel event k c p w)
  unfolding handle_tcp_event conclude
  handle-OwnsAfter fuel event k c p w owns =
      let begun = begin_metrics sys fp os ssl c event.timestamp w in
      let keeps = get_key-KeepsHeld os ssl fuel (tuple_of event) k p begun.2 in
      let same_view = get_key-KeepsView os ssl view ledger fuel (tuple_of event) k p begun.2 in
      let e1 = begin_keeps sys proc fp os ssl events view quiet c event.timestamp w in
      elim (Option-cases
        (key_provider_get_key os ssl fuel (some (tuple_of event)) (some k) p begun.2)) [
          | inl e ↦ rw (handle_tcp_event, e) tt
          | inr (r, e) ↦
              let same = rw e at keeps in
              let e2 = rw e at same_view in
              let e3 = conclude_keeps sys proc fp os ssl events view quiet begun.0 begun.1 r in
              rw (handle_tcp_event, e)
                (Owned-later view base p r.provider w
                  (conclude sys fp os ssl begun.0 begun.1 r).world same (e3 ∙ e2 ∙ e1) owns)
        ]

  handle_events-OwnsAfter :
      (fuel : ℕ) (k : TlsKeyInfo) (es : List TcpConnectEvent) (c : Option (PerfMetrics F))
      (p : Provider) (w : W)
      → Owned view base p w
      → OwnsAfter view base (handle_events sys proc fp os ssl events fuel k es c p w)
  unfolding handle_events
  handle_events-OwnsAfter fuel k [] c p w owns = owns
  handle_events-OwnsAfter fuel k (x ∷ xs) c p w owns =
      let after = handle-OwnsAfter fuel x k c p w owns in
      elim (Option-cases (handle_tcp_event sys fp os ssl fuel x k c p w)) [
        | inl e ↦ rw (handle_events, e) tt
        | inr (h, e) ↦
            let owns' = rw e at after in
            rw (handle_events, e)
              (handle_events-OwnsAfter fuel k xs h.perf_ctx h.provider h.world owns')
      ]

  pub main_loop-OwnsRunning :
      (turns fuel : ℕ) (k : TlsKeyInfo) (s : Running W F)
      → Owned view base s.provider s.world
      → OwnsRunning view base (main_loop sys proc fp os ssl events turns fuel k s)
  unfolding main_loop leave
  main_loop-OwnsRunning zero fuel k s owns = owns
  main_loop-OwnsRunning (suc turns) fuel k s owns =
      let (err, es, w1) = events.poll s.world in
      let polled : Owned view base s.provider w1 = (owns.0, quiet.poll_keeps s.world ∙ owns.1) in
      let after = handle_events-OwnsAfter fuel k es s.perf_ctx s.provider w1 polled in
      elim (Bool-cases (keep_running events s.world)) [
        | inr e ↦ rw (main_loop, e) owns
        | inl e ↦
            elim (Option-cases
              (handle_events sys proc fp os ssl events fuel k es s.perf_ctx s.provider w1)) [
                | inl n ↦ rw (main_loop, e, n) tt
                | inr (h, n) ↦
                    let owns' = rw n at after in
                    elim (Bool-cases (stops err)) [
                      | inl b ↦ rw (main_loop, e, n, b) owns'
                      | inr b ↦
                          let next = periodic sys proc fp os ssl events s.last_perf_update err h in
                          rw (main_loop, e, n, b)
                            (main_loop-OwnsRunning turns fuel k next (
                              Owned-later view base h.provider next.provider h.world next.world
                                (same_provider h.provider next.provider (
                                  periodic_keeps sys proc fp os ssl events s.last_perf_update err
                                    h))
                                (periodic-view sys proc fp os ssl events view quiet
                                  s.last_perf_update err h)
                                owns'))
                    ]
              ]
      ]
