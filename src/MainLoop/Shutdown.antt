-- ===== src/MainLoop/Shutdown.antt =====
-- What the key provider holds while `main` of capture/src/main.c runs, and when it ends.
use tlshub_ebpf.Base.{
  ap, ◌∙◌, if◌then◌else◌, ℕ, ℤ, minus_one, is_negative, is_zero, ◌≡◌, refl, sym, subst, ◌⊎◌, inl,
  inr, true, false, Option, none, some, Bytes, Bool-cases, Option-cases,
}
use tlshub_ebpf.Capture.{Mode, TlsKeyInfo}
use tlshub_ebpf.Tlshub.Netlink.{Netlink}
use tlshub_ebpf.KeyProvider.{Ssl, Provider, key_provider_init}
use tlshub_ebpf.KeyProvider.Resources.{IsReleased, IsHeld, init-InitEnds, cleanup-IsReleased}
use tlshub_ebpf.Config.{CaptureConfig, Loaded, configured, load_config}
use tlshub_ebpf.PodMapping.{Load, null, loaded, overrun, init_pod_node_mapping}
use tlshub_ebpf.Metrics.Types.{Doubles, Clock}
use tlshub_ebpf.Metrics.Init.{perf_metrics_init}
use tlshub_ebpf.Stdio.{c_string}
use tlshub_ebpf.Metrics.System.{ProcFiles}
use tlshub_ebpf.MainLoop.{Events, Running, main_loop}
use tlshub_ebpf.MainLoop.Start.{
  destroy_links, export_metrics, Libbpf, Surroundings, Parts, Exit, undefined, ended,
  attached_count, bpf_paths, open_first, cleanup, run, start_buffer, start_programs, start_capture,
  start_provider, main,
}
use tlshub_ebpf.KeyProvider.Ledger.{Held, holding, IsLedger, cleanup-freed}
use tlshub_ebpf.KeyProvider.Ledger.Init.{init_holds}
use tlshub_ebpf.MainLoop.Ledger.{IsQuiet}
use tlshub_ebpf.MainLoop.Ledger.Start.{
  IsBpfQuiet, if_keeps, destroy_links_keep, export_keeps, open_first_keeps, init_keeps,
}
use tlshub_ebpf.MainLoop.Owned.{Owns, Owned, main_loop-OwnsRunning}

-- The program still waits, is undefined, or has ended with nothing held and with `base` in the system.
abbrev pub IsClean : {W F : Type 0} → (W → Held) → Held → Option (Exit W F) → Type 0
IsClean view base none = Unit {0}
IsClean view base (some undefined) = Unit {0}
IsClean view base (some (ended e)) = IsReleased e.provider × (view e.world ≡ base)

module _ {W F : Type 0} (sys : Clock W) (proc : ProcFiles W) (fp : Doubles F) (os : Netlink W)
    (ssl : Ssl W) (events : Events W) (bpf : Libbpf W) (host : Surroundings W) (view : W → Held)
    (ledger : IsLedger os ssl view) (quiet : IsQuiet sys proc events view)
    (still : IsBpfQuiet bpf view) (base : Held) where
  moved : (p : Provider) (w w' : W) → view w' ≡ view w → Owned view base p w → Owned view base p w'
  moved p w w' e (owns, has) = (owns, e ∙ has)

  cleanup-IsClean :
      (p : Parts W F)
      → Owned view base p.provider p.world
      → IsClean view base (some (cleanup sys proc fp os ssl events bpf host p))
  unfolding cleanup
  cleanup-IsClean p (owns, has) =
      let (json, csv, w1) = export_metrics sys proc fp os ssl events bpf host p.perf_ctx p.world in
      let w2 = if p.buffer then bpf.perf_buffer_free w1 else w1 in
      let w3 = destroy_links sys proc fp os ssl events bpf host p.link_count w2 in
      let w4 = if p.object then bpf.object_close w3 else w3 in
      let e =
        if_keeps sys proc fp os ssl events bpf host view quiet still bpf.object_close p.object w3
          still.object_close_keeps
        ∙ destroy_links_keep sys proc fp os ssl events bpf host view quiet still p.link_count w2
        ∙ if_keeps sys proc fp os ssl events bpf host view quiet still bpf.perf_buffer_free p.buffer
            w1 still.perf_buffer_free_keeps
        ∙ export_keeps sys proc fp os ssl events bpf host view quiet still p.perf_ctx p.world
        ∙ has in
      (
        cleanup-IsReleased os ssl p.provider w4 owns,
        cleanup-freed os ssl view ledger p.provider base w4 owns e,
      )

  run-IsClean :
      (turns fuel : ℕ) (k : TlsKeyInfo) (p : Parts W F)
      → Owned view base p.provider p.world
      → IsClean view base (run sys proc fp os ssl events bpf host turns fuel k p)
  unfolding run
  run-IsClean turns fuel k p owns =
      let (now, w1) = events.time p.world in
      let start : Running W F = record {
        perf_ctx = p.perf_ctx;
        provider = p.provider;
        last_perf_update = now;
        err = p.err;
        world = w1;
      } in
      let after =
        main_loop-OwnsRunning sys proc fp os ssl events view ledger quiet base turns fuel k start
          (moved p.provider p.world w1 (quiet.time_keeps p.world) owns) in
      elim (Option-cases (main_loop sys proc fp os ssl events turns fuel k start)) [
        | inl e ↦ rw (run, e) tt
        | inr (s, e) ↦
            let owns' = rw e at after in
            let last : Parts W F = record p {
              err = s.err;
              perf_ctx = s.perf_ctx;
              provider = s.provider;
              world = s.world;
            } in
            rw (run, e) (cleanup-IsClean last owns')
      ]

  start_buffer-IsClean :
      (turns fuel : ℕ) (k : TlsKeyInfo) (p : Parts W F)
      → Owned view base p.provider p.world
      → IsClean view base (start_buffer sys proc fp os ssl events bpf host turns fuel k p)
  unfolding start_buffer
  start_buffer-IsClean turns fuel k p owns =
      let (fd, w1) = bpf.find_events p.world in
      let (made, w2) = bpf.perf_buffer_new fd w1 in
      let owns1 = moved p.provider p.world w1 (still.find_events_keeps p.world) owns in
      let owns2 = moved p.provider w1 w2 (still.perf_buffer_new_keeps fd w1) owns1 in
      elim (Bool-cases (is_negative fd)) [
        | inl e ↦
            rw (start_buffer, e) (cleanup-IsClean (record p { err = minus_one; world = w1 }) owns1)
        | inr e ↦ elim (Bool-cases made) [
          | inl b ↦
              rw (start_buffer, e, b)
                (run-IsClean turns fuel k (record p { buffer = true; world = w2 }) owns2)
          | inr b ↦
              rw (start_buffer, e, b)
                (cleanup-IsClean (record p { err = minus_one; world = w2 }) owns2)
        ]
      ]

  start_programs-IsClean :
      (turns fuel : ℕ) (k : TlsKeyInfo) (p : Parts W F)
      → Owned view base p.provider p.world
      → IsClean view base (start_programs sys proc fp os ssl events bpf host turns fuel k p)
  unfolding start_programs
  start_programs-IsClean turns fuel k p owns =
      let (err, w1) = bpf.load p.world in
      let (attached, w2) = bpf.attach w1 in
      let owns1 = moved p.provider p.world w1 (still.load_keeps p.world) owns in
      let owns2 = moved p.provider w1 w2 (still.attach_keeps w1) owns1 in
      elim (Bool-cases (is_zero err)) [
        | inl e ↦
            rw (start_programs, e)
              (start_buffer-IsClean turns fuel k
                (record p { err = err; link_count = attached_count attached; world = w2 }) owns2)
        | inr e ↦
            rw (start_programs, e) (cleanup-IsClean (record p { err = err; world = w1 }) owns1)
      ]

  start_capture-IsClean :
      (turns fuel : ℕ) (k : TlsKeyInfo) (err : ℤ) (provider : Provider) (w : W)
      → Owned view base provider w
      → IsClean view base
          (start_capture sys proc fp os ssl events bpf host turns fuel k (err, provider, w))
  unfolding start_capture
  start_capture-IsClean turns fuel k err provider w owns =
      let (perf, w1) =
        perf_metrics_init sys fp (host.context_granted w) (host.slots_granted w) 1000 w in
      let (opened, w2) = open_first sys proc fp os ssl events bpf host bpf_paths w1 in
      let opens =
        open_first_keeps sys proc fp os ssl events bpf host view quiet still bpf_paths w1
        ∙ init_keeps sys proc fp os ssl events bpf host view quiet still (host.context_granted w)
            (host.slots_granted w) 1000 w in
      let owns2 = moved provider w w2 opens owns in
      let p : Parts W F = record {
        err = err;
        perf_ctx = none;
        provider = provider;
        object = false;
        link_count = 0;
        buffer = false;
        world = w;
      } in
      elim (Bool-cases (is_negative err)) [
        | inl e ↦ rw (start_capture, e) (cleanup-IsClean p owns)
        | inr e ↦ elim (Bool-cases opened) [
          | inl b ↦
              rw (start_capture, e, b)
                (start_programs-IsClean turns fuel k
                  (record p { perf_ctx = perf; object = true; world = w2 }) owns2)
          | inr b ↦
              rw (start_capture, e, b)
                (cleanup-IsClean (record p { err = minus_one; perf_ctx = perf; world = w2 }) owns2)
        ]
      ]

  init-Owns :
      (fuel : ℕ) (m : Mode) (p : Provider) (w : W) (o : ℤ × Provider × W)
      → IsReleased p
      → key_provider_init os ssl fuel m p w ≡ some o
      → Owns o.1
  init-Owns fuel m p w o rel e =
      let (mode, ends) = init-InitEnds os ssl fuel m p w o rel e in
      elim ends [
        | inl (z, held) ↦ inl (subst (λ n. IsHeld n o.1) (sym mode) held)
        | inr (z, free) ↦ inr free
      ]

  provided-IsClean :
      (turns fuel : ℕ) (k : TlsKeyInfo) (m : Mode) (provider : Provider) (w : W)
      → IsReleased provider
      → view w ≡ base
      → IsClean view base (elim (key_provider_init os ssl fuel m provider w) [
        | none ↦ none
        | some o ↦ start_capture sys proc fp os ssl events bpf host turns fuel k o
      ])
  provided-IsClean turns fuel k m provider w rel has =
      elim (Option-cases (key_provider_init os ssl fuel m provider w)) [
        | inl e ↦ rw e tt
        | inr (o, e) ↦ rw e (
            start_capture-IsClean turns fuel k o.0 o.1 o.2 (
              init-Owns fuel m provider w o rel e,
              init_holds os ssl view ledger fuel m provider w o rel e ∙ ap (holding o.1) has,
            ))
      ]

  start_provider-IsClean :
      (turns fuel : ℕ) (k : TlsKeyInfo) (config : CaptureConfig) (provider : Provider) (w : W)
      (table : Load)
      → IsReleased provider
      → view w ≡ base
      → IsClean view base
          (start_provider sys proc fp os ssl events bpf host turns fuel k config provider w table)
  unfolding start_provider
  start_provider-IsClean turns fuel k config provider w null rel has =
      provided-IsClean turns fuel k config.mode provider w rel has
  start_provider-IsClean turns fuel k config provider w (loaded t) rel has =
      provided-IsClean turns fuel k config.mode provider w rel has
  start_provider-IsClean turns fuel k config provider w overrun rel has = tt

  Loaded-cases : (l : Loaded) → ((c : CaptureConfig) × (l ≡ configured c)) ⊎ (l ≡ Loaded.overrun)
  Loaded-cases (configured c) = inl (c, refl)
  Loaded-cases Loaded.overrun = inr refl

  -- Whatever the files, the kernel module, the TLS library, libbpf and the events do: when `main` is started
  -- with nothing held and ends by its return, be it after a failed step or after the loop, it holds nothing, and
  -- the sockets that are open in the system and the contexts of the TLS library are those from the start.
  -- Otherwise it still waits for the kernel module, or a file overran a buffer.
  pub main-IsClean :
      (turns fuel : ℕ) (k : TlsKeyInfo) (stack : CaptureConfig) (name : Bytes) (provider : Provider)
      (w : W)
      → IsReleased provider
      → view w ≡ base
      → IsClean view base
          (main sys proc fp os ssl events bpf host turns fuel k stack name provider w)
  unfolding main
  main-IsClean turns fuel k stack name provider w rel has =
      elim (Loaded-cases (load_config (host.text name w) stack)) [
        | inr e ↦ rw (main, e) tt
        | inl (config, e) ↦
            rw (main, e)
              (start_provider-IsClean turns fuel k config provider w
                (init_pod_node_mapping (host.table_granted w)
                  (host.text (c_string config.pod_node_config_path) w))
                rel has)
      ]
