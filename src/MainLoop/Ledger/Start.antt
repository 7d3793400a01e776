-- ===== src/MainLoop/Ledger/Start.antt =====
-- What the start and the shutdown of capture/src/main.c call of libbpf and of the files opens no socket and makes
-- no context.
use tlshub_ebpf.Base.{
  zero, suc, List, [], ◌∷◌, ◌∙◌, Bool, if◌then◌else◌, ℕ, ℤ, ◌≡◌, refl, inl, inr, true, false,
  Option, none, some, Bytes, Bool-cases,
}
use tlshub_ebpf.Tlshub.Netlink.{Netlink}
use tlshub_ebpf.KeyProvider.{Ssl}
use tlshub_ebpf.Metrics.Types.{Doubles, Clock, PerfMetrics}
use tlshub_ebpf.Metrics.Init.{perf_metrics_init}
use tlshub_ebpf.Metrics.System.{ProcFiles}
use tlshub_ebpf.MainLoop.{Events}
use tlshub_ebpf.MainLoop.Start.{destroy_links, export_metrics, Libbpf, Surroundings, open_first}
use tlshub_ebpf.KeyProvider.Ledger.{Held}
use tlshub_ebpf.MainLoop.Ledger.{IsQuiet}

-- The calls of libbpf open no socket and make no context.
pub record IsBpfQuiet {W : Type 0} (bpf : Libbpf W) (view : W → Held) : Type 0 where
  pub open_file_keeps : (path : Bytes) (w : W) → view (bpf.open_file path w).1 ≡ view w
  pub load_keeps : (w : W) → view (bpf.load w).1 ≡ view w
  pub attach_keeps : (w : W) → view (bpf.attach w).1 ≡ view w
  pub find_events_keeps : (w : W) → view (bpf.find_events w).1 ≡ view w
  pub perf_buffer_new_keeps : (fd : ℤ) (w : W) → view (bpf.perf_buffer_new fd w).1 ≡ view w
  pub perf_buffer_free_keeps : (w : W) → view (bpf.perf_buffer_free w) ≡ view w
  pub link_destroy_keeps : (w : W) → view (bpf.link_destroy w) ≡ view w
  pub object_close_keeps : (w : W) → view (bpf.object_close w) ≡ view w

module _ {W F : Type 0} (sys : Clock W) (proc : ProcFiles W) (fp : Doubles F) (os : Netlink W)
    (ssl : Ssl W) (events : Events W) (bpf : Libbpf W) (host : Surroundings W) (view : W → Held)
    (quiet : IsQuiet sys proc events view) (still : IsBpfQuiet bpf view) where
  pub if_keeps :
      (f : W → W) (b : Bool) (w : W)
      → ((v : W) → view (f v) ≡ view v)
      → view (if b then f w else w) ≡ view w
  if_keeps f true w keeps = keeps w
  if_keeps f false w keeps = refl

  pub destroy_links_keep :
      (n : ℕ) (w : W) → view (destroy_links sys proc fp os ssl events bpf host n w) ≡ view w
  unfolding destroy_links
  destroy_links_keep zero w = refl
  destroy_links_keep (suc n) w =
      destroy_links_keep n (bpf.link_destroy w) ∙ still.link_destroy_keeps w

  pub export_keeps :
      (c : Option (PerfMetrics F)) (w : W)
      → view (export_metrics sys proc fp os ssl events bpf host c w).2 ≡ view w
  unfolding export_metrics
  export_keeps none w = refl
  export_keeps (some ctx) w = quiet.time_keeps w

  pub open_first_keeps :
      (paths : List Bytes) (w : W)
      → view (open_first sys proc fp os ssl events bpf host paths w).1 ≡ view w
  unfolding open_first
  open_first_keeps [] w = refl
  open_first_keeps (path ∷ paths) w =
      let (opened, w1) = bpf.open_file path w in
      let e1 = still.open_file_keeps path w in
      elim (Bool-cases opened) [
        | inl o ↦ rw (open_first, o) e1
        | inr o ↦ rw (open_first, o) (open_first_keeps paths w1 ∙ e1)
      ]

  pub init_keeps :
      (context slots : Bool) (max : ℕ) (w : W)
      → view (perf_metrics_init sys fp context slots max w).1 ≡ view w
  unfolding perf_metrics_init
  init_keeps false slots max w = refl
  init_keeps true false max w = refl
  init_keeps true true max w = quiet.gettime_keeps w
