-- ===== src/Bench/Ledger/Total.antt =====
-- `main` of bench/src/main.c gives back what it took, and ends unless it serves.
use tlshub_ebpf.Base.{
  ℕ, ◌+◌, ◌≤◌, ◌<◌, ◌≡◌, refl, sym, subst, ◌⊎◌, inl, inr, none, some, List, Bytes, Bool-cases,
  arith,
}
use tlshub_ebpf.Base.Holdings.{Holdings}
use tlshub_ebpf.Metrics.Types.{Doubles, Clock}
use tlshub_ebpf.Bench.Types.{BenchMode, client, server, BenchConfig}
use tlshub_ebpf.Bench.Metrics.{Resources}
use tlshub_ebpf.Bench.Sockets.{TcpSockets}
use tlshub_ebpf.Bench.Finite.{IsFinite}
use tlshub_ebpf.Bench.Options.{Parsed, configured, exits, exit_failure, init_config, parse_options}
use tlshub_ebpf.Bench.Ranges.{InRange, OfParsed, parse_options-InRange, init_config-InRange}
use tlshub_ebpf.Bench.Report.{run_client-IsComplete}
use tlshub_ebpf.Bench.Main.{Host, Ending, Bounds, run_mode, main}
use tlshub_ebpf.Bench.Ledger.{IsLedger, Leaves}
use tlshub_ebpf.Bench.Ledger.Program.{IsHostLedger, main-Leaves}

-- The options start the server.
abbrev pub Serves : Parsed → Type 0
Serves p = (config : BenchConfig) × (p ≡ configured config) × (config.mode ≡ server)

BenchMode-cases : (m : BenchMode) → (m ≡ client) ⊎ (m ≡ server)
BenchMode-cases client = inl refl
BenchMode-cases server = inr refl

module _ {F : Type 0} (fp : Doubles F) {W : Type 0} (sys : Clock W) (net : TcpSockets W)
    (res : Resources W) (host : Host W) (budget : W → ℕ) (finite : IsFinite sys net budget)
    (calloc_le : (n : ℕ) (w : W) → budget (host.calloc n w).1 ≤ budget w) where
  run_mode_ends :
      (bounds : Bounds) (config : BenchConfig) (w : W)
      → InRange config
      → 10485760 + budget w < bounds.fuel
      → (e : Ending F W) × (run_mode fp sys net res host bounds client config w ≡ some e)
  unfolding run_mode
  run_mode_ends bounds config w (target, listen, size, concurrency, total) enough =
      let (granted, w1) = host.calloc config.total_connections w in
      let le = calloc_le config.total_connections w in
      let (least, most) = size in
      let (e, run, status, reports) =
        run_client-IsComplete fp sys net res host budget finite bounds.fuel config w1
          (omega arith) in
      elim (Bool-cases granted) [
        | inl g ↦ (e, rw (run_mode, g) run)
        | inr g ↦ (
          record { status = exit_failure; json = none; csv = none; world = w1 },
          rw (run_mode, g) refl,
        )
      ]

  -- The program ends, unless it serves.
  parsed_ends :
      (bounds : Bounds) (p : Parsed) (w : W)
      → OfParsed InRange p
      → 10485760 + budget w < bounds.fuel
      → Serves p
        ⊎ ((e : Ending F W) × ((elim p [
          | exits status ↦ some (record { status = status; json = none; csv = none; world = w })
          | configured config ↦ run_mode fp sys net res host bounds config.mode config w
        ])
              ≡ some e))
  parsed_ends bounds (exits status) w ranges enough =
      inr (record { status = status; json = none; csv = none; world = w }, refl)
  parsed_ends bounds (configured config) w ranges enough = elim (BenchMode-cases config.mode) [
    | inr serves ↦ inl (config, refl, serves)
    | inl asks ↦ inr (
        subst (λ m. (e : Ending F W) × (run_mode fp sys net res host bounds m config w ≡ some e))
          (sym asks) (run_mode_ends bounds config w ranges enough))
  ]

  main_ends :
      (bounds : Bounds) (json csv : Bytes) (options : List (ℕ × Bytes)) (w : W)
      → 10485760 + budget w < bounds.fuel
      → Serves (parse_options (init_config json csv) options)
        ⊎ ((e : Ending F W) × (main fp sys net res host bounds json csv options w ≡ some e))
  unfolding main
  main_ends bounds json csv options w enough =
      parsed_ends bounds (parse_options (init_config json csv) options) w
        (parse_options-InRange (init_config json csv) options (init_config-InRange json csv)) enough

  module _ (view : W → Holdings) (ledger : IsLedger sys net view)
      (rest : IsHostLedger res host view) where
    -- Whatever the options: however `main` ends, the sockets that are open and the blocks that are allocated are
    -- those from before. Unless the options start the server, it does end, with fuel for the largest data size
    -- and for the budget of bytes to come and of signals.
    pub main-released :
        (bounds : Bounds) (json csv : Bytes) (options : List (ℕ × Bytes)) (w : W)
        → 10485760 + budget w < bounds.fuel
        → Leaves
            (λ (o : Ending F W). o.world)
            view
            (view w)
            (main fp sys net res host bounds json csv options w)
          × (Serves (parse_options (init_config json csv) options)
              ⊎ ((e : Ending F W) × (main fp sys net res host bounds json csv options w ≡ some e)))
    main-released bounds json csv options w enough = (
      main-Leaves fp sys net res host view ledger rest bounds json csv options w,
      main_ends bounds json csv options w enough,
    )
