-- ===== src/Bench/Ledger/Program.antt =====
-- What `main` of bench/src/main.c leaves open and allocated, in either mode.
use tlshub_ebpf.Base.{
  ℕ, ℤ, ◌≡◌, refl, ◌∙◌, inl, inr, true, Option, none, some, List, Bytes, Bool-cases,
}
use tlshub_ebpf.Base.Holdings.{Holdings, allocated}
use tlshub_ebpf.Stdio.{c_string}
use tlshub_ebpf.Metrics.Types.{Doubles, Clock}
use tlshub_ebpf.Bench.Types.{BenchMode, client, server, BenchConfig, ConnStats, GlobalMetrics}
use tlshub_ebpf.Bench.Metrics.{Resources, init_metrics, finalize_metrics}
use tlshub_ebpf.Bench.Sockets.{TcpSockets}
use tlshub_ebpf.Bench.Client.{run_tcp_client}
use tlshub_ebpf.Bench.Server.{run_echo_server}
use tlshub_ebpf.Bench.Options.{Parsed, configured, exits, init_config, parse_options}
use tlshub_ebpf.Bench.Main.{Host, Ending, Bounds, status_of, export_all, run_client, run_mode, main}
use tlshub_ebpf.Bench.Ledger.{IsLedger, Leaves}
use tlshub_ebpf.Bench.Ledger.Server.{run_echo_server-Leaves}
use tlshub_ebpf.Bench.Ledger.Run.{RunKeeps, run_tcp_client-RunKeeps}

-- `calloc` allocates a block unless it returns null; `fopen` and `getrusage` change nothing of the kind.
pub record IsHostLedger {W : Type 0} (res : Resources W) (host : Host W) (view : W → Holdings)
    : Type 0 where
  pub calloc_allocates :
      (n : ℕ) (w : W) → view (host.calloc n w).1 ≡ allocated (host.calloc n w).0 (view w)
  pub fopen_keeps : (path : Bytes) (w : W) → view (host.fopen path w).1 ≡ view w
  pub getrusage_keeps : (w : W) → view (res.getrusage w).1 ≡ view w

module _ {F : Type 0} (fp : Doubles F) {W : Type 0} (sys : Clock W) (net : TcpSockets W)
    (res : Resources W) (host : Host W) (view : W → Holdings) (ledger : IsLedger sys net view)
    (rest : IsHostLedger res host view) where
  -- What the program leaves.
  abbrev ProgramLeaves : Holdings → Option (Ending F W) → Type 0
  ProgramLeaves = Leaves (λ o. o.world) view

  export_all-freed :
      (config : BenchConfig) (ss : List (ConnStats F)) (m : GlobalMetrics F) (h : Holdings) (w : W)
      → view w ≡ allocated true h
      → view (export_all fp sys net res host config (ss, m, w)).world ≡ h
  unfolding export_all
  export_all-freed config ss m h w e =
      let (json_opens, w1) = host.fopen (c_string config.output_json) w in
      let (csv_opens, w2) = host.fopen (c_string config.output_csv) w1 in
      ledger.free_undoes h w2 (
        rest.fopen_keeps (c_string config.output_csv) w1
        ∙ rest.fopen_keeps (c_string config.output_json) w
        ∙ e)

  init_metrics_keeps : (w : W) → view (init_metrics fp sys res w).1 ≡ view w
  unfolding init_metrics
  init_metrics_keeps w = ledger.gettime_keeps w

  finalize_metrics_keeps :
      (m : GlobalMetrics F) (w : W) → view (finalize_metrics fp sys res m w).1 ≡ view w
  unfolding finalize_metrics
  finalize_metrics_keeps m w =
      let (now, w1) = sys.gettime w in
      let (usage, w2) = res.getrusage w1 in
      rest.getrusage_keeps w2 ∙ rest.getrusage_keeps w1 ∙ ledger.gettime_keeps w

  run_client-freed :
      (fuel : ℕ) (config : BenchConfig) (h : Holdings) (w : W)
      → view w ≡ allocated true h
      → ProgramLeaves h (run_client fp sys net res host fuel config w)
  unfolding run_client
  run_client-freed fuel config h w e =
      let (m, w1) = init_metrics fp sys res w in
      reported (run_tcp_client fp sys net fuel config m w1) (
        run_tcp_client-RunKeeps fp sys net view ledger fuel config m (allocated true h) w1
          (init_metrics_keeps w ∙ e))
    where
      reported :
          (o : Option (List (ConnStats F) × GlobalMetrics F × W))
          → RunKeeps fp sys net view ledger (allocated true h) o
          → ProgramLeaves h (elim o [
            | none ↦ none
            | some (ss, m', w2) ↦
                let (m2, w3) = finalize_metrics fp sys res m' w2 in
                some (export_all fp sys net res host config (ss, m2, w3))
          ])
      reported none left = tt
      reported (some (ss, m', w2)) left =
          let (m2, w3) = finalize_metrics fp sys res m' w2 in
          export_all-freed config ss m2 h w3 (finalize_metrics_keeps m' w2 ∙ left)

  run_mode-leaves :
      (bounds : Bounds) (mode : BenchMode) (config : BenchConfig) (w : W)
      → ProgramLeaves (view w) (run_mode fp sys net res host bounds mode config w)
  unfolding run_mode
  run_mode-leaves bounds server config w =
      ended (run_echo_server net bounds.turns bounds.rounds bounds.fuel config.listen_port w) (
        run_echo_server-Leaves sys net view ledger bounds.turns bounds.rounds bounds.fuel
          config.listen_port w)
    where
      ended :
          (o : Option (ℤ × W))
          → Leaves (λ (x : ℤ × W). x.1) view (view w) o
          → ProgramLeaves (view w) (elim o [
            | none ↦ none
            | some (r, w1) ↦ some (record {
              status = status_of fp sys net res host r;
              json = none;
              csv = none;
              world = w1;
            })
          ])
      ended none left = tt
      ended (some (r, w1)) left = left
  run_mode-leaves bounds client config w =
      let (granted, w1) = host.calloc config.total_connections w in
      let allocates = rest.calloc_allocates config.total_connections w in
      elim (Bool-cases granted) [
        | inl g ↦
            let e = rw g at allocates in
            rw (run_mode, g) (run_client-freed bounds.fuel config (view w) w1 e)
        | inr g ↦ let e = rw g at allocates in rw (run_mode, g) e
      ]

  -- However `main` ends, by whichever options and in either mode, the sockets that are open and the blocks that
  -- are allocated are those from before.
  pub main-Leaves :
      (bounds : Bounds) (json csv : Bytes) (options : List (ℕ × Bytes)) (w : W)
      → Leaves
          (λ (o : Ending F W). o.world)
          view
          (view w)
          (main fp sys net res host bounds json csv options w)
  unfolding main
  main-Leaves bounds json csv options w = started (parse_options (init_config json csv) options)
    where
      started :
          (p : Parsed)
          → Leaves
              (λ (o : Ending F W). o.world)
              view
              (view w)
              (elim p [
                | exits status ↦
                    some (record { status = status; json = none; csv = none; world = w })
                | configured config ↦ run_mode fp sys net res host bounds config.mode config w
              ])
      started (exits status) = refl
      started (configured config) = run_mode-leaves bounds config.mode config w
