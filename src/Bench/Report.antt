-- ===== src/Bench/Report.antt =====
-- What the client mode of `main` in bench/src/main.c reports.
use tlshub_ebpf.Base.{
  ℕ, suc, ◌+◌, ◌≤◌, ◌<◌, ◌≡◌, refl, ap, ◌∙◌, inl, inr, Bool, true, false, Option, none, some, List,
  [], ◌∷◌, Bytes, ltb, length, take, take_all, Bool-cases, arith,
}
use tlshub_ebpf.Stdio.{c_string}
use tlshub_ebpf.Metrics.Types.{Doubles, Clock}
use tlshub_ebpf.Bench.Types.{client, BenchConfig, ConnStats, GlobalMetrics}
use tlshub_ebpf.Bench.Metrics.{Resources, init_metrics, finalize_averages, finalize_metrics}
use tlshub_ebpf.Bench.Export.{
  Report, details_of, report_of, export_metrics_json, export_metrics_csv,
}
use tlshub_ebpf.Bench.Sockets.{TcpSockets}
use tlshub_ebpf.Bench.Finite.{IsFinite}
use tlshub_ebpf.Bench.Accounts.{SameCounts, run_tcp_client-Accounted}
use tlshub_ebpf.Bench.Options.{configured, init_config, parse_options}
use tlshub_ebpf.Bench.Ranges.{OfParsed, InRange, parse_options-InRange, init_config-InRange}
use tlshub_ebpf.Bench.Main.{Host, Ending, Bounds, export_all, run_client, run_mode, main}

-- What a file holds: nothing if it could not be opened, and otherwise a report on `n` connections, each either
-- successful or failed.
abbrev pub IsComplete : {F : Type 0} → ℕ → Bool → Option (Report F) → Type 0
IsComplete n false none = Unit {0}
IsComplete n false (some r) = ⊥
IsComplete n true none = ⊥
IsComplete n true (some r) =
    (length r.details ≡ n)
    × (r.planned_connections ≡ n)
    × (r.summary.total_connections ≡ n)
    × (r.summary.successful_connections + r.summary.failed_connections ≡ n)
    × (r.summary.timeout_connections ≡ 0)

module _ {F : Type 0} where
  length-details_of : (ss : List (ConnStats F)) → length (details_of ss) ≡ length ss
  unfolding details_of
  length-details_of [] = refl
  length-details_of (s ∷ ss) = ap suc (length-details_of ss)

  abbrev Complete : ℕ → List (ConnStats F) → GlobalMetrics F → Type 0
  Complete n ss m =
      (length ss ≡ n)
      × (m.total_connections ≡ n)
      × (m.successful_connections + m.failed_connections ≡ n)
      × (m.timeout_connections ≡ 0)

  report_of-IsComplete :
      (config : BenchConfig) (ss : List (ConnStats F)) (m : GlobalMetrics F)
      → Complete config.total_connections ss m
      → IsComplete config.total_connections true
          (some (report_of config m (take config.total_connections ss)))
  unfolding report_of
  report_of-IsComplete config ss m (size, t, c, o) = (
    length-details_of (take config.total_connections ss)
        ∙ (ap length (take_all config.total_connections ss (omega arith)) ∙ size),
    refl,
    t,
    c,
    o,
  )

  export_json-IsComplete :
      (opens : Bool) (config : BenchConfig) (ss : List (ConnStats F)) (m : GlobalMetrics F)
      → Complete config.total_connections ss m
      → IsComplete config.total_connections opens
          (export_metrics_json opens config m ss config.total_connections).1
  unfolding export_metrics_json
  export_json-IsComplete true config ss m h = report_of-IsComplete config ss m h
  export_json-IsComplete false config ss m h = tt

  export_csv-IsComplete :
      (opens : Bool) (config : BenchConfig) (ss : List (ConnStats F)) (m : GlobalMetrics F)
      → Complete config.total_connections ss m
      → IsComplete config.total_connections opens
          (export_metrics_csv opens config m ss config.total_connections).1
  unfolding export_metrics_csv
  export_csv-IsComplete true config ss m h = report_of-IsComplete config ss m h
  export_csv-IsComplete false config ss m h = tt

-- The state `v` before the two files were opened; each holds what it should by whether it could be opened.
abbrev pub HasReports :
    {F W : Type 0} → TcpSockets W → Host W → BenchConfig → Ending F W → W → Type 0
HasReports net host config e v =
    let (json_opens, v1) = host.fopen (c_string config.output_json) v in
    let (csv_opens, v2) = host.fopen (c_string config.output_csv) v1 in
    (e.world ≡ net.free v2)
    × IsComplete config.total_connections json_opens e.json
    × IsComplete config.total_connections csv_opens e.csv

module _ {F : Type 0} (fp : Doubles F) {W : Type 0} (sys : Clock W) (net : TcpSockets W)
    (res : Resources W) (host : Host W) where
  finalize_averages-SameCounts : (m : GlobalMetrics F) → SameCounts m (finalize_averages fp m)
  unfolding finalize_averages
  finalize_averages-SameCounts m = elim (Bool-cases (ltb 0 m.successful_connections)) [
    | inl e ↦ rw (finalize_averages, e) (refl, refl, refl, refl, refl, refl)
    | inr e ↦ rw (finalize_averages, e) (refl, refl, refl, refl, refl, refl)
  ]

  finalize_metrics-SameCounts :
      (m : GlobalMetrics F) (w : W) → SameCounts m (finalize_metrics fp sys res m w).0
  unfolding finalize_metrics
  finalize_metrics-SameCounts m w = finalize_averages-SameCounts m

  run_mode-client :
      (bounds : Bounds) (config : BenchConfig) (w : W)
      → (host.calloc config.total_connections w).0 ≡ true
      → run_mode fp sys net res host bounds client config w
        ≡ run_client fp sys net res host bounds.fuel config
            (host.calloc config.total_connections w).1
  unfolding run_mode
  run_mode-client bounds config w allocated = rw (run_mode, allocated) refl

  main-client :
      (bounds : Bounds) (json csv : Bytes) (options : List (ℕ × Bytes)) (config : BenchConfig)
      (w : W)
      → parse_options (init_config json csv) options ≡ configured config
      → config.mode ≡ client
      → (host.calloc config.total_connections w).0 ≡ true
      → main fp sys net res host bounds json csv options w
        ≡ run_client fp sys net res host bounds.fuel config
            (host.calloc config.total_connections w).1
  unfolding main
  main-client bounds json csv options config w parsed mode allocated =
      let started : main fp sys net res host bounds json csv options w
          ≡ run_mode fp sys net res host bounds config.mode config w =
        rw (main, parsed) refl in
      started
      ∙ (ap (λ x. run_mode fp sys net res host bounds x config w) mode
          ∙ run_mode-client bounds config w allocated)

  module _ (budget : W → ℕ) (finite : IsFinite sys net budget) where
    pub run_client-IsComplete :
        (fuel : ℕ) (config : BenchConfig) (w : W)
        → config.data_size + budget w < fuel
        → (e : Ending F W) × (run_client fp sys net res host fuel config w ≡ some e)
          × (e.status ≡ 0)
          × ((v : W) × HasReports net host config e v)
    unfolding run_client export_all init_metrics
    run_client-IsComplete fuel config w enough =
        let (m, w1) = init_metrics fp sys res w in
        let le = finite.gettime_le w in
        let (o, run, size, accounts) =
          run_tcp_client-Accounted fp sys net budget finite fuel config m w1 (omega arith) in
        let (t, c, f, all, z, b, r) = accounts in
        let (m2, w3) = finalize_metrics fp sys res o.1 o.2 in
        let (t', c', f', z', b', r') = finalize_metrics-SameCounts o.1 o.2 in
        let complete : Complete config.total_connections o.0 m2 =
          (size, omega arith, omega arith, z' ∙ z) in
        (
          export_all fp sys net res host config (o.0, m2, w3),
          rw (run_client, run) refl,
          refl,
          (
            w3,
            (
              refl,
              export_json-IsComplete (host.fopen (c_string config.output_json) w3).0 config o.0 m2
                  complete,
              export_csv-IsComplete _ config o.0 m2 complete,
            ),
          ),
        )

    -- For options that lead into the client mode, with an array and fuel for the largest data size and for the
    -- budget of bytes to come and of signals, `main` ends with status 0. Of the two files, each
    -- that `fopen` opened at the end holds a report on as many connections as were planned, each counted as
    -- successful or failed and none as a timeout, and one that it could not open holds none.
    pub main-IsComplete :
        (bounds : Bounds) (json csv : Bytes) (options : List (ℕ × Bytes)) (config : BenchConfig)
        (w : W)
        → parse_options (init_config json csv) options ≡ configured config
        → config.mode ≡ client
        → (host.calloc config.total_connections w).0 ≡ true
        → budget (host.calloc config.total_connections w).1 ≤ budget w
        → 10485760 + budget w < bounds.fuel
        → (e : Ending F W) × (main fp sys net res host bounds json csv options w ≡ some e)
          × (e.status ≡ 0)
          × ((v : W) × HasReports net host config e v)
    main-IsComplete bounds json csv options config w parsed mode allocated le enough =
        let ranges : OfParsed InRange (parse_options (init_config json csv) options) =
          parse_options-InRange (init_config json csv) options (init_config-InRange json csv) in
        let (target, listen, size, concurrency, total) = rw parsed at ranges in
        let (least, most) = size in
        let (e, run, status, reports) =
          run_client-IsComplete bounds.fuel config (host.calloc config.total_connections w).1
            (omega arith) in
        (
          e,
          main-client bounds json csv options config w parsed mode allocated ∙ run,
          status,
          reports,
        )
