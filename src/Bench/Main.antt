-- ===== src/Bench/Main.antt =====
-- `main` of bench/src/main.c, after `getopt_long`. Printed messages are left out.
use tlshub_ebpf.Base.{ℕ, ℤ, is_zero, Bool, Option, none, some, List, Bytes, if◌then◌else◌}
use tlshub_ebpf.Stdio.{c_string}
use tlshub_ebpf.Metrics.Types.{Doubles, Clock}
use tlshub_ebpf.Bench.Types.{BenchMode, client, server, BenchConfig, ConnStats, GlobalMetrics}
use tlshub_ebpf.Bench.Metrics.{Resources, init_metrics, finalize_metrics}
use tlshub_ebpf.Bench.Export.{Report, export_metrics_json, export_metrics_csv}
use tlshub_ebpf.Bench.Sockets.{TcpSockets}
use tlshub_ebpf.Bench.Client.{run_tcp_client}
use tlshub_ebpf.Bench.Server.{run_echo_server}
use tlshub_ebpf.Bench.Options.{
  configured, exits, exit_success, exit_failure, init_config, parse_options,
}

-- The array of connections, and whether a file can be opened for writing.
pub record Host (W : Type 0) : Type 0 where
  pub calloc : ℕ → W → Bool × W
  pub fopen : Bytes → W → Bool × W

-- What is left when the program ends: its status and what the two files hold.
pub record Ending (F W : Type 0) : Type 0 where
  pub status : ℕ
  pub json : Option (Report F)
  pub csv : Option (Report F)
  pub world : W

-- The bounds of the loops: connections served, rounds with one client, turns of an inner loop.
pub record Bounds : Type 0 where
  pub turns : ℕ
  pub rounds : ℕ
  pub fuel : ℕ

module _ {F : Type 0} (fp : Doubles F) {W : Type 0} (sys : Clock W) (net : TcpSockets W)
    (res : Resources W) (host : Host W) where
  -- The exports at the end of the client mode.
  unfoldable pub export_all : BenchConfig → List (ConnStats F) × GlobalMetrics F × W → Ending F W
  unfolding export_metrics_json export_metrics_csv
  export_all config (ss, m, w) =
      let (json_opens, w1) = host.fopen (c_string config.output_json) w in
      let (csv_opens, w2) = host.fopen (c_string config.output_csv) w1 in
      record {
        status = exit_success;
        json = (export_metrics_json json_opens config m ss config.total_connections).1;
        csv = (export_metrics_csv csv_opens config m ss config.total_connections).1;
        world = net.free w2;
      }

  -- The client mode, with the array; the result of `run_tcp_client` is 0.
  unfoldable pub run_client : ℕ → BenchConfig → W → Option (Ending F W)
  unfolding export_all init_metrics finalize_metrics run_tcp_client
  run_client fuel config w =
      let (m, w1) = init_metrics fp sys res w in
      elim (run_tcp_client fp sys net fuel config m w1) [
        | none ↦ none
        | some (ss, m', w2) ↦
            let (m2, w3) = finalize_metrics fp sys res m' w2 in
            some (export_all config (ss, m2, w3))
      ]

  abbrev pub status_of : ℤ → ℕ
  status_of r = if is_zero r then exit_success else exit_failure

  -- One of the two modes.
  unfoldable pub run_mode : Bounds → BenchMode → BenchConfig → W → Option (Ending F W)
  unfolding run_client run_echo_server
  run_mode bounds server config w =
      elim (run_echo_server net bounds.turns bounds.rounds bounds.fuel config.listen_port w) [
        | none ↦ none
        | some (r, w1) ↦ some (record { status = status_of r; json = none; csv = none; world = w1 })
      ]
  run_mode bounds client config w =
      let (allocated, w1) = host.calloc config.total_connections w in
      let outcome = run_client bounds.fuel config w1 in
      if allocated
      then outcome
      else some (record { status = exit_failure; json = none; csv = none; world = w1 })

  -- `main(argc, argv)`, with the names of the files and the options.
  unfoldable pub main : Bounds → Bytes → Bytes → List (ℕ × Bytes) → W → Option (Ending F W)
  unfolding run_mode
  main bounds json csv options w = elim (parse_options (init_config json csv) options) [
    | exits status ↦ some (record { status = status; json = none; csv = none; world = w })
    | configured config ↦ run_mode bounds config.mode config w
  ]
