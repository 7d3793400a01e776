-- ===== src/MainLoop/Start.antt =====
-- `main` of capture/src/main.c around the loop: the start of the parts in order, and the shutdown, which every
-- failure after the configuration jumps to. Printed messages are left out, and with them
-- `print_pod_node_mapping`; releasing the table and the metrics has no model.
use tlshub_ebpf.Base.{
  ℕ, zero, suc, ◌+◌, ℤ, minus_one, is_negative, is_zero, Bool, true, false, Option, none, some,
  List, [], ◌∷◌, Bytes, codes, if◌then◌else◌,
}
use tlshub_ebpf.Capture.{TlsKeyInfo}
use tlshub_ebpf.Stdio.{c_string}
use tlshub_ebpf.Tlshub.Netlink.{Netlink}
use tlshub_ebpf.KeyProvider.{Ssl, Provider, key_provider_init, key_provider_cleanup}
use tlshub_ebpf.PodMapping.{Load, null, loaded, init_pod_node_mapping}
use tlshub_ebpf.Config.{CaptureConfig, configured, load_config}
use tlshub_ebpf.Metrics.Types.{Doubles, Clock, PerfMetrics}
use tlshub_ebpf.Metrics.System.{ProcFiles}
use tlshub_ebpf.Metrics.Init.{perf_metrics_init}
use tlshub_ebpf.Metrics.Export.{
  Document, Row, perf_metrics_print_report, perf_metrics_export_json, perf_metrics_export_csv,
}
use tlshub_ebpf.MainLoop.{Events, Running, main_loop}

-- What `main` calls of libbpf. A pointer that libbpf marks as an error is `false`.
pub record Libbpf (W : Type 0) : Type 0 where
  pub open_file : Bytes → W → Bool × W
  pub load : W → ℤ × W
  -- for each program of the object, whether it could be attached
  pub attach : W → List Bool × W
  -- the descriptor of the map "events"
  pub find_events : W → ℤ × W
  pub perf_buffer_new : ℤ → W → Bool × W
  pub perf_buffer_free : W → W
  pub link_destroy : W → W
  pub object_close : W → W

-- The files and the memory, as the system stands at a time.
pub record Surroundings (W : Type 0) : Type 0 where
  pub text : Bytes → W → Option Bytes
  pub opens : Bytes → W → Bool
  pub table_granted : W → Bool
  pub context_granted : W → Bool
  pub slots_granted : W → Bool
  -- the names that `snprintf` makes of the time
  pub json_name : ℕ → Bytes
  pub csv_name : ℕ → Bytes

-- The variables of `main` and of the file at the label `cleanup`.
pub record Parts (W F : Type 0) : Type 0 where
  pub err : ℤ
  pub perf_ctx : Option (PerfMetrics F)
  pub provider : Provider
  pub object : Bool
  pub link_count : ℕ
  pub buffer : Bool
  pub world : W

-- The exit status, what the files hold, and the state that is left.
pub record Ending (W F : Type 0) : Type 0 where
  pub status : ℕ
  pub json : Option (Document F)
  pub csv : Option (List (Row F))
  pub provider : Provider
  pub world : W

-- How `main` ends. A file that overruns a buffer of its reader leaves it undefined.
pub data Exit (W F : Type 0) : Type 0 where
  undefined : Exit W F
  ended : Ending W F → Exit W F

-- `bpf_paths`
abbrev pub bpf_paths : List Bytes
bpf_paths = codes "capture.bpf.o" ∷ (codes "/usr/local/lib/capture.bpf.o" ∷ [])

-- `link_count` after the programs were attached.
unfoldable pub attached_count : List Bool → ℕ
attached_count [] = 0
attached_count (true ∷ bs) = attached_count bs + 1
attached_count (false ∷ bs) = attached_count bs

module _ {W F : Type 0} (sys : Clock W) (proc : ProcFiles W) (fp : Doubles F) (os : Netlink W)
    (ssl : Ssl W) (events : Events W) (bpf : Libbpf W) (host : Surroundings W) where
  -- The loop over the links.
  unfoldable pub destroy_links : ℕ → W → W
  destroy_links zero w = w
  destroy_links (suc n) w = destroy_links n (bpf.link_destroy w)

  -- The report and the two exports, if there are metrics.
  unfoldable pub export_metrics :
      Option (PerfMetrics F) → W → Option (Document F) × Option (List (Row F)) × W
  export_metrics none w = (none, none, w)
  export_metrics (some ctx) w =
      let (reported, figures) = perf_metrics_print_report fp (some ctx) in
      let (now, w1) = events.time w in
      let json = host.json_name now in
      let csv = host.csv_name now in
      let (r, exported, document) =
        perf_metrics_export_json fp now (host.opens json w1) reported (some json) in
      (document, (perf_metrics_export_csv fp (host.opens csv w1) exported (some csv)).1, w1)

  -- From the label `cleanup` on.
  unfoldable pub cleanup : Parts W F → Exit W F
  unfolding export_metrics destroy_links
  cleanup p =
      let (json, csv, w1) = export_metrics p.perf_ctx p.world in
      let w2 = if p.buffer then bpf.perf_buffer_free w1 else w1 in
      let w3 = destroy_links p.link_count w2 in
      let w4 = if p.object then bpf.object_close w3 else w3 in
      let (provider, w5) = key_provider_cleanup os ssl p.provider w4 in
      ended (record {
        status = if is_negative p.err then 1 else 0;
        json = json;
        csv = csv;
        provider = provider;
        world = w5;
      })

  -- `bpf_object__open_file` on one path after the other.
  unfoldable pub open_first : List Bytes → W → Bool × W
  open_first [] w = (false, w)
  open_first (path ∷ paths) w =
      let (opened, w1) = bpf.open_file path w in
      let rest = open_first paths w1 in if opened then (true, w1) else rest

  -- The loop, and the cleanup behind it.
  unfoldable pub run : ℕ → ℕ → TlsKeyInfo → Parts W F → Option (Exit W F)
  unfolding cleanup main_loop
  run turns fuel k p =
      let (now, w1) = events.time p.world in
      let start : Running W F = record {
        perf_ctx = p.perf_ctx;
        provider = p.provider;
        last_perf_update = now;
        err = p.err;
        world = w1;
      } in
      elim (main_loop sys proc fp os ssl events turns fuel k start) [
        | none ↦ none
        | some s ↦ some (
            cleanup (record p {
              err = s.err;
              perf_ctx = s.perf_ctx;
              provider = s.provider;
              world = s.world;
            }))
      ]

  -- The perf buffer, with the programs attached.
  unfoldable pub start_buffer : ℕ → ℕ → TlsKeyInfo → Parts W F → Option (Exit W F)
  unfolding run
  start_buffer turns fuel k p =
      let (fd, w1) = bpf.find_events p.world in
      let (made, w2) = bpf.perf_buffer_new fd w1 in
      let running = run turns fuel k (record p { buffer = true; world = w2 }) in
      if is_negative fd
      then some (cleanup (record p { err = minus_one; world = w1 }))
      else if made
      then running
      else some (cleanup (record p { err = minus_one; world = w2 }))

  -- The load and the attachment, with the object open.
  unfoldable pub start_programs : ℕ → ℕ → TlsKeyInfo → Parts W F → Option (Exit W F)
  unfolding start_buffer
  start_programs turns fuel k p =
      let (err, w1) = bpf.load p.world in
      let (attached, w2) = bpf.attach w1 in
      let started =
        start_buffer turns fuel k
          (record p { err = err; link_count = attached_count attached; world = w2 }) in
      if is_zero err then started else some (cleanup (record p { err = err; world = w1 }))

  -- The metrics and the object, with the key provider.
  unfoldable pub start_capture : ℕ → ℕ → TlsKeyInfo → ℤ × Provider × W → Option (Exit W F)
  unfolding start_programs
  start_capture turns fuel k (err, provider, w) =
      let (perf, w1) =
        perf_metrics_init sys fp (host.context_granted w) (host.slots_granted w) 1000 w in
      let (opened, w2) = open_first bpf_paths w1 in
      let p : Parts W F = record {
        err = err;
        perf_ctx = none;
        provider = provider;
        object = false;
        link_count = 0;
        buffer = false;
        world = w;
      } in
      let started =
        start_programs turns fuel k (record p { perf_ctx = perf; object = true; world = w2 }) in
      if is_negative err
      then some (cleanup p)
      else if opened
      then started
      else some (cleanup (record p { err = minus_one; perf_ctx = perf; world = w2 }))

  -- The key provider, with the configuration and what reading the table of pods gave.
  unfoldable pub start_provider :
      ℕ → ℕ → TlsKeyInfo → CaptureConfig → Provider → W → Load → Option (Exit W F)
  unfolding start_capture
  start_provider turns fuel k config provider w table =
      let provided : Option (Exit W F) =
        elim (key_provider_init os ssl fuel config.mode provider w) [
          | none ↦ none
          | some o ↦ start_capture turns fuel k o
        ] in
      elim table [ null ↦ provided | loaded t ↦ provided | _ ↦ some undefined ]

  -- `main(argc, argv)`, with the name of the configuration file and what the stack held; `none` while a wait
  -- for the kernel module goes on.
  unfoldable pub main :
      ℕ → ℕ → TlsKeyInfo → CaptureConfig → Bytes → Provider → W → Option (Exit W F)
  unfolding start_provider
  main turns fuel k stack name provider w = elim (load_config (host.text name w) stack) [
    | configured config ↦ start_provider turns fuel k config provider w (
        init_pod_node_mapping (host.table_granted w)
          (host.text (c_string config.pod_node_config_path) w))
    | _ ↦ some undefined
  ]
