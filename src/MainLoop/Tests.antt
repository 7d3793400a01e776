-- ===== src/MainLoop/Tests.antt =====
-- The main loop with one event in each poll.
use tlshub_ebpf.Base.{
  Bool, false, ℤ, suc, ◌+◌, List, Bytes, codes, negsuc, ℕ, ◌≡◌, refl, ◌⊎◌, true, none, some, [],
  ◌∷◌, pos, arith,
}
use tlshub_ebpf.Tlshub.Scripted.{Script, scripted}
use tlshub_ebpf.Metrics.System.{ProcFiles}
use tlshub_ebpf.Metrics.Table.{IsWellFormed}
use tlshub_ebpf.Metrics.Samples.{natural}
use tlshub_ebpf.Bpf.{TcpConnectEvent}
use tlshub_ebpf.Handler.{handle_tcp_event, begin_metrics, end_metrics, conclude}
use tlshub_ebpf.Handler.Samples.{counting, library, event, stale, ready, quiet, context}
use tlshub_ebpf.MainLoop.{handle_events, keep_running, Events, Running, periodic, main_loop}
use tlshub_ebpf.MainLoop.Start.{Libbpf, Surroundings, Parts, run, cleanup, main}
use tlshub_ebpf.MainLoop.Shutdown.{IsClean, main-IsClean}
use tlshub_ebpf.KeyProvider.{provider_start, key_provider_get_key, openssl_get_key}
use tlshub_ebpf.Capture.{openssl}
use tlshub_ebpf.Metrics.Types.{Clock}
use tlshub_ebpf.KeyProvider.Ledger.{Held}
use tlshub_ebpf.KeyProvider.Ledger.Samples
use tlshub_ebpf.KeyProvider.Ledger.Samples.{recorded, before, itself, recorded-IsLedger}
use tlshub_ebpf.MainLoop.Ledger.{IsQuiet}
use tlshub_ebpf.MainLoop.Ledger.Start.{IsBpfQuiet}
use tlshub_ebpf.MainLoop.Interrupted.{
  HasStatus, Turns, turn, stay, begun, at_end, minus_eintr, run_interrupted,
}
use tlshub_ebpf.MainLoop.Batch.{HasRoomFor, WaitsOr, handle_events-Tallied}
use tlshub_ebpf.MainLoop.Kept.{IsKept, main_loop-IsKept}

abbrev no_files : ProcFiles Script
no_files = record { stat_file = λ s. (none, s); status_file = λ s. (none, s) }

abbrev busy : Events Script
busy = record { poll = λ s. (pos 1, event ∷ [], s); time = λ s. (9, s); signalled = λ s. false }

abbrev started : Running Script ℕ
started = record {
  perf_ctx = some (context 2);
  provider = ready;
  last_perf_update = 0;
  err = pos 0;
  world = quiet;
}

context-IsWellFormed : IsWellFormed (context 2)
context-IsWellFormed = record {
  slots = refl;
  capacity = omega arith;
  counted = refl;
  active = omega arith;
  small = omega arith;
}

main_loop-IsKept_example :
    (main_loop counting no_files natural scripted library busy 3 5 stale started ≡ none)
    ⊎ ((after : Running Script ℕ) × (main_loop counting no_files natural scripted library busy 3 5
            stale started
          ≡ some after)
        × IsKept after.perf_ctx)
main_loop-IsKept_example =
    main_loop-IsKept counting no_files natural scripted library busy 3 5 stale started
      context-IsWellFormed

abbrev bpf : Libbpf Script
bpf = record {
  open_file = λ path s. (true, s);
  load = λ s. (pos 0, s);
  attach = λ s. (true ∷ (false ∷ []), s);
  find_events = λ s. (pos 5, s);
  perf_buffer_new = λ fd s. (true, s);
  perf_buffer_free = λ s. s;
  link_destroy = λ s. s;
  object_close = λ s. s;
}

abbrev bare : Surroundings Script
bare = record {
  text = λ name s. none;
  opens = λ name s. true;
  table_granted = λ s. true;
  context_granted = λ s. false;
  slots_granted = λ s. false;
  json_name = λ n. codes "a.json";
  csv_name = λ n. codes "a.csv";
}

-- The first poll gives an event; the next is interrupted by the signal that stops the loop.
abbrev stopped : Events Script
stopped = record {
  poll = λ s. second s.outbox s;
  time = λ s. (9, s);
  signalled = λ s. are_two s.outbox;
}
  where
    are_two : List Bytes → Bool
    are_two [] = false
    are_two (b ∷ []) = false
    are_two (b ∷ (c ∷ bs)) = true

    second : List Bytes → Script → ℤ × List TcpConnectEvent × Script
    second [] s = (pos 1, event ∷ [], record s { outbox = [] ∷ [] })
    second (b ∷ bs) s = (negsuc 3, [], record s { outbox = [] ∷ ([] ∷ []) })

abbrev parts : Parts Script ℕ
parts = record {
  err = pos 0;
  perf_ctx = none;
  provider = ready;
  object = true;
  link_count = 1;
  buffer = true;
  world = quiet;
}

-- The same surroundings over the system that records what is open; each poll gives an event.
abbrev steady : Clock Held
steady = record { gettime = λ w. (record { tv_sec = 7; tv_nsec = 0 }, w) }

abbrev no_proc : ProcFiles Held
no_proc = record { stat_file = λ w. (none, w); status_file = λ w. (none, w) }

abbrev always : Events Held
always = record { poll = λ w. (pos 1, event ∷ [], w); time = λ w. (9, w); signalled = λ w. false }

abbrev loads : Libbpf Held
loads = record {
  open_file = λ path w. (true, w);
  load = λ w. (pos 0, w);
  attach = λ w. (true ∷ (false ∷ []), w);
  find_events = λ w. (pos 5, w);
  perf_buffer_new = λ fd w. (true, w);
  perf_buffer_free = λ w. w;
  link_destroy = λ w. w;
  object_close = λ w. w;
}

abbrev plain : Surroundings Held
plain = record {
  text = λ name w. none;
  opens = λ name w. true;
  table_granted = λ w. true;
  context_granted = λ w. true;
  slots_granted = λ w. true;
  json_name = λ n. codes "a.json";
  csv_name = λ n. codes "a.csv";
}

always-IsQuiet : IsQuiet steady no_proc always itself
always-IsQuiet = record {
  gettime_keeps = λ w. refl;
  stat_file_keeps = λ w. refl;
  status_file_keeps = λ w. refl;
  poll_keeps = λ w. refl;
  time_keeps = λ w. refl;
}

loads-IsBpfQuiet : IsBpfQuiet loads itself
loads-IsBpfQuiet = record {
  open_file_keeps = λ path w. refl;
  load_keeps = λ w. refl;
  attach_keeps = λ w. refl;
  find_events_keeps = λ w. refl;
  perf_buffer_new_keeps = λ fd w. refl;
  perf_buffer_free_keeps = λ w. refl;
  link_destroy_keeps = λ w. refl;
  object_close_keeps = λ w. refl;
}

main-IsClean_example : IsClean itself before (
    main steady no_proc natural recorded Samples.library always loads plain 5 5 stale
      (record { mode = openssl; pod_node_config_path = [] })
      (codes "capture.conf")
      provider_start
      before)
main-IsClean_example =
    main-IsClean steady no_proc natural recorded Samples.library always loads plain itself
      recorded-IsLedger always-IsQuiet loads-IsBpfQuiet before 5 5 stale
      (record { mode = openssl; pod_node_config_path = [] }) (codes "capture.conf") provider_start
      before (record { no_context = refl; no_socket = refl }) refl

abbrev interrupted_once : Script
interrupted_once = record quiet { outbox = [] ∷ [] }

abbrev before_signal : Running Script ℕ
before_signal = record {
  perf_ctx = none;
  provider = ready;
  last_perf_update = 9;
  err = pos 1;
  world = interrupted_once;
}

one_turn-Turns :
    Turns counting no_files natural scripted library stopped 5 stale 1
      (begun counting no_files natural scripted library stopped bpf bare parts)
      before_signal
unfolding periodic keep_running handle_events handle_tcp_event key_provider_get_key openssl_get_key
    conclude end_metrics begin_metrics
one_turn-Turns =
    turn (pos 1) (event ∷ []) interrupted_once
      (record { perf_ctx = none; provider = ready; world = interrupted_once }) refl refl refl refl
      stay

run_interrupted_example :
    (s' : Running Script ℕ) × (run counting no_files natural scripted library stopped bpf bare
        (1 + suc (suc 0))
        5
        stale
        parts
      ≡ some (
          cleanup counting no_files natural scripted library stopped bpf bare
            (at_end counting no_files natural scripted library stopped bpf bare parts s')))
    × (s'.err ≡ minus_eintr)
    × (s'.provider ≡ ready)
    × HasStatus 1 (
        cleanup counting no_files natural scripted library stopped bpf bare
          (at_end counting no_files natural scripted library stopped bpf bare parts s'))
unfolding periodic keep_running
run_interrupted_example =
    run_interrupted counting no_files natural scripted library stopped bpf bare 1 0 5 stale parts
      before_signal one_turn-Turns
      (record {
        after = record quiet { outbox = [] ∷ ([] ∷ []) };
        runs = refl;
        polled = refl;
        cleared = refl;
      })

-- Two events in one poll, with room for four.
four_slots-HasRoomFor : HasRoomFor counting no_files natural scripted library busy 2 (context 4)
four_slots-HasRoomFor = record {
  enabled = refl;
  slots = omega arith;
  small = omega arith;
  active = omega arith;
  total = omega arith;
  outcomes = omega arith;
}

handle_events-Tallied_example :
    WaitsOr counting no_files natural scripted library busy 2 (context 4) (
      handle_events counting no_files natural scripted library busy 5 stale
        (event ∷ (event ∷ []))
        (some (context 4))
        ready
        quiet)
handle_events-Tallied_example =
    handle_events-Tallied counting no_files natural scripted library busy 5 stale
      (event ∷ (event ∷ [])) (context 4) ready quiet four_slots-HasRoomFor
