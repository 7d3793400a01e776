-- ===== src/MainLoop/Interrupted.antt =====
-- How capture/src/main.c ends when a signal stops it while it polls.
use tlshub_ebpf.Base.{
  ℕ, zero, suc, ◌+◌, ◌≡◌, refl, ap, ◌∙◌, ℤ, negsuc, is_negative, true, false, List, Option, none,
  some, [], arith,
}
use tlshub_ebpf.Capture.{TlsKeyInfo}
use tlshub_ebpf.Tlshub.Netlink.{Netlink}
use tlshub_ebpf.KeyProvider.{Ssl}
use tlshub_ebpf.Metrics.Types.{Doubles, Clock}
use tlshub_ebpf.Metrics.System.{ProcFiles}
use tlshub_ebpf.Bpf.{TcpConnectEvent}
use tlshub_ebpf.Handler.{Handled}
use tlshub_ebpf.MainLoop.{
  keep_running, Events, Running, stops, handle_events, periodic, leave, main_loop,
}
use tlshub_ebpf.MainLoop.Owned.{periodic_keeps}
use tlshub_ebpf.MainLoop.Start.{Libbpf, Surroundings, Parts, Exit, undefined, ended, cleanup, run}

-- `-EINTR`
abbrev pub minus_eintr : ℤ
minus_eintr = negsuc 3

-- The program ended, with the status `n`.
abbrev pub HasStatus : {W F : Type 0} → ℕ → Exit W F → Type 0
HasStatus n undefined = ⊥
HasStatus n (ended e) = e.status ≡ n

module _ {W F : Type 0} (sys : Clock W) (proc : ProcFiles W) (fp : Doubles F) (os : Netlink W)
    (ssl : Ssl W) (events : Events W) where
  -- The loop begins a turn in the state `s`; the signal arrives in the poll, which returns -EINTR without an
  -- event, and after the turn the flag is found cleared.
  pub record IsInterrupted (s : Running W F) : Type 0 where
    pub after : W
    pub runs : keep_running events s.world ≡ true
    pub polled : events.poll s.world ≡ (minus_eintr, [], after)
    pub cleared :
        keep_running events
          (periodic sys proc fp os ssl events s.last_perf_update minus_eintr
            (record { perf_ctx = s.perf_ctx; provider = s.provider; world = after })).world
        ≡ false

  -- `n` turns lead from one state to another: the program is not stopped, the poll does not fail but by an
  -- interruption, its events are handled, and the turn ends with the update.
  pub data Turns (fuel : ℕ) (k : TlsKeyInfo) : ℕ → Running W F → Running W F → Type 0 where
    stay : {s : Running W F} → Turns fuel k zero s s
    turn :
        {n : ℕ} {s s' : Running W F} (err : ℤ) (es : List TcpConnectEvent) (w : W) (h : Handled W F)
        → keep_running events s.world ≡ true
        → events.poll s.world ≡ (err, es, w)
        → handle_events sys proc fp os ssl events fuel k es s.perf_ctx s.provider w ≡ some h
        → stops err ≡ false
        → Turns fuel k n (periodic sys proc fp os ssl events s.last_perf_update err h) s'
        → Turns fuel k (suc n) s s'

  periodic-err :
      (last : ℕ) (err : ℤ) (h : Handled W F)
      → (periodic sys proc fp os ssl events last err h).err ≡ err
  unfolding periodic
  periodic-err last err h = ground arith

  -- A turn, from what the poll gave on.
  abbrev after_poll :
      ℕ → ℕ → TlsKeyInfo → Running W F → ℤ × List TcpConnectEvent × W → Option (Running W F)
  after_poll turns fuel k s (err, es, w1) =
      elim (handle_events sys proc fp os ssl events fuel k es s.perf_ctx s.provider w1) [
        | none ↦ none
        | some h ↦ elim (stops err) [
          | true ↦ some (leave sys proc fp os ssl events s.last_perf_update err h)
          | false ↦
              main_loop sys proc fp os ssl events turns fuel k
                (periodic sys proc fp os ssl events s.last_perf_update err h)
        ]
      ]

  main_loop-turn :
      (turns fuel : ℕ) (k : TlsKeyInfo) (s : Running W F)
      → keep_running events s.world ≡ true
      → main_loop sys proc fp os ssl events (suc turns) fuel k s
        ≡ after_poll turns fuel k s (events.poll s.world)
  unfolding main_loop
  main_loop-turn turns fuel k s runs = rw (main_loop, runs) refl

  main_loop_stopped :
      (turns fuel : ℕ) (k : TlsKeyInfo) (s : Running W F)
      → keep_running events s.world ≡ false
      → main_loop sys proc fp os ssl events (suc turns) fuel k s ≡ some s
  unfolding main_loop
  main_loop_stopped turns fuel k s stopped = rw (main_loop, stopped) refl

  main_loop-interrupted :
      (turns fuel : ℕ) (k : TlsKeyInfo) (s : Running W F)
      → IsInterrupted s
      → (s' : Running W F) × (main_loop sys proc fp os ssl events (suc (suc turns)) fuel k s
          ≡ some s')
        × (s'.err ≡ minus_eintr)
        × (s'.provider ≡ s.provider)
  unfolding handle_events
  main_loop-interrupted turns fuel k s i =
      let h : Handled W F = record {
        perf_ctx = s.perf_ctx;
        provider = s.provider;
        world = i.after;
      } in
      let next = periodic sys proc fp os ssl events s.last_perf_update minus_eintr h in
      (
        next,
        main_loop-turn (suc turns) fuel k s i.runs
            ∙ ap (after_poll (suc turns) fuel k s) i.polled
            ∙ main_loop_stopped turns fuel k next i.cleared,
        periodic-err s.last_perf_update minus_eintr h,
        periodic_keeps sys proc fp os ssl events s.last_perf_update minus_eintr h,
      )

  main_loop-Turns :
      (n turns fuel : ℕ) (k : TlsKeyInfo) (s s' : Running W F)
      → Turns fuel k n s s'
      → main_loop sys proc fp os ssl events (n + turns) fuel k s
        ≡ main_loop sys proc fp os ssl events turns fuel k s'
  main_loop-Turns zero turns fuel k s s' stay =
      let same : 0 + turns ≡ turns = omega arith in
      ap (λ m. main_loop sys proc fp os ssl events m fuel k s) same
  main_loop-Turns (suc n) turns fuel k s s' (turn err es w h runs polled handled goes_on rest) =
      let next = periodic sys proc fp os ssl events s.last_perf_update err h in
      let continues : after_poll (n + turns) fuel k s (err, es, w)
          ≡ main_loop sys proc fp os ssl events (n + turns) fuel k next =
        rw (after_poll, handled, goes_on) refl in
      let shifted : suc n + turns ≡ suc (n + turns) = omega arith in
      ap (λ m. main_loop sys proc fp os ssl events m fuel k s) shifted
      ∙ main_loop-turn (n + turns) fuel k s runs
      ∙ ap (after_poll (n + turns) fuel k s) polled
      ∙ continues
      ∙ main_loop-Turns n turns fuel k next s' rest

  module _ (bpf : Libbpf W) (host : Surroundings W) where
    -- The state in which `run` begins the loop.
    abbrev pub begun : Parts W F → Running W F
    begun p = record {
      perf_ctx = p.perf_ctx;
      provider = p.provider;
      last_perf_update = (events.time p.world).0;
      err = p.err;
      world = (events.time p.world).1;
    }

    cleanup-negative :
        (p : Parts W F)
        → is_negative p.err ≡ true
        → HasStatus 1 (cleanup sys proc fp os ssl events bpf host p)
    unfolding cleanup
    cleanup-negative p n = rw (cleanup, n) refl

    -- The parts as the loop left them.
    abbrev pub at_end : Parts W F → Running W F → Parts W F
    at_end p s = record p {
      err = s.err;
      perf_ctx = s.perf_ctx;
      provider = s.provider;
      world = s.world;
    }

    -- Whatever the parts hold and however many turns went before: when a signal stops the loop in a poll, the
    -- program goes through the cleanup, with -EINTR as its error, and ends with status 1, the one of a failure.
    pub run_interrupted :
        (n turns fuel : ℕ) (k : TlsKeyInfo) (p : Parts W F) (s : Running W F)
        → Turns fuel k n (begun p) s
        → IsInterrupted s
        → (s' : Running W F) × (run sys proc fp os ssl events bpf host
              (n + suc (suc turns))
              fuel
              k
              p
            ≡ some (cleanup sys proc fp os ssl events bpf host (at_end p s')))
          × (s'.err ≡ minus_eintr)
          × (s'.provider ≡ s.provider)
          × HasStatus 1 (cleanup sys proc fp os ssl events bpf host (at_end p s'))
    unfolding run
    run_interrupted n turns fuel k p s before i =
        let (s', loops, err, same) = main_loop-interrupted turns fuel k s i in
        let whole = main_loop-Turns n (suc (suc turns)) fuel k (begun p) s before ∙ loops in
        (s', rw (run, whole) refl, err, same, cleanup-negative (at_end p s') (rw err refl))
