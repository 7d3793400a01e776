-- ===== src/Bench/Latency/Reported.antt =====
-- The latencies of a run of bench/src/tcp_client.c against the figures of `finalize_metrics`.
use tlshub_ebpf.Base.{
  ℕ, zero, suc, ◌+◌, ◌<◌, lt→ltb, ◌≡◌, refl, sym, ap, subst, ◌∙◌, ◌⊎◌, inl, inr, ℤ, Bool, true,
  false, Option, none, some, List, [], ◌∷◌, Bool-cases, arith,
}
use tlshub_ebpf.Metrics.Types.{Doubles, Clock}
use tlshub_ebpf.Metrics.Stats.Tallies.{IsOrder}
use tlshub_ebpf.Metrics.Stats.Bounds.{LiesBetween}
use tlshub_ebpf.Bench.Types.{
  ConnState, init, connecting, connected, sending, receiving, closing, closed, failed, timeout,
  BenchConfig, ConnStats, GlobalMetrics,
}
use tlshub_ebpf.Bench.Metrics.{
  Resources, update_metrics, init_metrics, finalize_averages, finalize_metrics,
}
use tlshub_ebpf.Bench.Sockets.{TcpSockets}
use tlshub_ebpf.Bench.Client.{
  fresh_stats, run_single_connection, settle, run_connections, run_tcp_client,
}
use tlshub_ebpf.Bench.Finite.{IsFinite}
use tlshub_ebpf.Bench.Accounts.{closed_count, run_tcp_client-Accounted}
use tlshub_ebpf.Bench.Latency.{IsAmong, first, later, range_of, IsSound, counted, counted-Bounds}

abbrev is_closed : ConnState → Bool
is_closed closed = true
is_closed _ = false

is_closed-closed : (c : ConnState) → is_closed c ≡ true → c ≡ closed
is_closed-closed closed e = refl
is_closed-closed init e = cc
is_closed-closed connecting e = cc
is_closed-closed connected e = cc
is_closed-closed sending e = cc
is_closed-closed receiving e = cc
is_closed-closed closing e = cc
is_closed-closed failed e = cc
is_closed-closed timeout e = cc

closed_count_pos :
    {F : Type 0} (s : ConnStats F) (ss : List (ConnStats F))
    → IsAmong s ss
    → s.state ≡ closed
    → 0 < closed_count ss
unfolding closed_count
closed_count_pos s [] among e = elim among [ ]
closed_count_pos s (_ ∷ ss) first e = rw e (omega arith)
closed_count_pos s (d ∷ ss) (later among) e = omega (arith, closed_count_pos s ss among e)

module _ {F : Type 0} (fp : Doubles F) (o : IsOrder fp)
    (lt-IsNumber : (x y : F) → fp.lt x y ≡ true → o.IsNumber y) {W : Type 0} (sys : Clock W)
    (net : TcpSockets W) (res : Resources W) where
  -- The metrics of a run are those after its connections.
  abbrev RunCounts : GlobalMetrics F → Option (List (ConnStats F) × GlobalMetrics F × W) → Type 0
  RunCounts m none = Unit
  RunCounts m (some (ss, m', w)) = m' ≡ counted fp o lt-IsNumber m ss

  run_connections-counts :
      (n fuel : ℕ) (config : BenchConfig) (i : ℕ) (m : GlobalMetrics F) (w : W)
      → RunCounts m (run_connections fp sys net n fuel config i m w)
  unfolding run_connections counted
  run_connections-counts zero fuel config i m w = refl
  run_connections-counts (suc n) fuel config i m w =
      one (run_single_connection fp sys net fuel config (fresh_stats fp (i + 1)) w)
        (run_connections fp sys net n fuel config (i + 1))
        (run_connections-counts n fuel config (i + 1))
    where
      prepended :
          (s : ConnStats F) (r : Option (List (ConnStats F) × GlobalMetrics F × W))
          → RunCounts (update_metrics fp m s) r
          → RunCounts m (elim r [ none ↦ none | some (ss, m', w') ↦ some (s ∷ ss, m', w') ])
      prepended s none counts = tt
      prepended s (some (ss, m', w')) counts = counts

      one :
          (r : Option (ℤ × ConnStats F × W))
          (others : GlobalMetrics F → W → Option (List (ConnStats F) × GlobalMetrics F × W))
          → ((m' : GlobalMetrics F) (w' : W) → RunCounts m' (others m' w'))
          → RunCounts m (elim r [
            | none ↦ none
            | some x ↦
                elim (others (update_metrics fp m (settle fp sys net x)) (net.usleep 10000 x.2)) [
                  | none ↦ none
                  | some (ss, m', w') ↦ some (settle fp sys net x ∷ ss, m', w')
                ]
          ])
      one none others every = tt
      one (some x) others every =
          prepended (settle fp sys net x)
            (others (update_metrics fp m (settle fp sys net x)) (net.usleep 10000 x.2))
            (every (update_metrics fp m (settle fp sys net x)) (net.usleep 10000 x.2))

  run_tcp_client-counts :
      (fuel : ℕ) (config : BenchConfig) (m : GlobalMetrics F) (w : W)
      → RunCounts m (run_tcp_client fp sys net fuel config m w)
  unfolding run_tcp_client
  run_tcp_client-counts fuel config m w =
      run_connections-counts config.total_connections fuel config 0 m w

  -- With a success the averages leave the range as it is.
  finalize_metrics-range :
      (m : GlobalMetrics F) (w : W)
      → 0 < m.successful_connections
      → range_of (finalize_metrics fp sys res m w).0 ≡ range_of m
  unfolding finalize_metrics finalize_averages
  finalize_metrics-range m w h =
      let e = lt→ltb 0 m.successful_connections h in rw (finalize_averages, e) refl

  init_metrics-IsSound : (w : W) → IsSound fp o lt-IsNumber (range_of (init_metrics fp sys res w).0)
  unfolding init_metrics
  init_metrics-IsSound w = record {
    least_number = o.of_ℕ-IsNumber 999999;
    greatest_number = o.of_ℕ-IsNumber 0;
  }

  -- The connection was not closed properly, or its latency is not above zero, or that latency lies between the
  -- minimum and the maximum of `m`.
  abbrev Covered : GlobalMetrics F → ConnStats F → Type 0
  Covered m s =
      (is_closed s.state ≡ false)
      ⊎ ((fp.lt (fp.of_ℕ 0) s.connection_latency_ms ≡ false)
          ⊎ LiesBetween fp s.connection_latency_ms m.min_connection_latency_ms
              m.max_connection_latency_ms)

  abbrev pub AllCovered : GlobalMetrics F → List (ConnStats F) → Type 0
  AllCovered m [] = Unit
  AllCovered m (s ∷ ss) = Covered m s × AllCovered m ss

  collected :
      (m : GlobalMetrics F) (ss : List (ConnStats F))
      → ((s : ConnStats F) → IsAmong s ss → Covered m s)
      → AllCovered m ss
  collected m [] every = tt
  collected m (s ∷ ss) every = (every s first, collected m ss (λ d among. every d (later among)))

  among_Covered :
      (w w2 : W) (m' : GlobalMetrics F) (ss : List (ConnStats F)) (s : ConnStats F)
      → m' ≡ counted fp o lt-IsNumber (init_metrics fp sys res w).0 ss
      → m'.successful_connections
        ≡ (init_metrics fp sys res w).0.successful_connections + closed_count ss
      → IsAmong s ss
      → Covered (finalize_metrics fp sys res m' w2).0 s
  among_Covered w w2 m' ss s counts successes among = elim (Bool-cases (is_closed s.state)) [
    | inr e ↦ inl e
    | inl e ↦ elim (Bool-cases (fp.lt (fp.of_ℕ 0) s.connection_latency_ms)) [
      | inr l ↦ inr (inl l)
      | inl l ↦
          let state = is_closed-closed s.state e in
          let some_closed = closed_count_pos s ss among state in
          let kept = finalize_metrics-range m' w2 (omega arith) in
          let bounds =
            counted-Bounds fp o lt-IsNumber s (init_metrics fp sys res w).0 ss
              (init_metrics-IsSound w) among state l in
          inr (
            inr (
              subst (λ x. LiesBetween fp s.connection_latency_ms x.least x.greatest)
                (sym (kept ∙ ap range_of counts)) bounds))
    ]
  ]

  -- With fuel for the data and for the budget of bytes to come and of signals, a run that begins with
  -- `init_metrics` ends, and each of its connections that was closed properly with a latency above zero has that
  -- latency between the minimum and the maximum that `finalize_metrics` leaves. The comparison of doubles is an
  -- order on the values that are no NaN, and nothing is below a NaN.
  pub run-AllCovered :
      (budget : W → ℕ) (finite : IsFinite sys net budget) (fuel : ℕ) (config : BenchConfig)
      (w w' : W)
      → config.data_size + budget w' < fuel
      → (r : List (ConnStats F) × GlobalMetrics F × W) × (run_tcp_client fp sys net fuel config
            (init_metrics fp sys res w).0
            w'
          ≡ some r)
        × AllCovered (finalize_metrics fp sys res r.1 r.2).0 r.0
  run-AllCovered budget finite fuel config w w' enough =
      let m = (init_metrics fp sys res w).0 in
      let (r, run, size, accounts) =
        run_tcp_client-Accounted fp sys net budget finite fuel config m w' enough in
      let counts = rw run at (run_tcp_client-counts fuel config m w') in
      (
        r,
        run,
        collected (finalize_metrics fp sys res r.1 r.2).0 r.0
            (λ s among. among_Covered w r.2 r.1 r.0 s counts accounts.1 among),
      )
