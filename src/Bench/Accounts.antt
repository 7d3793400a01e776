-- ===== src/Bench/Accounts.antt =====
-- What `run_tcp_client` records in the metrics of bench/src/bench_common.c.
use tlshub_ebpf.Base.{
  ℕ, zero, suc, ◌+◌, ◌%◌, ◌^◌, ap, negsuc, ◌<◌, ◌≡◌, refl, ◌∙◌, ◌⊎◌, inl, inr, ℤ, pos, some, List,
  [], ◌∷◌, length, Bool-cases, arith,
}
use tlshub_ebpf.Metrics.Types.{Doubles, Clock}
use tlshub_ebpf.Bench.Types.{BenchConfig, ConnState, closed, failed, ConnStats, GlobalMetrics}
use tlshub_ebpf.Bench.Metrics.{
  count_latency, count_throughput, count_success, count_state, update_metrics,
}
use tlshub_ebpf.Bench.Sockets.{TcpSockets}
use tlshub_ebpf.Bench.Client.{fresh_stats, settle, run_connections, run_tcp_client}
use tlshub_ebpf.Bench.Finite.{IsFinite}
use tlshub_ebpf.Bench.Outcome.{Ended, run_single_connection_ends}

-- The connections of a list that ended in the state `closed`, and in `failed`.
abbrev as_closed : ConnState → ℕ
as_closed closed = 1
as_closed _ = 0

abbrev as_failed : ConnState → ℕ
as_failed failed = 1
as_failed _ = 0

-- A number that counts for a closed connection only.
abbrev if_closed : ConnState → ℕ → ℕ
if_closed closed n = n
if_closed _ n = 0

total_later :
    (t b s t1 t2 : ℕ)
    → t1 % 2 ^ 64 ≡ (t + b) % 2 ^ 64
    → t2 % 2 ^ 64 ≡ (t1 + s) % 2 ^ 64
    → t2 % 2 ^ 64 ≡ (t + (b + s)) % 2 ^ 64
total_later t b s t1 t2 e e' = omega arith

module _ {F : Type 0} where
  unfoldable pub closed_count : List (ConnStats F) → ℕ
  closed_count [] = 0
  closed_count (s ∷ ss) = as_closed s.state + closed_count ss

  pub failed_count : List (ConnStats F) → ℕ
  failed_count [] = 0
  failed_count (s ∷ ss) = as_failed s.state + failed_count ss

  -- The bytes sent over the closed connections, and those received.
  pub bytes_sent_by : List (ConnStats F) → ℕ
  bytes_sent_by [] = 0
  bytes_sent_by (s ∷ ss) = if_closed s.state s.bytes_sent + bytes_sent_by ss

  pub bytes_received_by : List (ConnStats F) → ℕ
  bytes_received_by [] = 0
  bytes_received_by (s ∷ ss) = if_closed s.state s.bytes_received + bytes_received_by ss

  -- From the counters of `m` to those of `m'`, for the connections `ss`.
  abbrev pub Accounted : GlobalMetrics F → List (ConnStats F) → GlobalMetrics F → Type 0
  Accounted m ss m' =
      (m'.total_connections ≡ m.total_connections + length ss)
      × (m'.successful_connections ≡ m.successful_connections + closed_count ss)
      × (m'.failed_connections ≡ m.failed_connections + failed_count ss)
      × (closed_count ss + failed_count ss ≡ length ss)
      × (m'.timeout_connections ≡ m.timeout_connections)
      × (m'.total_bytes_sent % 2 ^ 64 ≡ (m.total_bytes_sent + bytes_sent_by ss) % 2 ^ 64)
      × (m'.total_bytes_received % 2 ^ 64
          ≡ (m.total_bytes_received + bytes_received_by ss) % 2 ^ 64)

  -- One connection, closed or failed.
  abbrev Counted : GlobalMetrics F → ConnStats F → GlobalMetrics F → Type 0
  Counted m s m' =
      (m'.total_connections ≡ m.total_connections + 1)
      × (m'.successful_connections ≡ m.successful_connections + as_closed s.state)
      × (m'.failed_connections ≡ m.failed_connections + as_failed s.state)
      × (as_closed s.state + as_failed s.state ≡ 1)
      × (m'.timeout_connections ≡ m.timeout_connections)
      × (m'.total_bytes_sent % 2 ^ 64
          ≡ (m.total_bytes_sent + if_closed s.state s.bytes_sent) % 2 ^ 64)
      × (m'.total_bytes_received % 2 ^ 64
          ≡ (m.total_bytes_received + if_closed s.state s.bytes_received) % 2 ^ 64)

  -- The counters are equal.
  abbrev pub SameCounts : GlobalMetrics F → GlobalMetrics F → Type 0
  SameCounts m m' =
      (m'.total_connections ≡ m.total_connections)
      × (m'.successful_connections ≡ m.successful_connections)
      × (m'.failed_connections ≡ m.failed_connections)
      × (m'.timeout_connections ≡ m.timeout_connections)
      × (m'.total_bytes_sent ≡ m.total_bytes_sent)
      × (m'.total_bytes_received ≡ m.total_bytes_received)

  Accounted-later :
      (m : GlobalMetrics F) (s : ConnStats F) (m1 : GlobalMetrics F) (ss : List (ConnStats F))
      (m2 : GlobalMetrics F)
      → Counted m s m1
      → Accounted m1 ss m2
      → Accounted m (s ∷ ss) m2
  unfolding closed_count failed_count bytes_sent_by bytes_received_by
  Accounted-later m s m1 ss m2 (t, c, f, one, o, b, r) (t', c', f', all, o', b', r') = (
    omega arith,
    omega arith,
    omega arith,
    omega arith,
    o' ∙ o,
    total_later m.total_bytes_sent (if_closed s.state s.bytes_sent) (bytes_sent_by ss)
        m1.total_bytes_sent m2.total_bytes_sent b b',
    total_later m.total_bytes_received (if_closed s.state s.bytes_received) (bytes_received_by ss)
        m1.total_bytes_received m2.total_bytes_received r r',
  )

module _ {F : Type 0} (fp : Doubles F) where
  count_latency-SameCounts : (x : F) (m : GlobalMetrics F) → SameCounts m (count_latency fp x m)
  unfolding count_latency
  count_latency-SameCounts x m = elim (Bool-cases (fp.lt (fp.of_ℕ 0) x)) [
    | inl e ↦ rw (count_latency, e) (refl, refl, refl, refl, refl, refl)
    | inr e ↦ rw (count_latency, e) (refl, refl, refl, refl, refl, refl)
  ]

  count_throughput-SameCounts :
      (x : F) (m : GlobalMetrics F) → SameCounts m (count_throughput fp x m)
  unfolding count_throughput
  count_throughput-SameCounts x m = elim (Bool-cases (fp.lt (fp.of_ℕ 0) x)) [
    | inl e ↦ rw (count_throughput, e) (refl, refl, refl, refl, refl, refl)
    | inr e ↦ rw (count_throughput, e) (refl, refl, refl, refl, refl, refl)
  ]

  count_success_lem :
      (s : ConnStats F) (m : GlobalMetrics F)
      → ((count_success fp s m).total_connections ≡ m.total_connections)
        × ((count_success fp s m).successful_connections ≡ m.successful_connections + 1)
        × ((count_success fp s m).failed_connections ≡ m.failed_connections)
        × ((count_success fp s m).timeout_connections ≡ m.timeout_connections)
        × ((count_success fp s m).total_bytes_sent ≡ (m.total_bytes_sent + s.bytes_sent) % 2 ^ 64)
        × ((count_success fp s m).total_bytes_received
            ≡ (m.total_bytes_received + s.bytes_received) % 2 ^ 64)
  unfolding count_success
  count_success_lem s m =
      let m1 = record m {
        successful_connections = m.successful_connections + 1;
        total_bytes_sent = (m.total_bytes_sent + s.bytes_sent) % 2 ^ 64;
        total_bytes_received = (m.total_bytes_received + s.bytes_received) % 2 ^ 64;
      } in
      let (t, c, f, o, b, r) = count_latency-SameCounts s.connection_latency_ms m1 in
      let (t', c', f', o', b', r') =
        count_throughput-SameCounts s.throughput_mbps
          (count_latency fp s.connection_latency_ms m1) in
      (t' ∙ t, c' ∙ c, f' ∙ f, o' ∙ o, b' ∙ b, r' ∙ r)

  update_metrics-Counted :
      (m : GlobalMetrics F) (s : ConnStats F)
      → (s.state ≡ closed) ⊎ (s.state ≡ failed)
      → Counted m s (update_metrics fp m s)
  unfolding update_metrics count_state
  update_metrics-Counted m s (inl e) =
      let (t, c, f, o, b, r) =
        count_success_lem s (record m { total_connections = m.total_connections + 1 }) in
      rw (update_metrics, e) (t, c, omega arith, refl, o, omega arith, omega arith)
  update_metrics-Counted m s (inr e) =
      rw (update_metrics, e) (refl, omega arith, refl, refl, refl, omega arith, omega arith)

  module _ {W : Type 0} (sys : Clock W) (net : TcpSockets W) (budget : W → ℕ)
      (finite : IsFinite sys net budget) where
    settle-IsSettled :
        (o : ℤ × ConnStats F × W)
        → Ended o
        → ((settle fp sys net o).state ≡ closed) ⊎ ((settle fp sys net o).state ≡ failed)
    unfolding settle
    settle-IsSettled (pos zero, s, w) (inl (z, e)) = inl e
    settle-IsSettled (pos zero, s, w) (inr e) = absurd (cc)
    settle-IsSettled (pos (suc n), s, w) e = inr refl
    settle-IsSettled (negsuc n, s, w) e = inr refl

    run_connections-Accounted :
        (n fuel : ℕ) (config : BenchConfig) (i : ℕ) (m : GlobalMetrics F) (w : W)
        → config.data_size + budget w < fuel
        → (o : List (ConnStats F) × GlobalMetrics F × W) × (run_connections fp sys net n fuel config
              i m w
            ≡ some o)
          × (length o.0 ≡ n)
          × Accounted m o.0 o.1
    unfolding run_connections closed_count failed_count bytes_sent_by bytes_received_by
    run_connections-Accounted zero fuel config i m w enough = (
      ([], m, w),
      refl,
      refl,
      (omega arith, omega arith, omega arith, refl, refl, omega arith, omega arith),
    )
    run_connections-Accounted (suc n) fuel config i m w enough =
        let (o, run, le, ended) =
          run_single_connection_ends fp sys net budget finite fuel config (fresh_stats fp (i + 1)) w
            enough in
        let counted = update_metrics-Counted m (settle fp sys net o) (settle-IsSettled o ended) in
        let slept = finite.usleep_le 10000 o.2 in
        let (rest, run', size, accounted) =
          run_connections-Accounted n fuel config (i + 1)
            (update_metrics fp m (settle fp sys net o)) (net.usleep 10000 o.2) (omega arith) in
        (
          (settle fp sys net o ∷ rest.0, rest.1, rest.2),
          rw (run_connections, run, run') refl,
          ap suc size,
          Accounted-later m (settle fp sys net o) (update_metrics fp m (settle fp sys net o)) rest.0
              rest.1 counted accounted,
        )

    -- With fuel for the data and for the budget of bytes to come and of signals, `run_tcp_client` ends. It
    -- records one connection for each that was asked for, each closed or failed; the counters of all, of
    -- successful and of failed connections grow by the numbers of these, and the totals of bytes by what the
    -- closed ones sent and received, modulo 2^64; the counter of timeouts stays.
    pub run_tcp_client-Accounted :
        (fuel : ℕ) (config : BenchConfig) (m : GlobalMetrics F) (w : W)
        → config.data_size + budget w < fuel
        → (o : List (ConnStats F) × GlobalMetrics F × W) × (run_tcp_client fp sys net fuel config m
              w
            ≡ some o)
          × (length o.0 ≡ config.total_connections)
          × Accounted m o.0 o.1
    unfolding run_tcp_client
    run_tcp_client-Accounted fuel config m w enough =
        run_connections-Accounted config.total_connections fuel config 0 m w enough
