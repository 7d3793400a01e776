-- ===== src/Metrics/Table/Moves.antt =====
-- How each call changes the counts of the table.
use tlshub_ebpf.Base.{
  ℕ, ◌+◌, ◌%◌, ◌^◌, ◌≤◌, ◌<◌, ◌≡◌, refl, inl, inr, Option, some, ltb, leb, length, length-set,
  get_or, set, take, ℤ, pos, negsuc, List, is_zero, Bool-cases, Option-cases, arith,
}
use tlshub_ebpf.Metrics.Types.{
  Doubles, Clock, Timespec, ConnectionMetrics, SystemMetrics, PerformanceStats, CpuStat,
  PerfMetrics,
}
use tlshub_ebpf.Metrics.Init.{zero_connection}
use tlshub_ebpf.Metrics.Record.{
  perf_metrics_set_enabled, connection_start_in, perf_metrics_connection_start, is_tracked,
  index_of, on_connection, perf_metrics_connection_latency_start,
  perf_metrics_connection_latency_end, perf_metrics_key_negotiation_start,
  perf_metrics_key_negotiation_end, perf_metrics_record_data_transfer, start_latency, end_latency,
  start_negotiation, end_negotiation, transfer, count_end, end_active, new_connection,
  end_connection, perf_metrics_connection_end, set_at, int_of,
}
use tlshub_ebpf.Metrics.Proc.{read_cpu_stat, read_memory_usage}
use tlshub_ebpf.Metrics.System.{
  ProcFiles, calculate_cpu_usage, update_cpu, update_memory, finish_update, update_in,
  perf_metrics_update_system,
}
use tlshub_ebpf.Metrics.Stats.{
  add_connections, empty_summary, store_summary, perf_metrics_calculate_stats,
}
use tlshub_ebpf.Metrics.Table.{
  Call, set_enabled, connection_start, latency_start, latency_end, negotiation_start,
  negotiation_end, data_transfer, connection_end, update_system, calculate_stats, IsWellFormed,
  IsFull, call,
}

module _ {ℓ} {W F : Type ℓ} (sys : Clock W) (proc : ProcFiles W) (fp : Doubles F) where
  -- How the fields that count connections may change in one call.
  pub data Moves (ctx : PerfMetrics F) : PerfMetrics F → Type ℓ where
    keeps :
        {ctx' : PerfMetrics F}
        → length ctx'.conn_metrics ≡ length ctx.conn_metrics
        → ctx'.max_connections ≡ ctx.max_connections
        → ctx'.current_connections ≡ ctx.current_connections
        → ctx'.stats.total_connections ≡ ctx.stats.total_connections
        → ctx'.system_metrics.active_connections ≤ ctx.system_metrics.active_connections
        → Moves ctx ctx'
    starts :
        {ctx' : PerfMetrics F}
        → ctx.current_connections < ctx.max_connections
        → length ctx'.conn_metrics ≡ length ctx.conn_metrics
        → ctx'.max_connections ≡ ctx.max_connections
        → ctx'.current_connections ≡ (ctx.current_connections + 1) % 2 ^ 32
        → ctx'.stats.total_connections ≡ (ctx.stats.total_connections + 1) % 2 ^ 64
        → ctx'.system_metrics.active_connections
          ≡ (ctx.system_metrics.active_connections + 1) % 2 ^ 32
        → Moves ctx ctx'

  pub Moves-IsWellFormed :
      (ctx ctx' : PerfMetrics F) → Moves ctx ctx' → IsWellFormed ctx → IsWellFormed ctx'
  Moves-IsWellFormed ctx ctx' (keeps l m c t a) f = record {
    slots = omega (arith, f.slots);
    capacity = omega (arith, f.capacity);
    counted = omega (arith, f.counted);
    active = omega (arith, f.active);
    small = omega (arith, f.small);
  }
  Moves-IsWellFormed ctx ctx' (starts r l m c t a) f =
      let cur : ctx'.current_connections ≡ ctx.current_connections + 1 = omega (arith, f.small) in
      let tot : ctx'.stats.total_connections ≡ ctx.current_connections + 1 =
        omega (arith, f.small, f.counted) in
      record {
        slots = omega (arith, f.slots);
        capacity = omega (arith, f.capacity, cur);
        counted = omega (arith, cur, tot);
        active = omega (arith, f.active, f.small, cur);
        small = omega (arith, f.small);
      }

  pub Moves-max :
      (ctx ctx' : PerfMetrics F) → Moves ctx ctx' → ctx'.max_connections ≡ ctx.max_connections
  Moves-max ctx ctx' (keeps l m c t a) = m
  Moves-max ctx ctx' (starts r l m c t a) = m

  pub Moves-IsFull : (ctx ctx' : PerfMetrics F) → Moves ctx ctx' → IsFull ctx → IsFull ctx'
  Moves-IsFull ctx ctx' (keeps l m c t a) f = omega arith
  Moves-IsFull ctx ctx' (starts r l m c t a) f = absurd (omega arith)

  pub still : (ctx : PerfMetrics F) → Moves ctx ctx
  still ctx = keeps refl refl refl refl (omega arith)

  -- The context that a call leaves, and how it differs.
  abbrev pub Moved : PerfMetrics F → Option (PerfMetrics F) → Type ℓ
  Moved ctx c = (ctx' : PerfMetrics F) × (c ≡ some ctx') × Moves ctx ctx'

  pub on_connection-Moved :
      (f : ConnectionMetrics F → W → ConnectionMetrics F × W) (ctx : PerfMetrics F) (i : ℤ) (w : W)
      → Moved ctx (on_connection sys fp f (some ctx) i w).0
  unfolding on_connection
  on_connection-Moved f ctx i w =
      let cms =
        set ctx.conn_metrics (index_of sys fp i)
          ((f (get_or ctx.conn_metrics (index_of sys fp i) (zero_connection sys fp)) w).0) in
      elim (Bool-cases (is_tracked sys fp ctx i)) [
        | inl e ↦ (
          record ctx { conn_metrics = cms },
          rw e refl,
          keeps
              (length-set ctx.conn_metrics (index_of sys fp i)
                ((f (get_or ctx.conn_metrics (index_of sys fp i) (zero_connection sys fp)) w).0))
              refl refl refl (omega arith),
        )
        | inr e ↦ (ctx, rw e refl, still ctx)
      ]

  length-set_at :
      (xs : List (ConnectionMetrics F)) (i : ℤ) (v : ConnectionMetrics F)
      → length (set_at xs i v) ≡ length xs
  length-set_at xs (pos i) v = length-set xs i v
  length-set_at xs (negsuc i) v = refl

  pub new-Moves :
      (ctx : PerfMetrics F) (id : ℕ)
      → ctx.current_connections < ctx.max_connections
      → Moves ctx (new_connection sys fp ctx id)
  unfolding new_connection
  new-Moves ctx id room =
      starts room (length-set_at ctx.conn_metrics (int_of ctx.current_connections) _) refl refl refl
        refl

  pub start-Moved :
      (ctx : PerfMetrics F) (id : ℕ)
      → Moved ctx (perf_metrics_connection_start sys fp (some ctx) id).1
  unfolding perf_metrics_connection_start connection_start_in
  start-Moved ctx id = elim (Bool-cases (is_zero ctx.monitoring_enabled)) [
    | inl e ↦ (ctx, rw e refl, still ctx)
    | inr e ↦ elim (Bool-cases (leb ctx.max_connections ctx.current_connections)) [
      | inl e1 ↦ (ctx, rw (e, e1) refl, still ctx)
      | inr e1 ↦
          (new_connection sys fp ctx id, rw (e, e1) refl, new-Moves ctx id (ground (arith, e1)))
    ]
  ]

  pub count_end-total :
      (b : ℤ) (s : PerformanceStats F)
      → (count_end sys fp b s).total_connections ≡ s.total_connections
  unfolding count_end
  count_end-total b s = elim (Bool-cases (is_zero b)) [ inl e ↦ rw e refl | inr e ↦ rw e refl ]

  pub end_active-le :
      (m : SystemMetrics F) → (end_active sys fp m).active_connections ≤ m.active_connections
  unfolding end_active
  end_active-le m = elim (Bool-cases (ltb 0 m.active_connections)) [
    | inl e ↦ rw e (omega arith)
    | inr e ↦ rw e (omega arith)
  ]

  pub set-Moved :
      (b : ℤ) (ctx : PerfMetrics F) → Moved ctx (perf_metrics_set_enabled sys fp (some ctx) b)
  unfolding perf_metrics_set_enabled
  set-Moved b ctx =
      (record ctx { monitoring_enabled = b }, refl, keeps refl refl refl refl (omega arith))

  pub summary-Moved : (ctx : PerfMetrics F) → Moved ctx (perf_metrics_calculate_stats fp (some ctx))
  unfolding perf_metrics_calculate_stats store_summary
  summary-Moved ctx = (
    store_summary fp
        (add_connections fp (take ctx.current_connections ctx.conn_metrics) (empty_summary fp)) ctx,
    refl,
    keeps refl refl refl refl (omega arith),
  )

  pub end-Moved :
      (ctx : PerfMetrics F) (i b : ℤ)
      → Moved ctx (perf_metrics_connection_end sys fp (some ctx) i b)
  unfolding perf_metrics_connection_end end_connection
  end-Moved ctx i b = elim (Bool-cases (is_tracked sys fp ctx i)) [
    | inr e ↦ (ctx, rw e refl, still ctx)
    | inl e ↦ (
      end_connection sys fp b ctx,
      rw e refl,
      keeps refl refl refl (count_end-total b ctx.stats) (end_active-le ctx.system_metrics),
    )
  ]

  pub cpu-Moves :
      (curr : CpuStat) (ctx : PerfMetrics F) → Moves ctx (update_cpu sys proc fp curr ctx)
  unfolding update_cpu
  cpu-Moves curr ctx = elim (Bool-cases ctx.cpu_first_call) [
    | inl e ↦ rw e (keeps refl refl refl refl (omega arith))
    | inr e ↦
        elim (Bool-cases (
          fp.lt ctx.stats.peak_cpu_usage
            (calculate_cpu_usage sys proc fp ctx.prev_cpu_stat curr))) [
              | inl e1 ↦ rw (e, e1) (keeps refl refl refl refl (omega arith))
              | inr e1 ↦ rw (e, e1) (keeps refl refl refl refl (omega arith))
            ]
  ]

  pub memory-Moves :
      (usage : ℕ × ℕ) (now : Timespec) (before ctx : PerfMetrics F)
      → Moves before ctx
      → Moves before (update_memory sys proc fp usage now ctx)
  unfolding update_memory
  memory-Moves usage now before ctx (keeps l m c t a) =
      elim (Bool-cases (ltb ctx.stats.peak_memory_usage_kb usage.0)) [
        | inl e ↦ rw e (keeps l m c t a)
        | inr e ↦ rw e (keeps l m c t a)
      ]
  memory-Moves usage now before ctx (starts r l m c t a) =
      elim (Bool-cases (ltb ctx.stats.peak_memory_usage_kb usage.0)) [
        | inl e ↦ rw e (starts r l m c t a)
        | inr e ↦ rw e (starts r l m c t a)
      ]

  pub finish-Moved :
      (before ctx : PerfMetrics F) (w : W)
      → Moves before ctx
      → Moved before (some ((finish_update sys proc fp ctx w).1))
  unfolding finish_update
  finish-Moved before ctx w moves =
      let status = (proc.status_file w).0 in
      let w1 = (proc.status_file w).1 in
      elim (Option-cases (read_memory_usage status)) [
        | inl e ↦ (ctx, rw (finish_update, e) refl, moves)
        | inr (usage, e) ↦ (
          update_memory sys proc fp usage ((sys.gettime w1).0) ctx,
          rw (finish_update, e) refl,
          memory-Moves usage ((sys.gettime w1).0) before ctx moves,
        )
      ]

  pub update-Moved :
      (ctx : PerfMetrics F) (w : W)
      → Moved ctx (perf_metrics_update_system sys proc fp (some ctx) w).1
  unfolding perf_metrics_update_system update_in
  update-Moved ctx w =
      let stat = (proc.stat_file w).0 in
      let w1 = (proc.stat_file w).1 in
      elim (Bool-cases (is_zero ctx.monitoring_enabled)) [
        | inl e ↦ (ctx, rw e refl, still ctx)
        | inr e ↦ elim (Option-cases (read_cpu_stat stat)) [
          | inl e1 ↦ (ctx, rw (e, e1) refl, still ctx)
          | inr (curr, e1) ↦
              rw (e, e1)
                (finish-Moved ctx (update_cpu sys proc fp curr ctx) w1 (cpu-Moves curr ctx))
        ]
      ]

  pub call-Moved :
      (k : Call) (ctx : PerfMetrics F) (w : W) → Moved ctx (call sys proc fp k (some ctx) w).0
  unfolding call perf_metrics_connection_latency_start perf_metrics_connection_latency_end
      perf_metrics_key_negotiation_start perf_metrics_key_negotiation_end
      perf_metrics_record_data_transfer
  call-Moved (set_enabled b) ctx w = set-Moved b ctx
  call-Moved (connection_start id) ctx w = start-Moved ctx id
  call-Moved (latency_start i) ctx w = on_connection-Moved (start_latency sys fp) ctx i w
  call-Moved (latency_end i) ctx w = on_connection-Moved (end_latency sys fp) ctx i w
  call-Moved (negotiation_start i) ctx w = on_connection-Moved (start_negotiation sys fp) ctx i w
  call-Moved (negotiation_end i) ctx w = on_connection-Moved (end_negotiation sys fp) ctx i w
  call-Moved (data_transfer s r i) ctx w = on_connection-Moved (transfer sys fp s r) ctx i w
  call-Moved (connection_end i b) ctx w = end-Moved ctx i b
  call-Moved update_system ctx w = update-Moved ctx w
  call-Moved calculate_stats ctx w = summary-Moved ctx
