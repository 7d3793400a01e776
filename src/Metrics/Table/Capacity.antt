-- ===== src/Metrics/Table/Capacity.antt =====
-- The table of connections of capture/src/performance_metrics.c and its slots after a sequence of calls.
use tlshub_ebpf.Base.{
  ℕ, ◌^◌, ◌<◌, ◌≤◌, ◌≡◌, refl, inl, inr, true, some, List, [], ◌∷◌, leb, length-replicate,
  minus_one, pos, length, is_zero, Bool-cases, arith,
}
use tlshub_ebpf.Metrics.Types.{Doubles, Clock, PerfMetrics}
use tlshub_ebpf.Metrics.Init.{perf_metrics_init, zero_connection}
use tlshub_ebpf.Metrics.Record.{perf_metrics_connection_start, connection_start_in, int_of}
use tlshub_ebpf.Metrics.System.{ProcFiles}
use tlshub_ebpf.Metrics.Table.{Call, call, calls, IsWellFormed, IsFull}
use tlshub_ebpf.Metrics.Table.Moves.{Moves, call-Moved, Moves-IsWellFormed, Moves-max, Moves-IsFull}

-- The array and the counts are as they should be, and while a slot is left, the index of the next connection
-- is the number of those in use and within the array.
abbrev pub IsUsable {ℓ} : {F : Type ℓ} → PerfMetrics F → Type 0
IsUsable ctx =
    IsWellFormed ctx
    × (ctx.current_connections < ctx.max_connections
        → (int_of ctx.current_connections ≡ pos ctx.current_connections)
          × (ctx.current_connections < length ctx.conn_metrics))

int_of-small : (n : ℕ) → n < 2 ^ 31 → int_of n ≡ pos n
unfolding int_of
int_of-small n h = ground (arith, h)

module _ {ℓ} {W F : Type ℓ} (sys : Clock W) (proc : ProcFiles W) (fp : Doubles F) where
  -- A property of the context that every call keeps holds after a sequence of calls.
  calls-kept :
      {P : PerfMetrics F → Type 0}
      → ((ctx ctx' : PerfMetrics F) → Moves sys proc fp ctx ctx' → P ctx → P ctx')
      → (ks : List Call) (ctx : PerfMetrics F) (w : W) → P ctx
      → (after : PerfMetrics F) × ((calls sys proc fp ks (some ctx) w).0 ≡ some after) × P after
  unfolding calls
  calls-kept step [] ctx w p = (ctx, refl, p)
  calls-kept step (k ∷ ks) ctx w p =
      let (ctx', e, moves) = call-Moved sys proc fp k ctx w in
      let (after, e', p') =
        calls-kept step ks ctx' ((call sys proc fp k (some ctx) w).1) (step ctx ctx' moves p) in
      (after, rw (calls, e) e', p')

  -- After `perf_metrics_init`, with both allocations made and a maximum of at most 2^31, and after any sequence of
  -- calls on the context: the array still has the maximum number of slots, no more connections than slots
  -- are in use, every connection ever counted is still in use, and no more are active than in use. While a slot
  -- is left, the number of the next one is not negative as an `int` and lies within the array.
  pub calls-IsWellFormed :
      (ks : List Call) (max : ℕ) (w : W)
      → max ≤ 2 ^ 31
      → (after : PerfMetrics F) × ((calls sys proc fp ks
            ((perf_metrics_init sys fp true true max w).0)
            ((perf_metrics_init sys fp true true max w).1)).0
          ≡ some after)
        × IsUsable after
  unfolding perf_metrics_init
  calls-IsWellFormed ks max w small =
      let (after, e, kept) =
        calls-kept {P = λ ctx. IsWellFormed ctx × (ctx.max_connections ≤ 2 ^ 31)}
          (λ ctx ctx' m (f, le).
            (Moves-IsWellFormed sys proc fp ctx ctx' m f, rw (Moves-max sys proc fp ctx ctx' m) le))
          ks _ ((sys.gettime w).1)
          (
            record {
              slots = length-replicate max (zero_connection sys fp);
              capacity = omega arith;
              counted = refl;
              active = omega arith;
              small = omega (arith, small);
            },
            small,
          ) in
      let (formed, max_le) = kept in
      (
        after,
        e,
        (
          formed,
          λ room. (int_of-small after.current_connections (omega arith), rw formed.slots room),
        ),
      )

  start_full :
      (ctx : PerfMetrics F) (id : ℕ)
      → IsFull ctx
      → (perf_metrics_connection_start sys fp (some ctx) id).0 ≡ minus_one
  unfolding perf_metrics_connection_start connection_start_in
  start_full ctx id full = elim (Bool-cases (is_zero ctx.monitoring_enabled)) [
    | inl e ↦ rw e refl
    | inr e ↦ rw (e, leb_full) refl
  ]
    where
      leb_full : leb ctx.max_connections ctx.current_connections ≡ true
      leb_full = ground (arith, full)

  -- Once every slot is in use, then after any sequence of calls on the context, ends of connections among
  -- them, `perf_metrics_connection_start` still returns -1.
  pub calls-start_full :
      (ks : List Call) (ctx : PerfMetrics F) (w : W) (id : ℕ)
      → IsFull ctx
      → (after : PerfMetrics F) × ((calls sys proc fp ks (some ctx) w).0 ≡ some after)
        × ((perf_metrics_connection_start sys fp (some after) id).0 ≡ minus_one)
  calls-start_full ks ctx w id full =
      let (after, e, still_full) = calls-kept (Moves-IsFull sys proc fp) ks ctx w full in
      (after, e, start_full after id still_full)
