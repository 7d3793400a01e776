-- ===== src/Bench/CpuUsage.antt =====
-- `get_cpu_usage` of bench/src/bench_common.c, which keeps the figures of its last call. Nothing calls it.
use tlshub_ebpf.Base.{
  ℕ, ◌+◌, ◌%◌, ◌^◌, Option, none, some, List, [], ◌∷◌, ◌++◌, Bytes, ◌==◌, ltb, if◌then◌else◌, drop,
}
use tlshub_ebpf.Stdio.{skip_space, word}
use tlshub_ebpf.Metrics.Types.{Doubles}
use tlshub_ebpf.Metrics.Proc.{scan_numbers}
use tlshub_ebpf.Metrics.System.{minus_u64}

-- The static variables `prev_user` to `prev_steal`, and the numbers read.
pub record CpuTimes : Type 0 where
  pub user : ℕ
  pub nice : ℕ
  pub system : ℕ
  pub idle : ℕ
  pub iowait : ℕ
  pub irq : ℕ
  pub softirq : ℕ
  pub steal : ℕ

cpu_times_of : List ℕ → Option CpuTimes
cpu_times_of (user ∷ nice ∷ system ∷ idle ∷ iowait ∷ irq ∷ softirq ∷ steal ∷ []) = some (record {
  user = user;
  nice = nice;
  system = system;
  idle = idle;
  iowait = iowait;
  irq = irq;
  softirq = softirq;
  steal = steal;
})
cpu_times_of _ = none

-- What follows a label of at most 15 bytes; `none` if there is no label.
after_label : Bytes × Bytes → Option Bytes
after_label ([], rest) = none
after_label (c ∷ cs, rest) = some (drop 15 (c ∷ cs) ++ rest)

-- `fscanf(fp, "%15s %llu …", …) == 9` on the bytes of the file.
unfoldable pub scan_cpu_times : Bytes → Option CpuTimes
unfolding cpu_times_of after_label
scan_cpu_times s = elim (after_label (word (skip_space s))) [
  | none ↦ none
  | some rest ↦ elim (scan_numbers 8 rest) [ none ↦ none | some xs ↦ cpu_times_of xs ]
]

unfoldable pub all_times : CpuTimes → ℕ
all_times t =
    (t.user + t.nice + t.system + t.idle + t.iowait + t.irq + t.softirq + t.steal) % 2 ^ 64

module _ {ℓ} {F : Type ℓ} (fp : Doubles F) where
  unfoldable pub cpu_percent : CpuTimes → CpuTimes → F
  unfolding minus_u64 all_times
  cpu_percent prev now =
      let total_diff = minus_u64 (all_times now) (all_times prev) in
      let idle_diff =
        minus_u64 ((now.idle + now.iowait) % 2 ^ 64) ((prev.idle + prev.iowait) % 2 ^ 64) in
      if ltb 0 total_diff
      then fp.mul (fp.div (fp.of_ℕ (minus_u64 total_diff idle_diff)) (fp.of_ℕ total_diff))
          (fp.of_ℕ 100)
      else fp.of_ℕ 0

  -- `get_cpu_usage(cpu_percent)`, from the bytes of /proc/stat if it can be opened.
  unfoldable pub get_cpu_usage : Option Bytes → CpuTimes → F × CpuTimes
  unfolding scan_cpu_times cpu_percent
  get_cpu_usage none prev = (fp.of_ℕ 0, prev)
  get_cpu_usage (some bytes) prev = elim (scan_cpu_times bytes) [
    | none ↦ (fp.of_ℕ 0, prev)
    | some now ↦ (if prev.user == 0 then fp.of_ℕ 0 else cpu_percent prev now, now)
  ]
