-- ===== src/Metrics/Proc.antt =====
-- `read_cpu_stat` and `read_memory_usage` of capture/src/performance_metrics.c, over the contents of the
-- two files, with what they use of `sscanf`.
use tlshub_ebpf.Base.{
  ℕ, zero, suc, ◌+◌, ◌-◌, ◌*◌, ◌%◌, ◌^◌, Bool, ◌&&◌, Option, none, some, List, [], ◌∷◌, Bytes, ◌==◌,
  ltb, leb, if◌then◌else◌, length, take, drop, codes, str_eq,
}
use tlshub_ebpf.Stdio.{chunk, c_string, skip_space}
use tlshub_ebpf.Metrics.Types.{CpuStat}

abbrev pub is_digit : ℕ → Bool
is_digit c = leb b'0' c && leb c b'9'

-- The number that the digits spell behind the digits read so far, and the rest.
unfoldable pub digits : ℕ → Bytes → ℕ × Bytes
digits n [] = (n, [])
digits n (c ∷ cs) =
    let rest = digits (n * 10 + (c - b'0')) cs in if is_digit c then rest else (n, c ∷ cs)

-- A number above the range of `unsigned long long` is read as the largest one, with a sign as well.
unfoldable pub saturate : ℕ → ℕ
saturate n = if ltb n (2 ^ 64) then n else 2 ^ 64 - 1

unfoldable pub negate : ℕ → ℕ
negate n = if ltb n (2 ^ 64) then (2 ^ 64 - n) % 2 ^ 64 else 2 ^ 64 - 1

unsigned_digits : (ℕ → ℕ) → Bytes → Option (ℕ × Bytes)
unfolding digits
unsigned_digits value [] = none
unsigned_digits value (c ∷ cs) =
    let (n, rest) = digits 0 (c ∷ cs) in if is_digit c then some (value n, rest) else none

signed_digits : Bytes → Option (ℕ × Bytes)
unfolding unsigned_digits saturate negate
signed_digits [] = none
signed_digits (c ∷ cs) =
    if c == b'+'
    then unsigned_digits saturate cs
    else if c == b'-'
    then unsigned_digits negate cs
    else unsigned_digits saturate (c ∷ cs)

-- The conversion "%llu": spaces, a sign, digits.
unfoldable pub scan_llu : Bytes → Option (ℕ × Bytes)
unfolding signed_digits
scan_llu s = signed_digits (skip_space s)

-- `n` conversions "%llu" one behind the other; `none` if one of them fails.
unfoldable pub scan_numbers : ℕ → Bytes → Option (List ℕ)
scan_numbers zero s = some []
scan_numbers (suc n) s = elim (scan_llu s) [
  | none ↦ none
  | some (x, rest) ↦ elim (scan_numbers n rest) [ none ↦ none | some xs ↦ some (x ∷ xs) ]
]

cpu_stat_of : List ℕ → Option CpuStat
cpu_stat_of (user ∷ nice ∷ system ∷ idle ∷ iowait ∷ irq ∷ softirq ∷ []) = some (record {
  user = user;
  nice = nice;
  system = system;
  idle = idle;
  iowait = iowait;
  irq = irq;
  softirq = softirq;
})
cpu_stat_of _ = none

-- The line after the literal "cpu".
cpu_line : Bytes → Option CpuStat
unfolding cpu_stat_of
cpu_line s =
    if str_eq (take 3 s) (codes "cpu")
    then (elim (scan_numbers 7 (drop 3 s)) [ none ↦ none | some xs ↦ cpu_stat_of xs ])
    else none

first_line : Bytes → Option CpuStat
unfolding cpu_line
first_line [] = none
first_line (c ∷ cs) = cpu_line (c_string ((chunk 255 (c ∷ cs)).0))

-- `read_cpu_stat(stat)`, from the bytes of /proc/stat if it can be opened; `none` is the result -1.
unfoldable pub read_cpu_stat : Option Bytes → Option CpuStat
unfolding first_line
read_cpu_stat none = none
read_cpu_stat (some bytes) = first_line bytes

-- `sscanf(s, "%llu", x)`, which leaves `x` as it is when it fails.
scan_into : Bytes → ℕ → ℕ
scan_into s x = elim (scan_llu s) [ none ↦ x | some (n, rest) ↦ n ]

-- `strncmp(line, prefix, n) == 0` for a prefix of `n` bytes.
starts : Bytes → Bytes → Bool
starts prefix line = str_eq (take (length prefix) line) prefix

-- The body of the loop, on `(*rss_kb, *vms_kb)`.
unfoldable pub status_line : Bytes → ℕ × ℕ → ℕ × ℕ
unfolding scan_into starts
status_line line (rss_kb, vms_kb) =
    if starts (codes "VmRSS:") line
    then (scan_into (drop 6 line) rss_kb, vms_kb)
    else if starts (codes "VmSize:") line
    then (rss_kb, scan_into (drop 7 line) vms_kb)
    else (rss_kb, vms_kb)

-- The loop; the fuel bounds the number of lines, of which none is empty.
status_lines : ℕ → Bytes → ℕ × ℕ → ℕ × ℕ
status_lines zero bs usage = usage
status_lines (suc fuel) [] usage = usage
status_lines (suc fuel) (c ∷ cs) usage =
    let (line, rest) = chunk 255 (c ∷ cs) in
    status_lines fuel rest (status_line (c_string line) usage)

-- `read_memory_usage(rss_kb, vms_kb)`, from the bytes of /proc/self/status if it can be opened.
unfoldable pub read_memory_usage : Option Bytes → Option (ℕ × ℕ)
unfolding status_lines
read_memory_usage none = none
read_memory_usage (some bytes) = some (status_lines (length bytes) bytes (0, 0))
