-- ===== src/Stdio.antt =====
-- What the two readers of configuration files use of the C library: `fgets` on a file that is read
-- without errors, and `sscanf` with the formats "%s %s" and "%s = %s".
pub mod Words
pub mod Columns
use tlshub_ebpf.Base.{
  ℕ, zero, suc, Bool, true, false, ◌&&◌, ◌||◌, not, Option, none, some, List, [], ◌∷◌, Bytes, ◌==◌,
  leb, if◌then◌else◌, length,
}

-- At most `n` bytes, up to and with the first newline; and the bytes behind.
unfoldable pub chunk : ℕ → Bytes → Bytes × Bytes
chunk zero bs = ([], bs)
chunk (suc n) [] = ([], [])
chunk (suc n) (c ∷ cs) =
    let rest = chunk n cs in if c == b'\n' then (c ∷ [], cs) else (c ∷ rest.0, rest.1)

-- The lines that `fgets` with a buffer of 512 bytes gives until the end of the file: 511 bytes at most.
-- The fuel bounds the number of lines.
unfoldable pub lines_in : ℕ → Bytes → List Bytes
lines_in zero bs = []
lines_in (suc fuel) [] = []
lines_in (suc fuel) (c ∷ cs) = let (line, rest) = chunk 511 (c ∷ cs) in line ∷ lines_in fuel rest

-- A line is never empty, so the number of bytes is enough.
unfoldable pub lines : Bytes → List Bytes
unfolding lines_in chunk
lines bs = lines_in (length bs) bs

-- `isspace` in the C locale.
unfoldable pub is_space : ℕ → Bool
is_space c = c == b' ' || (leb 9 c && leb c 13)

-- The string in a buffer ends at its first zero byte.
unfoldable pub c_string : Bytes → Bytes
c_string [] = []
c_string (c ∷ cs) = if c == 0 then [] else c ∷ c_string cs

unfoldable pub skip_space : Bytes → Bytes
skip_space [] = []
skip_space (c ∷ cs) = if is_space c then skip_space cs else c ∷ cs

-- The bytes up to the next space, and those from there on.
unfoldable pub word : Bytes → Bytes × Bytes
word [] = ([], [])
word (c ∷ cs) = let rest = word cs in if is_space c then ([], c ∷ cs) else (c ∷ rest.0, rest.1)

-- What the conversions of a format with two `%s` stored.
pub data Scanned : Type 0 where
  nothing : Scanned
  one : Bytes → Scanned
  two : Bytes → Bytes → Scanned

second : Bytes → Bytes × Bytes → Scanned
second w ([], rest) = one w
second w (c ∷ cs, rest) = two w (c ∷ cs)

-- `%s` skips spaces and fails when no byte is left.
pair_after : Bytes × Bytes → Scanned
pair_after ([], rest) = nothing
pair_after (c ∷ cs, rest) = second (c ∷ cs) (word (skip_space rest))

-- `sscanf(line, "%s %s", a, b)`
unfoldable pub scan_pair : Bytes → Scanned
unfolding pair_after second
scan_pair s = pair_after (word (skip_space s))

equals_after : Bytes → Bytes → Scanned
equals_after w [] = one w
equals_after w (c ∷ cs) = if c == b'=' then second w (word (skip_space cs)) else one w

assignment_after : Bytes × Bytes → Scanned
assignment_after ([], rest) = nothing
assignment_after (c ∷ cs, rest) = equals_after (c ∷ cs) (skip_space rest)

-- `sscanf(line, "%s = %s", a, b)`
unfoldable pub scan_assignment : Bytes → Scanned
unfolding assignment_after equals_after second
scan_assignment s = assignment_after (word (skip_space s))
