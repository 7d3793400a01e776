-- ===== src/Base/Memory.antt =====
-- Memory as lists of bytes on a little-endian machine. A byte past the end of a list reads as zero,
-- which is what a buffer holds that was cleared before a shorter message was written into it.
use Prim.Native.Nat.{ℕ, zero, suc, ◌+◌, ◌-◌, ◌*◌, ◌/◌, ◌%◌, ◌≤◌, ◌<◌}
use mathlib.Core.Path.{◌≡◌, refl, ap}
use mathlib.Core.List.{List, [], ◌∷◌, ◌++◌}
use native.Mathlib.Nat.{zero-add, suc-add}
use native.Mathlib.Omega.{arith}
use tlshub_ebpf.Base.Lists.{length, get_or, drop, take}

abbrev pub Bytes : Type 0
Bytes = List ℕ

-- A `uint16_t` and a `uint32_t` as they lie in memory.
abbrev pub le16 : ℕ → Bytes
le16 x = x % 256 ∷ x / 256 % 256 ∷ []

abbrev pub le32 : ℕ → Bytes
le32 x = x % 256 ∷ x / 256 % 256 ∷ x / 65536 % 256 ∷ x / 16777216 % 256 ∷ []

abbrev pub byte : Bytes → ℕ → ℕ
byte bs i = get_or bs i 0

-- The integers that stand in memory at an offset, least and most significant byte first.
abbrev pub read_le32 : Bytes → ℕ → ℕ
read_le32 bs i =
    byte bs i + 256 * byte bs (i + 1) + 65536 * byte bs (i + 2) + 16777216 * byte bs (i + 3)

abbrev pub read_be16 : Bytes → ℕ → ℕ
read_be16 bs i = 256 * byte bs i + byte bs (i + 1)

-- `htons` and `bpf_ntohs` on such a machine: the two bytes are exchanged.
abbrev pub swap16 : ℕ → ℕ
swap16 x = x % 256 * 256 + x / 256 % 256

-- The first `n` bytes from an offset on, with zeros past the end: what `memcpy` reads.
abbrev pub fill : ℕ → Bytes → Bytes
fill zero bs = []
fill (suc n) [] = 0 ∷ fill n []
fill (suc n) (x ∷ xs) = x ∷ fill n xs

abbrev pub slice : ℕ → ℕ → Bytes → Bytes
slice n i bs = fill n (drop i bs)

-- What a buffer holds after bytes were copied to its start.
abbrev pub overwrite : Bytes → Bytes → Bytes
overwrite [] dst = dst
overwrite (x ∷ xs) [] = x ∷ xs
overwrite (x ∷ xs) (y ∷ ys) = x ∷ overwrite xs ys

pub length-fill : (n : ℕ) (bs : Bytes) → length (fill n bs) ≡ n
length-fill zero bs = refl
length-fill (suc n) [] = ap suc (length-fill n [])
length-fill (suc n) (x ∷ xs) = ap suc (length-fill n xs)

pub fill-append : (xs ys : Bytes) → fill (length xs) (xs ++ ys) ≡ xs
fill-append [] ys = refl
fill-append (x ∷ xs) ys = ap (◌∷◌ x) (fill-append xs ys)

pub fill-append_eq : (n : ℕ) (xs ys : Bytes) → length xs ≡ n → fill n (xs ++ ys) ≡ xs
fill-append_eq n xs ys e = rw (← e) (fill-append xs ys)

pub length-overwrite :
    (xs dst : Bytes) → length xs ≤ length dst → length (overwrite xs dst) ≡ length dst
length-overwrite [] dst h = refl
length-overwrite (x ∷ xs) [] h = absurd (omega arith)
length-overwrite (x ∷ xs) (y ∷ ys) h = ap suc (length-overwrite xs ys (omega arith))

pub fill-length : (xs : Bytes) → fill (length xs) xs ≡ xs
fill-length [] = refl
fill-length (x ∷ xs) = ap (◌∷◌ x) (fill-length xs)

pub fill-overwrite : (xs dst : Bytes) → fill (length xs) (overwrite xs dst) ≡ xs
fill-overwrite [] dst = refl
fill-overwrite (x ∷ xs) [] = ap (◌∷◌ x) (fill-length xs)
fill-overwrite (x ∷ xs) (y ∷ ys) = ap (◌∷◌ x) (fill-overwrite xs ys)

pub fill_all : (n : ℕ) (xs : Bytes) → length xs ≡ n → fill n xs ≡ xs
fill_all n xs e = rw (← e) (fill-length xs)

pub overwrite_all : (xs dst : Bytes) → length xs ≡ length dst → overwrite xs dst ≡ xs
overwrite_all [] [] e = refl
overwrite_all [] (y ∷ ys) e = absurd (omega arith)
overwrite_all (x ∷ xs) [] e = absurd (omega arith)
overwrite_all (x ∷ xs) (y ∷ ys) e = ap (◌∷◌ x) (overwrite_all xs ys (omega arith))

pub byte-take : (n i : ℕ) (bs : Bytes) → i < n → byte (take n bs) i ≡ byte bs i
byte-take zero i bs h = absurd (omega arith)
byte-take (suc n) i [] h = refl
byte-take (suc n) zero (x ∷ xs) h = refl
byte-take (suc n) (suc i) (x ∷ xs) h = byte-take n i xs (omega arith)

pub fill-take : (n : ℕ) (bs : Bytes) → n ≤ length bs → fill n bs ≡ take n bs
fill-take zero bs h = refl
fill-take (suc n) [] h = absurd (omega arith)
fill-take (suc n) (x ∷ xs) h = ap (◌∷◌ x) (fill-take n xs (omega arith))

fill_split_nil : (m n : ℕ) → fill m [] ++ fill n [] ≡ fill (m + n) []
fill_split_nil zero n = rw zero-add
fill_split_nil (suc m) n = rw suc-add (ap (◌∷◌ 0) (fill_split_nil m n))

pub fill_split : (m n : ℕ) (bs : Bytes) → fill m bs ++ fill n (drop m bs) ≡ fill (m + n) bs
fill_split zero n bs = rw zero-add
fill_split (suc m) n [] = rw suc-add (ap (◌∷◌ 0) (fill_split_nil m n))
fill_split (suc m) n (x ∷ xs) = rw suc-add (ap (◌∷◌ x) (fill_split m n xs))

pub take-overwrite : (n : ℕ) (xs dst : Bytes) → length xs ≡ n → take n (overwrite xs dst) ≡ xs
take-overwrite zero [] dst e = refl
take-overwrite zero (x ∷ xs) dst e = absurd (omega arith)
take-overwrite (suc n) [] dst e = absurd (omega arith)
take-overwrite (suc n) (x ∷ xs) [] e = ap (◌∷◌ x) (take_length n xs (omega arith))
  where
    take_length : (n : ℕ) (xs : Bytes) → length xs ≡ n → take n xs ≡ xs
    take_length zero [] e = refl
    take_length zero (x ∷ xs) e = absurd (omega arith)
    take_length (suc n) [] e = refl
    take_length (suc n) (x ∷ xs) e = ap (◌∷◌ x) (take_length n xs (omega arith))
take-overwrite (suc n) (x ∷ xs) (y ∷ ys) e = ap (◌∷◌ x) (take-overwrite n xs ys (omega arith))

pub length-drop : (n : ℕ) (xs : Bytes) → length (drop n xs) ≡ length xs - n
length-drop zero xs = omega arith
length-drop (suc n) [] = omega arith
length-drop (suc n) (x ∷ xs) = omega (arith, length-drop n xs)
