-- ===== src/Stdio/Words.antt =====
-- Written lines and words as `fgets` and `sscanf` read them.
use tlshub_ebpf.Base.{
  ℕ, zero, suc, ◌≤◌, ◌<◌, ◌≡◌, refl, ap, ◌∙◌, Bool, true, false, List, [], ◌∷◌, ◌++◌, Bytes, ◌==◌,
  if◌then◌else◌, length, length-append, arith,
}
use tlshub_ebpf.Stdio.{
  chunk, lines_in, lines, is_space, c_string, skip_space, word, one, two, scan_pair,
  scan_assignment,
}

-- Every byte can stand in a word: it is no space and not zero.
abbrev pub IsText : Bytes → Type 0
IsText [] = Unit {0}
IsText (c ∷ cs) = ((is_space c ≡ false) × ((c == 0) ≡ false)) × IsText cs

-- A word of a line, at least one byte long.
abbrev pub IsWord : Bytes → Type 0
IsWord [] = ⊥
IsWord (c ∷ cs) = IsText (c ∷ cs)

-- Bytes with no newline and no zero among them.
abbrev pub IsPlain : Bytes → Type 0
IsPlain [] = Unit {0}
IsPlain (c ∷ cs) = (((c == b'\n') ≡ false) × ((c == 0) ≡ false)) × IsPlain cs

pub IsPlain-append : (xs ys : Bytes) → IsPlain xs → IsPlain ys → IsPlain (xs ++ ys)
IsPlain-append [] ys p q = q
IsPlain-append (x ∷ xs) ys p q = (p.0, IsPlain-append xs ys p.1 q)

-- The same as tests, for literals.
abbrev pub text_test : Bytes → Bool
text_test [] = true
text_test (c ∷ cs) = if is_space c then false else if c == 0 then false else text_test cs

pub text_test-IsText : (xs : Bytes) → text_test xs ≡ true → IsText xs
text_test-IsText [] h = tt
text_test-IsText (c ∷ cs) h = (ground (arith, h), text_test-IsText cs (ground (arith, h)))

abbrev pub word_test : Bytes → Bool
word_test [] = false
word_test (c ∷ cs) = text_test (c ∷ cs)

pub word_test-IsWord : (xs : Bytes) → word_test xs ≡ true → IsWord xs
word_test-IsWord [] h = cc
word_test-IsWord (c ∷ cs) h = text_test-IsText (c ∷ cs) h

abbrev pub plain_test : Bytes → Bool
plain_test [] = true
plain_test (c ∷ cs) = if c == b'\n' then false else if c == 0 then false else plain_test cs

pub plain_test-IsPlain : (xs : Bytes) → plain_test xs ≡ true → IsPlain xs
plain_test-IsPlain [] h = tt
plain_test-IsPlain (c ∷ cs) h = (ground (arith, h), plain_test-IsPlain cs (ground (arith, h)))

newline-is_space : (c : ℕ) → is_space c ≡ false → (c == b'\n') ≡ false
unfolding is_space
newline-is_space c h = ground arith

pub IsText-IsPlain : (xs : Bytes) → IsText xs → IsPlain xs
IsText-IsPlain [] t = tt
IsText-IsPlain (x ∷ xs) t = ((newline-is_space x t.0.0, t.0.1), IsText-IsPlain xs t.1)

pub word-append :
    (xs rest : Bytes) (c : ℕ)
    → IsText xs
    → is_space c ≡ true
    → word (xs ++ c ∷ rest) ≡ (xs, c ∷ rest)
unfolding word
word-append [] rest c t h = rw h
word-append (x ∷ xs) rest c t h = rw (t.0.0, word-append xs rest c t.1 h)

pub skip_space-IsWord : (xs rest : Bytes) → IsWord xs → skip_space (xs ++ rest) ≡ xs ++ rest
unfolding skip_space
skip_space-IsWord [] rest t = absurd t
skip_space-IsWord (x ∷ xs) rest t = rw t.0.0

pub c_string-IsPlain : (xs rest : Bytes) → IsPlain xs → c_string (xs ++ rest) ≡ xs ++ c_string rest
unfolding c_string
c_string-IsPlain [] rest p = refl
c_string-IsPlain (x ∷ xs) rest p = rw p.0.1 (ap (◌∷◌ x) (c_string-IsPlain xs rest p.1))

-- A line of at most 510 bytes and its newline come back whole.
pub chunk-line :
    (n : ℕ) (xs rest : Bytes)
    → IsPlain xs
    → length xs < n
    → chunk n (xs ++ b'\n' ∷ rest) ≡ (xs ++ b'\n' ∷ [], rest)
unfolding chunk
chunk-line zero xs rest p h = absurd (omega arith)
chunk-line (suc n) [] rest p h = refl
chunk-line (suc n) (x ∷ xs) rest p h = rw (p.0.0, chunk-line n xs rest p.1 (omega arith))

chunk-append : (n : ℕ) (bs : Bytes) → (chunk n bs).0 ++ (chunk n bs).1 ≡ bs
unfolding chunk
chunk-append zero bs = refl
chunk-append (suc n) [] = refl
chunk-append (suc n) (c ∷ cs) = ground (arith, chunk-append n cs)

-- The concatenation of lines.
abbrev pub unlines : List Bytes → Bytes
unlines [] = []
unlines (l ∷ ls) = l ++ unlines ls

chunk-length : (n : ℕ) (bs : Bytes) → length (chunk n bs).1 ≤ length bs
unfolding chunk
chunk-length zero bs = omega arith
chunk-length (suc n) [] = omega arith
chunk-length (suc n) (c ∷ cs) = ground (arith, chunk-length n cs)

chunk-length-suc : (n c : ℕ) (cs : Bytes) → length (chunk (suc n) (c ∷ cs)).1 ≤ length cs
unfolding chunk
chunk-length-suc n c cs = ground (arith, chunk-length n cs)

chunk-length_lt : (c : ℕ) (cs : Bytes) → length (chunk 511 (c ∷ cs)).1 ≤ length cs
chunk-length_lt = chunk-length-suc 510

-- Any fuel that is at least the number of bytes gives the same lines.
lines_in_enough :
    (f g : ℕ) (bs : Bytes) → length bs ≤ f → length bs ≤ g → lines_in f bs ≡ lines_in g bs
unfolding lines_in
lines_in_enough zero zero [] hf hg = refl
lines_in_enough zero (suc g) [] hf hg = refl
lines_in_enough (suc f) zero [] hf hg = refl
lines_in_enough (suc f) (suc g) [] hf hg = refl
lines_in_enough zero g (c ∷ cs) hf hg = absurd (omega arith)
lines_in_enough (suc f) zero (c ∷ cs) hf hg = absurd (omega arith)
lines_in_enough (suc f) (suc g) (c ∷ cs) hf hg =
    let short = chunk-length_lt c cs in
    ap (◌∷◌ (chunk 511 (c ∷ cs)).0)
      (lines_in_enough f g (chunk 511 (c ∷ cs)).1 (omega arith) (omega arith))

lines_in-unlines : (f : ℕ) (bs : Bytes) → length bs ≤ f → unlines (lines_in f bs) ≡ bs
unfolding lines_in
lines_in-unlines zero [] h = refl
lines_in-unlines (suc f) [] h = refl
lines_in-unlines zero (c ∷ cs) h = absurd (omega arith)
lines_in-unlines (suc f) (c ∷ cs) h =
    let short = chunk-length_lt c cs in
    ap (◌++◌ (chunk 511 (c ∷ cs)).0) (lines_in-unlines f (chunk 511 (c ∷ cs)).1 (omega arith))
    ∙ chunk-append 511 (c ∷ cs)

-- No byte of a file is lost: its lines in order make up the file.
pub unlines-lines : (bs : Bytes) → unlines (lines bs) ≡ bs
unfolding lines
unlines-lines bs = lines_in-unlines (length bs) bs (omega arith)

lines_in-cons :
    (f c : ℕ) (cs line rest : Bytes)
    → chunk 511 (c ∷ cs) ≡ (line, rest)
    → length rest ≤ f
    → lines_in (suc f) (c ∷ cs) ≡ line ∷ lines rest
unfolding lines_in lines
lines_in-cons f c cs line rest e h =
    ap (λ (p : Bytes × Bytes). p.0 ∷ lines_in f p.1) e
    ∙ ap (◌∷◌ line) (lines_in_enough f (length rest) rest h (omega arith))

pub lines_nil : lines [] ≡ []
unfolding lines
lines_nil = refl

-- The first line of a file that begins with at most 510 plain bytes and a newline.
pub lines-cons :
    (xs rest : Bytes)
    → IsPlain xs
    → length xs < 511
    → lines (xs ++ b'\n' ∷ rest) ≡ (xs ++ b'\n' ∷ []) ∷ lines rest
unfolding lines
lines-cons [] rest p h =
    lines_in-cons (length rest) b'\n' rest (b'\n' ∷ []) rest (chunk-line 511 [] rest p h)
      (omega arith)
lines-cons (x ∷ xs) rest p h =
    lines_in-cons (length (xs ++ b'\n' ∷ rest)) x (xs ++ b'\n' ∷ rest) (x ∷ xs ++ b'\n' ∷ []) rest
      (chunk-line 511 (x ∷ xs) rest p h) (omega (arith, length-append xs (b'\n' ∷ rest)))

pub skip_space_blank : (rest : Bytes) → skip_space (b' ' ∷ rest) ≡ skip_space rest
unfolding skip_space is_space
skip_space_blank rest = refl

skip_space_sign : (rest : Bytes) → skip_space (b'=' ∷ rest) ≡ b'=' ∷ rest
unfolding skip_space is_space
skip_space_sign rest = refl

-- One word and a newline.
pub scan_pair_one : (w : Bytes) → IsWord w → scan_pair (w ++ b'\n' ∷ []) ≡ one w
unfolding scan_pair skip_space is_space word
scan_pair_one [] h = absurd h
scan_pair_one (c ∷ cs) h =
    rw (skip_space-IsWord (c ∷ cs) (b'\n' ∷ []) h, word-append (c ∷ cs) [] b'\n' h refl)

pub IsWord-IsPlain : (w : Bytes) → IsWord w → IsPlain w
IsWord-IsPlain [] h = absurd h
IsWord-IsPlain (c ∷ cs) h = IsText-IsPlain (c ∷ cs) h

pub c_string-line : (xs : Bytes) → IsPlain xs → c_string (xs ++ b'\n' ∷ []) ≡ xs ++ b'\n' ∷ []
unfolding c_string
c_string-line xs p = c_string-IsPlain xs (b'\n' ∷ []) p

-- Two words with one space between them, and a newline.
pub scan_pair-append :
    (a b : Bytes) → IsWord a → IsWord b → scan_pair (a ++ b' ' ∷ (b ++ b'\n' ∷ [])) ≡ two a b
unfolding scan_pair is_space
scan_pair-append [] b ha hb = absurd ha
scan_pair-append (x ∷ a) [] ha hb = absurd hb
scan_pair-append (x ∷ a) (y ∷ b) ha hb = rw (
  skip_space-IsWord (x ∷ a) (b' ' ∷ (y ∷ b ++ b'\n' ∷ [])) ha,
  word-append (x ∷ a) (y ∷ b ++ b'\n' ∷ []) b' ' ha refl,
  skip_space_blank (y ∷ b ++ b'\n' ∷ []),
  skip_space-IsWord (y ∷ b) (b'\n' ∷ []) hb,
  word-append (y ∷ b) [] b'\n' hb refl,
)

-- An assignment with one space on each side of the sign, and a newline.
pub scan_assignment-append :
    (a b : Bytes)
    → IsWord a
    → IsWord b
    → scan_assignment (a ++ b' ' ∷ b'=' ∷ b' ' ∷ (b ++ b'\n' ∷ [])) ≡ two a b
unfolding scan_assignment is_space
scan_assignment-append [] b ha hb = absurd ha
scan_assignment-append (x ∷ a) [] ha hb = absurd hb
scan_assignment-append (x ∷ a) (y ∷ b) ha hb = rw (
  skip_space-IsWord (x ∷ a) (b' ' ∷ b'=' ∷ b' ' ∷ (y ∷ b ++ b'\n' ∷ [])) ha,
  word-append (x ∷ a) (b'=' ∷ b' ' ∷ (y ∷ b ++ b'\n' ∷ [])) b' ' ha refl,
  skip_space_blank (b'=' ∷ b' ' ∷ (y ∷ b ++ b'\n' ∷ [])),
  skip_space_sign (b' ' ∷ (y ∷ b ++ b'\n' ∷ [])),
  skip_space_blank (y ∷ b ++ b'\n' ∷ []),
  skip_space-IsWord (y ∷ b) (b'\n' ∷ []) hb,
  word-append (y ∷ b) [] b'\n' hb refl,
)
