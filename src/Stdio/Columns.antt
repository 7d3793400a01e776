-- ===== src/Stdio/Columns.antt =====
-- Words with any number of spaces between and behind them, as `sscanf` reads them.
use tlshub_ebpf.Base.{ℕ, zero, suc, ◌≡◌, refl, ◌∙◌, true, [], ◌∷◌, ◌++◌, Bytes, replicate}
use tlshub_ebpf.Stdio.{is_space, skip_space, word, two, scan_pair}
use tlshub_ebpf.Stdio.Words.{
  IsText, IsWord, IsPlain, word-append, skip_space-IsWord, skip_space_blank,
}

pub spaces-IsPlain : (k : ℕ) → IsPlain (replicate k b' ')
spaces-IsPlain zero = tt
spaces-IsPlain (suc k) = ((refl, refl), spaces-IsPlain k)

skip_space-spaces : (k : ℕ) (rest : Bytes) → skip_space (replicate k b' ' ++ rest) ≡ skip_space rest
skip_space-spaces zero rest = refl
skip_space-spaces (suc k) rest =
    skip_space_blank (replicate k b' ' ++ rest) ∙ skip_space-spaces k rest

-- A word ends at the spaces behind it, of which there may be none, and at the space `c` after these.
word-spaces :
    (xs : Bytes) (k c : ℕ) (rest : Bytes)
    → IsText xs
    → is_space c ≡ true
    → word (xs ++ (replicate k b' ' ++ c ∷ rest)) ≡ (xs, replicate k b' ' ++ c ∷ rest)
unfolding is_space
word-spaces xs zero c rest t h = word-append xs rest c t h
word-spaces xs (suc k) c rest t h = word-append xs (replicate k b' ' ++ c ∷ rest) b' ' t refl

-- Two words with spaces behind each, at least one between them, and a newline.
pub scan_pair-spaces :
    (a b : Bytes) (k j : ℕ)
    → IsWord a
    → IsWord b
    → scan_pair (a ++ (replicate k b' ' ++ b' ' ∷ (b ++ (replicate j b' ' ++ b'\n' ∷ []))))
      ≡ two a b
unfolding scan_pair is_space
scan_pair-spaces [] b k j ha hb = absurd ha
scan_pair-spaces (x ∷ a) [] k j ha hb = absurd hb
scan_pair-spaces (x ∷ a) (y ∷ b) k j ha hb =
    let end : Bytes = replicate j b' ' ++ b'\n' ∷ [] in
    rw (
      skip_space-IsWord (x ∷ a) (replicate k b' ' ++ b' ' ∷ (y ∷ b ++ end)) ha,
      word-spaces (x ∷ a) k b' ' (y ∷ b ++ end) ha refl,
      skip_space-spaces k (b' ' ∷ (y ∷ b ++ end)),
      skip_space_blank (y ∷ b ++ end),
      skip_space-IsWord (y ∷ b) end hb,
      word-spaces (y ∷ b) j b'\n' [] hb refl,
    )
