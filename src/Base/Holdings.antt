-- ===== src/Base/Holdings.antt =====
-- What a process holds: open descriptors and allocated blocks.
use tlshub_ebpf.Base.{ℕ, ◌+◌, ◌-◌, ◌≡◌, ap, ℤ, Bool, true, false, List, [], ◌∷◌, arith}

-- The descriptors that are open, the latest first, and the number of blocks that are allocated.
pub record Holdings : Type 0 where
  pub descriptors : List ℤ
  pub blocks : ℕ

abbrev pub opened : Bool → ℤ → Holdings → Holdings
opened true fd h = h
opened false fd h = record h { descriptors = fd ∷ h.descriptors }

abbrev pub allocated : Bool → Holdings → Holdings
allocated true h = record h { blocks = h.blocks + 1 }
allocated false h = h

-- The latest descriptor is closed, and a block is freed.
abbrev pub close_latest : Holdings → Holdings
close_latest h = record h { descriptors = others h.descriptors }
  where
    others : List ℤ → List ℤ
    others [] = []
    others (x ∷ xs) = xs

abbrev pub free_block : Holdings → Holdings
free_block h = record h { blocks = h.blocks - 1 }

pub close_latest-opened :
    (fd : ℤ) (h : Holdings) (w : Holdings)
    → w ≡ record h { descriptors = fd ∷ h.descriptors }
    → close_latest w ≡ h
close_latest-opened fd h w e = ap close_latest e

pub free_block-allocated :
    (h w : Holdings) → w ≡ record h { blocks = h.blocks + 1 } → free_block w ≡ h
free_block-allocated h w e =
    let same : h.blocks + 1 - 1 ≡ h.blocks = omega arith in rw e (λ i. record h { blocks = same i })
