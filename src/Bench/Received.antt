-- ===== src/Bench/Received.antt =====
-- The cases of what `recv` did.
use tlshub_ebpf.Base.{ℕ, ◌≡◌, refl, ◌⊎◌, inl, inr, [], ◌∷◌, Bytes}
use tlshub_ebpf.Bench.Sockets.{Received, got, interrupted, broken}

abbrev pub Heard : Received → Type 0
Heard r =
    (r ≡ interrupted)
    ⊎ ((r ≡ broken) ⊎ ((r ≡ got []) ⊎ ((c : ℕ) × (cs : Bytes) × (r ≡ got (c ∷ cs)))))

pub Received-cases : (r : Received) → Heard r
Received-cases (got []) = inr (inr (inl refl))
Received-cases (got (c ∷ cs)) = inr (inr (inr (c, cs, refl)))
Received-cases interrupted = inl refl
Received-cases broken = inr (inl refl)
