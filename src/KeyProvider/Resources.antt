-- ===== src/KeyProvider/Resources.antt =====
-- What the module's variables refer to: the client's socket and the context of the TLS library.
use tlshub_ebpf.Base.{
  ℕ, ℤ, pos, minus_one, is_negative, ◌≡◌, refl, sym, subst, ◌⊎◌, inl, inr, true, false, some,
  Option-cases, arith,
}
use mathlib.Core.Option.{some-injective}
use tlshub_ebpf.Capture.{Mode, tlshub, openssl, boringssl, unknown}
use tlshub_ebpf.Tlshub.Netlink.{Netlink}
use tlshub_ebpf.Tlshub.Client.{tlshub_client_init, tlshub_client_cleanup}
use tlshub_ebpf.Tlshub.Client.Init.{init-IsConsistent}
use tlshub_ebpf.KeyProvider.{
  Ssl, Provider, key_provider_init, key_provider_cleanup, init_library, cleanup_library, cleanup_in,
}

-- The module's variables refer to neither. KeyProvider/Ledger says what the system then has open.
pub record IsReleased (p : Provider) : Type 0 where
  pub no_context : p.ssl_ctx ≡ false
  pub no_socket : is_negative p.client.netlink_sock ≡ true

-- The resource of the mode is held, and no other.
abbrev pub IsHeld : Mode → Provider → Type 0
IsHeld tlshub p = (is_negative p.client.netlink_sock ≡ false) × (p.ssl_ctx ≡ false)
IsHeld openssl p = (is_negative p.client.netlink_sock ≡ true) × (p.ssl_ctx ≡ true)
IsHeld boringssl p = (is_negative p.client.netlink_sock ≡ true) × (p.ssl_ctx ≡ true)
IsHeld (unknown n) p = ⊥

-- The mode was stored, and the call returned 0 with the resource held or -1 with nothing held.
abbrev pub InitEnds : {W : Type 0} → Mode → ℤ × Provider × W → Type 0
InitEnds m o =
    (o.1.current_mode ≡ m) × (((o.0 ≡ pos 0) × IsHeld m o.1) ⊎ ((o.0 ≡ minus_one) × IsReleased o.1))

module _ {W : Type 0} (os : Netlink W) (ssl : Ssl W) where
  init_library-InitEnds :
      (p : Provider) (w : W)
      → IsReleased p
      → let o = init_library os ssl p w in
        (o.1.current_mode ≡ p.current_mode)
        × (((o.0 ≡ pos 0) × ((is_negative o.1.client.netlink_sock ≡ true) × (o.1.ssl_ctx ≡ true)))
            ⊎ ((o.0 ≡ minus_one) × IsReleased o.1))
  unfolding init_library
  init_library-InitEnds p w rel = ground arith

  -- From a state that holds nothing, an initialisation in any mode that returns has stored the mode,
  -- and it returned 0 and holds the resource of that mode alone, or it returned -1 and holds nothing.
  pub init-InitEnds :
      (fuel : ℕ) (m : Mode) (p : Provider) (w : W) (o : ℤ × Provider × W)
      → IsReleased p
      → key_provider_init os ssl fuel m p w ≡ some o
      → InitEnds m o
  unfolding key_provider_init
  init-InitEnds fuel tlshub p w o rel e =
      elim (Option-cases (tlshub_client_init os fuel p.client w)) [
        | inl q ↦ ground (arith, q, e)
        | inr (a, q) ↦
            let ends = init-IsConsistent os fuel p.client w a q in
            let is : some (a.result, record p { current_mode = tlshub; client = a.client }, a.world)
                ≡ some o =
              ground (arith, q, e) in
            subst (InitEnds tlshub) (some-injective _ _ is) (ground (arith, ends, rel))
      ]
  init-InitEnds fuel openssl p w o rel e = subst (InitEnds openssl) (some-injective _ _ e) (
      init_library-InitEnds (record p { current_mode = openssl }) w
        (record { no_context = rel.no_context; no_socket = rel.no_socket }))
  init-InitEnds fuel boringssl p w o rel e = subst (InitEnds boringssl) (some-injective _ _ e) (
      init_library-InitEnds (record p { current_mode = boringssl }) w
        (record { no_context = rel.no_context; no_socket = rel.no_socket }))
  init-InitEnds fuel (unknown n) p w o rel e =
      subst (InitEnds (unknown n)) (some-injective _ _ e)
        (refl, inr (refl, record { no_context = rel.no_context; no_socket = rel.no_socket }))

  cleanup_in-IsReleased :
      (m : Mode) (p : Provider) (w : W)
      → IsHeld m p ⊎ IsReleased p
      → IsReleased (cleanup_in os ssl m p w).0
  unfolding cleanup_in cleanup_library tlshub_client_cleanup
  cleanup_in-IsReleased tlshub p w h = ground arith
  cleanup_in-IsReleased openssl p w h = ground arith
  cleanup_in-IsReleased boringssl p w h = ground arith
  cleanup_in-IsReleased (unknown n) p w h = ground arith

  pub cleanup-IsReleased :
      (p : Provider) (w : W)
      → IsHeld p.current_mode p ⊎ IsReleased p
      → IsReleased (key_provider_cleanup os ssl p w).0
  unfolding key_provider_cleanup
  cleanup-IsReleased p w h = cleanup_in-IsReleased p.current_mode p w h

  -- An initialisation from a state that holds nothing, in any mode and whether it succeeded or not,
  -- followed by the cleanup leaves nothing held.
  pub cleanup-init :
      (fuel : ℕ) (m : Mode) (p : Provider) (w v : W) (o : ℤ × Provider × W)
      → IsReleased p
      → key_provider_init os ssl fuel m p w ≡ some o
      → IsReleased (key_provider_cleanup os ssl o.1 v).0
  unfolding key_provider_cleanup
  cleanup-init fuel m p w v o rel e =
      let ends = init-InitEnds fuel m p w o rel e in
      cleanup_in-IsReleased o.1.current_mode o.1 v (elim ends.1 [
        | inl (_, held) ↦ inl (subst (λ n. IsHeld n o.1) (sym ends.0) held)
        | inr (_, free) ↦ inr free
      ])
