-- ===== src/KeyProvider/Ends.antt =====
-- How `key_provider_get_key` can end, whatever the kernel module and the TLS library do.
use tlshub_ebpf.Base.{
  ℕ, ℤ, pos, minus_one, ◌≡◌, refl, subst, ◌⊎◌, inl, inr, Option, some, Option-cases, arith,
}
use mathlib.Core.Option.{some-injective}
use tlshub_ebpf.Capture.{Mode, tlshub, openssl, boringssl, unknown, FlowTuple, TlsKeyInfo}
use tlshub_ebpf.Tlshub.Netlink.{Netlink}
use tlshub_ebpf.Tlshub.Client.{Client, Outcome, tlshub_fetch_key, tlshub_handshake}
use tlshub_ebpf.Tlshub.Client.Fetch.{FetchEnds-cases, fetch-FetchEnds}
use tlshub_ebpf.Tlshub.Client.Wait.{handshake_result}
use tlshub_ebpf.KeyProvider.{
  Ssl, Provider, Provided, exporter_label, openssl_get_key, boringssl_get_key, fetch_result,
  after_handshake, tlshub_get_key, get_key_in, key_provider_get_key,
}

-- The length of the keys that a mode gives.
abbrev pub key_size : Mode → ℕ
key_size tlshub = 32
key_size openssl = 16
key_size boringssl = 16
key_size (unknown n) = 16

-- The call returned 0 and `key_info` holds a key of that length and an IV of 12 bytes, or it returned
-- -1 and `key_info` is as it was.
abbrev pub KeyEnds : ℕ → TlsKeyInfo → ℤ → Option TlsKeyInfo → Type 0
KeyEnds size k result info =
    ((result ≡ pos 0)
      × ((k' : TlsKeyInfo) × (info ≡ some k') × (k'.key_len ≡ size) × (k'.iv_len ≡ 12)))
    ⊎ ((result ≡ minus_one) × (info ≡ some k))

module _ {W : Type 0} (os : Netlink W) (ssl : Ssl W) where
  openssl-KeyEnds :
      (k : TlsKeyInfo) (p : Provider) (w : W)
      → KeyEnds 16 k (openssl_get_key os ssl k p w).result (openssl_get_key os ssl k p w).key_info
  unfolding openssl_get_key
  openssl-KeyEnds k p w =
      let w1 = (ssl.ssl_new w).1 in
      elim (Option-cases (ssl.export 64 exporter_label 21 w1).0) [
        | inl e ↦ ground (arith, e)
        | inr (m, e) ↦ ground (arith, e)
      ]

  fetch_result-KeyEnds :
      (t : FlowTuple) (k : TlsKeyInfo) (p : Provider) (c : Client) (w : W)
      → let o = fetch_result os ssl p (tlshub_fetch_key os (some t) (some k) c w) in
        KeyEnds 32 k o.result o.key_info
  unfolding fetch_result
  fetch_result-KeyEnds t k p c w = ground (arith, FetchEnds-cases k _ (fetch-FetchEnds os t k c w))

  after_handshake-KeyEnds :
      (t : FlowTuple) (k : TlsKeyInfo) (p : Provider) (f : Outcome W (ℤ × Option TlsKeyInfo))
      (h : Outcome W ℤ)
      → f.result.1 ≡ some k
      → (h.result ≡ pos 0) ⊎ (h.result ≡ minus_one)
      → let o = after_handshake os ssl t p f h in KeyEnds 32 k o.result o.key_info
  unfolding after_handshake
  after_handshake-KeyEnds t k p f h same (inl z) =
      rw (z, same) (fetch_result-KeyEnds t k p h.client h.world)
  after_handshake-KeyEnds t k p f h same (inr z) = rw (z, same) (inr (refl, refl))

  tlshub-KeyEnds :
      (fuel : ℕ) (t : FlowTuple) (k : TlsKeyInfo) (p : Provider) (w : W) (o : Provided W)
      → tlshub_get_key os ssl fuel t k p w ≡ some o
      → KeyEnds 32 k o.result o.key_info
  unfolding tlshub_get_key
  tlshub-KeyEnds fuel t k p w o e =
      let f = tlshub_fetch_key os (some t) (some k) p.client w in
      elim (FetchEnds-cases k _ (fetch-FetchEnds os t k p.client w)) [
        | inl (z, _) ↦
            let is : o ≡ fetch_result os ssl p f = ground (arith, e, z) in
            rw is (fetch_result-KeyEnds t k p p.client w)
        | inr (z, same) ↦ elim (Option-cases (tlshub_handshake os fuel (some t) f.client f.world)) [
          | inl none_yet ↦ ground (arith, e, z, none_yet)
          | inr (h, shaken) ↦
              let is : o ≡ after_handshake os ssl t p f h = ground (arith, e, z, shaken) in
              rw is (
                after_handshake-KeyEnds t k p f h same
                  (handshake_result os fuel t f.client f.world h shaken))
        ]
      ]

  -- Whatever the mode, the kernel module and the TLS library do, a call with both pointers that
  -- returns ends in one of two ways: it returned 0 and `key_info` holds a key of the mode's length
  -- (32 with TLSHub, otherwise 16) and an IV of length 12, or it returned -1 and left `key_info` alone.
  pub get_key-KeyEnds :
      (fuel : ℕ) (t : FlowTuple) (k : TlsKeyInfo) (p : Provider) (w : W) (o : Provided W)
      → key_provider_get_key os ssl fuel (some t) (some k) p w ≡ some o
      → KeyEnds (key_size p.current_mode) k o.result o.key_info
  unfolding key_provider_get_key
  get_key-KeyEnds fuel t k p w o e = in_mode p.current_mode e
    where
      in_mode :
          (m : Mode)
          → get_key_in os ssl m fuel t k p w ≡ some o
          → KeyEnds (key_size m) k o.result o.key_info
      in_mode tlshub e = tlshub-KeyEnds fuel t k p w o e
      in_mode openssl e =
          subst (λ q. KeyEnds 16 k q.result q.key_info) (some-injective _ _ e)
            (openssl-KeyEnds k p w)
      in_mode boringssl e =
          subst (λ q. KeyEnds 16 k q.result q.key_info) (some-injective _ _ e)
            (unfold boringssl_get_key in openssl-KeyEnds k p w)
      in_mode (unknown n) e =
          subst (λ q. KeyEnds 16 k q.result q.key_info) (some-injective _ _ e) (inr (refl, refl))
