-- ===== src/Ktls/Layout.antt =====
-- Where the bytes of a key end up in the kernel's TLS configuration, and how the three calls go.
use tlshub_ebpf.Base.{
  ℤ, pos, is_negative, ◌≡◌, ◌≤◌, leb, if◌then◌else◌, Bytes, ◌++◌, length, take, drop, slice,
  replicate, refl, ◌∙◌, arith, fill-take, fill_split, length-fill, length-overwrite, take-overwrite,
  length-drop, true,
}
use tlshub_ebpf.Capture.{TlsKeyInfo}
use tlshub_ebpf.Tlshub.Client.Fetch.{IsKeyInfo}
use tlshub_ebpf.KeyProvider.{fill_key}
use tlshub_ebpf.Ktls.{
  TlsHeader, CryptoInfo, Sockets, tcp_ulp, tls_tx, tls_rx, ulp_name, tx_crypto_info, rx_crypto_info,
  enable_ktls_tx, enable_ktls_rx, configure_ktls,
}

-- A configuration that carries exactly this key of 16 bytes and this nonce of 12, as salt and IV, at
-- record number 0.
pub record Carries (h : TlsHeader) (key nonce : Bytes) (c : CryptoInfo) : Type 0 where
  pub version : c.version ≡ h.tls_1_2_version
  pub cipher : c.cipher_type ≡ h.cipher_aes_gcm_128
  pub key_bytes : c.key ≡ key
  pub nonce_bytes : c.salt ++ c.iv ≡ nonce
  pub salt_size : length c.salt ≡ 4
  pub fresh : c.rec_seq ≡ replicate 8 0

-- `configure_ktls` by the options that it sets: the protocol, then the two configurations, and the
-- first negative result ends it.
abbrev pub three_options : {W : Type 0} → Sockets W → ℤ → CryptoInfo → CryptoInfo → W → ℤ × W
three_options os fd tx rx w =
    let (r1, w1) = os.setsockopt fd (tcp_ulp ulp_name) w in
    let (r2, w2) = os.setsockopt fd (tls_tx tx) w1 in
    let (r3, w3) = os.setsockopt fd (tls_rx rx) w2 in
    if is_negative r1
    then (r1, w1)
    else if is_negative r2
    then (r2, w2)
    else if is_negative r3
    then (r3, w3)
    else (pos 0, w3)

module _ (k : TlsKeyInfo) (material : Bytes) where
  iv_len-fill_key : (fill_key k material).iv_len ≡ 12
  unfolding fill_key
  iv_len-fill_key = refl

  fill_key-iv_len : 12 ≤ (fill_key k material).iv_len
  fill_key-iv_len = omega (arith, iv_len-fill_key)

  fill_key-IsKeyInfo : IsKeyInfo k → IsKeyInfo (fill_key k material)
  unfolding fill_key
  fill_key-IsKeyInfo f = record {
    key_size =
        length-overwrite (slice 16 0 material) k.key
          (omega (arith, length-fill 16 material, f.key_size))
        ∙ f.key_size;
    iv_size =
        length-overwrite (slice 12 16 material) k.iv
          (omega (arith, length-fill 12 (drop 16 material), f.iv_size))
        ∙ f.iv_size;
  }

  fill_key-key : length material ≡ 64 → take 16 (fill_key k material).key ≡ take 16 material
  unfolding fill_key
  fill_key-key n =
      take-overwrite 16 (slice 16 0 material) k.key (length-fill 16 material)
      ∙ fill-take 16 material (omega arith)

  fill_key-iv : length material ≡ 64 → take 12 (fill_key k material).iv ≡ take 12 (drop 16 material)
  unfolding fill_key
  fill_key-iv n =
      take-overwrite 12 (slice 12 16 material) k.iv (length-fill 12 (drop 16 material))
      ∙ fill-take 12 (drop 16 material) (omega (arith, length-drop 16 material))

module _ (h : TlsHeader) where
  tx_crypto_info-Carries :
      (k : TlsKeyInfo)
      → IsKeyInfo k
      → 12 ≤ k.iv_len
      → Carries h (take 16 k.key) (take 12 k.iv) (tx_crypto_info h k)
  unfolding tx_crypto_info
  tx_crypto_info-Carries k f l =
      let test : leb 12 k.iv_len ≡ true = ground arith in
      record {
        version = refl;
        cipher = refl;
        key_bytes = fill-take 16 k.key (omega arith);
        nonce_bytes = rw test (fill_split 4 8 k.iv ∙ fill-take 12 k.iv (omega arith));
        salt_size = rw test (length-fill 4 k.iv);
        fresh = refl;
      }

  rx-tx : (k : TlsKeyInfo) → rx_crypto_info h k ≡ tx_crypto_info h k
  unfolding rx_crypto_info tx_crypto_info
  rx-tx k = refl

  module _ {W : Type 0} (os : Sockets W) where
    configure-three_options :
        (fd : ℤ) (k : TlsKeyInfo) (w : W)
        → configure_ktls h os fd k w
          ≡ three_options os fd (tx_crypto_info h k) (rx_crypto_info h k) w
    unfolding configure_ktls enable_ktls_tx enable_ktls_rx
    configure-three_options fd k w = ground arith

    -- For a key with an IV of at least 12 bytes, `configure_ktls` sets the three options in order up
    -- to the first that fails, whose result it returns (0 if none does). The same configuration goes
    -- to both directions; it carries the first 16 bytes of the key, and the first 12 of the IV as salt
    -- and nonce, with record number 0.
    pub configure_lem :
        (fd : ℤ) (k : TlsKeyInfo) (w : W)
        → IsKeyInfo k
        → 12 ≤ k.iv_len
        → (c : CryptoInfo) × Carries h (take 16 k.key) (take 12 k.iv) c
          × (configure_ktls h os fd k w ≡ three_options os fd c c w)
    configure_lem fd k w f l = (
      tx_crypto_info h k,
      tx_crypto_info-Carries k f l,
      configure-three_options fd k w ∙ rw (rx-tx k),
    )

    -- A key that the TLS library's exporter gave is configured with bytes 0 to 15 of the key material
    -- as the key and bytes 16 to 27 as salt and nonce, whatever `key_info` held before.
    pub configure-fill_key :
        (fd : ℤ) (k : TlsKeyInfo) (material : Bytes) (w : W)
        → IsKeyInfo k
        → length material ≡ 64
        → (c : CryptoInfo) × Carries h (take 16 material) (take 12 (drop 16 material)) c
          × (configure_ktls h os fd (fill_key k material) w ≡ three_options os fd c c w)
    configure-fill_key fd k material w f n =
        let q = fill_key k material in
        let key_is : take 16 q.key ≡ take 16 material = fill_key-key k material n in
        let iv_is : take 12 q.iv ≡ take 12 (drop 16 material) = fill_key-iv k material n in
        let (c, carries, runs) =
          configure_lem fd q w (fill_key-IsKeyInfo k material f) (fill_key-iv_len k material) in
        (c, rw (← key_is, ← iv_is) carries, runs)
