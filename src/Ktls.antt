-- ===== src/Ktls.antt =====
-- capture/src/ktls_config.c: a key is handed to the kernel's TLS, first for sending, then for
-- receiving. Printed messages are left out.
pub mod Layout
mod Tests
use tlshub_ebpf.Base.{
  ℕ, ℤ, pos, is_negative, ltb, leb, if◌then◌else◌, Bytes, [], ◌∷◌, ◌++◌, slice, overwrite,
  replicate, codes,
}
use tlshub_ebpf.Capture.{TlsKeyInfo}

-- The two constants that the source takes from <linux/tls.h>: TLS_1_2_VERSION and
-- TLS_CIPHER_AES_GCM_128. The sizes of that cipher are 16 for the key, 4 for the salt, 8 for the IV.
pub record TlsHeader : Type 0 where
  pub tls_1_2_version : ℕ
  pub cipher_aes_gcm_128 : ℕ

-- `struct tls12_crypto_info_aes_gcm_128`
pub record CryptoInfo : Type 0 where
  pub version : ℕ
  pub cipher_type : ℕ
  pub iv : Bytes
  pub key : Bytes
  pub salt : Bytes
  pub rec_seq : Bytes

-- The level, the name and the value of the three options that are set.
pub data SockOption : Type 0 where
  tcp_ulp : Bytes → SockOption
  tls_tx tls_rx : CryptoInfo → SockOption

-- `setsockopt`, over the state of the system.
pub record Sockets (W : Type 0) : Type 0 where
  pub setsockopt : ℤ → SockOption → W → ℤ × W

-- `"tls"` with its final zero.
abbrev pub ulp_name : Bytes
ulp_name = codes "tls" ++ 0 ∷ []

-- The salt where the IV is too short: what there is of it, up to 4 bytes, over zeros.
abbrev short_salt : TlsKeyInfo → Bytes
short_salt k = overwrite (slice (if ltb k.iv_len 4 then k.iv_len else 4) 0 k.iv) (replicate 4 0)

module _ (h : TlsHeader) where
  -- The structure that `enable_ktls_tx` fills.
  unfoldable pub tx_crypto_info : TlsKeyInfo → CryptoInfo
  tx_crypto_info k = record {
    version = h.tls_1_2_version;
    cipher_type = h.cipher_aes_gcm_128;
    iv = if leb 12 k.iv_len then slice 8 4 k.iv else replicate 8 0;
    key = slice 16 0 k.key;
    salt = if leb 12 k.iv_len then slice 4 0 k.iv else short_salt k;
    rec_seq = replicate 8 0;
  }

  -- The structure that `enable_ktls_rx` fills.
  unfoldable pub rx_crypto_info : TlsKeyInfo → CryptoInfo
  rx_crypto_info k = record {
    version = h.tls_1_2_version;
    cipher_type = h.cipher_aes_gcm_128;
    iv = if leb 12 k.iv_len then slice 8 4 k.iv else replicate 8 0;
    key = slice 16 0 k.key;
    salt = if leb 12 k.iv_len then slice 4 0 k.iv else short_salt k;
    rec_seq = replicate 8 0;
  }

  module _ {W : Type 0} (os : Sockets W) where
    -- `int enable_ktls_tx(sockfd, key_info)`
    unfoldable pub enable_ktls_tx : ℤ → TlsKeyInfo → W → ℤ × W
    enable_ktls_tx fd k w =
        let (r, w1) = os.setsockopt fd (tcp_ulp ulp_name) w in
        let (r', w2) = os.setsockopt fd (tls_tx (tx_crypto_info k)) w1 in
        if is_negative r then (r, w1) else if is_negative r' then (r', w2) else (pos 0, w2)

    -- `int enable_ktls_rx(sockfd, key_info)`
    unfoldable pub enable_ktls_rx : ℤ → TlsKeyInfo → W → ℤ × W
    enable_ktls_rx fd k w =
        let (r, w1) = os.setsockopt fd (tls_rx (rx_crypto_info k)) w in
        if is_negative r then (r, w1) else (pos 0, w1)

    -- `int configure_ktls(sockfd, key_info)`
    unfoldable pub configure_ktls : ℤ → TlsKeyInfo → W → ℤ × W
    configure_ktls fd k w =
        let (r, w1) = enable_ktls_tx fd k w in
        let (r', w2) = enable_ktls_rx fd k w1 in
        if is_negative r then (r, w1) else if is_negative r' then (r', w2) else (pos 0, w2)
