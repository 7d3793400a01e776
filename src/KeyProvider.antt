-- ===== src/KeyProvider.antt =====
-- capture/src/key_provider.c: keys from the TLSHub client or from the TLS library, by mode. The file is
-- compiled against OpenSSL 1.1.0 or later. Printed messages are left out.
pub mod Ends
pub mod Held
pub mod Exchange
pub mod Resources
pub mod Ledger
mod Tests
use tlshub_ebpf.Base.{
  ℕ, ℤ, pos, minus_one, is_negative, Bool, false, Option, none, some, Bytes, [], ◌∷◌, ◌++◌,
  if◌then◌else◌, overwrite, slice, codes,
}
use tlshub_ebpf.Capture.{Mode, tlshub, openssl, boringssl, unknown, FlowTuple, TlsKeyInfo}
use tlshub_ebpf.Tlshub.Netlink.{Netlink}
use tlshub_ebpf.Tlshub.Client.{
  Client, client_start, Outcome, tlshub_client_init, tlshub_client_cleanup, tlshub_fetch_key,
  tlshub_handshake,
}

-- The calls of the TLS library, over the state of the system. `ctx_new` and `ssl_new` say whether they
-- gave an object. `export` gets the length of the output, the label and its length; it gives the key
-- material when the library returns 1.
pub record Ssl (W : Type 0) : Type 0 where
  pub init_ssl : W → W
  pub ctx_new : W → Bool × W
  pub ctx_free : W → W
  pub ssl_new : W → Bool × W
  pub ssl_free : W → W
  pub export : ℕ → Bytes → ℕ → W → Option Bytes × W

-- `current_mode`, whether `ssl_ctx` is set, and the state of the TLSHub client.
pub record Provider : Type 0 where
  pub current_mode : Mode
  pub ssl_ctx : Bool
  pub client : Client

-- The state before the first call.
abbrev pub provider_start : Provider
provider_start = record { current_mode = tlshub; ssl_ctx = false; client = client_start }

-- What a call returns, what `key_info` points to afterwards, the module and the system.
pub record Provided (W : Type 0) : Type 0 where
  pub result : ℤ
  pub key_info : Option TlsKeyInfo
  pub provider : Provider
  pub world : W

-- The bytes of the literal "EXPORTER-TLS-Capture" in memory.
abbrev pub exporter_label : Bytes
exporter_label = codes "EXPORTER-TLS-Capture" ++ 0 ∷ []

-- The 64 bytes of key material split into a key of 16 bytes and an IV of 12.
unfoldable pub fill_key : TlsKeyInfo → Bytes → TlsKeyInfo
fill_key k material = record {
  key = overwrite (slice 16 0 material) k.key;
  iv = overwrite (slice 12 16 material) k.iv;
  key_len = 16;
  iv_len = 12;
}

-- `void key_provider_set_mode(mode)`
unfoldable pub key_provider_set_mode : Mode → Provider → Provider
key_provider_set_mode m p = record p { current_mode = m }

-- `enum key_provider_mode key_provider_get_mode(void)`
unfoldable pub key_provider_get_mode : Provider → Mode
key_provider_get_mode p = p.current_mode

module _ {W : Type 0} (os : Netlink W) (ssl : Ssl W) where
  -- `case MODE_OPENSSL` and `case MODE_BORINGSSL` of `key_provider_init`.
  unfoldable pub init_library : Provider → W → ℤ × Provider × W
  init_library p w =
      let (made, w1) = ssl.ctx_new (ssl.init_ssl w) in
      (if made then pos 0 else minus_one, record p { ssl_ctx = made }, w1)

  -- `int key_provider_init(mode)`; `none` while the TLSHub client still waits.
  unfoldable pub key_provider_init : ℕ → Mode → Provider → W → Option (ℤ × Provider × W)
  unfolding init_library
  key_provider_init fuel tlshub p w = elim (tlshub_client_init os fuel p.client w) [
    | none ↦ none
    | some o ↦ some (o.result, record p { current_mode = tlshub; client = o.client }, o.world)
  ]
  key_provider_init fuel openssl p w = some (init_library (record p { current_mode = openssl }) w)
  key_provider_init fuel boringssl p w =
      some (init_library (record p { current_mode = boringssl }) w)
  key_provider_init fuel (unknown n) p w =
      some (minus_one, record p { current_mode = unknown n }, w)

  -- `case MODE_OPENSSL` and `case MODE_BORINGSSL` of `key_provider_cleanup`.
  unfoldable pub cleanup_library : Provider → W → Provider × W
  cleanup_library p w = if p.ssl_ctx then (record p { ssl_ctx = false }, ssl.ctx_free w) else (p, w)

  cleanup_in : Mode → Provider → W → Provider × W
  unfolding cleanup_library
  cleanup_in tlshub p w =
      let (c, w1) = tlshub_client_cleanup os p.client w in (record p { client = c }, w1)
  cleanup_in openssl p w = cleanup_library p w
  cleanup_in boringssl p w = cleanup_library p w
  cleanup_in (unknown n) p w = (p, w)

  -- `void key_provider_cleanup(void)`
  unfoldable pub key_provider_cleanup : Provider → W → Provider × W
  unfolding cleanup_in
  key_provider_cleanup p w = cleanup_in p.current_mode p w

  -- `static int openssl_get_key(tuple, key_info)`; the flow is not looked at.
  unfoldable pub openssl_get_key : TlsKeyInfo → Provider → W → Provided W
  unfolding fill_key
  openssl_get_key k p w =
      let (made, w1) = ssl.ssl_new w in
      let (material, w2) = ssl.export 64 exporter_label 21 w1 in
      if p.ssl_ctx
      then (if made
          then record {
            result = elim material [ none ↦ minus_one | some m ↦ pos 0 ];
            key_info = some (elim material [ none ↦ k | some m ↦ fill_key k m ]);
            provider = p;
            world = ssl.ssl_free w2;
          }
          else record { result = minus_one; key_info = some k; provider = p; world = w1 })
      else record { result = minus_one; key_info = some k; provider = p; world = w }

  -- `static int boringssl_get_key(tuple, key_info)`
  unfoldable pub boringssl_get_key : TlsKeyInfo → Provider → W → Provided W
  unfolding openssl_get_key
  boringssl_get_key k p w = openssl_get_key k p w

  -- The end of `case MODE_TLSHUB`, from the outcome of the last fetch.
  unfoldable pub fetch_result : Provider → Outcome W (ℤ × Option TlsKeyInfo) → Provided W
  fetch_result p o = record {
    result = if is_negative o.result.0 then o.result.0 else pos 0;
    key_info = o.result.1;
    provider = record p { client = o.client };
    world = o.world;
  }

  -- After the first fetch `o` failed and the handshake returned `h`.
  unfoldable pub after_handshake :
      FlowTuple → Provider → Outcome W (ℤ × Option TlsKeyInfo) → Outcome W ℤ → Provided W
  unfolding fetch_result
  after_handshake t p o h =
      if is_negative h.result
      then record {
        result = h.result;
        key_info = o.result.1;
        provider = record p { client = h.client };
        world = h.world;
      }
      else fetch_result p (tlshub_fetch_key os (some t) o.result.1 h.client h.world)

  -- `case MODE_TLSHUB` of `key_provider_get_key`.
  unfoldable pub tlshub_get_key : ℕ → FlowTuple → TlsKeyInfo → Provider → W → Option (Provided W)
  tlshub_get_key fuel t k p w =
      let o = tlshub_fetch_key os (some t) (some k) p.client w in
      let shaken = tlshub_handshake os fuel (some t) o.client o.world in
      if is_negative o.result.0
      then (elim shaken [ none ↦ none | some h ↦ some (after_handshake t p o h) ])
      else some (fetch_result p o)

  get_key_in : Mode → ℕ → FlowTuple → TlsKeyInfo → Provider → W → Option (Provided W)
  get_key_in tlshub fuel t k p w = tlshub_get_key fuel t k p w
  get_key_in openssl fuel t k p w = some (openssl_get_key k p w)
  get_key_in boringssl fuel t k p w = some (boringssl_get_key k p w)
  get_key_in (unknown n) fuel t k p w =
      some (record { result = minus_one; key_info = some k; provider = p; world = w })

  -- `int key_provider_get_key(tuple, key_info)`; a null pointer is `none`.
  unfoldable pub key_provider_get_key :
      ℕ → Option FlowTuple → Option TlsKeyInfo → Provider → W → Option (Provided W)
  unfolding get_key_in
  key_provider_get_key fuel (some t) (some k) p w = get_key_in p.current_mode fuel t k p w
  key_provider_get_key fuel t k p w =
      some (record { result = minus_one; key_info = k; provider = p; world = w })
