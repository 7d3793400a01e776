-- ===== src/KeyProvider/Ledger/Requests.antt =====
-- The requests for keys of capture/src/key_provider.c open no socket and make no context.
use tlshub_ebpf.Base.{
  ℕ, ℤ, is_negative, is_zero, ◌≡◌, refl, ◌∙◌, inl, inr, Bool, true, false, Option, none, some,
  Bool-cases, Option-cases, if◌then◌else◌, minus_one,
}
use tlshub_ebpf.Capture.{Mode, tlshub, openssl, boringssl, unknown, FlowTuple, TlsKeyInfo}
use tlshub_ebpf.Tlshub.Netlink.{Netlink}
use tlshub_ebpf.Tlshub.Wire.{
  sizeof_user_msg_info, packet, tuple_msg, service_start, service_fetch, nlmsg_space,
}
use tlshub_ebpf.Tlshub.Client.{
  Client, Outcome, handshake_verdict, fetch_exchange, tlshub_fetch_key, handshake_exchange,
  tlshub_handshake,
}
use tlshub_ebpf.KeyProvider.{
  Ssl, Provider, Provided, exporter_label, openssl_get_key, boringssl_get_key, fetch_result,
  after_handshake, tlshub_get_key, get_key_in, key_provider_get_key,
}
use tlshub_ebpf.KeyProvider.Ledger.{Held, IsLedger, Leaves, await-Leaves}

module _ {W : Type 0} (os : Netlink W) (ssl : Ssl W) (view : W → Held)
    (ledger : IsLedger os ssl view) where
  -- A call still waits, or it ends with `h` held.
  abbrev EndsWith : Held → Option (Outcome W ℤ) → Type 0
  EndsWith h none = Unit {0}
  EndsWith h (some o) = view o.world ≡ h

  forget :
      (c : Client) (h : Held) (o : Option (Outcome W ℤ))
      → Leaves os ssl view ledger c h o
      → EndsWith h o
  forget c h none left = tt
  forget c h (some o) (s, e) = e

  handshake_exchange-EndsWith :
      (fuel : ℕ) (t : FlowTuple) (c : Client) (h : Held) (w : W)
      → view w ≡ h
      → EndsWith h (handshake_exchange os fuel t c w)
  unfolding handshake_exchange
  handshake_exchange-EndsWith fuel t c h w e =
      let request = packet (os.gettid w) (tuple_msg service_start t) in
      let w1 = (os.sendto c.netlink_sock request c.dest_pid w).1 in
      let e1 = ledger.sendto_keeps c.netlink_sock request c.dest_pid w ∙ e in
      elim (Bool-cases (is_zero (os.sendto c.netlink_sock request c.dest_pid w).0)) [
        | inl z ↦ rw (handshake_exchange, z) e1
        | inr z ↦
            rw (handshake_exchange, z)
              (forget c h _
                (await-Leaves os ssl view ledger handshake_verdict fuel c c h w1 refl e1))
      ]

  either-EndsWith :
      (h : Held) (x y : Option (Outcome W ℤ)) (b : Bool)
      → EndsWith h x
      → EndsWith h y
      → EndsWith h (if b then x else y)
  either-EndsWith h x y true e e' = e
  either-EndsWith h x y false e e' = e'

  handshake-EndsWith :
      (fuel : ℕ) (t : FlowTuple) (c : Client) (h : Held) (w : W)
      → view w ≡ h
      → EndsWith h (tlshub_handshake os fuel (some t) c w)
  unfolding tlshub_handshake
  handshake-EndsWith fuel t c h w e =
      let (granted, w1) = os.malloc nlmsg_space w in
      let reused = handshake_exchange os fuel t c w in
      let fresh = handshake_exchange os fuel t (record c { handshake_nlh = true }) w1 in
      let closed : Option (Outcome W ℤ) =
        some (record { result = minus_one; client = c; world = w }) in
      let refused : Option (Outcome W ℤ) =
        some (record { result = minus_one; client = c; world = w1 }) in
      let e1 = ledger.malloc_keeps nlmsg_space w ∙ e in
      either-EndsWith h closed
        (if c.handshake_nlh then reused else (if granted then fresh else refused))
        (is_negative c.netlink_sock) e
        (either-EndsWith h reused (if granted then fresh else refused) c.handshake_nlh
          (handshake_exchange-EndsWith fuel t c h w e)
          (either-EndsWith h fresh refused granted
            (handshake_exchange-EndsWith fuel t (record c { handshake_nlh = true }) h w1 e1) e1))

  fetch_exchange_keeps :
      (t : FlowTuple) (c : Client) (w : W) → view (fetch_exchange os t c w).world ≡ view w
  unfolding fetch_exchange
  fetch_exchange_keeps t c w =
      let (granted, w1) = os.malloc nlmsg_space w in
      let request = packet (os.gettid w1) (tuple_msg service_fetch t) in
      let (sent, w2) = os.sendto c.netlink_sock request c.dest_pid w1 in
      let (r, w3) = os.recvfrom c.netlink_sock sizeof_user_msg_info w2 in
      let e1 = ledger.malloc_keeps nlmsg_space w in
      let e2 = ledger.sendto_keeps c.netlink_sock request c.dest_pid w1 ∙ e1 in
      let e3 = ledger.recvfrom_keeps c.netlink_sock sizeof_user_msg_info w2 ∙ e2 in
      elim (Bool-cases granted) [
        | inr g ↦ rw (fetch_exchange, g) e1
        | inl g ↦ elim (Bool-cases (is_zero sent)) [
          | inl z ↦ rw (fetch_exchange, g, z) (ledger.free_keeps w2 ∙ e2)
          | inr z ↦ rw (fetch_exchange, g, z) (ledger.free_keeps w3 ∙ e3)
        ]
      ]

  fetch_keeps :
      (t : FlowTuple) (k : Option TlsKeyInfo) (c : Client) (w : W)
      → view (tlshub_fetch_key os (some t) k c w).world ≡ view w
  unfolding tlshub_fetch_key
  fetch_keeps t none c w = refl
  fetch_keeps t (some k) c w = elim (Bool-cases (is_negative c.netlink_sock)) [
    | inl n ↦ rw (tlshub_fetch_key, n) refl
    | inr n ↦ rw (tlshub_fetch_key, n) (fetch_exchange_keeps t c w)
  ]

  after_keeps :
      (t : FlowTuple) (p : Provider) (o : Outcome W (ℤ × Option TlsKeyInfo)) (h : Outcome W ℤ)
      → view (after_handshake os ssl t p o h).world ≡ view h.world
  unfolding after_handshake fetch_result
  after_keeps t p o h = elim (Bool-cases (is_negative h.result)) [
    | inl n ↦ rw (after_handshake, n) refl
    | inr n ↦ rw (after_handshake, n) (fetch_keeps t o.result.1 h.client h.world)
  ]

  -- A request for a key still waits, or it ends with `h` held.
  abbrev pub KeepsView : Held → Option (Provided W) → Type 0
  KeepsView h none = Unit {0}
  KeepsView h (some r) = view r.world ≡ h

  openssl_keeps :
      (k : TlsKeyInfo) (p : Provider) (w : W) → view (openssl_get_key os ssl k p w).world ≡ view w
  unfolding openssl_get_key
  openssl_keeps k p w =
      let (made, w1) = ssl.ssl_new w in
      let w2 = (ssl.export 64 exporter_label 21 w1).1 in
      let e1 = ledger.ssl_new_keeps w in
      let e2 = ledger.export_keeps 64 exporter_label 21 w1 ∙ e1 in
      elim (Bool-cases p.ssl_ctx) [
        | inr c ↦ rw (openssl_get_key, c) refl
        | inl c ↦ elim (Bool-cases made) [
          | inl m ↦ rw (openssl_get_key, c, m) (ledger.ssl_free_keeps w2 ∙ e2)
          | inr m ↦ rw (openssl_get_key, c, m) e1
        ]
      ]

  tlshub-KeepsView :
      (fuel : ℕ) (t : FlowTuple) (k : TlsKeyInfo) (p : Provider) (w : W)
      → KeepsView (view w) (tlshub_get_key os ssl fuel t k p w)
  unfolding tlshub_get_key fetch_result
  tlshub-KeepsView fuel t k p w =
      let o = tlshub_fetch_key os (some t) (some k) p.client w in
      let e1 = fetch_keeps t (some k) p.client w in
      let shaken = handshake-EndsWith fuel t o.client (view w) o.world e1 in
      elim (Bool-cases (is_negative o.result.0)) [
        | inr n ↦ rw (tlshub_get_key, n) e1
        | inl n ↦ elim (Option-cases (tlshub_handshake os fuel (some t) o.client o.world)) [
          | inl q ↦ rw (tlshub_get_key, n, q) tt
          | inr (h, q) ↦
              let e2 = rw q at shaken in rw (tlshub_get_key, n, q) (after_keeps t p o h ∙ e2)
        ]
      ]

  get_key_in-KeepsView :
      (m : Mode) (fuel : ℕ) (t : FlowTuple) (k : TlsKeyInfo) (p : Provider) (w : W)
      → KeepsView (view w) (get_key_in os ssl m fuel t k p w)
  unfolding get_key_in boringssl_get_key
  get_key_in-KeepsView tlshub fuel t k p w = tlshub-KeepsView fuel t k p w
  get_key_in-KeepsView openssl fuel t k p w = openssl_keeps k p w
  get_key_in-KeepsView boringssl fuel t k p w = openssl_keeps k p w
  get_key_in-KeepsView (unknown n) fuel t k p w = refl

  pub get_key-KeepsView :
      (fuel : ℕ) (t : FlowTuple) (k : TlsKeyInfo) (p : Provider) (w : W)
      → KeepsView (view w) (key_provider_get_key os ssl fuel (some t) (some k) p w)
  unfolding key_provider_get_key
  get_key-KeepsView fuel t k p w = get_key_in-KeepsView p.current_mode fuel t k p w
