-- ===== src/KeyProvider/Held.antt =====
-- What the requests for keys leave of what the module holds.
use tlshub_ebpf.Base.{
  if◌then◌else◌, ℕ, zero, suc, ℤ, minus_one, is_negative, is_zero, ◌≡◌, refl, ◌∙◌, ap, ◌⊎◌, inl,
  inr, Bool, true, false, Option, none, some, Bool-cases, Option-cases,
}
use tlshub_ebpf.Capture.{Mode, tlshub, openssl, boringssl, unknown, FlowTuple, TlsKeyInfo}
use tlshub_ebpf.Tlshub.Netlink.{Netlink, Recv, failed, received}
use tlshub_ebpf.Tlshub.Wire.{
  sizeof_user_msg_info, packet, tuple_msg, service_start, service_fetch, nlmsg_space,
}
use tlshub_ebpf.Tlshub.Client.{
  Client, Outcome, Verdict, return, again, recv_verdict, handshake_verdict, note_sender, await,
  fetch_exchange, tlshub_fetch_key, handshake_exchange, tlshub_handshake,
}
use tlshub_ebpf.KeyProvider.{
  Ssl, Provider, Provided, openssl_get_key, fetch_result, after_handshake, boringssl_get_key,
  tlshub_get_key, get_key_in, key_provider_get_key,
}

-- The mode and what is held are the same.
abbrev pub SameHeld : Provider → Provider → Type 0
SameHeld p p' =
    (p'.current_mode ≡ p.current_mode)
    × (p'.ssl_ctx ≡ p.ssl_ctx)
    × (p'.client.netlink_sock ≡ p.client.netlink_sock)

note_sender_keeps : (c : Client) (r : Recv) → (note_sender c r).netlink_sock ≡ c.netlink_sock
unfolding note_sender
note_sender_keeps c failed = refl
note_sender_keeps c (received pid bs) = refl

Verdict-cases : (d : Verdict) → ((v : ℤ) × (d ≡ return v)) ⊎ (d ≡ again)
Verdict-cases (return v) = inl (v, refl)
Verdict-cases again = inr refl

module _ {W : Type 0} (os : Netlink W) (ssl : Ssl W) where
  -- An exchange still waits, or it keeps the socket.
  abbrev KeepsSocket : Client → Option (Outcome W ℤ) → Type 0
  KeepsSocket c none = Unit {0}
  KeepsSocket c (some o) = o.client.netlink_sock ≡ c.netlink_sock

  await-KeepsSocket :
      (judge : ℕ → Verdict) (fuel : ℕ) (c c0 : Client) (w : W)
      → c.netlink_sock ≡ c0.netlink_sock
      → KeepsSocket c0 (await os judge fuel c w)
  unfolding await
  await-KeepsSocket judge zero c c0 w e = tt
  await-KeepsSocket judge (suc fuel) c c0 w e =
      let r = (os.recvfrom c.netlink_sock sizeof_user_msg_info w).0 in
      let w1 = (os.recvfrom c.netlink_sock sizeof_user_msg_info w).1 in
      let kept = note_sender_keeps c r ∙ e in
      elim (Verdict-cases (recv_verdict judge r)) [
        | inl (v, q) ↦ rw (await, q) kept
        | inr q ↦ rw (await, q) (await-KeepsSocket judge fuel (note_sender c r) c0 w1 kept)
      ]

  either_keeps :
      (c : Client) (x y : Option (Outcome W ℤ)) (b : Bool)
      → KeepsSocket c x
      → KeepsSocket c y
      → KeepsSocket c (if b then x else y)
  either_keeps c x y true h h' = h
  either_keeps c x y false h h' = h'

  handshake_exchange-KeepsSocket :
      (fuel : ℕ) (t : FlowTuple) (c c0 : Client) (w : W)
      → c.netlink_sock ≡ c0.netlink_sock
      → KeepsSocket c0 (handshake_exchange os fuel t c w)
  unfolding handshake_exchange
  handshake_exchange-KeepsSocket fuel t c c0 w e =
      let (sent, w1) =
        os.sendto c.netlink_sock (packet (os.gettid w) (tuple_msg service_start t)) c.dest_pid w in
      elim (Bool-cases (is_zero sent)) [
        | inl z ↦ rw (handshake_exchange, z) e
        | inr z ↦ rw (handshake_exchange, z) (await-KeepsSocket handshake_verdict fuel c c0 w1 e)
      ]

  handshake-KeepsSocket :
      (fuel : ℕ) (t : FlowTuple) (c : Client) (w : W)
      → KeepsSocket c (tlshub_handshake os fuel (some t) c w)
  unfolding tlshub_handshake
  handshake-KeepsSocket fuel t c w =
      let (granted, w1) = os.malloc nlmsg_space w in
      let reused = handshake_exchange os fuel t c w in
      let fresh = handshake_exchange os fuel t (record c { handshake_nlh = true }) w1 in
      let closed : Option (Outcome W ℤ) =
        some (record { result = minus_one; client = c; world = w }) in
      let refused : Option (Outcome W ℤ) =
        some (record { result = minus_one; client = c; world = w1 }) in
      let k1 = handshake_exchange-KeepsSocket fuel t c c w refl in
      let k2 =
        handshake_exchange-KeepsSocket fuel t (record c { handshake_nlh = true }) c w1 refl in
      either_keeps c closed
        (if c.handshake_nlh then reused else (if granted then fresh else refused))
        (is_negative c.netlink_sock) refl
        (either_keeps c reused (if granted then fresh else refused) c.handshake_nlh k1
          (either_keeps c fresh refused granted k2 refl))

  fetch_exchange_keeps :
      (t : FlowTuple) (c : Client) (w : W)
      → (fetch_exchange os t c w).client.netlink_sock ≡ c.netlink_sock
  unfolding fetch_exchange
  fetch_exchange_keeps t c w =
      let (granted, w1) = os.malloc nlmsg_space w in
      let (sent, w2) =
        os.sendto c.netlink_sock (packet (os.gettid w1) (tuple_msg service_fetch t)) c.dest_pid
          w1 in
      elim (Bool-cases granted) [
        | inr g ↦ rw (fetch_exchange, g) refl
        | inl g ↦ elim (Bool-cases (is_zero sent)) [
          | inl z ↦ rw (fetch_exchange, g, z) refl
          | inr z ↦
              rw (fetch_exchange, g, z)
                (note_sender_keeps c (os.recvfrom c.netlink_sock sizeof_user_msg_info w2).0)
        ]
      ]

  fetch_keeps :
      (t : FlowTuple) (k : Option TlsKeyInfo) (c : Client) (w : W)
      → (tlshub_fetch_key os (some t) k c w).client.netlink_sock ≡ c.netlink_sock
  unfolding tlshub_fetch_key
  fetch_keeps t none c w = refl
  fetch_keeps t (some k) c w = elim (Bool-cases (is_negative c.netlink_sock)) [
    | inl n ↦ rw (tlshub_fetch_key, n) refl
    | inr n ↦ rw (tlshub_fetch_key, n) (fetch_exchange_keeps t c w)
  ]

  after_keeps :
      (t : FlowTuple) (p : Provider) (o : Outcome W (ℤ × Option TlsKeyInfo)) (h : Outcome W ℤ)
      → h.client.netlink_sock ≡ p.client.netlink_sock
      → SameHeld p (after_handshake os ssl t p o h).provider
  unfolding after_handshake fetch_result
  after_keeps t p o h e = elim (Bool-cases (is_negative h.result)) [
    | inl n ↦ rw (after_handshake, n) (refl, refl, e)
    | inr n ↦ rw (after_handshake, n) (refl, refl, fetch_keeps t o.result.1 h.client h.world ∙ e)
  ]

  -- A request for a key still waits, or it keeps what is held.
  abbrev pub KeepsHeld : Provider → Option (Provided W) → Type 0
  KeepsHeld p none = Unit {0}
  KeepsHeld p (some r) = SameHeld p r.provider

  same_provider : (p' p : Provider) → p' ≡ p → SameHeld p p'
  same_provider p' p e =
      (ap (λ x. x.current_mode) e, ap (λ x. x.ssl_ctx) e, ap (λ x. x.client.netlink_sock) e)

  openssl_keeps :
      (k : TlsKeyInfo) (p : Provider) (w : W) → SameHeld p (openssl_get_key os ssl k p w).provider
  unfolding openssl_get_key
  openssl_keeps k p w =
      let (made, w1) = ssl.ssl_new w in
      same_provider (openssl_get_key os ssl k p w).provider p (elim (Bool-cases p.ssl_ctx) [
        | inr c ↦ rw (openssl_get_key, c) refl
        | inl c ↦ elim (Bool-cases made) [
          | inl m ↦ rw (openssl_get_key, c, m) refl
          | inr m ↦ rw (openssl_get_key, c, m) refl
        ]
      ])

  tlshub-KeepsHeld :
      (fuel : ℕ) (t : FlowTuple) (k : TlsKeyInfo) (p : Provider) (w : W)
      → KeepsHeld p (tlshub_get_key os ssl fuel t k p w)
  unfolding tlshub_get_key fetch_result
  tlshub-KeepsHeld fuel t k p w =
      let o = tlshub_fetch_key os (some t) (some k) p.client w in
      let fetched = fetch_keeps t (some k) p.client w in
      let shaken = handshake-KeepsSocket fuel t o.client o.world in
      elim (Bool-cases (is_negative o.result.0)) [
        | inr n ↦ rw (tlshub_get_key, n) (refl, refl, fetched)
        | inl n ↦ elim (Option-cases (tlshub_handshake os fuel (some t) o.client o.world)) [
          | inl e ↦ rw (tlshub_get_key, n, e) tt
          | inr (h, e) ↦
              let kept = rw e at shaken in
              rw (tlshub_get_key, n, e) (after_keeps t p o h (kept ∙ fetched))
        ]
      ]

  get_key_in-KeepsHeld :
      (m : Mode) (fuel : ℕ) (t : FlowTuple) (k : TlsKeyInfo) (p : Provider) (w : W)
      → KeepsHeld p (get_key_in os ssl m fuel t k p w)
  unfolding get_key_in boringssl_get_key
  get_key_in-KeepsHeld tlshub fuel t k p w = tlshub-KeepsHeld fuel t k p w
  get_key_in-KeepsHeld openssl fuel t k p w = openssl_keeps k p w
  get_key_in-KeepsHeld boringssl fuel t k p w = openssl_keeps k p w
  get_key_in-KeepsHeld (unknown n) fuel t k p w = (refl, refl, refl)

  pub get_key-KeepsHeld :
      (fuel : ℕ) (t : FlowTuple) (k : TlsKeyInfo) (p : Provider) (w : W)
      → KeepsHeld p (key_provider_get_key os ssl fuel (some t) (some k) p w)
  unfolding key_provider_get_key
  get_key-KeepsHeld fuel t k p w = get_key_in-KeepsHeld p.current_mode fuel t k p w
