-- ===== src/KeyProvider/Ledger/Init.antt =====
-- What the initialisation of capture/src/key_provider.c leaves open and allocated.
use tlshub_ebpf.Base.{
  ℕ, ℤ, pos, is_negative, is_zero, ◌≡◌, refl, subst, ap, ◌∙◌, inl, inr, true, false, Option, none,
  some, Bool-cases, Option-cases, arith,
}
use mathlib.Core.Option.{some-injective}
use tlshub_ebpf.Capture.{Mode, tlshub, openssl, boringssl, unknown}
use tlshub_ebpf.Tlshub.Netlink.{Netlink}
use tlshub_ebpf.Tlshub.Wire.{nlmsg_space, packet, init_msg}
use tlshub_ebpf.Tlshub.Client.{
  Client, Outcome, init_verdict, await, give_up, end_init, init_exchange, tlshub_client_init,
}
use tlshub_ebpf.KeyProvider.{
  Ssl, Provider, key_provider_init, key_provider_cleanup, key_provider_set_mode, init_library,
  cleanup_in,
}
use tlshub_ebpf.KeyProvider.Resources.{IsReleased, InitEnds, init-InitEnds}
use tlshub_ebpf.KeyProvider.Ledger.{
  Held, with_fd, with_context, IsLedger, socket_of, holding, Leaves, await-Leaves,
  client_cleanup-freed,
}

module _ {W : Type 0} (os : Netlink W) (ssl : Ssl W) (view : W → Held)
    (ledger : IsLedger os ssl view) where
  -- The client still waits, or it ends with its socket held over `h`.
  abbrev Opens : Held → Option (Outcome W ℤ) → Type 0
  Opens h none = Unit {0}
  Opens h (some o) = view o.world ≡ socket_of o.client h

  end_init-Opens :
      (o : Outcome W ℤ) (h : Held)
      → is_negative o.client.netlink_sock ≡ false
      → view o.world ≡ with_fd o.client.netlink_sock h
      → Opens h (some (end_init os o))
  unfolding end_init give_up
  end_init-Opens o h n e =
      let e1 = ledger.free_keeps o.world ∙ e in
      elim (Bool-cases (is_zero o.result)) [
        | inl z ↦ rw (end_init, z, n) e1
        | inr z ↦
            rw (end_init, z) (ledger.close_undoes o.client.netlink_sock h (os.free o.world) e1)
      ]

  answered-Opens :
      (o : Option (Outcome W ℤ)) (c : Client) (h : Held)
      → is_negative c.netlink_sock ≡ false
      → Leaves os ssl view ledger c (with_fd c.netlink_sock h) o
      → Opens h (elim o [ none ↦ none | some a ↦ some (end_init os a) ])
  answered-Opens none c h n left = tt
  answered-Opens (some o) c h n (s, e) = end_init-Opens o h (rw s n) (rw s e)

  init_exchange-Opens :
      (fuel : ℕ) (c : Client) (h : Held) (w : W)
      → is_negative c.netlink_sock ≡ false
      → view w ≡ with_fd c.netlink_sock h
      → Opens h (init_exchange os fuel c w)
  unfolding init_exchange give_up
  init_exchange-Opens fuel c h w n e =
      let (granted, w1) = os.malloc nlmsg_space w in
      let (sent, w2) = os.sendto c.netlink_sock (packet (os.gettid w1) init_msg) c.dest_pid w1 in
      let e1 = ledger.malloc_keeps nlmsg_space w ∙ e in
      let e2 =
        ledger.sendto_keeps c.netlink_sock (packet (os.gettid w1) init_msg) c.dest_pid w1 ∙ e1 in
      elim (Bool-cases granted) [
        | inr g ↦ rw (init_exchange, g) (ledger.close_undoes c.netlink_sock h w1 e1)
        | inl g ↦ elim (Bool-cases (is_zero sent)) [
          | inl z ↦
              rw (init_exchange, g, z)
                (ledger.close_undoes c.netlink_sock h (os.free w2) (ledger.free_keeps w2 ∙ e2))
          | inr z ↦
              rw (init_exchange, g, z)
                (answered-Opens (await os init_verdict fuel c w2) c h n (
                  await-Leaves os ssl view ledger init_verdict fuel c c (with_fd c.netlink_sock h)
                    w2 refl e2))
        ]
      ]

  client_init-Opens :
      (fuel : ℕ) (c : Client) (w : W) → Opens (view w) (tlshub_client_init os fuel c w)
  unfolding tlshub_client_init give_up
  client_init-Opens fuel c w =
      let (fd, w1) = os.socket w in
      let (bound, w2) = os.bind fd (os.gettid w1) w1 in
      let opens = ledger.socket_opens w in
      elim (Bool-cases (is_negative fd)) [
        | inl n ↦ let e1 = rw n at opens in rw (tlshub_client_init, n, n) e1
        | inr n ↦
            let e1 = rw n at opens in
            let e2 = ledger.bind_keeps fd (os.gettid w1) w1 ∙ e1 in
            elim (Bool-cases (is_negative bound)) [
              | inl b ↦ rw (tlshub_client_init, n, b) (ledger.close_undoes fd (view w) w2 e2)
              | inr b ↦
                  rw (tlshub_client_init, n, b)
                    (init_exchange-Opens fuel (record c { netlink_sock = fd; dest_pid = 0 })
                      (view w) w2 n e2)
            ]
      ]

  init_library-holding :
      (p : Provider) (w : W)
      → is_negative p.client.netlink_sock ≡ true
      → let o = init_library os ssl p w in view o.2 ≡ holding o.1 (view w)
  unfolding init_library
  init_library-holding p w n =
      let e = ledger.ctx_new_makes (ssl.init_ssl w) in
      rw n (e ∙ ap (with_context (ssl.ctx_new (ssl.init_ssl w)).0) (ledger.init_ssl_keeps w))

  pub init_holds :
      (fuel : ℕ) (m : Mode) (p : Provider) (w : W) (o : ℤ × Provider × W)
      → IsReleased p
      → key_provider_init os ssl fuel m p w ≡ some o
      → view o.2 ≡ holding o.1 (view w)
  unfolding key_provider_init
  init_holds fuel tlshub p w o free e =
      let opens = client_init-Opens fuel p.client w in
      elim (Option-cases (tlshub_client_init os fuel p.client w)) [
        | inl q ↦ ground (arith, q, e)
        | inr (a, q) ↦
            let opened = rw q at opens in
            let e' : some (a.result, record p { current_mode = tlshub; client = a.client }, a.world)
                ≡ some o =
              ground (arith, q, e) in
            subst (λ x. view x.2 ≡ holding x.1 (view w)) (some-injective _ _ e')
              (rw (free.no_context) opened)
      ]
  init_holds fuel openssl p w o free e =
      subst (λ x. view x.2 ≡ holding x.1 (view w)) (some-injective _ _ e)
        (init_library-holding (record p { current_mode = openssl }) w (free.no_socket))
  init_holds fuel boringssl p w o free e =
      subst (λ x. view x.2 ≡ holding x.1 (view w)) (some-injective _ _ e)
        (init_library-holding (record p { current_mode = boringssl }) w (free.no_socket))
  init_holds fuel (unknown n) p w o free e =
      subst (λ x. view x.2 ≡ holding x.1 (view w)) (some-injective _ _ e)
        (rw (free.no_context, free.no_socket) refl)

  -- From a state that holds nothing, an initialisation in any mode that returns has stored the mode. It returned
  -- 0 and holds the resource of that mode alone, or it returned -1 and holds nothing; and the sockets that are
  -- open in the system and the contexts of the TLS library are those from before with what is held.
  pub init-holding :
      (fuel : ℕ) (m : Mode) (p : Provider) (w : W) (o : ℤ × Provider × W)
      → IsReleased p
      → key_provider_init os ssl fuel m p w ≡ some o
      → InitEnds m o × (view o.2 ≡ holding o.1 (view w))
  init-holding fuel m p w o free e =
      (init-InitEnds os ssl fuel m p w o free e, init_holds fuel m p w o free e)

  -- When the TLS library was initialised and the mode is then set to TLSHub, the cleanup frees no context: the
  -- system has one more than before the initialisation, the same sockets, and the module still refers to it.
  pub set_mode_leaks :
      (fuel : ℕ) (p : Provider) (w : W) (o : ℤ × Provider × W)
      → IsReleased p
      → key_provider_init os ssl fuel openssl p w ≡ some o
      → o.0 ≡ pos 0
      → let after = key_provider_cleanup os ssl (key_provider_set_mode tlshub o.1) o.2 in
        (view after.1 ≡ with_context true (view w)) × (after.0.ssl_ctx ≡ true)
  unfolding key_provider_cleanup cleanup_in key_provider_set_mode
  set_mode_leaks fuel p w o free e z =
      let (ends, holds) = init-holding fuel openssl p w o free e in
      elim ends.1 [
        | inr (failed, rest) ↦ ground (arith, z, failed)
        | inl (ok, held) ↦
            let made = rw (held.0, held.1) at holds in
            (
              client_cleanup-freed os ssl view ledger o.1.client (with_context true (view w)) o.2
                  (rw (held.0) made),
              held.1,
            )
      ]
