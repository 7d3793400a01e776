-- ===== src/KeyProvider/Ledger.antt =====
-- What the calls of capture/src/tlshub_client.c and capture/src/key_provider.c open and allocate in the system.

pub mod Init
pub mod Requests
pub mod Samples
mod Tests
use tlshub_ebpf.Base.{
  ℕ, zero, suc, ◌+◌, ℤ, is_negative, ◌≡◌, refl, ◌∙◌, ◌⊎◌, inl, inr, Bool, true, false, Option, none,
  some, List, ◌∷◌, Bytes, Bool-cases,
}
use tlshub_ebpf.Tlshub.Netlink.{Netlink, Recv, failed, received}
use tlshub_ebpf.Tlshub.Wire.{sizeof_user_msg_info}
use tlshub_ebpf.Tlshub.Client.{
  Client, Outcome, Verdict, return, again, recv_verdict, note_sender, await, tlshub_client_cleanup,
}
use tlshub_ebpf.KeyProvider.{Ssl, Provider, cleanup_library, cleanup_in, key_provider_cleanup}
use tlshub_ebpf.Capture.{Mode, tlshub, openssl, boringssl, unknown}
use tlshub_ebpf.KeyProvider.Resources.{IsReleased, IsHeld}

-- The sockets that are open, the latest first, and the number of contexts of the TLS library.
pub record Held : Type 0 where
  pub sockets : List ℤ
  pub contexts : ℕ

abbrev pub with_fd : ℤ → Held → Held
with_fd fd h = record h { sockets = fd ∷ h.sockets }

-- A socket, unless its number is negative.
abbrev pub with_socket : Bool → ℤ → Held → Held
with_socket true fd h = h
with_socket false fd h = with_fd fd h

abbrev pub with_context : Bool → Held → Held
with_context true h = record h { contexts = h.contexts + 1 }
with_context false h = h

-- `socket` opens a socket unless its result is negative, `close` undoes that; `SSL_CTX_new` makes a context
-- unless it returns null, `SSL_CTX_free` undoes that; the other calls change neither.
pub record IsLedger {W : Type 0} (os : Netlink W) (ssl : Ssl W) (view : W → Held) : Type 0 where
  pub socket_opens :
      (w : W)
      → view (os.socket w).1 ≡ with_socket (is_negative (os.socket w).0) (os.socket w).0 (view w)
  pub close_undoes : (fd : ℤ) (h : Held) (w : W) → view w ≡ with_fd fd h → view (os.close fd w) ≡ h
  pub ctx_new_makes : (w : W) → view (ssl.ctx_new w).1 ≡ with_context (ssl.ctx_new w).0 (view w)
  pub ctx_free_undoes :
      (h : Held) (w : W) → view w ≡ with_context true h → view (ssl.ctx_free w) ≡ h
  pub bind_keeps : (fd : ℤ) (pid : ℕ) (w : W) → view (os.bind fd pid w).1 ≡ view w
  pub malloc_keeps : (n : ℕ) (w : W) → view (os.malloc n w).1 ≡ view w
  pub free_keeps : (w : W) → view (os.free w) ≡ view w
  pub sendto_keeps :
      (fd : ℤ) (bs : Bytes) (pid : ℕ) (w : W) → view (os.sendto fd bs pid w).1 ≡ view w
  pub recvfrom_keeps : (fd : ℤ) (room : ℕ) (w : W) → view (os.recvfrom fd room w).1 ≡ view w
  pub init_ssl_keeps : (w : W) → view (ssl.init_ssl w) ≡ view w
  pub ssl_new_keeps : (w : W) → view (ssl.ssl_new w).1 ≡ view w
  pub ssl_free_keeps : (w : W) → view (ssl.ssl_free w) ≡ view w
  pub export_keeps :
      (n : ℕ) (label : Bytes) (size : ℕ) (w : W) → view (ssl.export n label size w).1 ≡ view w

-- What a module with these variables holds, over `h`.
abbrev pub socket_of : Client → Held → Held
socket_of c h = with_socket (is_negative c.netlink_sock) c.netlink_sock h

abbrev pub holding : Provider → Held → Held
holding p h = with_context p.ssl_ctx (socket_of p.client h)

note_sender_keeps : (c : Client) (r : Recv) → (note_sender c r).netlink_sock ≡ c.netlink_sock
unfolding note_sender
note_sender_keeps c failed = refl
note_sender_keeps c (received pid bs) = refl

Verdict-cases : (d : Verdict) → ((v : ℤ) × (d ≡ return v)) ⊎ (d ≡ again)
Verdict-cases (return v) = inl (v, refl)
Verdict-cases again = inr refl

module _ {W : Type 0} (os : Netlink W) (ssl : Ssl W) (view : W → Held)
    (ledger : IsLedger os ssl view) where
  -- A call still waits, or it ends with `h` held and the socket of `c` kept.
  abbrev pub Leaves : Client → Held → Option (Outcome W ℤ) → Type 0
  Leaves c h none = Unit {0}
  Leaves c h (some o) = (o.client.netlink_sock ≡ c.netlink_sock) × (view o.world ≡ h)

  pub await-Leaves :
      (judge : ℕ → Verdict) (fuel : ℕ) (c c0 : Client) (h : Held) (w : W)
      → c.netlink_sock ≡ c0.netlink_sock
      → view w ≡ h
      → Leaves c0 h (await os judge fuel c w)
  unfolding await
  await-Leaves judge zero c c0 h w s e = tt
  await-Leaves judge (suc fuel) c c0 h w s e =
      let r = (os.recvfrom c.netlink_sock sizeof_user_msg_info w).0 in
      let w1 = (os.recvfrom c.netlink_sock sizeof_user_msg_info w).1 in
      let s1 = note_sender_keeps c r ∙ s in
      let e1 = ledger.recvfrom_keeps c.netlink_sock sizeof_user_msg_info w ∙ e in
      elim (Verdict-cases (recv_verdict judge r)) [
        | inl (v, q) ↦ rw (await, q) (s1, e1)
        | inr q ↦ rw (await, q) (await-Leaves judge fuel (note_sender c r) c0 h w1 s1 e1)
      ]

  client_cleanup-freed :
      (c : Client) (h : Held) (w : W)
      → view w ≡ socket_of c h
      → view (tlshub_client_cleanup os c w).1 ≡ h
  unfolding tlshub_client_cleanup
  client_cleanup-freed c h w e = elim (Bool-cases (is_negative c.netlink_sock)) [
    | inl n ↦ let e' = rw n at e in rw (tlshub_client_cleanup, n) e'
    | inr n ↦
        let e' = rw n at e in
        rw (tlshub_client_cleanup, n) (ledger.close_undoes c.netlink_sock h w e')
  ]

  cleanup_library-freed :
      (p : Provider) (h : Held) (w : W)
      → view w ≡ with_context p.ssl_ctx h
      → view (cleanup_library os ssl p w).1 ≡ h
  unfolding cleanup_library
  cleanup_library-freed p h w e = elim (Bool-cases p.ssl_ctx) [
    | inl c ↦ let e' = rw c at e in rw (cleanup_library, c) (ledger.ctx_free_undoes h w e')
    | inr c ↦ let e' = rw c at e in rw (cleanup_library, c) e'
  ]

  cleanup_in-freed :
      (m : Mode) (p : Provider) (h : Held) (w : W)
      → IsHeld m p ⊎ IsReleased p
      → view w ≡ holding p h
      → view (cleanup_in os ssl m p w).1 ≡ h
  unfolding cleanup_in
  cleanup_in-freed tlshub p h w (inl (s, c)) e =
      let e' = rw c at e in client_cleanup-freed p.client h w e'
  cleanup_in-freed tlshub p h w (inr free) e =
      let e' = rw (free.no_context) at e in client_cleanup-freed p.client h w e'
  cleanup_in-freed openssl p h w (inl (s, c)) e =
      let e' = rw s at e in cleanup_library-freed p h w e'
  cleanup_in-freed openssl p h w (inr free) e =
      let e' = rw (free.no_socket) at e in cleanup_library-freed p h w e'
  cleanup_in-freed boringssl p h w (inl (s, c)) e =
      let e' = rw s at e in cleanup_library-freed p h w e'
  cleanup_in-freed boringssl p h w (inr free) e =
      let e' = rw (free.no_socket) at e in cleanup_library-freed p h w e'
  cleanup_in-freed (unknown n) p h w (inl none_held) e = absurd none_held
  cleanup_in-freed (unknown n) p h w (inr free) e =
      let e' = rw (free.no_context, free.no_socket) at e in e'

  -- The cleanup gives back what the module holds.
  pub cleanup-freed :
      (p : Provider) (h : Held) (w : W)
      → IsHeld p.current_mode p ⊎ IsReleased p
      → view w ≡ holding p h
      → view (key_provider_cleanup os ssl p w).1 ≡ h
  unfolding key_provider_cleanup
  cleanup-freed p h w owns e = cleanup_in-freed p.current_mode p h w owns e
