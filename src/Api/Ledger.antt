-- ===== src/Api/Ledger.antt =====
-- What `tlshub_fetch_key` of tlshub-api/tlshub.c leaves open and allocated.
use tlshub_ebpf.Base.{
  ℕ, ◌+◌, ◌≡◌, refl, ap, ◌∙◌, ◌⊎◌, ℤ, is_zero, is_negative, true, false, ◌∷◌, Bytes, Bool-cases,
  inl, inr,
}
use tlshub_ebpf.Base.Holdings.{Holdings, opened, allocated}
use tlshub_ebpf.Tlshub.Netlink.{Netlink}
use tlshub_ebpf.Tlshub.Wire.{sizeof_user_msg_info, nlmsg_space}
use tlshub_ebpf.Api.Wire.{Stack, Pods, fetch_request}
use tlshub_ebpf.Api.Context.{
  Context, fresh_context, is_minus_one, netlink_ctx_init, netlink_ctx_alloc_msg, free_nlh,
  close_sk_fd, netlink_ctx_cleanup,
}
use tlshub_ebpf.Api.Requests.{fetch_exchange, fetch_message, tlshub_fetch_key}

-- `socket` opens a descriptor unless it returns -1, and `malloc` allocates a block unless it returns null;
-- `close` and `free` undo them, and the other calls change nothing of the kind. A negative result of `socket`
-- is -1.
pub record IsLedger {W : Type 0} (os : Netlink W) (view : W → Holdings) : Type 0 where
  pub socket_opens :
      (w : W)
      → view (os.socket w).1 ≡ opened (is_minus_one (os.socket w).0) (os.socket w).0 (view w)
  pub socket_result : (w : W) → is_negative (os.socket w).0 ≡ is_minus_one (os.socket w).0
  pub close_undoes :
      (fd : ℤ) (h : Holdings) (w : W)
      → view w ≡ record h { descriptors = fd ∷ h.descriptors }
      → view (os.close fd w) ≡ h
  pub malloc_allocates :
      (n : ℕ) (w : W) → view (os.malloc n w).1 ≡ allocated (os.malloc n w).0 (view w)
  pub free_undoes :
      (h : Holdings) (w : W) → view w ≡ record h { blocks = h.blocks + 1 } → view (os.free w) ≡ h
  pub bind_keeps : (fd : ℤ) (pid : ℕ) (w : W) → view (os.bind fd pid w).1 ≡ view w
  pub sendto_keeps :
      (fd : ℤ) (bs : Bytes) (pid : ℕ) (w : W) → view (os.sendto fd bs pid w).1 ≡ view w
  pub recvfrom_keeps : (fd : ℤ) (room : ℕ) (w : W) → view (os.recvfrom fd room w).1 ≡ view w

-- What a context holds, over `h`.
abbrev pub holding : Context → Holdings → Holdings
holding ctx h = allocated ctx.nlh (opened (is_minus_one ctx.sk_fd) ctx.sk_fd h)

module _ {W : Type 0} (os : Netlink W) (view : W → Holdings) (ledger : IsLedger os view) where
  pub free_nlh-holding :
      (ctx : Context) (h : Holdings) (w : W)
      → view w ≡ holding ctx h
      → (view (free_nlh os ctx w).1 ≡ opened (is_minus_one ctx.sk_fd) ctx.sk_fd h)
        × ((free_nlh os ctx w).0.sk_fd ≡ ctx.sk_fd)
  unfolding free_nlh
  free_nlh-holding ctx h w e = elim (Bool-cases ctx.nlh) [
    | inl n ↦ let e' = rw n at e in rw (free_nlh, n) (ledger.free_undoes _ w e', refl)
    | inr n ↦ let e' = rw n at e in rw (free_nlh, n) (e', refl)
  ]

  close_sk_fd-holding :
      (ctx : Context) (h : Holdings) (w : W)
      → view w ≡ opened (is_minus_one ctx.sk_fd) ctx.sk_fd h
      → view (close_sk_fd os true (ctx, w)).1 ≡ h
  unfolding close_sk_fd
  close_sk_fd-holding ctx h w e = elim (Bool-cases (is_minus_one ctx.sk_fd)) [
    | inl n ↦ let e' = rw n at e in rw (close_sk_fd, n) e'
    | inr n ↦ let e' = rw n at e in rw (close_sk_fd, n) (ledger.close_undoes ctx.sk_fd h w e')
  ]

  pub cleanup-holding :
      (ctx : Context) (h : Holdings) (w : W)
      → view w ≡ holding ctx h
      → view (netlink_ctx_cleanup os ctx true w).1 ≡ h
  unfolding netlink_ctx_cleanup
  cleanup-holding ctx h w e =
      let (freed, same) = free_nlh-holding ctx h w e in
      close_sk_fd-holding (free_nlh os ctx w).0 h (free_nlh os ctx w).1 (freed ∙ rw same refl)

  -- How `netlink_ctx_init` ends on a fresh context.
  abbrev InitEnds : Holdings → ℤ × Context × W → Type 0
  InitEnds h (r, ctx, w) =
      ((is_zero r ≡ true) × (ctx.nlh ≡ false) × (view w ≡ holding ctx h))
      ⊎ ((is_zero r ≡ false) × (view w ≡ h))

  init-InitEnds : (w : W) → InitEnds (view w) (netlink_ctx_init os fresh_context w)
  unfolding netlink_ctx_init
  init-InitEnds w =
      let (fd, w1) = os.socket w in
      let (bound, w2) = os.bind fd (os.gettid w1) w1 in
      let opens = ledger.socket_opens w in
      let kept = ledger.bind_keeps fd (os.gettid w1) w1 in
      elim (Bool-cases (is_minus_one fd)) [
        | inl e ↦ let opens' = rw e at opens in rw (netlink_ctx_init, e) (inr (refl, opens'))
        | inr e ↦
            let opens' = rw e at opens in
            elim (Bool-cases (is_zero bound)) [
              | inl b ↦ rw (netlink_ctx_init, e, b, e) (inl (refl, refl, kept ∙ opens'))
              | inr b ↦
                  rw (netlink_ctx_init, e, b)
                    (inr (refl, ledger.close_undoes fd (view w) w2 (kept ∙ opens')))
            ]
      ]

  fetch_exchange-balanced :
      (pods : Pods) (stack : Stack) (ctx : Context) (h : Holdings) (w : W)
      → view w ≡ holding ctx h
      → view (fetch_exchange os pods stack ctx w).1 ≡ h
  unfolding fetch_exchange
  fetch_exchange-balanced pods stack ctx h w e =
      let (sent, w1) =
        os.sendto ctx.sk_fd (fetch_request (os.gettid w) pods stack) ctx.dest_pid w in
      let (r, w2) = os.recvfrom ctx.sk_fd sizeof_user_msg_info w1 in
      let sends =
        ledger.sendto_keeps ctx.sk_fd (fetch_request (os.gettid w) pods stack) ctx.dest_pid w ∙ e in
      let receives = ledger.recvfrom_keeps ctx.sk_fd sizeof_user_msg_info w1 ∙ sends in
      elim (Bool-cases (is_zero sent)) [
        | inl z ↦ rw (fetch_exchange, z) (cleanup-holding ctx h w1 sends)
        | inr z ↦ rw (fetch_exchange, z) (cleanup-holding ctx h w2 receives)
      ]

  -- How `netlink_ctx_alloc_msg` ends on a context without a buffer.
  abbrev AllocEnds : Holdings → ℤ × Context × W → Type 0
  AllocEnds h (r, ctx, w) = view w ≡ holding ctx h

  alloc-AllocEnds :
      (ctx : Context) (h : Holdings) (w : W)
      → ctx.nlh ≡ false
      → view w ≡ holding ctx h
      → AllocEnds h (netlink_ctx_alloc_msg os ctx w)
  unfolding netlink_ctx_alloc_msg
  alloc-AllocEnds ctx h w n e =
      let grants = ledger.malloc_allocates nlmsg_space w in
      let e' = rw n at e in
      elim (Bool-cases (os.malloc nlmsg_space w).0) [
        | inl g ↦
            let m = rw g at grants in rw (netlink_ctx_alloc_msg, n, g) (m ∙ ap (allocated true) e')
        | inr g ↦ let m = rw g at grants in rw (netlink_ctx_alloc_msg, n, g) (m ∙ e')
      ]

  fetch_message-balanced :
      (pods : Pods) (stack : Stack) (h : Holdings) (o : ℤ × Context × W)
      → InitEnds h o
      → view (fetch_message os pods stack o).1 ≡ h
  unfolding fetch_message
  fetch_message-balanced pods stack h (r, ctx, w) (inr (z, e)) = rw (fetch_message, z) e
  fetch_message-balanced pods stack h (r, ctx, w) (inl (z, n, e)) =
      let (a, ctx1, w1) = netlink_ctx_alloc_msg os ctx w in
      let e1 = alloc-AllocEnds ctx h w n e in
      elim (Bool-cases (is_zero a)) [
        | inl b ↦ rw (fetch_message, z, b) (fetch_exchange-balanced pods stack ctx1 h w1 e1)
        | inr b ↦ rw (fetch_message, z, b) (cleanup-holding ctx1 h w1 e1)
      ]

  -- However `tlshub_fetch_key` ends, by a return or by `exit`, the open descriptors and the allocated blocks are
  -- those from before the call.
  pub tlshub_fetch_key-balanced :
      (pods : Pods) (stack : Stack) (w : W) → view (tlshub_fetch_key os pods stack w).1 ≡ view w
  unfolding tlshub_fetch_key
  tlshub_fetch_key-balanced pods stack w =
      fetch_message-balanced pods stack (view w) (netlink_ctx_init os fresh_context w)
        (init-InitEnds w)
