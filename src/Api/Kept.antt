-- ===== src/Api/Kept.antt =====
-- What the thread's context of tlshub-api/tlshub.c holds from one handshake to the next.
use tlshub_ebpf.Base.{
  ℕ, zero, suc, ◌≡◌, refl, sym, ap, ◌∙◌, ◌⊎◌, ℤ, is_zero, is_negative, Bool, true, false, Option,
  none, some, Bool-cases, inl, inr,
}
use tlshub_ebpf.Tlshub.Netlink.{Netlink, Recv, failed, received}
use tlshub_ebpf.Tlshub.Wire.{sizeof_user_msg_info, nlmsg_space}
use tlshub_ebpf.Tlshub.Client.{Verdict, return, again, handshake_verdict}
use tlshub_ebpf.Api.Wire.{Stack, Pods, start_request}
use tlshub_ebpf.Api.Context.{
  Context, fresh_context, End, returned, is_minus_one, netlink_ctx_init, netlink_ctx_alloc_msg,
  free_nlh, close_sk_fd, netlink_ctx_cleanup, note_reply, reply_verdict, wait_reply,
}
use tlshub_ebpf.Api.Requests.{as_end, start_exchange, start_message, tlshub_handshake}
use tlshub_ebpf.Base.Holdings.{Holdings, opened, allocated}
use tlshub_ebpf.Api.Ledger.{IsLedger, holding, cleanup-holding}

-- The handshakes of one thread, one after the other, each of which returned: from the context and the system
-- on the left to those on the right.
pub data Handshakes {W : Type 0} (os : Netlink W) : Context → W → Context → W → Type 0 where
  here : {c : Context} {w : W} → Handshakes os c w c w
  next :
      {c c1 c2 : Context} {w w1 w2 : W} (fuel : ℕ) (pods : Pods) (stack : Stack) (v : ℤ)
      → tlshub_handshake os fuel pods stack c w ≡ some (returned v, c1, w1)
      → Handshakes os c1 w1 c2 w2
      → Handshakes os c w c2 w2

module _ {W : Type 0} (os : Netlink W) (view : W → Holdings) (ledger : IsLedger os view) where
  -- The context holds what the thread holds beyond `h`.
  abbrev pub IsHeld : Holdings → Context → W → Type 0
  IsHeld h ctx w = view w ≡ holding ctx h

  note_reply-IsHeld :
      (r : Recv) (h : Holdings) (ctx : Context) (w : W)
      → IsHeld h ctx w
      → IsHeld h (note_reply os ctx r) w
  unfolding note_reply
  note_reply-IsHeld failed h ctx w e = e
  note_reply-IsHeld (received pid bs) h ctx w e = e

  pub Verdict-cases : (d : Verdict) → ((v : ℤ) × (d ≡ return v)) ⊎ (d ≡ again)
  Verdict-cases (return v) = inl (v, refl)
  Verdict-cases again = inr refl

  -- What a wait leaves, when it comes back.
  abbrev pub Left : (ℤ → Context → W → Type 0) → Option (ℤ × Context × W) → Type 0
  Left P none = Unit
  Left P (some (v, ctx, w)) = P v ctx w

  pub wait_reply-IsHeld :
      (judge : ℕ → Verdict) (fuel : ℕ) (h : Holdings) (ctx : Context) (w : W)
      → IsHeld h ctx w
      → Left (λ v. IsHeld h) (wait_reply os judge fuel ctx w)
  unfolding wait_reply
  wait_reply-IsHeld judge zero h ctx w e = tt
  wait_reply-IsHeld judge (suc fuel) h ctx w e =
      let (r, w1) = os.recvfrom ctx.sk_fd sizeof_user_msg_info w in
      let e1 = ledger.recvfrom_keeps ctx.sk_fd sizeof_user_msg_info w ∙ e in
      elim (Verdict-cases (reply_verdict judge r)) [
        | inl (v, p) ↦ rw (wait_reply, p) (note_reply-IsHeld r h ctx w1 e1)
        | inr p ↦
            rw (wait_reply, p)
              (wait_reply-IsHeld judge fuel h (note_reply os ctx r) w1
                (note_reply-IsHeld r h ctx w1 e1))
      ]

  -- On any context: what it leaves, `netlink_ctx_alloc_msg` and `netlink_ctx_init` have accounted for.
  abbrev pub InContext : Holdings → ℤ × Context × W → Type 0
  InContext h (r, ctx, w) = IsHeld h ctx w

  alloc-IsHeld :
      (h : Holdings) (ctx : Context) (w : W)
      → IsHeld h ctx w
      → InContext h (netlink_ctx_alloc_msg os ctx w)
  unfolding netlink_ctx_alloc_msg
  alloc-IsHeld h ctx w e =
      let grants = ledger.malloc_allocates nlmsg_space w in
      elim (Bool-cases ctx.nlh) [
        | inl n ↦ let e' = rw n at e in rw (netlink_ctx_alloc_msg, n) e'
        | inr n ↦
            let e' = rw n at e in
            elim (Bool-cases (os.malloc nlmsg_space w).0) [
              | inl g ↦
                  let m = rw g at grants in
                  rw (netlink_ctx_alloc_msg, n, g) (m ∙ ap (allocated true) e')
              | inr g ↦ let m = rw g at grants in rw (netlink_ctx_alloc_msg, n, g) (m ∙ e')
            ]
      ]

  init-IsHeld :
      (h : Holdings) (ctx : Context) (w : W)
      → IsHeld h ctx w
      → InContext h (netlink_ctx_init os ctx w)
  unfolding netlink_ctx_init
  init-IsHeld h ctx w e =
      let (fd, w1) = os.socket w in
      let (bound, w2) = os.bind fd (os.gettid w1) w1 in
      let opens = ledger.socket_opens w in
      let kept = ledger.bind_keeps fd (os.gettid w1) w1 in
      elim (Bool-cases (is_minus_one ctx.sk_fd)) [
        | inr s ↦ rw (netlink_ctx_init, s) e
        | inl s ↦
            let e' = rw s at e in
            elim (Bool-cases (is_minus_one fd)) [
              | inl f ↦ let opens' = rw f at opens in rw (netlink_ctx_init, s, f, f) (opens' ∙ e')
              | inr f ↦
                  let opens' = (rw f at opens) ∙ ap (opened false fd) e' in
                  elim (Bool-cases (is_zero bound)) [
                    | inl b ↦
                        rw (netlink_ctx_init, s, f, b, f) (kept ∙ opens' ∙ commuted ctx.nlh fd h)
                    | inr b ↦
                        rw (netlink_ctx_init, s, f, b)
                          (ledger.close_undoes fd (allocated ctx.nlh h) w2 (kept ∙ opens'))
                  ]
            ]
      ]
    where
      commuted :
          (b : Bool) (fd : ℤ) (h : Holdings)
          → opened false fd (allocated b h) ≡ allocated b (opened false fd h)
      commuted true fd h = refl
      commuted false fd h = refl

  -- After `netlink_ctx_cleanup(ctx, true)` the context holds nothing.
  close_sk_fd-empty :
      (ctx : Context) (h : Holdings) (w : W)
      → ctx.nlh ≡ false
      → (let (ctx', w') = close_sk_fd os true (ctx, w) in holding ctx' h) ≡ h
  unfolding close_sk_fd
  close_sk_fd-empty ctx h w n = elim (Bool-cases (is_minus_one ctx.sk_fd)) [
    | inl m ↦ rw (close_sk_fd, m, n, m) refl
    | inr m ↦ rw (close_sk_fd, m, n) refl
  ]

  free_nlh-empty : (ctx : Context) (w : W) → (free_nlh os ctx w).0.nlh ≡ false
  unfolding free_nlh
  free_nlh-empty ctx w = elim (Bool-cases ctx.nlh) [
    | inl n ↦ rw (free_nlh, n) refl
    | inr n ↦ rw (free_nlh, n) refl
  ]

  cleanup-IsHeld :
      (ctx : Context) (h : Holdings) (w : W)
      → IsHeld h ctx w
      → (let (ctx', w') = netlink_ctx_cleanup os ctx true w in IsHeld h ctx' w')
  unfolding netlink_ctx_cleanup
  cleanup-IsHeld ctx h w e =
      cleanup-holding os view ledger ctx h w e
      ∙ sym (close_sk_fd-empty (free_nlh os ctx w).0 h (free_nlh os ctx w).1 (free_nlh-empty ctx w))

  -- What a handshake leaves, when it comes back.
  abbrev pub Handled : Holdings → Option (End ℤ × Context × W) → Type 0
  Handled h none = Unit
  Handled h (some (end, ctx, w)) = IsHeld h ctx w

  as_end-Handled :
      (h : Holdings) (o : Option (ℤ × Context × W)) → Left (λ v. IsHeld h) o → Handled h (as_end o)
  as_end-Handled h none e = e
  as_end-Handled h (some (v, ctx, w)) e = e

  start_exchange-Handled :
      (fuel : ℕ) (pods : Pods) (stack : Stack) (h : Holdings) (ctx : Context) (w : W)
      → IsHeld h ctx w
      → Handled h (start_exchange os fuel pods stack ctx w)
  unfolding start_exchange
  start_exchange-Handled fuel pods stack h ctx w e =
      let request = start_request (os.gettid w) pods stack in
      let (sent, w1) = os.sendto ctx.sk_fd request ctx.dest_pid w in
      let e1 = ledger.sendto_keeps ctx.sk_fd request ctx.dest_pid w ∙ e in
      elim (Bool-cases (is_negative ctx.sk_fd)) [
        | inl n ↦ rw (start_exchange, n) e
        | inr n ↦ elim (Bool-cases (is_zero sent)) [
          | inl z ↦ rw (start_exchange, n, z) (cleanup-IsHeld ctx h w1 e1)
          | inr z ↦
              rw (start_exchange, n, z)
                (as_end-Handled h (wait_reply os handshake_verdict fuel ctx w1)
                  (wait_reply-IsHeld handshake_verdict fuel h ctx w1 e1))
        ]
      ]

  start_message-Handled :
      (fuel : ℕ) (pods : Pods) (stack : Stack) (h : Holdings) (o : ℤ × Context × W)
      → InContext h o
      → Handled h (start_message os fuel pods stack o)
  unfolding start_message
  start_message-Handled fuel pods stack h (r, ctx, w) e =
      let (a, ctx1, w1) = netlink_ctx_alloc_msg os ctx w in
      let e1 = alloc-IsHeld h ctx w e in
      elim (Bool-cases (is_zero r)) [
        | inr z ↦ rw (start_message, z) e
        | inl z ↦ elim (Bool-cases (is_zero a)) [
          | inl b ↦ rw (start_message, z, b) (start_exchange-Handled fuel pods stack h ctx1 w1 e1)
          | inr b ↦ rw (start_message, z, b) e1
        ]
      ]

  tlshub_handshake-Handled :
      (fuel : ℕ) (pods : Pods) (stack : Stack) (h : Holdings) (ctx : Context) (w : W)
      → IsHeld h ctx w
      → Handled h (tlshub_handshake os fuel pods stack ctx w)
  unfolding tlshub_handshake
  tlshub_handshake-Handled fuel pods stack h ctx w e =
      start_message-Handled fuel pods stack h (netlink_ctx_init os ctx w) (init-IsHeld h ctx w e)

  Handshakes-IsHeld :
      (h : Holdings) {c c' : Context} {w w' : W}
      → IsHeld h c w
      → Handshakes os c w c' w'
      → IsHeld h c' w'
  Handshakes-IsHeld h e here = e
  Handshakes-IsHeld h {c = c} {w = w} e (next fuel pods stack v step rest) =
      let left = tlshub_handshake-Handled fuel pods stack h c w e in
      Handshakes-IsHeld h (rw step at left) rest

  -- After any number of handshakes of a thread, however they returned, the thread holds what it held before the
  -- first and what its context names: the socket, if there is one, and the buffer, if there is one.
  pub Handshakes-holding :
      (c : Context) (w w' : W) → Handshakes os fresh_context w c w' → view w' ≡ holding c (view w)
  Handshakes-holding c w w' runs = Handshakes-IsHeld (view w) refl runs
