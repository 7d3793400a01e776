-- ===== src/Api/Program/Sending.antt =====
-- What a handshake of tlshub-api/tlshub.c hands to `sendto`.
use tlshub_ebpf.Base.{
  ℕ, zero, suc, ◌≡◌, refl, ap, ◌∙◌, ◌⊎◌, inl, inr, ℤ, is_negative, is_zero, true, false, Option,
  none, some, List, ◌∷◌, Bytes, Bool-cases,
}
use tlshub_ebpf.Tlshub.Netlink.{Netlink}
use tlshub_ebpf.Tlshub.Wire.{nlmsg_space, sizeof_user_msg_info}
use tlshub_ebpf.Tlshub.Client.{return, again, Verdict, handshake_verdict}
use tlshub_ebpf.Api.Wire.{Stack, Pods, start_request}
use tlshub_ebpf.Api.Context.{
  Context, End, returned, exited, crashed, is_minus_one, netlink_ctx_init, netlink_ctx_alloc_msg,
  free_nlh, close_sk_fd, netlink_ctx_cleanup, note_reply, reply_verdict, wait_reply,
}
use tlshub_ebpf.Api.Requests.{as_end, start_exchange, start_message, tlshub_handshake}

-- The messages that were handed to `sendto`, the latest first, whether or not the call then succeeded; the
-- other calls hand over none.
pub record IsSendTrace {W : Type 0} (os : Netlink W) (log : W → List Bytes) : Type 0 where
  pub sendto_records :
      (fd : ℤ) (bs : Bytes) (pid : ℕ) (w : W) → log (os.sendto fd bs pid w).1 ≡ bs ∷ log w
  pub socket_keeps : (w : W) → log (os.socket w).1 ≡ log w
  pub bind_keeps : (fd : ℤ) (pid : ℕ) (w : W) → log (os.bind fd pid w).1 ≡ log w
  pub close_keeps : (fd : ℤ) (w : W) → log (os.close fd w) ≡ log w
  pub malloc_keeps : (n : ℕ) (w : W) → log (os.malloc n w).1 ≡ log w
  pub free_keeps : (w : W) → log (os.free w) ≡ log w
  pub recvfrom_keeps : (fd : ℤ) (room : ℕ) (w : W) → log (os.recvfrom fd room w).1 ≡ log w

module _ {W : Type 0} (os : Netlink W) (log : W → List Bytes) (trace : IsSendTrace os log) where
  free_nlh_keeps : (ctx : Context) (w : W) → log (free_nlh os ctx w).1 ≡ log w
  unfolding free_nlh
  free_nlh_keeps ctx w = elim (Bool-cases ctx.nlh) [
    | inl n ↦ rw (free_nlh, n) (trace.free_keeps w)
    | inr n ↦ rw (free_nlh, n) refl
  ]

  close_sk_fd_keeps : (ctx : Context) (w : W) → log (close_sk_fd os true (ctx, w)).1 ≡ log w
  unfolding close_sk_fd
  close_sk_fd_keeps ctx w = elim (Bool-cases (is_minus_one ctx.sk_fd)) [
    | inl m ↦ rw (close_sk_fd, m) refl
    | inr m ↦ rw (close_sk_fd, m) (trace.close_keeps ctx.sk_fd w)
  ]

  cleanup_keeps : (ctx : Context) (w : W) → log (netlink_ctx_cleanup os ctx true w).1 ≡ log w
  unfolding netlink_ctx_cleanup
  cleanup_keeps ctx w =
      close_sk_fd_keeps (free_nlh os ctx w).0 (free_nlh os ctx w).1 ∙ free_nlh_keeps ctx w

  init_keeps : (ctx : Context) (w : W) → log (netlink_ctx_init os ctx w).2 ≡ log w
  unfolding netlink_ctx_init
  init_keeps ctx w =
      let (fd, w1) = os.socket w in
      let (bound, w2) = os.bind fd (os.gettid w1) w1 in
      let e1 = trace.socket_keeps w in
      let e2 = trace.bind_keeps fd (os.gettid w1) w1 ∙ e1 in
      elim (Bool-cases (is_minus_one ctx.sk_fd)) [
        | inr s ↦ rw (netlink_ctx_init, s) refl
        | inl s ↦ elim (Bool-cases (is_minus_one fd)) [
          | inl f ↦ rw (netlink_ctx_init, s, f) e1
          | inr f ↦ elim (Bool-cases (is_zero bound)) [
            | inl b ↦ rw (netlink_ctx_init, s, f, b) e2
            | inr b ↦ rw (netlink_ctx_init, s, f, b) (trace.close_keeps fd w2 ∙ e2)
          ]
        ]
      ]

  alloc_keeps : (ctx : Context) (w : W) → log (netlink_ctx_alloc_msg os ctx w).2 ≡ log w
  unfolding netlink_ctx_alloc_msg
  alloc_keeps ctx w = elim (Bool-cases ctx.nlh) [
    | inl n ↦ rw (netlink_ctx_alloc_msg, n) refl
    | inr n ↦ elim (Bool-cases (os.malloc nlmsg_space w).0) [
      | inl g ↦ rw (netlink_ctx_alloc_msg, n, g) (trace.malloc_keeps nlmsg_space w)
      | inr g ↦ rw (netlink_ctx_alloc_msg, n, g) (trace.malloc_keeps nlmsg_space w)
    ]
  ]

  Verdict-cases : (d : Verdict) → ((v : ℤ) × (d ≡ return v)) ⊎ (d ≡ again)
  Verdict-cases (return v) = inl (v, refl)
  Verdict-cases again = inr refl

  -- What a wait hands over: nothing.
  abbrev Quiet : List Bytes → Option (ℤ × Context × W) → Type 0
  Quiet before none = Unit
  Quiet before (some (v, ctx, w)) = log w ≡ before

  wait_reply-Quiet :
      (fuel : ℕ) (before : List Bytes) (ctx : Context) (w : W)
      → log w ≡ before
      → Quiet before (wait_reply os handshake_verdict fuel ctx w)
  unfolding wait_reply
  wait_reply-Quiet zero before ctx w e = tt
  wait_reply-Quiet (suc fuel) before ctx w e =
      let (r, w1) = os.recvfrom ctx.sk_fd sizeof_user_msg_info w in
      let e1 = trace.recvfrom_keeps ctx.sk_fd sizeof_user_msg_info w ∙ e in
      elim (Verdict-cases (reply_verdict handshake_verdict r)) [
        | inl (v, p) ↦ rw (wait_reply, p) e1
        | inr p ↦ rw (wait_reply, p) (wait_reply-Quiet fuel before (note_reply os ctx r) w1 e1)
      ]

  -- The handshake did not return 0.
  abbrev pub Failed : End ℤ → Type 0
  Failed (returned v) = is_zero v ≡ false
  Failed exited = Unit
  Failed crashed = Unit

  -- What a handshake hands to `sendto`: nothing, and then it does not return 0, or its request, once.
  abbrev pub Sends : Pods → Stack → List Bytes → Option (End ℤ × Context × W) → Type 0
  Sends pods stack before none = Unit
  Sends pods stack before (some (end, ctx, w)) =
      (Failed end × (log w ≡ before))
      ⊎ ((pid : ℕ) × (log w ≡ start_request pid pods stack ∷ before))

  as_end-Sends :
      (pods : Pods) (stack : Stack) (pid : ℕ) (before : List Bytes) (o : Option (ℤ × Context × W))
      → Quiet (start_request pid pods stack ∷ before) o
      → Sends pods stack before (as_end o)
  as_end-Sends pods stack pid before none e = tt
  as_end-Sends pods stack pid before (some (v, ctx, w)) e = inr (pid, e)

  start_exchange-Sends :
      (fuel : ℕ) (pods : Pods) (stack : Stack) (before : List Bytes) (ctx : Context) (w : W)
      → log w ≡ before
      → Sends pods stack before (start_exchange os fuel pods stack ctx w)
  unfolding start_exchange
  start_exchange-Sends fuel pods stack before ctx w e =
      let request = start_request (os.gettid w) pods stack in
      let (sent, w1) = os.sendto ctx.sk_fd request ctx.dest_pid w in
      let e1 =
        trace.sendto_records ctx.sk_fd request ctx.dest_pid w
        ∙ ap {A = List Bytes} {B = List Bytes} (λ l. request ∷ l) e in
      elim (Bool-cases (is_negative ctx.sk_fd)) [
        | inl n ↦ rw (start_exchange, n) (inl (refl, e))
        | inr n ↦ elim (Bool-cases (is_zero sent)) [
          | inl z ↦ rw (start_exchange, n, z) (inr (os.gettid w, cleanup_keeps ctx w1 ∙ e1))
          | inr z ↦
              rw (start_exchange, n, z)
                (as_end-Sends pods stack (os.gettid w) before
                  (wait_reply os handshake_verdict fuel ctx w1)
                  (wait_reply-Quiet fuel (request ∷ before) ctx w1 e1))
        ]
      ]

  start_message-Sends :
      (fuel : ℕ) (pods : Pods) (stack : Stack) (before : List Bytes) (r : ℤ) (ctx : Context) (w : W)
      → log w ≡ before
      → Sends pods stack before (start_message os fuel pods stack (r, ctx, w))
  unfolding start_message
  start_message-Sends fuel pods stack before r ctx w e =
      let (a, ctx1, w1) = netlink_ctx_alloc_msg os ctx w in
      let e1 = alloc_keeps ctx w ∙ e in
      elim (Bool-cases (is_zero r)) [
        | inr z ↦ rw (start_message, z) (inl (refl, e))
        | inl z ↦ elim (Bool-cases (is_zero a)) [
          | inl b ↦
              rw (start_message, z, b) (start_exchange-Sends fuel pods stack before ctx1 w1 e1)
          | inr b ↦ rw (start_message, z, b) (inl (refl, e1))
        ]
      ]

  pub tlshub_handshake-Sends :
      (fuel : ℕ) (pods : Pods) (stack : Stack) (before : List Bytes) (ctx : Context) (w : W)
      → log w ≡ before
      → Sends pods stack before (tlshub_handshake os fuel pods stack ctx w)
  unfolding tlshub_handshake
  tlshub_handshake-Sends fuel pods stack before ctx w e =
      let (r, ctx1, w1) = netlink_ctx_init os ctx w in
      start_message-Sends fuel pods stack before r ctx1 w1 (init_keeps ctx w ∙ e)
