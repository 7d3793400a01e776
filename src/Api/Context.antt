-- ===== src/Api/Context.antt =====
-- The netlink context of tlshub-api/tlshub.c, and the wait for the kernel module.
use tlshub_ebpf.Base.{
  ℕ, zero, suc, ℤ, pos, negsuc, minus_one, is_zero, Bool, true, false, not, ◌&&◌, Option, none,
  some, [], ◌∷◌, if◌then◌else◌, take,
}
use tlshub_ebpf.Tlshub.Netlink.{Netlink, Recv, failed, received}
use tlshub_ebpf.Tlshub.Wire.{nlmsg_space, sizeof_user_msg_info, msg_type}
use tlshub_ebpf.Tlshub.Client.{Verdict, return, again}

-- `netlink_context_t`: the socket, whether the buffer `nlh` was allocated, and `daddr.nl_pid`.
pub record Context : Type 0 where
  pub sk_fd : ℤ
  pub nlh : Bool
  pub dest_pid : ℕ

-- `{ .sk_fd = -1, .nlh = NULL }`
abbrev pub fresh_context : Context
fresh_context = record { sk_fd = minus_one; nlh = false; dest_pid = 0 }

-- How a function ends: with a value, by `exit(-1)`, or by a write through a null pointer.
pub data End {ℓ} (A : Type ℓ) : Type ℓ where
  returned : A → End A
  exited crashed : End A

abbrev pub minus_two : ℤ
minus_two = negsuc 1

-- `x == -1`
abbrev pub is_minus_one : ℤ → Bool
is_minus_one (negsuc zero) = true
is_minus_one (negsuc (suc n)) = false
is_minus_one (pos n) = false

-- The verdict on one `recvfrom`; an empty message makes the caller return -2. After a failed call the cleared
-- buffer is read, and its type is 0.
unfoldable pub reply_verdict : (ℕ → Verdict) → Recv → Verdict
reply_verdict judge failed = judge (msg_type [])
reply_verdict judge (received pid []) = return minus_two
reply_verdict judge (received pid (b ∷ bs)) = judge (msg_type (take sizeof_user_msg_info (b ∷ bs)))

module _ {W : Type 0} (os : Netlink W) where
  -- `netlink_ctx_init(ctx)`
  unfoldable pub netlink_ctx_init : Context → W → ℤ × Context × W
  netlink_ctx_init ctx w =
      let (fd, w1) = os.socket w in
      let (bound, w2) = os.bind fd (os.gettid w1) w1 in
      if not (is_minus_one ctx.sk_fd)
      then (pos 0, ctx, w)
      else if is_minus_one fd
      then (minus_one, record ctx { sk_fd = fd }, w1)
      else if not (is_zero bound)
      then (minus_one, record ctx { sk_fd = minus_one }, os.close fd w2)
      else (pos 0, record ctx { sk_fd = fd; dest_pid = 0 }, w2)

  -- `netlink_ctx_alloc_msg(ctx)`
  unfoldable pub netlink_ctx_alloc_msg : Context → W → ℤ × Context × W
  netlink_ctx_alloc_msg ctx w =
      let (granted, w1) = os.malloc nlmsg_space w in
      if ctx.nlh
      then (pos 0, ctx, w)
      else if granted
      then (pos 0, record ctx { nlh = true }, w1)
      else (minus_one, ctx, w1)

  -- `netlink_ctx_cleanup(ctx, close_socket)`: the buffer, then the socket.
  unfoldable pub free_nlh : Context → W → Context × W
  free_nlh ctx w = if ctx.nlh then (record ctx { nlh = false }, os.free w) else (ctx, w)

  unfoldable pub close_sk_fd : Bool → Context × W → Context × W
  close_sk_fd close_socket (ctx, w) =
      if close_socket && not (is_minus_one ctx.sk_fd)
      then (record ctx { sk_fd = minus_one }, os.close ctx.sk_fd w)
      else (ctx, w)

  unfoldable pub netlink_ctx_cleanup : Context → Bool → W → Context × W
  unfolding free_nlh close_sk_fd
  netlink_ctx_cleanup ctx close_socket w = close_sk_fd close_socket (free_nlh ctx w)

  -- `recvfrom` stores the sender's address in `daddr`.
  unfoldable pub note_reply : Context → Recv → Context
  note_reply ctx failed = ctx
  note_reply ctx (received pid bs) = record ctx { dest_pid = pid }

  -- `while (1) { recvfrom …; switch … }`; `none` when the fuel is used up and the loop still waits.
  unfoldable pub wait_reply : (ℕ → Verdict) → ℕ → Context → W → Option (ℤ × Context × W)
  unfolding reply_verdict note_reply
  wait_reply judge zero ctx w = none
  wait_reply judge (suc fuel) ctx w =
      let (r, w1) = os.recvfrom ctx.sk_fd sizeof_user_msg_info w in
      elim (reply_verdict judge r) [
        | return v ↦ some (v, note_reply ctx r, w1)
        | again ↦ wait_reply judge fuel (note_reply ctx r) w1
      ]
