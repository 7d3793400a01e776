-- ===== src/Api/Requests.antt =====
-- `tlshub_handshake` and `tlshub_fetch_key` of tlshub-api/tlshub.c. The context of the handshake belongs to the
-- thread and is kept; the one of the fetch is its own.
use tlshub_ebpf.Base.{
  ℕ, ℤ, minus_one, is_negative, is_zero, true, not, Option, none, some, [], ◌∷◌, if◌then◌else◌,
  replicate, take,
}
use tlshub_ebpf.Tlshub.Netlink.{Netlink, Recv, failed, received}
use tlshub_ebpf.Tlshub.Wire.{sizeof_user_msg_info, KeyBack, key_back}
use tlshub_ebpf.Tlshub.Client.{handshake_verdict}
use tlshub_ebpf.Api.Wire.{Stack, Pods, start_request, fetch_request}
use tlshub_ebpf.Api.Context.{
  Context, fresh_context, End, returned, exited, netlink_ctx_init, netlink_ctx_alloc_msg,
  netlink_ctx_cleanup, wait_reply,
}

-- `memset(&key, 0, sizeof(struct key_back))`
abbrev pub no_key : KeyBack
no_key = record { status = 0; masterkey = replicate 32 0 }

-- What the loop of the handshake leaves.
abbrev pub as_end : {W : Type 0} → Option (ℤ × Context × W) → Option (End ℤ × Context × W)
as_end none = none
as_end (some (r, ctx, w)) = some (returned r, ctx, w)

-- The key in the buffer, unless `recvfrom` returned 0. After a failed call the cleared buffer is read.
unfoldable pub key_of : Recv → End KeyBack
key_of failed = returned (key_back [])
key_of (received pid []) = exited
key_of (received pid (b ∷ bs)) = returned (key_back (take sizeof_user_msg_info (b ∷ bs)))

module _ {W : Type 0} (os : Netlink W) where
  -- The message, with a socket and a buffer.
  unfoldable pub start_exchange : ℕ → Pods → Stack → Context → W → Option (End ℤ × Context × W)
  start_exchange fuel pods stack ctx w =
      let (sent, w1) =
        os.sendto ctx.sk_fd (start_request (os.gettid w) pods stack) ctx.dest_pid w in
      let answer = wait_reply os handshake_verdict fuel ctx w1 in
      let (ctx', w') = netlink_ctx_cleanup os ctx true w1 in
      if is_negative ctx.sk_fd
      then some (returned minus_one, ctx, w)
      else if is_zero sent
      then some (exited, ctx', w')
      else as_end answer

  -- The buffer, with a socket.
  unfoldable pub start_message : ℕ → Pods → Stack → ℤ × Context × W → Option (End ℤ × Context × W)
  unfolding start_exchange
  start_message fuel pods stack (r, ctx, w) =
      let (allocated, ctx1, w1) = netlink_ctx_alloc_msg os ctx w in
      let rest = start_exchange fuel pods stack ctx1 w1 in
      if not (is_zero r)
      then some (returned minus_one, ctx, w)
      else if not (is_zero allocated)
      then some (returned minus_one, ctx1, w1)
      else rest

  -- `tlshub_handshake(client_pod_ip, …)`, with the thread's context.
  unfoldable pub tlshub_handshake : ℕ → Pods → Stack → Context → W → Option (End ℤ × Context × W)
  unfolding start_message
  tlshub_handshake fuel pods stack ctx w = start_message fuel pods stack (netlink_ctx_init os ctx w)

  -- The exchange of the fetch, with a socket and a buffer.
  unfoldable pub fetch_exchange : Pods → Stack → Context → W → End KeyBack × W
  unfolding key_of
  fetch_exchange pods stack ctx w =
      let (sent, w1) =
        os.sendto ctx.sk_fd (fetch_request (os.gettid w) pods stack) ctx.dest_pid w in
      let (r, w2) = os.recvfrom ctx.sk_fd sizeof_user_msg_info w1 in
      if is_zero sent
      then (exited, (netlink_ctx_cleanup os ctx true w1).1)
      else (key_of r, (netlink_ctx_cleanup os ctx true w2).1)

  -- The buffer, with a socket.
  unfoldable pub fetch_message : Pods → Stack → ℤ × Context × W → End KeyBack × W
  unfolding fetch_exchange
  fetch_message pods stack (r, ctx, w) =
      let (allocated, ctx1, w1) = netlink_ctx_alloc_msg os ctx w in
      let rest = fetch_exchange pods stack ctx1 w1 in
      if not (is_zero r)
      then (returned no_key, w)
      else if not (is_zero allocated)
      then (returned no_key, (netlink_ctx_cleanup os ctx1 true w1).1)
      else rest

  -- `tlshub_fetch_key(client_pod_ip, …)`
  unfoldable pub tlshub_fetch_key : Pods → Stack → W → End KeyBack × W
  unfolding fetch_message
  tlshub_fetch_key pods stack w = fetch_message pods stack (netlink_ctx_init os fresh_context w)
