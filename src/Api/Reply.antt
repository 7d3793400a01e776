-- ===== src/Api/Reply.antt =====
-- The messages of tlshub-api/tlshub.c against those of capture/src/tlshub_client.c, and the key that a fetch
-- returns.
use tlshub_ebpf.Base.{
  ℕ, ◌^◌, ◌<◌, ◌≡◌, refl, ◌∙◌, ap, ℤ, pos, minus_one, is_zero, true, false, Bytes, [], ◌∷◌, length,
}
use tlshub_ebpf.Capture.{FlowTuple}
use tlshub_ebpf.Tlshub.Netlink.{Netlink, Recv, received}
use tlshub_ebpf.Tlshub.Wire.{
  nlmsg_space, sizeof_user_msg_info, service_start, service_fetch, packet, tuple_msg,
}
use tlshub_ebpf.Tlshub.Wire.RoundTrip.{key_reply, key_back-key_reply}
use tlshub_ebpf.Api.Wire.{Stack, Pods, start_request, fetch_request}
use tlshub_ebpf.Api.Context.{fresh_context, returned, netlink_ctx_init, netlink_ctx_alloc_msg}
use tlshub_ebpf.Api.Requests.{no_key, key_of, fetch_exchange, fetch_message, tlshub_fetch_key}

-- The flow that the arguments name.
abbrev pub flow_of : Pods → FlowTuple
flow_of p = record {
  saddr = p.client_pod_ip;
  daddr = p.server_pod_ip;
  sport = p.client_pod_port;
  dport = p.server_pod_port;
}

-- The stack held zeros where nothing is assigned.
pub record IsClear (s : Stack) : Type 0 where
  pub server_clear : s.server ≡ 0
  pub padding_clear : s.padding ≡ 0 ∷ 0 ∷ []

-- Where the stack held zeros, the messages of `tlshub_handshake` and `tlshub_fetch_key` are byte for byte those
-- that the capture client sends for the same flow.
pub requests_agree :
    (pid : ℕ) (pods : Pods) (stack : Stack)
    → IsClear stack
    → (start_request pid pods stack ≡ packet pid (tuple_msg service_start (flow_of pods)))
      × (fetch_request pid pods stack ≡ packet pid (tuple_msg service_fetch (flow_of pods)))
unfolding start_request fetch_request packet tuple_msg
requests_agree pid pods stack clear = (
  rw (start_request, clear.padding_clear) refl,
  rw (fetch_request, clear.server_clear, clear.padding_clear) refl,
)

-- A fetch whose message went out: a socket, a buffer, and `recvfrom` did `r`.
pub record Requested {W : Type 0} (os : Netlink W) (pods : Pods) (stack : Stack) (r : Recv) (w : W)
    : Type 0 where
  pub fd : ℕ
  pub sent : ℤ
  pub w1 : W
  pub w2 : W
  pub w3 : W
  pub w4 : W
  pub w5 : W
  pub opens : os.socket w ≡ (pos fd, w1)
  pub binds : os.bind (pos fd) (os.gettid w1) w1 ≡ (pos 0, w2)
  pub grants : os.malloc nlmsg_space w2 ≡ (true, w3)
  pub sends : os.sendto (pos fd) (fetch_request (os.gettid w3) pods stack) 0 w3 ≡ (sent, w4)
  pub kept : is_zero sent ≡ false
  pub receives : os.recvfrom (pos fd) sizeof_user_msg_info w4 ≡ (r, w5)

module _ {W : Type 0} (os : Netlink W) (pods : Pods) (stack : Stack) where
  init-Requested :
      (r : Recv) (w : W) (q : Requested os pods stack r w)
      → netlink_ctx_init os fresh_context w
        ≡ (pos 0, record { sk_fd = pos q.fd; nlh = false; dest_pid = 0 }, q.w2)
  unfolding netlink_ctx_init
  init-Requested r w q = rw (netlink_ctx_init, q.opens, q.binds) refl

  fetch-Requested :
      (r : Recv) (w : W) (q : Requested os pods stack r w)
      → (tlshub_fetch_key os pods stack w).0 ≡ key_of r
  unfolding tlshub_fetch_key fetch_message netlink_ctx_alloc_msg fetch_exchange
  fetch-Requested r w q =
      rw (tlshub_fetch_key, init-Requested r w q, q.grants, q.sends, q.kept, q.receives) refl

  -- When the message went out and the kernel module replied, `tlshub_fetch_key` returns the status and the
  -- master key of the reply.
  pub tlshub_fetch_key-key_reply :
      (w : W) (sender pid ty status : ℕ) (masterkey : Bytes)
      → status < 2 ^ 32
      → length masterkey ≡ 32
      → Requested os pods stack (received sender (key_reply pid ty status masterkey)) w
      → (tlshub_fetch_key os pods stack w).0
        ≡ returned (record { status = status; masterkey = masterkey })
  unfolding key_of
  tlshub_fetch_key-key_reply w sender pid ty status masterkey fits size q =
      fetch-Requested (received sender (key_reply pid ty status masterkey)) w q
      ∙ ap returned (key_back-key_reply pid ty status masterkey fits size)

  -- The message cannot go out: no socket, no address, or no buffer.
  pub data Unable (w : W) : Type 0 where
    no_socket : (w1 : W) → os.socket w ≡ (minus_one, w1) → Unable w
    no_address :
        (fd : ℕ) (r : ℤ) (w1 w2 : W)
        → os.socket w ≡ (pos fd, w1)
        → os.bind (pos fd) (os.gettid w1) w1 ≡ (r, w2)
        → is_zero r ≡ false
        → Unable w
    no_buffer :
        (fd : ℕ) (w1 w2 w3 : W)
        → os.socket w ≡ (pos fd, w1)
        → os.bind (pos fd) (os.gettid w1) w1 ≡ (pos 0, w2)
        → os.malloc nlmsg_space w2 ≡ (false, w3)
        → Unable w

  -- When there is no socket, no address or no buffer, `tlshub_fetch_key` returns a key of zeros with status 0.
  pub tlshub_fetch_key-Unable :
      (w : W) → Unable w → (tlshub_fetch_key os pods stack w).0 ≡ returned no_key
  unfolding tlshub_fetch_key fetch_message netlink_ctx_init netlink_ctx_alloc_msg
  tlshub_fetch_key-Unable w (no_socket w1 e) = rw (tlshub_fetch_key, netlink_ctx_init, e) refl
  tlshub_fetch_key-Unable w (no_address fd r w1 w2 e b z) =
      rw (tlshub_fetch_key, netlink_ctx_init, e, b, z) refl
  tlshub_fetch_key-Unable w (no_buffer fd w1 w2 w3 e b g) =
      let made : netlink_ctx_init os fresh_context w
          ≡ (pos 0, record { sk_fd = pos fd; nlh = false; dest_pid = 0 }, w2) =
        rw (netlink_ctx_init, e, b) refl in
      rw (tlshub_fetch_key, made, g) refl
