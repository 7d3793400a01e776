-- ===== src/Tlshub/Client.antt =====
-- The operations of capture/src/tlshub_client.c, over the state that the file keeps between calls and
-- the state of the system. A null pointer is `none`. Printed messages are left out.

pub mod Fetch
pub mod Init
pub mod Wait
use tlshub_ebpf.Base.{
  ℕ, zero, suc, ℤ, pos, minus_one, is_negative, is_zero, Bool, true, false, Option, none, some, [],
  ◌∷◌, ◌==◌, if◌then◌else◌, replicate, overwrite, take,
}
use tlshub_ebpf.Capture.{FlowTuple, TlsKeyInfo}
use tlshub_ebpf.Tlshub.Netlink.{Netlink, Recv, failed, received}
use tlshub_ebpf.Tlshub.Wire.{
  nlmsg_space, service_start, service_fetch, packet, init_msg, tuple_msg, sizeof_user_msg_info,
  msg_type, key_back, MyMsg, KeyBack,
}

-- `netlink_sock`, `dest_addr.nl_pid`, and whether the buffer of `tlshub_handshake` was allocated.
-- (That buffer belongs to a thread; the module has one.)
pub record Client : Type 0 where
  pub netlink_sock : ℤ
  pub dest_pid : ℕ
  pub handshake_nlh : Bool

-- The state before the first call.
abbrev pub client_start : Client
client_start = record { netlink_sock = minus_one; dest_pid = 0; handshake_nlh = false }

-- The client, the system, and what an operation returns.
pub record Outcome {ℓ} (W : Type 0) (A : Type ℓ) : Type ℓ where
  pub result : A
  pub client : Client
  pub world : W

-- The verdict of the `switch` over `u_info.msg_type`: return this value, or wait on.
pub data Verdict : Type 0 where
  return : ℤ → Verdict
  again : Verdict

-- The `switch` of `tlshub_client_init`: 0x07 ends the wait; log and unexpected messages do not.
unfoldable pub init_verdict : ℕ → Verdict
init_verdict t = if t == 7 then return (pos 0) else again

-- The `switch` of `tlshub_handshake`.
unfoldable pub handshake_verdict : ℕ → Verdict
handshake_verdict t =
    if t == 1
    then return (pos 0)
    else if t == 2
    then return (pos 0)
    else if t == 5
    then return (pos 0)
    else if t == 3
    then return minus_one
    else again

-- The verdict on one `recvfrom`. `if (!ret)` ends the wait on an empty message only; after a failed
-- call the cleared buffer is read, and its type is 0.
unfoldable pub recv_verdict : (ℕ → Verdict) → Recv → Verdict
recv_verdict judge failed = judge (msg_type [])
recv_verdict judge (received pid []) = return minus_one
recv_verdict judge (received pid (b ∷ bs)) = judge (msg_type (take sizeof_user_msg_info (b ∷ bs)))

-- `recvfrom` stores the sender's address in `dest_addr`.
unfoldable pub note_sender : Client → Recv → Client
note_sender c failed = c
note_sender c (received pid bs) = record c { dest_pid = pid }

-- The key that is read out of the buffer, unless `recvfrom` returned 0. After a failed `recvfrom` the
-- cleared buffer is read.
unfoldable pub parsed : Recv → Option KeyBack
parsed failed = some (key_back [])
parsed (received pid []) = none
parsed (received pid (b ∷ bs)) = some (key_back (take sizeof_user_msg_info (b ∷ bs)))

-- `if (key.status != 0) return -1;`, and otherwise the copy into `key_info`. The second clause is for
-- an exchange that ended without an answer.
unfoldable pub fetched : TlsKeyInfo → Option KeyBack → ℤ × Option TlsKeyInfo
fetched k none = (minus_one, some k)
fetched k (some b) =
    if b.status == 0
    then (
      pos 0,
      some (record {
        key = overwrite b.masterkey k.key;
        iv = overwrite (replicate 16 0) k.iv;
        key_len = 32;
        iv_len = 12;
      }),
    )
    else (minus_one, some k)

module _ {W : Type 0} (os : Netlink W) where
  -- `while (1) { recvfrom …; switch … }`; `none` when the fuel is used up and the loop still waits.
  unfoldable pub await : (ℕ → Verdict) → ℕ → Client → W → Option (Outcome W ℤ)
  unfolding recv_verdict note_sender
  await judge zero c w = none
  await judge (suc fuel) c w =
      let (r, w') = os.recvfrom c.netlink_sock sizeof_user_msg_info w in
      let c' = note_sender c r in
      elim (recv_verdict judge r) [
        | return v ↦ some (record { result = v; client = c'; world = w' })
        | again ↦ await judge fuel c' w'
      ]

  -- `free(nlh); close(netlink_sock); netlink_sock = -1; return -1;`
  unfoldable pub give_up : Client → W → Outcome W ℤ
  give_up c w = record {
    result = minus_one;
    client = record c { netlink_sock = minus_one };
    world = os.close c.netlink_sock w;
  }

  -- What follows the wait of `tlshub_client_init`: the buffer is freed, and after an empty message
  -- the socket is closed as well.
  unfoldable pub end_init : Outcome W ℤ → Outcome W ℤ
  end_init o =
      if is_zero o.result
      then record o { world = os.free o.world }
      else give_up o.client (os.free o.world)

  -- From the allocation of the message on.
  unfoldable pub init_exchange : ℕ → Client → W → Option (Outcome W ℤ)
  init_exchange fuel c w =
      let (granted, w1) = os.malloc nlmsg_space w in
      let (sent, w2) = os.sendto c.netlink_sock (packet (os.gettid w1) init_msg) c.dest_pid w1 in
      let answer = await init_verdict fuel c w2 in
      if granted
      then (if is_zero sent
          then some (give_up c (os.free w2))
          else elim answer [ none ↦ none | some o ↦ some (end_init o) ])
      else some (give_up c w1)

  -- `int tlshub_client_init(void)`
  unfoldable pub tlshub_client_init : ℕ → Client → W → Option (Outcome W ℤ)
  tlshub_client_init fuel c w =
      let (fd, w1) = os.socket w in
      let c1 = record c { netlink_sock = fd } in
      let (bound, w2) = os.bind fd (os.gettid w1) w1 in
      let rest = init_exchange fuel (record c1 { dest_pid = 0 }) w2 in
      if is_negative fd
      then some (record { result = minus_one; client = c1; world = w1 })
      else if is_negative bound
      then some (give_up c1 w2)
      else rest

  -- `void tlshub_client_cleanup(void)`
  unfoldable pub tlshub_client_cleanup : Client → W → Client × W
  tlshub_client_cleanup c w =
      if is_negative c.netlink_sock
      then (c, w)
      else (record c { netlink_sock = minus_one }, os.close c.netlink_sock w)

  -- From the allocation of the message to the parsed answer: `none` where the source returns -1
  -- before it has one.
  unfoldable pub fetch_exchange : FlowTuple → Client → W → Outcome W (Option KeyBack)
  unfolding parsed note_sender
  fetch_exchange t c w =
      let (granted, w1) = os.malloc nlmsg_space w in
      let request = packet (os.gettid w1) (tuple_msg service_fetch t) in
      let (sent, w2) = os.sendto c.netlink_sock request c.dest_pid w1 in
      let (r, w3) = os.recvfrom c.netlink_sock sizeof_user_msg_info w2 in
      if granted
      then (if is_zero sent
          then record { result = none; client = c; world = os.free w2 }
          else record { result = parsed r; client = note_sender c r; world = os.free w3 })
      else record { result = none; client = c; world = w1 }

  -- `int tlshub_fetch_key(tuple, key_info)`: the return value and what `key_info` points to afterwards.
  unfoldable pub tlshub_fetch_key :
      Option FlowTuple → Option TlsKeyInfo → Client → W → Outcome W (ℤ × Option TlsKeyInfo)
  unfolding fetch_exchange fetched
  tlshub_fetch_key (some t) (some k) c w =
      let o = fetch_exchange t c w in
      if is_negative c.netlink_sock
      then record { result = (minus_one, some k); client = c; world = w }
      else record { result = fetched k o.result; client = o.client; world = o.world }
  tlshub_fetch_key t k c w = record { result = (minus_one, k); client = c; world = w }

  -- From the message on. The buffer of the thread is allocated once and kept.
  unfoldable pub handshake_exchange : ℕ → FlowTuple → Client → W → Option (Outcome W ℤ)
  handshake_exchange fuel t c w =
      let request = packet (os.gettid w) (tuple_msg service_start t) in
      let (sent, w1) = os.sendto c.netlink_sock request c.dest_pid w in
      let answer = await handshake_verdict fuel c w1 in
      if is_zero sent then some (record { result = minus_one; client = c; world = w1 }) else answer

  -- `int tlshub_handshake(tuple)`
  unfoldable pub tlshub_handshake : ℕ → Option FlowTuple → Client → W → Option (Outcome W ℤ)
  unfolding handshake_exchange
  tlshub_handshake fuel none c w = some (record { result = minus_one; client = c; world = w })
  tlshub_handshake fuel (some t) c w =
      let reused = handshake_exchange fuel t c w in
      let (granted, w1) = os.malloc nlmsg_space w in
      let fresh = handshake_exchange fuel t (record c { handshake_nlh = true }) w1 in
      if is_negative c.netlink_sock
      then some (record { result = minus_one; client = c; world = w })
      else if c.handshake_nlh
      then reused
      else if granted
      then fresh
      else some (record { result = minus_one; client = c; world = w1 })
