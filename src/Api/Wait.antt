-- ===== src/Api/Wait.antt =====
-- The loops of tlshub-api/tlshub.c that wait for the kernel module end.
use tlshub_ebpf.Base.{
  ℕ, zero, suc, ◌<◌, ℤ, pos, minus_one, is_negative, is_zero, ◌≡◌, ◌⊎◌, refl, true, false, some,
  Bytes, [], ◌∷◌, arith, byte-take,
}
use tlshub_ebpf.Tlshub.Netlink.{Netlink, Recv, failed, received}
use tlshub_ebpf.Tlshub.Wire.{nlmsg_space, sizeof_user_msg_info, msg_type}
use tlshub_ebpf.Tlshub.Client.{Verdict, return, again, init_verdict, handshake_verdict}
use tlshub_ebpf.Api.Wire.{Stack, Pods, init_request, start_request}
use tlshub_ebpf.Api.Context.{
  Context, returned, minus_two, reply_verdict, note_reply, wait_reply, netlink_ctx_init,
  netlink_ctx_alloc_msg,
}
use tlshub_ebpf.Api.Service.{
  init_user_netlink, malloc_netlink_pkthdr, end_service_init, service_exchange, tlshub_service_init,
}
use tlshub_ebpf.Base.Holdings.{Holdings}
use tlshub_ebpf.Api.Ledger.{IsLedger}
use tlshub_ebpf.Api.Leak.{ServiceEnds, tlshub_service_init-ServiceEnds}
use tlshub_ebpf.Api.Requests.{start_exchange, start_message, tlshub_handshake}

-- From the context `c` and the system `w` on, `n` messages come that do not end the wait; the next `recvfrom` is
-- asked in `c'`, `w'`.
pub data Skips {W : Type 0} (os : Netlink W) (judge : ℕ → Verdict)
    : ℕ → Context → W → Context → W → Type 0 where
  here : {c : Context} {w : W} → Skips os judge zero c w c w
  skip :
      {n : ℕ} {c c' : Context} {w w' : W} (r : Recv) (w1 : W)
      → os.recvfrom c.sk_fd sizeof_user_msg_info w ≡ (r, w1)
      → reply_verdict judge r ≡ again
      → Skips os judge n (note_reply os c r) w1 c' w'
      → Skips os judge (suc n) c w c' w'

-- The `recvfrom` that ends a handshake, and the value that it makes `tlshub_handshake` return.
pub data Concludes : Recv → ℤ → Type 0 where
  succeeded :
      (pid b : ℕ) (bs : Bytes)
      → (msg_type (b ∷ bs) ≡ 1) ⊎ ((msg_type (b ∷ bs) ≡ 2) ⊎ (msg_type (b ∷ bs) ≡ 5))
      → Concludes (received pid (b ∷ bs)) (pos 0)
  refused :
      (pid b : ℕ) (bs : Bytes) → msg_type (b ∷ bs) ≡ 3 → Concludes (received pid (b ∷ bs)) minus_one
  empty : (pid : ℕ) → Concludes (received pid []) minus_two

-- The `recvfrom` that ends the initialisation, and the value that it makes `tlshub_service_init` return.
pub data Initialises : Recv → ℤ → Type 0 where
  succeeded :
      (pid b : ℕ) (bs : Bytes) → msg_type (b ∷ bs) ≡ 7 → Initialises (received pid (b ∷ bs)) (pos 0)
  empty : (pid : ℕ) → Initialises (received pid []) minus_two

reply_verdict-Concludes :
    {r : Recv} {v : ℤ} → Concludes r v → reply_verdict handshake_verdict r ≡ return v
unfolding reply_verdict handshake_verdict
reply_verdict-Concludes (succeeded pid b bs h) =
    ground (arith, byte-take sizeof_user_msg_info 16 (b ∷ bs))
reply_verdict-Concludes (refused pid b bs h) =
    ground (arith, byte-take sizeof_user_msg_info 16 (b ∷ bs))
reply_verdict-Concludes (empty pid) = refl

reply_verdict-Initialises :
    {r : Recv} {v : ℤ} → Initialises r v → reply_verdict init_verdict r ≡ return v
unfolding reply_verdict init_verdict
reply_verdict-Initialises (succeeded pid b bs h) =
    ground (arith, byte-take sizeof_user_msg_info 16 (b ∷ bs))
reply_verdict-Initialises (empty pid) = refl

module _ {W : Type 0} (os : Netlink W) (judge : ℕ → Verdict) where
  -- Fuel above the number of skipped messages is enough.
  wait_reply-Skips :
      (fuel n : ℕ) (c c' : Context) (w w' w'' : W) (r : Recv) (v : ℤ)
      → n < fuel
      → Skips os judge n c w c' w'
      → os.recvfrom c'.sk_fd sizeof_user_msg_info w' ≡ (r, w'')
      → reply_verdict judge r ≡ return v
      → wait_reply os judge fuel c w ≡ some (v, note_reply os c' r, w'')
  unfolding wait_reply
  wait_reply-Skips zero n c c' w w' w'' r v h s e f = absurd (omega arith)
  wait_reply-Skips (suc fuel) _ c _ w _ w'' r v h here e f = rw (wait_reply, e, f, e) refl
  wait_reply-Skips (suc fuel) _ c c' w w' w'' r v h (skip {n = m} r1 w1 got on rest) e f =
      rw (wait_reply, got, on, got)
        (wait_reply-Skips fuel m _ c' w1 w' w'' r v (omega arith) rest e f)

-- The message of a handshake went out: the socket and the buffer of the thread's context were there or were
-- made. The wait begins in the context `c'` and the system `w'`.
pub record Started {W : Type 0} (os : Netlink W) (pods : Pods) (stack : Stack) (c : Context) (w : W)
    (c' : Context) (w' : W) : Type 0 where
  pub prepared : Context
  pub sent : ℤ
  pub w1 : W
  pub w2 : W
  pub opens : netlink_ctx_init os c w ≡ (pos 0, prepared, w1)
  pub grants : netlink_ctx_alloc_msg os prepared w1 ≡ (pos 0, c', w2)
  pub is_open : is_negative c'.sk_fd ≡ false
  pub sends :
      os.sendto c'.sk_fd (start_request (os.gettid w2) pods stack) c'.dest_pid w2 ≡ (sent, w')
  pub kept : is_zero sent ≡ false

abbrev pub sender : Recv → ℕ
sender failed = 0
sender (received pid bs) = pid

module _ {W : Type 0} (os : Netlink W) where
  note_reply-sender :
      {r : Recv} {v : ℤ} (c : Context)
      → Concludes r v
      → note_reply os c r ≡ record c { dest_pid = sender r }
  unfolding note_reply
  note_reply-sender c (succeeded pid b bs h) = refl
  note_reply-sender c (refused pid b bs h) = refl
  note_reply-sender c (empty pid) = refl

  -- A handshake that was sent returns as soon as a message decides it, with any fuel above the number of log and
  -- unexpected messages before it: 0 for the types 1, 2 and 5, -1 for type 3 and -2 for an empty message. The
  -- thread's context then addresses the sender of that message.
  pub tlshub_handshake_returns :
      (pods : Pods) (stack : Stack) (fuel n : ℕ) (c c1 c2 : Context) (w w1 w2 w3 : W) (r : Recv)
      (v : ℤ)
      → n < fuel
      → Started os pods stack c w c1 w1
      → Skips os handshake_verdict n c1 w1 c2 w2
      → os.recvfrom c2.sk_fd sizeof_user_msg_info w2 ≡ (r, w3)
      → Concludes r v
      → tlshub_handshake os fuel pods stack c w
        ≡ some (returned v, record c2 { dest_pid = sender r }, w3)
  unfolding tlshub_handshake
  tlshub_handshake_returns pods stack fuel n c c1 c2 w w1 w2 w3 r v h s skips got ends =
      let waits =
        wait_reply-Skips os handshake_verdict fuel n c1 c2 w1 w2 w3 r v h skips got
          (reply_verdict-Concludes ends) in
      let noted = note_reply-sender c2 ends in
      rw
        (
          tlshub_handshake, s.opens, start_message, s.grants, start_exchange, s.is_open, s.sends,
          s.kept, waits, noted,
        )
        refl

-- The message of `tlshub_service_init` went out on the socket `fd`, and the wait begins in the system `w'`.
pub record Announced {W : Type 0} (os : Netlink W) (stack : Stack) (w : W) (fd : ℕ) (w' : W)
    : Type 0 where
  pub sent : ℤ
  pub w1 : W
  pub w2 : W
  pub w3 : W
  pub opens : os.socket w ≡ (pos fd, w1)
  pub binds : os.bind (pos fd) (os.gettid w1) w1 ≡ (pos 0, w2)
  pub grants : os.malloc nlmsg_space w2 ≡ (true, w3)
  pub sends : os.sendto (pos fd) (init_request (os.gettid w3) stack) 0 w3 ≡ (sent, w')
  pub kept : is_zero sent ≡ false

-- The context of the wait.
abbrev pub service_context : ℕ → Context
service_context fd = record { sk_fd = pos fd; nlh = true; dest_pid = 0 }

module _ {W : Type 0} (os : Netlink W) where
  Initialises-end :
      (r : Recv) (v : ℤ) (c : Context) (w : W)
      → Initialises r v
      → (w' : W) × (end_service_init os (v, c, w) ≡ (returned v, w'))
  unfolding end_service_init
  Initialises-end r v c w (succeeded pid b bs h) = (os.free (os.close c.sk_fd w), refl)
  Initialises-end r v c w (empty pid) = (w, refl)

  Announced-returns :
      (stack : Stack) (fuel n fd : ℕ) (c : Context) (w w1 w2 w3 : W) (r : Recv) (v : ℤ)
      → n < fuel
      → Announced os stack w fd w1
      → Skips os init_verdict n (service_context fd) w1 c w2
      → os.recvfrom c.sk_fd sizeof_user_msg_info w2 ≡ (r, w3)
      → Initialises r v
      → (w' : W) × (tlshub_service_init os fuel stack w ≡ some (returned v, w'))
  unfolding tlshub_service_init init_user_netlink malloc_netlink_pkthdr
  Announced-returns stack fuel n fd c w w1 w2 w3 r v h a skips got ends =
      let waits =
        wait_reply-Skips os init_verdict fuel n (service_context fd) c w1 w2 w3 r v h skips got
          (reply_verdict-Initialises ends) in
      let (w', e) = Initialises-end r v (note_reply os c r) w3 ends in
      let opened : init_user_netlink os w ≡ (pos fd, a.w2) =
        rw (init_user_netlink, a.opens, a.binds) refl in
      let granted : malloc_netlink_pkthdr os a.w2 ≡ (returned true, a.w3) =
        rw (malloc_netlink_pkthdr, a.grants) refl in
      (
        w',
        rw (tlshub_service_init, opened, granted, service_exchange, a.sends, a.kept, waits, e) refl,
      )

  -- Once its message is sent, `tlshub_service_init` returns with any fuel above the number of messages before the
  -- deciding one: 0 for a message of type 7, and then what is open and allocated is as before the call; -2 for an
  -- empty message, and then its socket is still open and its buffer still allocated.
  pub tlshub_service_init_returns :
      (view : W → Holdings) (ledger : IsLedger os view) (stack : Stack) (fuel n fd : ℕ)
      (c : Context) (w w1 w2 w3 : W) (r : Recv) (v : ℤ)
      → n < fuel
      → Announced os stack w fd w1
      → Skips os init_verdict n (service_context fd) w1 c w2
      → os.recvfrom c.sk_fd sizeof_user_msg_info w2 ≡ (r, w3)
      → Initialises r v
      → (w' : W) × (tlshub_service_init os fuel stack w ≡ some (returned v, w'))
        × ServiceEnds (view w) (returned v) (view w')
  tlshub_service_init_returns view ledger stack fuel n fd c w w1 w2 w3 r v h a skips got ends =
      let (w', e) = Announced-returns stack fuel n fd c w w1 w2 w3 r v h a skips got ends in
      let left = tlshub_service_init-ServiceEnds os view ledger fuel stack w in
      (w', e, rw e at left)
