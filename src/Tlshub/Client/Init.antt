-- ===== src/Tlshub/Client/Init.antt =====
-- `tlshub_client_init` and `tlshub_client_cleanup`: the socket that the file keeps.
use tlshub_ebpf.Base.{
  ℕ, zero, suc, ◌<◌, ℤ, pos, minus_one, is_negative, is_zero, ◌≡◌, ◌⊎◌, inl, inr, refl, true, false,
  some, Option-cases, Bytes, [], ◌∷◌, arith, byte-take,
}
use tlshub_ebpf.Tlshub.Netlink.{Netlink, Recv, failed, received}
use tlshub_ebpf.Tlshub.Wire.{packet, sizeof_user_msg_info, msg_type, nlmsg_space, init_msg}
use tlshub_ebpf.Tlshub.Client.{
  Client, Outcome, Verdict, return, again, recv_verdict, init_verdict, note_sender, await,
  tlshub_client_init, init_exchange, end_init, give_up,
}
use tlshub_ebpf.Tlshub.Client.Wait.{Skips, await-Skips}

-- The socket is open exactly after success.
abbrev pub IsConsistent : {W : Type 0} → Outcome W ℤ → Type 0
IsConsistent o =
    ((o.result ≡ pos 0) × (is_negative o.client.netlink_sock ≡ false))
    ⊎ ((o.result ≡ minus_one) × (is_negative o.client.netlink_sock ≡ true))

init_verdict_cases :
    (r : Recv) (v : ℤ) → recv_verdict init_verdict r ≡ return v → (v ≡ pos 0) ⊎ (v ≡ minus_one)
unfolding recv_verdict init_verdict
init_verdict_cases failed v e = ground arith
init_verdict_cases (received pid []) v e = ground arith
init_verdict_cases (received pid (b ∷ bs)) v e = ground arith

note_sender_sock : (c : Client) (r : Recv) → (note_sender c r).netlink_sock ≡ c.netlink_sock
unfolding note_sender
note_sender_sock c failed = refl
note_sender_sock c (received pid bs) = refl

Verdict-cases : (d : Verdict) → ((v : ℤ) × (d ≡ return v)) ⊎ (d ≡ again)
Verdict-cases (return v) = inl (v, refl)
Verdict-cases again = inr refl

module _ {W : Type 0} (os : Netlink W) where
  -- The wait keeps the socket, and returns 0 or -1.
  await_init :
      (fuel : ℕ) (c : Client) (w : W) (o : Outcome W ℤ)
      → await os init_verdict fuel c w ≡ some o
      → ((o.result ≡ pos 0) ⊎ (o.result ≡ minus_one)) × (o.client.netlink_sock ≡ c.netlink_sock)
  unfolding await
  await_init zero c w o e = cc
  await_init (suc fuel) c w o e =
      let r = (os.recvfrom c.netlink_sock sizeof_user_msg_info w).0 in
      let w1 = (os.recvfrom c.netlink_sock sizeof_user_msg_info w).1 in
      elim (Verdict-cases (recv_verdict init_verdict r)) [
        | inl (v, p) ↦ ground (arith, p, e, init_verdict_cases r v p, note_sender_sock c r)
        | inr p ↦ ground (arith, p, e, note_sender_sock c r, await_init fuel (note_sender c r) w1 o)
      ]

  end_init-IsConsistent :
      (o : Outcome W ℤ)
      → (o.result ≡ pos 0) ⊎ (o.result ≡ minus_one)
      → is_negative o.client.netlink_sock ≡ false
      → IsConsistent (end_init os o)
  unfolding end_init give_up
  end_init-IsConsistent o (inl z) h = rw z (inl (refl, h))
  end_init-IsConsistent o (inr z) h = rw z (inr (refl, refl))

  init_exchange-IsConsistent :
      (fuel : ℕ) (c : Client) (w : W) (o : Outcome W ℤ)
      → is_negative c.netlink_sock ≡ false
      → init_exchange os fuel c w ≡ some o
      → IsConsistent o
  unfolding init_exchange give_up
  init_exchange-IsConsistent fuel c w o h e =
      let w1 = (os.malloc nlmsg_space w).1 in
      let w2 = (os.sendto c.netlink_sock (packet (os.gettid w1) init_msg) c.dest_pid w1).1 in
      elim (Option-cases (await os init_verdict fuel c w2)) [
        | inl p ↦ ground (arith, p, e, h)
        | inr (a, p) ↦
            let kept = await_init fuel c w2 a p in
            ground (arith, p, e, h, kept, end_init-IsConsistent a kept.0 (rw kept.1 h))
      ]

  -- When `tlshub_client_init` returns, it returned 0 and keeps an open socket, or it returned -1 and
  -- keeps none.
  pub init-IsConsistent :
      (fuel : ℕ) (c : Client) (w : W) (o : Outcome W ℤ)
      → tlshub_client_init os fuel c w ≡ some o
      → IsConsistent o
  unfolding tlshub_client_init give_up
  init-IsConsistent fuel c w o e =
      let c1 = record c { netlink_sock = (os.socket w).0; dest_pid = 0 } in
      let w1 = (os.socket w).1 in
      let w2 = (os.bind c1.netlink_sock (os.gettid w1) w1).1 in
      ground (arith, e, init_exchange-IsConsistent fuel c1 w2 o)

  -- A message of type 7 ends the initialisation: once the socket is open and bound, the buffer granted
  -- and the message sent, fuel above the number of messages before it makes the call return 0 with the
  -- new socket kept.
  pub init_returns :
      (fuel n : ℕ) (c c2 : Client) (w w1 w2 w3 w4 w5 w6 : W) (fd bound sent : ℤ) (pid b : ℕ)
      (bs : Bytes)
      → n < fuel
      → os.socket w ≡ (fd, w1)
      → is_negative fd ≡ false
      → os.bind fd (os.gettid w1) w1 ≡ (bound, w2)
      → is_negative bound ≡ false
      → os.malloc nlmsg_space w2 ≡ (true, w3)
      → os.sendto fd (packet (os.gettid w3) init_msg) 0 w3 ≡ (sent, w4)
      → is_zero sent ≡ false
      → Skips os init_verdict n (record c { netlink_sock = fd; dest_pid = 0 }) w4 c2 w5
      → os.recvfrom c2.netlink_sock sizeof_user_msg_info w5 ≡ (received pid (b ∷ bs), w6)
      → msg_type (b ∷ bs) ≡ 7
      → tlshub_client_init os fuel c w
        ≡ some
            (record { result = pos 0; client = record c2 { dest_pid = pid }; world = os.free w6 })
  unfolding tlshub_client_init note_sender recv_verdict init_verdict end_init init_exchange
  init_returns fuel n c c2 w w1 w2 w3 w4 w5 w6 fd bound sent pid b bs h s fd_ok bd bound_ok g snd
        snt skips got ty =
      let judged : recv_verdict init_verdict (received pid (b ∷ bs)) ≡ return (pos 0) =
        ground (arith, byte-take sizeof_user_msg_info 16 (b ∷ bs)) in
      let waited =
        await-Skips os init_verdict fuel n _ c2 w4 w5 w6 (received pid (b ∷ bs)) (pos 0) h skips got
          judged in
      rw (s, bd, fd_ok, bound_ok, init_exchange, g, snd, snt, waited)
