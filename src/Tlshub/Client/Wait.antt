-- ===== src/Tlshub/Client/Wait.antt =====
-- The loops of capture/src/tlshub_client.c that wait for the kernel module.
use tlshub_ebpf.Base.{
  ℕ, zero, suc, ◌<◌, ℤ, pos, minus_one, is_negative, is_zero, ◌≡◌, ◌⊎◌, inl, inr, refl, ◌∙◌, true,
  false, none, some, Bytes, [], ◌∷◌, arith, byte-take,
}
use tlshub_ebpf.Capture.{FlowTuple}
use tlshub_ebpf.Tlshub.Netlink.{Netlink, Recv, failed, received}
use tlshub_ebpf.Tlshub.Wire.{
  service_start, packet, tuple_msg, sizeof_user_msg_info, msg_type, nlmsg_space,
}
use tlshub_ebpf.Tlshub.Client.{
  Client, Outcome, Verdict, return, again, recv_verdict, handshake_verdict, note_sender, await,
  tlshub_handshake, handshake_exchange,
}

-- From `c`, `w` on, `n` messages come that do not end the wait; the next `recvfrom` is asked in the
-- state `c'`, `w'`.
pub data Skips {W : Type 0} (os : Netlink W) (judge : ℕ → Verdict)
    : ℕ → Client → W → Client → W → Type 0 where
  here : {c : Client} {w : W} → Skips os judge zero c w c w
  skip :
      {n : ℕ} {c c' : Client} {w w' : W} (r : Recv) (w1 : W)
      → os.recvfrom c.netlink_sock sizeof_user_msg_info w ≡ (r, w1)
      → recv_verdict judge r ≡ again
      → Skips os judge n (note_sender c r) w1 c' w'
      → Skips os judge (suc n) c w c' w'

module _ {W : Type 0} (os : Netlink W) (judge : ℕ → Verdict) where
  -- Fuel above the number of skipped messages is enough.
  pub await-Skips :
      (fuel n : ℕ) (c c' : Client) (w w' w'' : W) (r : Recv) (v : ℤ)
      → n < fuel
      → Skips os judge n c w c' w'
      → os.recvfrom c'.netlink_sock sizeof_user_msg_info w' ≡ (r, w'')
      → recv_verdict judge r ≡ return v
      → await os judge fuel c w
        ≡ some (record { result = v; client = note_sender c' r; world = w'' })
  unfolding await
  await-Skips zero n c c' w w' w'' r v h s e f = absurd (omega arith)
  await-Skips (suc fuel) _ c _ w _ w'' r v h here e f = rw (await, e, f, e)
  await-Skips (suc fuel) _ c c' w w' w'' r v h (skip {n = m} r1 w1 got on rest) e f =
      rw (await, got, on, got) (await-Skips fuel m _ c' w1 w' w'' r v (omega arith) rest e f)

-- The `recvfrom` that ends a handshake, and the value that it makes the client return.
pub data Concludes : Recv → ℤ → Type 0 where
  succeeded :
      (pid b : ℕ) (bs : Bytes)
      → (msg_type (b ∷ bs) ≡ 1) ⊎ ((msg_type (b ∷ bs) ≡ 2) ⊎ (msg_type (b ∷ bs) ≡ 5))
      → Concludes (received pid (b ∷ bs)) (pos 0)
  refused :
      (pid b : ℕ) (bs : Bytes) → msg_type (b ∷ bs) ≡ 3 → Concludes (received pid (b ∷ bs)) minus_one
  empty : (pid : ℕ) → Concludes (received pid []) minus_one

handshake_verdict-Concludes :
    {r : Recv} {v : ℤ} → Concludes r v → recv_verdict handshake_verdict r ≡ return v
unfolding recv_verdict handshake_verdict
handshake_verdict-Concludes (succeeded pid b bs h) =
    ground (arith, byte-take sizeof_user_msg_info 16 (b ∷ bs))
handshake_verdict-Concludes (refused pid b bs h) =
    ground (arith, byte-take sizeof_user_msg_info 16 (b ∷ bs))
handshake_verdict-Concludes (empty pid) = refl

-- A handshake message went out from the client `c`: the thread's buffer was there or was granted now.
-- The wait begins in the client `c'` and the system `w'`.
pub data Started {W : Type 0} (os : Netlink W) (t : FlowTuple) (c : Client) (w : W)
    : Client → W → Type 0 where
  reused :
      (sent : ℤ) (w' : W)
      → is_negative c.netlink_sock ≡ false
      → c.handshake_nlh ≡ true
      → os.sendto c.netlink_sock (packet (os.gettid w) (tuple_msg service_start t)) c.dest_pid w
        ≡ (sent, w')
      → is_zero sent ≡ false
      → Started os t c w c w'
  fresh :
      (sent : ℤ) (w1 w' : W)
      → is_negative c.netlink_sock ≡ false
      → c.handshake_nlh ≡ false
      → os.malloc nlmsg_space w ≡ (true, w1)
      → os.sendto c.netlink_sock (packet (os.gettid w1) (tuple_msg service_start t)) c.dest_pid w1
        ≡ (sent, w')
      → is_zero sent ≡ false
      → Started os t c w (record c { handshake_nlh = true }) w'

module _ {W : Type 0} (os : Netlink W) (t : FlowTuple) where
  handshake-Started :
      (fuel : ℕ) (c c' : Client) (w w' : W)
      → Started os t c w c' w'
      → tlshub_handshake os fuel (some t) c w ≡ await os handshake_verdict fuel c' w'
  unfolding tlshub_handshake
  handshake-Started fuel c _ w w' (reused sent _ opened nlh sends kept) =
      rw (opened, nlh, handshake_exchange, sends, kept)
  handshake-Started fuel c _ w w' (fresh sent w1 _ opened nlh granted sends kept) =
      rw (opened, nlh, granted, handshake_exchange, sends, kept)

  -- A handshake that was sent returns as soon as a message decides it, with any fuel above the number
  -- of log and unexpected messages before it: 0 for the types 1, 2 and 5, and -1 for type 3 or an
  -- empty message.
  pub handshake_returns :
      (fuel n : ℕ) (c c1 c2 : Client) (w w1 w2 w3 : W) (r : Recv) (v : ℤ)
      → n < fuel
      → Started os t c w c1 w1
      → Skips os handshake_verdict n c1 w1 c2 w2
      → os.recvfrom c2.netlink_sock sizeof_user_msg_info w2 ≡ (r, w3)
      → Concludes r v
      → tlshub_handshake os fuel (some t) c w
        ≡ some (record { result = v; client = note_sender c2 r; world = w3 })
  handshake_returns fuel n c c1 c2 w w1 w2 w3 r v h s skips got ends =
      handshake-Started fuel c c1 w w1 s
      ∙ await-Skips os handshake_verdict fuel n c1 c2 w1 w2 w3 r v h skips got
          (handshake_verdict-Concludes ends)

  await_failing :
      (fuel : ℕ) (c : Client) (w : W)
      → ((v : W) → (os.recvfrom c.netlink_sock sizeof_user_msg_info v).0 ≡ failed)
      → await os handshake_verdict fuel c w ≡ none
  unfolding await handshake_verdict
  await_failing zero c w h = refl
  await_failing (suc fuel) c w h = rw (await, h w, h w) (await_failing fuel c _ h)

  -- While `recvfrom` fails on the client's socket, a handshake that was sent never returns.
  pub handshake_hangs :
      (fuel : ℕ) (c c' : Client) (w w' : W)
      → Started os t c w c' w'
      → ((v : W) → (os.recvfrom c'.netlink_sock sizeof_user_msg_info v).0 ≡ failed)
      → tlshub_handshake os fuel (some t) c w ≡ none
  handshake_hangs fuel c c' w w' s h =
      handshake-Started fuel c c' w w' s ∙ await_failing fuel c' w' h

module _ {W : Type 0} (os : Netlink W) where
  Verdict-again_or : (d : Verdict) → ((v : ℤ) × (d ≡ return v)) ⊎ (d ≡ again)
  Verdict-again_or (return v) = inl (v, refl)
  Verdict-again_or again = inr refl

  -- A wait returns what some `recvfrom` made it return.
  pub await_result :
      (P : ℤ → Type 0) (judge : ℕ → Verdict)
      → ((r : Recv) (v : ℤ) → recv_verdict judge r ≡ return v → P v)
      → (fuel : ℕ) (c : Client) (w : W) (o : Outcome W ℤ) → await os judge fuel c w ≡ some o
      → P o.result
  unfolding await
  await_result P judge every zero c w o e = cc
  await_result P judge every (suc fuel) c w o e =
      let r = (os.recvfrom c.netlink_sock sizeof_user_msg_info w).0 in
      let w1 = (os.recvfrom c.netlink_sock sizeof_user_msg_info w).1 in
      elim (Verdict-again_or (recv_verdict judge r)) [
        | inl (v, p) ↦ let is : o.result ≡ v = ground (arith, p, e) in rw is (every r v p)
        | inr p ↦ await_result P judge every fuel (note_sender c r) w1 o (ground (arith, p, e))
      ]

  handshake_verdict_cases :
      (r : Recv) (v : ℤ)
      → recv_verdict handshake_verdict r ≡ return v
      → (v ≡ pos 0) ⊎ (v ≡ minus_one)
  unfolding recv_verdict handshake_verdict
  handshake_verdict_cases failed v e = ground arith
  handshake_verdict_cases (received pid []) v e = ground arith
  handshake_verdict_cases (received pid (b ∷ bs)) v e = ground arith

  -- A handshake returns 0 or -1.
  pub handshake_result :
      (fuel : ℕ) (t : FlowTuple) (c : Client) (w : W) (o : Outcome W ℤ)
      → tlshub_handshake os fuel (some t) c w ≡ some o
      → (o.result ≡ pos 0) ⊎ (o.result ≡ minus_one)
  unfolding tlshub_handshake handshake_exchange
  handshake_result fuel t c w o e =
      let waits =
        await_result (λ v. (v ≡ pos 0) ⊎ (v ≡ minus_one)) handshake_verdict handshake_verdict_cases
          fuel in
      let w1 = (os.malloc nlmsg_space w).1 in
      let c1 = record c { handshake_nlh = true } in
      ground (
        arith,
        e,
        waits c
            (os.sendto c.netlink_sock (packet (os.gettid w) (tuple_msg service_start t)) c.dest_pid
              w).1
            o,
        waits c1
            (os.sendto c.netlink_sock (packet (os.gettid w1) (tuple_msg service_start t)) c.dest_pid
              w1).1
            o,
      )
