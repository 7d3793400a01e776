-- ===== src/Api/Leak.antt =====
-- What `tlshub_service_init` of tlshub-api/tlshub.c leaves open and allocated, for each way to end.
use tlshub_ebpf.Base.{
  ℕ, zero, suc, ◌≡◌, refl, ap, ◌∙◌, ℤ, pos, minus_one, is_negative, is_zero, true, false, Option,
  none, some, ◌∷◌, Bool-cases, inl, inr, ◌⊎◌, arith, [],
}
use tlshub_ebpf.Tlshub.Netlink.{Netlink, Recv, failed, received}
use tlshub_ebpf.Tlshub.Wire.{sizeof_user_msg_info, nlmsg_space}
use tlshub_ebpf.Tlshub.Client.{return, init_verdict}
use tlshub_ebpf.Api.Wire.{Stack, init_request}
use tlshub_ebpf.Api.Context.{
  Context, End, returned, exited, crashed, is_minus_one, minus_two, reply_verdict, note_reply,
  wait_reply,
}
use tlshub_ebpf.Api.Service.{
  init_user_netlink, malloc_netlink_pkthdr, end_service_init, service_exchange, checked_exchange,
  tlshub_service_init,
}
use tlshub_ebpf.Base.Holdings.{Holdings, opened, allocated}
use tlshub_ebpf.Api.Ledger.{IsLedger}
use tlshub_ebpf.Api.Kept.{Left, Verdict-cases}

-- How `tlshub_service_init` ends in a state with the holdings on the right, when it began with `h`.
pub data ServiceEnds (h : Holdings) : End ℤ → Holdings → Type 0 where
  initialised : ServiceEnds h (returned (pos 0)) h
  no_socket : ServiceEnds h (returned minus_one) h
  no_answer : (fd : ℤ) → ServiceEnds h (returned minus_two) (allocated true (opened false fd h))
  not_sent : ServiceEnds h exited (allocated true h)
  no_buffer : (fd : ℤ) → ServiceEnds h crashed (opened false fd h)

module _ {W : Type 0} (os : Netlink W) (view : W → Holdings) (ledger : IsLedger os view) where
  -- What `init_user_netlink` leaves.
  abbrev Opens : Holdings → ℤ × W → Type 0
  Opens h (fd, w) =
      ((is_negative fd ≡ true) × (view w ≡ h))
      ⊎ ((is_negative fd ≡ false) × (view w ≡ opened false fd h))

  init_user_netlink-Opens : (w : W) → Opens (view w) (init_user_netlink os w)
  unfolding init_user_netlink
  init_user_netlink-Opens w =
      let (fd, w1) = os.socket w in
      let (bound, w2) = os.bind fd (os.gettid w1) w1 in
      let opens = ledger.socket_opens w in
      let kept = ledger.bind_keeps fd (os.gettid w1) w1 in
      elim (Bool-cases (is_minus_one fd)) [
        | inl m ↦ let opens' = rw m at opens in rw (init_user_netlink, m) (inl (refl, opens'))
        | inr m ↦
            let opens' = rw m at opens in
            elim (Bool-cases (is_zero bound)) [
              | inl b ↦
                  rw (init_user_netlink, m, b) (inr (ledger.socket_result w ∙ m, kept ∙ opens'))
              | inr b ↦
                  rw (init_user_netlink, m, b)
                    (inl (refl, ledger.close_undoes fd (view w) w2 (kept ∙ opens')))
            ]
      ]

  init_verdict-Decided :
      (r : Recv) (v : ℤ) → reply_verdict init_verdict r ≡ return v → (v ≡ pos 0) ⊎ (v ≡ minus_two)
  unfolding reply_verdict init_verdict
  init_verdict-Decided failed v e = ground arith
  init_verdict-Decided (received pid []) v e = ground arith
  init_verdict-Decided (received pid (b ∷ bs)) v e = ground arith

  note_reply-sk_fd : (ctx : Context) (r : Recv) → (note_reply os ctx r).sk_fd ≡ ctx.sk_fd
  unfolding note_reply
  note_reply-sk_fd ctx failed = refl
  note_reply-sk_fd ctx (received pid bs) = refl

  -- A wait that comes back has decided, and has the socket and the holdings from before.
  abbrev Waited : ℤ → Holdings → ℤ → Context → W → Type 0
  Waited fd h v ctx w = ((v ≡ pos 0) ⊎ (v ≡ minus_two)) × (ctx.sk_fd ≡ fd) × (view w ≡ h)

  wait_reply-Waited :
      (fuel : ℕ) (fd : ℤ) (h : Holdings) (ctx : Context) (w : W)
      → ctx.sk_fd ≡ fd
      → view w ≡ h
      → Left os view ledger (Waited fd h) (wait_reply os init_verdict fuel ctx w)
  unfolding wait_reply
  wait_reply-Waited zero fd h ctx w same e = tt
  wait_reply-Waited (suc fuel) fd h ctx w same e =
      let (r, w1) = os.recvfrom ctx.sk_fd sizeof_user_msg_info w in
      let e1 = ledger.recvfrom_keeps ctx.sk_fd sizeof_user_msg_info w ∙ e in
      let same1 = note_reply-sk_fd ctx r ∙ same in
      elim (Verdict-cases os view ledger (reply_verdict init_verdict r)) [
        | inl (v, p) ↦ rw (wait_reply, p) (init_verdict-Decided r v p, same1, e1)
        | inr p ↦ rw (wait_reply, p) (wait_reply-Waited fuel fd h (note_reply os ctx r) w1 same1 e1)
      ]

  -- `ServiceEnds`, where the function ends.
  abbrev pub Ended : Holdings → Option (End ℤ × W) → Type 0
  Ended h none = Unit
  Ended h (some (end, w)) = ServiceEnds h end (view w)

  end_service_init-ServiceEnds :
      (fd : ℤ) (h : Holdings) (v : ℤ) (ctx : Context) (w : W)
      → Waited fd (allocated true (opened false fd h)) v ctx w
      → (let (end, w') = end_service_init os (v, ctx, w) in ServiceEnds h end (view w'))
  unfolding end_service_init
  end_service_init-ServiceEnds fd h v ctx w (inl z, same, e) =
      let closed = ledger.close_undoes fd (allocated true h) w e in
      let freed = ledger.free_undoes h (os.close fd w) closed in
      rw (end_service_init, z, same) (rw freed initialised)
  end_service_init-ServiceEnds fd h v ctx w (inr z, same, e) =
      rw (end_service_init, z) (rw e (no_answer fd))

  service_exchange-Ended :
      (fuel : ℕ) (fd : ℤ) (stack : Stack) (h : Holdings) (w : W)
      → view w ≡ allocated true (opened false fd h)
      → Ended h (service_exchange os fuel fd stack w)
  unfolding service_exchange
  service_exchange-Ended fuel fd stack h w e =
      let request = init_request (os.gettid w) stack in
      let (sent, w1) = os.sendto fd request 0 w in
      let e1 = ledger.sendto_keeps fd request 0 w ∙ e in
      let c : Context = record { sk_fd = fd; nlh = true; dest_pid = 0 } in
      let waits = wait_reply-Waited fuel fd (allocated true (opened false fd h)) c w1 refl e1 in
      elim (Bool-cases (is_zero sent)) [
        | inl z ↦
            let closed = ledger.close_undoes fd (allocated true h) w1 e1 in
            rw (service_exchange, z) (rw closed not_sent)
        | inr z ↦ rw (service_exchange, z) (answered (wait_reply os init_verdict fuel c w1) waits)
      ]
    where
      answered :
          (o : Option (ℤ × Context × W))
          → Left os view ledger (Waited fd (allocated true (opened false fd h))) o
          → Ended h (elim o [ none ↦ none | some o' ↦ some (end_service_init os o') ])
      answered none left = tt
      answered (some (v, ctx, w')) left = end_service_init-ServiceEnds fd h v ctx w' left

  checked_exchange-Ended :
      (fuel : ℕ) (fd : ℤ) (stack : Stack) (h : Holdings) (w : W)
      → view w ≡ opened false fd h
      → Ended h (checked_exchange os fuel fd stack (malloc_netlink_pkthdr os w))
  unfolding checked_exchange malloc_netlink_pkthdr
  checked_exchange-Ended fuel fd stack h w e =
      let (granted, w1) = os.malloc nlmsg_space w in
      let grants = ledger.malloc_allocates nlmsg_space w in
      elim (Bool-cases granted) [
        | inl g ↦
            let m = (rw g at grants) ∙ ap (allocated true) e in
            rw (malloc_netlink_pkthdr, g) (service_exchange-Ended fuel fd stack h w1 m)
        | inr g ↦
            let m = (rw g at grants) ∙ e in rw (malloc_netlink_pkthdr, g) (rw m (no_buffer fd))
      ]

  -- `tlshub_service_init` when it ends: with 0, or with -1 for want of a socket, what is open and allocated is
  -- as before the call; with -2, for want of an answer, its socket is still open and its buffer still allocated;
  -- where it exits because the message was not sent, its socket is closed; where it crashes for want of a
  -- buffer, its socket is open.
  pub tlshub_service_init-ServiceEnds :
      (fuel : ℕ) (stack : Stack) (w : W) → Ended (view w) (tlshub_service_init os fuel stack w)
  unfolding tlshub_service_init
  tlshub_service_init-ServiceEnds fuel stack w =
      let (fd, w1) = init_user_netlink os w in
      elim (init_user_netlink-Opens w) [
        | inl (n, e) ↦ rw (tlshub_service_init, n) (rw e no_socket)
        | inr (n, e) ↦
            rw (tlshub_service_init, n) (checked_exchange-Ended fuel fd stack (view w) w1 e)
      ]
