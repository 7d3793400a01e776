-- ===== src/Api/Service.antt =====
-- `tlshub_service_init` of tlshub-api/tlshub.c and what it calls.
use tlshub_ebpf.Base.{
  ℕ, ℤ, minus_one, is_negative, is_zero, Bool, true, false, not, Option, none, some, if◌then◌else◌,
}
use tlshub_ebpf.Tlshub.Netlink.{Netlink}
use tlshub_ebpf.Tlshub.Wire.{nlmsg_space}
use tlshub_ebpf.Tlshub.Client.{init_verdict}
use tlshub_ebpf.Api.Wire.{Stack, init_request}
use tlshub_ebpf.Api.Context.{Context, End, returned, exited, crashed, is_minus_one, wait_reply}

module _ {W : Type 0} (os : Netlink W) where
  -- `init_user_netlink()`
  unfoldable pub init_user_netlink : W → ℤ × W
  init_user_netlink w =
      let (fd, w1) = os.socket w in
      let (bound, w2) = os.bind fd (os.gettid w1) w1 in
      if is_minus_one fd
      then (minus_one, w1)
      else if not (is_zero bound)
      then (minus_one, os.close fd w2)
      else (fd, w2)

  -- `malloc_netlink_pkthdr()`: whether the pointer is not null. The header is cleared before the pointer is
  -- tested, so a null pointer crashes here.
  unfoldable pub malloc_netlink_pkthdr : W → End Bool × W
  malloc_netlink_pkthdr w =
      let (granted, w1) = os.malloc nlmsg_space w in
      if granted then (returned true, w1) else (crashed, w1)

  -- After the loop: the socket is closed and the buffer freed, unless the function returned -2 from within.
  unfoldable pub end_service_init : ℤ × Context × W → End ℤ × W
  end_service_init (r, ctx, w) =
      if is_zero r then (returned r, os.free (os.close ctx.sk_fd w)) else (returned r, w)

  -- From the message on.
  unfoldable pub service_exchange : ℕ → ℤ → Stack → W → Option (End ℤ × W)
  unfolding end_service_init
  service_exchange fuel fd stack w =
      let (sent, w1) = os.sendto fd (init_request (os.gettid w) stack) 0 w in
      let answer =
        wait_reply os init_verdict fuel (record { sk_fd = fd; nlh = true; dest_pid = 0 }) w1 in
      if is_zero sent
      then some (exited, os.close fd w1)
      else elim answer [ none ↦ none | some o ↦ some (end_service_init o) ]

  -- `if (nlh == NULL)` on what `malloc_netlink_pkthdr` returned.
  unfoldable pub checked_exchange : ℕ → ℤ → Stack → End Bool × W → Option (End ℤ × W)
  unfolding service_exchange
  checked_exchange fuel fd stack (returned true, w) = service_exchange fuel fd stack w
  checked_exchange fuel fd stack (returned false, w) = some (returned minus_one, w)
  checked_exchange fuel fd stack (exited, w) = some (exited, w)
  checked_exchange fuel fd stack (crashed, w) = some (crashed, w)

  -- `tlshub_service_init()`
  unfoldable pub tlshub_service_init : ℕ → Stack → W → Option (End ℤ × W)
  unfolding init_user_netlink malloc_netlink_pkthdr checked_exchange
  tlshub_service_init fuel stack w =
      let (fd, w1) = init_user_netlink w in
      let rest = checked_exchange fuel fd stack (malloc_netlink_pkthdr w1) in
      if is_negative fd then some (returned minus_one, w1) else rest
