-- ===== src/Api/Hypertls.antt =====
-- tlshub-api/hypertls.c: the same text as tlshub.c under other names, but for one test.
use tlshub_ebpf.Base.{
  ℕ, ℤ, minus_one, is_negative, ◌≡◌, refl, Bool, Option, some, if◌then◌else◌, Bool-cases, inl, inr,
}
use tlshub_ebpf.Tlshub.Netlink.{Netlink}
use tlshub_ebpf.Tlshub.Wire.{nlmsg_space, KeyBack}
use tlshub_ebpf.Api.Wire.{Stack, Pods}
use tlshub_ebpf.Api.Context.{Context, End, returned, exited, crashed}
use tlshub_ebpf.Api.Requests.{tlshub_handshake, tlshub_fetch_key}
use tlshub_ebpf.Api.Service.{
  init_user_netlink, malloc_netlink_pkthdr, service_exchange, checked_exchange, tlshub_service_init,
}

module _ {W : Type 0} (os : Netlink W) where
  -- `if (nlh < 0)`, which no pointer is, on what `malloc_netlink_pkthdr` returned.
  unfoldable pub unchecked_exchange : ℕ → ℤ → Stack → End Bool × W → Option (End ℤ × W)
  unchecked_exchange fuel fd stack (returned nlh, w) = service_exchange os fuel fd stack w
  unchecked_exchange fuel fd stack (exited, w) = some (exited, w)
  unchecked_exchange fuel fd stack (crashed, w) = some (crashed, w)

  -- `hypertls_service_init()`
  unfoldable pub hypertls_service_init : ℕ → Stack → W → Option (End ℤ × W)
  unfolding unchecked_exchange
  hypertls_service_init fuel stack w =
      let (fd, w1) = init_user_netlink os w in
      let rest = unchecked_exchange fuel fd stack (malloc_netlink_pkthdr os w1) in
      if is_negative fd then some (returned minus_one, w1) else rest

  malloc_netlink_pkthdr_checked :
      (fuel : ℕ) (fd : ℤ) (stack : Stack) (w : W)
      → unchecked_exchange fuel fd stack (malloc_netlink_pkthdr os w)
        ≡ checked_exchange os fuel fd stack (malloc_netlink_pkthdr os w)
  unfolding malloc_netlink_pkthdr unchecked_exchange checked_exchange
  malloc_netlink_pkthdr_checked fuel fd stack w = elim (Bool-cases (os.malloc nlmsg_space w).0) [
    | inl e ↦ rw (malloc_netlink_pkthdr, e) refl
    | inr e ↦ rw (malloc_netlink_pkthdr, e) refl
  ]

  -- On every system, with every fuel and whatever the stack held, `hypertls_service_init` and
  -- `tlshub_service_init` end alike, although their tests of the pointer differ.
  pub hypertls_service_init-tlshub_service_init :
      (fuel : ℕ) (stack : Stack) (w : W)
      → hypertls_service_init fuel stack w ≡ tlshub_service_init os fuel stack w
  unfolding hypertls_service_init tlshub_service_init
  hypertls_service_init-tlshub_service_init fuel stack w =
      let (fd, w1) = init_user_netlink os w in
      rw (malloc_netlink_pkthdr_checked fuel fd stack w1) refl

  -- `hypertls_handshake(client_pod_ip, …)`
  unfoldable pub hypertls_handshake : ℕ → Pods → Stack → Context → W → Option (End ℤ × Context × W)
  hypertls_handshake fuel pods stack ctx w = tlshub_handshake os fuel pods stack ctx w

  -- `hypertls_fetch_key(client_pod_ip, …)`
  unfoldable pub hypertls_fetch_key : Pods → Stack → W → End KeyBack × W
  hypertls_fetch_key pods stack w = tlshub_fetch_key os pods stack w
