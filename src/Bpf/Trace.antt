-- ===== src/Bpf/Trace.antt =====
-- Sequences of probe calls: which of them report a connection.
use tlshub_ebpf.Base.{
  ℕ, ◌+◌, ◌≤◌, ◌<◌, ◌≡◌, ◌≢◌, refl, sym, ap, inl, inr, ◌&&◌, Bool, true, false, Option, none, some,
  Option-cases, List, [], ◌∷◌, ◌==◌, if◌then◌else◌, arith, ◌^◌, ◌/◌, ◌*◌, swap16,
}
use tlshub_ebpf.Bpf.{
  BpfMap, IsLawful, SockInfo, TcpConnectEvent, SockCommon, Maps, af_inet, connecting, processed,
  kprobe_tcp_v4_connect, kretprobe_tcp_v4_connect, is_new, kprobe_tcp_sendmsg,
}

-- A call of one of the probed functions: a connect and a send with the address of the socket, the end
-- of a connect with its result. A send comes with what the socket holds, the caller and the time.
pub data Hook : Type 0 where
  connect : ℕ → Hook
  connect_return : ℕ → Hook
  sendmsg : ℕ → SockCommon → ℕ → ℕ → Hook

-- Is it a connect of this socket, or a send over IPv4 on it?
abbrev pub is_connect : ℕ → Hook → Bool
is_connect ptr (connect p) = p == ptr
is_connect ptr (connect_return r) = false
is_connect ptr (sendmsg p sk pid now) = false

abbrev pub is_send : ℕ → Hook → Bool
is_send ptr (connect p) = false
is_send ptr (connect_return r) = false
is_send ptr (sendmsg p sk pid now) = p == ptr && sk.skc_family == af_inet

abbrev pub count : (Hook → Bool) → List Hook → ℕ
count f [] = 0
count f (h ∷ hs) = (if f h then 1 else 0) + count f hs

abbrev pub some_of : (Hook → Bool) → List Hook → Bool
some_of f [] = false
some_of f (h ∷ hs) = if f h then true else some_of f hs

module _ {C S : Type 0} (track : BpfMap ℕ C) (infos : BpfMap SockInfo S) where
  -- A call of a probe, with the socket that it reports, if any.
  unfoldable pub fire : Hook → Maps C S → Maps C S × Option (ℕ × TcpConnectEvent)
  fire (connect p) s = (kprobe_tcp_v4_connect track infos p s, none)
  fire (connect_return r) s = (kretprobe_tcp_v4_connect track infos r s, none)
  fire (sendmsg p sk pid now) s =
      let (s', e) = kprobe_tcp_sendmsg track infos p sk pid now s in
      (s', elim e [ none ↦ none | some x ↦ some (p, x) ])

  -- 1 if the socket was reported.
  abbrev pub reported : ℕ → Option (ℕ × TcpConnectEvent) → ℕ
  reported ptr none = 0
  reported ptr (some (p, e)) = if p == ptr then 1 else 0

  -- How often a sequence of calls reports the socket.
  unfoldable pub reports : ℕ → List Hook → Maps C S → ℕ
  reports ptr [] s = 0
  reports ptr (h ∷ hs) s = let (s', e) = fire h s in reported ptr e + reports ptr hs s'

  -- 1 if the socket is known and not yet reported.
  abbrev pub pending : ℕ → Maps C S → ℕ
  pending ptr s = if is_new (track.lookup s.conn_track_map ptr) then 1 else 0

  module _ (law : IsLawful track) where
    -- A call reports the socket only if it was pending, and only a connect makes it pending.
    fire-pending :
        (ptr : ℕ) (h : Hook) (s : Maps C S)
        → let (s', e) = fire h s in
          reported ptr e + pending ptr s' ≤ pending ptr s + (if is_connect ptr h then 1 else 0)
    unfolding fire kprobe_tcp_v4_connect kretprobe_tcp_v4_connect kprobe_tcp_sendmsg is_new
    fire-pending ptr (connect p) s =
        ground (arith, law.lookup-update_ne s.conn_track_map p ptr connecting)
    fire-pending ptr (connect_return r) s = omega arith
    fire-pending ptr (sendmsg p sk pid now) s =
        elim (Option-cases (track.lookup s.conn_track_map p)) [
          | inl e ↦ ground (arith, e, ap (λ q. track.lookup s.conn_track_map q))
          | inr (u, e) ↦ ground (
            arith,
            e,
            law.lookup-update_ne s.conn_track_map p ptr processed,
            law.lookup-update_present s.conn_track_map p u processed e,
            ap (λ q. track.lookup s.conn_track_map q),
          )
        ]

    -- Over any sequence of calls a socket is reported at most once for each connect on it, and once
    -- more if it was pending at the start.
    pub reports-le-count :
        (ptr : ℕ) (hs : List Hook) (s : Maps C S)
        → reports ptr hs s ≤ pending ptr s + count (is_connect ptr) hs
    unfolding reports
    reports-le-count ptr [] s = omega arith
    reports-le-count ptr (h ∷ hs) s =
        omega (arith, fire-pending ptr h s, reports-le-count ptr hs (fire h s).0)

    -- Without a connect on the socket, a send over IPv4 reports it if it is pending and settles it, and
    -- no other call matters.
    fire-is_send :
        (ptr : ℕ) (h : Hook) (s : Maps C S)
        → is_connect ptr h ≡ false
        → (reported ptr (fire h s).1 ≡ (if is_send ptr h then pending ptr s else 0))
          × (pending ptr (fire h s).0 ≡ (if is_send ptr h then 0 else pending ptr s))
    unfolding fire kprobe_tcp_v4_connect kretprobe_tcp_v4_connect kprobe_tcp_sendmsg is_new
    fire-is_send ptr (connect p) s c =
        ground (arith, c, law.lookup-update_ne s.conn_track_map p ptr connecting)
    fire-is_send ptr (connect_return r) s c = (refl, refl)
    fire-is_send ptr (sendmsg p sk pid now) s c =
        elim (Option-cases (track.lookup s.conn_track_map p)) [
          | inl e ↦ ground (arith, e, ap (λ q. track.lookup s.conn_track_map q))
          | inr (u, e) ↦ ground (
            arith,
            e,
            law.lookup-update_ne s.conn_track_map p ptr processed,
            law.lookup-update_present s.conn_track_map p u processed e,
            ap (λ q. track.lookup s.conn_track_map q),
          )
        ]

    reports-pending :
        (ptr : ℕ) (hs : List Hook) (s : Maps C S)
        → count (is_connect ptr) hs ≡ 0
        → reports ptr hs s ≡ (if some_of (is_send ptr) hs then pending ptr s else 0)
    unfolding reports
    reports-pending ptr [] s c = refl
    reports-pending ptr (h ∷ hs) s c =
        let quiet : is_connect ptr h ≡ false = ground arith in
        let rest : count (is_connect ptr) hs ≡ 0 = omega arith in
        ground (arith, fire-is_send ptr h s quiet, reports-pending ptr hs (fire h s).0 rest)

    -- When the connection table took a connect on a socket, the calls that follow, up to its next
    -- connect, report it exactly once if one of them is a send over IPv4 on it, and never otherwise.
    pub reports-connect :
        (ptr : ℕ) (hs : List Hook) (s : Maps C S)
        → track.lookup (fire (connect ptr) s).0.conn_track_map ptr ≢ none
        → count (is_connect ptr) hs ≡ 0
        → reports ptr hs (fire (connect ptr) s).0 ≡ (if some_of (is_send ptr) hs then 1 else 0)
    unfolding fire kprobe_tcp_v4_connect is_new
    reports-connect ptr hs s taken c = ground (
      arith,
      reports-pending ptr hs (fire (connect ptr) s).0 c,
      law.lookup-update_absent s.conn_track_map ptr connecting,
    )

  module _ (law : IsLawful track) (info_law : IsLawful infos) where
    -- The event for a pending IPv4 socket carries the addresses and the local port as the socket holds
    -- them, the remote port in host byte order, the upper half of the thread id as the process id, and
    -- the time; the socket is then settled.
    pub sendmsg_event :
        (ptr : ℕ) (sk : SockCommon) (pid tid port now : ℕ) (s : Maps C S)
        → track.lookup s.conn_track_map ptr ≡ some connecting
        → sk.skc_family ≡ af_inet
        → sk.skc_dport ≡ swap16 port
        → port < 2 ^ 16
        → tid < 2 ^ 32
        → let (s', e) = kprobe_tcp_sendmsg track infos ptr sk (pid * 2 ^ 32 + tid) now s in
          (e
            ≡ some (record {
              saddr = sk.skc_rcv_saddr;
              daddr = sk.skc_daddr;
              sport = sk.skc_num;
              dport = port;
              pid = pid;
              timestamp = now;
            }))
          × (track.lookup s'.conn_track_map ptr ≡ some processed)
          × ((p : ℕ) → p ≢ ptr → track.lookup s'.conn_track_map p ≡ track.lookup s.conn_track_map p)
          × ((p : ℕ) → p ≢ ptr → infos.lookup s'.sock_info_map p ≡ infos.lookup s.sock_info_map p)
    unfolding kprobe_tcp_sendmsg is_new
    sendmsg_event ptr sk pid tid port now s new inet net fits low =
        let port_is : swap16 sk.skc_dport ≡ port = rw net (omega arith) in
        let pid_is : (pid * 2 ^ 32 + tid) / 2 ^ 32 ≡ pid = omega arith in
        rw (new, inet, port_is, pid_is)
          (
            refl,
            law.lookup-update_present s.conn_track_map ptr connecting processed new,
            λ p ne. law.lookup-update_ne s.conn_track_map ptr p processed (λ e. ne (sym e)),
            λ p ne. info_law.lookup-update_ne s.sock_info_map ptr p _ (λ e. ne (sym e)),
          )
