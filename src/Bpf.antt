-- ===== src/Bpf.antt =====
-- capture/src/capture.bpf.c: the three probes on the kernel's TCP functions. The debug output of
-- `bpf_printk` is left out; `kretprobe_tcp_v4_connect` does nothing else.
pub mod Trace
mod Tests
use tlshub_ebpf.Base.{
  ℕ, ◌+◌, ◌/◌, ◌^◌, ◌%◌, Bool, Option, none, some, ◌==◌, if◌then◌else◌, swap16, ◌≡◌, ◌≢◌, ◌⊎◌,
}

-- A BPF hash map from addresses of sockets, over an unknown representation `M`. A call of
-- `bpf_map_update_elem` is taken for the map that it leaves; the probes do not look at its result.
pub record BpfMap (V M : Type 0) : Type 0 where
  pub lookup : M → ℕ → Option V
  pub update : M → ℕ → V → M

-- What the probes rely on: an update with BPF_ANY touches no other key, it always replaces the value
-- of a key that is there, and it may fail to add a new key (to a full map), leaving it absent.
pub record IsLawful {V M : Type 0} (m : BpfMap V M) : Type 0 where
  pub lookup-update_ne :
      (t : M) (k j : ℕ) (v : V) → k ≢ j → m.lookup (m.update t k v) j ≡ m.lookup t j
  pub lookup-update_present :
      (t : M) (k : ℕ) (u v : V) → m.lookup t k ≡ some u → m.lookup (m.update t k v) k ≡ some v
  pub lookup-update_absent :
      (t : M) (k : ℕ) (v : V)
      → (m.lookup (m.update t k v) k ≡ some v) ⊎ (m.lookup (m.update t k v) k ≡ none)

-- `struct sock_info`
pub record SockInfo : Type 0 where
  pub saddr : ℕ
  pub daddr : ℕ
  pub sport : ℕ
  pub dport : ℕ
  pub pid : ℕ

-- `struct tcp_connect_event`
pub record TcpConnectEvent : Type 0 where
  pub saddr : ℕ
  pub daddr : ℕ
  pub sport : ℕ
  pub dport : ℕ
  pub pid : ℕ
  pub timestamp : ℕ

-- The fields of the kernel's `struct sock` that are read.
pub record SockCommon : Type 0 where
  pub skc_family : ℕ
  pub skc_rcv_saddr : ℕ
  pub skc_daddr : ℕ
  pub skc_num : ℕ
  pub skc_dport : ℕ

-- `conn_track_map` and `sock_info_map`.
pub record Maps (C S : Type 0) : Type 0 where
  pub conn_track_map : C
  pub sock_info_map : S

abbrev pub af_inet : ℕ
af_inet = 2

-- The states of a connection: being set up, and reported.
abbrev pub connecting : ℕ
connecting = 1

abbrev pub processed : ℕ
processed = 2

-- The socket information that is read, with the destination port through `bpf_ntohs`.
unfoldable pub read_info : SockCommon → ℕ → SockInfo
read_info sk pid_tgid = record {
  saddr = sk.skc_rcv_saddr;
  daddr = sk.skc_daddr;
  sport = sk.skc_num;
  dport = swap16 sk.skc_dport;
  pid = pid_tgid / 2 ^ 32;
}

unfoldable pub event_of : SockInfo → ℕ → TcpConnectEvent
event_of info now = record {
  saddr = info.saddr;
  daddr = info.daddr;
  sport = info.sport;
  dport = info.dport;
  pid = info.pid;
  timestamp = now;
}

-- `!state || *state != 1`, negated.
unfoldable pub is_new : Option ℕ → Bool
is_new none = Bool.false
is_new (some v) = v == connecting

module _ {C S : Type 0} (track : BpfMap ℕ C) (infos : BpfMap SockInfo S) where
  -- `kprobe_tcp_v4_connect`, at the address of a socket.
  unfoldable pub kprobe_tcp_v4_connect : ℕ → Maps C S → Maps C S
  kprobe_tcp_v4_connect ptr s = record s {
    conn_track_map = track.update s.conn_track_map ptr connecting;
  }

  -- `kretprobe_tcp_v4_connect`, with the value that the function returned.
  unfoldable pub kretprobe_tcp_v4_connect : ℕ → Maps C S → Maps C S
  kretprobe_tcp_v4_connect ret s = s

  -- The rest of `kprobe_tcp_sendmsg` for a new connection over IPv4.
  unfoldable pub capture_connection :
      ℕ → SockCommon → ℕ → ℕ → Maps C S → Maps C S × Option TcpConnectEvent
  unfolding read_info event_of
  capture_connection ptr sk pid_tgid now s =
      let info = read_info sk pid_tgid in
      (
        record {
          conn_track_map = track.update s.conn_track_map ptr processed;
          sock_info_map = infos.update s.sock_info_map ptr info;
        },
        some (event_of info now),
      )

  -- `kprobe_tcp_sendmsg`: the maps, and the event handed to `bpf_perf_event_output`, if any.
  unfoldable pub kprobe_tcp_sendmsg :
      ℕ → SockCommon → ℕ → ℕ → Maps C S → Maps C S × Option TcpConnectEvent
  unfolding is_new capture_connection
  kprobe_tcp_sendmsg ptr sk pid_tgid now s =
      if is_new (track.lookup s.conn_track_map ptr)
      then (if sk.skc_family == af_inet
          then capture_connection ptr sk pid_tgid now s
          else (s, none))
      else (s, none)
