-- ===== src/Bpf/Tests.antt =====
-- The probes on maps that are functions, and the theorems about them at concrete inputs.
use tlshub_ebpf.Base.{
  ℕ, ◌+◌, ◌*◌, ◌^◌, ◌≤◌, ◌≡◌, ◌≢◌, refl, inl, Option, none, some, List, [], ◌∷◌, ◌==◌,
  if◌then◌else◌, swap16, arith,
}
use tlshub_ebpf.Bpf.{
  BpfMap, IsLawful, SockInfo, SockCommon, Maps, processed, kprobe_tcp_sendmsg,
  kprobe_tcp_v4_connect, is_new,
}
use tlshub_ebpf.Bpf.Trace.{
  Hook, connect, connect_return, sendmsg, reports, fire, reports-le-count, reports-connect,
  sendmsg_event,
}

abbrev table : {V : Type 0} → BpfMap V (ℕ → Option V)
table = record { lookup = λ t k. t k; update = λ t k v. λ j. if j == k then some v else t j }

table-IsLawful : {V : Type 0} → IsLawful (table {V = V})
table-IsLawful = record {
  lookup-update_ne = λ t k j v ne. ground (arith, ne);
  lookup-update_present = λ t k u v e. ground arith;
  lookup-update_absent = λ t k v. inl (ground arith);
}

abbrev TestMaps : Type 0
TestMaps = Maps (ℕ → Option ℕ) (ℕ → Option SockInfo)

abbrev empty_maps : TestMaps
empty_maps = record { conn_track_map = λ p. none; sock_info_map = λ p. none }

abbrev sock : SockCommon
sock = record {
  skc_family = 2;
  skc_rcv_saddr = 16777343;
  skc_daddr = 33554559;
  skc_num = 40000;
  skc_dport = swap16 443;
}

-- Two sends on socket 7, one on a socket whose connect was not seen, and a failed connect.
abbrev calls : List Hook
calls = sendmsg 7 sock 5 10 ∷ connect_return 111 ∷ sendmsg 8 sock 5 11 ∷ sendmsg 7 sock 5 12 ∷ []

reports-le-count_test : reports table table 7 (connect 7 ∷ calls) empty_maps ≤ 1
unfolding is_new
reports-le-count_test = reports-le-count table table table-IsLawful 7 (connect 7 ∷ calls) empty_maps

reports-connect_example :
    reports table table 7 calls (fire table table (connect 7) empty_maps).0 ≡ 1
reports-connect_example = reports-connect table table table-IsLawful 7 calls empty_maps taken refl
  where
    taken : (fire table table (connect 7) empty_maps).0.conn_track_map 7 ≢ none
    taken = unfold fire kprobe_tcp_v4_connect in λ e. cc

abbrev connected : TestMaps
connected = record empty_maps { conn_track_map = λ p. if p == 7 then some 1 else none }

sendmsg_event_test :
    (kprobe_tcp_sendmsg table table 7 sock (5 * 2 ^ 32 + 6) 10 connected).0.conn_track_map 7
    ≡ some processed
sendmsg_event_test =
    (sendmsg_event table table table-IsLawful table-IsLawful 7 sock 5 6 443 10 connected refl refl
      refl (omega arith) (omega arith)).1
