-- ===== src/Tlshub/Tests.antt =====
-- The client on a scripted system, and the theorems about it at concrete inputs.
use tlshub_ebpf.Base.{
  ℕ, pos, ◌≡◌, refl, inl, inr, true, false, none, some, List, [], ◌∷◌, ◌++◌, Bytes, replicate,
  read_be16, arith, ap,
}
use tlshub_ebpf.Capture.{FlowTuple, TlsKeyInfo}
use tlshub_ebpf.Tlshub.Netlink.{Netlink, Recv, failed, received}
use tlshub_ebpf.Tlshub.Scripted.{Script, scripted}
use tlshub_ebpf.Tlshub.Wire.{service_start, init_msg, service_fetch, packet, tuple_msg}
use tlshub_ebpf.Tlshub.Wire.RoundTrip.{IsFlow, packet-tuple_msg, key_reply}
use tlshub_ebpf.Tlshub.Client.{
  Client, client_start, tlshub_client_init, tlshub_fetch_key, tlshub_handshake, recv_verdict,
  handshake_verdict, note_sender,
}
use tlshub_ebpf.Tlshub.Client.Fetch.{
  IsKeyInfo, Requested, fetch-key_reply, fetch_failed_recv, FetchEnds, fetch-FetchEnds,
}
use tlshub_ebpf.Tlshub.Client.Wait.{
  Skips, here, skip, Started, reused, fresh, succeeded, handshake_returns, handshake_hangs,
}
use tlshub_ebpf.Tlshub.Client.Init.{IsConsistent, init-IsConsistent, init_returns}

abbrev flow : FlowTuple
flow = record { saddr = 16777343; daddr = 33554559; sport = 40000; dport = 443 }

flow-IsFlow : IsFlow flow
flow-IsFlow = omega arith

packet-tuple_msg_example : read_be16 (packet 77 (tuple_msg service_fetch flow)) 24 ≡ 40000
packet-tuple_msg_example = (packet-tuple_msg 77 service_fetch flow (omega arith) flow-IsFlow).4

-- What `struct tls_key_info` on the caller's stack may hold before the call.
abbrev stale : TlsKeyInfo
stale = record { key = replicate 32 9; iv = replicate 16 9; key_len = 9; iv_len = 9 }

stale-IsKeyInfo : IsKeyInfo stale
stale-IsKeyInfo = omega arith

abbrev open_client : Client
open_client = record { netlink_sock = pos 3; dest_pid = 0; handshake_nlh = false }

abbrev holding : List Recv → Script
holding rs = record { inbox = rs; outbox = [] }

abbrev fetch_bytes : Bytes
fetch_bytes = packet 77 (tuple_msg service_fetch flow)

abbrev after_fetch : List Recv → Script
after_fetch rs = record { inbox = rs; outbox = fetch_bytes ∷ [] }

requested : (r : Recv) → Requested scripted flow open_client r (holding (r ∷ [])) (after_fetch [])
unfolding packet
requested r = record {
  is_open = refl;
  w1 = holding (r ∷ []);
  w2 = after_fetch (r ∷ []);
  sent = pos 32;
  granted = refl;
  sends = refl;
  kept = refl;
  receives = refl;
}

fetch-key_reply_example :
    (tlshub_fetch_key scripted
      (some flow)
      (some stale)
      open_client
      (holding (received 0 (key_reply 0 8 0 (replicate 32 5)) ∷ []))).result
    ≡ (
      pos 0,
      some (record { key = replicate 32 5; iv = replicate 16 0; key_len = 32; iv_len = 12 }),
    )
fetch-key_reply_example =
    ap (λ o. o.result)
      (fetch-key_reply scripted flow stale open_client _ (after_fetch []) 0 0 8 0 (replicate 32 5)
        stale-IsKeyInfo (omega arith) refl (requested _))

fetch_failed_recv_example :
    (tlshub_fetch_key scripted (some flow) (some stale) open_client (holding (failed ∷ []))).result
    ≡ (
      pos 0,
      some (record { key = replicate 32 0; iv = replicate 16 0; key_len = 32; iv_len = 12 }),
    )
fetch_failed_recv_example =
    fetch_failed_recv scripted flow stale open_client (holding (failed ∷ [])) (after_fetch [])
      stale-IsKeyInfo (requested failed)

fetch-FetchEnds_test :
    FetchEnds stale
      (tlshub_fetch_key scripted (some flow) (some stale) client_start (holding [])).result
fetch-FetchEnds_test = fetch-FetchEnds scripted flow stale client_start (holding [])

-- A message of the kernel module: a header, a type, and text.
abbrev message : ℕ → Recv
message ty = received 0 (replicate 16 0 ++ (ty ∷ []))

abbrev handshake_request : Bytes
handshake_request = packet 77 (tuple_msg service_start flow)

abbrev waiting_client : Client
waiting_client = record open_client { handshake_nlh = true }

abbrev shaken : List Recv → Script
shaken rs = record { inbox = rs; outbox = handshake_request ∷ [] }

started :
    (rs : List Recv) → Started scripted flow open_client (holding rs) waiting_client (shaken rs)
unfolding packet
started rs = fresh (pos 32) (holding rs) (shaken rs) refl refl refl refl refl

-- A log message comes first.
logged :
    Skips scripted handshake_verdict 1 waiting_client
      (shaken (message 4 ∷ message 2 ∷ []))
      waiting_client
      (shaken (message 2 ∷ []))
unfolding recv_verdict handshake_verdict note_sender
logged = skip (message 4) _ refl refl here

handshake_returns_example :
    tlshub_handshake scripted 5 (some flow) open_client (holding (message 4 ∷ message 2 ∷ []))
    ≡ some (record {
      result = pos 0;
      client = note_sender waiting_client (message 2);
      world = shaken [];
    })
handshake_returns_example =
    handshake_returns scripted flow 5 1 open_client waiting_client waiting_client _ _ _ _
      (message 2) (pos 0) (omega arith) (started (message 4 ∷ message 2 ∷ [])) logged refl
      (succeeded 0 0 _ (inr (inl refl)))

abbrev deaf : Netlink Script
deaf = record scripted { recvfrom = λ fd room s. (failed, s) }

deaf-Started : Started deaf flow waiting_client (holding []) waiting_client (shaken [])
unfolding packet
deaf-Started = reused (pos 32) (shaken []) refl refl refl refl

handshake_hangs_example : tlshub_handshake deaf 100 (some flow) waiting_client (holding []) ≡ none
handshake_hangs_example =
    handshake_hangs deaf flow 100 waiting_client waiting_client (holding []) (shaken [])
      deaf-Started (λ v. refl)

abbrev init_sent : List Recv → Script
init_sent rs = record { inbox = rs; outbox = packet 77 init_msg ∷ [] }

init_returns_example :
    tlshub_client_init scripted 3 client_start (holding (message 7 ∷ []))
    ≡ some (record { result = pos 0; client = open_client; world = init_sent [] })
unfolding packet
init_returns_example =
    init_returns scripted 3 0 client_start open_client (holding (message 7 ∷ [])) _ _ _
      (init_sent (message 7 ∷ [])) _ (init_sent []) (pos 3) (pos 0) (pos 32) 0 0 _ (omega arith)
      refl refl refl refl refl refl refl here refl refl

init-IsConsistent_test :
    IsConsistent (record { result = pos 0; client = open_client; world = init_sent [] })
init-IsConsistent_test =
    init-IsConsistent scripted 3 client_start (holding (message 7 ∷ [])) _ init_returns_example
