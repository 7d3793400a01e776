-- ===== src/KeyProvider/Tests.antt =====
-- The key provider on the scripted system, and the theorems about it at concrete inputs.
use tlshub_ebpf.Base.{
  ℕ, ℤ, pos, minus_one, ◌<◌, ◌^◌, ◌≡◌, refl, inl, inr, true, false, some, List, [], ◌∷◌, ◌++◌,
  Bytes, replicate, arith,
}
use tlshub_ebpf.Capture.{openssl, FlowTuple, TlsKeyInfo}
use tlshub_ebpf.Tlshub.Netlink.{Recv, received}
use tlshub_ebpf.Tlshub.Scripted.{Script, scripted}
use tlshub_ebpf.Tlshub.Wire.{service_fetch, service_start, packet, tuple_msg}
use tlshub_ebpf.Tlshub.Wire.RoundTrip.{key_reply}
use tlshub_ebpf.Tlshub.Client.{Client, recv_verdict, handshake_verdict, note_sender}
use tlshub_ebpf.Tlshub.Client.Wait.{Skips, here, skip, Started, fresh, succeeded, refused}
use tlshub_ebpf.KeyProvider.{
  Ssl, Provider, provider_start, key_provider_init, key_provider_get_key, key_provider_cleanup,
}
use tlshub_ebpf.KeyProvider.Ends.{KeyEnds, get_key-KeyEnds}
use tlshub_ebpf.KeyProvider.Exchange.{
  Answered, fetched_key, get_key_at_once, get_key_after_handshake, get_key_refused,
}
use tlshub_ebpf.KeyProvider.Resources.{IsReleased, InitEnds, init-InitEnds, cleanup-init}

abbrev library : Ssl Script
library = record {
  init_ssl = λ s. s;
  ctx_new = λ s. (true, s);
  ctx_free = λ s. s;
  ssl_new = λ s. (true, s);
  ssl_free = λ s. s;
  export = λ n label size s. (some (replicate n 7), s);
}

abbrev flow : FlowTuple
flow = record { saddr = 16777343; daddr = 33554559; sport = 40000; dport = 443 }

abbrev stale : TlsKeyInfo
stale = record { key = replicate 32 9; iv = replicate 16 9; key_len = 9; iv_len = 9 }

abbrev open_client : Client
open_client = record { netlink_sock = pos 3; dest_pid = 0; handshake_nlh = false }

abbrev ready : Provider
ready = record provider_start { client = open_client }

abbrev fetch_bytes : Bytes
fetch_bytes = packet 77 (tuple_msg service_fetch flow)

abbrev start_bytes : Bytes
start_bytes = packet 77 (tuple_msg service_start flow)

abbrev reply : ℕ → Recv
reply status = received 0 (key_reply 0 8 status (replicate 32 5))

abbrev message : ℕ → Recv
message ty = received 0 (replicate 16 0 ++ ty ∷ [])

abbrev waiting_client : Client
waiting_client = record open_client { handshake_nlh = true }

answered :
    (c : Client) (status : ℕ) (rs : List Recv) (out : List Bytes)
    → c.netlink_sock ≡ pos 3
    → status < 2 ^ 32
    → Answered scripted flow c
        (record { inbox = reply status ∷ rs; outbox = out })
        status
        (replicate 32 5)
        0
        (record { inbox = rs; outbox = fetch_bytes ∷ out })
unfolding packet
answered c status rs out sock h = record {
  reply_pid = 0;
  reply_type = 8;
  status_fits = h;
  key_size = refl;
  asked = record {
    is_open = rw sock;
    w1 = record { inbox = reply status ∷ rs; outbox = out };
    w2 = record { inbox = reply status ∷ rs; outbox = fetch_bytes ∷ out };
    sent = pos 32;
    granted = refl;
    sends = refl;
    kept = refl;
    receives = refl;
  };
}

get_key_at_once_test :
    key_provider_get_key scripted library 5
      (some flow)
      (some stale)
      ready
      (record { inbox = reply 0 ∷ []; outbox = [] })
    ≡ some (record {
      result = pos 0;
      key_info = some (fetched_key (replicate 32 5));
      provider = ready;
      world = record { inbox = []; outbox = fetch_bytes ∷ [] };
    })
get_key_at_once_test =
    get_key_at_once scripted library flow stale ready refl (omega arith) 5 0 _
      (record { inbox = []; outbox = fetch_bytes ∷ [] }) (replicate 32 5)
      (answered open_client 0 [] [] refl (omega arith))

-- A log message comes before the one that decides.
abbrev rest_from : ℕ → List Recv
rest_from ty = message 4 ∷ message ty ∷ reply 0 ∷ []

started :
    (rs : List Recv)
    → Started scripted flow open_client
        (record { inbox = rs; outbox = fetch_bytes ∷ [] })
        waiting_client
        (record { inbox = rs; outbox = start_bytes ∷ fetch_bytes ∷ [] })
unfolding packet
started rs = fresh (pos 32) _ _ refl refl refl refl refl

abbrev waited : List Recv → Script
waited rs = record { inbox = rs; outbox = start_bytes ∷ fetch_bytes ∷ [] }

logged :
    (rs : List Recv)
    → Skips scripted handshake_verdict 1 waiting_client
        (waited (message 4 ∷ rs))
        waiting_client
        (waited rs)
unfolding recv_verdict handshake_verdict note_sender
logged rs = skip (message 4) _ refl refl here

get_key_after_handshake_example :
    key_provider_get_key scripted library 5
      (some flow)
      (some stale)
      ready
      (record { inbox = reply 1 ∷ rest_from 2; outbox = [] })
    ≡ some (record {
      result = pos 0;
      key_info = some (fetched_key (replicate 32 5));
      provider = record ready { client = waiting_client };
      world = record { inbox = []; outbox = fetch_bytes ∷ start_bytes ∷ fetch_bytes ∷ [] };
    })
unfolding note_sender
get_key_after_handshake_example =
    get_key_after_handshake scripted library flow stale ready refl (omega arith) 5 1 1 0
      waiting_client waiting_client _ _ _ _ _ (replicate 32 5) (message 2) (omega arith)
      (omega arith) (answered open_client 1 (rest_from 2) [] refl (omega arith))
      (started (rest_from 2)) (logged (message 2 ∷ reply 0 ∷ [])) refl 0 _ (replicate 32 5)
      (succeeded 0 0 _ (inr (inl refl))) (answered waiting_client 0 [] _ refl (omega arith))

get_key_refused_example :
    key_provider_get_key scripted library 5
      (some flow)
      (some stale)
      ready
      (record { inbox = reply 1 ∷ rest_from 3; outbox = [] })
    ≡ some (record {
      result = minus_one;
      key_info = some stale;
      provider = record ready { client = waiting_client };
      world = record { inbox = reply 0 ∷ []; outbox = start_bytes ∷ fetch_bytes ∷ [] };
    })
unfolding note_sender
get_key_refused_example =
    get_key_refused scripted library flow stale ready refl (omega arith) 5 1 1 0 waiting_client
      waiting_client _ _ _ _ _ (replicate 32 5) (message 3) (omega arith) (omega arith)
      (answered open_client 1 (rest_from 3) [] refl (omega arith)) (started (rest_from 3))
      (logged (message 3 ∷ reply 0 ∷ [])) refl (refused 0 0 _ refl)

get_key-KeyEnds_example : KeyEnds 32 stale (pos 0) (some (fetched_key (replicate 32 5)))
get_key-KeyEnds_example =
    get_key-KeyEnds scripted library 5 flow stale ready _ _ get_key_at_once_test

start-IsReleased : IsReleased provider_start
start-IsReleased = record { no_context = refl; no_socket = refl }

abbrev idle : Script
idle = record { inbox = []; outbox = [] }

abbrev with_context : ℤ × Provider × Script
with_context = (pos 0, record provider_start { current_mode = openssl; ssl_ctx = true }, idle)

initialised : key_provider_init scripted library 0 openssl provider_start idle ≡ some with_context
unfolding key_provider_init
initialised = refl

init-InitEnds_test : InitEnds openssl with_context
init-InitEnds_test =
    init-InitEnds scripted library 0 openssl provider_start idle with_context start-IsReleased
      initialised

cleanup-init_test : IsReleased (key_provider_cleanup scripted library with_context.1 idle).0
cleanup-init_test =
    cleanup-init scripted library 0 openssl provider_start idle idle with_context start-IsReleased
      initialised
