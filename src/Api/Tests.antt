-- ===== src/Api/Tests.antt =====
-- The programming interface on the scripted system and on one that counts what is open.
use tlshub_ebpf.Base.{
  ◌+◌, ◌≡◌, refl, ◌++◌, inl, inr, some, pos, minus_one, true, false, [], ◌∷◌, length, replicate,
  arith,
}
use tlshub_ebpf.Tlshub.Netlink.{Netlink, Recv, failed, received}
use tlshub_ebpf.Tlshub.Wire.{nlmsghdr_bytes, service_start, service_fetch, packet, tuple_msg}
use tlshub_ebpf.Tlshub.Wire.RoundTrip.{key_reply}
use tlshub_ebpf.Tlshub.Client.{handshake_verdict}
use tlshub_ebpf.Tlshub.Scripted.{Script, scripted}
use tlshub_ebpf.Api.Wire.{Stack, Pods, init_request, start_request, fetch_request}
use tlshub_ebpf.Api.Context.{
  Context, fresh_context, minus_two, returned, netlink_ctx_init, netlink_ctx_alloc_msg, wait_reply,
  note_reply, reply_verdict,
}
use tlshub_ebpf.Api.Service.{tlshub_service_init}
use tlshub_ebpf.Api.Requests.{no_key, tlshub_handshake, tlshub_fetch_key}
use tlshub_ebpf.Api.Hypertls.{hypertls_service_init, hypertls_service_init-tlshub_service_init}
use tlshub_ebpf.Base.Holdings.{
  close_latest, free_block, close_latest-opened, free_block-allocated, Holdings,
}
use tlshub_ebpf.Api.Ledger.{IsLedger, holding, tlshub_fetch_key-balanced}
use tlshub_ebpf.Api.Kept.{Handshakes, here, next, Handshakes-holding}
use tlshub_ebpf.Api.Leak.{ServiceEnds}
use tlshub_ebpf.Api.Wait.{
  Skips, skip, Concludes, Initialises, service_context, tlshub_handshake_returns,
  tlshub_service_init_returns,
}
use tlshub_ebpf.Api.Reply.{
  no_socket, flow_of, requests_agree, tlshub_fetch_key-key_reply, tlshub_fetch_key-Unable,
}

abbrev two_pods : Pods
two_pods = record {
  client_pod_ip = 16777226;
  server_pod_ip = 33554442;
  client_pod_port = 40000;
  server_pod_port = 443;
}

abbrev dirty : Stack
dirty = record { addresses = replicate 12 9; server = 9; padding = 9 ∷ 9 ∷ [] }

abbrev clear : Stack
clear = record { addresses = replicate 12 0; server = 0; padding = 0 ∷ 0 ∷ [] }

abbrev answering : Script
answering = record { inbox = received 0 (key_reply 0 6 0 (replicate 32 5)) ∷ []; outbox = [] }

requests_agree_example :
    (start_request 77 two_pods clear ≡ packet 77 (tuple_msg service_start (flow_of two_pods)))
    × (fetch_request 77 two_pods clear ≡ packet 77 (tuple_msg service_fetch (flow_of two_pods)))
requests_agree_example =
    requests_agree 77 two_pods clear (record { server_clear = refl; padding_clear = refl })

tlshub_fetch_key-key_reply_example :
    (tlshub_fetch_key scripted two_pods dirty answering).0
    ≡ returned (record { status = 0; masterkey = replicate 32 5 })
unfolding fetch_request nlmsghdr_bytes
tlshub_fetch_key-key_reply_example =
    tlshub_fetch_key-key_reply scripted two_pods dirty answering 0 0 6 0 (replicate 32 5)
      (omega arith) refl
      (record {
        fd = 3;
        sent = pos (length (fetch_request 77 two_pods dirty));
        w1 = answering;
        w2 = answering;
        w3 = answering;
        w4 = record answering { outbox = fetch_request 77 two_pods dirty ∷ [] };
        w5 = record { inbox = []; outbox = fetch_request 77 two_pods dirty ∷ [] };
        opens = refl;
        binds = refl;
        grants = refl;
        sends = refl;
        kept = refl;
        receives = refl;
      })

abbrev no_message : Recv
no_message = received 0 []

abbrev holdings : Holdings
holdings = record { descriptors = pos 1 ∷ []; blocks = 4 }

-- A system that gives `r` at each `recvfrom` and counts what is open and allocated.
abbrev counting : Recv → Netlink Holdings
counting r = record {
  gettid = λ h. 77;
  socket = λ h. (pos 3, record h { descriptors = pos 3 ∷ h.descriptors });
  bind = λ fd pid h. (pos 0, h);
  close = λ fd h. close_latest h;
  malloc = λ n h. (true, record h { blocks = h.blocks + 1 });
  free = λ h. free_block h;
  sendto = λ fd bytes pid h. (pos (length bytes), h);
  recvfrom = λ fd room h. (r, h);
}

counting-IsLedger : (r : Recv) → IsLedger (counting r) (λ h. h)
counting-IsLedger r = record {
  socket_opens = λ w. refl;
  socket_result = λ w. refl;
  close_undoes = close_latest-opened;
  malloc_allocates = λ n w. refl;
  free_undoes = free_block-allocated;
  bind_keeps = λ fd pid w. refl;
  sendto_keeps = λ fd bs pid w. refl;
  recvfrom_keeps = λ fd room w. refl;
}

tlshub_fetch_key-balanced_example :
    (tlshub_fetch_key (counting failed) two_pods dirty holdings).1 ≡ holdings
tlshub_fetch_key-balanced_example =
    tlshub_fetch_key-balanced (counting failed) (λ h. h) (counting-IsLedger failed) two_pods dirty
      holdings

abbrev kept_context : Context
kept_context = record { sk_fd = pos 3; nlh = true; dest_pid = 0 }

abbrev after_handshake : Holdings
after_handshake = record { descriptors = pos 3 ∷ pos 1 ∷ []; blocks = 5 }

twice : Handshakes (counting no_message) fresh_context holdings kept_context after_handshake
unfolding tlshub_handshake start_request netlink_ctx_init netlink_ctx_alloc_msg nlmsghdr_bytes
    wait_reply
twice =
    next {c = fresh_context} {c1 = kept_context} {w = holdings} {w1 = after_handshake} 5 two_pods
      dirty minus_two refl
      (next {c = kept_context} {c1 = kept_context} {w = after_handshake} {w1 = after_handshake} 9
        two_pods clear minus_two refl here)

Handshakes-holding_example : after_handshake ≡ holding kept_context holdings
Handshakes-holding_example =
    Handshakes-holding (counting no_message) (λ h. h) (counting-IsLedger no_message) kept_context
      holdings after_handshake twice

hypertls_service_init-tlshub_service_init_test :
    hypertls_service_init scripted 5 dirty answering
    ≡ tlshub_service_init scripted 5 dirty answering
hypertls_service_init-tlshub_service_init_test =
    hypertls_service_init-tlshub_service_init scripted 5 dirty answering

abbrev closed : Netlink Script
closed = record scripted { socket = λ s. (minus_one, s) }

tlshub_fetch_key-Unable_test :
    (tlshub_fetch_key closed two_pods dirty answering).0 ≡ returned no_key
tlshub_fetch_key-Unable_test =
    tlshub_fetch_key-Unable closed two_pods dirty answering (no_socket answering refl)

-- A log message of the process 9, then the end of the handshake.
abbrev log_message : Recv
log_message = received 9 (replicate 16 0 ++ (4 ∷ []))

abbrev success : Recv
success = received 9 (replicate 16 0 ++ (2 ∷ []))

abbrev logging : Script
logging = record { inbox = log_message ∷ success ∷ []; outbox = [] }

abbrev sent_start : Script → Script
sent_start s = record s { outbox = start_request 77 two_pods clear ∷ s.outbox }

tlshub_handshake_returns_example :
    tlshub_handshake scripted 2 two_pods clear fresh_context logging
    ≡ some (
      returned (pos 0),
      record { sk_fd = pos 3; nlh = true; dest_pid = 9 },
      record { inbox = []; outbox = start_request 77 two_pods clear ∷ [] },
    )
unfolding netlink_ctx_init netlink_ctx_alloc_msg start_request nlmsghdr_bytes note_reply
    reply_verdict handshake_verdict
tlshub_handshake_returns_example =
    tlshub_handshake_returns scripted two_pods clear 2 1 fresh_context kept_context
      (record kept_context { dest_pid = 9 }) logging (sent_start logging)
      (sent_start (record logging { inbox = success ∷ [] }))
      (sent_start (record logging { inbox = [] })) success (pos 0) (omega arith)
      (record {
        prepared = record { sk_fd = pos 3; nlh = false; dest_pid = 0 };
        sent = pos (length (start_request 77 two_pods clear));
        w1 = logging;
        w2 = logging;
        opens = refl;
        grants = refl;
        is_open = refl;
        sends = refl;
        kept = refl;
      })
      (skip log_message (sent_start (record logging { inbox = success ∷ [] })) refl refl Skips.here)
      refl (Concludes.succeeded 9 0 (replicate 15 0 ++ (2 ∷ [])) (inr (inl refl)))

tlshub_service_init_returns_example :
    (w : Holdings) × (tlshub_service_init (counting no_message) 1 dirty holdings
      ≡ some (returned minus_two, w))
    × ServiceEnds holdings (returned minus_two) w
unfolding init_request nlmsghdr_bytes
tlshub_service_init_returns_example =
    tlshub_service_init_returns (counting no_message) (λ h. h) (counting-IsLedger no_message) dirty
      1 0 3 (service_context 3) holdings after_handshake after_handshake after_handshake no_message
      minus_two (omega arith)
      (record {
        sent = pos (length (init_request 77 dirty));
        w1 = record holdings { descriptors = pos 3 ∷ pos 1 ∷ [] };
        w2 = record holdings { descriptors = pos 3 ∷ pos 1 ∷ [] };
        w3 = after_handshake;
        opens = refl;
        binds = refl;
        grants = refl;
        sends = refl;
        kept = refl;
      })
      Skips.here refl (Initialises.empty 0)
