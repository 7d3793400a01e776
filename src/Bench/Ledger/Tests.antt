-- ===== src/Bench/Ledger/Tests.antt =====
-- The server mode on a network with two clients that send nothing, and the client mode on it.
use tlshub_ebpf.Base.{
  ℕ, ◌+◌, ◌≡◌, ◌⊎◌, refl, ◌==◌, zero, suc, arith, pos, true, none, some, [], ◌∷◌, List, Bytes,
  codes, str_eq,
}
use tlshub_ebpf.Base.Holdings.{
  Holdings, close_latest, free_block, close_latest-opened, free_block-allocated,
}
use tlshub_ebpf.Metrics.Samples.{natural}
use tlshub_ebpf.Metrics.Types.{Clock}
use tlshub_ebpf.Bench.Metrics.{Resources}
use tlshub_ebpf.Bench.Sockets.{sent, got, Accepted, accepted, broken, timed_out, TcpSockets}
use tlshub_ebpf.Bench.Main.{Host, Ending, Bounds, main}
use tlshub_ebpf.Stdio.{skip_space, is_space}
use tlshub_ebpf.Metrics.Proc.{scan_llu}
use tlshub_ebpf.Bench.Options.{init_config, parse_options}
use tlshub_ebpf.Bench.Server.{
  echo_server_start, keep_running, accept_loop, echo_server_handle_client, echo_loop,
}
use tlshub_ebpf.Bench.Ledger.{IsLedger, Leaves, opened_by}
use tlshub_ebpf.Bench.Ledger.Program.{IsHostLedger}
use tlshub_ebpf.Bench.Ledger.Total.{Serves, main-released}
use tlshub_ebpf.Bench.Finite.{IsFinite}

-- What the process holds, and the clients that are still to come; then the signal arrives.
record Hall : Type 0 where
  pub held : Holdings
  pub clients : ℕ

abbrev admit : ℕ → Hall → Accepted × Hall
admit zero w = (broken, w)
admit (suc n) w = (
  accepted (pos 4),
  record { held = record w.held { descriptors = pos 4 ∷ w.held.descriptors }; clients = n },
)

abbrev ticking : Clock Hall
ticking = record { gettime = λ w. (record { tv_sec = 7; tv_nsec = 0 }, w) }

abbrev hall : TcpSockets Hall
hall = record {
  socket =
      λ w. (pos 3, record w { held = record w.held { descriptors = pos 3 ∷ w.held.descriptors } });
  setsockopt = λ fd o w. (pos 0, w);
  inet_pton = λ ip. some 1;
  connect = λ fd a p w. (pos 0, w);
  send = λ fd bs w. (sent 1, w);
  recv = λ fd room w. (got [], w);
  poll = λ fd ms w. (timed_out, w);
  shutdown = λ fd d w. w;
  close = λ fd w. record w { held = close_latest w.held };
  malloc = λ n w. (true, record w { held = record w.held { blocks = w.held.blocks + 1 } });
  free = λ w. record w { held = free_block w.held };
  usleep = λ us w. w;
  bind = λ fd p w. (pos 0, w);
  listen = λ fd n w. (pos 0, w);
  accept = λ fd w. admit w.clients w;
  signalled = λ w. w.clients == 0;
}

abbrev held : Hall → Holdings
held w = w.held

admit_opens : (n : ℕ) (w : Hall) → held (admit n w).1 ≡ opened_by (admit n w).0 (held w)
admit_opens zero w = refl
admit_opens (suc n) w = refl

hall-IsLedger : IsLedger ticking hall held
hall-IsLedger = record {
  socket_opens = λ w. refl;
  accept_opens = λ fd w. admit_opens w.clients w;
  close_undoes = λ fd h w e. close_latest-opened fd h w.held e;
  malloc_allocates = λ n w. refl;
  free_undoes = λ h w e. free_block-allocated h w.held e;
  setsockopt_keeps = λ fd o w. refl;
  connect_keeps = λ fd a p w. refl;
  send_keeps = λ fd bs w. refl;
  recv_keeps = λ fd room w. refl;
  poll_keeps = λ fd ms w. refl;
  shutdown_keeps = λ fd d w. refl;
  usleep_keeps = λ us w. refl;
  bind_keeps = λ fd p w. refl;
  listen_keeps = λ fd n w. refl;
  gettime_keeps = λ w. refl;
}

abbrev quiet : Resources Hall
quiet = record { getrusage = λ w. (none, w) }

abbrev roomy : Host Hall
roomy = record {
  calloc = λ n w. (true, record w { held = record w.held { blocks = w.held.blocks + 1 } });
  fopen = λ name w. (true, w);
}

roomy-IsHostLedger : IsHostLedger quiet roomy held
roomy-IsHostLedger = record {
  calloc_allocates = λ n w. refl;
  fopen_keeps = λ path w. refl;
  getrusage_keeps = λ w. refl;
}

abbrev as_server : List (ℕ × Bytes)
as_server = (b'm', codes "server") ∷ ((b'l', codes "9090") ∷ [])

abbrev two_clients : Hall
two_clients = record { held = record { descriptors = pos 1 ∷ []; blocks = 2 }; clients = 2 }

abbrev three_turns : Bounds
three_turns = record { turns = 3; rounds = 3; fuel = 10485763 }

abbrev clients_of : Hall → ℕ
clients_of w = w.clients

hall-IsFinite : IsFinite ticking hall clients_of
hall-IsFinite = record {
  sends = λ fd bs w h. (omega arith, h, omega arith);
  receives = λ fd room w. omega arith;
  polls = λ fd ms w. omega arith;
  gettime_le = λ w. omega arith;
  socket_le = λ w. omega arith;
  setsockopt_le = λ fd o w. omega arith;
  connect_le = λ fd a p w. omega arith;
  shutdown_le = λ fd d w. omega arith;
  close_le = λ fd w. omega arith;
  malloc_le = λ n w. omega arith;
  free_le = λ w. omega arith;
  usleep_le = λ us w. omega arith;
}

-- Ten bytes over two connections, one after the other.
abbrev as_client : List (ℕ × Bytes)
as_client = (b'm', codes "client") ∷ ((b's', codes "10") ∷ ((b'n', codes "2") ∷ []))

main-released_example :
    Leaves
      (λ (o : Ending ℕ Hall). o.world)
      held
      two_clients.held
      (main natural ticking hall quiet roomy three_turns [] [] as_client two_clients)
    × (Serves (parse_options (init_config [] []) as_client)
        ⊎ ((e : Ending ℕ Hall) × (main natural ticking hall quiet roomy three_turns [] [] as_client
                two_clients
              ≡ some e)))
main-released_example =
    main-released natural ticking hall quiet roomy clients_of hall-IsFinite (λ n w. omega arith)
      held hall-IsLedger roomy-IsHostLedger three_turns [] [] as_client two_clients (omega arith)

-- The server stops with status 0 when the signal arrives, after two clients.
served_two_lem :
    main natural ticking hall quiet roomy three_turns [] [] as_server two_clients
    ≡ some
        (record { status = 0; json = none; csv = none; world = record two_clients { clients = 0 } })
unfolding main parse_options str_eq scan_llu skip_space is_space echo_server_start keep_running
    accept_loop echo_server_handle_client echo_loop
served_two_lem = refl
