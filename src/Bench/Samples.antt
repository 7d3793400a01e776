-- ===== src/Bench/Samples.antt =====
-- A network with one connection, that takes two bytes at a time and gives one.
use tlshub_ebpf.Base.{
  ℕ, zero, suc, ◌+◌, ◌<◌, ◌≡◌, refl, ap, pos, true, false, some, [], ◌∷◌, ◌++◌, Bytes, min, length,
  take, arith, codes,
}
use tlshub_ebpf.Metrics.Types.{Clock}
use tlshub_ebpf.Bench.Types.{BenchConfig, client}
use tlshub_ebpf.Bench.Sockets.{Sent, sent, Received, got, ready, interrupted, broken, TcpSockets}
use tlshub_ebpf.Bench.Stream.{Conversation, SendLaw, RecvLaw, IsStream}
use tlshub_ebpf.Bench.Transmit.{IsApart}
use tlshub_ebpf.Bench.Finite.{SendCost, RecvCost, IsFinite}

abbrev pub still : Clock Conversation
still = record { gettime = λ w. (record { tv_sec = 7; tv_nsec = 0 }, w) }

-- The interruptions come first.
abbrev pub take_two : ℕ → Bytes → Conversation → Sent × Conversation
take_two zero bs w =
    (sent (min 2 (length bs)), record w { out = w.out ++ take (min 2 (length bs)) bs })
take_two (suc k) bs w = (interrupted, record w { interrupts = k })

abbrev pub give_one : ℕ → Bytes → Conversation → Received × Conversation
give_one zero [] w = (got [], w)
give_one zero (c ∷ cs) w = (got (c ∷ []), record w { pending = cs })
give_one (suc k) bs w = (interrupted, record w { interrupts = k })

abbrev pub toy : TcpSockets Conversation
toy = record {
  socket = λ w. (pos 3, w);
  setsockopt = λ fd o w. (pos 0, w);
  inet_pton = λ ip. some 1;
  connect = λ fd a p w. (pos 0, w);
  send = λ fd bs w. take_two w.interrupts bs w;
  recv = λ fd room w. give_one w.interrupts w.pending w;
  poll = λ fd ms w. (ready, w);
  shutdown = λ fd d w. w;
  close = λ fd w. w;
  malloc = λ n w. (true, w);
  free = λ w. w;
  usleep = λ us w. w;
  bind = λ fd p w. (pos 0, w);
  listen = λ fd n w. (pos 0, w);
  accept = λ fd w. (broken, w);
  signalled = λ w. false;
}

take_two-SendLaw :
    (i : ℕ) (bs : Bytes) (w : Conversation)
    → w.interrupts ≡ i
    → 0 < length bs
    → SendLaw bs w (take_two i bs w).0 (take_two i bs w).1
take_two-SendLaw zero bs w e h = (omega arith, omega arith, refl, refl, omega arith, refl)
take_two-SendLaw (suc k) bs w e h = (refl, refl, omega arith, refl)

give_one-RecvLaw :
    (i : ℕ) (bs : Bytes) (room : ℕ) (w : Conversation)
    → w.interrupts ≡ i
    → w.pending ≡ bs
    → 0 < room
    → RecvLaw room w (give_one i bs w).0 (give_one i bs w).1
give_one-RecvLaw zero [] room w e p h = (p, refl, omega arith, refl)
give_one-RecvLaw zero (c ∷ cs) room w e p h = (p, h, refl, omega arith, refl)
give_one-RecvLaw (suc k) bs room w e p h = (refl, refl, omega arith, refl)

pub toy-IsStream : IsStream toy (pos 3) (λ w. w)
toy-IsStream = record {
  sends = λ bs w h. take_two-SendLaw w.interrupts bs w refl h;
  receives = λ room w h. give_one-RecvLaw w.interrupts w.pending room w refl refl h;
  close_keeps = λ w. refl;
  shutdown_keeps = λ d w. refl;
  setsockopt_keeps = λ o w. refl;
}

pub toy-IsApart : IsApart still toy (λ w. w)
toy-IsApart = record {
  gettime_keeps = λ w. refl;
  malloc_keeps = λ n w. refl;
  free_keeps = λ w. refl;
}

abbrev pub budget : Conversation → ℕ
budget w = length w.pending + w.interrupts

take_two-SendCost :
    (i : ℕ) (bs : Bytes) (w : Conversation)
    → w.interrupts ≡ i
    → 0 < length bs
    → SendCost (length bs) (budget w) (take_two i bs w).0 (budget (take_two i bs w).1)
take_two-SendCost zero bs w e h = (omega arith, omega arith, omega arith)
take_two-SendCost (suc k) bs w e h = omega arith

give_one-RecvCost :
    (i : ℕ) (bs : Bytes) (w : Conversation)
    → w.interrupts ≡ i
    → w.pending ≡ bs
    → RecvCost (budget w) (give_one i bs w).0 (budget (give_one i bs w).1)
give_one-RecvCost zero [] w e p = omega arith
give_one-RecvCost zero (c ∷ cs) w e p = let len = ap length p in omega arith
give_one-RecvCost (suc k) bs w e p = omega arith

pub toy-IsFinite : IsFinite still toy budget
toy-IsFinite = record {
  sends = λ fd bs w h. take_two-SendCost w.interrupts bs w refl h;
  receives = λ fd room w. give_one-RecvCost w.interrupts w.pending w refl refl;
  polls = λ fd ms w. omega arith;
  gettime_le = λ w. omega arith;
  socket_le = λ w. omega arith;
  setsockopt_le = λ fd o w. omega arith;
  connect_le = λ fd a p w. omega arith;
  shutdown_le = λ fd d w. omega arith;
  close_le = λ fd w. omega arith;
  malloc_le = λ n w. omega arith;
  free_le = λ w. omega arith;
  usleep_le = λ us w. omega arith;
}

abbrev pub hello : Conversation
hello = record { out = []; pending = codes "hello"; interrupts = 1; failures = 0 }

abbrev pub two_times_three : BenchConfig
two_times_three = record {
  mode = client;
  target_ip = codes "127.0.0.1";
  target_port = 8080;
  listen_port = 9090;
  data_size = 3;
  concurrency = 1;
  total_connections = 2;
  verbose = true;
  output_json = codes "m.json";
  output_csv = codes "m.csv";
}
