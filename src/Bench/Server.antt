-- ===== src/Bench/Server.antt =====
-- bench/src/echo_server.c: the server that sends back what it receives, one client after the other. A loop
-- runs on fuel and gives `none` when the fuel is used up. Printed messages are left out.
use tlshub_ebpf.Base.{
  ℕ, zero, suc, ◌+◌, ℤ, pos, minus_one, is_negative, Bool, true, false, Option, none, some, [], ◌∷◌,
  Bytes, ltb, if◌then◌else◌, length, drop,
}
use tlshub_ebpf.Bench.Sockets.{
  sent, got, accepted, interrupted, broken, tcp_nodelay, so_reuseaddr, so_reuseport, shut_rdwr,
  TcpSockets,
}

-- `sigint_handler(signum)`, on the flag `keep_running`.
unfoldable pub sigint_handler : Bool → Bool
sigint_handler flag = false

-- The flag, which is 1 until a signal comes.
unfoldable pub keep_running : {W : Type 0} → TcpSockets W → W → Bool
unfolding sigint_handler
keep_running net w = if net.signalled w then sigint_handler true else true

module _ {W : Type 0} (net : TcpSockets W) where
  -- `listen`, once the address is bound.
  unfoldable pub start_listening : ℤ → W → ℤ × W
  start_listening fd w =
      let (r, w1) = net.listen fd 128 w in
      if is_negative r then (minus_one, net.close fd w1) else (fd, w1)

  -- The options and the address, for a socket.
  unfoldable pub start_bind : ℕ → ℤ → W → ℤ × W
  unfolding start_listening
  start_bind port fd w =
      let (reuseaddr, w1) = net.setsockopt fd so_reuseaddr w in
      let (reuseport, w2) = net.setsockopt fd so_reuseport w1 in
      let (bound, w3) = net.bind fd port w2 in
      if is_negative reuseaddr
      then (minus_one, net.close fd w1)
      else if is_negative reuseport
      then (minus_one, net.close fd w2)
      else if is_negative bound
      then (minus_one, net.close fd w3)
      else start_listening fd w3

  -- `echo_server_start(port)`
  unfoldable pub echo_server_start : ℕ → W → ℤ × W
  unfolding start_bind
  echo_server_start port w =
      let (fd, w1) = net.socket w in
      if is_negative fd then (minus_one, w1) else start_bind port fd w1

  -- The inner loop of `echo_server_handle_client`: whether all bytes were sent.
  unfoldable pub echo : ℕ → ℤ → ℕ → Bytes → W → Option (Bool × W)
  echo zero fd total buffer w = none
  echo (suc fuel) fd total buffer w =
      let (r, w1) = net.send fd (drop total buffer) w in
      elim (ltb total (length buffer)) [
        | false ↦ some (true, w)
        | true ↦ elim r [
          | sent n ↦ echo fuel fd (total + n) buffer w1
          | interrupted ↦ echo fuel fd total buffer w1
          | broken ↦ some (false, w1)
        ]
      ]

  -- `shutdown` and `close` at the end of the outer loop.
  unfoldable pub finish_client : ℤ → W → W
  finish_client fd w = net.close fd (net.shutdown fd shut_rdwr w)

  -- The outer loop; `round` bounds the number of its turns, `fuel` that of each inner loop.
  unfoldable pub echo_loop : ℕ → ℕ → ℤ → W → Option W
  unfolding finish_client
  echo_loop zero fuel fd w = none
  echo_loop (suc round) fuel fd w =
      let (r, w1) = net.recv fd 65536 w in
      elim r [
        | interrupted ↦ echo_loop round fuel fd w1
        | broken ↦ some (finish_client fd w1)
        | got bytes ↦ elim bytes [
          | [] ↦ some (finish_client fd w1)
          | c ∷ cs ↦ elim (echo fuel fd 0 (c ∷ cs) w1) [
            | none ↦ none
            | some o ↦ elim o.0 [
              | true ↦ echo_loop round fuel fd o.1
              | false ↦ some (net.close fd o.1)
            ]
          ]
        ]
      ]

  -- `echo_server_handle_client(client_fd)`
  unfoldable pub echo_server_handle_client : ℕ → ℕ → ℤ → W → Option W
  echo_server_handle_client rounds fuel fd w =
      let (r, w1) = net.setsockopt fd tcp_nodelay w in echo_loop rounds fuel fd w1

  -- The loop of `run_echo_server`, at most so many turns.
  unfoldable pub accept_loop : ℕ → ℕ → ℕ → ℤ → W → Option W
  accept_loop zero rounds fuel fd w = none
  accept_loop (suc turns) rounds fuel fd w =
      let (r, w1) = net.accept fd w in
      elim (keep_running net w) [
        | false ↦ some (net.close fd w)
        | true ↦ elim r [
          | interrupted ↦ accept_loop turns rounds fuel fd w1
          | broken ↦ some (net.close fd w1)
          | accepted client_fd ↦ elim (echo_server_handle_client rounds fuel client_fd w1) [
            | none ↦ none
            | some w2 ↦ accept_loop turns rounds fuel fd w2
          ]
        ]
      ]

  -- `run_echo_server(config)`, with the port it listens on.
  unfoldable pub run_echo_server : ℕ → ℕ → ℕ → ℕ → W → Option (ℤ × W)
  run_echo_server turns rounds fuel port w =
      let (fd, w1) = echo_server_start port w in
      let served = accept_loop turns rounds fuel fd w1 in
      if is_negative fd
      then some (minus_one, w1)
      else elim served [ none ↦ none | some w2 ↦ some (pos 0, w2) ]
