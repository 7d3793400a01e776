-- ===== src/Bench/Sockets.antt =====
-- The system calls of the benchmark tool, over an unknown state `W` of the system. A failed call that set
-- `errno` to EINTR is `interrupted`.
use tlshub_ebpf.Base.{ℕ, ℤ, Bool, Option, Bytes}

-- What `send` did; `sent n` took the first `n` bytes. A call that ends the process by SIGPIPE has no result.
pub data Sent : Type 0 where
  sent : ℕ → Sent
  interrupted broken : Sent

-- What `recv` did; no bytes at the end of the stream.
pub data Received : Type 0 where
  got : Bytes → Received
  interrupted broken : Received

-- What `poll` for input did.
pub data Polled : Type 0 where
  ready timed_out interrupted broken : Polled

-- What `accept` did.
pub data Accepted : Type 0 where
  accepted : ℤ → Accepted
  interrupted broken : Accepted

-- The socket options that are set; the time in seconds.
pub data SocketOption : Type 0 where
  tcp_nodelay so_reuseaddr so_reuseport : SocketOption
  so_rcvtimeo : ℕ → SocketOption

pub data Direction : Type 0 where
  shut_wr shut_rdwr : Direction

pub record TcpSockets (W : Type 0) : Type 0 where
  pub socket : W → ℤ × W
  pub setsockopt : ℤ → SocketOption → W → ℤ × W
  -- the address that a text stands for
  pub inet_pton : Bytes → Option ℕ
  -- the socket, the address and the port, in host byte order
  pub connect : ℤ → ℕ → ℕ → W → ℤ × W
  -- the socket and the bytes offered
  pub send : ℤ → Bytes → W → Sent × W
  -- the socket and the room in the buffer
  pub recv : ℤ → ℕ → W → Received × W
  -- the socket and the time limit in milliseconds
  pub poll : ℤ → ℕ → W → Polled × W
  pub shutdown : ℤ → Direction → W → W
  pub close : ℤ → W → W
  pub malloc : ℕ → W → Bool × W
  pub free : W → W
  pub usleep : ℕ → W → W
  -- the socket and the port, at any local address
  pub bind : ℤ → ℕ → W → ℤ × W
  -- the socket and the length of the queue
  pub listen : ℤ → ℕ → W → ℤ × W
  pub accept : ℤ → W → Accepted × W
  -- whether one of the signals that `sigint_handler` handles has come
  pub signalled : W → Bool
