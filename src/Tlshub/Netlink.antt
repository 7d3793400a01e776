-- ===== src/Tlshub/Netlink.antt =====
-- The system calls of the client, over an unknown state `W` of the system. None of them is defined in
-- the repository, so they are parameters of the client.
use tlshub_ebpf.Base.{ℕ, ℤ, Bool, Bytes}

-- What `recvfrom` did: it returned -1 and wrote nothing, or it wrote a message and returned its length.
-- With the message comes the netlink id of its sender.
pub data Recv : Type 0 where
  failed : Recv
  received : ℕ → Bytes → Recv

pub record Netlink (W : Type 0) : Type 0 where
  pub gettid : W → ℕ
  pub socket : W → ℤ × W
  pub bind : ℤ → ℕ → W → ℤ × W
  pub close : ℤ → W → W
  pub malloc : ℕ → W → Bool × W
  pub free : W → W
  -- the socket, the message and the netlink id of the receiver
  pub sendto : ℤ → Bytes → ℕ → W → ℤ × W
  -- the socket and the room in the buffer
  pub recvfrom : ℤ → ℕ → W → Recv × W
