-- ===== src/Capture.antt =====
-- capture/include/capture.h: the types that the capture module's parts share.
use tlshub_ebpf.Base.{ℕ, Bytes}

-- `enum key_provider_mode`. A C enum can hold other integers; they are `unknown`.
pub data Mode : Type 0 where
  tlshub openssl boringssl : Mode
  unknown : ℕ → Mode

-- The addresses are stored as they come from the socket, in network byte order; ports are integers.
pub record FlowTuple : Type 0 where
  pub saddr : ℕ
  pub daddr : ℕ
  pub sport : ℕ
  pub dport : ℕ

-- `key` stands for 32 bytes and `iv` for 16.
pub record TlsKeyInfo : Type 0 where
  pub key : Bytes
  pub iv : Bytes
  pub key_len : ℕ
  pub iv_len : ℕ
