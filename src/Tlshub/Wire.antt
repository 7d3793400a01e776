-- ===== src/Tlshub/Wire.antt =====
-- The messages of capture/src/tlshub_client.c as bytes, on a little-endian machine.

pub mod RoundTrip
use tlshub_ebpf.Base.{
  ℕ, ◌+◌, Bool, Bytes, [], ◌∷◌, ◌++◌, le16, le32, swap16, byte, slice, read_le32,
}
use tlshub_ebpf.Capture.{FlowTuple}

-- `NLMSG_SPACE(MAX_PAYLOAD)`: 16 bytes of header and 125 of payload, rounded up to a multiple of 4.
abbrev pub nlmsg_space : ℕ
nlmsg_space = 144

-- `enum { TLS_SERVICE_INIT, … }`
pub data Opcode : Type 0 where
  service_init service_start service_fetch : Opcode

abbrev pub opcode_byte : Opcode → ℕ
opcode_byte service_init = 0
opcode_byte service_start = 1
opcode_byte service_fetch = 2

-- `struct my_msg`
pub record MyMsg : Type 0 where
  pub client_pod_ip : ℕ
  pub server_pod_ip : ℕ
  pub client_pod_port : ℕ
  pub server_pod_port : ℕ
  pub opcode : Opcode
  pub server : Bool

abbrev bool_byte : Bool → ℕ
bool_byte Bool.true = 1
bool_byte Bool.false = 0

-- `sizeof(struct my_msg)` is 16: the last two bytes pad the structure, and were cleared.
unfoldable pub my_msg_bytes : MyMsg → Bytes
my_msg_bytes m =
    le32 m.client_pod_ip
    ++ (le32 m.server_pod_ip
        ++ (le16 m.client_pod_port
            ++ (le16 m.server_pod_port
                ++ (opcode_byte m.opcode ∷ bool_byte m.server ∷ 0 ∷ 0 ∷ []))))

-- The header as the three operations fill it: length, type, flags, sequence number, sender.
unfoldable pub nlmsghdr_bytes : ℕ → Bytes
nlmsghdr_bytes pid = le32 (16 + 16) ++ (le16 0 ++ (le16 0 ++ (le32 0 ++ le32 pid)))

-- What `sendto` transmits: the header and the message behind it.
unfoldable pub packet : ℕ → MyMsg → Bytes
unfolding nlmsghdr_bytes my_msg_bytes
packet pid m = nlmsghdr_bytes pid ++ my_msg_bytes m

abbrev pub init_msg : MyMsg
init_msg = record {
  client_pod_ip = 0;
  server_pod_ip = 0;
  client_pod_port = 0;
  server_pod_port = 0;
  opcode = service_init;
  server = Bool.true;
}

-- The message of `tlshub_fetch_key` and of `tlshub_handshake`: the ports go through `htons`.
unfoldable pub tuple_msg : Opcode → FlowTuple → MyMsg
tuple_msg op t = record {
  client_pod_ip = t.saddr;
  server_pod_ip = t.daddr;
  client_pod_port = swap16 t.sport;
  server_pod_port = swap16 t.dport;
  opcode = op;
  server = Bool.false;
}

-- `sizeof(user_msg_info)`: a header of 16 bytes, `msg_type`, `msg`, and padding to a multiple of 4.
abbrev pub sizeof_user_msg_info : ℕ
sizeof_user_msg_info = 144

-- `u_info.msg_type`
abbrev pub msg_type : Bytes → ℕ
msg_type u = byte u 16

-- `struct key_back`
pub record KeyBack : Type 0 where
  pub status : ℕ
  pub masterkey : Bytes

-- `memcpy(&key, u_info.msg, sizeof(struct key_back))`. The status is the bit pattern of an `int`.
unfoldable pub key_back : Bytes → KeyBack
key_back u = record { status = read_le32 u 17; masterkey = slice 32 21 u }
