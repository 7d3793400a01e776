-- ===== src/Tlshub/Wire/RoundTrip.antt =====
-- What the receiver reads out of the bytes of a request, and what the client reads out of a reply.
use tlshub_ebpf.Base.{
  ℕ, ◌^◌, ◌<◌, ◌≡◌, refl, Bytes, ◌∷◌, ◌++◌, length, le16, le32, read_le32, read_be16, byte, fill,
  fill_all, take, take_all, swap16, arith,
}
use tlshub_ebpf.Capture.{FlowTuple}
use tlshub_ebpf.Tlshub.Wire.{Opcode, opcode_byte, packet, tuple_msg, sizeof_user_msg_info, key_back}

pub le32_lem : (x : ℕ) → x < 2 ^ 32 → read_le32 (le32 x) 0 ≡ x
le32_lem x h = omega arith

be16_lem : (x : ℕ) → x < 2 ^ 16 → read_be16 (le16 (swap16 x)) 0 ≡ x
be16_lem x h = omega arith

-- The fields of a flow that fit the types of `struct flow_tuple`.
pub record IsFlow (t : FlowTuple) : Type 0 where
  pub saddr_fits : t.saddr < 2 ^ 32
  pub daddr_fits : t.daddr < 2 ^ 32
  pub sport_fits : t.sport < 2 ^ 16
  pub dport_fits : t.dport < 2 ^ 16

-- The bytes of a request hold the length of the packet and the sender in the header, then the two
-- addresses as they were given, the two ports in network byte order, the operation and a client flag.
pub packet-tuple_msg :
    (pid : ℕ) (op : Opcode) (t : FlowTuple)
    → pid < 2 ^ 32
    → IsFlow t
    → let p = packet pid (tuple_msg op t) in
      (read_le32 p 0 ≡ length p)
      × (read_le32 p 12 ≡ pid)
      × (read_le32 p 16 ≡ t.saddr)
      × (read_le32 p 20 ≡ t.daddr)
      × (read_be16 p 24 ≡ t.sport)
      × (read_be16 p 26 ≡ t.dport)
      × (byte p 28 ≡ opcode_byte op)
      × (byte p 29 ≡ 0)
unfolding packet tuple_msg
packet-tuple_msg pid op t h f = (
  refl,
  le32_lem pid h,
  le32_lem t.saddr f.saddr_fits,
  le32_lem t.daddr f.daddr_fits,
  be16_lem t.sport f.sport_fits,
  be16_lem t.dport f.dport_fits,
  refl,
  refl,
)

-- A reply of the kernel module to a fetch: a header, a message type, `struct key_back`.
abbrev pub key_reply : ℕ → ℕ → ℕ → Bytes → Bytes
key_reply pid ty status masterkey =
    (le32 53 ++ (le16 0 ++ (le16 0 ++ (le32 0 ++ le32 pid)))) ++ (ty ∷ (le32 status ++ masterkey))

pub key_back-key_reply :
    (pid ty status : ℕ) (masterkey : Bytes)
    → status < 2 ^ 32
    → length masterkey ≡ 32
    → key_back (take sizeof_user_msg_info (key_reply pid ty status masterkey))
      ≡ record { status = status; masterkey = masterkey }
unfolding key_back
key_back-key_reply pid ty status masterkey h n =
    λ i. record { status = le32_lem status h i; masterkey = key i }
  where
    key : fill 32 (take 123 masterkey) ≡ masterkey
    key = rw (take_all 123 masterkey (omega arith)) (fill_all 32 masterkey n)
