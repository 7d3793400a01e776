-- ===== src/Tlshub/Client/Fetch.antt =====
-- `tlshub_fetch_key` against what the kernel module answers.
use tlshub_ebpf.Base.{
  ℕ, ℤ, pos, minus_one, is_negative, is_zero, ◌^◌, ◌<◌, ◌≡◌, ◌⊎◌, inl, inr, refl, refl, sym, ◌∙◌,
  true, false, Option, none, some, Bytes, ◌==◌, if◌then◌else◌, length, replicate, overwrite_all,
  inl, inr, Bool-cases,
}
use tlshub_ebpf.Capture.{FlowTuple, TlsKeyInfo}
use tlshub_ebpf.Tlshub.Netlink.{Netlink, Recv, failed, received}
use tlshub_ebpf.Tlshub.Wire.{
  nlmsg_space, service_fetch, packet, tuple_msg, sizeof_user_msg_info, key_back, KeyBack,
}
use tlshub_ebpf.Tlshub.Wire.RoundTrip.{key_reply, key_back-key_reply}
use tlshub_ebpf.Tlshub.Client.{
  Client, parsed, fetched, note_sender, fetch_exchange, tlshub_fetch_key,
}

-- `struct tls_key_info` has arrays of 32 and of 16 bytes.
pub record IsKeyInfo (k : TlsKeyInfo) : Type 0 where
  pub key_size : length k.key ≡ 32
  pub iv_size : length k.iv ≡ 16

-- A request that went out: the buffer was granted, the message sent, and `recvfrom` did `r`.
pub record Requested {W : Type 0} (os : Netlink W) (t : FlowTuple) (c : Client) (r : Recv)
    (w w' : W) : Type 0 where
  pub is_open : is_negative c.netlink_sock ≡ false
  pub w1 : W
  pub w2 : W
  pub sent : ℤ
  pub granted : os.malloc nlmsg_space w ≡ (true, w1)
  pub sends :
      os.sendto c.netlink_sock (packet (os.gettid w1) (tuple_msg service_fetch t)) c.dest_pid w1
      ≡ (sent, w2)
  pub kept : is_zero sent ≡ false
  pub receives : os.recvfrom c.netlink_sock sizeof_user_msg_info w2 ≡ (r, w')

module _ {W : Type 0} (os : Netlink W) (t : FlowTuple) (k : TlsKeyInfo) (c : Client) where
  fetch-Requested :
      (r : Recv) (w w' : W)
      → Requested os t c r w w'
      → tlshub_fetch_key os (some t) (some k) c w
        ≡ record { result = fetched k (parsed r); client = note_sender c r; world = os.free w' }
  unfolding tlshub_fetch_key
  fetch-Requested r w w' q = rw (q.is_open, fetch_exchange, q.granted, q.sends, q.receives, q.kept)

  -- A reply with status 0 makes the fetch succeed: `key_info` then holds exactly the master key, a
  -- cleared IV and the lengths 32 and 12. Any other status makes it return -1 with `key_info` as it was.
  pub fetch-key_reply :
      (w w' : W) (pid reply_pid ty status : ℕ) (masterkey : Bytes)
      → IsKeyInfo k
      → status < 2 ^ 32
      → length masterkey ≡ 32
      → Requested os t c (received pid (key_reply reply_pid ty status masterkey)) w w'
      → tlshub_fetch_key os (some t) (some k) c w ≡ record {
        result =
            if status == 0
            then (
              pos 0,
              some (record { key = masterkey; iv = replicate 16 0; key_len = 32; iv_len = 12 }),
            )
            else (minus_one, some k);
        client = record c { dest_pid = pid };
        world = os.free w';
      }
  fetch-key_reply w w' pid reply_pid ty status masterkey f h n q = rw (fetch-Requested _ w w' q) (
      unfold parsed note_sender fetched in
      rw (
        key_back-key_reply reply_pid ty status masterkey h n,
        overwrite_all masterkey k.key (n ∙ sym f.key_size),
        overwrite_all (replicate 16 0) k.iv (sym f.iv_size),
      ))

  -- A `recvfrom` that fails is taken for a reply: the fetch returns 0 and `key_info` holds a key of
  -- 32 zero bytes.
  pub fetch_failed_recv :
      (w w' : W)
      → IsKeyInfo k
      → Requested os t c failed w w'
      → (tlshub_fetch_key os (some t) (some k) c w).result ≡ (
        pos 0,
        some (record { key = replicate 32 0; iv = replicate 16 0; key_len = 32; iv_len = 12 }),
      )
  fetch_failed_recv w w' f q = rw (fetch-Requested _ w w' q) (
      unfold parsed note_sender fetched key_back in
      rw (
        overwrite_all (replicate 32 0) k.key (sym f.key_size),
        overwrite_all (replicate 16 0) k.iv (sym f.iv_size),
      ))

-- What a fetch can leave behind: 0 and a key of the two fixed lengths, or -1 and `key_info` untouched.
pub data FetchEnds (k : TlsKeyInfo) : ℤ × Option TlsKeyInfo → Type 0 where
  filled : (k' : TlsKeyInfo) → k'.key_len ≡ 32 → k'.iv_len ≡ 12 → FetchEnds k (pos 0, some k')
  untouched : FetchEnds k (minus_one, some k)

fetched-FetchEnds : (k : TlsKeyInfo) (o : Option KeyBack) → FetchEnds k (fetched k o)
unfolding fetched
fetched-FetchEnds k none = untouched
fetched-FetchEnds k (some b) = elim (Bool-cases (b.status == 0)) [
  | inl e ↦ rw e (filled _ refl refl)
  | inr e ↦ rw e untouched
]

-- Whatever the system does, a fetch with both pointers returns 0 with a key of length 32 and an IV of length
-- 12 in `key_info`, or it returns -1 and leaves `key_info` as it was.
pub fetch-FetchEnds :
    {W : Type 0} (os : Netlink W) (t : FlowTuple) (k : TlsKeyInfo) (c : Client) (w : W)
    → FetchEnds k (tlshub_fetch_key os (some t) (some k) c w).result
unfolding tlshub_fetch_key
fetch-FetchEnds os t k c w = elim (Bool-cases (is_negative c.netlink_sock)) [
  | inl e ↦ rw e untouched
  | inr e ↦ rw e (fetched-FetchEnds k (fetch_exchange os t c w).result)
]

pub FetchEnds-cases :
    (k : TlsKeyInfo) (r : ℤ × Option TlsKeyInfo)
    → FetchEnds k r
    → ((r.0 ≡ pos 0) × ((k' : TlsKeyInfo) × (r.1 ≡ some k') × (k'.key_len ≡ 32) × (k'.iv_len ≡ 12)))
      ⊎ ((r.0 ≡ minus_one) × (r.1 ≡ some k))
FetchEnds-cases k _ (filled k' a b) = inl (refl, (k', refl, a, b))
FetchEnds-cases k _ untouched = inr (refl, refl)
