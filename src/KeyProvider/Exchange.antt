-- ===== src/KeyProvider/Exchange.antt =====
-- The whole exchange with the kernel module in the TLSHub mode: fetch, handshake, fetch again.
use tlshub_ebpf.Base.{
  ℕ, ℤ, pos, minus_one, ◌^◌, ◌<◌, ◌≡◌, ◌≢◌, ap, ◌∙◌, false, some, Bytes, arith, if◌then◌else◌,
  length, replicate, ◌==◌,
}
use tlshub_ebpf.Capture.{tlshub, FlowTuple, TlsKeyInfo}
use tlshub_ebpf.Tlshub.Netlink.{Netlink, Recv, received}
use tlshub_ebpf.Tlshub.Wire.{sizeof_user_msg_info}
use tlshub_ebpf.Tlshub.Wire.RoundTrip.{key_reply}
use tlshub_ebpf.Tlshub.Client.{Client, tlshub_fetch_key, note_sender, handshake_verdict}
use tlshub_ebpf.Tlshub.Client.Fetch.{IsKeyInfo, Requested, fetch-key_reply}
use tlshub_ebpf.Tlshub.Client.Wait.{Started, Skips, Concludes, handshake_returns}
use tlshub_ebpf.KeyProvider.{
  Ssl, Provider, fetch_result, after_handshake, tlshub_get_key, get_key_in, key_provider_get_key,
}

-- The key that a successful fetch leaves in `key_info`.
abbrev pub fetched_key : Bytes → TlsKeyInfo
fetched_key masterkey = record { key = masterkey; iv = replicate 16 0; key_len = 32; iv_len = 12 }

-- The client asked in state `c`, `w` and the kernel module answered with this status and key; the
-- system is then in state `w'` and `pid` is the sender.
pub record Answered {W : Type 0} (os : Netlink W) (t : FlowTuple) (c : Client) (w : W) (status : ℕ)
    (masterkey : Bytes) (pid : ℕ) (w' : W) : Type 0 where
  pub reply_pid : ℕ
  pub reply_type : ℕ
  pub status_fits : status < 2 ^ 32
  pub key_size : length masterkey ≡ 32
  pub asked : Requested os t c (received pid (key_reply reply_pid reply_type status masterkey)) w w'

module _ {W : Type 0} (os : Netlink W) (ssl : Ssl W) (t : FlowTuple) (k : TlsKeyInfo) where
  fetch-Answered :
      (c : Client) (w w' : W) (status pid : ℕ) (masterkey : Bytes)
      → IsKeyInfo k
      → Answered os t c w status masterkey pid w'
      → tlshub_fetch_key os (some t) (some k) c w ≡ record {
        result = if status == 0 then (pos 0, some (fetched_key masterkey)) else (minus_one, some k);
        client = record c { dest_pid = pid };
        world = os.free w';
      }
  fetch-Answered c w w' status pid masterkey f a =
      fetch-key_reply os t k c w w' pid a.reply_pid a.reply_type status masterkey f a.status_fits
        a.key_size a.asked

  in_tlshub :
      (fuel : ℕ) (p : Provider) (w : W)
      → p.current_mode ≡ tlshub
      → key_provider_get_key os ssl fuel (some t) (some k) p w ≡ tlshub_get_key os ssl fuel t k p w
  unfolding key_provider_get_key
  in_tlshub fuel p w mode = ap (λ m. get_key_in os ssl m fuel t k p w) mode

  module _ (p : Provider) (mode : p.current_mode ≡ tlshub) (f : IsKeyInfo k) where
    -- In the TLSHub mode a key that the kernel module has is fetched at once: with status 0 the call
    -- returns 0 and `key_info` holds the master key of the reply.
    pub get_key_at_once :
        (fuel pid : ℕ) (w w' : W) (masterkey : Bytes)
        → Answered os t p.client w 0 masterkey pid w'
        → key_provider_get_key os ssl fuel (some t) (some k) p w
          ≡ some (record {
            result = pos 0;
            key_info = some (fetched_key masterkey);
            provider = record p { client = record p.client { dest_pid = pid } };
            world = os.free w';
          })
    unfolding tlshub_get_key fetch_result
    get_key_at_once fuel pid w w' masterkey a =
        in_tlshub fuel p w mode ∙ rw (fetch-Answered p.client w w' 0 pid masterkey f a)

    -- The first fetch was answered with another status, a handshake was sent, `n` undecided messages
    -- came, and then `r`; the system is in state `w4`.
    module _ (fuel n status pid : ℕ) (c2 c3 : Client) (w w1 w2 w3 w4 : W) (masterkey : Bytes)
        (r : Recv) (enough : n < fuel) (missing : status ≢ 0)
        (first : Answered os t p.client w status masterkey pid w1)
        (started : Started os t (record p.client { dest_pid = pid }) (os.free w1) c2 w2)
        (skips : Skips os handshake_verdict n c2 w2 c3 w3)
        (got : os.recvfrom c3.netlink_sock sizeof_user_msg_info w3 ≡ (r, w4)) where
      after_Skips :
          (v : ℤ)
          → Concludes r v
          → tlshub_get_key os ssl fuel t k p w
            ≡ some (
                after_handshake os ssl t p
                  (record {
                    result = (minus_one, some k);
                    client = record p.client { dest_pid = pid };
                    world = os.free w1;
                  })
                  (record { result = v; client = note_sender c3 r; world = w4 }))
      unfolding tlshub_get_key
      after_Skips v ends =
          let status_test : (status == 0) ≡ false = ground arith in
          let asked = fetch-Answered p.client w w1 status pid masterkey f first in
          let shaken =
            handshake_returns os t fuel n _ c2 c3 (os.free w1) w2 w3 w4 r v enough started skips got
              ends in
          rw (asked, status_test, shaken, asked, status_test)

      -- In the TLSHub mode a key that the kernel module does not have yet is fetched after a
      -- handshake: when the first reply has a status other than 0, the handshake that is then sent
      -- succeeds after `n` undecided messages, fewer than the fuel, and the second fetch is answered
      -- with status 0, the call returns 0 and `key_info` holds the master key of the second reply.
      pub get_key_after_handshake :
          (pid' : ℕ) (w5 : W) (masterkey' : Bytes)
          → Concludes r (pos 0)
          → Answered os t (note_sender c3 r) w4 0 masterkey' pid' w5
          → key_provider_get_key os ssl fuel (some t) (some k) p w
            ≡ some (record {
              result = pos 0;
              key_info = some (fetched_key masterkey');
              provider = record p { client = record (note_sender c3 r) { dest_pid = pid' } };
              world = os.free w5;
            })
      unfolding after_handshake fetch_result
      get_key_after_handshake pid' w5 masterkey' ends second =
          in_tlshub fuel p w mode
          ∙ after_Skips (pos 0) ends
          ∙ rw (fetch-Answered (note_sender c3 r) w4 w5 0 pid' masterkey' f second)

      -- Where the kernel module refuses that handshake instead, or answers with an empty message, the
      -- call returns -1, asks no more, and leaves `key_info` as it was.
      pub get_key_refused :
          Concludes r minus_one
          → key_provider_get_key os ssl fuel (some t) (some k) p w
            ≡ some (record {
              result = minus_one;
              key_info = some k;
              provider = record p { client = note_sender c3 r };
              world = w4;
            })
      unfolding after_handshake
      get_key_refused ends = in_tlshub fuel p w mode ∙ after_Skips minus_one ends
