-- ===== src/Api/Wire.antt =====
-- The messages of tlshub-api/tlshub.c. The structure `my_msg` is a local variable of each function: what is
-- not assigned holds whatever the stack held, and is sent with the rest.
use tlshub_ebpf.Base.{ℕ, ◌++◌, ◌∷◌, Bytes, le16, le32, swap16}
use tlshub_ebpf.Tlshub.Wire.{
  nlmsghdr_bytes, service_init, service_start, service_fetch, opcode_byte,
}

-- The bytes of `my_msg` as the stack left them: addresses and ports, `server`, the padding at the end.
pub record Stack : Type 0 where
  pub addresses : Bytes
  pub server : ℕ
  pub padding : Bytes

-- The arguments of `tlshub_handshake` and `tlshub_fetch_key`; addresses in network byte order.
pub record Pods : Type 0 where
  pub client_pod_ip : ℕ
  pub server_pod_ip : ℕ
  pub client_pod_port : ℕ
  pub server_pod_port : ℕ

-- The addresses and the ports, these through `htons`.
unfoldable pub pods_bytes : Pods → Bytes
pods_bytes p =
    le32 p.client_pod_ip
    ++ (le32 p.server_pod_ip
        ++ (le16 (swap16 p.client_pod_port) ++ le16 (swap16 p.server_pod_port)))

-- The message of `tlshub_service_init`.
unfoldable pub init_request : ℕ → Stack → Bytes
init_request pid s =
    nlmsghdr_bytes pid ++ (s.addresses ++ (opcode_byte service_init ∷ (1 ∷ s.padding)))

-- The message of `tlshub_handshake`.
unfoldable pub start_request : ℕ → Pods → Stack → Bytes
unfolding pods_bytes
start_request pid p s =
    nlmsghdr_bytes pid ++ (pods_bytes p ++ (opcode_byte service_start ∷ (0 ∷ s.padding)))

-- The message of `tlshub_fetch_key`.
unfoldable pub fetch_request : ℕ → Pods → Stack → Bytes
unfolding pods_bytes
fetch_request pid p s =
    nlmsghdr_bytes pid ++ (pods_bytes p ++ (opcode_byte service_fetch ∷ (s.server ∷ s.padding)))
