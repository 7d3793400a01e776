-- ===== src/Api/Program.antt =====
-- tlshub-api/tlshub_handshake.c and its older copy hypertls_handshake.c: the program that tries three
-- handshakes between two pods. Printed messages are left out.
pub mod Sending
pub mod Attempts
mod Tests
use tlshub_ebpf.Base.{
  ℕ, zero, suc, ◌+◌, ◌-◌, ◌%◌, ◌^◌, ℤ, pos, minus_one, is_zero, Bool, Option, none, some, List, [],
  ◌∷◌, Bytes, if◌then◌else◌,
}
use tlshub_ebpf.Tlshub.Netlink.{Netlink}
use tlshub_ebpf.Api.Wire.{Stack, Pods}
use tlshub_ebpf.Api.Context.{Context, fresh_context, End, returned, exited, crashed}
use tlshub_ebpf.Api.Requests.{tlshub_handshake}
use tlshub_ebpf.Api.Hypertls.{hypertls_handshake}

-- What the program uses of the C library. `rung` says whether the alarm went off by then.
pub record Host (W : Type 0) : Type 0 where
  pub inet_addr : Bytes → ℕ
  pub time : W → ℕ
  pub getpid : W → ℕ
  pub srand : ℕ → W → W
  pub rand : W → ℕ × W
  pub sleep : ℕ → W → W
  pub alarm : ℕ → W → W
  pub rung : W → Bool

-- How the program ends: with a status, with the thread's context; by the alarm, whose handler exits with 1; or
-- by a crash in a handshake.
pub data Exit (W : Type 0) : Type 0 where
  ended : ℤ → Context → W → Exit W
  timed_out : Exit W
  faulted : Exit W

abbrev pub timeout_seconds : ℕ
timeout_seconds = 30

abbrev pub min_port : ℕ
min_port = 10000

abbrev pub max_port : ℕ
max_port = 65000

abbrev pub Handshake : Type 0 → Type 0
Handshake W = Pods → Stack → Context → W → Option (End ℤ × Context × W)

module _ {W : Type 0} (host : Host W) where
  -- `get_random_port()`
  unfoldable pub get_random_port : W → ℕ × W
  get_random_port w = let (r, w1) = host.rand w in (min_port + r % (max_port - min_port + 1), w1)

  -- `sleep(1)`, unless the alarm goes off.
  unfoldable pub pause : (Context → W → Exit W) → Context → W → Exit W
  pause again ctx w = if host.rung (host.sleep 1 w) then timed_out else again ctx (host.sleep 1 w)

  -- `if (rc == 0) …`; a handshake that still waits when its fuel is used up is ended by the alarm.
  unfoldable pub judge_attempt : (Context → W → Exit W) → Option (End ℤ × Context × W) → Exit W
  unfolding pause
  judge_attempt again none = timed_out
  judge_attempt again (some (returned rc, ctx, w)) =
      if is_zero rc then pause again ctx w else ended rc ctx w
  judge_attempt again (some (exited, ctx, w)) = ended minus_one ctx w
  judge_attempt again (some (crashed, ctx, w)) = faulted

  -- The arguments of one handshake; the ports become `unsigned short`.
  unfoldable pub pods_of : Bytes → Bytes → ℕ → ℕ → Pods
  pods_of client_ip server_ip client_port server_port = record {
    client_pod_ip = host.inet_addr client_ip;
    server_pod_ip = host.inet_addr server_ip;
    client_pod_port = client_port % 2 ^ 16;
    server_pod_port = server_port % 2 ^ 16;
  }

  -- The loop, so many times more; `stack` is what each call finds on the stack.
  unfoldable pub attempts : ℕ → Handshake W → Bytes → Bytes → (ℕ → Stack) → Context → W → Exit W
  unfolding get_random_port pods_of judge_attempt
  attempts zero handshake client_ip server_ip stack ctx w = ended (pos 0) ctx (host.alarm 0 w)
  attempts (suc n) handshake client_ip server_ip stack ctx w =
      let (client_port, w1) = get_random_port w in
      let (server_port, w2) = get_random_port w1 in
      judge_attempt (attempts n handshake client_ip server_ip stack)
        (handshake (pods_of client_ip server_ip client_port server_port) (stack n) ctx w2)

  -- `main(argc, argv)` from the arguments behind the program's name on, in a thread without a context.
  unfoldable pub handshake_main : Handshake W → List Bytes → (ℕ → Stack) → W → Exit W
  unfolding attempts
  handshake_main handshake [] stack w = ended (pos 1) fresh_context w
  handshake_main handshake (client_ip ∷ []) stack w = ended (pos 1) fresh_context w
  handshake_main handshake (client_ip ∷ (server_ip ∷ others)) stack w =
      let w1 = host.alarm timeout_seconds w in
      attempts 3 handshake client_ip server_ip stack fresh_context
        (host.srand ((host.time w1 + host.getpid w1) % 2 ^ 32) w1)

  module _ (os : Netlink W) where
    -- `main` of tlshub_handshake.c; `fuel` is how many messages one handshake waits for before the alarm.
    unfoldable pub tlshub_main : ℕ → List Bytes → (ℕ → Stack) → W → Exit W
    unfolding handshake_main
    tlshub_main fuel arguments stack w = handshake_main (tlshub_handshake os fuel) arguments stack w

    -- `main` of hypertls_handshake.c
    unfoldable pub hypertls_main : ℕ → List Bytes → (ℕ → Stack) → W → Exit W
    unfolding handshake_main
    hypertls_main fuel arguments stack w =
        handshake_main (hypertls_handshake os fuel) arguments stack w
