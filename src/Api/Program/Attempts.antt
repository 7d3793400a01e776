-- ===== src/Api/Program/Attempts.antt =====
-- The messages that tlshub-api/tlshub_handshake.c hands to `sendto`.
use tlshub_ebpf.Base.{
  ℕ, zero, suc, ◌+◌, ◌%◌, ◌^◌, ◌≤◌, ◌≡◌, refl, subst, ◌∙◌, inl, inr, ℤ, is_zero, true, Option, none,
  some, List, ◌∷◌, Bytes, Bool-cases, arith,
}
use tlshub_ebpf.Tlshub.Netlink.{Netlink}
use tlshub_ebpf.Api.Wire.{Stack, Pods, start_request}
use tlshub_ebpf.Api.Context.{Context, fresh_context, End, returned, exited, crashed}
use tlshub_ebpf.Api.Requests.{tlshub_handshake}
use tlshub_ebpf.Api.Program.{
  Host, Exit, ended, timed_out, faulted, get_random_port, pause, judge_attempt, pods_of, attempts,
  tlshub_main,
}
use tlshub_ebpf.Api.Program.Sending.{IsSendTrace, Sends, tlshub_handshake-Sends}

-- The calls of the C library hand nothing to `sendto`.
pub record IsSilent {W : Type 0} (host : Host W) (log : W → List Bytes) : Type 0 where
  pub srand_keeps : (seed : ℕ) (w : W) → log (host.srand seed w) ≡ log w
  pub rand_keeps : (w : W) → log (host.rand w).1 ≡ log w
  pub sleep_keeps : (s : ℕ) (w : W) → log (host.sleep s w) ≡ log w
  pub alarm_keeps : (s : ℕ) (w : W) → log (host.alarm s w) ≡ log w

module _ {W : Type 0} (os : Netlink W) (log : W → List Bytes) (trace : IsSendTrace os log)
    (host : Host W) (silent : IsSilent host log) where
  -- The arguments of a handshake: the two addresses, and ports in the range.
  abbrev IsAttempt : Bytes → Bytes → Pods → Type 0
  IsAttempt client_ip server_ip p =
      (p.client_pod_ip ≡ host.inet_addr client_ip)
      × (p.server_pod_ip ≡ host.inet_addr server_ip)
      × (10000 ≤ p.client_pod_port)
      × (p.client_pod_port ≤ 65000)
      × (10000 ≤ p.server_pod_port)
      × (p.server_pod_port ≤ 65000)

  -- `n` requests of such handshakes were added.
  pub data Requests (client_ip server_ip : Bytes) (before : List Bytes)
      : ℕ → List Bytes → Type 0 where
    nothing : Requests client_ip server_ip before zero before
    request :
        {n : ℕ} {l : List Bytes} (pid : ℕ) (pods : Pods) (stack : Stack)
        → IsAttempt client_ip server_ip pods
        → Requests client_ip server_ip before n l
        → Requests client_ip server_ip before (suc n) (start_request pid pods stack ∷ l)

  pods_of-IsAttempt :
      (client_ip server_ip : Bytes) (w w' : W)
      → IsAttempt client_ip server_ip
          (pods_of host client_ip server_ip (get_random_port host w).0 (get_random_port host w').0)
  unfolding pods_of get_random_port
  pods_of-IsAttempt client_ip server_ip w w' =
      (refl, refl, omega arith, omega arith, omega arith, omega arith)

  -- When the program ends with a status: at most `most` requests were handed over, and all of them if it is 0.
  abbrev pub Tried : Bytes → Bytes → List Bytes → ℕ → Exit W → Type 0
  Tried client_ip server_ip before most (ended v ctx w) =
      (k : ℕ) × Requests client_ip server_ip before k (log w)
      × (k ≤ most)
      × (is_zero v ≡ true → k ≡ most)
  Tried client_ip server_ip before most timed_out = Unit
  Tried client_ip server_ip before most faulted = Unit

  module _ (client_ip server_ip : Bytes) (before : List Bytes) where
    -- One more handshake, then `others`.
    judge_attempt-Tried :
        (n m : ℕ) (pods : Pods) (stack : Stack) (l : List Bytes) (others : Context → W → Exit W)
        (o : Option (End ℤ × Context × W))
        → Requests client_ip server_ip before m l
        → IsAttempt client_ip server_ip pods
        → Sends os log trace pods stack l o
        → ((ctx : Context) (w : W)
            → Requests client_ip server_ip before (suc m) (log w)
            → Tried client_ip server_ip before (suc m + n) (others ctx w))
        → Tried client_ip server_ip before (suc m + n) (judge_attempt host others o)
    unfolding judge_attempt pause
    judge_attempt-Tried n m pods stack l others none past asks sends every = tt
    judge_attempt-Tried n m pods stack l others (some (crashed, ctx, w)) past asks sends every = tt
    judge_attempt-Tried n m pods stack l others (some (exited, ctx, w)) past asks (inl (f, e))
          every =
        (m, rw e past, omega arith, λ z. cc)
    judge_attempt-Tried n m pods stack l others (some (exited, ctx, w)) past asks (inr (pid, e))
          every =
        (suc m, rw e (request pid pods stack asks past), omega arith, λ z. cc)
    judge_attempt-Tried n m pods stack l others (some (returned rc, ctx, w)) past asks (inl (f, e))
          every =
        rw (judge_attempt, f) (m, rw e past, omega arith, λ z. cc)
    judge_attempt-Tried n m pods stack l others (some (returned rc, ctx, w)) past asks
          (inr (pid, e)) every =
        let sent = request pid pods stack asks past in
        elim (Bool-cases (is_zero rc)) [
          | inr z ↦ rw (judge_attempt, z) (suc m, rw e sent, omega arith, λ h. cc)
          | inl z ↦ elim (Bool-cases (host.rung (host.sleep 1 w))) [
            | inl r ↦ rw (judge_attempt, z, r) tt
            | inr r ↦
                rw (judge_attempt, z, r)
                  (every ctx (host.sleep 1 w) (rw (silent.sleep_keeps 1 w, e) sent))
          ]
        ]

    ports_keep : (w : W) → log (get_random_port host (get_random_port host w).1).1 ≡ log w
    unfolding get_random_port
    ports_keep w = silent.rand_keeps (host.rand w).1 ∙ silent.rand_keeps w

    attempts-Tried :
        (n m fuel : ℕ) (stack : ℕ → Stack) (ctx : Context) (w : W)
        → Requests client_ip server_ip before m (log w)
        → Tried client_ip server_ip before
            (m + n)
            (attempts host n (tlshub_handshake os fuel) client_ip server_ip stack ctx w)
    unfolding attempts
    attempts-Tried zero m fuel stack ctx w past =
        (m, rw (silent.alarm_keeps 0 w) past, omega arith, λ z. omega arith)
    attempts-Tried (suc n) m fuel stack ctx w past =
        let (client_port, w1) = get_random_port host w in
        let (server_port, w2) = get_random_port host w1 in
        let pods = pods_of host client_ip server_ip client_port server_port in
        let one =
          judge_attempt-Tried n m pods (stack n) (log w)
            (attempts host n (tlshub_handshake os fuel) client_ip server_ip stack)
            (tlshub_handshake os fuel pods (stack n) ctx w2) past
            (pods_of-IsAttempt client_ip server_ip w w1)
            (tlshub_handshake-Sends os log trace fuel pods (stack n) (log w) ctx w2 (ports_keep w))
            (λ c w' p. attempts-Tried n (suc m) fuel stack c w' p) in
        let shifted : suc m + n ≡ m + suc n = omega arith in
        subst
          (λ most.
            Tried client_ip server_ip before most
              (attempts host (suc n) (tlshub_handshake os fuel) client_ip server_ip stack ctx w))
          shifted one

    -- When the program ends with a status, given both addresses, then it called `sendto` at most three times, and
    -- exactly three times if the status is 0, whatever the calls returned: each message asks for a handshake between
    -- the two addresses, on ports from 10000 to 65000.
    pub tlshub_main-Tried :
        (fuel : ℕ) (others : List Bytes) (stack : ℕ → Stack) (w : W)
        → log w ≡ before
        → Tried client_ip server_ip before 3
            (tlshub_main host os fuel (client_ip ∷ (server_ip ∷ others)) stack w)
    unfolding tlshub_main
    tlshub_main-Tried fuel others stack w e =
        let w1 = host.alarm 30 w in
        let seed = (host.time w1 + host.getpid w1) % 2 ^ 32 in
        let w2 = host.srand seed w1 in
        let kept = silent.srand_keeps seed w1 ∙ silent.alarm_keeps 30 w ∙ e in
        attempts-Tried 3 0 fuel stack fresh_context w2 (rw kept nothing)
