-- ===== src/Api/Program/Tests.antt =====
-- The program of tlshub-api/tlshub_handshake.c on the scripted system.
use tlshub_ebpf.Base.{ℕ, refl, ◌++◌, ◌∷◌, [], List, Bytes, false, codes, replicate}
use tlshub_ebpf.Tlshub.Netlink.{Recv, received}
use tlshub_ebpf.Tlshub.Scripted.{Script, scripted}
use tlshub_ebpf.Api.Wire.{Stack}
use tlshub_ebpf.Api.Program.{Host, tlshub_main}
use tlshub_ebpf.Api.Program.Sending.{IsSendTrace}
use tlshub_ebpf.Api.Program.Attempts.{IsSilent, Tried, tlshub_main-Tried}

abbrev outbox_of : Script → List Bytes
outbox_of s = s.outbox

scripted-IsSendTrace : IsSendTrace scripted outbox_of
scripted-IsSendTrace = record {
  sendto_records = λ fd bs pid w. refl;
  socket_keeps = λ w. refl;
  bind_keeps = λ fd pid w. refl;
  close_keeps = λ fd w. refl;
  malloc_keeps = λ n w. refl;
  free_keeps = λ w. refl;
  recvfrom_keeps = λ fd room w. refl;
}

abbrev clocked : Host Script
clocked = record {
  inet_addr = λ text. 16777226;
  time = λ w. 1000;
  getpid = λ w. 77;
  srand = λ seed w. w;
  rand = λ w. (123456789, w);
  sleep = λ s w. w;
  alarm = λ s w. w;
  rung = λ w. false;
}

clocked-IsSilent : IsSilent clocked outbox_of
clocked-IsSilent = record {
  srand_keeps = λ seed w. refl;
  rand_keeps = λ w. refl;
  sleep_keeps = λ s w. refl;
  alarm_keeps = λ s w. refl;
}

abbrev answer : ℕ → Recv
answer type = received 0 (replicate 16 0 ++ (type ∷ []))

-- Two handshakes succeed, and the third is refused.
abbrev refusing : Script
refusing = record { inbox = answer 1 ∷ (answer 2 ∷ (answer 3 ∷ [])); outbox = [] }

abbrev zeros : ℕ → Stack
zeros n = record { addresses = replicate 12 0; server = 0; padding = 0 ∷ (0 ∷ []) }

tlshub_main-Tried_example :
    Tried scripted outbox_of scripted-IsSendTrace clocked clocked-IsSilent
      (codes "10.0.0.1")
      (codes "10.0.0.2")
      []
      3
      (tlshub_main clocked scripted 4 (codes "10.0.0.1" ∷ (codes "10.0.0.2" ∷ [])) zeros refusing)
tlshub_main-Tried_example =
    tlshub_main-Tried scripted outbox_of scripted-IsSendTrace clocked clocked-IsSilent
      (codes "10.0.0.1") (codes "10.0.0.2") [] 4 [] zeros refusing refl
