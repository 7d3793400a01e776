-- ===== src/Tlshub/Scripted.antt =====
-- A system that answers `recvfrom` from a script and records what is sent, for tests.
use tlshub_ebpf.Base.{pos, true, List, [], ◌∷◌, Bytes, length}
use tlshub_ebpf.Tlshub.Netlink.{Netlink, Recv, failed}

pub record Script : Type 0 where
  pub inbox : List Recv
  pub outbox : List Bytes

-- With an empty script `recvfrom` fails.
abbrev pub next_message : List Recv → Recv
next_message [] = failed
next_message (r ∷ rs) = r

abbrev pub other_messages : List Recv → List Recv
other_messages [] = []
other_messages (r ∷ rs) = rs

abbrev pub scripted : Netlink Script
scripted = record {
  gettid = λ s. 77;
  socket = λ s. (pos 3, s);
  bind = λ fd pid s. (pos 0, s);
  close = λ fd s. s;
  malloc = λ n s. (true, s);
  free = λ s. s;
  sendto = λ fd bytes pid s. (pos (length bytes), record s { outbox = bytes ∷ s.outbox });
  recvfrom = λ fd room s. (next_message s.inbox, record s { inbox = other_messages s.inbox });
}
