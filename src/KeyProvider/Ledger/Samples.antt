-- ===== src/KeyProvider/Ledger/Samples.antt =====
-- A system that keeps only what the key provider opens and makes; each message has type 7.
use tlshub_ebpf.Base.{
  ◌+◌, ◌-◌, ◌≡◌, refl, ap, ℤ, pos, true, some, List, [], ◌∷◌, ◌++◌, replicate, arith,
}
use tlshub_ebpf.Tlshub.Netlink.{Netlink, received}
use tlshub_ebpf.KeyProvider.{Ssl}
use tlshub_ebpf.KeyProvider.Ledger.{Held, with_fd, with_context, IsLedger}

abbrev close_latest : Held → Held
close_latest h = record h { sockets = others h.sockets }
  where
    others : List ℤ → List ℤ
    others [] = []
    others (x ∷ xs) = xs

abbrev drop_context : Held → Held
drop_context h = record h { contexts = h.contexts - 1 }

abbrev pub recorded : Netlink Held
recorded = record {
  gettid = λ w. 77;
  socket = λ w. (pos 3, with_fd (pos 3) w);
  bind = λ fd pid w. (pos 0, w);
  close = λ fd w. close_latest w;
  malloc = λ n w. (true, w);
  free = λ w. w;
  sendto = λ fd bytes pid w. (pos 1, w);
  recvfrom = λ fd room w. (received 0 (replicate 16 0 ++ 7 ∷ []), w);
}

abbrev pub library : Ssl Held
library = record {
  init_ssl = λ w. w;
  ctx_new = λ w. (true, with_context true w);
  ctx_free = λ w. drop_context w;
  ssl_new = λ w. (true, w);
  ssl_free = λ w. w;
  export = λ n label size w. (some (replicate n 7), w);
}

-- What the process held before.
abbrev pub before : Held
before = record { sockets = pos 0 ∷ []; contexts = 1 }

abbrev pub itself : Held → Held
itself w = w

drop_context-made : (h w : Held) → w ≡ with_context true h → drop_context w ≡ h
drop_context-made h w e =
    let same : h.contexts + 1 - 1 ≡ h.contexts = omega arith in
    rw e (λ i. record h { contexts = same i })

pub recorded-IsLedger : IsLedger recorded library itself
recorded-IsLedger = record {
  socket_opens = λ w. refl;
  close_undoes = λ fd h w e. ap close_latest e;
  ctx_new_makes = λ w. refl;
  ctx_free_undoes = λ h w e. drop_context-made h w e;
  bind_keeps = λ fd pid w. refl;
  malloc_keeps = λ n w. refl;
  free_keeps = λ w. refl;
  sendto_keeps = λ fd bs pid w. refl;
  recvfrom_keeps = λ fd room w. refl;
  init_ssl_keeps = λ w. refl;
  ssl_new_keeps = λ w. refl;
  ssl_free_keeps = λ w. refl;
  export_keeps = λ n label size w. refl;
}
