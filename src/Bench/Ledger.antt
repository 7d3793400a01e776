-- ===== src/Bench/Ledger.antt =====
-- What the system calls of the benchmark tool (bench/src/) open and allocate.
pub mod Server
pub mod Client
pub mod Run
pub mod Program
pub mod Total
mod Tests
use tlshub_ebpf.Base.{
  ℕ, ◌+◌, ℤ, is_negative, ◌≡◌, Bool, Bytes, List, ◌∷◌, Option, none, some, ◌⊎◌, inl, inr, refl,
}
use tlshub_ebpf.Base.Holdings.{Holdings, opened, allocated}
use tlshub_ebpf.Metrics.Types.{Clock}
use tlshub_ebpf.Bench.Metrics.{Resources}
use tlshub_ebpf.Bench.Sockets.{
  Accepted, accepted, interrupted, broken, SocketOption, Direction, TcpSockets,
}

-- What `accept` opens.
abbrev pub opened_by : Accepted → Holdings → Holdings
opened_by (accepted fd) h = record h { descriptors = fd ∷ h.descriptors }
opened_by interrupted h = h
opened_by broken h = h

pub Accepted-cases :
    (r : Accepted) → ((fd : ℤ) × (r ≡ accepted fd)) ⊎ ((r ≡ interrupted) ⊎ (r ≡ broken))
Accepted-cases (accepted fd) = inl (fd, refl)
Accepted-cases interrupted = inr (inl refl)
Accepted-cases broken = inr (inr refl)

-- `socket` opens a descriptor unless its result is negative, `accept` opens the one that it gives, and `malloc`
-- allocates a block unless it returns null; `close` and `free` undo them, and the other calls change nothing of
-- the kind.
pub record IsLedger {W : Type 0} (sys : Clock W) (net : TcpSockets W) (view : W → Holdings)
    : Type 0 where
  pub socket_opens :
      (w : W)
      → view (net.socket w).1 ≡ opened (is_negative (net.socket w).0) (net.socket w).0 (view w)
  pub accept_opens :
      (fd : ℤ) (w : W) → view (net.accept fd w).1 ≡ opened_by (net.accept fd w).0 (view w)
  pub close_undoes :
      (fd : ℤ) (h : Holdings) (w : W)
      → view w ≡ record h { descriptors = fd ∷ h.descriptors }
      → view (net.close fd w) ≡ h
  pub malloc_allocates :
      (n : ℕ) (w : W) → view (net.malloc n w).1 ≡ allocated (net.malloc n w).0 (view w)
  pub free_undoes :
      (h : Holdings) (w : W) → view w ≡ record h { blocks = h.blocks + 1 } → view (net.free w) ≡ h
  pub setsockopt_keeps :
      (fd : ℤ) (o : SocketOption) (w : W) → view (net.setsockopt fd o w).1 ≡ view w
  pub connect_keeps : (fd : ℤ) (a p : ℕ) (w : W) → view (net.connect fd a p w).1 ≡ view w
  pub send_keeps : (fd : ℤ) (bs : Bytes) (w : W) → view (net.send fd bs w).1 ≡ view w
  pub recv_keeps : (fd : ℤ) (room : ℕ) (w : W) → view (net.recv fd room w).1 ≡ view w
  pub poll_keeps : (fd : ℤ) (ms : ℕ) (w : W) → view (net.poll fd ms w).1 ≡ view w
  pub shutdown_keeps : (fd : ℤ) (d : Direction) (w : W) → view (net.shutdown fd d w) ≡ view w
  pub usleep_keeps : (us : ℕ) (w : W) → view (net.usleep us w) ≡ view w
  pub bind_keeps : (fd : ℤ) (port : ℕ) (w : W) → view (net.bind fd port w).1 ≡ view w
  pub listen_keeps : (fd : ℤ) (n : ℕ) (w : W) → view (net.listen fd n w).1 ≡ view w
  pub gettime_keeps : (w : W) → view (sys.gettime w).1 ≡ view w

-- `w` holds `h` and the descriptor `fd`.
abbrev pub with_fd : ℤ → Holdings → Holdings
with_fd fd h = record h { descriptors = fd ∷ h.descriptors }

-- Every state that a loop ends in has the holdings `h`.
abbrev pub Leaves : {W A : Type 0} → (A → W) → (W → Holdings) → Holdings → Option A → Type 0
Leaves world view h none = Unit
Leaves world view h (some o) = view (world o) ≡ h
