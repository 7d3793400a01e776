-- ===== src/MainLoop.antt =====
-- The main loop of capture/src/main.c: polling for events, handling them, and the update of the system's
-- figures every five seconds. Printed messages are left out.
pub mod Kept
pub mod Start
pub mod Ledger
pub mod Owned
pub mod Shutdown
pub mod Interrupted
pub mod Batch
mod Tests
use tlshub_ebpf.Base.{
  ℕ, zero, suc, ◌-◌, ◌<◌, ◌^◌, ◌≡◌, refl, Bool, true, false, not, ◌&&◌, Option, none, some, List,
  [], ◌∷◌, ◌==◌, leb, if◌then◌else◌, ◌⊎◌, inl, inr, Bool-cases, Option-cases, ℤ, pos, negsuc,
  minus_one, is_negative, arith,
}
use tlshub_ebpf.Capture.{TlsKeyInfo}
use tlshub_ebpf.Tlshub.Netlink.{Netlink}
use tlshub_ebpf.KeyProvider.{Ssl, Provider, Provided, key_provider_get_key}
use tlshub_ebpf.Bpf.{TcpConnectEvent}
use tlshub_ebpf.Metrics.Types.{Doubles, Clock, PerfMetrics}
use tlshub_ebpf.Metrics.System.{ProcFiles, perf_metrics_update_system}
use tlshub_ebpf.Handler.{Handled, handle_tcp_event}

-- What the loop asks of the system: `perf_buffer__poll`, with the events that it hands to the handler;
-- `time(NULL)`; and whether one of the signals that `sig_handler` handles has come.
pub record Events (W : Type 0) : Type 0 where
  pub poll : W → ℤ × List TcpConnectEvent × W
  pub time : W → ℕ × W
  pub signalled : W → Bool

-- `sig_handler(sig)`, on the flag `keep_running`.
unfoldable pub sig_handler : Bool → Bool
sig_handler flag = false

-- The flag, which is 1 until a signal comes.
unfoldable pub keep_running : {W : Type 0} → Events W → W → Bool
unfolding sig_handler
keep_running events w = if events.signalled w then sig_handler true else true

abbrev pub perf_update_interval_sec : ℕ
perf_update_interval_sec = 5

-- `err < 0 && err != -EINTR`
abbrev pub stops : ℤ → Bool
stops (pos n) = false
stops (negsuc n) = not (n == 3)

-- The variables of `main` that the loop changes, and the system.
pub record Running (W F : Type 0) : Type 0 where
  pub perf_ctx : Option (PerfMetrics F)
  pub provider : Provider
  pub last_perf_update : ℕ
  pub err : ℤ
  pub world : W

module _ {W F : Type 0} (sys : Clock W) (proc : ProcFiles W) (fp : Doubles F) (os : Netlink W)
    (ssl : Ssl W) (events : Events W) where
  -- The events of one poll, in order; the fuel is that of each handshake.
  unfoldable pub handle_events :
      ℕ
      → TlsKeyInfo
      → List TcpConnectEvent
      → Option (PerfMetrics F)
      → Provider
      → W
      → Option (Handled W F)
  handle_events fuel k [] perf p w = some (record { perf_ctx = perf; provider = p; world = w })
  handle_events fuel k (e ∷ es) perf p w = elim (handle_tcp_event sys fp os ssl fuel e k perf p w) [
    | none ↦ none
    | some h ↦ handle_events fuel k es h.perf_ctx h.provider h.world
  ]

  -- The update of the system's figures, if there are metrics and the interval has passed.
  unfoldable pub periodic : ℕ → ℤ → Handled W F → Running W F
  periodic last err h =
      let (now, w1) = events.time h.world in
      let (r, perf, w2) = perf_metrics_update_system sys proc fp h.perf_ctx w1 in
      elim h.perf_ctx [
        | none ↦ record {
          perf_ctx = none;
          provider = h.provider;
          last_perf_update = last;
          err = err;
          world = h.world;
        }
        | some ctx ↦
            if leb perf_update_interval_sec (now - last)
            then record {
              perf_ctx = perf;
              provider = h.provider;
              last_perf_update = now;
              err = err;
              world = w2;
            }
            else record {
              perf_ctx = some ctx;
              provider = h.provider;
              last_perf_update = last;
              err = err;
              world = w1;
            }
      ]

  -- The state in which a poll that failed leaves the loop.
  unfoldable pub leave : ℕ → ℤ → Handled W F → Running W F
  leave last err h = record {
    perf_ctx = h.perf_ctx;
    provider = h.provider;
    last_perf_update = last;
    err = err;
    world = h.world;
  }

  -- `while (keep_running) { … }`, at most so many turns; `none` says that a handshake still waits.
  unfoldable pub main_loop : ℕ → ℕ → TlsKeyInfo → Running W F → Option (Running W F)
  unfolding periodic leave
  main_loop zero fuel k s = some s
  main_loop (suc turns) fuel k s =
      let (err, es, w1) = events.poll s.world in
      if keep_running events s.world
      then (elim (handle_events fuel k es s.perf_ctx s.provider w1) [
        | none ↦ none
        | some h ↦ elim (stops err) [
          | true ↦ some (leave s.last_perf_update err h)
          | false ↦ main_loop turns fuel k (periodic s.last_perf_update err h)
        ]
      ])
      else some s
