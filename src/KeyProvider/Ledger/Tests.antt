-- ===== src/KeyProvider/Ledger/Tests.antt =====
-- The key provider on a system that records what is open.
use tlshub_ebpf.Base.{ℤ, pos, ◌≡◌, refl, true, some, ◌∷◌}
use tlshub_ebpf.Capture.{tlshub, openssl}
use tlshub_ebpf.Tlshub.Client.{
  recv_verdict, init_verdict, note_sender, end_init, tlshub_client_init, init_exchange, await,
}
use tlshub_ebpf.KeyProvider.{
  Provider, provider_start, key_provider_init, key_provider_set_mode, key_provider_cleanup,
}
use tlshub_ebpf.KeyProvider.Resources.{IsReleased, InitEnds}
use tlshub_ebpf.KeyProvider.Ledger.{Held, holding, with_context}
use tlshub_ebpf.KeyProvider.Ledger.Init.{init-holding, set_mode_leaks}
use tlshub_ebpf.KeyProvider.Ledger.Samples.{recorded, library, before, itself, recorded-IsLedger}

start-IsReleased : IsReleased provider_start
start-IsReleased = record { no_context = refl; no_socket = refl }

-- The initialisation in the TLSHub mode, with a socket.
abbrev connected : ℤ × Provider × Held
connected = (
  pos 0,
  record provider_start {
    client = record {
      netlink_sock = pos 3;
      dest_pid = 0;
      handshake_nlh = provider_start.client.handshake_nlh;
    };
  },
  record before { sockets = pos 3 ∷ before.sockets },
)

connects : key_provider_init recorded library 1 tlshub provider_start before ≡ some connected
unfolding key_provider_init recv_verdict init_verdict note_sender end_init tlshub_client_init
    init_exchange await
connects = refl

init-holding_example : InitEnds tlshub connected × (connected.2 ≡ holding connected.1 before)
init-holding_example =
    init-holding recorded library itself recorded-IsLedger 1 tlshub provider_start before connected
      start-IsReleased connects

-- The initialisation in the OpenSSL mode, with a context.
abbrev with_library : ℤ × Provider × Held
with_library = (
  pos 0,
  record provider_start { current_mode = openssl; ssl_ctx = true },
  with_context true before,
)

makes : key_provider_init recorded library 0 openssl provider_start before ≡ some with_library
unfolding key_provider_init
makes = refl

set_mode_leaks_example :
    let after =
      key_provider_cleanup recorded library
        (key_provider_set_mode tlshub with_library.1)
        with_library.2 in
    (after.1 ≡ with_context true before) × (after.0.ssl_ctx ≡ true)
set_mode_leaks_example =
    set_mode_leaks recorded library itself recorded-IsLedger 0 provider_start before with_library
      start-IsReleased makes refl
