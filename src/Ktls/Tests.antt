-- ===== src/Ktls/Tests.antt =====
-- KTLS on a socket that records its options, and the theorems about it at concrete inputs.
use tlshub_ebpf.Base.{pos, ◌≡◌, refl, List, [], ◌∷◌, replicate, arith}
use tlshub_ebpf.Capture.{TlsKeyInfo}
use tlshub_ebpf.KeyProvider.{fill_key}
use tlshub_ebpf.Ktls.{TlsHeader, CryptoInfo, SockOption, Sockets, configure_ktls}
use tlshub_ebpf.Ktls.Layout.{Carries, three_options, configure_lem, configure-fill_key}

abbrev header : TlsHeader
header = record { tls_1_2_version = 771; cipher_aes_gcm_128 = 51 }

abbrev recording : Sockets (List SockOption)
recording = record { setsockopt = λ fd o os. (pos 0, o ∷ os) }

abbrev key_info : TlsKeyInfo
key_info = record { key = replicate 32 1; iv = replicate 16 2; key_len = 32; iv_len = 12 }

configure_lem_example :
    (c : CryptoInfo) × Carries header (replicate 16 1) (replicate 12 2) c
    × (configure_ktls header recording (pos 4) key_info [] ≡ three_options recording (pos 4) c c [])
configure_lem_example =
    configure_lem header recording (pos 4) key_info [] (omega arith) (omega arith)

configure-fill_key_test :
    (c : CryptoInfo) × Carries header (replicate 16 3) (replicate 12 3) c
    × (configure_ktls header recording (pos 4) (fill_key key_info (replicate 64 3)) []
        ≡ three_options recording (pos 4) c c [])
configure-fill_key_test =
    configure-fill_key header recording (pos 4) key_info (replicate 64 3) [] (omega arith) refl
