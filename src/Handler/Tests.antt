-- ===== src/Handler/Tests.antt =====
-- The handler on the scripted system with the OpenSSL library, at concrete events.
use tlshub_ebpf.Base.{ℕ, ◌≡◌, refl, some, replicate, pos, arith}
use tlshub_ebpf.Tlshub.Scripted.{Script, scripted}
use tlshub_ebpf.KeyProvider.{Provided, fill_key, key_provider_get_key, openssl_get_key}
use tlshub_ebpf.Metrics.Types.{PerfMetrics}
use tlshub_ebpf.Metrics.Samples.{natural}
use tlshub_ebpf.Handler.Samples.{counting, library, event, stale, ready, quiet, context}
use tlshub_ebpf.Handler.{Handled, handle_tcp_event, tuple_of}
use tlshub_ebpf.Handler.Steps.{HasRoom}
use tlshub_ebpf.Handler.Accounts.{Counted, handle-Counted, handle_full}

abbrev provided : Provided Script
provided = record {
  result = pos 0;
  key_info = some (fill_key stale (replicate 64 7));
  provider = ready;
  world = quiet;
}

asked :
    key_provider_get_key scripted library 5 (some (tuple_of event)) (some stale) ready quiet
    ≡ some provided
unfolding key_provider_get_key openssl_get_key
asked = refl

room : HasRoom counting natural (context 2)
room = record { enabled = refl; room = omega arith; small = omega arith }

handle-Counted_example :
    (after : PerfMetrics ℕ) × (h : Handled Script ℕ) × (handle_tcp_event counting natural scripted
        library 5 event stale
        (some (context 2))
        ready
        quiet
      ≡ some h)
    × (h.perf_ctx ≡ some after)
    × (h.provider ≡ ready)
    × Counted (pos 0) (context 2) after
handle-Counted_example =
    handle-Counted counting natural scripted library 5 event stale (context 2) ready quiet provided
      room (omega arith) asked

handle_full_test :
    handle_tcp_event counting natural scripted library 5 event stale (some (context 0)) ready quiet
    ≡ some (record { perf_ctx = some (context 0); provider = ready; world = quiet })
handle_full_test =
    handle_full counting natural scripted library 5 event stale (context 0) ready quiet provided
      (omega arith) asked
