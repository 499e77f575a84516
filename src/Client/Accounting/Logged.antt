-- ===== src/Client/Accounting/Logged.antt =====
-- What a session logs at its end, read back.
use Prim.Native.String.{String, ◌++◌}
use vdi_cpp_wrapper.Prelude.{
  ℕ, ◌<◌, ◌≤◌, ◌%◌, ◌≡◌, ap, ◌∙◌, List, ◌∷◌, Option, none, some, Bool, arith, length, u64_mod,
  strip, strip-append, le→leb,
}
use vdi_cpp_wrapper.World.{Platform}
use vdi_cpp_wrapper.Sink.Bytes.{file_bytes, WritesAll}
use vdi_cpp_wrapper.Errors.State.{closed, streaming}
use vdi_cpp_wrapper.Logging.{Line, log_info}
use vdi_cpp_wrapper.Metrics.Report.{Outside, to_json}
use vdi_cpp_wrapper.Metrics.Summary.{Decimals}
use vdi_cpp_wrapper.Metrics.Reader.{HasNoComma, read_counts, read_counts-to_json}
use vdi_cpp_wrapper.Client.{VdiClient}
use vdi_cpp_wrapper.Client.Loop.{process_commands}
use vdi_cpp_wrapper.Client.Report.{report}
use vdi_cpp_wrapper.Client.Backup.{received_bytes, Accepts, SendsWellFormed}
use vdi_cpp_wrapper.Client.Accounting.Sizes.{totals}
use vdi_cpp_wrapper.Client.Accounting.Histories.{ShowsHistory, process_commands-ShowsHistory}
use vdi_cpp_wrapper.Client.Accounting.Measured.{Measured, process_commands-measures}

-- The bytes and the chunks of the line between the two marks.
and_then : Option String → Option (ℕ × ℕ)
and_then none = none
and_then (some s) = read_counts s

unfoldable pub read_log : List Line → Option (ℕ × ℕ)
unfolding and_then
read_log (summary ∷ begin ∷ json ∷ _) = and_then (strip "[INFO]  " json.line)
read_log _ = none

read_log-report :
    (logging_level : ℕ) (o : Outside) (d : Decimals) (times_known : Bool) (c : VdiClient)
    → 1 ≤ logging_level
    → read_log (report logging_level o d times_known c) ≡ read_counts (to_json o c.metrics ++ "\n")
unfolding read_log report log_info
read_log-report l o d times_known c h =
    rw (le→leb 1 l h) (ap and_then (strip-append "[INFO]  " (to_json o c.metrics ++ "\n")))

-- At LOGGING_LEVEL 1 or more, and on a disk where every WriteFile writes all that it is given,
-- with a server whose commands have a DWORD size and a buffer of that size: where
-- process_commands, called while streaming with an open file sink that has accepted all the data
-- sent so far and with counters that show these data, leaves the session closed with a file
-- shorter than 2^64 bytes, the JSON report that it logs, read back, says the length of the file
-- and the number of the VDC_Write commands received, modulo 2^64. The text of a throughput has no
-- comma.
pub process_commands-logs :
    (P : Platform) (fuel logging_level : ℕ) (o : Outside) (d : Decimals) (times_known : Bool)
    (c : VdiClient)
    → WritesAll P
    → SendsWellFormed P
    → ((bytes ms : ℕ) → HasNoComma (o.throughput_text bytes ms))
    → 1 ≤ logging_level
    → c.state ≡ streaming
    → Accepts c (received_bytes c.calls)
    → ShowsHistory c
    → Measured c.calls
    → (process_commands P fuel c).1.state ≡ closed
    → length (file_bytes (process_commands P fuel c).1.calls) < u64_mod
    → let c1 = (process_commands P fuel c).1 in
      read_log (report logging_level o d times_known c1)
      ≡ some (length (file_bytes c1.calls), (totals c1.calls).chunks % u64_mod)
process_commands-logs P fuel l o d times_known c w f comma level st a h m e small =
    let c1 = (process_commands P fuel c).1 in
    let n = length (file_bytes c1.calls) in
    let measured : c1.metrics.total_bytes ≡ n % u64_mod =
      process_commands-measures P fuel c w f st a h m e in
    let bytes : c1.metrics.total_bytes ≡ n = omega (arith, measured, small) in
    let chunks : c1.metrics.chunk_count ≡ (totals c1.calls).chunks % u64_mod =
      (process_commands-ShowsHistory P fuel c h).1 in
    read_log-report l o d times_known c1 level
    ∙ read_counts-to_json o c1.metrics "\n" (omega (arith, bytes, small)) (omega (arith, chunks))
        (comma c1.metrics.total_bytes o.elapsed_ms)
    ∙ ap (λ (i : ℕ). some (i, c1.metrics.chunk_count)) bytes
    ∙ ap (λ (i : ℕ). some (n, i)) chunks
