-- ===== src/Client/Accounting/Reports.antt =====
-- The two reports of a session, the printed summary and the JSON text, on the same numbers.
use vdi_cpp_wrapper.Prelude.{◌/◌, ◌<◌, ◌≡◌, arith, [], List, Bool, Option, u64_mod}
use vdi_cpp_wrapper.World.{Platform}
use vdi_cpp_wrapper.Sink.{Sink}
use vdi_cpp_wrapper.Faults.{FaultInjector}
use vdi_cpp_wrapper.Metrics.Report.{reported_min, reported_avg}
use vdi_cpp_wrapper.Metrics.Summary.{summary_min, summary_avg, totals_avg}
use vdi_cpp_wrapper.Client.{new}
use vdi_cpp_wrapper.Client.Session.{Method, run}
use vdi_cpp_wrapper.Client.Accounting.Sizes.{totals}
use vdi_cpp_wrapper.Client.Accounting.Histories.{run-Shows}

-- After any history of method calls on a new session that has counted a chunk: the average from
-- the running sum and the one from the totals, which print_summary prints as two numbers, are the
-- same number; the JSON report has the same average and the same minimum; and as long as the sum
-- of the sizes and the number of all the VDC_Write commands received stay below 2^64, the average
-- is their quotient.
pub run-averages :
    (P : Platform) (sink : Option Sink) (logging : Bool) (f : FaultInjector) (ms : List Method)
    → 0 < (run P (new sink logging f []) ms).metrics.chunk_count
    → (totals (run P (new sink logging f []) ms).calls).bytes < u64_mod
    → (totals (run P (new sink logging f []) ms).calls).chunks < u64_mod
    → let c = run P (new sink logging f []) ms in
      let m = c.metrics in
      (summary_avg m ≡ totals_avg m)
      × (summary_avg m ≡ reported_avg m)
      × (summary_min m ≡ reported_min m)
      × (totals_avg m ≡ (totals c.calls).bytes / (totals c.calls).chunks)
unfolding summary_avg totals_avg summary_min reported_min reported_avg
run-averages P sink logging f ms h k l =
    let (bytes, chunks, sums, lowest, highest) = run-Shows P sink logging f ms in
    ground (arith, bytes, chunks, sums)
