-- ===== src/Client/Accounting/Histories.antt =====
-- The books over a whole history of method calls.
use Prim.Native.String.{String}
use vdi_cpp_wrapper.Prelude.{ℕ, ℤ, ◌≡◌, refl, List, Bool, arith, Option, [], ◌∷◌}
use vdi_cpp_wrapper.World.{Trace, Platform, open_device, release_device}
use vdi_cpp_wrapper.Sink.{Sink}
use vdi_cpp_wrapper.Faults.{FaultInjector}
use vdi_cpp_wrapper.Metrics
use vdi_cpp_wrapper.Client.{VdiClient, new, fail, set_command_timeout}
use vdi_cpp_wrapper.Client.Lifecycle.{connect, open_devices, close}
use vdi_cpp_wrapper.Client.Loop.{start_session, process_commands}
use vdi_cpp_wrapper.Client.Calls.{flush_sink_rule}
use vdi_cpp_wrapper.Client.Accounting.{
  close-SameBooks, connect-SameBooks, open_devices-SameBooks, start_session-SameBooks,
}
use vdi_cpp_wrapper.Client.Accounting.Sizes.{totals, Shows, totals-IsQuiet, run_loop-Metered}
use vdi_cpp_wrapper.Client.Accounting.Buffers.{
  IsSettled, SameBooks-IsSettled, run_loop-IsSettled, new-IsSettled,
}
use vdi_cpp_wrapper.Client.Session.{Method, run}
use vdi_cpp_wrapper.Client.Session.Rules.{KeepsMethods, run_rule, process_commands_rule}

abbrev pub ShowsHistory : VdiClient → Type 0
ShowsHistory c = Shows c.metrics (totals c.calls)

-- Where neither the metrics nor the totals change.
unchanged :
    (c d : VdiClient)
    → d.metrics ≡ c.metrics
    → totals d.calls ≡ totals c.calls
    → ShowsHistory c
    → ShowsHistory d
unchanged c d e f h = rw (e, f) h

close-totals : (P : Platform) (c : VdiClient) → totals (close P c).calls ≡ totals c.calls
unfolding close totals
close-totals P c = ground (
  arith,
  flush_sink_rule P (λ t. totals t ≡ totals c.calls) (totals-IsQuiet P (totals c.calls)) c refl,
)

connect-totals :
    (P : Platform) (c : VdiClient) (name : String) (n : ℤ)
    → totals (connect P c name n).1.calls ≡ totals c.calls
unfolding connect totals
connect-totals P c name n = ground arith

open_devices-totals :
    (P : Platform) (c : VdiClient) → totals (open_devices P c).1.calls ≡ totals c.calls
unfolding open_devices totals
open_devices-totals P c = ground arith

start_session-totals :
    (P : Platform) (c : VdiClient) → totals (start_session P c).1.calls ≡ totals c.calls
unfolding start_session totals
start_session-totals P c = refl

ShowsHistory-KeepsMethods : (P : Platform) → KeepsMethods P ShowsHistory
unfolding totals set_command_timeout
ShowsHistory-KeepsMethods P = record {
  loop = record {
    on_open = λ c i hr h. h;
    on_fail = λ c h. h;
    on_start = λ c h.
        unchanged c (start_session P c).1 (start_session-SameBooks P c).0 (start_session-totals P c)
          h;
    on_loop = λ fuel start devices c h. run_loop-Metered P fuel start devices c h;
    on_release = λ c device h. h;
    on_close = λ c h. unchanged c (close P c) (close-SameBooks P c).0 (close-totals P c) h;
  };
  on_connect = λ c name n h.
      unchanged c (connect P c name n).1 (connect-SameBooks P c name n).0
        (connect-totals P c name n) h;
  on_open_devices = λ c h.
      unchanged c (open_devices P c).1 (open_devices-SameBooks P c).0 (open_devices-totals P c) h;
  on_set_timeout = λ c timeout_ms h. h;
}

new-ShowsHistory :
    (sink : Option Sink) (logging : Bool) (f : FaultInjector) → ShowsHistory (new sink logging f [])
unfolding new totals Metrics.new
new-ShowsHistory sink logging f = ground arith

pub process_commands-ShowsHistory :
    (P : Platform) (fuel : ℕ) (c : VdiClient)
    → ShowsHistory c
    → ShowsHistory (process_commands P fuel c).1
process_commands-ShowsHistory P fuel c h =
    process_commands_rule P ShowsHistory (ShowsHistory-KeepsMethods P).loop fuel c h

-- After any history of method calls on a new session, in any order and however they end: the byte
-- and chunk counters are the sum of the sizes and the number of all the VDC_Write commands that
-- the server has sent, modulo 2^64, the running sum is the byte counter, and the minimum and the
-- maximum are those of the sizes (UINT64_MAX and 0 for none). A chunk that is refused or cannot
-- be written is counted too.
pub run-Shows :
    (P : Platform) (sink : Option Sink) (logging : Bool) (f : FaultInjector) (ms : List Method)
    → let c = run P (new sink logging f []) ms in Shows c.metrics (totals c.calls)
run-Shows P sink logging f ms =
    run_rule P ShowsHistory (ShowsHistory-KeepsMethods P) (new sink logging f []) ms
      (new-ShowsHistory sink logging f)

IsSettled-KeepsMethods : (P : Platform) → KeepsMethods P IsSettled
unfolding set_command_timeout
IsSettled-KeepsMethods P = record {
  loop = record {
    on_open = λ c i hr h. called c (open_device i hr ∷ c.calls) h;
    on_fail = λ c h. SameBooks-IsSettled c (fail c) (refl, refl, refl, refl) h;
    on_start = λ c h. SameBooks-IsSettled c (start_session P c).1 (start_session-SameBooks P c) h;
    on_loop = λ fuel start devices c h. run_loop-IsSettled P fuel start devices c h;
    on_release = λ c device h. called c (release_device device ∷ c.calls) h;
    on_close = λ c h. SameBooks-IsSettled c (close P c) (close-SameBooks P c) h;
  };
  on_connect =
      λ c name n h. SameBooks-IsSettled c (connect P c name n).1 (connect-SameBooks P c name n) h;
  on_open_devices =
      λ c h. SameBooks-IsSettled c (open_devices P c).1 (open_devices-SameBooks P c) h;
  on_set_timeout = λ c timeout_ms h.
      SameBooks-IsSettled c (set_command_timeout c timeout_ms) (refl, refl, refl, refl) h;
}
  where
    called : (c : VdiClient) (t : Trace) → IsSettled c → IsSettled (record c { calls = t })
    called c t h = SameBooks-IsSettled c (record c { calls = t }) (refl, refl, refl, refl) h

-- After any history of method calls on a new session: no buffer of the pool is in use, at most one
-- has ever been at a time, no acquire has missed, every acquire was for one counted chunk and was
-- followed by its release, and the 64 buffers of the constructor are all in the pool. So the
-- reported high-water mark never exceeds 1, however many buffers the pool has.
pub run-IsSettled :
    (P : Platform) (sink : Option Sink) (logging : Bool) (f : FaultInjector) (ms : List Method)
    → IsSettled (run P (new sink logging f []) ms)
run-IsSettled P sink logging f ms =
    run_rule P IsSettled (IsSettled-KeepsMethods P) (new sink logging f []) ms
      (new-IsSettled sink logging f)
