-- ===== src/Logging.antt =====
-- include/logging.h: what its macros write, at each LOGGING_LEVEL. The text is the one that the
-- format of the call gives. TRACE_EVENT writes the microseconds between its constructor and its
-- destructor.
use Prim.Native.String.{String, ◌++◌}
use vdi_cpp_wrapper.Prelude.{
  ℕ, ◌≤◌, ◌≡◌, refl, List, [], ◌∷◌, ◌++◌ as ◌++ᴸ◌, arith, leb, sub64, to_string, lower_hex_text,
  if◌then◌else◌,
}

abbrev pub log_level_off : ℕ
log_level_off = 0

abbrev pub log_level_info : ℕ
log_level_info = 1

abbrev pub log_level_debug : ℕ
log_level_debug = 2

pub data Stream : Type 0 where
  stdout stderr : Stream

pub record Line : Type 0 where
  pub stream : Stream
  pub line : String

line_of : Stream → String → String → Line
line_of stream tag message = record { stream = stream; line = tag ++ message ++ "\n" }

-- LOG_ERROR and LOG_WARN
unfoldable pub log_error : String → List Line
unfolding line_of
log_error message = line_of stderr "[ERROR] " message ∷ []

unfoldable pub log_warn : String → List Line
unfolding line_of
log_warn message = line_of stderr "[WARN]  " message ∷ []

-- LOG_HRESULT
unfoldable pub log_hresult : String → ℕ → List Line
unfolding log_error
log_hresult msg hr = log_error (msg ++ " HRESULT=0x" ++ lower_hex_text hr)

-- LOG_INFO and LOG_DEBUG
unfoldable pub log_info : ℕ → String → List Line
unfolding line_of
log_info logging_level message =
    if leb log_level_info logging_level then line_of stdout "[INFO]  " message ∷ [] else []

unfoldable pub log_debug : ℕ → String → List Line
unfolding line_of
log_debug logging_level message =
    if leb log_level_debug logging_level then line_of stderr "[DEBUG] " message ∷ [] else []

-- ~TraceEventData() on Windows, in microseconds of the steady clock
trace_line : String → ℕ → ℕ → ℕ → Line
trace_line name tid start stop = record {
  stream = stderr;
  line =
      "[TRACE] "
      ++ name
      ++ " tid="
      ++ to_string tid
      ++ " "
      ++ to_string (sub64 stop start)
      ++ " us\n";
}

-- TRACE_EVENT
unfoldable pub trace_event : ℕ → String → ℕ → ℕ → ℕ → List Line
unfolding trace_line
trace_event logging_level name tid start stop =
    if leb log_level_debug logging_level then trace_line name tid start stop ∷ [] else []

-- A use of one of the macros.
pub data LogCall : Type 0 where
  errors warns infos debugs : String → LogCall
  hresults : String → ℕ → LogCall
  traces : String → ℕ → ℕ → ℕ → LogCall

unfoldable pub log_call : ℕ → LogCall → List Line
unfolding log_error log_warn log_hresult log_info log_debug trace_event
log_call logging_level (errors message) = log_error message
log_call logging_level (warns message) = log_warn message
log_call logging_level (hresults msg hr) = log_hresult msg hr
log_call logging_level (infos message) = log_info logging_level message
log_call logging_level (debugs message) = log_debug logging_level message
log_call logging_level (traces name tid start stop) = trace_event logging_level name tid start stop

unfoldable pub log_calls : ℕ → List LogCall → List Line
unfolding log_call
log_calls logging_level [] = []
log_calls logging_level (call ∷ calls) =
    log_call logging_level call ++ᴸ log_calls logging_level calls

-- The calls that a level compiles: the errors and the warnings always, the others from their
-- level on.
abbrev pub level_of : LogCall → ℕ
level_of (errors message) = log_level_off
level_of (warns message) = log_level_off
level_of (hresults msg hr) = log_level_off
level_of (infos message) = log_level_info
level_of (debugs message) = log_level_debug
level_of (traces name tid start stop) = log_level_debug

unfoldable pub compiled : ℕ → List LogCall → List LogCall
compiled logging_level [] = []
compiled logging_level (call ∷ calls) =
    if leb (level_of call) logging_level
    then call ∷ compiled logging_level calls
    else compiled logging_level calls

-- A level writes what any higher level writes of the calls that it compiles, in order; at level 0
-- these are the errors and the warnings, which no level leaves out.
pub log_calls-compiled :
    (low high : ℕ) (calls : List LogCall)
    → low ≤ high
    → log_calls low calls ≡ log_calls high (compiled low calls)
unfolding log_calls compiled log_call log_info log_debug trace_event
log_calls-compiled low high [] h = refl
log_calls-compiled low high (errors s ∷ calls) h =
    ground (arith, log_calls-compiled low high calls h)
log_calls-compiled low high (warns s ∷ calls) h =
    ground (arith, log_calls-compiled low high calls h)
log_calls-compiled low high (hresults msg hr ∷ calls) h =
    ground (arith, log_calls-compiled low high calls h)
log_calls-compiled low high (infos s ∷ calls) h =
    ground (arith, log_calls-compiled low high calls h)
log_calls-compiled low high (debugs s ∷ calls) h =
    ground (arith, log_calls-compiled low high calls h)
log_calls-compiled low high (traces name tid start stop ∷ calls) h =
    ground (arith, log_calls-compiled low high calls h)
