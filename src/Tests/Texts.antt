-- ===== src/Tests/Texts.antt =====
-- The sink's log, the texts, the environment and the commands on the inputs of Tests.
use Prim.Native.String.{String}
use vdi_cpp_wrapper.Prelude.{
  ℕ, ◌≡◌, refl, [], ◌∷◌, List, Option, some, true, arith, if◌then◌else◌, text_eq, replicate,
}
use vdi_cpp_wrapper.Sink.Bytes.{file_bytes}
use vdi_cpp_wrapper.Sink.Files
use vdi_cpp_wrapper.Sink.Log.{
  Call, writes, flushes, file_calls, log_calls, new_log, file_calls-refines,
}
use vdi_cpp_wrapper.Errors.Messages.{hresult_to_string}
use vdi_cpp_wrapper.Errors.Decode.{hresult_of, hresult_of-hresult_to_string}
use vdi_cpp_wrapper.Environment.Capture.{System, text, read_os, capture_environment}
use vdi_cpp_wrapper.Environment.Strings.{own_values, capture_environment-terminated}
use vdi_cpp_wrapper.Environment.Stale.{read_os-stale}
use vdi_cpp_wrapper.Tests.{platform}
use vdi_cpp_wrapper.Tests.Sessions.{platform-WritesAll}

abbrev sink_calls : List Call
sink_calls = writes (1 ∷ 2 ∷ []) 2 ∷ flushes ∷ writes (3 ∷ 4 ∷ []) 1 ∷ []

file_calls-refines_example :
    let (answers, (k1, t1)) = file_calls platform (Files.new platform []) sink_calls in
    let (answers', l) = log_calls (new_log platform []) sink_calls in
    (answers ≡ answers') × (file_bytes (Files.destroy platform k1 t1) ≡ l.bytes)
file_calls-refines_example =
    file_calls-refines platform [] sink_calls platform-WritesAll
      ((omega arith, omega arith), (omega arith, ((omega arith, omega arith), omega arith)))

-- The log of these calls, evaluated.
log_test : (log_calls (new_log platform []) sink_calls).1.bytes ≡ 1 ∷ 2 ∷ 3 ∷ []
unfolding log_calls Files.new file_bytes
log_test = refl

hresult_of-hresult_to_string_example : hresult_of (hresult_to_string 0x80070070) ≡ 0x80070070
hresult_of-hresult_to_string_example = hresult_of-hresult_to_string 0x80070070 (omega arith)

to_utf8 : List ℕ → Option String
to_utf8 [] = some ""
to_utf8 (c ∷ []) = some "3"
to_utf8 _ = some "Win 3"

-- A registry whose strings are all stored with a NUL.
abbrev system : System
system = record {
  on_open = λ key. true;
  on_query = λ key name size. (true, 51 ∷ 0 ∷ []);
  on_to_utf8 = to_utf8;
  number_of_processors = 8;
  total_phys = some 1024;
}

capture_environment-terminated_example : capture_environment system ≡ text (own_values system)
capture_environment-terminated_example =
    capture_environment-terminated system (λ key name size e. refl)

-- A registry whose strings are stored without a NUL: the last character of the name is left behind
-- the version.
abbrev bare_system : System
bare_system = record system {
  on_query = λ key name size.
      if text_eq name "ProductName" then (true, 87 ∷ 51 ∷ 0 ∷ []) else (true, 54 ∷ []);
}

read_os-stale_example : read_os bare_system ≡ text ("Win 3", "Win 3")
unfolding to_utf8
read_os-stale_example =
    read_os-stale bare_system (87 ∷ 51 ∷ []) (54 ∷ []) "Win 3" "Win 3" refl refl refl refl refl
      (omega arith) refl refl

abbrev full_system : System
full_system = record system { on_query = λ key name size. (true, replicate 128 55) }
