-- ===== src/Tests.antt =====
-- Concrete inputs: a server that sends one chunk and then closes, a disk that writes everything,
-- and a session between them. The children evaluate the theorems on them.
pub mod Parts
pub mod Sessions
pub mod Endings
pub mod Runs
pub mod Books
pub mod Texts
pub mod Shared
use vdi_cpp_wrapper.Prelude.{
  ℕ, ◌*◌, List, [], ◌∷◌, Option, none, some, Bool, true, false, pos, length, ◌==◌, if◌then◌else◌,
}
use vdi_cpp_wrapper.Protocol.{Command, vdc_write, vd_e_close}
use vdi_cpp_wrapper.World.{Trace, Platform}
use vdi_cpp_wrapper.Sink.{Sink, file_sink}
use vdi_cpp_wrapper.Sink.Files.{FileSink}
use vdi_cpp_wrapper.Faults
use vdi_cpp_wrapper.Faults.{stub}
use vdi_cpp_wrapper.Errors.State.{streaming}
use vdi_cpp_wrapper.Client
use vdi_cpp_wrapper.Client.{VdiClient}
use vdi_cpp_wrapper.Client.Termination.{polls}

abbrev pub chunk : Command
chunk = record { command_code = vdc_write; size = 3; position = 0; buffer = some (7 ∷ 8 ∷ 9 ∷ []) }

-- The chunk on the first GetCommand, VD_E_CLOSE on every later one.
abbrev pub answer : Trace → ℕ → ℕ → ℕ × Option Command
answer t device timeout = if polls t == 0 then (0, some chunk) else (vd_e_close, none)

abbrev pub platform : Platform
platform = record {
  on_co_initialize_ex = λ t. 0;
  on_create_instance = λ t. 0;
  on_create_ex = λ t config. 0;
  on_get_configuration = λ t timeout. 0;
  on_open_device = λ t i. 0;
  on_get_command = answer;
  on_complete_command = λ t device cmd. 0;
  on_now_us = λ t. 1000 * length t;
  on_spurious_failures = λ t i. i;
  on_wide_path = λ t. true;
  on_create_file = λ t. true;
  on_aligned_malloc = λ t. true;
  on_write_file = λ t bytes. (true, length bytes);
}

-- A disk that is full.
abbrev pub full_disk : Platform
full_disk = record platform { on_write_file = λ t bytes. (false, 0) }

abbrev pub empty_file : FileSink
empty_file = record { file_handle = true; write_buffer = some []; buffered_bytes = 0 }

abbrev pub opened_client : VdiClient
opened_client = record (Client.new (some (file_sink empty_file)) false stub []) {
  state = streaming;
  device_set = true;
  device_count = pos 1;
  sink = some (file_sink empty_file);
  calls = [];
}
