-- ===== src/World.antt =====
-- What the program reaches outside its own sources: the COM runtime, the virtual device set and
-- its devices (the interfaces of include/sqlvdi.h), the clock behind include/timer.h, and the
-- files of the Windows API that src/file_sink.cpp calls. The code of these is not in the
-- repository, so it is a parameter: a `Platform` answers each call from the history of the calls
-- made so far. Every deterministic or nondeterministic behaviour of the outside, over one run, is
-- such a function of the history.
use vdi_cpp_wrapper.Prelude.{ℕ, Bool, List, Option}
use vdi_cpp_wrapper.Protocol.{VdConfig, Command}

-- One call with its answer. A stall warning is the one log line that is kept, since it is all that
-- the stall detector does.
pub data Event : Type 0 where
  co_initialize_ex : ℕ → Event
  co_uninitialize : Event
  create_instance : ℕ → Event
  create_ex : VdConfig → ℕ → Event
  get_configuration : ℕ → ℕ → Event
  open_device : ℕ → ℕ → Event
  -- device, timeout, HRESULT, command
  get_command : ℕ → ℕ → ℕ → Option Command → Event
  -- device, command, completion code, bytes transferred, position, HRESULT
  complete_command : ℕ → Command → ℕ → ℕ → ℕ → ℕ → Event
  release_device : ℕ → Event
  close_set : Event
  release_set : Event
  read_clock : ℕ → Event
  create_file : Bool → Event
  aligned_malloc : Bool → Event
  -- bytes offered, result, bytes written
  write_file : List ℕ → Bool → ℕ → Event
  flush_file : Event
  close_file : Event
  aligned_free : Event
  stall_warning : ℕ → Event

-- The calls made so far, newest first.
abbrev pub Trace : Type 0
Trace = List Event

pub record Platform : Type 0 where
  pub on_co_initialize_ex : Trace → ℕ
  pub on_create_instance : Trace → ℕ
  pub on_create_ex : Trace → VdConfig → ℕ
  pub on_get_configuration : Trace → ℕ → ℕ
  pub on_open_device : Trace → ℕ → ℕ
  pub on_get_command : Trace → ℕ → ℕ → ℕ × Option Command
  pub on_complete_command : Trace → ℕ → Command → ℕ
  pub on_now_us : Trace → ℕ
  -- for compare_exchange_weak: how often the min (0) or max (1) loop fails spuriously
  pub on_spurious_failures : Trace → ℕ → ℕ
  -- whether MultiByteToWideChar, CreateFileW and _aligned_malloc succeed
  pub on_wide_path : Trace → Bool
  pub on_create_file : Trace → Bool
  pub on_aligned_malloc : Trace → Bool
  pub on_write_file : Trace → List ℕ → Bool × ℕ
