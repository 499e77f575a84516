-- ===== src/Client/Accounting.antt =====
-- What the command loop of src/vdi_client.cpp counts: the stages that leave the books alone. The
-- books are the metrics, the buffer pool and the numbers of buffers in use.
pub mod Sizes
pub mod Buffers
pub mod Histories
pub mod Timings
pub mod TimedStages
pub mod TimedHistories
pub mod Measured
pub mod Reports
pub mod Logged
use Prim.Native.String.{String}
use vdi_cpp_wrapper.Prelude.{ℤ, ◌≡◌, refl, ℕ, inl, inr, arith, Option-cases, not, if◌then◌else◌}
use vdi_cpp_wrapper.Protocol.{Command}
use vdi_cpp_wrapper.World.{Platform}
use vdi_cpp_wrapper.Errors.State.{flushing}
use vdi_cpp_wrapper.Client.{VdiClient, now_us}
use vdi_cpp_wrapper.Client.Lifecycle.{connect, open_devices, close, flush_sink}
use vdi_cpp_wrapper.Client.Loop.{start_session}
use vdi_cpp_wrapper.Client.Stall.{check_stall}
use vdi_cpp_wrapper.Client.Chunk.{on_get_command_error, write_chunk, store_chunk}
use vdi_cpp_wrapper.Client.Rules.{option_elim}

abbrev pub SameBooks : VdiClient → VdiClient → Type 0
SameBooks c d =
    (d.metrics ≡ c.metrics)
    × (d.buffer_pool ≡ c.buffer_pool)
    × (d.active_buffers ≡ c.active_buffers)
    × (d.max_active_buffers ≡ c.max_active_buffers)

pub store_chunk-SameBooks :
    (P : Platform) (cmd : Command) (c : VdiClient) → SameBooks c (store_chunk P cmd c).2
unfolding store_chunk write_chunk
store_chunk-SameBooks P cmd c = elim (Option-cases c.sink) [
  | inl e ↦ ground arith
  | inr (k, e) ↦ ground arith
]

flush_sink-SameBooks : (P : Platform) (c : VdiClient) → SameBooks c (flush_sink P c)
unfolding flush_sink
flush_sink-SameBooks P c =
    option_elim (SameBooks c) c.sink (λ _. (refl, refl, refl, refl))
      (λ k e. (refl, refl, refl, refl))

pub on_get_command_error-SameBooks :
    (P : Platform) (hr now : ℕ) (c : VdiClient) → SameBooks c (on_get_command_error P hr now c).1
unfolding on_get_command_error check_stall
on_get_command_error-SameBooks P hr now c =
    ground (arith, flush_sink-SameBooks P (record c { state = flushing }))

pub close-SameBooks : (P : Platform) (c : VdiClient) → SameBooks c (close P c)
unfolding close
close-SameBooks P c = ground (arith, flush_sink-SameBooks P c)

pub connect-SameBooks :
    (P : Platform) (c : VdiClient) (name : String) (n : ℤ) → SameBooks c (connect P c name n).1
unfolding connect
connect-SameBooks P c name n = ground arith

pub open_devices-SameBooks : (P : Platform) (c : VdiClient) → SameBooks c (open_devices P c).1
unfolding open_devices
open_devices-SameBooks P c = ground arith

pub start_session-SameBooks : (P : Platform) (c : VdiClient) → SameBooks c (start_session P c).1
unfolding start_session
start_session-SameBooks P c = (refl, refl, refl, refl)
