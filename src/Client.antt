-- ===== src/Client.antt =====
-- include/vdi_client.h and src/vdi_client.cpp: the session object. This file has its state, its
-- constructor and its setters; the methods are in the children, and so are the theorems.
--
-- `device_set` says whether the pointer is not null. `sink` is an option, since the code tests
-- the pointer in some places; where it does not, a null pointer is the outcome `crash` of
-- Client/Chunk. The last field, `calls`, is no field of the class: it lists the calls that the
-- session has made to the outside.
pub mod Lifecycle
pub mod Stall
pub mod Chunk
pub mod Loop
pub mod Rules
pub mod Calls
pub mod Order
pub mod Backup
pub mod Termination
pub mod Session
pub mod Devices
pub mod Storing
pub mod Safety
pub mod Handles
pub mod Report
pub mod Accounting
pub mod Objects
pub mod FailFast
pub mod Faulted
use Prim.Native.String.{String}
use vdi_cpp_wrapper.Prelude.{ℕ, ℤ, pos, ◌*◌, ◌∷◌, [], List, Bool, true, false, Option}
use vdi_cpp_wrapper.World.{Trace, Platform, read_clock}
use vdi_cpp_wrapper.Sink.{Sink}
use vdi_cpp_wrapper.Metrics
use vdi_cpp_wrapper.Metrics.{Metrics}
use vdi_cpp_wrapper.BufferPool
use vdi_cpp_wrapper.BufferPool.{BufferPool}
use vdi_cpp_wrapper.Faults.{FaultInjector}
use vdi_cpp_wrapper.Errors.State.{SessionState, init, failed_state}

pub record VdiClient : Type 0 where
  pub device_set : Bool
  pub sink : Option Sink
  pub metrics : Metrics
  pub buffer_pool : BufferPool
  pub device_name : String
  pub device_count : ℤ
  pub logging_enabled : Bool
  pub state : SessionState
  pub devices_closed : Bool
  pub command_timeout_ms : ℕ
  pub last_command_us : ℕ
  pub last_bytes_total : ℕ
  pub last_stall_warn_us : ℕ
  pub active_buffers : ℕ
  pub max_active_buffers : ℕ
  pub fault_injector : FaultInjector
  pub calls : Trace

abbrev pub buffer_pool_size : ℕ
buffer_pool_size = 64

abbrev pub buffer_size : ℕ
buffer_size = 64 * 1024

abbrev pub default_command_timeout_ms : ℕ
default_command_timeout_ms = 30000

abbrev pub stall_warn_ms : ℕ
stall_warn_ms = 60000

-- VdiClient::VdiClient(sink, enable_logging, timer_mode), after the calls in `t`. `device_count_`
-- is not initialised there: nothing reads it before `connect` sets it.
unfoldable pub new : Option Sink → Bool → FaultInjector → Trace → VdiClient
new sink enable_logging injector t = record {
  device_set = false;
  sink = sink;
  metrics = Metrics.new enable_logging;
  buffer_pool = BufferPool.new buffer_size buffer_pool_size;
  device_name = "";
  device_count = pos 0;
  logging_enabled = enable_logging;
  state = init;
  devices_closed = false;
  command_timeout_ms = default_command_timeout_ms;
  last_command_us = 0;
  last_bytes_total = 0;
  last_stall_warn_us = 0;
  active_buffers = 0;
  max_active_buffers = 0;
  fault_injector = injector;
  calls = t;
}

-- void set_command_timeout(timeout_ms)
unfoldable pub set_command_timeout : VdiClient → ℕ → VdiClient
set_command_timeout c timeout_ms = record c { command_timeout_ms = timeout_ms }

-- state_ = SessionState::FAILED
abbrev pub fail : VdiClient → VdiClient
fail c = record c { state = failed_state }

-- metrics_.now_us()
unfoldable pub now_us : Platform → VdiClient → ℕ × VdiClient
now_us P c = let now = P.on_now_us c.calls in (now, record c { calls = read_clock now ∷ c.calls })
