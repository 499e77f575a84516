-- ===== src/Client/Session.antt =====
-- The public methods of include/vdi_client.h as calls on one session, and histories of such calls.
pub mod Rules
pub mod Histories
pub mod Com
pub mod Loop
pub mod Processing
pub mod Invariant
pub mod Transitions
pub mod Objects
pub mod Verdict
pub mod Conclusion
pub mod Usage
pub mod FailFast
pub mod Parts
use Prim.Native.String.{String}
use vdi_cpp_wrapper.Prelude.{ℕ, ℤ, List, [], ◌∷◌}
use vdi_cpp_wrapper.World.{Platform}
use vdi_cpp_wrapper.Client.{VdiClient, set_command_timeout}
use vdi_cpp_wrapper.Client.Lifecycle.{connect, open_devices, close}
use vdi_cpp_wrapper.Client.Loop.{process_commands}

-- A call of a method. `processes` carries the fuel of its loop.
pub data Method : Type 0 where
  connects : String → ℤ → Method
  opens : Method
  processes : ℕ → Method
  closes : Method
  sets_timeout : ℕ → Method

unfoldable pub step : Platform → VdiClient → Method → VdiClient
step P c (connects device_name device_count) = (connect P c device_name device_count).1
step P c opens = (open_devices P c).1
step P c (processes fuel) = (process_commands P fuel c).1
step P c closes = close P c
step P c (sets_timeout timeout_ms) = set_command_timeout c timeout_ms

unfoldable pub run : Platform → VdiClient → List Method → VdiClient
run P c [] = c
run P c (m ∷ ms) = run P (step P c m) ms
