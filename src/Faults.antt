-- ===== src/Faults.antt =====
-- include/fault_injector.h (src/fault_injector.cpp has no code of its own). The class has two
-- bodies, chosen when the program is built: `stub` is that of FAULT_INJECTION_ENABLED == 0, and
-- `enabled` that of the test builds, with its three fields.
pub mod Trigger
use vdi_cpp_wrapper.Prelude.{ℕ, Bool, true, false, ltb, leb, ◌&&◌, ◌||◌, if◌then◌else◌, add64}

pub record Counters : Type 0 where
  pub fail_after_n_chunks : ℕ
  pub chunk_counter : ℕ
  pub fail_next_command : Bool

pub data FaultInjector : Type 0 where
  stub : FaultInjector
  enabled : Counters → FaultInjector

-- FaultInjector::FaultInjector(), in the build that has fields.
abbrev pub new : FaultInjector
new = enabled (record { fail_after_n_chunks = 0; chunk_counter = 0; fail_next_command = false })

unfoldable pub set_fail_after_n_chunks : FaultInjector → ℕ → FaultInjector
set_fail_after_n_chunks stub n = stub
set_fail_after_n_chunks (enabled c) n =
    enabled (record c { fail_after_n_chunks = n; chunk_counter = 0 })

unfoldable pub set_fail_next_command : FaultInjector → FaultInjector
set_fail_next_command stub = stub
set_fail_next_command (enabled c) = enabled (record c { fail_next_command = true })

unfoldable pub on_chunk_completed : FaultInjector → Bool × FaultInjector
on_chunk_completed stub = (false, stub)
on_chunk_completed (enabled c) =
    if ltb 0 c.fail_after_n_chunks
    then (
      leb c.fail_after_n_chunks (add64 c.chunk_counter 1),
      enabled (record c { chunk_counter = add64 c.chunk_counter 1 }),
    )
    else (false, enabled c)

unfoldable pub should_fail : FaultInjector → Bool × FaultInjector
should_fail stub = (false, stub)
should_fail (enabled c) =
    if c.fail_next_command
    then (true, enabled (record c { fail_next_command = false }))
    else if ltb 0 c.fail_after_n_chunks && leb c.fail_after_n_chunks c.chunk_counter
    then (true, enabled c)
    else (false, enabled c)

unfoldable pub reset : FaultInjector → FaultInjector
reset stub = stub
reset (enabled c) =
    enabled (record { fail_after_n_chunks = 0; chunk_counter = 0; fail_next_command = false })

unfoldable pub chunk_count : FaultInjector → ℕ
chunk_count stub = 0
chunk_count (enabled c) = c.chunk_counter

unfoldable pub is_armed : FaultInjector → Bool
is_armed stub = false
is_armed (enabled c) = ltb 0 c.fail_after_n_chunks || c.fail_next_command
