-- ===== src/Client/Loop.antt =====
-- src/vdi_client.cpp: process_commands. `while (running)` takes fuel, one unit for each round over
-- the devices; how much is enough depends on the server, and Client/Termination says so.
use vdi_cpp_wrapper.Prelude.{
  ℕ, zero, suc, ◌+◌, ℤ, pos, negsuc, List, [], ◌∷◌, ◌++◌, Bool, true, false, not, if◌then◌else◌,
}
use vdi_cpp_wrapper.Protocol.{failed}
use vdi_cpp_wrapper.World.{Platform, open_device, release_device}
use vdi_cpp_wrapper.Errors.State.{is_streaming, is_flushing}
use vdi_cpp_wrapper.Client.{VdiClient, fail, now_us}
use vdi_cpp_wrapper.Client.Lifecycle.{close}
use vdi_cpp_wrapper.Client.Chunk.{Flow, next, stop, crash, poll_device}

-- How `process_commands` ends: it returns, it dereferences a null sink, or the fuel runs out.
pub data Outcome : Type 0 where
  returned crashed out_of_fuel : Outcome

-- const int dev_count = (device_count_ > 0) ? device_count_ : 1
unfoldable pub dev_count : ℤ → ℕ
dev_count (pos zero) = 1
dev_count (pos (suc n)) = suc n
dev_count (negsuc n) = 1

-- The loop of OpenDevice, with `n` rounds left and the counter at `i`. A device is named by the
-- counter of its round.
unfoldable pub open_all : Platform → ℕ → ℕ → List ℕ → VdiClient → Bool × List ℕ × VdiClient
open_all P zero i devices c = (true, devices, c)
open_all P (suc n) i devices c =
    let hr = P.on_open_device c.calls i in
    let c1 = record c { calls = open_device i hr ∷ c.calls } in
    let rest = open_all P n (i + 1) (devices ++ i ∷ []) c1 in
    if failed hr then (false, devices, fail c1) else rest

-- for (auto device : devices)
unfoldable pub poll_devices : Platform → ℕ → List ℕ → VdiClient → Flow × VdiClient
poll_devices P session_start_us [] c = (next, c)
poll_devices P session_start_us (device ∷ devices) c =
    let (flow, c1) = poll_device P session_start_us device c in
    elim flow [
      | next ↦ poll_devices P session_start_us devices c1
      | stop ↦ (stop, c1)
      | crash ↦ (crash, c1)
    ]

-- while (running)
unfoldable pub run_loop : Platform → ℕ → ℕ → List ℕ → VdiClient → Outcome × VdiClient
run_loop P zero session_start_us devices c = (out_of_fuel, c)
run_loop P (suc fuel) session_start_us devices c =
    let (flow, c1) = poll_devices P session_start_us devices c in
    elim flow [
      | next ↦ run_loop P fuel session_start_us devices c1
      | stop ↦ (returned, c1)
      | crash ↦ (crashed, c1)
    ]

-- for (auto device : devices) device->Release()
unfoldable pub release_all : List ℕ → VdiClient → VdiClient
release_all [] c = c
release_all (device ∷ devices) c =
    release_all devices (record c { calls = release_device device ∷ c.calls })

-- What follows the loop: the release of the devices and the post-loop cleanup. The summary that is
-- printed then changes nothing.
unfoldable pub finish : Platform → List ℕ → VdiClient → VdiClient
unfolding release_all
finish P devices c =
    let c1 = release_all devices c in if is_flushing c1.state then close P c1 else c1

-- The clock readings and resets before the loop.
unfoldable pub start_session : Platform → VdiClient → ℕ × VdiClient
unfolding now_us
start_session P c =
    let (session_start_us, c1) = now_us P c in
    (
      session_start_us,
      record c1 {
        last_command_us = session_start_us;
        last_bytes_total = 0;
        last_stall_warn_us = session_start_us;
      },
    )

-- From the opened devices to the end.
unfoldable pub serve : Platform → ℕ → List ℕ → VdiClient → Outcome × VdiClient
unfolding start_session finish
serve P fuel devices c =
    let (session_start_us, c1) = start_session P c in
    let (outcome, c2) = run_loop P fuel session_start_us devices c1 in
    elim outcome [
      | returned ↦ (returned, finish P devices c2)
      | crashed ↦ (crashed, c2)
      | out_of_fuel ↦ (out_of_fuel, c2)
    ]

-- void process_commands()
unfoldable pub process_commands : Platform → ℕ → VdiClient → Outcome × VdiClient
unfolding serve open_all dev_count
process_commands P fuel c =
    if not (is_streaming c.state)
    then (returned, c)
    else if not c.device_set
    then (returned, c)
    else let (opened, devices, c1) = open_all P (dev_count c.device_count) 0 [] c in
      if not opened then (returned, c1) else serve P fuel devices c1
