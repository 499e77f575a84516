-- ===== src/Client/Rules.antt =====
-- How a property of the command loop follows from one of each stage of its body. `R flow c` is
-- what holds of the state `c` when the body has ended by `flow`; `R next` is the loop's
-- invariant.
use vdi_cpp_wrapper.Prelude.{
  ℕ, zero, suc, ◌≡◌, refl, List, [], ◌∷◌, Option, none, some, true, false, if_elim, sub64,
}
use vdi_cpp_wrapper.Protocol.{
  Command, CommandResult, proceed, close_request, failed_result, failed, dispatch_command,
}
use vdi_cpp_wrapper.World.{Platform}
use vdi_cpp_wrapper.Client.{VdiClient, fail, now_us}
use vdi_cpp_wrapper.Client.Chunk.{
  Flow, next, stop, crash, Times, receive, first_times, on_reply, on_get_command_error, sink_stage,
  call_complete_command, record_completion, complete_stage, execute, run_command, poll_device,
}
use vdi_cpp_wrapper.Client.Loop.{Outcome, returned, crashed, out_of_fuel, poll_devices, run_loop}

abbrev pub flow_of : Outcome → Flow
flow_of returned = stop
flow_of crashed = crash
flow_of out_of_fuel = next

-- The continuation of a part that ended by `flow`: a property of it, from that part's.
pub elim_flow {ℓ} :
    {A B : Type 0} (R : Flow → A → Type 0) (Q : B → Type ℓ) (flow : Flow) (a : A) {x y z : B}
    → R flow a
    → (R next a → Q x)
    → (R stop a → Q y)
    → (R crash a → Q z)
    → Q (elim flow [ next ↦ x | stop ↦ y | crash ↦ z ])
elim_flow R Q next a r f g h = f r
elim_flow R Q stop a r f g h = g r
elim_flow R Q crash a r f g h = h r

-- The same for what follows the dispatch of a command.
pub dispatch_elim {ℓ} :
    {B : Type 0} (Q : B → Type ℓ) (r : CommandResult) {x y z : B}
    → Q z
    → (r ≡ close_request → Q y)
    → (r ≡ failed_result → Q x)
    → Q (elim r [ failed_result ↦ x | close_request ↦ y | proceed ↦ z ])
dispatch_elim Q proceed p q r = p
dispatch_elim Q close_request p q r = q refl
dispatch_elim Q failed_result p q r = r refl

pub option_elim {ℓ} :
    {A B : Type 0} (Q : B → Type ℓ) (o : Option A) {x : B} {f : A → B}
    → (o ≡ none → Q x)
    → ((a : A) → o ≡ some a → Q (f a))
    → Q (elim o [ none ↦ x | some a ↦ f a ])
option_elim Q none p q = p refl
option_elim Q (some a) p q = q a refl

-- What holds after stage 3, by how it ended.
abbrev pub AfterStore :
    (VdiClient → Type 0)
    → (VdiClient → Type 0)
    → (VdiClient → Type 0)
    → Flow × ℕ × VdiClient
    → Type 0
AfterStore Stop Crash Next (next, n, c) = Next c
AfterStore Stop Crash Next (stop, n, c) = Stop c
AfterStore Stop Crash Next (crash, n, c) = Crash c

pub AfterStore-all :
    (Stop Crash Next : VdiClient → Type 0) (q : Flow × ℕ × VdiClient)
    → Stop q.2
    → Crash q.2
    → Next q.2
    → AfterStore Stop Crash Next q
AfterStore-all Stop Crash Next (next, n, c) s k x = x
AfterStore-all Stop Crash Next (stop, n, c) s k x = s
AfterStore-all Stop Crash Next (crash, n, c) s k x = k

elim_store {ℓ} :
    {B : Type 0} (Stop Crash Next : VdiClient → Type 0) (Q : B → Type ℓ) (q : Flow × ℕ × VdiClient)
    {x y z : B}
    → AfterStore Stop Crash Next q
    → (Next q.2 → Q x)
    → (Stop q.2 → Q y)
    → (Crash q.2 → Q z)
    → Q (elim q.0 [ next ↦ x | stop ↦ y | crash ↦ z ])
elim_store Stop Crash Next Q (next, n, c) a f g h = f a
elim_store Stop Crash Next Q (stop, n, c) a f g h = g a
elim_store Stop Crash Next Q (crash, n, c) a f g h = h a

-- What has to be shown of the stages. `Held` is the property of the state while a command is held
-- that is not stored yet, `Stored` while it is stored and not completed, and `Done` when
-- CompleteCommand has been called
-- and has answered `hr`.
pub record Stages (P : Platform) (R : Flow → VdiClient → Type 0)
    (Held Stored : ℕ → Command → VdiClient → Type 0) (Done : ℕ → ℕ → Command → VdiClient → Type 0)
    : Type 0 where
  pub tick_held :
      (device : ℕ) (cmd : Command) (c : VdiClient)
      → Held device cmd c
      → Held device cmd (now_us P c).1
  pub tick_stored :
      (device : ℕ) (cmd : Command) (c : VdiClient)
      → Stored device cmd c
      → Stored device cmd (now_us P c).1
  pub tick_done :
      (hr device : ℕ) (cmd : Command) (c : VdiClient)
      → Done hr device cmd c
      → Done hr device cmd (now_us P c).1
  pub on_error :
      (device : ℕ) (c : VdiClient)
      → R next c
      → let (r, c1) = receive P device c in
        failed r.hr ≡ true
        → R (on_get_command_error P r.hr r.gc_end c1).0 (on_get_command_error P r.hr r.gc_end c1).1
  pub on_null :
      (device : ℕ) (c : VdiClient)
      → R next c
      → let (r, c1) = receive P device c in failed r.hr ≡ false → r.cmd ≡ none → R next c1
  pub on_command :
      (device : ℕ) (c : VdiClient)
      → R next c
      → let (r, c1) = receive P device c in
        (cmd : Command) → failed r.hr ≡ false → r.cmd ≡ some cmd → Held device cmd c1
  pub on_refused :
      (device : ℕ) (cmd : Command) (c : VdiClient)
      → Held device cmd c
      → (dispatch_command (some cmd)).1 ≡ failed_result
      → R stop (fail c)
  pub on_close :
      (device : ℕ) (cmd : Command) (c : VdiClient)
      → Held device cmd c
      → (dispatch_command (some cmd)).1 ≡ close_request
      → R stop c
  pub on_store :
      (device : ℕ) (cmd : Command) (c : VdiClient)
      → Held device cmd c
      → AfterStore (R stop) (R crash) (Stored device cmd) (sink_stage P cmd cmd.command_code c)
  pub on_complete :
      (device : ℕ) (cmd : Command) (c : VdiClient)
      → Stored device cmd c
      → Done
          (call_complete_command P device cmd c).0
          device
          cmd
          (call_complete_command P device cmd c).1
  pub on_incomplete :
      (device : ℕ) (cmd : Command) (c d : VdiClient)
      → failed (call_complete_command P device cmd c).0 ≡ true
      → Done (call_complete_command P device cmd c).0 device cmd d
      → R stop (fail d)
  pub on_done :
      (hr device : ℕ) (cmd : Command) (c : VdiClient) (s : Times) (cc_us : ℕ)
      → failed hr ≡ false
      → Done hr device cmd c
      → R (record_completion cmd s cc_us c).0 (record_completion cmd s cc_us c).1

module _ (P : Platform) (R : Flow → VdiClient → Type 0)
    (Held Stored : ℕ → Command → VdiClient → Type 0) (Done : ℕ → ℕ → Command → VdiClient → Type 0)
    (L : Stages P R Held Stored Done) where
  abbrev Ends : Flow × VdiClient → Type 0
  Ends q = R q.0 q.1

  complete_stage_rule :
      (device : ℕ) (cmd : Command) (s : Times) (c : VdiClient)
      → Stored device cmd c
      → Ends (complete_stage P device cmd s c)
  unfolding complete_stage
  complete_stage_rule device cmd s c h =
      let c1 = (now_us P c).1 in
      let c2 = (call_complete_command P device cmd c1).1 in
      let c3 = (now_us P c2).1 in
      let hr = (call_complete_command P device cmd c1).0 in
      let d : Done hr device cmd c3 =
        L.tick_done hr device cmd c2 (L.on_complete device cmd c1 (L.tick_stored device cmd c h)) in
      if_elim Ends (failed (call_complete_command P device cmd c1).0)
        (λ e. L.on_incomplete device cmd c1 c3 e d) (λ e. L.on_done hr device cmd c3 s _ e d)

  execute_rule :
      (device : ℕ) (cmd : Command) (s : Times) (c : VdiClient)
      → Held device cmd c
      → Ends (execute P device cmd cmd.command_code s c)
  unfolding execute
  execute_rule device cmd s c h =
      let q = sink_stage P cmd cmd.command_code c in
      elim_store (R stop) (R crash) (Stored device cmd) Ends q (L.on_store device cmd c h)
        (λ t. complete_stage_rule device cmd (record s { sink_us = q.1 }) q.2 t) (λ t. t) (λ t. t)

  run_command_rule :
      (device : ℕ) (cmd : Command) (s : Times) (c : VdiClient)
      → Held device cmd c
      → Ends (run_command P device cmd s c)
  unfolding run_command dispatch_command
  run_command_rule device cmd s c h =
      let c1 = (now_us P c).1 in
      let c2 = (now_us P c1).1 in
      let h2 = L.tick_held device cmd c1 (L.tick_held device cmd c h) in
      dispatch_elim Ends (dispatch_command (some cmd)).1
        (execute_rule device cmd (record s { dispatch_us = sub64 (now_us P c1).0 (now_us P c).0 })
          c2 h2)
        (L.on_close device cmd c2 h2) (L.on_refused device cmd c2 h2)

  poll_device_rule :
      (start device : ℕ) (c : VdiClient) → R next c → Ends (poll_device P start device c)
  unfolding poll_device on_reply
  poll_device_rule start device c h =
      let (r, c1) = receive P device c in
      if_elim Ends (failed r.hr) (L.on_error device c h) (λ e.
        option_elim Ends r.cmd (L.on_null device c h e) (λ cmd f.
          run_command_rule device cmd (first_times start r) c1 (L.on_command device c h cmd e f)))

  pub poll_devices_rule :
      (start : ℕ) (devices : List ℕ) (c : VdiClient)
      → R next c
      → R (poll_devices P start devices c).0 (poll_devices P start devices c).1
  unfolding poll_devices
  poll_devices_rule start [] c r = r
  poll_devices_rule start (device ∷ devices) c r =
      let (flow, c1) = poll_device P start device c in
      elim_flow R (λ (q : Flow × VdiClient). R q.0 q.1) flow c1 (poll_device_rule start device c r)
        (λ s. poll_devices_rule start devices c1 s) (λ s. s) (λ s. s)

  pub run_loop_rule :
      (fuel start : ℕ) (devices : List ℕ) (c : VdiClient)
      → R next c
      → R (flow_of (run_loop P fuel start devices c).0) (run_loop P fuel start devices c).1
  unfolding run_loop
  run_loop_rule zero start devices c r = r
  run_loop_rule (suc fuel) start devices c r =
      let (flow, c1) = poll_devices P start devices c in
      elim_flow R (λ (q : Outcome × VdiClient). R (flow_of q.0) q.1) flow c1
        (poll_devices_rule start devices c r) (λ s. run_loop_rule fuel start devices c1 s) (λ s. s)
        (λ s. s)
