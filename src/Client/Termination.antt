-- ===== src/Client/Termination.antt =====
-- How long the command loop of src/vdi_client.cpp runs, by the number of calls of GetCommand.
use vdi_cpp_wrapper.Prelude.{
  ℕ, ℤ, pos, negsuc, zero, suc, ◌+◌, ◌≤◌, ◌<◌, ◌≡◌, ◌≢◌, refl, List, [], ◌∷◌, ◌++◌, Bool, true,
  false, arith, not, if◌then◌else◌, if_elim, length, length-append,
}
use vdi_cpp_wrapper.Protocol.{failed, vd_e_timeout}
use vdi_cpp_wrapper.World.{Trace, Platform, get_command}
use vdi_cpp_wrapper.Client.{VdiClient, now_us}
use vdi_cpp_wrapper.Client.Chunk.{
  Flow, next, stop, Reply, Times, receive, first_times, on_reply, on_get_command_error, poll_device,
}
use vdi_cpp_wrapper.Client.Loop.{
  Outcome, returned, crashed, out_of_fuel, open_all, dev_count, poll_devices, run_loop,
  start_session, serve, process_commands, finish,
}
use vdi_cpp_wrapper.Client.Rules.{elim_flow}
use native.Mathlib.Decide.{dec_lt}
use vdi_cpp_wrapper.Errors.State.{is_streaming}
use vdi_cpp_wrapper.Client.Calls.{IsSilent, silent_on, on_reply_rule}

-- How many calls of GetCommand the history has.
unfoldable pub polls : Trace → ℕ
polls [] = 0
polls (get_command device timeout hr cmd ∷ t) = suc (polls t)
polls (_ ∷ t) = polls t

-- From the `n`-th GetCommand on, the server answers with a failure that is no timeout.
abbrev pub EndsAfter : ℕ → Platform → Type 0
EndsAfter n P =
    (t : Trace) (device timeout : ℕ)
    → n ≤ polls t
    → (failed (P.on_get_command t device timeout).0 ≡ true)
      × ((P.on_get_command t device timeout).0 ≢ vd_e_timeout)

polls-IsSilent : (P : Platform) (m : ℕ) → IsSilent P (λ t. polls t ≡ m)
unfolding polls
polls-IsSilent P m = record {
  quiet = record {
    on_clock = λ t e. e;
    on_write = λ t bytes e. e;
    on_flush = λ t e. e;
    on_warning = λ t n e. e;
  };
  on_complete = λ t device cmd code n position hr e. e;
}

-- A round over one device makes one call of GetCommand.
polls-poll_device :
    (P : Platform) (start device : ℕ) (c : VdiClient)
    → polls (poll_device P start device c).1.calls ≡ suc (polls c.calls)
unfolding poll_device receive polls
polls-poll_device P start device c =
    let (r, c1) = receive P device c in
    let Once = λ (t : Trace). polls t ≡ suc (polls c.calls) in
    on_reply_rule P Once device (silent_on P Once device (polls-IsSilent P (suc (polls c.calls)))) r
      (first_times start r) c1 refl

stops_on_error :
    (P : Platform) (hr now : ℕ) (c : VdiClient)
    → hr ≢ vd_e_timeout
    → (on_get_command_error P hr now c).0 ≡ stop
unfolding on_get_command_error
stops_on_error P hr now c h = ground arith

stops_on_reply :
    (P : Platform) (device : ℕ) (r : Reply) (s : Times) (c : VdiClient)
    → failed r.hr ≡ true
    → r.hr ≢ vd_e_timeout
    → (on_reply P device r s c).0 ≡ stop
unfolding on_reply
stops_on_reply P device r s c e h = rw (e, on_reply) (stops_on_error P r.hr r.gc_end c h)

stops_at_end :
    (P : Platform) (n start device : ℕ) (c : VdiClient)
    → EndsAfter n P
    → n ≤ polls c.calls
    → (poll_device P start device c).0 ≡ stop
unfolding poll_device receive polls
stops_at_end P n start device c ends h =
    let (r, c1) = receive P device c in
    let e = ends (now_us P c).1.calls device c.command_timeout_ms h in
    stops_on_reply P device r (first_times start r) c1 e.0 e.1

polls-poll_devices :
    (P : Platform) (start : ℕ) (devices : List ℕ) (c : VdiClient)
    → polls c.calls ≤ polls (poll_devices P start devices c).1.calls
unfolding poll_devices
polls-poll_devices P start [] c = omega arith
polls-poll_devices P start (device ∷ devices) c =
    let (flow, c1) = poll_device P start device c in
    let grown = polls-poll_device P start device c in
    elim_flow (λ (f : Flow) (d : VdiClient). polls d.calls ≡ suc (polls c.calls))
      (λ (q : Flow × VdiClient). polls c.calls ≤ polls q.1.calls) flow c1 grown
      (λ e. omega (arith, e, polls-poll_devices P start devices c1)) (λ e. omega arith)
      (λ e. omega arith)

-- A round over at least one device that goes on was begun before the end, and polls at least once.
poll_devices_next :
    (P : Platform) (n start device : ℕ) (devices : List ℕ) (c : VdiClient)
    → EndsAfter n P
    → (poll_devices P start (device ∷ devices) c).0 ≡ next
    → (polls c.calls < n)
      × (polls c.calls < polls (poll_devices P start (device ∷ devices) c).1.calls)
unfolding poll_devices
poll_devices_next P n start device devices c ends =
    let (flow, c1) = poll_device P start device c in
    elim_flow
      (λ (f : Flow) (d : VdiClient).
        (polls d.calls ≡ suc (polls c.calls)) × (n ≤ polls c.calls → f ≡ stop))
      (λ (q : Flow × VdiClient).
        q.0 ≡ next → (polls c.calls < n) × (polls c.calls < polls q.1.calls))
      flow c1 (polls-poll_device P start device c, stops_at_end P n start device c ends)
      (λ h e. (before h.1, omega (arith, h.0, polls-poll_devices P start devices c1))) (λ h e. cc e)
      (λ h e. cc e)
  where
    before : (n ≤ polls c.calls → next ≡ stop) → polls c.calls < n
    before h = elim (dec_lt (polls c.calls) n) [ yes p ↦ p | no p ↦ cc (h (omega arith)) ]

-- The loop over at least one device ends within the fuel, if that and the calls made so far exceed
-- the server's `n`.
run_loop_ends :
    (P : Platform) (n fuel start device : ℕ) (devices : List ℕ) (c : VdiClient)
    → EndsAfter n P
    → n < polls c.calls + fuel
    → 0 < fuel
    → (run_loop P fuel start (device ∷ devices) c).0 ≢ out_of_fuel
unfolding run_loop
run_loop_ends P n zero start device devices c ends h k = absurd (omega arith)
run_loop_ends P n (suc fuel) start device devices c ends h k =
    let q = poll_devices P start (device ∷ devices) c in
    elim_flow
      (λ (f : Flow) (d : VdiClient).
        f ≡ next → (polls c.calls < n) × (polls c.calls < polls d.calls))
      (λ (r : Outcome × VdiClient). r.0 ≢ out_of_fuel) q.0 q.1
      (poll_devices_next P n start device devices c ends)
      (λ g.
        let g' = g refl in
        run_loop_ends P n fuel start device devices q.1 ends (omega arith) (omega arith))
      (λ g e. cc e) (λ g e. cc e)

-- The devices that were opened are at least one.
abbrev NonEmpty : Bool × List ℕ × VdiClient → Type 0
NonEmpty (opened, devices, c) = opened ≡ true → 0 < length devices

open_all-NonEmpty :
    (P : Platform) (n i : ℕ) (devices : List ℕ) (c : VdiClient)
    → 0 < length devices + n
    → NonEmpty (open_all P n i devices c)
unfolding open_all
open_all-NonEmpty P zero i devices c h = λ e. omega arith
open_all-NonEmpty P (suc n) i devices c h =
    if_elim NonEmpty (failed (P.on_open_device c.calls i)) (λ _ e. cc e)
      (λ _.
        open_all-NonEmpty P n (i + 1) (devices ++ i ∷ []) _
          (omega (arith, length-append devices (i ∷ []))))

dev_count_pos : (n : ℤ) → 0 < dev_count n
unfolding dev_count
dev_count_pos (pos zero) = omega arith
dev_count_pos (pos (suc n)) = omega arith
dev_count_pos (negsuc n) = omega arith

abbrev Ends : Outcome × VdiClient → Type 0
Ends q = q.0 ≢ out_of_fuel

serve_ends :
    (P : Platform) (n fuel : ℕ) (devices : List ℕ) (c : VdiClient)
    → EndsAfter n P
    → 0 < length devices
    → n < fuel
    → (serve P fuel devices c).0 ≢ out_of_fuel
unfolding serve
serve_ends P n fuel [] c ends h k = absurd (omega arith)
serve_ends P n fuel (device ∷ devices) c ends h k =
    let (start, c1) = start_session P c in
    let (outcome, c2) = run_loop P fuel start (device ∷ devices) c1 in
    ended outcome c2
      (run_loop_ends P n fuel start device devices c1 ends (omega arith) (omega arith))
  where
    ended :
        (outcome : Outcome) (c2 : VdiClient)
        → outcome ≢ out_of_fuel
        → Ends (elim outcome [
          | returned ↦ (returned, finish P (device ∷ devices) c2)
          | crashed ↦ (crashed, c2)
          | out_of_fuel ↦ (out_of_fuel, c2)
        ])
    ended returned c2 d = λ e. cc e
    ended crashed c2 d = λ e. cc e
    ended out_of_fuel c2 d = λ e. d refl

-- If the server answers every GetCommand from the n-th on with a failure that is no timeout, more
-- than n rounds of fuel are enough for every session: process_commands then ends by itself,
-- whatever the state of the client, the devices and the sink.
pub process_commands_ends :
    (P : Platform) (n fuel : ℕ) (c : VdiClient)
    → EndsAfter n P
    → n < fuel
    → (process_commands P fuel c).0 ≢ out_of_fuel
unfolding process_commands
process_commands_ends P n fuel c ends k =
    if_elim Ends (not (is_streaming c.state)) (λ _ e. cc e)
      (λ _.
        if_elim Ends (not c.device_set) (λ _ e. cc e)
          (λ _. opened (open_all P (dev_count c.device_count) 0 [] c) (
            open_all-NonEmpty P (dev_count c.device_count) 0 [] c
              (omega (arith, dev_count_pos c.device_count)))))
  where
    opened :
        (q : Bool × List ℕ × VdiClient)
        → NonEmpty q
        → Ends (if not q.0 then (returned, q.2) else serve P fuel q.1 q.2)
    opened (true, devices, c1) h = serve_ends P n fuel devices c1 ends (h refl) k
    opened (false, devices, c1) h = λ e. cc e
