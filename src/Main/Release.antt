-- ===== src/Main/Release.antt =====
-- What a whole run of main leaves of the device set.
use Prim.Native.String.{String, ◌++◌}
use vdi_cpp_wrapper.Prelude.{
  ℕ, ◌≤◌, ◌≡◌, ◌≢◌, refl, List, Option, none, some, Bool, false, not, pos, arith, if_elim,
  to_string,
}
use vdi_cpp_wrapper.World.{Trace, Platform}
use vdi_cpp_wrapper.Sink.{Sink, null_sink, file_sink}
use vdi_cpp_wrapper.Sink
use vdi_cpp_wrapper.Sink.Files
use vdi_cpp_wrapper.Faults.{FaultInjector}
use vdi_cpp_wrapper.Client
use vdi_cpp_wrapper.Client.{VdiClient}
use vdi_cpp_wrapper.Client.Lifecycle.{connect, open_devices, close, destroy}
use vdi_cpp_wrapper.Client.Loop.{Outcome, returned, crashed, out_of_fuel, process_commands}
use vdi_cpp_wrapper.Client.Rules.{option_elim}
use vdi_cpp_wrapper.Client.Session.Loop.{created, released}
use vdi_cpp_wrapper.Client.Session.Invariant.{
  Inv, connect-Inv, open_devices-Inv, process_commands-Inv, close-Inv, destroy-Inv,
}
use vdi_cpp_wrapper.Main.Rules.{exit_rule}
use vdi_cpp_wrapper.Main.{
  parse_args, default_options, Options, make_sink, transfer, run_client, main, delete_client,
  destroy_fields,
}

-- Opening the file creates no device set.
pub make_sink-created :
    (P : Platform) (o : Options)
    → (created (make_sink P o).1 ≡ 0) × (released (make_sink P o).1 ≡ 0)
unfolding make_sink Files.new created released
make_sink-created P o = ground arith

pub new-Inv :
    (sink : Option Sink) (logging : Bool) (f : FaultInjector) (t : Trace)
    → created t ≡ 0
    → released t ≡ 0
    → Inv (Client.new sink logging f t)
unfolding Client.new
new-Inv sink logging f t h k = ground arith

-- The invariant, whether main's body has ended by itself or not.
transfer-Inv : (P : Platform) (fuel : ℕ) (c : VdiClient) → Inv c → Inv (transfer P fuel c).1
unfolding transfer
transfer-Inv P fuel c v =
    let (outcome, c1) = process_commands P fuel c in
    ended outcome c1 (process_commands-Inv P fuel c v)
  where
    ended :
        (outcome : Outcome) (c1 : VdiClient)
        → Inv c1
        → Inv
            (elim outcome as (λ _. Option ℕ × VdiClient) [
              | returned ↦ (some 0, close P c1)
              | crashed ↦ (none, c1)
              | out_of_fuel ↦ (none, c1)
            ]).1
    ended returned c1 i = close-Inv P c1 i
    ended crashed c1 i = i
    ended out_of_fuel c1 i = i

abbrev Leaves : Option ℕ × VdiClient → Type 0
Leaves q = Inv q.1

pub run_client-Inv :
    (P : Platform) (fuel : ℕ) (name : String) (c : VdiClient)
    → Inv c
    → Inv (run_client P fuel name c).1
unfolding run_client
run_client-Inv P fuel name c v =
    let (joined, c1) = connect P c name (pos 1) in
    let (opened, c2) = open_devices P c1 in
    let v1 = connect-Inv P c name (pos 1) v in
    let v2 = open_devices-Inv P c1 v1 in
    if_elim Leaves (not joined) (λ _. v1)
      (λ _. if_elim Leaves (not opened) (λ _. close-Inv P c2 v2) (λ _. transfer-Inv P fuel c2 v2))

sink_destroy-Quietly :
    (P : Platform) (k : Sink) (t : Trace)
    → (created (Sink.destroy P k t) ≡ created t) × (released (Sink.destroy P k t) ≡ released t)
unfolding Sink.destroy Files.destroy Files.flush_buffer created released
sink_destroy-Quietly P null_sink t = (refl, refl)
sink_destroy-Quietly P (file_sink k) t = ground arith

-- What a whole run owes of the device set.
abbrev Freed : VdiClient → Type 0
Freed d = (created d.calls ≤ 1) × (released d.calls ≡ created d.calls) × (d.device_set ≡ false)

delete_client-Freed : (P : Platform) (c : VdiClient) → Inv c → Freed (delete_client P c)
unfolding delete_client destroy_fields
delete_client-Freed P c i =
    let c1 = destroy P c in
    let freed : Freed c1 = ground (arith, destroy-Inv P c i) in
    option_elim Freed c1.sink (λ _. freed)
      (λ k e. ground (arith, freed, sink_destroy-Quietly P k c1.calls))

-- A run of main that comes to an exit code, whichever it is, has created at most one device set,
-- and has released each that it created exactly once, for every command line and whatever the
-- outside answers.
pub main-releases :
    (P : Platform) (fuel : ℕ) (f : FaultInjector) (pid : ℕ) (args : List String)
    → (main P fuel f pid args).0 ≢ none
    → let c = (main P fuel f pid args).1 in
      (created c.calls ≤ 1) × (released c.calls ≡ created c.calls) × (c.device_set ≡ false)
unfolding main
main-releases P fuel f pid args h =
    let o = parse_args args default_options in
    let (sink, t) = make_sink P o in
    let (none_made, none_released) = make_sink-created P o in
    let name = "VDI_Device_" ++ to_string pid in
    let c0 = Client.new (some sink) false f t in
    let (code, c) = run_client P fuel name c0 in
    let i = run_client-Inv P fuel name c0 (new-Inv (some sink) false f t none_made none_released) in
    exit_rule P (λ q. q.0 ≢ none → Freed q.1) code c (λ _ e. absurd (e refl))
      (λ n _ _. delete_client-Freed P c i) h
