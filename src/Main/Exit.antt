-- ===== src/Main/Exit.antt =====
-- How a run of main ends.
use Prim.Native.String.{String, ◌++◌}
use vdi_cpp_wrapper.Prelude.{
  ℕ, ◌<◌, ◌≡◌, ◌≢◌, refl, sym, ◌∙◌, ◌⊎◌, inl, inr, List, Option, none, some, false, not, pos, ℤ,
  arith, if_elim, to_string,
}
use vdi_cpp_wrapper.World.{Platform}
use vdi_cpp_wrapper.Faults.{FaultInjector}
use vdi_cpp_wrapper.Client
use vdi_cpp_wrapper.Client.{VdiClient}
use vdi_cpp_wrapper.Client.Lifecycle.{connect, open_devices, close}
use vdi_cpp_wrapper.Client.Loop.{Outcome, returned, crashed, out_of_fuel, process_commands}
use vdi_cpp_wrapper.Client.Safety.{HasSink, process_commands_runs}
use vdi_cpp_wrapper.Client.Termination.{EndsAfter, process_commands_ends}
use vdi_cpp_wrapper.Main.Rules.{exit_rule}
use vdi_cpp_wrapper.Main.{parse_args, default_options, make_sink, transfer, run_client, main}

-- An exit code of 0 or 1.
Exits : Option ℕ × VdiClient → Type 0
Exits q = (q.0 ≡ some 0) ⊎ (q.0 ≡ some 1)

pub transfer_lem :
    (P : Platform) (n fuel : ℕ) (c : VdiClient)
    → EndsAfter n P
    → n < fuel
    → HasSink c
    → (transfer P fuel c).0 ≡ some 0
unfolding transfer
transfer_lem P n fuel c ends k h =
    let (outcome, c1) = process_commands P fuel c in
    ended outcome c1 (process_commands_runs P fuel c h) (process_commands_ends P n fuel c ends k)
  where
    ended :
        (outcome : Outcome) (c1 : VdiClient)
        → outcome ≢ crashed
        → outcome ≢ out_of_fuel
        → let q : Option ℕ × VdiClient = (elim outcome [
          | returned ↦ (some 0, close P c1)
          | crashed ↦ (none, c1)
          | out_of_fuel ↦ (none, c1)
        ]) in
          q.0 ≡ some 0
    ended returned c1 s e = refl
    ended crashed c1 s e = absurd (s refl)
    ended out_of_fuel c1 s e = absurd (e refl)

transfer-Exits :
    (P : Platform) (n fuel : ℕ) (c : VdiClient)
    → EndsAfter n P
    → n < fuel
    → HasSink c
    → Exits (transfer P fuel c)
unfolding Exits
transfer-Exits P n fuel c ends k h = inl (transfer_lem P n fuel c ends k h)

connect-HasSink :
    (P : Platform) (c : VdiClient) (name : String) (n : ℤ)
    → HasSink c
    → HasSink (connect P c name n).1
unfolding connect
connect-HasSink P c name n h = ground arith

open_devices-HasSink : (P : Platform) (c : VdiClient) → HasSink c → HasSink (open_devices P c).1
unfolding open_devices
open_devices-HasSink P c h = ground arith

run_client-Exits :
    (P : Platform) (n fuel : ℕ) (name : String) (c : VdiClient)
    → EndsAfter n P
    → n < fuel
    → HasSink c
    → Exits (run_client P fuel name c)
unfolding run_client Exits
run_client-Exits P n fuel name c ends k h =
    let (joined, c1) = connect P c name (pos 1) in
    let (opened, c2) = open_devices P c1 in
    let h2 = open_devices-HasSink P c1 (connect-HasSink P c name (pos 1) h) in
    if_elim Exits (not joined) (λ _. inr refl)
      (λ _. if_elim Exits (not opened) (λ _. inr refl) (λ _. transfer-Exits P n fuel c2 ends k h2))

-- With a server that answers every GetCommand from the n-th on with a failure that is no timeout,
-- and more than n rounds of fuel, main comes to an exit code, which is 0 or 1, for every command
-- line and whatever else the outside answers: it neither crashes nor hangs in the command loop.
pub main-exits :
    (P : Platform) (n fuel : ℕ) (f : FaultInjector) (pid : ℕ) (args : List String)
    → EndsAfter n P
    → n < fuel
    → ((main P fuel f pid args).0 ≡ some 0) ⊎ ((main P fuel f pid args).0 ≡ some 1)
unfolding main Exits Client.new
main-exits P n fuel f pid args ends k =
    let (sink, t) = make_sink P (parse_args args default_options) in
    let name = "VDI_Device_" ++ to_string pid in
    let c0 = Client.new (some sink) false f t in
    let (code, c) = run_client P fuel name c0 in
    let ended : (code ≡ some 0) ⊎ (code ≡ some 1) =
      run_client-Exits P n fuel name c0 ends k (λ e. cc e) in
    exit_rule P Exits code c
      (λ e. elim ended [ inl z ↦ absurd (cc (e, z)) | inr z ↦ absurd (cc (e, z)) ])
      (λ m e. elim ended [ inl z ↦ inl (sym e ∙ z) | inr z ↦ inr (sym e ∙ z) ])
