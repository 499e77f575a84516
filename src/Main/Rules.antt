-- ===== src/Main/Rules.antt =====
-- A property that the methods keep is kept by the body of main, however it ends.
use Prim.Native.String.{String}
use vdi_cpp_wrapper.Prelude.{◌≡◌, refl, ℕ, Option, none, some, not, pos, if_elim}
use vdi_cpp_wrapper.World.{Platform}
use vdi_cpp_wrapper.Client.{VdiClient}
use vdi_cpp_wrapper.Client.Lifecycle.{connect, open_devices, close}
use vdi_cpp_wrapper.Client.Loop.{Outcome, returned, crashed, out_of_fuel, process_commands}
use vdi_cpp_wrapper.Client.Session.Rules.{KeepsMethods, process_commands_rule}
use vdi_cpp_wrapper.Main.{transfer, run_client, delete_client}

module _ (P : Platform) (R : VdiClient → Type 0) (L : KeepsMethods P R) where
  abbrev Leaves : Option ℕ × VdiClient → Type 0
  Leaves q = R q.1

  transfer_rule : (fuel : ℕ) (c : VdiClient) → R c → Leaves (transfer P fuel c)
  unfolding transfer
  transfer_rule fuel c h =
      let (outcome, c1) = process_commands P fuel c in
      ended outcome c1 (process_commands_rule P R L.loop fuel c h)
    where
      ended :
          (outcome : Outcome) (c1 : VdiClient)
          → R c1
          → Leaves (elim outcome [
            | returned ↦ (some 0, close P c1)
            | crashed ↦ (none, c1)
            | out_of_fuel ↦ (none, c1)
          ])
      ended returned c1 h = L.loop.on_close c1 h
      ended crashed c1 h = h
      ended out_of_fuel c1 h = h

  pub run_client_rule :
      (fuel : ℕ) (name : String) (c : VdiClient) → R c → Leaves (run_client P fuel name c)
  unfolding run_client
  run_client_rule fuel name c h =
      let (joined, c1) = connect P c name (pos 1) in
      let (opened, c2) = open_devices P c1 in
      let h1 = L.on_connect c name (pos 1) h in
      let h2 = L.on_open_devices c1 h1 in
      if_elim Leaves (not joined) (λ _. h1)
        (λ _.
          if_elim Leaves (not opened) (λ _. L.loop.on_close c2 h2) (λ _. transfer_rule fuel c2 h2))

-- What main leaves, by whether its body has come to an exit code.
pub exit_rule :
    (P : Platform) (S : Option ℕ × VdiClient → Type 0) (code : Option ℕ) (c : VdiClient)
    → (code ≡ none → S (none, c))
    → ((n : ℕ) → code ≡ some n → S (some n, delete_client P c))
    → S (elim code [ none ↦ (none, c) | some n ↦ (some n, delete_client P c) ])
exit_rule P S none c f g = f refl
exit_rule P S (some n) c f g = g n refl
