-- ===== src/Client/Backup/Completion.antt =====
-- A backup from a server that plays its part comes to its end.
use vdi_cpp_wrapper.Prelude.{
  ℕ, zero, suc, ◌+◌, ◌<◌, ◌≡◌, ◌≢◌, refl, List, [], ◌∷◌, ◌++◌, Bool, true, false, not, arith,
  if_elim,
}
use vdi_cpp_wrapper.Protocol.{failed}
use vdi_cpp_wrapper.World.{Platform}
use vdi_cpp_wrapper.Sink.Bytes.{file_bytes, WritesAll}
use vdi_cpp_wrapper.Errors.State.{streaming, closed, is_streaming}
use vdi_cpp_wrapper.Client.{VdiClient}
use vdi_cpp_wrapper.Client.Lifecycle.{close}
use vdi_cpp_wrapper.Client.Chunk.{next, stop}
use vdi_cpp_wrapper.Client.Loop.{
  Outcome, returned, crashed, out_of_fuel, open_all, dev_count, run_loop, release_all, finish,
  start_session, serve, process_commands,
}
use vdi_cpp_wrapper.Client.Rules.{flow_of, run_loop_rule}
use vdi_cpp_wrapper.Client.Termination.{EndsAfter, process_commands_ends}
use vdi_cpp_wrapper.Client.Backup.{received_bytes, Accepts, SendsWellFormed}
use vdi_cpp_wrapper.Client.Backup.Session.{process_commands-AllFiled, AllFiled}
use vdi_cpp_wrapper.Client.Backup.Alive.{Alive-Stages}
use vdi_cpp_wrapper.Client.Backup.Progress.{Cooperates, IsSteady, Alive, Incoming, Stored}

release_all_lem :
    (devices : List ℕ) (c : VdiClient)
    → let d = release_all devices c in (d.state ≡ c.state) × (d.devices_closed ≡ c.devices_closed)
unfolding release_all
release_all_lem [] c = (refl, refl)
release_all_lem (device ∷ devices) c = release_all_lem devices _

close-closed :
    (P : Platform) (c : VdiClient) → c.devices_closed ≡ false → (close P c).state ≡ closed
unfolding close
close-closed P c e = ground (arith, e)

finish-closed :
    (P : Platform) (devices : List ℕ) (c : VdiClient)
    → Alive stop c
    → (finish P devices c).state ≡ closed
unfolding finish
finish-closed P devices c a =
    let c1 = release_all devices c in
    let r = release_all_lem devices c in ground (arith, r, a, close-closed P c1)

-- What is shown of an outcome: it is not that the loop goes on, it is a return in CLOSED.
abbrev Finishes : Outcome × VdiClient → Type 0
Finishes q = q.0 ≢ out_of_fuel → (q.0 ≡ returned) × (q.1.state ≡ closed)

start_session-Alive :
    (P : Platform) (c : VdiClient) → Alive next c → Alive next (start_session P c).1
unfolding start_session file_bytes received_bytes
start_session-Alive P c a = a

serve-Finishes :
    (P : Platform) (fuel : ℕ) (devices : List ℕ) (c : VdiClient)
    → WritesAll P
    → SendsWellFormed P
    → Cooperates P
    → Alive next c
    → Finishes (serve P fuel devices c)
unfolding serve
serve-Finishes P fuel devices c w f k a =
    let (start, c1) = start_session P c in
    let (outcome, c2) = run_loop P fuel start devices c1 in
    ended outcome c2 (
      run_loop_rule P Alive Incoming Stored (λ hr. Stored) (Alive-Stages P w f k) fuel start devices
        c1 (start_session-Alive P c a))
  where
    ended :
        (outcome : Outcome) (c2 : VdiClient)
        → Alive (flow_of outcome) c2
        → Finishes (elim outcome [
          | returned ↦ (returned, finish P devices c2)
          | crashed ↦ (crashed, c2)
          | out_of_fuel ↦ (out_of_fuel, c2)
        ])
    ended returned c2 d = λ _. (refl, finish-closed P devices c2 d)
    ended crashed c2 d = absurd d
    ended out_of_fuel c2 d = λ e. absurd (e refl)

abbrev Begins : Bool × List ℕ × VdiClient → Type 0
Begins q = (q.0 ≡ true) × Alive next q.2

open_all-Begins :
    (P : Platform) (n i : ℕ) (devices : List ℕ) (c : VdiClient)
    → Cooperates P
    → Alive next c
    → Begins (open_all P n i devices c)
unfolding open_all file_bytes received_bytes
open_all-Begins P zero i devices c k a = (refl, a)
open_all-Begins P (suc n) i devices c k a =
    if_elim Begins (failed (P.on_open_device c.calls i)) (λ e. absurd (cc (e, k.opens c.calls i)))
      (λ _. open_all-Begins P n (i + 1) (devices ++ i ∷ []) _ k a)

process_commands-Finishes :
    (P : Platform) (fuel : ℕ) (c : VdiClient)
    → WritesAll P
    → SendsWellFormed P
    → Cooperates P
    → Alive next c
    → c.device_set ≡ true
    → Finishes (process_commands P fuel c)
unfolding process_commands
process_commands-Finishes P fuel c w f k a set =
    let q = open_all P (dev_count c.device_count) 0 [] c in
    let b = open_all-Begins P (dev_count c.device_count) 0 [] c k a in
    if_elim Finishes (not (is_streaming c.state)) (λ e. absurd (not_idle e))
      (λ _.
        if_elim Finishes (not c.device_set) (λ e. absurd (cc (e, set)))
          (λ _.
            if_elim Finishes (not q.0) (λ e. absurd (cc (e, b.0)))
              (λ _. serve-Finishes P fuel q.1 q.2 w f k b.1)))
  where
    not_idle : not (is_streaming c.state) ≢ true
    not_idle e = ground (arith, a.0.0)

pub process_commands_completes_lem :
    (P : Platform) (n fuel : ℕ) (c : VdiClient)
    → WritesAll P
    → SendsWellFormed P
    → Cooperates P
    → EndsAfter n P
    → n < fuel
    → c.state ≡ streaming
    → c.device_set ≡ true
    → IsSteady c
    → Accepts c (received_bytes c.calls)
    → let (outcome, c1) = process_commands P fuel c in
      (outcome ≡ returned) × (c1.state ≡ closed) × AllFiled c1
process_commands_completes_lem P n fuel c w f k ends more st set s a =
    let (back, shut) =
      process_commands-Finishes P fuel c w f k ((st, a), s) set
        (process_commands_ends P n fuel c ends more) in
    (back, shut, (process_commands-AllFiled P fuel c w f st a).1 shut)

-- On a disk that writes all that it is given, with a server that sends valid VDC_Write commands of
-- a DWORD size with a buffer of at least that size, reports nothing but timeouts and the end,
-- takes every completion, opens every device, and reports the end at every GetCommand after the
-- first n of the history: process_commands of a session that is streaming, is not marked as closed
-- (devices_closed is false), holds its device set, has the fault injector of the ordinary build,
-- which injects nothing, and has an open file sink whose buffer is allocated and which has
-- accepted all the data sent so far, given more than n rounds of fuel, returns with the session
-- CLOSED and the file holding exactly the data of all the VDC_Write commands, in order.
pub process_commands_completes :
    (P : Platform) (n fuel : ℕ) (c : VdiClient)
    → WritesAll P
    → SendsWellFormed P
    → Cooperates P
    → EndsAfter n P
    → n < fuel
    → c.state ≡ streaming
    → c.device_set ≡ true
    → IsSteady c
    → Accepts c (received_bytes c.calls)
    → let (outcome, c1) = process_commands P fuel c in
      (outcome ≡ returned) × (c1.state ≡ closed) × (file_bytes c1.calls ≡ received_bytes c1.calls)
process_commands_completes P n fuel c w f k ends more st set s a =
    let (back, shut, filed) =
      process_commands_completes_lem P n fuel c w f k ends more st set s a in
    (back, shut, filed.0)
