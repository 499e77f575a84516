-- ===== src/Client/Backup/Session.antt =====
-- The backup of a whole session.
use vdi_cpp_wrapper.Prelude.{
  ℕ, zero, suc, ◌+◌, ◌≡◌, ◌≢◌, refl, List, [], ◌∷◌, ◌++◌, Bool, true, false, not, arith,
  if◌then◌else◌, ◌||◌, if_elim,
}
use vdi_cpp_wrapper.Protocol.{failed}
use vdi_cpp_wrapper.World.{Platform}
use vdi_cpp_wrapper.Sink.Bytes.{file_bytes, WritesAll}
use vdi_cpp_wrapper.Errors.State.{
  SessionState, streaming, flushing, closed, failed_state, is_streaming, is_flushing,
}
use vdi_cpp_wrapper.Client.{VdiClient}
use vdi_cpp_wrapper.Client.Lifecycle.{release_device_set, close}
use vdi_cpp_wrapper.Client.Chunk.{next, stop}
use vdi_cpp_wrapper.Client.Loop.{
  Outcome, returned, crashed, out_of_fuel, open_all, release_all, finish, start_session, serve,
  process_commands, run_loop, dev_count,
}
use vdi_cpp_wrapper.Client.Rules.{flow_of, run_loop_rule}
use vdi_cpp_wrapper.Client.Backup.{received_bytes, Accepts, SendsWellFormed, Delivered}
use vdi_cpp_wrapper.Client.Backup.Storing.{Pending, Settled, flush_sink-Delivered}
use vdi_cpp_wrapper.Client.Backup.Steps.{Delivered-Stages}

-- The opening of the devices leaves the sink in step, or fails.
abbrev Opened : Bool × List ℕ × VdiClient → Type 0
Opened (true, devices, c) = Delivered next c
Opened (false, devices, c) = c.state ≡ failed_state

open_all-Opened :
    (P : Platform) (n i : ℕ) (devices : List ℕ) (c : VdiClient)
    → Delivered next c
    → Opened (open_all P n i devices c)
unfolding open_all file_bytes received_bytes
open_all-Opened P zero i devices c h = h
open_all-Opened P (suc n) i devices c h =
    if_elim Opened (failed (P.on_open_device c.calls i)) (λ _. refl)
      (λ _. open_all-Opened P n (i + 1) (devices ++ i ∷ []) _ h)

release_all-Delivered :
    (devices : List ℕ) (c : VdiClient) → Delivered stop c → Delivered stop (release_all devices c)
unfolding release_all file_bytes received_bytes
release_all-Delivered [] c h = h
release_all-Delivered (device ∷ devices) c h = release_all-Delivered devices _ h

-- The file holds all that was received, and the sink has accepted it.
abbrev pub AllFiled : VdiClient → Type 0
AllFiled c = (file_bytes c.calls ≡ received_bytes c.calls) × Accepts c (received_bytes c.calls)

-- What a session owes where it ends.
abbrev IsComplete : VdiClient → Type 0
IsComplete c = c.state ≡ closed → AllFiled c

abbrev Owes : Outcome × VdiClient → Type 0
Owes (outcome, c) = (outcome ≢ crashed) × IsComplete c

release_device_set-AllFiled : (c : VdiClient) → AllFiled c → AllFiled (release_device_set c)
unfolding release_device_set file_bytes received_bytes
release_device_set-AllFiled c h = if_elim AllFiled c.device_set (λ _. h) (λ _. h)

is_flushing_of : (s : SessionState) → s ≡ flushing → (is_streaming s || is_flushing s) ≡ true
is_flushing_of s e = rw e

flushing_of : (s : SessionState) → is_flushing s ≡ true → s ≡ flushing
flushing_of s e = ground arith

close-IsComplete :
    (P : Platform) (c : VdiClient)
    → WritesAll P
    → c.state ≡ flushing
    → Accepts c (received_bytes c.calls)
    → IsComplete (close P c)
unfolding close
close-IsComplete P c w st a =
    if_elim IsComplete c.devices_closed (λ _ e. cc (st, e))
      (λ _ _. release_device_set-AllFiled _ (
        if_elim AllFiled (is_streaming c.state || is_flushing c.state)
          (λ _. let (d, e) = flush_sink-Delivered P c w a in (e, d))
          (λ e. cc (is_flushing_of c.state st, e))))

-- The release of the devices and the post-loop cleanup complete a session that is to be closed.
finish-IsComplete :
    (P : Platform) (devices : List ℕ) (c : VdiClient)
    → WritesAll P
    → Delivered stop c
    → IsComplete (finish P devices c)
unfolding finish
finish-IsComplete P devices c w d =
    let c1 = release_all devices c in
    let d1 = release_all-Delivered devices c d in
    if_elim IsComplete (is_flushing c1.state)
      (λ e. let st = flushing_of c1.state e in close-IsComplete P c1 w st (d1.0 st))
      (λ e s. absurd (d1.1 s))

start_session-Delivered :
    (P : Platform) (c : VdiClient) → Delivered next c → Delivered next (start_session P c).1
unfolding start_session file_bytes received_bytes
start_session-Delivered P c h = h

serve-Owes :
    (P : Platform) (fuel : ℕ) (devices : List ℕ) (c : VdiClient)
    → WritesAll P
    → SendsWellFormed P
    → Delivered next c
    → Owes (serve P fuel devices c)
unfolding serve
serve-Owes P fuel devices c w f h =
    let (start, c1) = start_session P c in
    let (outcome, c2) = run_loop P fuel start devices c1 in
    ended outcome c2 (
      run_loop_rule P Delivered Pending Settled (λ hr. Settled) (Delivered-Stages P w f) fuel start
        devices c1 (start_session-Delivered P c h))
  where
    ended :
        (outcome : Outcome) (c2 : VdiClient)
        → Delivered (flow_of outcome) c2
        → Owes (elim outcome [
          | returned ↦ (returned, finish P devices c2)
          | crashed ↦ (crashed, c2)
          | out_of_fuel ↦ (out_of_fuel, c2)
        ])
    ended returned c2 d = ((λ e. cc e), finish-IsComplete P devices c2 w d)
    ended crashed c2 d = absurd d
    ended out_of_fuel c2 d = ((λ e. cc e), (λ s. cc (s, d.0)))

pub process_commands-AllFiled :
    (P : Platform) (fuel : ℕ) (c : VdiClient)
    → WritesAll P
    → SendsWellFormed P
    → c.state ≡ streaming
    → Accepts c (received_bytes c.calls)
    → let (outcome, c1) = process_commands P fuel c in
      (outcome ≢ crashed) × (c1.state ≡ closed → AllFiled c1)
unfolding process_commands
process_commands-AllFiled P fuel c w f st a =
    if_elim Owes (not (is_streaming c.state)) (λ _. ((λ e. cc e), (λ s. cc (s, st))))
      (λ _.
        if_elim Owes (not c.device_set) (λ _. ((λ e. cc e), (λ s. cc (s, st))))
          (λ _.
            opened (open_all P (dev_count c.device_count) 0 [] c)
              (open_all-Opened P (dev_count c.device_count) 0 [] c (st, a))))
  where
    opened :
        (q : Bool × List ℕ × VdiClient)
        → Opened q
        → Owes (if not q.0 then (returned, q.2) else serve P fuel q.1 q.2)
    opened (true, devices, c1) h = serve-Owes P fuel devices c1 w f h
    opened (false, devices, c1) h = ((λ e. cc e), (λ s. cc (s, h)))

-- On a disk where every WriteFile writes all that it is given, and with a server whose commands
-- have a DWORD size and a buffer of at least that size: process_commands, called while streaming
-- with an open file sink whose buffer is allocated and which has accepted all the data sent so
-- far, never dereferences a null sink; and if it leaves the session closed, the bytes in the file
-- are exactly the data of all the VDC_Write commands that the server has sent, in order.
pub process_commands-backup :
    (P : Platform) (fuel : ℕ) (c : VdiClient)
    → WritesAll P
    → SendsWellFormed P
    → c.state ≡ streaming
    → Accepts c (received_bytes c.calls)
    → let (outcome, c1) = process_commands P fuel c in
      (outcome ≢ crashed) × (c1.state ≡ closed → file_bytes c1.calls ≡ received_bytes c1.calls)
process_commands-backup P fuel c w f st a =
    let (safe, filed) = process_commands-AllFiled P fuel c w f st a in (safe, λ e. (filed e).0)
