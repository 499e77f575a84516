-- ===== src/Client/Session/Conclusion.antt =====
-- The state in which process_commands of src/vdi_client.cpp leaves a session that is streaming, by
-- what the server or a device has answered last.
use vdi_cpp_wrapper.Prelude.{
  ℕ, zero, suc, ◌+◌, ℤ, pos, negsuc, ◌≡◌, ◌≢◌, refl, sym, ap, ◌∙◌, List, [], ◌∷◌, ◌++◌, Bool, true,
  false, arith, not, if◌then◌else◌, if_elim,
}
use vdi_cpp_wrapper.Protocol.{failed}
use vdi_cpp_wrapper.World.{Platform}
use vdi_cpp_wrapper.Errors.State.{
  SessionState, streaming, closed, failed_state, is_streaming, is_flushing,
}
use vdi_cpp_wrapper.Client.{VdiClient}
use vdi_cpp_wrapper.Client.Lifecycle.{close}
use vdi_cpp_wrapper.Client.Chunk.{next, stop}
use vdi_cpp_wrapper.Client.Loop.{
  Outcome, returned, crashed, out_of_fuel, open_all, dev_count, release_all, finish, start_session,
  serve, run_loop, process_commands,
}
use vdi_cpp_wrapper.Client.Rules.{flow_of, run_loop_rule}
use vdi_cpp_wrapper.Client.Calls.{flush_sink_rule}
use vdi_cpp_wrapper.Client.Session.Loop.{Serving, Staged, Serving-Stages}
use vdi_cpp_wrapper.Client.Session.Processing.{
  close-Closed, release_all-Serving, start_session-Serving, open_all-Begun, Begun,
}
use vdi_cpp_wrapper.Client.Session.Verdict.{
  Verdict, undecided, made, configured, refused, over, asked, verdict, verdict-IsQuiet,
  stopped_state, Undecided, Judged, Handling, Answered, Judged-Stages,
}

-- The state after process_commands: closed where the server has reported the end, still streaming
-- after VDC_Close, and failed otherwise.
abbrev pub ended_state : Verdict → SessionState
ended_state over = closed
ended_state asked = streaming
ended_state _ = failed_state

-- The same for each outcome; where process_commands does not return, the session is streaming.
abbrev pub concluded_state : Outcome → Verdict → SessionState
concluded_state returned v = ended_state v
concluded_state crashed v = streaming
concluded_state out_of_fuel v = streaming

abbrev pub Concluded : Outcome × VdiClient → Type 0
Concluded q = q.1.state ≡ concluded_state q.0 (verdict q.1.calls)

verdict-release_all :
    (devices : List ℕ) (c : VdiClient)
    → (verdict (release_all devices c).calls ≡ verdict c.calls)
      × ((release_all devices c).state ≡ c.state)
unfolding release_all verdict
verdict-release_all [] c = (refl, refl)
verdict-release_all (device ∷ devices) c = verdict-release_all devices _

pub verdict-close : (P : Platform) (c : VdiClient) → verdict (close P c).calls ≡ verdict c.calls
unfolding close verdict
verdict-close P c = ground (
  arith,
  flush_sink_rule P (λ t. verdict t ≡ verdict c.calls) (verdict-IsQuiet P (verdict c.calls)) c refl,
)

flushing_over :
    (s : SessionState) (v : Verdict) → s ≡ stopped_state v → is_flushing s ≡ true → v ≡ over
flushing_over s over e f = refl
flushing_over s asked e f = ground arith
flushing_over s undecided e f = ground arith
flushing_over s made e f = ground arith
flushing_over s configured e f = ground arith
flushing_over s refused e f = ground arith

settled :
    (s : SessionState) (v : Verdict)
    → s ≡ stopped_state v
    → is_flushing s ≡ false
    → s ≡ ended_state v
settled s over e f = ground arith
settled s asked e f = e
settled s undecided e f = e
settled s made e f = e
settled s configured e f = e
settled s refused e f = e

finish-Concluded :
    (P : Platform) (n m : ℕ) (devices : List ℕ) (c : VdiClient)
    → Serving n m stop c
    → Judged stop c
    → Concluded (returned, finish P devices c)
unfolding finish
finish-Concluded P n m devices c h j =
    let c1 = release_all devices c in
    let (v, s) = verdict-release_all devices c in
    let j1 : c1.state ≡ stopped_state (verdict c1.calls) = s ∙ j ∙ sym (ap stopped_state v) in
    let h1 = release_all-Serving n m devices c h in
    if_elim (λ d. Concluded (returned, d)) (is_flushing c1.state)
      (λ f.
        (close-Closed P n m c1 h1.creations h1.releases h1.not_closed).reached
        ∙ sym (ap ended_state (verdict-close P c1 ∙ flushing_over c1.state _ j1 f)))
      (λ f. settled c1.state _ j1 f)

start_session-Undecided :
    (P : Platform) (c : VdiClient) → Undecided c → Undecided (start_session P c).1
unfolding start_session verdict
start_session-Undecided P c u = u

serve-Concluded :
    (P : Platform) (n m fuel : ℕ) (devices : List ℕ) (c : VdiClient)
    → Serving n m next c
    → Undecided c
    → Concluded (serve P fuel devices c)
unfolding serve
serve-Concluded P n m fuel devices c h u =
    let (start, c1) = start_session P c in
    let (outcome, c2) = run_loop P fuel start devices c1 in
    ended outcome c2
      (run_loop_rule P (Serving n m) (Staged n m) (Staged n m) (λ hr. Staged n m)
        (Serving-Stages P n m) fuel start devices c1 (start_session-Serving P n m c h))
      (run_loop_rule P Judged Handling Handling Answered (Judged-Stages P) fuel start devices c1
        (start_session-Undecided P c u))
  where
    ended :
        (outcome : Outcome) (c2 : VdiClient)
        → Serving n m (flow_of outcome) c2
        → Judged (flow_of outcome) c2
        → Concluded (elim outcome [
          | returned ↦ (returned, finish P devices c2)
          | crashed ↦ (crashed, c2)
          | out_of_fuel ↦ (out_of_fuel, c2)
        ])
    ended returned c2 d j = finish-Concluded P n m devices c2 d j
    ended crashed c2 d j = j.0
    ended out_of_fuel c2 d j = j.0

-- Opening the devices: the last answer is a failure, and the session has failed, or nothing else
-- than the devices' successes has been heard.
abbrev Opened : Bool × List ℕ × VdiClient → Type 0
Opened (true, devices, c) = Undecided c
Opened (false, devices, c) = (c.state ≡ failed_state) × (verdict c.calls ≡ refused)

open_all-Opened :
    (P : Platform) (k i : ℕ) (devices : List ℕ) (c : VdiClient)
    → c.state ≡ streaming
    → (k ≡ 0 → verdict c.calls ≡ undecided)
    → Opened (open_all P k i devices c)
unfolding open_all verdict
open_all-Opened P zero i devices c s v = (s, v refl)
open_all-Opened P (suc k) i devices c s v =
    if_elim Opened (failed (P.on_open_device c.calls i)) (λ e. (refl, rw e refl))
      (λ e. open_all-Opened P k (i + 1) (devices ++ i ∷ []) _ s (λ _. rw e refl))

dev_count_pos : (n : ℤ) → dev_count n ≢ 0
unfolding dev_count
dev_count_pos (pos zero) = ground arith
dev_count_pos (pos (suc n)) = ground arith
dev_count_pos (negsuc n) = ground arith

-- process_commands of a session that is streaming and holds its device set.
pub process_commands-Concluded :
    (P : Platform) (n m fuel : ℕ) (c : VdiClient)
    → Serving n m next c
    → Concluded (process_commands P fuel c)
unfolding process_commands
process_commands-Concluded P n m fuel c h =
    if_elim Concluded (not (is_streaming c.state)) (λ e. absurd (not_idle c.state h.reached e))
      (λ _.
        if_elim Concluded (not c.device_set) (λ e. absurd (no_set c.device_set h.held e))
          (λ _.
            opened (open_all P (dev_count c.device_count) 0 [] c)
              (open_all-Begun P n m (dev_count c.device_count) 0 [] c h)
              (open_all-Opened P (dev_count c.device_count) 0 [] c h.reached
                (λ z. absurd (dev_count_pos c.device_count z)))))
  where
    not_idle : (s : SessionState) → s ≡ streaming → not (is_streaming s) ≢ true
    not_idle s e = ground arith

    no_set : (b : Bool) → b ≡ true → not b ≢ true
    no_set b e = ground arith

    opened :
        (q : Bool × List ℕ × VdiClient)
        → Begun n m q
        → Opened q
        → Concluded (if not q.0 then (returned, q.2) else serve P fuel q.1 q.2)
    opened (true, devices, c1) b o = serve-Concluded P n m fuel devices c1 b o
    opened (false, devices, c1) b o = o.0 ∙ sym (ap ended_state o.1)
