-- ===== src/Client/Session/Transitions.antt =====
-- The state machine of docs/operational-behavior.md, section 1, against the methods.
use Prim.Native.String.{String}
use vdi_cpp_wrapper.Prelude.{
  ℕ, ℤ, ◌≡◌, ◌≢◌, refl, sym, ap, ◌∙◌, inl, inr, List, [], ◌∷◌, Bool, true, false, arith, Bool-cases,
}
use vdi_cpp_wrapper.World.{Platform}
use vdi_cpp_wrapper.Errors.State.{
  SessionState, init, connected, streaming, closed, failed_state, is_streaming,
}
use vdi_cpp_wrapper.Client.{VdiClient, set_command_timeout}
use vdi_cpp_wrapper.Client.Lifecycle.{connect, open_devices, close}
use vdi_cpp_wrapper.Client.Loop.{Outcome, returned, crashed, out_of_fuel, process_commands}
use vdi_cpp_wrapper.Client.Session.{
  Method, connects, opens, processes, closes, sets_timeout, step, run,
}
use vdi_cpp_wrapper.Client.Session.Processing.{close-Closed, process_commands-refused}
use vdi_cpp_wrapper.Client.Session.Invariant.{Inv, step-Inv, streaming_of}
use vdi_cpp_wrapper.Client.Session.Verdict.{
  Verdict, undecided, made, configured, refused, over, asked, verdict,
}
use vdi_cpp_wrapper.Client.Session.Conclusion.{concluded_state, process_commands-Concluded}

-- Whether the method returns: only the loop of process_commands may not.
abbrev pub is_returned : Outcome → Bool
is_returned returned = true
is_returned crashed = false
is_returned out_of_fuel = false

abbrev pub finishes : Platform → VdiClient → Method → Bool
finishes P c (processes fuel) = is_returned (process_commands P fuel c).0
finishes P c _ = true

-- What connect and open_devices return; the other methods return nothing.
abbrev pub answer : Platform → VdiClient → Method → Bool
answer P c (connects name n) = (connect P c name n).0
answer P c opens = (open_devices P c).0
answer P c _ = true

-- What connect and open_devices should return, from the state `s` before the call and the last
-- answer from the outside after it.
abbrev pub granted : Method → SessionState → Verdict → Bool
granted (connects name n) init made = true
granted (connects name n) _ _ = false
granted opens connected configured = true
granted opens _ _ = false
granted _ _ _ = true

-- The state after the method, from the same; `done` says whether the method returns.
abbrev pub leads : Method → SessionState → Bool → Verdict → SessionState
leads (connects name n) init done made = connected
leads (connects name n) init done _ = failed_state
leads opens connected done configured = streaming
leads opens connected done _ = failed_state
leads (processes fuel) streaming true over = closed
leads (processes fuel) streaming true asked = streaming
leads (processes fuel) streaming true _ = failed_state
leads closes s done v = closed
leads _ s done v = s

abbrev pub Allows : Platform → VdiClient → Method → Type 0
Allows P c m =
    let v = verdict (step P c m).calls in
    ((step P c m).state ≡ leads m c.state (finishes P c m) v) × (answer P c m ≡ granted m c.state v)

not_streaming : (s : SessionState) → s ≢ streaming → is_streaming s ≡ false
not_streaming s h = ground arith

concluded-leads :
    (fuel : ℕ) (outcome : Outcome) (v : Verdict)
    → concluded_state outcome v ≡ leads (processes fuel) streaming (is_returned outcome) v
concluded-leads fuel returned over = refl
concluded-leads fuel returned asked = refl
concluded-leads fuel returned undecided = refl
concluded-leads fuel returned made = refl
concluded-leads fuel returned configured = refl
concluded-leads fuel returned refused = refl
concluded-leads fuel crashed v = refl
concluded-leads fuel out_of_fuel v = refl

leads_unless_streaming :
    (fuel : ℕ) (s : SessionState) (done : Bool) (v : Verdict)
    → is_streaming s ≡ false
    → leads (processes fuel) s done v ≡ s
leads_unless_streaming fuel s done v e = ground arith

processes-Allows : (P : Platform) (fuel : ℕ) (c : VdiClient) → Inv c → Allows P c (processes fuel)
unfolding step
processes-Allows P fuel c v = elim (Bool-cases (is_streaming c.state)) [
  | inr other ↦ (
    ap (λ (q : Outcome × VdiClient). q.1.state) (process_commands-refused P fuel c other)
        ∙ sym (leads_unless_streaming fuel c.state _ _ other),
    refl,
  )
  | inl at_work ↦
      let st : c.state ≡ streaming = streaming_of c.state at_work in
      let q = process_commands P fuel c in
      (
        process_commands-Concluded P _ _ fuel c (record {
          creations = refl;
          releases = refl;
          held = v.in_use st;
          not_closed = v.open_set (v.in_use st);
          reached = st;
        })
            ∙ concluded-leads fuel q.0 (verdict q.1.calls)
            ∙ ap (λ s. leads (processes fuel) s (is_returned q.0) (verdict q.1.calls)) (sym st),
        refl,
      )
]

connects-Allows :
    (P : Platform) (c : VdiClient) (name : String) (n : ℤ) → Allows P c (connects name n)
unfolding step connect verdict
connects-Allows P c name n = ground arith

opens-Allows : (P : Platform) (c : VdiClient) → Inv c → Allows P c opens
unfolding step open_devices verdict
opens-Allows P c v = ground (arith, v.attached)

-- Every method moves the state as a table says. connect acts in INIT only: it returns true and
-- leads to CONNECTED if the last answer of COM, the device set or a device is the success of
-- CreateEx, and returns false and leads to FAILED otherwise. open_devices acts in CONNECTED only,
-- and leads likewise to STREAMING if the last answer is the success of GetConfiguration, and to
-- FAILED otherwise. process_commands acts in STREAMING only: where it returns, it leads to CLOSED
-- if the last answer is VD_E_CLOSE or VD_E_EOF, leaves the session STREAMING if it is the command
-- VDC_Close, and leads to FAILED otherwise; where it does not return, the session is STREAMING. In
-- any other state, these three leave the state alone, and the first two return false. close ends
-- in CLOSED from anywhere, and set_command_timeout leaves the state alone. The client satisfies
-- the invariant of Client/Session/Invariant.
pub step-Allows : (P : Platform) (c : VdiClient) (m : Method) → Inv c → Allows P c m
unfolding step set_command_timeout close
step-Allows P c (connects name n) v = connects-Allows P c name n
step-Allows P c opens v = opens-Allows P c v
step-Allows P c (processes fuel) v = processes-Allows P fuel c v
step-Allows P c closes v = elim (Bool-cases c.devices_closed) [
  | inl shut ↦ ground arith
  | inr opened ↦ ((close-Closed P _ _ c refl refl opened).reached, refl)
]
step-Allows P c (sets_timeout timeout_ms) v = ground arith

-- A closed session stays closed, and no method makes any further call to the outside.
closed_step :
    (P : Platform) (c : VdiClient) (m : Method)
    → Inv c
    → c.state ≡ closed
    → ((step P c m).state ≡ closed) × ((step P c m).calls ≡ c.calls)
unfolding step connect open_devices close set_command_timeout
closed_step P c (connects name n) v e = ground arith
closed_step P c opens v e = ground arith
closed_step P c (processes fuel) v e =
    let same = process_commands-refused P fuel c (not_streaming c.state (λ f. cc (e, f))) in
    (
      ap (λ (q : Outcome × VdiClient). q.1.state) same ∙ e,
      ap (λ (q : Outcome × VdiClient). q.1.calls) same,
    )
closed_step P c closes v e = ground (arith, v.marked e)
closed_step P c (sets_timeout timeout_ms) v e = (e, refl)

closed_run :
    (P : Platform) (c : VdiClient) (ms : List Method)
    → Inv c
    → c.state ≡ closed
    → ((run P c ms).state ≡ closed) × ((run P c ms).calls ≡ c.calls)
unfolding run
closed_run P c [] v e = (e, refl)
closed_run P c (m ∷ ms) v e =
    let (s, t) = closed_step P c m v e in
    let (s', t') = closed_run P (step P c m) ms (step-Inv P c m v) s in (s', t' ∙ t)

-- After `close`, whatever methods are called next, in any number, the session stays CLOSED and
-- makes no further call to the outside: in particular no second release and no second flush. The
-- client satisfies the invariant.
pub run-closed :
    (P : Platform) (c : VdiClient) (ms : List Method)
    → Inv c
    → let d = step P c closes in ((run P d ms).state ≡ closed) × ((run P d ms).calls ≡ d.calls)
run-closed P c ms v =
    closed_run P (step P c closes) ms (step-Inv P c closes v) (step-Allows P c closes v).0
