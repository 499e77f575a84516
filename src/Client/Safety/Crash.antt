-- ===== src/Client/Safety/Crash.antt =====
-- src/vdi_client.cpp: the null sink that the write stage dereferences, and when it does.
use vdi_cpp_wrapper.Prelude.{
  ℕ, zero, suc, ◌+◌, ◌≡◌, ◌≢◌, ◌↔◌, refl, sym, ◌∙◌, List, [], ◌∷◌, ◌++◌, none, Bool, true, false,
  arith, not, if◌then◌else◌, if_elim, Option-cases, inl, inr,
}
use vdi_cpp_wrapper.Protocol.{failed}
use vdi_cpp_wrapper.World.{Platform}
use vdi_cpp_wrapper.Errors.State.{is_streaming, is_flushing}
use vdi_cpp_wrapper.Client.{VdiClient}
use vdi_cpp_wrapper.Client.Lifecycle.{close}
use vdi_cpp_wrapper.Client.Loop.{
  Outcome, returned, crashed, out_of_fuel, open_all, dev_count, run_loop, release_all, finish,
  start_session, serve, process_commands,
}
use vdi_cpp_wrapper.Client.Rules.{flow_of, run_loop_rule}
use vdi_cpp_wrapper.Client.Calls.{flush_sink_rule}
use vdi_cpp_wrapper.Client.Safety.{process_commands_runs}
use vdi_cpp_wrapper.Client.Safety.Writes.{
  valid_writes, valid_writes-IsQuiet, Sinkless, Crashes, Sent, Past, Crashes-Stages,
}

abbrev pub is_crashed : Outcome → Bool
is_crashed returned = false
is_crashed crashed = true
is_crashed out_of_fuel = false

-- One more valid command where process_commands crashes, and none else.
abbrev Counted : ℕ → Outcome × VdiClient → Type 0
Counted n q = valid_writes q.1.calls ≡ n + (if is_crashed q.0 then 1 else 0)

valid_writes-release_all :
    (devices : List ℕ) (c : VdiClient)
    → valid_writes (release_all devices c).calls ≡ valid_writes c.calls
unfolding release_all valid_writes
valid_writes-release_all [] c = refl
valid_writes-release_all (device ∷ devices) c = valid_writes-release_all devices _

valid_writes-close :
    (P : Platform) (c : VdiClient) → valid_writes (close P c).calls ≡ valid_writes c.calls
unfolding close valid_writes
valid_writes-close P c = ground (
  arith,
  flush_sink_rule P (λ t. valid_writes t ≡ valid_writes c.calls)
      (valid_writes-IsQuiet P (valid_writes c.calls)) c refl,
)

valid_writes-finish :
    (P : Platform) (devices : List ℕ) (c : VdiClient)
    → valid_writes (finish P devices c).calls ≡ valid_writes c.calls
unfolding finish
valid_writes-finish P devices c =
    let c1 = release_all devices c in
    let e = valid_writes-release_all devices c in
    if_elim (λ (d : VdiClient). valid_writes d.calls ≡ valid_writes c.calls) (is_flushing c1.state)
      (λ _. valid_writes-close P c1 ∙ e) (λ _. e)

start_session-Sinkless :
    (P : Platform) (n : ℕ) (c : VdiClient) → Sinkless n c → Sinkless n (start_session P c).1
unfolding start_session valid_writes
start_session-Sinkless P n c h = h

serve-Counted :
    (P : Platform) (n fuel : ℕ) (devices : List ℕ) (c : VdiClient)
    → Sinkless n c
    → Counted n (serve P fuel devices c)
unfolding serve
serve-Counted P n fuel devices c h =
    let (start, c1) = start_session P c in
    let (outcome, c2) = run_loop P fuel start devices c1 in
    ended outcome c2 (
      run_loop_rule P (Crashes n) (Sent n) (Past n) (λ hr. Past n) (Crashes-Stages P n) fuel start
        devices c1 (start_session-Sinkless P n c h))
  where
    ended :
        (outcome : Outcome) (c2 : VdiClient)
        → Crashes n (flow_of outcome) c2
        → Counted n (elim outcome [
          | returned ↦ (returned, finish P devices c2)
          | crashed ↦ (crashed, c2)
          | out_of_fuel ↦ (out_of_fuel, c2)
        ])
    ended returned c2 d = valid_writes-finish P devices c2 ∙ d.1 ∙ omega arith
    ended crashed c2 d = d.1
    ended out_of_fuel c2 d = d.1 ∙ omega arith

open_all-Sinkless :
    (P : Platform) (n k i : ℕ) (devices : List ℕ) (c : VdiClient)
    → Sinkless n c
    → Sinkless n (open_all P k i devices c).2
unfolding open_all valid_writes
open_all-Sinkless P n zero i devices c h = h
open_all-Sinkless P n (suc k) i devices c h =
    if_elim (λ (q : Bool × List ℕ × VdiClient). Sinkless n q.2)
      (failed (P.on_open_device c.calls i)) (λ _. h)
      (λ _. open_all-Sinkless P n k (i + 1) (devices ++ i ∷ []) _ h)

idle : (n : ℕ) (c : VdiClient) → Sinkless n c → Counted n (returned, c)
idle n c h = h.1 ∙ omega arith

process_commands-Counted :
    (P : Platform) (n fuel : ℕ) (c : VdiClient)
    → Sinkless n c
    → Counted n (process_commands P fuel c)
unfolding process_commands
process_commands-Counted P n fuel c h =
    let q = open_all P (dev_count c.device_count) 0 [] c in
    let h1 = open_all-Sinkless P n (dev_count c.device_count) 0 [] c h in
    if_elim (Counted n) (not (is_streaming c.state)) (λ _. idle n c h)
      (λ _.
        if_elim (Counted n) (not c.device_set) (λ _. idle n c h)
          (λ _.
            if_elim (Counted n) (not q.0) (λ _. idle n q.2 h1)
              (λ _. serve-Counted P n fuel q.1 q.2 h1)))

crash_of :
    (outcome : Outcome) (n k : ℕ)
    → k ≡ n + (if is_crashed outcome then 1 else 0)
    → (outcome ≡ crashed) ↔ (k ≢ n)
crash_of returned n k e = (λ f. cc f, λ g. absurd (g (omega arith)))
crash_of crashed n k e = (λ f. omega arith, λ g. refl)
crash_of out_of_fuel n k e = (λ f. cc f, λ g. absurd (g (omega arith)))

-- process_commands dereferences the null sink exactly when the session has no sink and the server
-- sends, while it runs, a VDC_Write whose fields are valid; whatever the disk and the clock do,
-- and for every amount of fuel.
pub process_commands_crashes :
    (P : Platform) (fuel : ℕ) (c : VdiClient)
    → let (outcome, d) = process_commands P fuel c in
      (outcome ≡ crashed) ↔ ((c.sink ≡ none) × (valid_writes d.calls ≢ valid_writes c.calls))
process_commands_crashes P fuel c = elim (Option-cases c.sink) [
  | inl e ↦
      let q = process_commands P fuel c in
      let (there, back) =
        crash_of q.0 (valid_writes c.calls) (valid_writes q.1.calls)
          (process_commands-Counted P (valid_writes c.calls) fuel c (e, refl)) in
      (λ f. (e, there f), λ g. back g.1)
  | inr (k, e) ↦ (
    λ f. absurd (process_commands_runs P fuel c (λ n. cc (sym e ∙ n)) f),
    λ g. absurd (cc (sym e ∙ g.0)),
  )
]
