-- ===== src/Client/Session/Parts.antt =====
-- process_commands in its parts, for a property that holds in one form before the loop, in another
-- in the loop, and in a third at the end.
use vdi_cpp_wrapper.Prelude.{
  ℕ, zero, suc, ◌+◌, ◌≡◌, List, [], ◌∷◌, ◌++◌, Bool, true, false, arith, not, if◌then◌else◌,
  if_elim,
}
use vdi_cpp_wrapper.Protocol.{failed}
use vdi_cpp_wrapper.World.{Platform, open_device, release_device}
use vdi_cpp_wrapper.Errors.State.{is_streaming, is_flushing}
use vdi_cpp_wrapper.Client.{VdiClient, fail}
use vdi_cpp_wrapper.Client.Lifecycle.{close}
use vdi_cpp_wrapper.Client.Chunk.{Flow, next, stop, crash}
use vdi_cpp_wrapper.Client.Loop.{
  Outcome, returned, crashed, out_of_fuel, open_all, dev_count, run_loop, release_all, finish,
  start_session, serve, process_commands,
}
use vdi_cpp_wrapper.Client.Rules.{flow_of}

-- `Ready` holds before the loop, `R flow` where a part of the loop has ended by `flow`, and
-- `Ended` at the end.
pub record Parts (P : Platform) (Ready : VdiClient → Type 0) (R : Flow → VdiClient → Type 0)
    (Ended : VdiClient → Type 0) : Type 0 where
  pub on_open :
      (c : VdiClient) (i hr : ℕ)
      → failed hr ≡ false
      → Ready c
      → Ready (record c { calls = open_device i hr ∷ c.calls })
  pub on_unopened :
      (c : VdiClient) (i hr : ℕ)
      → failed hr ≡ true
      → Ready c
      → Ended (fail (record c { calls = open_device i hr ∷ c.calls }))
  pub on_start : (c : VdiClient) → Ready c → R next (start_session P c).1
  pub on_loop :
      (fuel start : ℕ) (devices : List ℕ) (c : VdiClient)
      → R next c
      → R (flow_of (run_loop P fuel start devices c).0) (run_loop P fuel start devices c).1
  pub on_returned : (c : VdiClient) → R stop c → Ended c
  pub on_crashed : (c : VdiClient) → R crash c → Ended c
  pub on_out_of_fuel : (c : VdiClient) → R next c → Ended c
  pub on_release :
      (c : VdiClient) (device : ℕ)
      → Ended c
      → Ended (record c { calls = release_device device ∷ c.calls })
  pub on_close : (c : VdiClient) → is_flushing c.state ≡ true → Ended c → Ended (close P c)

module _ (P : Platform) (Ready : VdiClient → Type 0) (R : Flow → VdiClient → Type 0)
    (Ended : VdiClient → Type 0) (L : Parts P Ready R Ended) where
  abbrev Ends : Outcome × VdiClient → Type 0
  Ends q = Ended q.1

  abbrev Opens : Bool × List ℕ × VdiClient → Type 0
  Opens (true, devices, c) = Ready c
  Opens (false, devices, c) = Ended c

  open_all_rule :
      (n i : ℕ) (devices : List ℕ) (c : VdiClient) → Ready c → Opens (open_all P n i devices c)
  unfolding open_all
  open_all_rule zero i devices c h = h
  open_all_rule (suc n) i devices c h =
      let hr = P.on_open_device c.calls i in
      let c1 = record c { calls = open_device i hr ∷ c.calls } in
      if_elim Opens (failed hr) (λ e. L.on_unopened c i hr e h)
        (λ e. open_all_rule n (i + 1) (devices ++ i ∷ []) c1 (L.on_open c i hr e h))

  release_all_rule : (devices : List ℕ) (c : VdiClient) → Ended c → Ended (release_all devices c)
  unfolding release_all
  release_all_rule [] c h = h
  release_all_rule (device ∷ devices) c h = release_all_rule devices _ (L.on_release c device h)

  finish_rule : (devices : List ℕ) (c : VdiClient) → Ended c → Ended (finish P devices c)
  unfolding finish
  finish_rule devices c h =
      let c1 = release_all devices c in
      let h1 = release_all_rule devices c h in
      if_elim Ended (is_flushing c1.state) (λ e. L.on_close c1 e h1) (λ _. h1)

  serve_rule :
      (fuel : ℕ) (devices : List ℕ) (c : VdiClient) → Ready c → Ends (serve P fuel devices c)
  unfolding serve
  serve_rule fuel devices c h =
      let (start, c1) = start_session P c in
      let (outcome, c2) = run_loop P fuel start devices c1 in
      ended outcome c2 (L.on_loop fuel start devices c1 (L.on_start c h))
    where
      ended :
          (outcome : Outcome) (c2 : VdiClient)
          → R (flow_of outcome) c2
          → Ends (elim outcome [
            | returned ↦ (returned, finish P devices c2)
            | crashed ↦ (crashed, c2)
            | out_of_fuel ↦ (out_of_fuel, c2)
          ])
      ended returned c2 d = finish_rule devices c2 (L.on_returned c2 d)
      ended crashed c2 d = L.on_crashed c2 d
      ended out_of_fuel c2 d = L.on_out_of_fuel c2 d

  opened_rule :
      (fuel : ℕ) (q : Bool × List ℕ × VdiClient)
      → Opens q
      → Ends (if not q.0 then (returned, q.2) else serve P fuel q.1 q.2)
  opened_rule fuel (true, devices, c) h = serve_rule fuel devices c h
  opened_rule fuel (false, devices, c) h = h

  -- Where the state or the device set is not right, nothing happens.
  pub process_parts_rule :
      (fuel : ℕ) (c : VdiClient)
      → Ended c
      → (is_streaming c.state ≡ true → c.device_set ≡ true → Ready c)
      → Ended (process_commands P fuel c).1
  unfolding process_commands
  process_parts_rule fuel c idle ready =
      if_elim Ends (not (is_streaming c.state)) (λ _. idle)
        (λ e.
          if_elim Ends (not c.device_set) (λ _. idle)
            (λ f. opened_rule fuel (open_all P (dev_count c.device_count) 0 [] c) (
              open_all_rule (dev_count c.device_count) 0 [] c
                (ready (ground arith) (ground arith)))))
