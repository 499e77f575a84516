-- ===== src/Client/Session/Processing.antt =====
-- process_commands as a whole: the state, the device set and the closing flag that it leaves.
use vdi_cpp_wrapper.Prelude.{
  ℕ, zero, suc, ◌+◌, ◌≡◌, refl, subst, ◌⊎◌, inl, inr, List, [], ◌∷◌, ◌++◌, Bool, true, false, arith,
  not, if◌then◌else◌, if_elim,
}
use vdi_cpp_wrapper.Protocol.{failed}
use vdi_cpp_wrapper.World.{Platform}
use vdi_cpp_wrapper.Errors.State.{
  streaming, closed, flushing, failed_state, SessionState, is_streaming, is_flushing,
}
use vdi_cpp_wrapper.Client.{VdiClient}
use vdi_cpp_wrapper.Client.Lifecycle.{close, flush_sink}
use vdi_cpp_wrapper.Client.Chunk.{Flow, next, stop, crash}
use vdi_cpp_wrapper.Client.Loop.{
  Outcome, returned, crashed, out_of_fuel, open_all, dev_count, release_all, finish, start_session,
  serve, run_loop, process_commands,
}
use vdi_cpp_wrapper.Client.Rules.{flow_of, run_loop_rule}
use vdi_cpp_wrapper.Client.Calls.{flush_sink_rule}
use vdi_cpp_wrapper.Client.Session.Loop.{
  created, released, Serving, Staged, Serving-Stages, Quietly, Quietly-IsQuiet, flush_sink-Fields,
}

-- After `close` of an open session, which has created `n` device sets and released `m`.
pub record Closed (n m : ℕ) (c : VdiClient) : Type 0 where
  pub creations : created c.calls ≡ n
  pub releases : released c.calls ≡ m
  pub dropped : c.device_set ≡ false
  pub is_closed : c.devices_closed ≡ true
  pub reached : c.state ≡ closed

-- The session still holds its device set and is streaming or has failed, or it is closed and has
-- released the set.
abbrev pub Processed : ℕ → ℕ → VdiClient → Type 0
Processed n m c =
    (Serving n m stop c × ((c.state ≡ streaming) ⊎ (c.state ≡ failed_state))) ⊎ Closed n (suc m) c

abbrev OfEnd : ℕ → ℕ → Outcome × VdiClient → Type 0
OfEnd n m q = Processed n m q.1

flushed_calls :
    (P : Platform) (n m : ℕ) (c : VdiClient)
    → Quietly n m c.calls
    → Quietly n m (flush_sink P c).calls
flushed_calls P n m c h = flush_sink_rule P (Quietly n m) (Quietly-IsQuiet P n m) c h

-- Closing a session that is not closed drops its device set, if it has one, with one release.
pub close-Closed :
    (P : Platform) (n m : ℕ) (c : VdiClient)
    → created c.calls ≡ n
    → released c.calls ≡ m
    → c.devices_closed ≡ false
    → Closed n (if c.device_set then suc m else m) (close P c)
unfolding close created released
close-Closed P n m c h k o = ground (arith, flushed_calls P n m c (h, k), flush_sink-Fields P c)

pub release_all-Serving :
    (n m : ℕ) (devices : List ℕ) (c : VdiClient)
    → Serving n m stop c
    → Serving n m stop (release_all devices c)
unfolding release_all created released
release_all-Serving n m [] c h = h
release_all-Serving n m (device ∷ devices) c h = release_all-Serving n m devices _ (record {
  creations = h.creations;
  releases = h.releases;
  held = h.held;
  not_closed = h.not_closed;
  reached = h.reached;
})

not_flushing :
    (s : SessionState)
    → is_flushing s ≡ false
    → (s ≡ streaming) ⊎ ((s ≡ flushing) ⊎ (s ≡ failed_state))
    → (s ≡ streaming) ⊎ (s ≡ failed_state)
not_flushing s e r = ground arith

finish-Processed :
    (P : Platform) (n m : ℕ) (devices : List ℕ) (c : VdiClient)
    → Serving n m stop c
    → Processed n m (finish P devices c)
unfolding finish
finish-Processed P n m devices c h =
    let c1 = release_all devices c in
    let s = release_all-Serving n m devices c h in
    let shut = close-Closed P n m c1 s.creations s.releases s.not_closed in
    if_elim (Processed n m) (is_flushing c1.state)
      (λ _. inr (subst (λ b. Closed n (if b then suc m else m) (close P c1)) s.held shut))
      (λ e. inl (s, not_flushing c1.state e s.reached))

pub start_session-Serving :
    (P : Platform) (n m : ℕ) (c : VdiClient)
    → Serving n m next c
    → Serving n m next (start_session P c).1
unfolding start_session created released
start_session-Serving P n m c h = ground arith

streaming_ends :
    (n m : ℕ) (flow : Flow) (c : VdiClient)
    → Serving n m flow c
    → c.state ≡ streaming
    → Processed n m c
streaming_ends n m flow c h e = inl (
  record {
    creations = h.creations;
    releases = h.releases;
    held = h.held;
    not_closed = h.not_closed;
    reached = inl e;
  },
  inl e,
)

serve-Processed :
    (P : Platform) (n m fuel : ℕ) (devices : List ℕ) (c : VdiClient)
    → Serving n m next c
    → Processed n m (serve P fuel devices c).1
unfolding serve
serve-Processed P n m fuel devices c h =
    let (start, c1) = start_session P c in
    let (outcome, c2) = run_loop P fuel start devices c1 in
    ended outcome c2 (
      run_loop_rule P (Serving n m) (Staged n m) (Staged n m) (λ hr. Staged n m)
        (Serving-Stages P n m) fuel start devices c1 (start_session-Serving P n m c h))
  where
    ended :
        (outcome : Outcome) (c2 : VdiClient)
        → Serving n m (flow_of outcome) c2
        → OfEnd n m (elim outcome [
          | returned ↦ (returned, finish P devices c2)
          | crashed ↦ (crashed, c2)
          | out_of_fuel ↦ (out_of_fuel, c2)
        ])
    ended returned c2 d = finish-Processed P n m devices c2 d
    ended crashed c2 d = streaming_ends n m crash c2 d d.reached
    ended out_of_fuel c2 d = streaming_ends n m next c2 d d.reached

-- Opening the devices either goes well or fails the session, which then still holds its set.
abbrev pub Begun : ℕ → ℕ → Bool × List ℕ × VdiClient → Type 0
Begun n m (true, devices, c) = Serving n m next c
Begun n m (false, devices, c) = Serving n m stop c × (c.state ≡ failed_state)

pub open_all-Begun :
    (P : Platform) (n m k i : ℕ) (devices : List ℕ) (c : VdiClient)
    → Serving n m next c
    → Begun n m (open_all P k i devices c)
unfolding open_all created released
open_all-Begun P n m zero i devices c h = h
open_all-Begun P n m (suc k) i devices c h =
    if_elim (Begun n m) (failed (P.on_open_device c.calls i))
      (λ _. (
        record {
          creations = h.creations;
          releases = h.releases;
          held = h.held;
          not_closed = h.not_closed;
          reached = inr (inr refl);
        },
        refl,
      ))
      (λ _. open_all-Begun P n m k (i + 1) (devices ++ i ∷ []) _ (record {
        creations = h.creations;
        releases = h.releases;
        held = h.held;
        not_closed = h.not_closed;
        reached = h.reached;
      }))

-- process_commands of a session that is streaming and holds its device set.
pub process_commands-Processed :
    (P : Platform) (n m fuel : ℕ) (c : VdiClient)
    → Serving n m next c
    → Processed n m (process_commands P fuel c).1
unfolding process_commands
process_commands-Processed P n m fuel c h =
    if_elim (OfEnd n m) (not (is_streaming c.state)) (λ _. streaming_ends n m next c h h.reached)
      (λ _.
        if_elim (OfEnd n m) (not c.device_set) (λ _. streaming_ends n m next c h h.reached)
          (λ _.
            opened (open_all P (dev_count c.device_count) 0 [] c)
              (open_all-Begun P n m (dev_count c.device_count) 0 [] c h)))
  where
    opened :
        (q : Bool × List ℕ × VdiClient)
        → Begun n m q
        → OfEnd n m (if not q.0 then (returned, q.2) else serve P fuel q.1 q.2)
    opened (true, devices, c1) b = serve-Processed P n m fuel devices c1 b
    opened (false, devices, c1) b = inl (b.0, inr b.1)

-- In any other state it does nothing.
pub process_commands-refused :
    (P : Platform) (fuel : ℕ) (c : VdiClient)
    → is_streaming c.state ≡ false
    → process_commands P fuel c ≡ (returned, c)
unfolding process_commands
process_commands-refused P fuel c e = rw (e, process_commands)
