-- ===== src/Client/Session/Loop.antt =====
-- What process_commands leaves of the state machine and of the device set.
use vdi_cpp_wrapper.Prelude.{
  ℕ, suc, ◌+◌, ◌≡◌, refl, sym, subst, ◌⊎◌, inl, inr, [], ◌∷◌, true, false, arith, ◌==◌,
  if◌then◌else◌, if_elim, Option-cases,
}
use vdi_cpp_wrapper.Protocol.{Command, failed, vdc_write}
use vdi_cpp_wrapper.World.{Trace, Platform, create_instance, release_set}
use vdi_cpp_wrapper.Errors.State.{SessionState, streaming, flushing, failed_state}
use vdi_cpp_wrapper.Client.{VdiClient, fail, now_us}
use vdi_cpp_wrapper.Client.Lifecycle.{flush_sink}
use vdi_cpp_wrapper.Client.Stall.{check_stall}
use vdi_cpp_wrapper.Client.Chunk.{
  Flow, next, stop, crash, Times, receive, on_get_command_error, account_chunk, store_chunk,
  sink_stage, call_complete_command, record_completion,
}
use vdi_cpp_wrapper.Client.Rules.{AfterStore, Stages, option_elim}
use vdi_cpp_wrapper.Client.Calls.{
  IsQuiet, on_get_command_error_rule, sink_stage_rule, calls-record_completion,
}

-- The device sets that were created, and those that were released.
unfoldable pub created : Trace → ℕ
created [] = 0
created (create_instance hr ∷ t) = (if failed hr then 0 else 1) + created t
created (_ ∷ t) = created t

unfoldable pub released : Trace → ℕ
released [] = 0
released (release_set ∷ t) = suc (released t)
released (_ ∷ t) = released t

-- The states in which a part of the loop may end.
abbrev pub Reaches : Flow → SessionState → Type 0
Reaches next s = s ≡ streaming
Reaches stop s = (s ≡ streaming) ⊎ ((s ≡ flushing) ⊎ (s ≡ failed_state))
Reaches crash s = s ≡ streaming

-- The loop keeps the device set of a session that is not closed.
pub record Serving (n m : ℕ) (flow : Flow) (c : VdiClient) : Type 0 where
  pub creations : created c.calls ≡ n
  pub releases : released c.calls ≡ m
  pub held : c.device_set ≡ true
  pub not_closed : c.devices_closed ≡ false
  pub reached : Reaches flow c.state

abbrev pub Quietly : ℕ → ℕ → Trace → Type 0
Quietly n m t = (created t ≡ n) × (released t ≡ m)

pub Quietly-IsQuiet : (P : Platform) (n m : ℕ) → IsQuiet P (Quietly n m)
unfolding created released
Quietly-IsQuiet P n m = record {
  on_clock = λ t e. e;
  on_write = λ t bytes e. e;
  on_flush = λ t e. e;
  on_warning = λ t k e. e;
}

-- The fields of `Serving` that are no calls.
abbrev Fields : Flow → VdiClient → Type 0
Fields flow c = (c.device_set ≡ true) × (c.devices_closed ≡ false) × Reaches flow c.state

pub flush_sink-Fields :
    (P : Platform) (c : VdiClient)
    → ((flush_sink P c).device_set ≡ c.device_set)
      × ((flush_sink P c).devices_closed ≡ c.devices_closed)
      × ((flush_sink P c).state ≡ c.state)
unfolding flush_sink
flush_sink-Fields P c =
    option_elim
      (λ (d : VdiClient).
        (d.device_set ≡ c.device_set) × (d.devices_closed ≡ c.devices_closed) × (d.state ≡ c.state))
      c.sink (λ _. (refl, refl, refl)) (λ k e. (refl, refl, refl))

on_get_command_error-Fields :
    (P : Platform) (hr now : ℕ) (c : VdiClient)
    → Fields next c
    → Fields (on_get_command_error P hr now c).0 (on_get_command_error P hr now c).1
unfolding on_get_command_error check_stall
on_get_command_error-Fields P hr now c h =
    ground (arith, flush_sink-Fields P (record c { state = flushing }))

store_chunk-Fields :
    (P : Platform) (cmd : Command) (c : VdiClient)
    → Fields next c
    → Fields (store_chunk P cmd c).0 (store_chunk P cmd c).2
unfolding store_chunk
store_chunk-Fields P cmd c h = elim (Option-cases c.sink) [
  | inl e ↦ ground arith
  | inr (k, e) ↦ ground arith
]

account_chunk-Fields :
    (P : Platform) (size : ℕ) (c : VdiClient) → Fields next c → Fields next (account_chunk P size c)
unfolding account_chunk
account_chunk-Fields P size c h = ground arith

sink_stage-Fields :
    (P : Platform) (cmd : Command) (code : ℕ) (c : VdiClient)
    → Fields next c
    → Fields (sink_stage P cmd code c).0 (sink_stage P cmd code c).2
unfolding sink_stage
sink_stage-Fields P cmd code c h =
    if_elim (λ (q : Flow × ℕ × VdiClient). Fields q.0 q.2) (code == vdc_write)
      (λ _. store_chunk-Fields P cmd _ (account_chunk-Fields P cmd.size c h)) (λ _. h)

record_completion-Fields :
    (cmd : Command) (s : Times) (cc_us : ℕ) (c : VdiClient)
    → Fields next c
    → Fields (record_completion cmd s cc_us c).0 (record_completion cmd s cc_us c).1
unfolding record_completion
record_completion-Fields cmd s cc_us c h = ground arith

-- `Serving` from its two parts.
joined :
    (n m : ℕ) (q : Flow × VdiClient) → Quietly n m q.1.calls → Fields q.0 q.1 → Serving n m q.0 q.1
joined n m q t f = record {
  creations = t.0;
  releases = t.1;
  held = f.0;
  not_closed = f.1;
  reached = f.2;
}

joined_store :
    (n m : ℕ) (q : Flow × ℕ × VdiClient)
    → Quietly n m q.2.calls
    → Fields q.0 q.2
    → AfterStore (Serving n m stop) (Serving n m crash) (Serving n m next) q
joined_store n m (next, k, c) t f = joined n m (next, c) t f
joined_store n m (stop, k, c) t f = joined n m (stop, c) t f
joined_store n m (crash, k, c) t f = joined n m (crash, c) t f

abbrev calls_of : (n m : ℕ) (flow : Flow) (c : VdiClient) → Serving n m flow c → Quietly n m c.calls
calls_of n m flow c h = (h.creations, h.releases)

abbrev fields_of : (n m : ℕ) (flow : Flow) (c : VdiClient) → Serving n m flow c → Fields flow c
fields_of n m flow c h = (h.held, h.not_closed, h.reached)

abbrev pub Staged : ℕ → ℕ → ℕ → Command → VdiClient → Type 0
Staged n m device cmd c = Serving n m next c

receive-Serving :
    (P : Platform) (n m device : ℕ) (c : VdiClient)
    → Serving n m next c
    → Serving n m next (receive P device c).1
unfolding receive created released
receive-Serving P n m device c h = record {
  creations = h.creations;
  releases = h.releases;
  held = h.held;
  not_closed = h.not_closed;
  reached = h.reached;
}

now_us-Serving :
    (P : Platform) (n m : ℕ) (c : VdiClient) → Serving n m next c → Serving n m next (now_us P c).1
unfolding now_us created released
now_us-Serving P n m c h = record {
  creations = h.creations;
  releases = h.releases;
  held = h.held;
  not_closed = h.not_closed;
  reached = h.reached;
}

call_complete_command-Serving :
    (P : Platform) (n m device : ℕ) (cmd : Command) (c : VdiClient)
    → Serving n m next c
    → Serving n m next (call_complete_command P device cmd c).1
unfolding call_complete_command created released
call_complete_command-Serving P n m device cmd c h = record {
  creations = h.creations;
  releases = h.releases;
  held = h.held;
  not_closed = h.not_closed;
  reached = h.reached;
}

stopped :
    (n m : ℕ) (c : VdiClient) → Serving n m next c → Serving n m stop c × Serving n m stop (fail c)
stopped n m c h = (
  record {
    creations = h.creations;
    releases = h.releases;
    held = h.held;
    not_closed = h.not_closed;
    reached = inl h.reached;
  },
  record {
    creations = h.creations;
    releases = h.releases;
    held = h.held;
    not_closed = h.not_closed;
    reached = inr (inr refl);
  },
)

pub Serving-Stages :
    (P : Platform) (n m : ℕ) → Stages P (Serving n m) (Staged n m) (Staged n m) (λ hr. Staged n m)
Serving-Stages P n m = record {
  tick_held = λ device cmd c h. now_us-Serving P n m c h;
  tick_stored = λ device cmd c h. now_us-Serving P n m c h;
  tick_done = λ hr device cmd c h. now_us-Serving P n m c h;
  on_error = λ device c h e.
      let (r, c1) = receive P device c in
      let h1 = receive-Serving P n m device c h in
      joined n m (on_get_command_error P r.hr r.gc_end c1)
        (on_get_command_error_rule P (Quietly n m) (Quietly-IsQuiet P n m) r.hr r.gc_end c1
          (calls_of n m next c1 h1))
        (on_get_command_error-Fields P r.hr r.gc_end c1 (fields_of n m next c1 h1));
  on_null = λ device c h e f. receive-Serving P n m device c h;
  on_command = λ device c h cmd e f. receive-Serving P n m device c h;
  on_refused = λ device cmd c h _. (stopped n m c h).1;
  on_close = λ device cmd c h _. (stopped n m c h).0;
  on_store = λ device cmd c h.
      joined_store n m (sink_stage P cmd cmd.command_code c)
        (sink_stage_rule P (Quietly n m) (Quietly-IsQuiet P n m) cmd cmd.command_code c
          (calls_of n m next c h))
        (sink_stage-Fields P cmd cmd.command_code c (fields_of n m next c h));
  on_complete = λ device cmd c h. call_complete_command-Serving P n m device cmd c h;
  on_incomplete = λ device cmd b c e h. (stopped n m c h).1;
  on_done = λ hr device cmd c s cc_us e h.
      joined n m (record_completion cmd s cc_us c)
        (subst (Quietly n m) (sym (calls-record_completion cmd s cc_us c)) (calls_of n m next c h))
        (record_completion-Fields cmd s cc_us c (fields_of n m next c h));
}
