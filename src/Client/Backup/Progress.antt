-- ===== src/Client/Backup/Progress.antt =====
-- A server that plays its part: what each stage of the loop then does.
use vdi_cpp_wrapper.Prelude.{
  ℕ, ◌≡◌, refl, ap, ◌∙◌, ◌⊎◌, inl, inr, List, some, true, false, arith, if_elim, ◌==◌, Option-cases,
}
use vdi_cpp_wrapper.Protocol.{
  Command, failed, vdc_write, validate_write_command, vd_e_close, vd_e_eof, vd_e_timeout,
}
use vdi_cpp_wrapper.World.{Trace, Platform}
use vdi_cpp_wrapper.Sink
use vdi_cpp_wrapper.Sink.{file_sink}
use vdi_cpp_wrapper.Sink.Files
use vdi_cpp_wrapper.Sink.Files.{FileSink}
use vdi_cpp_wrapper.Sink.Bytes.{WritesAll, IsValid, IsReady, accepted}
use vdi_cpp_wrapper.Sink.Integrity.{write-Appends}
use vdi_cpp_wrapper.Errors.State.{flushing}
use vdi_cpp_wrapper.Faults.{stub}
use vdi_cpp_wrapper.Client.{VdiClient, now_us}
use vdi_cpp_wrapper.Client.Lifecycle.{flush_sink}
use vdi_cpp_wrapper.Client.Stall.{check_stall}
use vdi_cpp_wrapper.Client.Chunk.{
  Flow, next, stop, crash, on_get_command_error, account_chunk, use_buffer, readable, write_chunk,
  store_chunk, sink_stage,
}
use vdi_cpp_wrapper.Client.Rules.{AfterStore, option_elim}
use vdi_cpp_wrapper.Client.Backup.{Accepts, IsWellFormed, Delivered}
use vdi_cpp_wrapper.Client.Backup.Storing.{Pending, Settled, account_chunk_lem, state-flush_sink}

-- What a backup sends: VDC_Write commands that the client accepts. It reports nothing but
-- timeouts and the end, and it takes every completion and opens every device.
pub record Cooperates (P : Platform) : Type 0 where
  pub sends :
      (t : Trace) (device timeout : ℕ) (cmd : Command)
      → (P.on_get_command t device timeout).1 ≡ some cmd
      → (cmd.command_code ≡ vdc_write) × (validate_write_command (some cmd) ≡ true)
  pub fails :
      (t : Trace) (device timeout : ℕ)
      → let hr = (P.on_get_command t device timeout).0 in
        failed hr ≡ true → (hr ≡ vd_e_close) ⊎ ((hr ≡ vd_e_eof) ⊎ (hr ≡ vd_e_timeout))
  pub completes :
      (t : Trace) (device : ℕ) (cmd : Command) → failed (P.on_complete_command t device cmd) ≡ false
  pub opens : (t : Trace) (i : ℕ) → failed (P.on_open_device t i) ≡ false

-- No fault is injected, and the session is not closed.
abbrev pub IsSteady : VdiClient → Type 0
IsSteady c = (c.fault_injector ≡ stub) × (c.devices_closed ≡ false)

-- The loop goes on with all data accepted, or it ends in FLUSHING.
abbrev pub Alive : Flow → VdiClient → Type 0
Alive next c = Delivered next c × IsSteady c
Alive stop c = Delivered stop c × IsSteady c × (c.state ≡ flushing)
Alive crash c = ⊥

abbrev pub Incoming : ℕ → Command → VdiClient → Type 0
Incoming device cmd c =
    Pending device cmd c
    × IsSteady c
    × (cmd.command_code ≡ vdc_write)
    × (validate_write_command (some cmd) ≡ true)

abbrev pub Stored : ℕ → Command → VdiClient → Type 0
Stored device cmd c = Alive next c

pub Alive-of_parts :
    (q : Flow × VdiClient)
    → Delivered q.0 q.1
    → IsSteady q.1
    → (q.0 ≡ stop → q.1.state ≡ flushing)
    → Alive q.0 q.1
Alive-of_parts (next, c) d s f = (d, s)
Alive-of_parts (stop, c) d s f = (d, s, f refl)
Alive-of_parts (crash, c) d s f = d

pub AfterStore-Alive :
    (device : ℕ) (cmd : Command) (q : Flow × ℕ × VdiClient)
    → AfterStore (Delivered stop) (Delivered crash) (Settled device cmd) q
    → IsSteady q.2
    → q.0 ≡ next
    → AfterStore (Alive stop) (Alive crash) (Stored device cmd) q
AfterStore-Alive device cmd (next, n, c) d s f = (d, s)
AfterStore-Alive device cmd (stop, n, c) d s f = absurd (cc f)
AfterStore-Alive device cmd (crash, n, c) d s f = d

flush_sink-IsSteady : (P : Platform) (c : VdiClient) → IsSteady c → IsSteady (flush_sink P c)
unfolding flush_sink
flush_sink-IsSteady P c s = option_elim IsSteady c.sink (λ _. s) (λ k e. s)

-- An end or a timeout leaves the session alive.
pub on_get_command_error_lem :
    (P : Platform) (hr now : ℕ) (c : VdiClient)
    → IsSteady c
    → (hr ≡ vd_e_close) ⊎ ((hr ≡ vd_e_eof) ⊎ (hr ≡ vd_e_timeout))
    → let q = on_get_command_error P hr now c in IsSteady q.1 × (q.0 ≡ stop → q.1.state ≡ flushing)
unfolding on_get_command_error check_stall
on_get_command_error_lem P hr now c s e = ground (
  arith,
  flush_sink-IsSteady P (record c { state = flushing }) s,
  state-flush_sink P (record c { state = flushing }),
)

write_chunk_goes_on :
    (P : Platform) (cmd : Command) (k : FileSink) (c : VdiClient)
    → WritesAll P
    → IsWellFormed cmd
    → IsValid k
    → IsReady k
    → (write_chunk P cmd (file_sink k) c).0 ≡ next
unfolding write_chunk Sink.write
write_chunk_goes_on P cmd k c w f v r = ground (
  arith,
  (write-Appends P k (now_us P c).1.calls (readable cmd.buffer) cmd.size w v r f.covered f.word).0,
)

store_chunk_goes_on :
    (P : Platform) (cmd : Command) (c : VdiClient) (b : List ℕ)
    → WritesAll P
    → IsWellFormed cmd
    → validate_write_command (some cmd) ≡ true
    → Accepts c b
    → (store_chunk P cmd c).0 ≡ next
unfolding store_chunk Sink.is_open Files.is_open
store_chunk_goes_on P cmd c b w f valid (k, e, v, r, a) =
    ground (arith, e, valid, r.opened, write_chunk_goes_on P cmd k c w f v r)

pub sink_stage_goes_on :
    (P : Platform) (device : ℕ) (cmd : Command) (c : VdiClient)
    → WritesAll P
    → Incoming device cmd c
    → (sink_stage P cmd cmd.command_code c).0 ≡ next
unfolding sink_stage
sink_stage_goes_on P device cmd c w ((st, f, (b, (k, e, v, r, a), g)), s, code, valid) =
    let (sink_eq, calls_eq, state_eq) = account_chunk_lem P cmd.size c in
    ground (
      arith,
      code,
      store_chunk_goes_on P cmd (account_chunk P cmd.size c) b w f valid
          (k, sink_eq ∙ e, v, r, ap (accepted k) calls_eq ∙ a),
    )

store_chunk-IsSteady :
    (P : Platform) (cmd : Command) (c : VdiClient) → IsSteady c → IsSteady (store_chunk P cmd c).2
unfolding store_chunk write_chunk
store_chunk-IsSteady P cmd c s = elim (Option-cases c.sink) [
  | inl e ↦ ground arith
  | inr (k, e) ↦ ground arith
]

account_chunk-IsSteady :
    (P : Platform) (size : ℕ) (c : VdiClient) → IsSteady c → IsSteady (account_chunk P size c)
unfolding account_chunk use_buffer
account_chunk-IsSteady P size c s = ground arith

pub sink_stage-IsSteady :
    (P : Platform) (cmd : Command) (code : ℕ) (c : VdiClient)
    → IsSteady c
    → IsSteady (sink_stage P cmd code c).2
unfolding sink_stage
sink_stage-IsSteady P cmd code c s =
    if_elim (λ (q : Flow × ℕ × VdiClient). IsSteady q.2) (code == vdc_write)
      (λ _. store_chunk-IsSteady P cmd _ (account_chunk-IsSteady P cmd.size c s)) (λ _. s)
