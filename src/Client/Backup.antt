-- ===== src/Client/Backup.antt =====
-- From the commands of the server to the bytes of the file: the vocabulary. The theorem for a
-- whole session is in Client/Backup/Session.
pub mod Storing
pub mod Steps
pub mod Progress
pub mod Alive
pub mod Completion
pub mod Session
use mathlib.Core.List.{append-nil}
use vdi_cpp_wrapper.Prelude.{
  ℕ, ◌+◌, ◌≤◌, ◌<◌, ◌≡◌, ◌≢◌, refl, sym, ap, ◌∙◌, subst, List, [], ◌∷◌, ◌++◌, Option, none, some,
  Bool, true, false, not, arith, ◌==◌, if◌then◌else◌, if_elim, Bool-cases, ltb, sub64, ◌*◌, inl,
  inr, take, length, u32_mod,
}
use vdi_cpp_wrapper.Protocol.{
  Command, failed, vdc_write, validate_write_command, vd_e_close, vd_e_eof, vd_e_timeout,
}
use vdi_cpp_wrapper.World.{Trace, Platform, get_command}
use vdi_cpp_wrapper.Sink
use vdi_cpp_wrapper.Sink.{Sink, file_sink}
use vdi_cpp_wrapper.Sink.Files
use vdi_cpp_wrapper.Sink.Files.{FileSink}
use vdi_cpp_wrapper.Sink.Bytes.{file_bytes, accepted, pending, IsValid, IsReady, WritesAll}
use vdi_cpp_wrapper.Sink.Integrity.{write-Appends, file_bytes-flush}
use vdi_cpp_wrapper.Errors.State.{SessionState, streaming, flushing, closed}
use vdi_cpp_wrapper.Faults
use vdi_cpp_wrapper.Client.{VdiClient, fail, now_us, stall_warn_ms}
use vdi_cpp_wrapper.Client.Lifecycle.{flush_sink}
use vdi_cpp_wrapper.Client.Stall.{check_stall}
use vdi_cpp_wrapper.Client.Chunk.{
  Flow, next, stop, crash, Times, receive, on_get_command_error, use_buffer, account_chunk,
  readable, write_chunk, store_chunk, sink_stage, call_complete_command, record_completion,
}
use vdi_cpp_wrapper.Client.Loop.{run_loop}
use vdi_cpp_wrapper.Client.Rules.{AfterStore, Stages, flow_of, run_loop_rule}
use vdi_cpp_wrapper.Client.Calls.{IsQuiet, flush_sink_rule}
use vdi_cpp_wrapper.Sink.Calls.{write_rule, flush_rule}

-- The data of a command: what a VDC_Write carries.
abbrev pub payload : Command → List ℕ
payload cmd = if cmd.command_code == vdc_write then take cmd.size (readable cmd.buffer) else []

abbrev pub delivered_bytes : ℕ → Option Command → List ℕ
delivered_bytes hr none = []
delivered_bytes hr (some cmd) = if failed hr then [] else payload cmd

-- The data of all the commands that the server has sent, in order.
unfoldable pub received_bytes : Trace → List ℕ
received_bytes [] = []
received_bytes (get_command device timeout hr cmd ∷ t) = received_bytes t ++ delivered_bytes hr cmd
received_bytes (_ ∷ t) = received_bytes t

-- The client's sink is an open file with its buffer allocated, and has accepted the bytes `b` so
-- far.
abbrev pub Accepts : VdiClient → List ℕ → Type 0
Accepts c b =
    (k : FileSink) × (c.sink ≡ some (file_sink k))
    × IsValid k
    × IsReady k
    × (accepted k c.calls ≡ b)

-- What the protocol says of a command: a DWORD size, and a buffer of that many bytes.
pub record IsWellFormed (cmd : Command) : Type 0 where
  pub word : cmd.size < u32_mod
  pub covered : cmd.size ≤ length (readable cmd.buffer)

abbrev pub SendsWellFormed : Platform → Type 0
SendsWellFormed P =
    (t : Trace) (device timeout : ℕ) (cmd : Command)
    → (P.on_get_command t device timeout).1 ≡ some cmd
    → IsWellFormed cmd

-- While the loop runs, the sink has accepted all that the server has sent; where it ends, that
-- holds of a session that is about to be closed, and none is closed yet. There is no crash.
abbrev pub Delivered : Flow → VdiClient → Type 0
Delivered next c = (c.state ≡ streaming) × Accepts c (received_bytes c.calls)
Delivered stop c = (c.state ≡ flushing → Accepts c (received_bytes c.calls)) × (c.state ≢ closed)
Delivered crash c = ⊥
