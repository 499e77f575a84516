-- ===== src/Client/Storing.antt =====
-- How stage 3 of the body in src/vdi_client.cpp ends: what its outcome says of the command and of
-- the state of the session.
use vdi_cpp_wrapper.Prelude.{
  ◌≢◌, ◌∙◌, some, ℕ, ◌≡◌, refl, true, arith, inl, inr, ◌==◌, if_elim, Option-cases,
}
use vdi_cpp_wrapper.Protocol.{
  Command, vdc_write, vdc_close, close_request, failed_result, dispatch_command,
}
use vdi_cpp_wrapper.World.{Platform}
use vdi_cpp_wrapper.Errors.State.{failed_state}
use vdi_cpp_wrapper.Client.{VdiClient}
use vdi_cpp_wrapper.Client.Chunk.{
  Flow, next, stop, crash, account_chunk, use_buffer, write_chunk, store_chunk, sink_stage,
}

-- Only a VDC_Write ends the loop in stage 3, by a failure of the session or by the null sink.
abbrev pub StageEnds : Command → VdiClient → Flow × ℕ × VdiClient → Type 0
StageEnds cmd c (next, n, d) = d.state ≡ c.state
StageEnds cmd c (stop, n, d) = (cmd.command_code ≡ vdc_write) × (d.state ≡ failed_state)
StageEnds cmd c (crash, n, d) = (cmd.command_code ≡ vdc_write) × (d.state ≡ c.state)

store_chunk-StageEnds :
    (P : Platform) (cmd : Command) (c : VdiClient)
    → cmd.command_code ≡ vdc_write
    → StageEnds cmd c (store_chunk P cmd c)
unfolding store_chunk write_chunk
store_chunk-StageEnds P cmd c w = elim (Option-cases c.sink) [
  | inl e ↦ ground (arith, e)
  | inr (k, e) ↦ ground (arith, e)
]

state-account_chunk :
    (P : Platform) (size : ℕ) (c : VdiClient) → (account_chunk P size c).state ≡ c.state
unfolding account_chunk use_buffer
state-account_chunk P size c = ground arith

code_of : (a b : ℕ) → (a == b) ≡ true → a ≡ b
code_of a b e = ground arith

pub sink_stage-StageEnds :
    (P : Platform) (cmd : Command) (c : VdiClient)
    → StageEnds cmd c (sink_stage P cmd cmd.command_code c)
unfolding sink_stage
sink_stage-StageEnds P cmd c =
    if_elim (StageEnds cmd c) (cmd.command_code == vdc_write)
      (λ e. same_state (store_chunk P cmd (account_chunk P cmd.size c)) (
        store_chunk-StageEnds P cmd (account_chunk P cmd.size c)
          (code_of cmd.command_code vdc_write e)))
      (λ _. refl)
  where
    same_state :
        (q : Flow × ℕ × VdiClient)
        → StageEnds cmd (account_chunk P cmd.size c) q
        → StageEnds cmd c q
    same_state (next, n, d) h = h ∙ state-account_chunk P cmd.size c
    same_state (stop, n, d) h = h
    same_state (crash, n, d) h = (h.0, h.1 ∙ state-account_chunk P cmd.size c)

-- Dispatch asks for the end at VDC_Close only, and refuses no command.
pub dispatch_close :
    (cmd : Command) → (dispatch_command (some cmd)).1 ≡ close_request → cmd.command_code ≡ vdc_close
unfolding dispatch_command
dispatch_close cmd e = ground arith

pub dispatch_refuses_none : (cmd : Command) → (dispatch_command (some cmd)).1 ≢ failed_result
unfolding dispatch_command
dispatch_refuses_none cmd = ground arith
