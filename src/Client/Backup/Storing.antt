-- ===== src/Client/Backup/Storing.antt =====
-- What the write and the flush of a file sink do to the data accepted from the server.
use mathlib.Core.List.{append-nil}
use vdi_cpp_wrapper.Prelude.{
  ℕ, ◌≡◌, refl, sym, ap, ◌∙◌, subst, List, ◌++◌, none, some, not, arith, ◌==◌, if◌then◌else◌,
  if_elim, take,
}
use vdi_cpp_wrapper.Protocol.{Command, vdc_write, validate_write_command}
use vdi_cpp_wrapper.World.{Platform}
use vdi_cpp_wrapper.Sink
use vdi_cpp_wrapper.Sink.{Sink, file_sink}
use vdi_cpp_wrapper.Sink.Files
use vdi_cpp_wrapper.Sink.Files.{FileSink}
use vdi_cpp_wrapper.Sink.Bytes.{file_bytes, accepted, IsValid, IsReady, WritesAll}
use vdi_cpp_wrapper.Sink.Integrity.{write-Appends, file_bytes-flush}
use vdi_cpp_wrapper.Errors.State.{streaming}
use vdi_cpp_wrapper.Client.{VdiClient, fail, now_us}
use vdi_cpp_wrapper.Client.Lifecycle.{flush_sink}
use vdi_cpp_wrapper.Client.Backup.{payload, received_bytes, Accepts, IsWellFormed, Delivered}
use vdi_cpp_wrapper.Client.Chunk.{
  Flow, next, stop, crash, account_chunk, readable, write_chunk, store_chunk, sink_stage,
}
use vdi_cpp_wrapper.Client.Rules.{AfterStore, option_elim}
use vdi_cpp_wrapper.Client.Calls.{IsQuiet, flush_sink_rule}
use vdi_cpp_wrapper.Sink.Calls.{write_rule}

-- All but the last command's data is accepted.
abbrev pub Pending : ℕ → Command → VdiClient → Type 0
Pending device cmd c =
    (c.state ≡ streaming)
    × IsWellFormed cmd
    × ((b : List ℕ) × Accepts c b × (received_bytes c.calls ≡ b ++ payload cmd))

abbrev pub Settled : ℕ → Command → VdiClient → Type 0
Settled device cmd c = Delivered next c

flush_sink_lem :
    (P : Platform) (c : VdiClient) (k : FileSink)
    → c.sink ≡ some (file_sink k)
    → let (k', t) = Files.flush P k c.calls in
      flush_sink P c ≡ record c { sink = some (file_sink k'); calls = t }
unfolding flush_sink Sink.flush
flush_sink_lem P c k e = ground arith

-- A flush puts all that is accepted into the file, and the sink stays as it was otherwise.
flush_sink-Accepts :
    (P : Platform) (c : VdiClient) (b : List ℕ)
    → WritesAll P
    → Accepts c b
    → Accepts (flush_sink P c) b × (file_bytes (flush_sink P c).calls ≡ b)
flush_sink-Accepts P c b w (k, e, v, r, a) =
    let (k', t) = Files.flush P k c.calls in
    let f = file_bytes-flush P k c.calls w v in
    rw (flush_sink_lem P c k e) (
      (
        k',
        refl,
        f.2,
        record { opened = f.3 ∙ r.opened; allocated = ap Files.is_null f.4 ∙ r.allocated },
        ap (λ l. file_bytes t ++ l) f.1 ∙ append-nil (file_bytes t) ∙ f.0 ∙ a,
      ),
      f.0 ∙ a,
    )

pub account_chunk_lem :
    (P : Platform) (size : ℕ) (c : VdiClient)
    → let c1 = account_chunk P size c in
      (c1.sink ≡ c.sink) × (c1.calls ≡ c.calls) × (c1.state ≡ c.state)
unfolding account_chunk
account_chunk_lem P size c = ground arith

received_bytes-IsQuiet : (P : Platform) (b : List ℕ) → IsQuiet P (λ t. received_bytes t ≡ b)
unfolding received_bytes
received_bytes-IsQuiet P b = record {
  on_clock = λ t e. e;
  on_write = λ t bytes e. e;
  on_flush = λ t e. e;
  on_warning = λ t n e. e;
}

write_chunk-Delivered :
    (P : Platform) (device : ℕ) (cmd : Command) (k : FileSink) (c : VdiClient)
    → WritesAll P
    → c.state ≡ streaming
    → IsWellFormed cmd
    → IsValid k
    → IsReady k
    → received_bytes c.calls ≡ accepted k c.calls ++ take cmd.size (readable cmd.buffer)
    → AfterStore
        (Delivered stop)
        (Delivered crash)
        (Settled device cmd)
        (write_chunk P cmd (file_sink k) c)
unfolding write_chunk Sink.write file_bytes received_bytes
write_chunk-Delivered P device cmd k c w st f v r e =
    let bytes = readable cmd.buffer in
    let t0 = (now_us P c).1.calls in
    let q = Files.write P k t0 bytes cmd.size in
    let a = write-Appends P k t0 bytes cmd.size w v r f.covered f.word in
    let same : received_bytes q.2 ≡ received_bytes c.calls =
      write_rule P (λ t. received_bytes t ≡ received_bytes c.calls)
        (received_bytes-IsQuiet P (received_bytes c.calls)).on_write
        (received_bytes-IsQuiet P (received_bytes c.calls)).on_flush (file_sink k) t0 bytes cmd.size
        refl in
    if_elim (AfterStore (Delivered stop) (Delivered crash) (Settled device cmd)) (not q.0)
      (λ bad. absurd (cc (a.0, bad))) (λ good. (st, (q.1, refl, a.2, a.3, a.1 ∙ sym e ∙ sym same)))

store_chunk-Delivered :
    (P : Platform) (device : ℕ) (cmd : Command) (c : VdiClient) (b : List ℕ)
    → WritesAll P
    → c.state ≡ streaming
    → IsWellFormed cmd
    → Accepts c b
    → received_bytes c.calls ≡ b ++ take cmd.size (readable cmd.buffer)
    → AfterStore (Delivered stop) (Delivered crash) (Settled device cmd) (store_chunk P cmd c)
unfolding store_chunk Sink.is_open Files.is_open
store_chunk-Delivered P device cmd c b w st f (k, e, v, r, a) g =
    if_elim Goal (not (validate_write_command (some cmd))) (λ _. (λ s. cc s, λ s. cc s))
      (λ _.
        subst
          (λ o. Goal (elim o [
            | none ↦ (crash, 0, c)
            | some k' ↦ if not (Sink.is_open k') then (stop, 0, fail c) else write_chunk P cmd k' c
          ]))
          (sym e)
          (if_elim Goal (not k.file_handle) (λ _. (λ s. cc s, λ s. cc s))
            (λ _.
              write_chunk-Delivered P device cmd k c w st f v r
                (g ∙ ap (λ l. l ++ take cmd.size (readable cmd.buffer)) (sym a)))))
  where
    Goal : Flow × ℕ × VdiClient → Type 0
    Goal = AfterStore (Delivered stop) (Delivered crash) (Settled device cmd)

pub sink_stage-Delivered :
    (P : Platform) (device : ℕ) (cmd : Command) (c : VdiClient)
    → WritesAll P
    → Pending device cmd c
    → AfterStore
        (Delivered stop)
        (Delivered crash)
        (Settled device cmd)
        (sink_stage P cmd cmd.command_code c)
unfolding sink_stage
sink_stage-Delivered P device cmd c w (st, f, (b, (k, e, v, r, a), g)) =
    let (sink_eq, calls_eq, state_eq) = account_chunk_lem P cmd.size c in
    if_elim (AfterStore (Delivered stop) (Delivered crash) (Settled device cmd))
      (cmd.command_code == vdc_write)
      (λ is_write.
        store_chunk-Delivered P device cmd (account_chunk P cmd.size c) b w (state_eq ∙ st) f
          (k, sink_eq ∙ e, v, r, ap (accepted k) calls_eq ∙ a)
          (ap received_bytes calls_eq ∙ g ∙ ap (λ l. b ++ l) (rw is_write)))
      (λ other. (st, (k, e, v, r, a ∙ sym (g ∙ ap (λ l. b ++ l) (rw other) ∙ append-nil b))))

pub state-flush_sink : (P : Platform) (c : VdiClient) → (flush_sink P c).state ≡ c.state
unfolding flush_sink
state-flush_sink P c =
    option_elim (λ (d : VdiClient). d.state ≡ c.state) c.sink (λ _. refl) (λ k e. refl)

pub flush_sink-Delivered :
    (P : Platform) (c : VdiClient)
    → WritesAll P
    → Accepts c (received_bytes c.calls)
    → let c1 = flush_sink P c in
      Accepts c1 (received_bytes c1.calls) × (file_bytes c1.calls ≡ received_bytes c1.calls)
flush_sink-Delivered P c w a =
    let b = received_bytes c.calls in
    let same : received_bytes (flush_sink P c).calls ≡ b =
      flush_sink_rule P (λ t. received_bytes t ≡ b) (received_bytes-IsQuiet P b) c refl in
    rw same (flush_sink-Accepts P c b w a)
