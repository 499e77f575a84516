-- ===== src/Sink/Log.antt =====
-- What include/sink.h promises of a file sink, as an abstract machine: a log that is open or not,
-- to which a write appends. `FileSink`, from its constructor to its destructor, implements it.
use mathlib.Core.List.{append-nil}
use vdi_cpp_wrapper.Prelude.{
  ℕ, ◌≤◌, ◌<◌, ◌≡◌, refl, ap, sym, ◌∙◌, List, [], ◌∷◌, ◌++◌, Bool, true, false, not, ◌&&◌, arith,
  if◌then◌else◌, if_elim, Bool-cases, inl, inr, take, length, u32_mod,
}
use vdi_cpp_wrapper.World.{Trace, Platform}
use vdi_cpp_wrapper.Sink.Files.{FileSink, is_null, new, write, flush, destroy}
use vdi_cpp_wrapper.Sink.Bytes.{file_bytes, accepted, IsValid, IsReady, WritesAll}
use vdi_cpp_wrapper.Sink.Integrity.{write-Appends, file_bytes-flush}
use vdi_cpp_wrapper.Sink.Paths.{flush_buffer_lem}

pub record Log : Type 0 where
  pub opened : Bool
  pub bytes : List ℕ

-- The calls of the interface.
pub data Call : Type 0 where
  writes : List ℕ → ℕ → Call
  flushes : Call

-- What a call answers and does to the log; `flush` has no answer.
unfoldable pub log_call : Log → Call → List Bool × Log
log_call l (writes bytes size) =
    if l.opened
    then (true ∷ [], record l { bytes = l.bytes ++ take size bytes })
    else (false ∷ [], l)
log_call l flushes = ([], l)

unfoldable pub log_calls : Log → List Call → List Bool × Log
unfolding log_call
log_calls l [] = ([], l)
log_calls l (call ∷ calls) =
    let (answer, l1) = log_call l call in
    let (answers, l2) = log_calls l1 calls in (answer ++ answers, l2)

-- The same calls on the sink.
abbrev pub file_call : Platform → FileSink × Trace → Call → List Bool × (FileSink × Trace)
file_call P (k, t) (writes bytes size) =
    let (done, k1, t1) = write P k t bytes size in (done ∷ [], (k1, t1))
file_call P (k, t) flushes = ([], flush P k t)

unfoldable pub file_calls : Platform → FileSink × Trace → List Call → List Bool × (FileSink × Trace)
file_calls P s [] = ([], s)
file_calls P s (call ∷ calls) =
    let (answer, s1) = file_call P s call in
    let (answers, s2) = file_calls P s1 calls in (answer ++ answers, s2)

abbrev pub is_ready : FileSink → Bool
is_ready k = k.file_handle && not (is_null k.write_buffer)

-- The sink and the history stand for the log.
pub record Represents (s : FileSink × Trace) (l : Log) : Type 0 where
  pub same_open : is_ready s.0 ≡ l.opened
  pub same_bytes : accepted s.0 s.1 ≡ l.bytes
  pub valid : IsValid s.0

-- The pointer of a write can serve its size, which is below 2^32.
abbrev pub IsServed : Call → Type 0
IsServed (writes bytes size) = (size ≤ length bytes) × (size < u32_mod)
IsServed flushes = (0 ≤ 0)

abbrev pub AllServed : List Call → Type 0
AllServed [] = (0 ≤ 0)
AllServed (call ∷ calls) = IsServed call × AllServed calls

abbrev Implements : List Bool × (FileSink × Trace) → List Bool × Log → Type 0
Implements (answer, s) (answer', l) = (answer ≡ answer') × Represents s l

write-refused :
    (P : Platform) (k : FileSink) (t : Trace) (bytes : List ℕ) (size : ℕ)
    → is_ready k ≡ false
    → write P k t bytes size ≡ (false, k, t)
unfolding write
write-refused P k t bytes size e = ground arith

log_call-opened :
    (l : Log) (bytes : List ℕ) (size : ℕ)
    → l.opened ≡ true
    → log_call l (writes bytes size) ≡ (true ∷ [], record l { bytes = l.bytes ++ take size bytes })
unfolding log_call
log_call-opened l bytes size e = if_elim (λ q. q ≡ opened_log) l.opened (λ _. refl) (λ f. cc)
  where
    opened_log : List Bool × Log
    opened_log = (true ∷ [], record l { bytes = l.bytes ++ take size bytes })

log_call-refused :
    (l : Log) (bytes : List ℕ) (size : ℕ)
    → l.opened ≡ false
    → log_call l (writes bytes size) ≡ (false ∷ [], l)
unfolding log_call
log_call-refused l bytes size e = if_elim (λ q. q ≡ (false ∷ [], l)) l.opened (λ f. cc) (λ _. refl)

write-Implements :
    (P : Platform) (k : FileSink) (t : Trace) (bytes : List ℕ) (size : ℕ) (l : Log)
    → WritesAll P
    → IsServed (writes bytes size)
    → Represents (k, t) l
    → Implements (file_call P (k, t) (writes bytes size)) (log_call l (writes bytes size))
write-Implements P k t bytes size l w (h, small) r = elim (Bool-cases (is_ready k)) [
  | inl e ↦
      let ready : IsReady k = record { opened = ground arith; allocated = ground arith } in
      let (done, appended, valid, still) = write-Appends P k t bytes size w r.valid ready h small in
      rw (log_call-opened l bytes size (sym r.same_open ∙ e)) (
        ap (λ (b : Bool). b ∷ []) done,
        record {
          same_open = ground (arith, still.opened, still.allocated);
          same_bytes = appended ∙ ap (λ b. b ++ take size bytes) r.same_bytes;
          valid = valid;
        },
      )
  | inr e ↦
      rw (write-refused P k t bytes size e, log_call-refused l bytes size (sym r.same_open ∙ e))
        (refl, r)
]

file_call-Implements :
    (P : Platform) (s : FileSink × Trace) (l : Log) (call : Call)
    → WritesAll P
    → IsServed call
    → Represents s l
    → Implements (file_call P s call) (log_call l call)
unfolding log_call
file_call-Implements P (k, t) l (writes bytes size) w g r =
    write-Implements P k t bytes size l w g r
file_call-Implements P (k, t) l flushes w g r =
    let (bytes, empty, valid, handle, buffer) = file_bytes-flush P k t w r.valid in
    (
      refl,
      record {
        same_open = ground (arith, handle, buffer, r.same_open);
        same_bytes = rw (empty, bytes) (append-nil (accepted k t) ∙ r.same_bytes);
        valid = valid;
      },
    )

file_calls-Implements :
    (P : Platform) (s : FileSink × Trace) (l : Log) (calls : List Call)
    → WritesAll P
    → AllServed calls
    → Represents s l
    → Implements (file_calls P s calls) (log_calls l calls)
unfolding file_calls log_calls
file_calls-Implements P s l [] w g r = (refl, r)
file_calls-Implements P s l (call ∷ calls) w (g, gs) r =
    let (same, r1) = file_call-Implements P s l call w g r in
    let (rest, r2) =
      file_calls-Implements P (file_call P s call).1 (log_call l call).1 calls w gs r1 in
    (rw (same, rest) refl, r2)

-- The log of a sink that has just been constructed.
abbrev pub new_log : Platform → Trace → Log
new_log P t = record { opened = is_ready (new P t).0; bytes = file_bytes t }

new-Represents : (P : Platform) (t : Trace) → Represents (new P t) (new_log P t)
unfolding new file_bytes
new-Represents P t = record {
  same_open = refl;
  same_bytes = ground (arith, append-nil (file_bytes t));
  valid = ground arith;
}

pub file_bytes-destroy :
    (P : Platform) (k : FileSink) (t : Trace)
    → WritesAll P
    → IsValid k
    → file_bytes (destroy P k t) ≡ accepted k t
unfolding destroy file_bytes
file_bytes-destroy P k t w v = ground (arith, (flush_buffer_lem P k t w v).0)

-- On a disk where every WriteFile writes all that it is given, a file sink, from its constructor
-- through any calls of `write` and `flush` to its destructor, is the abstract log: each write
-- answers what the log answers, true if and only if the file and the buffer could be had, and at
-- the end the file holds exactly the log's bytes behind what was written before. Each write is of
-- fewer than 2^32 bytes that its pointer can serve.
pub file_calls-refines :
    (P : Platform) (t : Trace) (calls : List Call)
    → WritesAll P
    → AllServed calls
    → let (answers, (k1, t1)) = file_calls P (new P t) calls in
      let (answers', l) = log_calls (new_log P t) calls in
      (answers ≡ answers') × (file_bytes (destroy P k1 t1) ≡ l.bytes)
file_calls-refines P t calls w g =
    let (same, r) =
      file_calls-Implements P (new P t) (new_log P t) calls w g (new-Represents P t) in
    let (k1, t1) = (file_calls P (new P t) calls).1 in
    (same, file_bytes-destroy P k1 t1 w r.valid ∙ r.same_bytes)
