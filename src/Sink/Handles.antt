-- ===== src/Sink/Handles.antt =====
-- The file handle and the buffer of a `FileSink`, from its constructor to its destructor.
use vdi_cpp_wrapper.Prelude.{
  ℕ, suc, ◌+◌, ◌≡◌, refl, List, [], ◌∷◌, Option, none, some, Bool, true, false, arith, ltb, leb,
  not, ◌||◌, ◌∙◌, add64, if_elim, if◌then◌else◌,
}
use vdi_cpp_wrapper.World.{
  Trace, Platform, create_file, aligned_malloc, write_file, flush_file, close_file, aligned_free,
}
use vdi_cpp_wrapper.Sink.{Sink, null_sink, file_sink}
use vdi_cpp_wrapper.Sink
use vdi_cpp_wrapper.Sink.Files.{
  FileSink, write_buffer_size, is_null, copy_at, flush_buffer, write_direct, write_large,
  write_small, write, flush, new, destroy,
}

-- The files opened and closed, and the buffers allocated and freed.
unfoldable pub opened_files : Trace → ℕ
opened_files [] = 0
opened_files (create_file done ∷ t) = (if done then 1 else 0) + opened_files t
opened_files (_ ∷ t) = opened_files t

unfoldable pub closed_files : Trace → ℕ
closed_files [] = 0
closed_files (close_file ∷ t) = suc (closed_files t)
closed_files (_ ∷ t) = closed_files t

unfoldable pub allocated_buffers : Trace → ℕ
allocated_buffers [] = 0
allocated_buffers (aligned_malloc done ∷ t) = (if done then 1 else 0) + allocated_buffers t
allocated_buffers (_ ∷ t) = allocated_buffers t

unfoldable pub freed_buffers : Trace → ℕ
freed_buffers [] = 0
freed_buffers (aligned_free ∷ t) = suc (freed_buffers t)
freed_buffers (_ ∷ t) = freed_buffers t

-- The uses of a file or a buffer that is not there: WriteFile, FlushFileBuffers and CloseHandle
-- with no open file, and _aligned_free with no buffer.
unfoldable pub misuses : Trace → ℕ
misuses [] = 0
misuses (write_file bytes done n ∷ t) =
    if ltb (closed_files t) (opened_files t) then misuses t else suc (misuses t)
misuses (flush_file ∷ t) =
    if ltb (closed_files t) (opened_files t) then misuses t else suc (misuses t)
misuses (close_file ∷ t) =
    if ltb (closed_files t) (opened_files t) then misuses t else suc (misuses t)
misuses (aligned_free ∷ t) =
    if ltb (freed_buffers t) (allocated_buffers t) then misuses t else suc (misuses t)
misuses (_ ∷ t) = misuses t

-- A sink without a file has nothing to write.
abbrev pub IsIdle : Sink → Type 0
IsIdle null_sink = Unit
IsIdle (file_sink k) = k.file_handle ≡ false → k.buffered_bytes ≡ 0

-- What a sink holds.
abbrev pub files_held : Sink → ℕ
files_held null_sink = 0
files_held (file_sink k) = if k.file_handle then 1 else 0

abbrev pub buffers_held : Sink → ℕ
buffers_held null_sink = 0
buffers_held (file_sink k) = if is_null k.write_buffer then 0 else 1

-- What was opened is closed or held, and so is what was allocated; nothing was used that was not
-- there.
abbrev pub Owns : Sink → Trace → Type 0
Owns k t =
    (opened_files t ≡ closed_files t + files_held k)
    × (allocated_buffers t ≡ freed_buffers t + buffers_held k)
    × (misuses t ≡ 0)
    × IsIdle k

pub new-Owns :
    (P : Platform) (t : Trace) → Owns null_sink t → Owns (file_sink (new P t).0) (new P t).1
unfolding misuses new opened_files closed_files allocated_buffers freed_buffers
new-Owns P t h = ground arith

copy_at-is_null :
    (m : Option (List ℕ)) (at : ℕ) (bytes : List ℕ) (size : ℕ)
    → is_null (copy_at m at bytes size) ≡ is_null m
unfolding copy_at
copy_at-is_null none at bytes size = refl
copy_at-is_null (some m) at bytes size = refl

flush_buffer-Owns :
    (P : Platform) (k : FileSink) (t : Trace)
    → Owns (file_sink k) t
    → Owns (file_sink (flush_buffer P k t).0) (flush_buffer P k t).1
unfolding misuses flush_buffer opened_files closed_files allocated_buffers freed_buffers
flush_buffer-Owns P k t h = ground arith

file_handle-flush_buffer :
    (P : Platform) (k : FileSink) (t : Trace) → (flush_buffer P k t).0.file_handle ≡ k.file_handle
unfolding flush_buffer
file_handle-flush_buffer P k t = ground arith

abbrev OwnsBy : FileSink × Trace → Type 0
OwnsBy q = Owns (file_sink q.0) q.1

abbrev OwnsAfter : Bool × FileSink × Trace → Type 0
OwnsAfter q = Owns (file_sink q.1) q.2

-- The emptied buffer, or the sink as it is, where the handle is open.
flushed_if-Owns :
    (P : Platform) (b : Bool) (k : FileSink) (t : Trace)
    → Owns (file_sink k) t
    → k.file_handle ≡ true
    → let q : FileSink × Trace = if b then flush_buffer P k t else (k, t) in
      OwnsBy q × (q.0.file_handle ≡ true)
flushed_if-Owns P b k t h e =
    if_elim (λ (q : FileSink × Trace). OwnsBy q × (q.0.file_handle ≡ true)) b
      (λ _. (flush_buffer-Owns P k t h, file_handle-flush_buffer P k t ∙ e)) (λ _. (h, e))

write_direct-Owns :
    (P : Platform) (k : FileSink) (t : Trace) (bytes : List ℕ) (size : ℕ)
    → Owns (file_sink k) t
    → k.file_handle ≡ true
    → OwnsAfter (write_direct P k t bytes size)
unfolding misuses write_direct opened_files closed_files allocated_buffers freed_buffers
write_direct-Owns P k t bytes size h e = ground arith

write_large-Owns :
    (P : Platform) (k : FileSink) (t : Trace) (bytes : List ℕ) (size : ℕ)
    → Owns (file_sink k) t
    → k.file_handle ≡ true
    → OwnsAfter (write_large P k t bytes size)
unfolding write_large
write_large-Owns P k t bytes size h e =
    let q : FileSink × Trace = if ltb 0 k.buffered_bytes then flush_buffer P k t else (k, t) in
    let (owns, handle) = flushed_if-Owns P (ltb 0 k.buffered_bytes) k t h e in
    write_direct-Owns P q.0 q.1 bytes size owns handle

copied-Owns :
    (k : FileSink) (t : Trace) (bytes : List ℕ) (size : ℕ)
    → Owns (file_sink k) t
    → k.file_handle ≡ true
    → OwnsBy (
      record k {
        write_buffer = copy_at k.write_buffer k.buffered_bytes bytes size;
        buffered_bytes = add64 k.buffered_bytes size;
      },
      t,
    )
copied-Owns k t bytes size h e =
    ground (arith, copy_at-is_null k.write_buffer k.buffered_bytes bytes size)

write_small-Owns :
    (P : Platform) (k : FileSink) (t : Trace) (bytes : List ℕ) (size : ℕ)
    → Owns (file_sink k) t
    → k.file_handle ≡ true
    → OwnsAfter (write_small P k t bytes size)
unfolding write_small
write_small-Owns P k t bytes size h e =
    let full = ltb write_buffer_size (add64 k.buffered_bytes size) in
    let q : FileSink × Trace = if full then flush_buffer P k t else (k, t) in
    let (owns, handle) = flushed_if-Owns P full k t h e in
    copied-Owns q.0 q.1 bytes size owns handle

write_file-Owns :
    (P : Platform) (k : FileSink) (t : Trace) (bytes : List ℕ) (size : ℕ)
    → Owns (file_sink k) t
    → OwnsAfter (write P k t bytes size)
unfolding write
write_file-Owns P k t bytes size h =
    if_elim OwnsAfter (not k.file_handle || is_null k.write_buffer) (λ _. h)
      (λ e.
        if_elim OwnsAfter (leb write_buffer_size size)
          (λ _. write_large-Owns P k t bytes size h (ground arith))
          (λ _. write_small-Owns P k t bytes size h (ground arith)))

pub write-Owns :
    (P : Platform) (k : Sink) (t : Trace) (bytes : List ℕ) (size : ℕ)
    → Owns k t
    → Owns (Sink.write P k t bytes size).1 (Sink.write P k t bytes size).2
unfolding Sink.write
write-Owns P null_sink t bytes size h = h
write-Owns P (file_sink k) t bytes size h = write_file-Owns P k t bytes size h

pub flush-Owns :
    (P : Platform) (k : Sink) (t : Trace)
    → Owns k t
    → Owns (Sink.flush P k t).0 (Sink.flush P k t).1
unfolding misuses Sink.flush flush opened_files closed_files allocated_buffers freed_buffers
flush-Owns P null_sink t h = h
flush-Owns P (file_sink k) t h = ground (arith, flush_buffer-Owns P k t h)

-- The destructor gives back what the sink holds.
pub destroy-Owns :
    (P : Platform) (k : Sink) (t : Trace) → Owns k t → Owns null_sink (Sink.destroy P k t)
unfolding misuses Sink.destroy destroy opened_files closed_files allocated_buffers freed_buffers
destroy-Owns P null_sink t h = h
destroy-Owns P (file_sink k) t h = ground (arith, flush_buffer-Owns P k t h)
