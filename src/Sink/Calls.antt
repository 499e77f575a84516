-- ===== src/Sink/Calls.antt =====
-- The only calls that a sink makes while it is written to and flushed are WriteFile and
-- FlushFileBuffers: a property of the history that these keep is kept by the sink.
use vdi_cpp_wrapper.Prelude.{
  ℕ, ◌||◌, ◌==◌, List, ◌∷◌, Bool, not, leb, ltb, add64, if_elim, if◌then◌else◌,
}
use vdi_cpp_wrapper.World.{Trace, Platform, write_file, flush_file}
use vdi_cpp_wrapper.Sink.{Sink, null_sink, file_sink, write, flush}
use vdi_cpp_wrapper.Sink.Files.{
  FileSink, write_buffer_size, is_null, flush_buffer, write_direct, write_large, write_small,
}
use vdi_cpp_wrapper.Sink.Files

module _ (P : Platform) (Q : Trace → Type 0)
    (on_write : (t : Trace) (bytes : List ℕ)
      → Q t
      → let (done, n) = P.on_write_file t bytes in Q (write_file bytes done n ∷ t))
    (on_flush : (t : Trace) → Q t → Q (flush_file ∷ t)) where
  flush_buffer_rule : (k : FileSink) (t : Trace) → Q t → Q (flush_buffer P k t).1
  unfolding flush_buffer
  flush_buffer_rule k t h =
      if_elim (λ (r : FileSink × Trace). Q r.1) (k.buffered_bytes == 0) (λ _. h)
        (λ _. on_write t _ h)

  write_direct_rule :
      (k : FileSink) (t : Trace) (bytes : List ℕ) (size : ℕ)
      → Q t
      → Q (write_direct P k t bytes size).2
  unfolding write_direct
  write_direct_rule k t bytes size h = on_write t _ h

  write_large_rule :
      (k : FileSink) (t : Trace) (bytes : List ℕ) (size : ℕ)
      → Q t
      → Q (write_large P k t bytes size).2
  unfolding write_large
  write_large_rule k t bytes size h =
      let r : FileSink × Trace = if ltb 0 k.buffered_bytes then flush_buffer P k t else (k, t) in
      write_direct_rule r.0 r.1 bytes size (
        if_elim (λ (q : FileSink × Trace). Q q.1) (ltb 0 k.buffered_bytes)
          (λ _. flush_buffer_rule k t h) (λ _. h))

  write_small_rule :
      (k : FileSink) (t : Trace) (bytes : List ℕ) (size : ℕ)
      → Q t
      → Q (write_small P k t bytes size).2
  unfolding write_small
  write_small_rule k t bytes size h =
      if_elim (λ (r : FileSink × Trace). Q r.1)
        (ltb write_buffer_size (add64 k.buffered_bytes size)) (λ _. flush_buffer_rule k t h)
        (λ _. h)

  file_write_rule :
      (k : FileSink) (t : Trace) (bytes : List ℕ) (size : ℕ)
      → Q t
      → Q (Files.write P k t bytes size).2
  unfolding Files.write
  file_write_rule k t bytes size h =
      if_elim (λ (r : Bool × FileSink × Trace). Q r.2) (not k.file_handle || is_null k.write_buffer)
        (λ _. h)
        (λ _.
          if_elim (λ (r : Bool × FileSink × Trace). Q r.2) (leb write_buffer_size size)
            (λ _. write_large_rule k t bytes size h) (λ _. write_small_rule k t bytes size h))

  pub write_rule :
      (k : Sink) (t : Trace) (bytes : List ℕ) (size : ℕ) → Q t → Q (write P k t bytes size).2
  unfolding write
  write_rule null_sink t bytes size h = h
  write_rule (file_sink k) t bytes size h = file_write_rule k t bytes size h

  file_flush_rule : (k : FileSink) (t : Trace) → Q t → Q (Files.flush P k t).1
  unfolding Files.flush
  file_flush_rule k t h =
      if_elim Q (flush_buffer P k t).0.file_handle (λ _. on_flush _ (flush_buffer_rule k t h))
        (λ _. flush_buffer_rule k t h)

  pub flush_rule : (k : Sink) (t : Trace) → Q t → Q (flush P k t).1
  unfolding flush
  flush_rule null_sink t h = h
  flush_rule (file_sink k) t h = file_flush_rule k t h
