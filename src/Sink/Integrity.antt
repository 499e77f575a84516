-- ===== src/Sink/Integrity.antt =====
-- What `write` and `flush` of a `FileSink` promise.
use mathlib.Core.List.{append-nil}
use vdi_cpp_wrapper.Prelude.{
  if◌then◌else◌, if_elim, ℕ, ◌+◌, ◌≤◌, ◌<◌, ◌%◌, ◌≡◌, refl, List, [], ◌++◌, Option, none, some,
  true, false, arith, take, length, u32_mod, leb, if◌then◌else◌, if_elim,
}
use vdi_cpp_wrapper.World.{Trace, Platform}
use vdi_cpp_wrapper.Sink.Files.{
  FileSink, write_buffer_size, is_null, flush_buffer, write_large, write_small, write, flush,
}
use vdi_cpp_wrapper.Sink.Bytes.{file_bytes, pending, accepted, IsValid, WritesAll, IsReady, Appends}
use vdi_cpp_wrapper.Sink.Paths.{
  flush_buffer_lem, take-copy_at, write_small-Appends, write_large-Appends,
}

allocated_memory : (o : Option (List ℕ)) → is_null o ≡ false → (m : List ℕ) × (o ≡ some m)
allocated_memory none h = cc
allocated_memory (some m) h = (m, refl)

write_lem :
    (P : Platform) (k : FileSink) (t : Trace) (bytes : List ℕ) (size : ℕ)
    → IsReady k
    → write P k t bytes size ≡ (
        if leb write_buffer_size size
        then write_large P k t bytes size
        else write_small P k t bytes size)
unfolding write
write_lem P k t bytes size r = ground arith

-- On a disk where every WriteFile writes all that it is given, `write` of a ready file sink
-- returns true for every chunk of fewer than 2^32 bytes that its pointer can serve, and the bytes
-- accepted so far (those in the file, then those in the buffer) are extended by exactly that
-- chunk; the sink stays valid and ready. This holds on all three paths: buffered, buffered after
-- a flush, and direct.
pub write-Appends :
    (P : Platform) (k : FileSink) (t : Trace) (bytes : List ℕ) (size : ℕ)
    → WritesAll P
    → IsValid k
    → IsReady k
    → size ≤ length bytes
    → size < u32_mod
    → Appends k t bytes size (write P k t bytes size)
write-Appends P k t bytes size w v r h small =
    let (m, e) = allocated_memory k.write_buffer r.allocated in
    rw (write_lem P k t bytes size r) (
      if_elim (Appends k t bytes size) (leb write_buffer_size size)
        (λ large. write_large-Appends P k t bytes size w v r h small)
        (λ fits. write_small-Appends P k t bytes size m w e v r h (ground arith)))

-- After `flush` on such a disk the file holds everything accepted, and nothing waits.
pub file_bytes-flush :
    (P : Platform) (k : FileSink) (t : Trace)
    → WritesAll P
    → IsValid k
    → let (k', t') = flush P k t in
      (file_bytes t' ≡ accepted k t)
      × (pending k' ≡ [])
      × IsValid k'
      × (k'.file_handle ≡ k.file_handle)
      × (k'.write_buffer ≡ k.write_buffer)
unfolding flush file_bytes
file_bytes-flush P k t w v =
    rw (flush_buffer_lem P k t w v).1 (ground (arith, flush_buffer_lem P k t w v))

-- When the buffer must be emptied for a small chunk and WriteFile fails and writes nothing,
-- `write` still returns true, and the bytes that waited are in neither the file nor the buffer:
-- only the new chunk is left behind what the file held before. The sink is ready and valid, and
-- the chunk is one that its pointer can serve.
pub write-loses_pending :
    (P : Platform) (k : FileSink) (t : Trace) (bytes : List ℕ) (size : ℕ)
    → IsValid k
    → IsReady k
    → size ≤ length bytes
    → size < write_buffer_size
    → write_buffer_size < k.buffered_bytes + size
    → P.on_write_file t (pending k) ≡ (false, 0)
    → let (done, k', t') = write P k t bytes size in
      (done ≡ true) × (accepted k' t' ≡ file_bytes t ++ take size bytes)
unfolding write write_small flush_buffer file_bytes
write-loses_pending P k t bytes size v r h small over fails =
    let (m, e) = allocated_memory k.write_buffer r.allocated in
    ground (
      arith,
      full,
      fails,
      r.opened,
      r.allocated,
      take-copy_at m 0 size bytes (omega arith) h,
      append-nil (file_bytes t),
      e,
    )
  where
    full : k.buffered_bytes % u32_mod ≡ k.buffered_bytes
    full = omega (arith, v.within)
