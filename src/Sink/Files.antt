-- ===== src/Sink/Files.antt =====
-- include/file_sink.h and src/file_sink.cpp: the buffered file writer.
use vdi_cpp_wrapper.Prelude.{
  ℕ, ◌+◌, ◌*◌, ◌%◌, List, [], ◌∷◌, ◌++◌, Option, none, some, Bool, true, false, not, ◌||◌, ltb, leb,
  ◌==◌, if◌then◌else◌, take, drop, u32_mod, add64,
}
use vdi_cpp_wrapper.World.{
  Trace, Platform, create_file, aligned_malloc, write_file, flush_file, close_file, aligned_free,
}

-- `file_handle` says whether the handle is not INVALID_HANDLE_VALUE. `write_buffer` is `none` for
-- the null pointer, and otherwise what has been copied to the buffer's start.
pub record FileSink : Type 0 where
  pub file_handle : Bool
  pub write_buffer : Option (List ℕ)
  pub buffered_bytes : ℕ

abbrev pub write_buffer_size : ℕ
write_buffer_size = 1 * 1024 * 1024

abbrev pub memory : Option (List ℕ) → List ℕ
memory none = []
memory (some m) = m

abbrev pub is_null : Option (List ℕ) → Bool
is_null none = true
is_null (some m) = false

-- The handle and the buffer, once the path is converted.
open_file : Platform → FileSink → Trace → FileSink × Trace
open_file P k t =
    let opened = P.on_create_file t in
    let t1 = create_file opened ∷ t in
    let allocated = P.on_aligned_malloc t1 in
    (
      record {
        file_handle = opened;
        write_buffer = if allocated then some [] else none;
        buffered_bytes = k.buffered_bytes;
      },
      aligned_malloc allocated ∷ t1,
    )

-- FileSink::FileSink(path)
unfoldable pub new : Platform → Trace → FileSink × Trace
unfolding open_file
new P t =
    let k : FileSink = record { file_handle = false; write_buffer = none; buffered_bytes = 0 } in
    if P.on_wide_path t then open_file P k t else (k, t)

-- WriteFile(handle, bytes): its result and the number of bytes written.
abbrev pub call_write_file : Platform → Trace → List ℕ → Bool × ℕ × Trace
call_write_file P t bytes =
    let (done, n) = P.on_write_file t bytes in (done, n, write_file bytes done n ∷ t)

-- void flush_buffer(): the result of WriteFile is not read.
unfoldable pub flush_buffer : Platform → FileSink → Trace → FileSink × Trace
flush_buffer P k t = if k.buffered_bytes == 0 then (k, t) else (
  record k { buffered_bytes = 0 },
  (call_write_file P t (take (k.buffered_bytes % u32_mod) (memory k.write_buffer))).2,
)

-- memcpy(write_buffer + at, bytes, size)
unfoldable pub copy_at : Option (List ℕ) → ℕ → List ℕ → ℕ → Option (List ℕ)
copy_at none at bytes size = none
copy_at (some m) at bytes size = some (take at m ++ (take size bytes ++ drop (at + size) m))

-- The direct WriteFile of a large chunk, and the test of its result.
unfoldable pub write_direct : Platform → FileSink → Trace → List ℕ → ℕ → Bool × FileSink × Trace
write_direct P k t bytes size =
    let (done, n, t1) = call_write_file P t (take (size % u32_mod) bytes) in
    (if not done then false else n == size, k, t1)

-- A chunk as large as the buffer goes to the file directly, after what waits in the buffer.
unfoldable pub write_large : Platform → FileSink → Trace → List ℕ → ℕ → Bool × FileSink × Trace
unfolding write_direct
write_large P k t bytes size =
    let (k1, t1) = if ltb 0 k.buffered_bytes then flush_buffer P k t else (k, t) in
    write_direct P k1 t1 bytes size

-- A smaller chunk goes to the buffer, which is emptied first if the chunk does not fit.
unfoldable pub write_small : Platform → FileSink → Trace → List ℕ → ℕ → Bool × FileSink × Trace
write_small P k t bytes size =
    let (k1, t1) =
      if ltb write_buffer_size (add64 k.buffered_bytes size) then flush_buffer P k t else (k, t) in
    (
      true,
      record k1 {
        write_buffer = copy_at k1.write_buffer k1.buffered_bytes bytes size;
        buffered_bytes = add64 k1.buffered_bytes size;
      },
      t1,
    )

-- bool write(data, size)
unfoldable pub write : Platform → FileSink → Trace → List ℕ → ℕ → Bool × FileSink × Trace
write P k t bytes size =
    if not k.file_handle || is_null k.write_buffer
    then (false, k, t)
    else if leb write_buffer_size size
    then write_large P k t bytes size
    else write_small P k t bytes size

unfoldable pub is_open : FileSink → Bool
is_open k = k.file_handle

-- void flush()
unfoldable pub flush : Platform → FileSink → Trace → FileSink × Trace
flush P k t =
    let (k1, t1) = flush_buffer P k t in (k1, if k1.file_handle then flush_file ∷ t1 else t1)

-- FileSink::~FileSink(): the calls that it makes.
unfoldable pub destroy : Platform → FileSink → Trace → Trace
destroy P k t =
    let (k1, t1) = flush_buffer P k t in
    let t2 = if k1.file_handle then close_file ∷ t1 else t1 in
    if is_null k1.write_buffer then t2 else aligned_free ∷ t2
