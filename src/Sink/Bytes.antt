-- ===== src/Sink/Bytes.antt =====
-- What reaches the file behind a `FileSink`: the vocabulary.
use vdi_cpp_wrapper.Prelude.{ℕ, ◌≤◌, ◌≡◌, List, [], ◌∷◌, ◌++◌, Bool, true, false, take, length}
use vdi_cpp_wrapper.World.{Trace, Platform, write_file}
use vdi_cpp_wrapper.Sink.Files.{FileSink, write_buffer_size, memory, is_null}

-- The bytes that WriteFile has put into the file, in order.
unfoldable pub file_bytes : Trace → List ℕ
file_bytes [] = []
file_bytes (write_file bytes done n ∷ t) = file_bytes t ++ take n bytes
file_bytes (_ ∷ t) = file_bytes t

-- The bytes that wait in the buffer.
abbrev pub pending : FileSink → List ℕ
pending k = take k.buffered_bytes (memory k.write_buffer)

-- Everything accepted so far: what is in the file, then what waits.
abbrev pub accepted : FileSink → Trace → List ℕ
accepted k t = file_bytes t ++ pending k

-- The buffer holds what the counter says, and no more than it has room for.
pub record IsValid (k : FileSink) : Type 0 where
  pub within : k.buffered_bytes ≤ write_buffer_size
  pub filled : k.buffered_bytes ≤ length (memory k.write_buffer)

-- WriteFile always writes all that it is given, and says so.
abbrev pub WritesAll : Platform → Type 0
WritesAll P = (t : Trace) (bytes : List ℕ) → P.on_write_file t bytes ≡ (true, length bytes)

-- `write` is reached with an open file and an allocated buffer.
pub record IsReady (k : FileSink) : Type 0 where
  pub opened : k.file_handle ≡ true
  pub allocated : is_null k.write_buffer ≡ false

-- The result of a write that succeeded and appended the chunk to what was accepted.
abbrev pub Appends : FileSink → Trace → List ℕ → ℕ → Bool × FileSink × Trace → Type 0
Appends k t bytes size (done, k', t') =
    (done ≡ true) × (accepted k' t' ≡ accepted k t ++ take size bytes) × IsValid k' × IsReady k'
