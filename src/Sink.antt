-- ===== src/Sink.antt =====
-- include/sink.h: the interface `Sink` as a data type with a case for each implementation, and its
-- virtual methods as functions by clauses. `NullSink` is here; `FileSink` is in Sink/Files.
pub mod Files
pub mod Calls
pub mod Bytes
pub mod Paths
pub mod Integrity
pub mod Log
pub mod Handles
use vdi_cpp_wrapper.Prelude.{ℕ, Bool, true, List}
use vdi_cpp_wrapper.World.{Trace, Platform}
use Files.{FileSink}
use Files

pub data Sink : Type 0 where
  null_sink : Sink
  file_sink : FileSink → Sink

-- bool write(data, size): `data` are the bytes that can be read behind the pointer.
unfoldable pub write : Platform → Sink → Trace → List ℕ → ℕ → Bool × Sink × Trace
write P null_sink t bytes size = (true, null_sink, t)
write P (file_sink k) t bytes size =
    let (done, k', t') = Files.write P k t bytes size in (done, file_sink k', t')

-- void flush(): `NullSink` inherits the empty one.
unfoldable pub flush : Platform → Sink → Trace → Sink × Trace
flush P null_sink t = (null_sink, t)
flush P (file_sink k) t = let (k', t') = Files.flush P k t in (file_sink k', t')

-- bool is_open() const
unfoldable pub is_open : Sink → Bool
is_open null_sink = true
is_open (file_sink k) = Files.is_open k

-- virtual ~Sink(): the calls that the destructor makes.
unfoldable pub destroy : Platform → Sink → Trace → Trace
destroy P null_sink t = t
destroy P (file_sink k) t = Files.destroy P k t
