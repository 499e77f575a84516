-- ===== src/Metrics/Threads.antt =====
-- include/metrics.h and src/metrics.cpp: the atomic counters under several threads. The counters
-- are std::atomic with the default memory order, so a run is an interleaving of the threads'
-- single accesses. `record_chunk_timing` is no part of it: its vector is not atomic.
pub mod Effects
pub mod Interleavings
pub mod Solo
use vdi_cpp_wrapper.Prelude.{ℕ, ◌≤◌, ◌<◌, ◌≡◌, List, [], ◌∷◌, ◌++◌, Bool, true, false, add64}
use vdi_cpp_wrapper.Metrics.{
  Metrics, add_bytes, record_chunk_size, record_buffer_acquire, record_buffer_release,
}

-- A call of one of the methods that only touch atomic counters.
pub data Call : Type 0 where
  adds_bytes : ℕ → Call
  records_chunk_size : ℕ → Call
  records_acquire : Bool → Call
  records_release : Call

-- Where a thread stands, with the local variables that are live there; `todo` is what it has
-- still to call after the method that it is in.
pub data Point : Type 0 where
  -- between two methods
  between : (todo : List Call) → Point
  -- in add_bytes, before `chunk_count_++`
  counting : (todo : List Call) → Point
  -- at the loop around min_chunk_size_.compare_exchange_weak
  lowering : (size cur_min : ℕ) (todo : List Call) → Point
  -- before max_chunk_size_.load()
  lowered : (size : ℕ) (todo : List Call) → Point
  -- at the loop around max_chunk_size_.compare_exchange_weak
  raising : (size cur_max : ℕ) (todo : List Call) → Point
  -- before `sum_chunk_sizes_ += size`
  raised : (size : ℕ) (todo : List Call) → Point
  -- in record_buffer_acquire, before the hits or the misses
  acquired : (success : Bool) (todo : List Call) → Point

-- One access of one thread. A weak exchange that fails, because another thread has changed the
-- counter or spuriously, reads the counter again into the local variable.
pub data Move (m : Metrics) : Point → Metrics → Point → Type 0 where
  adds :
      {size : ℕ} {todo : List Call}
      → Move m
          (between (adds_bytes size ∷ todo))
          (record m { total_bytes = add64 m.total_bytes size })
          (counting todo)
  counts :
      {todo : List Call}
      → Move m (counting todo) (record m { chunk_count = add64 m.chunk_count 1 }) (between todo)
  loads_min :
      {size : ℕ} {todo : List Call}
      → Move m (between (records_chunk_size size ∷ todo)) m (lowering size m.min_chunk_size todo)
  lowers :
      {size cur_min : ℕ} {todo : List Call}
      → size < cur_min
      → m.min_chunk_size ≡ cur_min
      → Move m (lowering size cur_min todo) (record m { min_chunk_size = size }) (lowered size todo)
  fails_to_lower :
      {size cur_min : ℕ} {todo : List Call}
      → size < cur_min
      → Move m (lowering size cur_min todo) m (lowering size m.min_chunk_size todo)
  need_not_lower :
      {size cur_min : ℕ} {todo : List Call}
      → cur_min ≤ size
      → Move m (lowering size cur_min todo) m (lowered size todo)
  loads_max :
      {size : ℕ} {todo : List Call}
      → Move m (lowered size todo) m (raising size m.max_chunk_size todo)
  raises :
      {size cur_max : ℕ} {todo : List Call}
      → cur_max < size
      → m.max_chunk_size ≡ cur_max
      → Move m (raising size cur_max todo) (record m { max_chunk_size = size }) (raised size todo)
  fails_to_raise :
      {size cur_max : ℕ} {todo : List Call}
      → cur_max < size
      → Move m (raising size cur_max todo) m (raising size m.max_chunk_size todo)
  need_not_raise :
      {size cur_max : ℕ} {todo : List Call}
      → size ≤ cur_max
      → Move m (raising size cur_max todo) m (raised size todo)
  sums :
      {size : ℕ} {todo : List Call}
      → Move m
          (raised size todo)
          (record m { sum_chunk_sizes = add64 m.sum_chunk_sizes size })
          (between todo)
  acquires :
      {success : Bool} {todo : List Call}
      → Move m
          (between (records_acquire success ∷ todo))
          (record m { buffer_acquire_count = add64 m.buffer_acquire_count 1 })
          (acquired success todo)
  hits :
      {todo : List Call}
      → Move m
          (acquired true todo)
          (record m { buffer_pool_hits = add64 m.buffer_pool_hits 1 })
          (between todo)
  misses :
      {todo : List Call}
      → Move m
          (acquired false todo)
          (record m { buffer_pool_misses = add64 m.buffer_pool_misses 1 })
          (between todo)
  releases :
      {todo : List Call}
      → Move m
          (between (records_release ∷ todo))
          (record m { buffer_release_count = add64 m.buffer_release_count 1 })
          (between todo)

-- One of the threads moves.
pub data Step (m : Metrics) : List Point → Metrics → List Point → Type 0 where
  here : {p q : Point} {ps : List Point} {n : Metrics} → Move m p n q → Step m (p ∷ ps) n (q ∷ ps)
  there :
      {p : Point} {ps qs : List Point} {n : Metrics} → Step m ps n qs → Step m (p ∷ ps) n (p ∷ qs)

-- Any number of moves, in any interleaving.
pub data Steps (m : Metrics) (ps : List Point) : Metrics → List Point → Type 0 where
  start : Steps m ps m ps
  further :
      {n k : Metrics} {qs rs : List Point} → Steps m ps n qs → Step n qs k rs → Steps m ps k rs

-- The threads at their start, and when each has made its calls.
abbrev pub begin : List (List Call) → List Point
begin [] = []
begin (calls ∷ work) = between calls ∷ begin work

abbrev pub ended : List (List Call) → List Point
ended [] = []
ended (calls ∷ work) = between [] ∷ ended work

-- The calls of all threads, one thread after the other.
abbrev pub all_calls : List (List Call) → List Call
all_calls [] = []
all_calls (calls ∷ work) = calls ++ all_calls work

-- The same calls by one thread alone, with no spurious failure.
unfoldable pub call : Metrics → Call → Metrics
call m (adds_bytes size) = add_bytes m size
call m (records_chunk_size size) = record_chunk_size m 0 0 size
call m (records_acquire success) = record_buffer_acquire m success
call m records_release = record_buffer_release m

unfoldable pub run_calls : Metrics → List Call → Metrics
unfolding call
run_calls m [] = m
run_calls m (c ∷ cs) = run_calls (call m c) cs
