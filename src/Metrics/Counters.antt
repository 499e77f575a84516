-- ===== src/Metrics/Counters.antt =====
-- The counters after a series of chunks, against what they count.
use Prim.Native.Nat.{min, max}
use vdi_cpp_wrapper.Prelude.{
  ℕ, zero, suc, ◌+◌, ◌%◌, ◌≤◌, ◌≡◌, List, [], ◌∷◌, Bool, arith, length, u64_mod, uint64_max,
}
use vdi_cpp_wrapper.Metrics.{Metrics, new, add_bytes, update_min, update_max, record_chunk_size}

-- One chunk as the command loop records it: the spurious failures of the two exchanges, and the
-- size.
pub record Chunk : Type 0 where
  pub min_failures : ℕ
  pub max_failures : ℕ
  pub size : ℕ

pub record_chunks : Metrics → List Chunk → Metrics
record_chunks m [] = m
record_chunks m (c ∷ cs) =
    record_chunks (add_bytes (record_chunk_size m c.min_failures c.max_failures c.size) c.size) cs

abbrev pub sum : List Chunk → ℕ
sum [] = 0
sum (c ∷ cs) = c.size + sum cs

abbrev pub least : ℕ → List Chunk → ℕ
least d [] = d
least d (c ∷ cs) = least (min c.size d) cs

abbrev pub greatest : ℕ → List Chunk → ℕ
greatest d [] = d
greatest d (c ∷ cs) = greatest (max c.size d) cs

-- The loop around the weak exchange computes the minimum, however often it fails spuriously.
pub update_min_lem : (f size cur : ℕ) → update_min f size cur ≡ min size cur
unfolding update_min
update_min_lem zero size cur = ground arith
update_min_lem (suc f) size cur = ground (arith, update_min_lem f size cur)

pub update_max_lem : (f size cur : ℕ) → update_max f size cur ≡ max size cur
unfolding update_max
update_max_lem zero size cur = ground arith
update_max_lem (suc f) size cur = ground (arith, update_max_lem f size cur)

-- What the counters of `n` are after the chunks `cs`, from those of `m`.
pub record Counts (m : Metrics) (cs : List Chunk) (n : Metrics) : Type 0 where
  pub bytes : n.total_bytes ≡ (m.total_bytes + sum cs) % u64_mod
  pub chunks : n.chunk_count ≡ (m.chunk_count + length cs) % u64_mod
  pub smallest : n.min_chunk_size ≡ least m.min_chunk_size cs
  pub largest : n.max_chunk_size ≡ greatest m.max_chunk_size cs
  pub summed : n.sum_chunk_sizes ≡ (m.sum_chunk_sizes + sum cs) % u64_mod

record_chunks-Counts :
    (m : Metrics) (cs : List Chunk)
    → m.total_bytes ≤ uint64_max
    → m.chunk_count ≤ uint64_max
    → m.sum_chunk_sizes ≤ uint64_max
    → Counts m cs (record_chunks m cs)
unfolding record_chunks add_bytes record_chunk_size
record_chunks-Counts m [] h k l = ground arith
record_chunks-Counts m (c ∷ cs) h k l =
    let m1 = add_bytes (record_chunk_size m c.min_failures c.max_failures c.size) c.size in
    ground (
      arith,
      record_chunks-Counts m1 cs,
      update_min_lem c.min_failures c.size m.min_chunk_size,
      update_max_lem c.max_failures c.size m.max_chunk_size,
    )

-- After any chunks, recorded from a new object with any number of spurious failures of the
-- exchanges: the byte and chunk counters are the sum of the sizes and their number modulo 2^64,
-- the running sum equals the byte counter, and the extremes are those of the sizes (UINT64_MAX
-- and 0 for none).
pub record_chunks-new :
    (logging : Bool) (cs : List Chunk)
    → let m = record_chunks (new logging) cs in
      (m.total_bytes ≡ sum cs % u64_mod)
      × (m.chunk_count ≡ length cs % u64_mod)
      × (m.sum_chunk_sizes ≡ m.total_bytes)
      × (m.min_chunk_size ≡ least uint64_max cs)
      × (m.max_chunk_size ≡ greatest 0 cs)
unfolding new
record_chunks-new logging cs = ground (arith, record_chunks-Counts (new logging) cs)
