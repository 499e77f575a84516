-- ===== src/Tests/Parts.antt =====
-- The parts of a session on small inputs.
use mathlib.Core.List.{Perm, Nodup}
use vdi_cpp_wrapper.Prelude.{
  ℕ, ◌+◌, ◌*◌, ◌-◌, ◌≤◌, ◌<◌, ◌≡◌, refl, List, [], ◌∷◌, ◌++◌, some, true, false, arith, replicate,
  length-replicate, ◌/◌,
}
use vdi_cpp_wrapper.Sink.Files
use vdi_cpp_wrapper.Sink.Files.{FileSink, write_buffer_size}
use vdi_cpp_wrapper.Sink.Bytes.{IsValid, IsReady, Appends, accepted, file_bytes}
use vdi_cpp_wrapper.Sink.Integrity.{write-Appends, write-loses_pending}
use vdi_cpp_wrapper.Faults.{Counters}
use vdi_cpp_wrapper.BufferPool
use vdi_cpp_wrapper.BufferPool.Discipline.{
  Usage, took, here, next, all_buffers, indices, Steps-fresh,
}
use vdi_cpp_wrapper.Metrics.Percentile.{percentile}
use vdi_cpp_wrapper.Metrics.Percentile.Sorted.{count_le, count_lt}
use vdi_cpp_wrapper.Metrics.Percentile.Rank.{percentile_bounds}
use vdi_cpp_wrapper.Timer.{QpcTimer, qpc_now_us, qpc_now_us_mono, qpc_now_us_wraps}
use vdi_cpp_wrapper.Tests.{platform, full_disk, empty_file}

empty_file-IsValid : IsValid empty_file
empty_file-IsValid = ground arith

empty_file-IsReady : IsReady empty_file
empty_file-IsReady = ground arith

write-Appends_example :
    Appends empty_file [] (5 ∷ 6 ∷ []) 2 (Files.write platform empty_file [] (5 ∷ 6 ∷ []) 2)
write-Appends_example =
    write-Appends platform empty_file [] (5 ∷ 6 ∷ []) 2 (λ t bytes. refl) empty_file-IsValid
      empty_file-IsReady (omega arith) (omega arith)

-- Two bytes wait in the buffer.
abbrev two_bytes : FileSink
two_bytes = record { file_handle = true; write_buffer = some (5 ∷ 6 ∷ []); buffered_bytes = 2 }

-- A full buffer.
abbrev full : FileSink
full = record {
  file_handle = true;
  write_buffer = some (replicate write_buffer_size 1);
  buffered_bytes = write_buffer_size;
}

full-IsValid : IsValid full
full-IsValid = ground (arith, length-replicate {A = ℕ} write_buffer_size 1)

full-IsReady : IsReady full
full-IsReady = ground arith

write-loses_pending_example :
    let (done, k, t) = Files.write full_disk full [] (5 ∷ 6 ∷ []) 2 in
    (done ≡ true) × (accepted k t ≡ file_bytes [] ++ (5 ∷ 6 ∷ []))
write-loses_pending_example =
    write-loses_pending full_disk full [] (5 ∷ 6 ∷ []) 2 full-IsValid full-IsReady (omega arith)
      (omega arith) (omega arith) refl

abbrev no_counts : Counters
no_counts = record { fail_after_n_chunks = 0; fail_next_command = false; chunk_counter = 0 }

-- A pool of two buffers, of which one is taken.
abbrev one_taken : Usage
one_taken = record { pool = (BufferPool.acquire (BufferPool.new 16 2)).1; held = 0 ∷ [] }

Steps-fresh_example : Perm (all_buffers one_taken) (indices 0 2) × Nodup (all_buffers one_taken)
unfolding BufferPool.new BufferPool.acquire
Steps-fresh_example = Steps-fresh 16 2 (next here (took 0 refl refl))

abbrev times : List ℕ
times = 30 ∷ 10 ∷ 20 ∷ []

-- The exact ceiling of p * n / 100.
abbrev exact_rank : ℕ → ℕ → ℕ
exact_rank p n = (p * n + 99) / 100

percentile_bounds_example :
    (50 * 3 ≤ 100 * count_le (percentile exact_rank times 50) times)
    × (100 * count_lt (percentile exact_rank times 50) times < 50 * 3)
percentile_bounds_example =
    percentile_bounds exact_rank times 50 (omega arith) (omega arith) (omega arith) (omega arith)
      (ground arith)

abbrev qpc : QpcTimer
qpc = record { freq = 10000000; start = 5 }

qpc_now_us_mono_example :
    (qpc_now_us qpc 25 ≤ qpc_now_us qpc 105) × (qpc_now_us qpc 105 ≡ (105 - 5) * 1000000 / 10000000)
qpc_now_us_mono_example =
    qpc_now_us_mono qpc 25 105 (omega arith) (omega arith) (omega arith) (omega arith) (omega arith)

-- About 21 days at 10 MHz.
qpc_now_us_wraps_example : qpc_now_us qpc (18446744073714 + 1) < qpc_now_us qpc 18446744073714
qpc_now_us_wraps_example =
    qpc_now_us_wraps qpc 18446744073714 (omega arith) (omega arith) (omega arith) (omega arith)
      (omega arith) (omega arith)
