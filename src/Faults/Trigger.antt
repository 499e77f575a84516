-- ===== src/Faults/Trigger.antt =====
-- When the injector reports a failure.
use vdi_cpp_wrapper.Prelude.{ℕ, zero, suc, ◌+◌, ◌<◌, ◌≡◌, leb, u64_mod, arith}
use vdi_cpp_wrapper.Faults.{
  Counters, FaultInjector, enabled, set_fail_after_n_chunks, on_chunk_completed,
}

-- `k` completed chunks in a row, whatever the injector answers.
pub complete_chunks : ℕ → FaultInjector → FaultInjector
complete_chunks zero f = f
complete_chunks (suc k) f = complete_chunks k (on_chunk_completed f).1

complete_chunks_lem :
    (k : ℕ) (c : Counters)
    → 0 < c.fail_after_n_chunks
    → c.chunk_counter + k < u64_mod
    → complete_chunks k (enabled c) ≡ enabled (record c { chunk_counter = c.chunk_counter + k })
unfolding complete_chunks on_chunk_completed
complete_chunks_lem zero c h w = ground arith
complete_chunks_lem (suc k) c h w =
    ground (arith, complete_chunks_lem k (record c { chunk_counter = c.chunk_counter + 1 }))

-- After `set_fail_after_n_chunks n` with 0 < n, and after k more completed chunks, the next
-- `on_chunk_completed` reports a failure exactly when n ≤ k + 1: the n-th completion itself is the
-- first that fails, and every later one fails too. The counter stays below 2^64 by hypothesis.
pub on_chunk_completed-set_fail_after_n_chunks :
    (c : Counters) (n k : ℕ)
    → 0 < n
    → k + 1 < u64_mod
    → (on_chunk_completed (complete_chunks k (set_fail_after_n_chunks (enabled c) n))).0
      ≡ leb n (k + 1)
unfolding set_fail_after_n_chunks on_chunk_completed
on_chunk_completed-set_fail_after_n_chunks c n k h w =
    ground (arith, complete_chunks_lem k (record c { fail_after_n_chunks = n; chunk_counter = 0 }))
