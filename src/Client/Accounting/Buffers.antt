-- ===== src/Client/Accounting/Buffers.antt =====
-- The buffers that the command loop takes from the pool and gives back.
use mathlib.Core.List.{Perm, perm_append_comm}
use mathlib.Core.List.Perm
use vdi_cpp_wrapper.Prelude.{
  ℕ, ◌≤◌, ◌≡◌, refl, ◌∙◌, subst, List, [], ◌∷◌, ◌++◌, Option, some, Bool, arith, ◌==◌, if_elim,
  length, length-append, ap,
}
use vdi_cpp_wrapper.Protocol.{Command, vdc_write}
use vdi_cpp_wrapper.World.{Platform}
use vdi_cpp_wrapper.Sink.{Sink}
use vdi_cpp_wrapper.Faults.{FaultInjector}
use vdi_cpp_wrapper.BufferPool
use vdi_cpp_wrapper.BufferPool.{BufferPool}
use vdi_cpp_wrapper.BufferPool.Discipline.{indices, free_buffers-new}
use vdi_cpp_wrapper.Metrics
use vdi_cpp_wrapper.Metrics.{Metrics}
use vdi_cpp_wrapper.Client
use vdi_cpp_wrapper.Client.{VdiClient, buffer_size, buffer_pool_size, fail, now_us}
use vdi_cpp_wrapper.Client.Chunk.{
  Flow, stop, crash, Times, receive, on_get_command_error, use_buffer, account_chunk, store_chunk,
  sink_stage, call_complete_command, record_completion,
}
use vdi_cpp_wrapper.Client.Loop.{run_loop}
use vdi_cpp_wrapper.Client.Rules.{AfterStore-all, Stages, run_loop_rule}
use vdi_cpp_wrapper.Client.Accounting.{
  SameBooks, store_chunk-SameBooks, on_get_command_error-SameBooks,
}

-- No buffer is in use, at most one has ever been, every chunk has taken one and given it back, and
-- the pool holds all the buffers of its constructor.
pub record IsSettled (c : VdiClient) : Type 0 where
  pub idle : c.active_buffers ≡ 0
  pub highest : c.max_active_buffers ≤ 1
  pub no_misses : c.metrics.buffer_pool_misses ≡ 0
  pub all_hits : c.metrics.buffer_pool_hits ≡ c.metrics.buffer_acquire_count
  pub all_returned : c.metrics.buffer_release_count ≡ c.metrics.buffer_acquire_count
  pub all_chunks : c.metrics.buffer_acquire_count ≡ c.metrics.chunk_count
  pub stocked : length c.buffer_pool.free_buffers ≡ buffer_pool_size
  pub whole : Perm c.buffer_pool.free_buffers (indices 0 buffer_pool_size)

abbrev pub Balanced : Flow → VdiClient → Type 0
Balanced flow c = IsSettled c

abbrev Kept : ℕ → Command → VdiClient → Type 0
Kept device cmd c = IsSettled c

pub SameBooks-IsSettled : (c d : VdiClient) → SameBooks c d → IsSettled c → IsSettled d
SameBooks-IsSettled c d (m, p, a, x) h = record {
  idle = a ∙ h.idle;
  highest = rw x h.highest;
  no_misses = rw m h.no_misses;
  all_hits = rw m h.all_hits;
  all_returned = rw m h.all_returned;
  all_chunks = rw m h.all_chunks;
  stocked = rw p h.stocked;
  whole = rw p h.whole;
}

acquire_lem :
    (p : BufferPool) (f : ℕ) (fs : List ℕ)
    → p.free_buffers ≡ f ∷ fs
    → BufferPool.acquire p ≡ (some f, record p { free_buffers = fs })
unfolding BufferPool.acquire
acquire_lem p f fs e = ground (arith, e)

-- What the accounting of a chunk does to the books, where the pool has the buffer `f` in front.
account_chunk_lem :
    (P : Platform) (size : ℕ) (c : VdiClient) (f : ℕ) (fs : List ℕ)
    → c.buffer_pool.free_buffers ≡ f ∷ fs
    → IsSettled c
    → let d = account_chunk P size c in
      (d.active_buffers ≡ 0)
      × (d.max_active_buffers ≤ 1)
      × (d.metrics.buffer_pool_misses ≡ 0)
      × (d.metrics.buffer_pool_hits ≡ d.metrics.buffer_acquire_count)
      × (d.metrics.buffer_release_count ≡ d.metrics.buffer_acquire_count)
      × (d.metrics.buffer_acquire_count ≡ d.metrics.chunk_count)
      × (d.buffer_pool.free_buffers ≡ fs ++ f ∷ [])
unfolding account_chunk use_buffer Metrics.add_bytes Metrics.record_chunk_size
    Metrics.record_buffer_acquire Metrics.record_buffer_release BufferPool.release
account_chunk_lem P size c f fs e h = ground (arith, acquire_lem c.buffer_pool f fs e)

nonempty : (fs : List ℕ) → length fs ≡ buffer_pool_size → (f : ℕ) × (gs : List ℕ) × (fs ≡ f ∷ gs)
nonempty [] e = absurd (omega arith)
nonempty (f ∷ fs) e = (f, fs, refl)

account_chunk-IsSettled :
    (P : Platform) (size : ℕ) (c : VdiClient) → IsSettled c → IsSettled (account_chunk P size c)
account_chunk-IsSettled P size c h =
    let (f, fs, e) = nonempty c.buffer_pool.free_buffers h.stocked in
    let (idle, highest, misses, hits, returned, chunks, free) =
      account_chunk_lem P size c f fs e h in
    record {
      idle = idle;
      highest = highest;
      no_misses = misses;
      all_hits = hits;
      all_returned = returned;
      all_chunks = chunks;
      stocked = rw free (omega (arith, length-append fs (f ∷ []), ap length e, h.stocked));
      whole = rw free (
          Perm.trans (perm_append_comm fs (f ∷ []))
            (subst (λ l. Perm l (indices 0 buffer_pool_size)) e h.whole));
    }

sink_stage-IsSettled :
    (P : Platform) (cmd : Command) (c : VdiClient)
    → IsSettled c
    → IsSettled (sink_stage P cmd cmd.command_code c).2
unfolding sink_stage
sink_stage-IsSettled P cmd c h =
    if_elim (λ (q : Flow × ℕ × VdiClient). IsSettled q.2) (cmd.command_code == vdc_write)
      (λ _.
        let c1 = account_chunk P cmd.size c in
        SameBooks-IsSettled c1 (store_chunk P cmd c1).2 (store_chunk-SameBooks P cmd c1)
          (account_chunk-IsSettled P cmd.size c h))
      (λ _. h)

pool-record_completion :
    (cmd : Command) (s : Times) (cc_us : ℕ) (c : VdiClient)
    → (record_completion cmd s cc_us c).1.buffer_pool ≡ c.buffer_pool
unfolding record_completion
pool-record_completion cmd s cc_us c = ground arith

record_completion-IsSettled :
    (cmd : Command) (s : Times) (cc_us : ℕ) (c : VdiClient)
    → IsSettled c
    → IsSettled (record_completion cmd s cc_us c).1
unfolding record_completion Metrics.record_chunk_timing
record_completion-IsSettled cmd s cc_us c h = record {
  idle = ground (arith, h.idle);
  highest = ground (arith, h.highest);
  no_misses = ground (arith, h.no_misses);
  all_hits = ground (arith, h.all_hits);
  all_returned = ground (arith, h.all_returned);
  all_chunks = ground (arith, h.all_chunks);
  stocked = ground (arith, h.stocked);
  whole = rw (pool-record_completion cmd s cc_us c) h.whole;
}

Settled-Stages : (P : Platform) → Stages P Balanced Kept Kept (λ hr. Kept)
unfolding now_us call_complete_command receive
Settled-Stages P = record {
  tick_held = λ device cmd c h. kept c h;
  tick_stored = λ device cmd c h. kept c h;
  tick_done = λ hr device cmd c h. kept c h;
  on_error = λ device c h e.
      let (r, c1) = receive P device c in
      SameBooks-IsSettled c1 (on_get_command_error P r.hr r.gc_end c1).1
        (on_get_command_error-SameBooks P r.hr r.gc_end c1) (received device c h);
  on_null = λ device c h e f. received device c h;
  on_command = λ device c h cmd e f. received device c h;
  on_refused = λ device cmd c h e. failing c h;
  on_close = λ device cmd c h e. h;
  on_store = λ device cmd c h.
      let s = sink_stage-IsSettled P cmd c h in
      AfterStore-all (Balanced stop) (Balanced crash) (Kept device cmd)
        (sink_stage P cmd cmd.command_code c) s s s;
  on_complete = λ device cmd c h.
      SameBooks-IsSettled c (call_complete_command P device cmd c).1 (refl, refl, refl, refl) h;
  on_incomplete = λ device cmd b c e h. failing c h;
  on_done = λ hr device cmd c s cc_us e h. record_completion-IsSettled cmd s cc_us c h;
}
  where
    kept : (c : VdiClient) → IsSettled c → IsSettled (now_us P c).1
    kept c h = SameBooks-IsSettled c (now_us P c).1 (refl, refl, refl, refl) h

    failing : (c : VdiClient) → IsSettled c → IsSettled (fail c)
    failing c h = SameBooks-IsSettled c (fail c) (refl, refl, refl, refl) h

    received : (device : ℕ) (c : VdiClient) → IsSettled c → IsSettled (receive P device c).1
    received device c h = SameBooks-IsSettled c (receive P device c).1 (refl, refl, refl, refl) h

pub run_loop-IsSettled :
    (P : Platform) (fuel start : ℕ) (devices : List ℕ) (c : VdiClient)
    → IsSettled c
    → IsSettled (run_loop P fuel start devices c).1
run_loop-IsSettled P fuel start devices c h =
    run_loop_rule P Balanced Kept Kept (λ hr. Kept) (Settled-Stages P) fuel start devices c h

pub new-IsSettled :
    (sink : Option Sink) (logging : Bool) (f : FaultInjector)
    → IsSettled (Client.new sink logging f [])
unfolding Client.new Metrics.new
new-IsSettled sink logging f =
    let free = free_buffers-new buffer_size buffer_pool_size in
    record {
      idle = refl;
      highest = omega arith;
      no_misses = refl;
      all_hits = refl;
      all_returned = refl;
      all_chunks = refl;
      stocked = rw free refl;
      whole = rw free (Perm.refl (indices 0 buffer_pool_size));
    }
