-- ===== src/Metrics/Threads/Solo.antt =====
-- A thread that runs alone comes to the end of its calls, from wherever it stands; so the threads
-- can finish from every state that they reach.
use native.Mathlib.Decide.{dec_lt}
use vdi_cpp_wrapper.Prelude.{ℕ, ◌≡◌, refl, ap, ◌∙◌, subst, List, [], ◌∷◌, Bool, true, false, arith}
use vdi_cpp_wrapper.Metrics.{Metrics}
use vdi_cpp_wrapper.Metrics.Threads.{
  Call, adds_bytes, records_chunk_size, records_acquire, records_release, Point, between, counting,
  lowering, lowered, raising, raised, acquired, adds, counts, loads_min, lowers, fails_to_lower,
  need_not_lower, loads_max, raises, fails_to_raise, need_not_raise, sums, acquires, hits, misses,
  releases, Step, here, there, Steps, start, further, begin, ended, all_calls, run_calls,
}
use vdi_cpp_wrapper.Metrics.Threads.Interleavings.{Steps-run_calls}

pub chain :
    {m k : Metrics} {ps rs : List Point}
    → Steps m ps k rs
    → (n : Metrics) (qs : List Point) → Steps k rs n qs
    → Steps m ps n qs
chain before n qs start = before
chain before n qs (further {n = j} {qs = os} steps step) = further (chain before j os steps) step

-- Some run leads from here to there.
abbrev Leads : Metrics → List Point → List Point → Type 0
Leads m ps qs = (n : Metrics) × Steps m ps n qs

after : {m k : Metrics} {ps rs qs : List Point} → Step m ps k rs → Leads k rs qs → Leads m ps qs
after step (n, steps) = (n, chain (further start step) n _ steps)

module _ (todo : List Call) (rest goal : List Point)
    (onward : (m : Metrics) → Leads m (between todo ∷ rest) goal) where
  raised_leads : (size : ℕ) (m : Metrics) → Leads m (raised size todo ∷ rest) goal
  raised_leads size m = after (here sums) (onward _)

  -- The exchange succeeds where the counter still has the value that was read.
  fresh_raising_leads :
      (size : ℕ) (m : Metrics) → Leads m (raising size m.max_chunk_size todo ∷ rest) goal
  fresh_raising_leads size m = elim (dec_lt m.max_chunk_size size) [
    | yes lt ↦ after (here (raises lt refl)) (raised_leads size _)
    | no ge ↦ after (here (need_not_raise (omega (arith, ge)))) (raised_leads size m)
  ]

  raising_leads : (size cur_max : ℕ) (m : Metrics) → Leads m (raising size cur_max todo ∷ rest) goal
  raising_leads size cur_max m = elim (dec_lt cur_max size) [
    | yes lt ↦ after (here (fails_to_raise lt)) (fresh_raising_leads size m)
    | no ge ↦ after (here (need_not_raise (omega (arith, ge)))) (raised_leads size m)
  ]

  lowered_leads : (size : ℕ) (m : Metrics) → Leads m (lowered size todo ∷ rest) goal
  lowered_leads size m = after (here loads_max) (fresh_raising_leads size m)

  fresh_lowering_leads :
      (size : ℕ) (m : Metrics) → Leads m (lowering size m.min_chunk_size todo ∷ rest) goal
  fresh_lowering_leads size m = elim (dec_lt size m.min_chunk_size) [
    | yes lt ↦ after (here (lowers lt refl)) (lowered_leads size _)
    | no ge ↦ after (here (need_not_lower (omega (arith, ge)))) (lowered_leads size m)
  ]

  lowering_leads :
      (size cur_min : ℕ) (m : Metrics) → Leads m (lowering size cur_min todo ∷ rest) goal
  lowering_leads size cur_min m = elim (dec_lt size cur_min) [
    | yes lt ↦ after (here (fails_to_lower lt)) (fresh_lowering_leads size m)
    | no ge ↦ after (here (need_not_lower (omega (arith, ge)))) (lowered_leads size m)
  ]

  acquired_leads : (success : Bool) (m : Metrics) → Leads m (acquired success todo ∷ rest) goal
  acquired_leads true m = after (here hits) (onward _)
  acquired_leads false m = after (here misses) (onward _)

  call_leads : (c : Call) (m : Metrics) → Leads m (between (c ∷ todo) ∷ rest) goal
  call_leads (adds_bytes size) m = after (here adds) (after (here counts) (onward _))
  call_leads (records_chunk_size size) m = after (here loads_min) (fresh_lowering_leads size m)
  call_leads (records_acquire success) m = after (here acquires) (acquired_leads success _)
  call_leads records_release m = after (here releases) (onward _)

module _ (rest : List Point) where
  calls_lead : (todo : List Call) (m : Metrics) → Leads m (between todo ∷ rest) (between [] ∷ rest)
  calls_lead [] m = (m, start)
  calls_lead (c ∷ todo) m = call_leads todo rest (between [] ∷ rest) (λ k. calls_lead todo k) c m

  alone : (p : Point) (m : Metrics) → Leads m (p ∷ rest) (between [] ∷ rest)
  alone (between todo) m = calls_lead todo m
  alone (counting todo) m = after (here counts) (calls_lead todo _)
  alone (lowering size cur_min todo) m =
      lowering_leads todo rest _ (λ k. calls_lead todo k) size cur_min m
  alone (lowered size todo) m = lowered_leads todo rest _ (λ k. calls_lead todo k) size m
  alone (raising size cur_max todo) m =
      raising_leads todo rest _ (λ k. calls_lead todo k) size cur_max m
  alone (raised size todo) m = raised_leads todo rest _ (λ k. calls_lead todo k) size m
  alone (acquired success todo) m = acquired_leads todo rest _ (λ k. calls_lead todo k) success m

finished : List Point → List Point
finished [] = []
finished (p ∷ ps) = between [] ∷ finished ps

there_all :
    (p : Point) (m : Metrics) (ps : List Point) (n : Metrics) (qs : List Point)
    → Steps m ps n qs
    → Steps m (p ∷ ps) n (p ∷ qs)
there_all p m ps n qs start = start
there_all p m ps n qs (further {n = k} {qs = rs} steps step) =
    further (there_all p m ps k rs steps) (there step)

one_by_one : (ps : List Point) (m : Metrics) → Leads m ps (finished ps)
unfolding finished
one_by_one [] m = (m, start)
one_by_one (p ∷ ps) m =
    let (k, steps) = alone ps p m in
    let (n, others) = one_by_one ps k in
    (n, chain steps n _ (there_all (between []) k ps n (finished ps) others))

-- A step moves no thread away.
Step-finished : (m n : Metrics) (ps qs : List Point) → Step m ps n qs → finished qs ≡ finished ps
unfolding finished
Step-finished m n ps qs (here move) = refl
Step-finished m n ps qs (there {p} {ps = ps1} {qs = qs1} step) =
    ap (λ l. between [] ∷ l) (Step-finished m n ps1 qs1 step)

Steps-finished :
    (m : Metrics) (ps : List Point) (n : Metrics) (qs : List Point)
    → Steps m ps n qs
    → finished qs ≡ finished ps
Steps-finished m ps n qs start = refl
Steps-finished m ps n qs (further {n = k} {qs = rs} steps step) =
    Step-finished k n rs qs step ∙ Steps-finished m ps k rs steps

finished-begin : (work : List (List Call)) → finished (begin work) ≡ ended work
unfolding finished
finished-begin [] = refl
finished-begin (calls ∷ work) = ap (λ l. between [] ∷ l) (finished-begin work)

-- Any number of threads that call add_bytes, record_chunk_size, record_buffer_acquire and
-- record_buffer_release, in any interleaving of their accesses and with any spurious failures of
-- the exchanges: from every state that they reach they can finish, and however they do, the
-- counters are then those that the same calls leave when they are made one after the other.
pub threads_finish :
    (m k : Metrics) (work : List (List Call)) (ps : List Point)
    → Steps m (begin work) k ps
    → ((n : Metrics) × Steps k ps n (ended work))
      × ((n : Metrics) → Steps k ps n (ended work) → n ≡ run_calls m (all_calls work))
threads_finish m k work ps steps =
    let goal : finished ps ≡ ended work =
      Steps-finished m (begin work) k ps steps ∙ finished-begin work in
    (
      subst (λ qs. (n : Metrics) × Steps k ps n qs) goal (one_by_one ps k),
      λ n others. Steps-run_calls m n work (chain steps n (ended work) others),
    )
