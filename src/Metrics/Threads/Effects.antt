-- ===== src/Metrics/Threads/Effects.antt =====
-- What a thread has still to do to the counters, as a list of effects that commute.
use Prim.Native.Nat.{min, max}
use vdi_cpp_wrapper.Prelude.{
  ℕ, ◌≡◌, refl, ap, ◌∙◌, List, [], ◌∷◌, ◌++◌, Bool, true, false, arith, if◌then◌else◌, add64,
}
use vdi_cpp_wrapper.Metrics.{
  Metrics, add_bytes, record_chunk_size, record_buffer_acquire, record_buffer_release,
}
use vdi_cpp_wrapper.Metrics.Counters.{update_min_lem, update_max_lem}
use vdi_cpp_wrapper.Metrics.Threads.{
  Call, adds_bytes, records_chunk_size, records_acquire, records_release, Point, between, counting,
  lowering, lowered, raising, raised, acquired, call, run_calls,
}

pub data Counter : Type 0 where
  bytes_counter chunk_counter min_counter max_counter sum_counter : Counter
  acquire_counter release_counter hit_counter miss_counter : Counter

same : Counter → Counter → Bool
same bytes_counter bytes_counter = true
same chunk_counter chunk_counter = true
same min_counter min_counter = true
same max_counter max_counter = true
same sum_counter sum_counter = true
same acquire_counter acquire_counter = true
same release_counter release_counter = true
same hit_counter hit_counter = true
same miss_counter miss_counter = true
same _ _ = false

-- How each counter takes a number in.
take_in : Counter → ℕ → ℕ → ℕ
take_in min_counter n x = min n x
take_in max_counter n x = max n x
take_in _ n x = add64 x n

pub record Effect : Type 0 where
  pub counter : Counter
  pub amount : ℕ

act : Counter → Effect → ℕ → ℕ
act k e x = if same k e.counter then take_in k e.amount x else x

unfoldable pub perform : Effect → Metrics → Metrics
unfolding act same take_in
perform e m = record m {
  total_bytes = act bytes_counter e m.total_bytes;
  chunk_count = act chunk_counter e m.chunk_count;
  min_chunk_size = act min_counter e m.min_chunk_size;
  max_chunk_size = act max_counter e m.max_chunk_size;
  sum_chunk_sizes = act sum_counter e m.sum_chunk_sizes;
  buffer_acquire_count = act acquire_counter e m.buffer_acquire_count;
  buffer_release_count = act release_counter e m.buffer_release_count;
  buffer_pool_hits = act hit_counter e m.buffer_pool_hits;
  buffer_pool_misses = act miss_counter e m.buffer_pool_misses;
}

take_in_comm : (k : Counter) (a b x : ℕ) → take_in k a (take_in k b x) ≡ take_in k b (take_in k a x)
unfolding take_in
take_in_comm bytes_counter a b x = omega arith
take_in_comm chunk_counter a b x = omega arith
take_in_comm min_counter a b x = omega arith
take_in_comm max_counter a b x = omega arith
take_in_comm sum_counter a b x = omega arith
take_in_comm acquire_counter a b x = omega arith
take_in_comm release_counter a b x = omega arith
take_in_comm hit_counter a b x = omega arith
take_in_comm miss_counter a b x = omega arith

act_comm : (k : Counter) (d e : Effect) (x : ℕ) → act k d (act k e x) ≡ act k e (act k d x)
unfolding act
act_comm k d e x = ground (arith, take_in_comm k d.amount e.amount x)

perform_comm : (d e : Effect) (m : Metrics) → perform d (perform e m) ≡ perform e (perform d m)
unfolding perform
perform_comm d e m = ground (
  arith,
  act_comm bytes_counter d e m.total_bytes,
  act_comm chunk_counter d e m.chunk_count,
  act_comm min_counter d e m.min_chunk_size,
  act_comm max_counter d e m.max_chunk_size,
  act_comm sum_counter d e m.sum_chunk_sizes,
  act_comm acquire_counter d e m.buffer_acquire_count,
  act_comm release_counter d e m.buffer_release_count,
  act_comm hit_counter d e m.buffer_pool_hits,
  act_comm miss_counter d e m.buffer_pool_misses,
)

unfoldable pub perform_all : List Effect → Metrics → Metrics
perform_all [] m = m
perform_all (e ∷ es) m = perform_all es (perform e m)

-- An effect may be performed before those that stand in front of it.
pub perform_all_middle :
    (xs ys : List Effect) (e : Effect) (m : Metrics)
    → perform_all (xs ++ e ∷ ys) m ≡ perform_all (xs ++ ys) (perform e m)
unfolding perform_all
perform_all_middle [] ys e m = refl
perform_all_middle (x ∷ xs) ys e m =
    perform_all_middle xs ys e (perform x m) ∙ ap (perform_all (xs ++ ys)) (perform_comm e x m)

abbrev hit_or_miss : Bool → Counter
hit_or_miss true = hit_counter
hit_or_miss false = miss_counter

abbrev effect : Counter → ℕ → Effect
effect k n = record { counter = k; amount = n }

abbrev pub effects_of_call : Call → List Effect
effects_of_call (adds_bytes size) = effect bytes_counter size ∷ effect chunk_counter 1 ∷ []
effects_of_call (records_chunk_size size) =
    effect min_counter size ∷ effect max_counter size ∷ effect sum_counter size ∷ []
effects_of_call (records_acquire success) =
    effect acquire_counter 1 ∷ effect (hit_or_miss success) 1 ∷ []
effects_of_call records_release = effect release_counter 1 ∷ []

abbrev pub effects : List Call → List Effect
effects [] = []
effects (c ∷ cs) = effects_of_call c ++ effects cs

-- What is left of the method that a thread is in, and of those after it.
abbrev pub remaining : Point → List Effect
remaining (between todo) = effects todo
remaining (counting todo) = effect chunk_counter 1 ∷ effects todo
remaining (lowering size cur_min todo) =
    effect min_counter size ∷ effect max_counter size ∷ effect sum_counter size ∷ effects todo
remaining (lowered size todo) = effect max_counter size ∷ effect sum_counter size ∷ effects todo
remaining (raising size cur_max todo) =
    effect max_counter size ∷ effect sum_counter size ∷ effects todo
remaining (raised size todo) = effect sum_counter size ∷ effects todo
remaining (acquired success todo) = effect (hit_or_miss success) 1 ∷ effects todo

abbrev pub all_remaining : List Point → List Effect
all_remaining [] = []
all_remaining (p ∷ ps) = remaining p ++ all_remaining ps

perform_all-append :
    (xs ys : List Effect) (m : Metrics)
    → perform_all (xs ++ ys) m ≡ perform_all ys (perform_all xs m)
unfolding perform_all
perform_all-append [] ys m = refl
perform_all-append (x ∷ xs) ys m = perform_all-append xs ys (perform x m)

call-effects : (c : Call) (m : Metrics) → perform_all (effects_of_call c) m ≡ call m c
unfolding perform_all perform call add_bytes record_chunk_size record_buffer_acquire
    record_buffer_release
call-effects (adds_bytes size) m = refl
call-effects (records_chunk_size size) m =
    ground (arith, update_min_lem 0 size m.min_chunk_size, update_max_lem 0 size m.max_chunk_size)
call-effects (records_acquire true) m = refl
call-effects (records_acquire false) m = refl
call-effects records_release m = refl

-- The effects of the calls are what the calls do when nothing comes between them.
pub run_calls-effects : (cs : List Call) (m : Metrics) → perform_all (effects cs) m ≡ run_calls m cs
unfolding perform_all run_calls
run_calls-effects [] m = refl
run_calls-effects (c ∷ cs) m =
    perform_all-append (effects_of_call c) (effects cs) m
    ∙ ap (perform_all (effects cs)) (call-effects c m)
    ∙ run_calls-effects cs (call m c)
