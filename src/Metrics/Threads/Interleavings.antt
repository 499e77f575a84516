-- ===== src/Metrics/Threads/Interleavings.antt =====
-- Whatever the interleaving, the threads leave the counters that one thread alone would leave.
use mathlib.Core.List.{append_assoc}
use vdi_cpp_wrapper.Prelude.{◌≤◌, ◌≡◌, refl, sym, subst, ap, ◌∙◌, List, [], ◌∷◌, ◌++◌, arith}
use vdi_cpp_wrapper.Metrics.{Metrics}
use vdi_cpp_wrapper.Metrics.Threads.{
  Call, Point, between, counting, lowering, lowered, raising, raised, acquired, Move, adds, counts,
  loads_min, lowers, fails_to_lower, need_not_lower, loads_max, raises, fails_to_raise,
  need_not_raise, sums, acquires, hits, misses, releases, Step, here, there, Steps, start, further,
  begin, ended, all_calls, run_calls,
}
use vdi_cpp_wrapper.Metrics.Threads.Effects.{
  Effect, perform, perform_all, perform_all_middle, effects_of_call, effects, remaining,
  all_remaining, run_calls-effects,
}

-- What a thread has read is behind the counter at most.
abbrev IsFresh : Metrics → Point → Type 0
IsFresh m (lowering size cur_min todo) = m.min_chunk_size ≤ cur_min
IsFresh m (raising size cur_max todo) = cur_max ≤ m.max_chunk_size
IsFresh m _ = Unit

abbrev AreFresh : Metrics → List Point → Type 0
AreFresh m [] = Unit
AreFresh m (p ∷ ps) = IsFresh m p × AreFresh m ps

-- A move changes nothing, or performs one of the effects that remain.
data Does (m : Metrics) (es : List Effect) (n : Metrics) : List Effect → Type 0 where
  nothing : n ≡ m → Does m es n es
  one :
      (xs : List Effect) (e : Effect) (ys : List Effect)
      → es ≡ xs ++ e ∷ ys
      → n ≡ perform e m
      → Does m es n (xs ++ ys)

Move-Does :
    (m n : Metrics) (p q : Point)
    → IsFresh m p
    → Move m p n q
    → Does m (remaining p) n (remaining q)
unfolding perform
Move-Does m n p q f adds = one [] _ _ refl refl
Move-Does m n p q f counts = one [] _ _ refl refl
Move-Does m n p q f loads_min = nothing refl
Move-Does m n p q f (lowers lt e) = one [] _ _ refl (ground arith)
Move-Does m n p q f (fails_to_lower lt) = nothing refl
Move-Does m n p q f (need_not_lower le) = one [] _ _ refl (ground arith)
Move-Does m n p q f loads_max = nothing refl
Move-Does m n p q f (raises lt e) = one [] _ _ refl (ground arith)
Move-Does m n p q f (fails_to_raise lt) = nothing refl
Move-Does m n p q f (need_not_raise le) = one [] _ _ refl (ground arith)
Move-Does m n p q f sums = one [] _ _ refl refl
Move-Does m n p q f acquires = one [] _ _ refl refl
Move-Does m n p q f hits = one [] _ _ refl refl
Move-Does m n p q f misses = one [] _ _ refl refl
Move-Does m n p q f releases = one [] _ _ refl refl

Does-append :
    (m n : Metrics) (es fs rest : List Effect) → Does m es n fs → Does m (es ++ rest) n (fs ++ rest)
Does-append m n es fs rest (nothing e) = nothing e
Does-append m n es fs rest (one xs e ys f g) =
    subst (Does m (es ++ rest) n) (sym (append_assoc xs ys rest))
      (one xs e (ys ++ rest) (ap (λ l. l ++ rest) f ∙ append_assoc xs (e ∷ ys) rest) g)

Does-prepend :
    (m n : Metrics) (before es fs : List Effect)
    → Does m es n fs
    → Does m (before ++ es) n (before ++ fs)
Does-prepend m n before es fs (nothing e) = nothing e
Does-prepend m n before es fs (one xs e ys f g) =
    subst (Does m (before ++ es) n) (append_assoc before xs ys)
      (one (before ++ xs) e ys (ap (λ l. before ++ l) f ∙ sym (append_assoc before xs (e ∷ ys))) g)

Step-Does :
    (m n : Metrics) (ps qs : List Point)
    → AreFresh m ps
    → Step m ps n qs
    → Does m (all_remaining ps) n (all_remaining qs)
Step-Does m n ps qs f (here {p} {q} {ps = rest} move) =
    Does-append m n (remaining p) (remaining q) (all_remaining rest) (Move-Does m n p q f.0 move)
Step-Does m n ps qs f (there {p} {ps = ps1} {qs = qs1} step) =
    Does-prepend m n (remaining p) (all_remaining ps1) (all_remaining qs1)
      (Step-Does m n ps1 qs1 f.1 step)

-- The minimum only falls and the maximum only rises, so the other threads stay fresh.
abbrev Widens : Metrics → Metrics → Type 0
Widens m n = (n.min_chunk_size ≤ m.min_chunk_size) × (m.max_chunk_size ≤ n.max_chunk_size)

Move-Widens : (m n : Metrics) (p q : Point) → Move m p n q → Widens m n × IsFresh n q
Move-Widens m n p q adds = ground arith
Move-Widens m n p q counts = ground arith
Move-Widens m n p q loads_min = ground arith
Move-Widens m n p q (lowers lt e) = ground arith
Move-Widens m n p q (fails_to_lower lt) = ground arith
Move-Widens m n p q (need_not_lower le) = ground arith
Move-Widens m n p q loads_max = ground arith
Move-Widens m n p q (raises lt e) = ground arith
Move-Widens m n p q (fails_to_raise lt) = ground arith
Move-Widens m n p q (need_not_raise le) = ground arith
Move-Widens m n p q sums = ground arith
Move-Widens m n p q acquires = ground arith
Move-Widens m n p q hits = ground arith
Move-Widens m n p q misses = ground arith
Move-Widens m n p q releases = ground arith

IsFresh-Widens : (m n : Metrics) (p : Point) → Widens m n → IsFresh m p → IsFresh n p
IsFresh-Widens m n (between todo) w f = f
IsFresh-Widens m n (counting todo) w f = f
IsFresh-Widens m n (lowering size cur_min todo) w f = omega (arith, w.0)
IsFresh-Widens m n (lowered size todo) w f = f
IsFresh-Widens m n (raising size cur_max todo) w f = omega (arith, w.1)
IsFresh-Widens m n (raised size todo) w f = f
IsFresh-Widens m n (acquired success todo) w f = f

AreFresh-Widens : (m n : Metrics) (ps : List Point) → Widens m n → AreFresh m ps → AreFresh n ps
AreFresh-Widens m n [] w f = f
AreFresh-Widens m n (p ∷ ps) w f = (IsFresh-Widens m n p w f.0, AreFresh-Widens m n ps w f.1)

Step-AreFresh :
    (m n : Metrics) (ps qs : List Point)
    → AreFresh m ps
    → Step m ps n qs
    → Widens m n × AreFresh n qs
Step-AreFresh m n ps qs f (here {p} {q} {ps = rest} move) =
    let (w, g) = Move-Widens m n p q move in (w, (g, AreFresh-Widens m n rest w f.1))
Step-AreFresh m n ps qs f (there {p} {ps = ps1} {qs = qs1} step) =
    let (w, g) = Step-AreFresh m n ps1 qs1 f.1 step in (w, (IsFresh-Widens m n p w f.0, g))

-- Performing what remains gives the same counters before and after a move.
Does-kept :
    (m n : Metrics) (es fs : List Effect) → Does m es n fs → perform_all fs n ≡ perform_all es m
Does-kept m n es fs (nothing e) = ap (perform_all es) e
Does-kept m n es fs (one xs e ys f g) =
    ap (perform_all (xs ++ ys)) g
    ∙ sym (perform_all_middle xs ys e m)
    ∙ ap (λ l. perform_all l m) (sym f)

Steps-kept :
    (m : Metrics) (ps : List Point)
    → AreFresh m ps
    → (n : Metrics) (qs : List Point) → Steps m ps n qs
    → AreFresh n qs × (perform_all (all_remaining qs) n ≡ perform_all (all_remaining ps) m)
Steps-kept m ps f n qs start = (f, refl)
Steps-kept m ps f n qs (further {n = k} {qs = rs} steps step) =
    let (g, e) = Steps-kept m ps f k rs steps in
    (
      (Step-AreFresh k n rs qs g step).1,
      Does-kept k n (all_remaining rs) (all_remaining qs) (Step-Does k n rs qs g step) ∙ e,
    )

begin-AreFresh : (m : Metrics) (work : List (List Call)) → AreFresh m (begin work)
begin-AreFresh m [] = tt
begin-AreFresh m (calls ∷ work) = (tt, begin-AreFresh m work)

effects-append : (cs ds : List Call) → effects (cs ++ ds) ≡ effects cs ++ effects ds
effects-append [] ds = refl
effects-append (c ∷ cs) ds =
    ap (λ l. effects_of_call c ++ l) (effects-append cs ds)
    ∙ sym (append_assoc (effects_of_call c) (effects cs) (effects ds))

all_remaining-begin :
    (work : List (List Call)) → all_remaining (begin work) ≡ effects (all_calls work)
all_remaining-begin [] = refl
all_remaining-begin (calls ∷ work) =
    ap (λ l. effects calls ++ l) (all_remaining-begin work)
    ∙ sym (effects-append calls (all_calls work))

all_remaining-ended : (work : List (List Call)) → all_remaining (ended work) ≡ []
all_remaining-ended [] = refl
all_remaining-ended (calls ∷ work) = all_remaining-ended work

-- Any number of threads that call add_bytes, record_chunk_size, record_buffer_acquire and
-- record_buffer_release, in any interleaving of their accesses and with any spurious failures of
-- the exchanges: when all have made their calls, the counters are those that the same calls leave
-- when they are made one after the other.
pub Steps-run_calls :
    (m n : Metrics) (work : List (List Call))
    → Steps m (begin work) n (ended work)
    → n ≡ run_calls m (all_calls work)
unfolding perform_all
Steps-run_calls m n work steps =
    let (_, e) = Steps-kept m (begin work) (begin-AreFresh m work) n (ended work) steps in
    ap (λ l. perform_all l n) (sym (all_remaining-ended work))
    ∙ e
    ∙ ap (λ l. perform_all l m) (all_remaining-begin work)
    ∙ run_calls-effects (all_calls work) m
