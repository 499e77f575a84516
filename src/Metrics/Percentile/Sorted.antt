-- ===== src/Metrics/Percentile/Sorted.antt =====
-- The sorted copy that `percentile` indexes: its order, its length and its counts.
use vdi_cpp_wrapper.Prelude.{
  ℕ, zero, suc, ◌+◌, ◌≤◌, ◌<◌, ◌≡◌, refl, List, [], ◌∷◌, arith, ltb, leb, if◌then◌else◌, length,
  get_or,
}
use vdi_cpp_wrapper.Metrics.Percentile.{insert, sort}

-- How many values are at most v, and how many are below it.
abbrev pub count_le : ℕ → List ℕ → ℕ
count_le v [] = 0
count_le v (x ∷ xs) = (if leb x v then 1 else 0) + count_le v xs

abbrev pub count_lt : ℕ → List ℕ → ℕ
count_lt v [] = 0
count_lt v (x ∷ xs) = (if ltb x v then 1 else 0) + count_lt v xs

count_le-insert : (v x : ℕ) (ys : List ℕ) → count_le v (insert x ys) ≡ count_le v (x ∷ ys)
unfolding insert
count_le-insert v x [] = refl
count_le-insert v x (y ∷ ys) = ground (arith, count_le-insert v x ys)

count_lt-insert : (v x : ℕ) (ys : List ℕ) → count_lt v (insert x ys) ≡ count_lt v (x ∷ ys)
unfolding insert
count_lt-insert v x [] = refl
count_lt-insert v x (y ∷ ys) = ground (arith, count_lt-insert v x ys)

pub count_le-sort : (v : ℕ) (xs : List ℕ) → count_le v (sort xs) ≡ count_le v xs
unfolding sort
count_le-sort v [] = refl
count_le-sort v (x ∷ xs) = omega (arith, count_le-insert v x (sort xs), count_le-sort v xs)

pub count_lt-sort : (v : ℕ) (xs : List ℕ) → count_lt v (sort xs) ≡ count_lt v xs
unfolding sort
count_lt-sort v [] = refl
count_lt-sort v (x ∷ xs) = omega (arith, count_lt-insert v x (sort xs), count_lt-sort v xs)

length-insert : (x : ℕ) (ys : List ℕ) → length (insert x ys) ≡ suc (length ys)
unfolding insert
length-insert x [] = refl
length-insert x (y ∷ ys) = ground (arith, length-insert x ys)

pub length-sort : (xs : List ℕ) → length (sort xs) ≡ length xs
unfolding sort
length-sort [] = refl
length-sort (x ∷ xs) = omega (arith, length-insert x (sort xs), length-sort xs)

-- Every element is at least `b`, and each is at most the next.
abbrev pub Rises : ℕ → List ℕ → Type 0
Rises b [] = Unit {0}
Rises b (x ∷ xs) = (b ≤ x) × Rises x xs

insert-Rises : (b x : ℕ) (ys : List ℕ) → b ≤ x → Rises b ys → Rises b (insert x ys)
unfolding insert
insert-Rises b x [] h r = (h, tt)
insert-Rises b x (y ∷ ys) h r = ground (arith, insert-Rises y x ys)

pub sort-Rises : (xs : List ℕ) → Rises 0 (sort xs)
unfolding sort
sort-Rises [] = tt
sort-Rises (x ∷ xs) = insert-Rises 0 x (sort xs) (omega arith) (sort-Rises xs)

-- In a rising list the element at index i has i elements before it that are no larger.
get_or_ge : (b : ℕ) (xs : List ℕ) (i : ℕ) → Rises b xs → i < length xs → b ≤ get_or xs i 0
get_or_ge b [] i r h = absurd (omega arith)
get_or_ge b (x ∷ xs) zero r h = r.0
get_or_ge b (x ∷ xs) (suc i) r h = omega (arith, get_or_ge x xs i r.1 (omega arith))

pub count_le-get_or :
    (b : ℕ) (xs : List ℕ) (i : ℕ) → Rises b xs → i < length xs → i + 1 ≤ count_le (get_or xs i 0) xs
count_le-get_or b [] i r h = absurd (omega arith)
count_le-get_or b (x ∷ xs) zero r h = ground arith
count_le-get_or b (x ∷ xs) (suc i) r h =
    ground (arith, count_le-get_or x xs i r.1, get_or_ge x xs i r.1)

count_lt_none : (v b : ℕ) (xs : List ℕ) → Rises b xs → v ≤ b → count_lt v xs ≡ 0
count_lt_none v b [] r h = refl
count_lt_none v b (x ∷ xs) r h = ground (arith, count_lt_none v x xs r.1)

pub count_lt-get_or :
    (b : ℕ) (xs : List ℕ) (i : ℕ) → Rises b xs → i < length xs → count_lt (get_or xs i 0) xs ≤ i
count_lt-get_or b [] i r h = absurd (omega arith)
count_lt-get_or b (x ∷ xs) zero r h = ground (arith, count_lt_none x x xs r.1)
count_lt-get_or b (x ∷ xs) (suc i) r h = ground (arith, count_lt-get_or x xs i r.1)

pub get_or_mono :
    (b : ℕ) (xs : List ℕ) (i j : ℕ)
    → Rises b xs
    → i ≤ j
    → j < length xs
    → get_or xs i 0 ≤ get_or xs j 0
get_or_mono b [] i j r h k = absurd (omega arith)
get_or_mono b (x ∷ xs) zero zero r h k = omega arith
get_or_mono b (x ∷ xs) zero (suc j) r h k = get_or_ge x xs j r.1 (omega arith)
get_or_mono b (x ∷ xs) (suc i) zero r h k = absurd (omega arith)
get_or_mono b (x ∷ xs) (suc i) (suc j) r h k = get_or_mono x xs i j r.1 (omega arith) (omega arith)
