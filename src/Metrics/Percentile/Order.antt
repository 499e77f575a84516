-- ===== src/Metrics/Percentile/Order.antt =====
-- A percentile does not depend on the order of the values, nor on how std::sort sorts.
use mathlib.Core.List.{Perm, foldr}
use mathlib.Core.List.Perm
use mathlib.Core.Path.{◌≡◌}
use vdi_cpp_wrapper.Prelude.{
  ℕ, ◌-◌, ◌<◌, refl, sym, ap, ◌∙◌, List, [], ◌∷◌, arith, ltb, leb, ◌&&◌, if◌then◌else◌, if_elim,
  length, get_or, u64_mod,
}
use vdi_cpp_wrapper.Metrics.Percentile.{insert, sort, index_of, percentile}
use vdi_cpp_wrapper.Metrics.Percentile.Sorted.{Rises, length-sort, sort-Rises}

insert_comm : (x y : ℕ) (zs : List ℕ) → insert x (insert y zs) ≡ insert y (insert x zs)
unfolding insert
insert_comm x y [] = ground arith
insert_comm x y (z ∷ zs) = ground (arith, insert_comm x y zs)

sort-foldr : (xs : List ℕ) → sort xs ≡ foldr insert [] xs
unfolding sort
sort-foldr [] = refl
sort-foldr (x ∷ xs) = ap (insert x) (sort-foldr xs)

pub sort-Perm : {xs ys : List ℕ} → Perm xs ys → sort xs ≡ sort ys
sort-Perm {xs} {ys} p =
    sort-foldr xs ∙ Perm.foldr-eq (hlevel) insert insert_comm p [] ∙ sym (sort-foldr ys)

-- What the standard says of std::sort on numbers.
pub record IsSort (std_sort : List ℕ → List ℕ) : Type 0 where
  pub permutes : (xs : List ℕ) → Perm (std_sort xs) xs
  pub orders : (xs : List ℕ) → Rises 0 (std_sort xs)

insert_least : (x : ℕ) (ys : List ℕ) → Rises x ys → insert x ys ≡ x ∷ ys
unfolding insert
insert_least x [] r = refl
insert_least x (y ∷ ys) r = ground arith

sort-Rises_fixed : (b : ℕ) (xs : List ℕ) → Rises b xs → sort xs ≡ xs
unfolding sort
sort-Rises_fixed b [] r = refl
sort-Rises_fixed b (x ∷ xs) r = ap (insert x) (sort-Rises_fixed x xs r.1) ∙ insert_least x xs r.1

sorts_alike : (std_sort : List ℕ → List ℕ) (xs : List ℕ) → IsSort std_sort → std_sort xs ≡ sort xs
sorts_alike std_sort xs s =
    sym (sort-Rises_fixed 0 (std_sort xs) (s.orders xs)) ∙ sort-Perm (s.permutes xs)

Perm-insert : (x : ℕ) (ys : List ℕ) → Perm (insert x ys) (x ∷ ys)
unfolding insert
Perm-insert x [] = Perm.refl (x ∷ [])
Perm-insert x (y ∷ ys) =
    if_elim (λ l. Perm l (x ∷ y ∷ ys)) (leb x y) (λ _. Perm.refl (x ∷ y ∷ ys))
      (λ _. Perm.trans (Perm.cons y (Perm-insert x ys)) (Perm.swap x y ys))

Perm-sort : (xs : List ℕ) → Perm (sort xs) xs
unfolding sort
Perm-sort [] = Perm.nil
Perm-sort (x ∷ xs) = Perm.trans (Perm-insert x (sort xs)) (Perm.cons x (Perm-sort xs))

pub sort-IsSort : IsSort sort
sort-IsSort = record { permutes = λ xs. Perm-sort xs; orders = λ xs. sort-Rises xs }

percentile-sort :
    (rank : ℕ → ℕ → ℕ) (xs : List ℕ) (p : ℕ)
    → let sorted = sort xs in
      percentile rank xs p ≡ get_or sorted (index_of (rank p (length sorted)) (length sorted)) 0
unfolding percentile
percentile-sort rank [] p = refl
percentile-sort rank (x ∷ xs) p = refl

-- The percentiles of values in one order and in another are equal.
pub percentile-Perm :
    (rank : ℕ → ℕ → ℕ) (p : ℕ) {xs ys : List ℕ}
    → Perm xs ys
    → percentile rank xs p ≡ percentile rank ys p
percentile-Perm rank p {xs} {ys} e =
    percentile-sort rank xs p
    ∙ ap (λ sorted. get_or sorted (index_of (rank p (length sorted)) (length sorted)) 0)
        (sort-Perm e)
    ∙ sym (percentile-sort rank ys p)

-- The place of the value of rank `r` among `n` values, counted from 0: a rank below 1 or above `n`
-- takes the last value.
abbrev pub place : ℕ → ℕ → ℕ
place r n = if ltb 0 r && leb r n then r - 1 else n - 1

index_of-place : (r n : ℕ) → 0 < n → n < u64_mod → r < u64_mod → index_of r n ≡ place r n
unfolding index_of
index_of-place r n h k m = ground arith

-- Whatever sorting function std::sort is, as long as it returns its values in rising order, and in
-- whatever order the values come: of at least one value, percentile is the one whose place in the
-- sorted values, counted from 1, is the rank, and the last one where the rank is 0 or greater than
-- their number. The number of values and the rank are below 2^64.
pub percentile_any_sort :
    (rank : ℕ → ℕ → ℕ) (std_sort : List ℕ → List ℕ) (xs ys : List ℕ) (p : ℕ)
    → IsSort std_sort
    → Perm xs ys
    → 0 < length ys
    → length ys < u64_mod
    → rank p (length ys) < u64_mod
    → percentile rank xs p ≡ get_or (std_sort ys) (place (rank p (length ys)) (length ys)) 0
percentile_any_sort rank std_sort xs ys p s e some_value few small =
    percentile-Perm rank p e
    ∙ percentile-sort rank ys p
    ∙ ap (λ n. get_or (sort ys) (index_of (rank p n) n) 0) (length-sort ys)
    ∙ ap (λ i. get_or (sort ys) i 0)
        (index_of-place (rank p (length ys)) (length ys) some_value few small)
    ∙ ap (λ sorted. get_or sorted (place (rank p (length ys)) (length ys)) 0)
        (sym (sorts_alike std_sort ys s))
