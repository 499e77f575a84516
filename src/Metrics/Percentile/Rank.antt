-- ===== src/Metrics/Percentile/Rank.antt =====
-- Which value `percentile` picks.
use vdi_cpp_wrapper.Prelude.{
  ℕ, ◌+◌, ◌-◌, ◌*◌, ◌≤◌, ◌<◌, ◌≡◌, ap, ◌∙◌, List, [], ◌∷◌, arith, length, get_or, u64_mod,
}
use vdi_cpp_wrapper.Metrics.Percentile.{sort, index_of, percentile}
use vdi_cpp_wrapper.Metrics.Percentile.Sorted.{
  count_le, count_lt, count_le-sort, count_lt-sort, length-sort, sort-Rises, count_le-get_or,
  count_lt-get_or, get_or_mono,
}

index_of_lt : (r n : ℕ) → 0 < n → n < u64_mod → r < u64_mod → index_of r n < n
unfolding index_of
index_of_lt r n h k w = ground arith

-- `rank` is the exact ceiling of p * n / 100.
pub record IsNearestRank (rank : ℕ → ℕ → ℕ) (p n : ℕ) : Type 0 where
  pub reaches : p * n ≤ 100 * rank p n
  pub least : 100 * rank p n < p * n + 100

count_le_all : (v : ℕ) (xs : List ℕ) → count_le v xs ≤ length xs
count_le_all v [] = omega arith
count_le_all v (x ∷ xs) = ground (arith, count_le_all v xs)

percentile-get_or :
    (rank : ℕ → ℕ → ℕ) (values : List ℕ) (p : ℕ)
    → 0 < length values
    → percentile rank values p
      ≡ get_or (sort values) (index_of (rank p (length values)) (length values)) 0
unfolding percentile
percentile-get_or rank [] p h = absurd (omega arith)
percentile-get_or rank (x ∷ xs) p h = rw (length-sort (x ∷ xs))

index_of_rank : (r n : ℕ) → 0 < r → r ≤ n → n < u64_mod → index_of r n ≡ r - 1
unfolding index_of
index_of_rank r n h k w = ground arith

rank_bounds :
    (rank : ℕ → ℕ → ℕ) (p n : ℕ)
    → 0 < n
    → 0 < p
    → p ≤ 100
    → IsNearestRank rank p n
    → (0 < rank p n) × (rank p n ≤ n)
rank_bounds rank p n h hp kp r = (omega (arith, positive), omega (arith, capped))
  where
    positive : 0 < p * n
    positive = grind arith

    capped : p * n ≤ 100 * n
    capped = grind arith

-- Of n values (0 < n < 2^64), with 0 < p ≤ 100 and an exact rank: at least p percent of the values
-- are at most the p-th percentile, and fewer than p percent are below it.
pub percentile_bounds :
    (rank : ℕ → ℕ → ℕ) (values : List ℕ) (p : ℕ)
    → 0 < length values
    → length values < u64_mod
    → 0 < p
    → p ≤ 100
    → IsNearestRank rank p (length values)
    → (p * length values ≤ 100 * count_le (percentile rank values p) values)
      × (100 * count_lt (percentile rank values p) values < p * length values)
percentile_bounds rank values p h w hp kp r =
    let (low, high) = rank_bounds rank p (length values) h hp kp r in
    let i = rank p (length values) - 1 in
    let picked : percentile rank values p ≡ get_or (sort values) i 0 =
      percentile-get_or rank values p h
      ∙ ap (λ j. get_or (sort values) j 0)
          (index_of_rank (rank p (length values)) (length values) low high w) in
    let short : i < length (sort values) = omega (arith, length-sort values) in
    rw picked (
      omega (
        arith,
        count_le-sort (get_or (sort values) i 0) values,
        r.reaches,
        count_le-get_or 0 (sort values) i (sort-Rises values) short,
      ),
      omega (
        arith,
        count_lt-sort (get_or (sort values) i 0) values,
        r.least,
        count_lt-get_or 0 (sort values) i (sort-Rises values) short,
      ),
    )

index_of_mono :
    (r s n : ℕ) → 0 < r → r ≤ s → s < u64_mod → 0 < n → n < u64_mod → index_of r n ≤ index_of s n
unfolding index_of
index_of_mono r s n h k w hn wn = ground arith

-- A percentile of larger rank is no smaller, so P50 ≤ P95 ≤ P99 for any rank that is positive and
-- grows with p; the ranks and the number of values (at least one) are below 2^64.
pub percentile_mono :
    (rank : ℕ → ℕ → ℕ) (values : List ℕ) (p q : ℕ)
    → 0 < length values
    → length values < u64_mod
    → 0 < rank p (length values)
    → rank p (length values) ≤ rank q (length values)
    → rank q (length values) < u64_mod
    → percentile rank values p ≤ percentile rank values q
percentile_mono rank values p q h w hp le kq =
    let n = length values in
    rw (percentile-get_or rank values p h, percentile-get_or rank values q h)
      (get_or_mono 0 (sort values) (index_of (rank p n) n) (index_of (rank q n) n)
        (sort-Rises values) (index_of_mono (rank p n) (rank q n) n hp le kq h w)
        (omega (arith, length-sort values, index_of_lt (rank q n) n h w kq)))

index_of_zero : (n : ℕ) → 0 < n → n < u64_mod → index_of 0 n ≡ n - 1
unfolding index_of
index_of_zero n h w = ground arith

-- At rank 0, that of p = 0, the index wraps and is then cut to the last one: the percentile is the
-- largest value, not the smallest. All n values (0 < n < 2^64) are at most it.
pub percentile_zero :
    (rank : ℕ → ℕ → ℕ) (values : List ℕ)
    → 0 < length values
    → length values < u64_mod
    → rank 0 (length values) ≡ 0
    → count_le (percentile rank values 0) values ≡ length values
percentile_zero rank values h w e =
    let i = length values - 1 in
    let picked : percentile rank values 0 ≡ get_or (sort values) i 0 =
      percentile-get_or rank values 0 h
      ∙ ap (λ j. get_or (sort values) j 0) (rw e (index_of_zero (length values) h w)) in
    let short : i < length (sort values) = omega (arith, length-sort values) in
    rw picked (
      omega (
        arith,
        count_le-sort (get_or (sort values) i 0) values,
        count_le_all (get_or (sort values) i 0) values,
        count_le-get_or 0 (sort values) i (sort-Rises values) short,
      ))
