-- ===== src/Metrics/Percentile.antt =====
-- `Metrics::percentile` of src/metrics.cpp. The rank is computed in `double`, so the function
-- from p and N to `static_cast<size_t>(std::ceil(p / 100.0 * N))` is a parameter `rank`.
-- `std::sort` stands for what the standard says of it: insertion sort is one such function.
pub mod Sorted
pub mod Rank
pub mod Order
use vdi_cpp_wrapper.Prelude.{
  ℕ, zero, suc, ◌+◌, ◌-◌, ◌*◌, ◌≤◌, ◌<◌, ◌≡◌, ◌≢◌, refl, List, [], ◌∷◌, Bool, true, false, arith,
  ltb, leb, if◌then◌else◌, length, get_or, u64_mod, sub64,
}

insert : ℕ → List ℕ → List ℕ
insert x [] = x ∷ []
insert x (y ∷ ys) = let rest = insert x ys in if leb x y then x ∷ y ∷ ys else y ∷ rest

pub sort : List ℕ → List ℕ
unfolding insert
sort [] = []
sort (x ∷ xs) = insert x (sort xs)

-- `idx`, from the rank and the number of values: one below it, wrapped, and at most the last.
pub index_of : ℕ → ℕ → ℕ
index_of rank n = if leb n (sub64 rank 1) then sub64 n 1 else sub64 rank 1

-- uint64_t percentile(values, p)
unfoldable pub percentile : (ℕ → ℕ → ℕ) → List ℕ → ℕ → ℕ
unfolding sort index_of
percentile rank [] p = 0
percentile rank (x ∷ xs) p =
    let sorted = sort (x ∷ xs) in
    get_or sorted (index_of (rank p (length sorted)) (length sorted)) 0
