-- ===== src/Environment/Stale.antt =====
-- Strings of the registry that are stored without a terminating NUL, and the buffer that two of
-- them share.
use Prim.Native.String.{String}
use vdi_cpp_wrapper.Prelude.{
  ℕ, zero, suc, ◌*◌, ◌≤◌, ◌≡◌, refl, ap, sym, ◌∙◌, List, [], ◌∷◌, ◌++◌, some, true, false, arith,
  length, drop, replicate, length-replicate,
}
use mathlib.Core.List.{append_assoc, append-nil}
use vdi_cpp_wrapper.Environment.Capture.{
  System, text, overrun, until_nul, overwrite, read_value, read_os, read_single, current_version,
}
use vdi_cpp_wrapper.Environment.Strings.{has_nul, until_nul-overrun}

has_nul-append :
    (cs ds : List ℕ) → has_nul cs ≡ false → has_nul ds ≡ false → has_nul (cs ++ ds) ≡ false
has_nul-append [] ds h k = k
has_nul-append (zero ∷ cs) ds h k = cc
has_nul-append (suc c ∷ cs) ds h k = has_nul-append cs ds h k

has_nul-drop : (n : ℕ) (cs : List ℕ) → has_nul cs ≡ false → has_nul (drop n cs) ≡ false
has_nul-drop zero cs h = h
has_nul-drop (suc n) [] h = h
has_nul-drop (suc n) (zero ∷ cs) h = cc
has_nul-drop (suc n) (suc c ∷ cs) h = has_nul-drop n cs h

-- The rest of a buffer behind what a shorter value has overwritten.
drop-append : (n : ℕ) (cs ds : List ℕ) → n ≤ length cs → drop n (cs ++ ds) ≡ drop n cs ++ ds
drop-append zero cs ds h = refl
drop-append (suc n) [] ds h = absurd (omega arith)
drop-append (suc n) (c ∷ cs) ds h = drop-append n cs ds (omega arith)

until_nul-append : (cs rest : List ℕ) → has_nul cs ≡ false → until_nul (cs ++ 0 ∷ rest) ≡ text cs
unfolding until_nul
until_nul-append [] rest h = refl
until_nul-append (zero ∷ cs) rest h = cc
until_nul-append (suc c ∷ cs) rest h = rw (until_nul-append cs rest h) refl

read_value_lem :
    (S : System) (key name : String) (capacity : ℕ) (buf stored wide : List ℕ) (s : String)
    → S.on_query key name (2 * capacity) ≡ (true, stored)
    → until_nul (overwrite buf stored) ≡ text wide
    → S.on_to_utf8 wide ≡ some s
    → read_value S key name capacity buf ≡ (text s, overwrite buf stored)
unfolding read_value
read_value_lem S key name capacity buf stored wide s q u w = rw (q, u, w) refl

-- A version that is stored without a NUL and is no longer than the name read before it, which is,
-- is followed by the rest of that name in the shared buffer: the text is the conversion of both.
pub read_os-stale :
    (S : System) (name version : List ℕ) (n v : String)
    → S.on_open current_version ≡ true
    → S.on_query current_version "ProductName" 512 ≡ (true, name ++ 0 ∷ [])
    → S.on_query current_version "CurrentVersion" 512 ≡ (true, version)
    → has_nul name ≡ false
    → has_nul version ≡ false
    → length version ≤ length name
    → S.on_to_utf8 name ≡ some n
    → S.on_to_utf8 (version ++ drop (length version) name) ≡ some v
    → read_os S ≡ text (n, v)
unfolding read_os
read_os-stale S name version n v o q r h k l u w =
    let zeros = drop (length (name ++ 0 ∷ [])) (replicate 256 0) in
    let buf = overwrite (replicate 256 0) (name ++ 0 ∷ []) in
    let tail = drop (length version) name in
    let buf_name : buf ≡ name ++ 0 ∷ zeros = append_assoc name (0 ∷ []) zeros in
    let buf_both : overwrite buf version ≡ (version ++ tail) ++ 0 ∷ zeros =
      ap (λ b. overwrite b version) buf_name
      ∙ ap (λ b. version ++ b) (drop-append (length version) name (0 ∷ zeros) l)
      ∙ sym (append_assoc version tail (0 ∷ zeros)) in
    let joined : has_nul (version ++ tail) ≡ false =
      has_nul-append version tail k (has_nul-drop (length version) name h) in
    rw
      (
        o,
        read_value_lem S current_version "ProductName" 256 (replicate 256 0) (name ++ 0 ∷ []) name n
            q (ap until_nul buf_name ∙ until_nul-append name zeros h) u,
        read_value_lem S current_version "CurrentVersion" 256 buf version (version ++ tail) v r
            (ap until_nul buf_both ∙ until_nul-append (version ++ tail) zeros joined) w,
      )
      refl

drop_all : (n : ℕ) (cs : List ℕ) → length cs ≡ n → drop n cs ≡ []
drop_all zero [] h = refl
drop_all zero (c ∷ cs) h = absurd (omega arith)
drop_all (suc n) [] h = absurd (omega arith)
drop_all (suc n) (c ∷ cs) h = drop_all n cs (omega arith)

-- A version of the SQL Server as long as its buffer and without a NUL is read past the buffer's
-- end.
pub read_single-overrun :
    (S : System) (key name : String) (capacity : ℕ)
    → S.on_open key ≡ true
    → (S.on_query key name (2 * capacity)).0 ≡ true
    → length (S.on_query key name (2 * capacity)).1 ≡ capacity
    → has_nul (S.on_query key name (2 * capacity)).1 ≡ false
    → read_single S key name capacity ≡ overrun
unfolding read_single read_value
read_single-overrun S key name capacity o q l h =
    let stored = (S.on_query key name (2 * capacity)).1 in
    rw (o, q, no_rest stored capacity l) (rw (until_nul-overrun stored h) refl)
  where
    no_rest :
        (stored : List ℕ) (n : ℕ) → length stored ≡ n → overwrite (replicate n 0) stored ≡ stored
    no_rest stored n e = rw e (
        ap (λ b. stored ++ b) (drop_all n (replicate n 0) (length-replicate n 0))
        ∙ append-nil stored)
