-- ===== src/Prelude/Text/Digits.antt =====
-- Reading back what the standard library prints: the inverses of Prelude/Text.
use Prim.Native.Nat.{ℕ, zero, suc, ◌+◌, ◌-◌, ◌*◌, ◌/◌, ◌%◌, ◌^◌, ◌<◌}
use Prim.Native.Char.{Char, code}
use Prim.Native.String.{String, ◌++◌}
use Prim.Native.String.append
use mathlib.Core.Bool.{Bool, true, false, ◌&&◌}
use mathlib.Core.Option.{Option, none, some}
use mathlib.Core.Path.{◌≡◌, refl, ap, sym, ◌∙◌}
use native.Mathlib.Nat.{pow-suc, mul_assoc}
use mathlib.Core.Logic.{inl, inr}
use native.Mathlib.Omega.{arith}
use vdi_cpp_wrapper.Prelude.Tests.{leb, ltb, ◌==◌, if◌then◌else◌, if_elim, Bool-cases, ==_iff}
use vdi_cpp_wrapper.Prelude.Text.{digit, hex_digits, decimal_digits, hex_text, to_string}

-- What follows a prefix.
unfoldable pub strip : String → String → Option String
strip String.[] s = some s
strip (String.◌∷◌ c p) String.[] = none
strip (String.◌∷◌ c p) (String.◌∷◌ d s) = if code c == code d then strip p s else none

pub strip-append : (p s : String) → strip p (p ++ s) ≡ some s
unfolding strip
strip-append String.[] s = rw (append.nil s) refl
strip-append (String.◌∷◌ c p) s = rw (append.cons c p s) (ground (arith, strip-append p s))

-- The number of a digit, and of digits read from the left behind `n`.
digit_value : Char → ℕ
digit_value c = if ltb (code c) 58 then code c - 48 else code c - 55

unfoldable pub read : ℕ → String → ℕ → ℕ
unfolding digit_value
read base String.[] n = n
read base (String.◌∷◌ c s) n = read base s (n * base + digit_value c)

-- A test that holds at every number below a bound.
check_below : ℕ → (ℕ → Bool) → Bool
check_below zero p = true
check_below (suc k) p = if p k then check_below k p else false

check_below_lem : (k n : ℕ) (p : ℕ → Bool) → check_below k p ≡ true → n < k → p n ≡ true
unfolding check_below
check_below_lem zero n p e h = absurd (omega arith)
check_below_lem (suc k) n p e h = elim (Bool-cases (n == k)) [
  | inl same ↦ rw ((==_iff n k).0 same) (ground arith)
  | inr other ↦ check_below_lem k n p (ground arith) (ground arith)
]

digit_value-digit : (n : ℕ) → n < 16 → digit_value (digit n) ≡ n
unfolding digit_value digit check_below
digit_value-digit n h =
    (==_iff (digit_value (digit n)) n).0
      (check_below_lem 16 n (λ i. digit_value (digit i) == i) refl h)

read-digit :
    (base n m : ℕ) (s : String)
    → n < 16
    → read base (String.◌∷◌ (digit n) s) m ≡ read base s (m * base + n)
unfolding read
read-digit base n m s h = ap (λ (i : ℕ). read base s (m * base + i)) (digit_value-digit n h)

read-hex_digits :
    (k n m : ℕ) (s : String)
    → n < 16 ^ k
    → read 16 (hex_digits k n s) m ≡ read 16 s (m * 16 ^ k + n)
unfolding hex_digits
read-hex_digits zero n m s h = ap (λ (i : ℕ). read 16 s i) (omega arith)
read-hex_digits (suc k) n m s h =
    read-hex_digits k (n / 16) m (String.◌∷◌ (digit (n % 16)) s) (omega arith)
    ∙ read-digit 16 (n % 16) (m * 16 ^ k + n / 16) s (omega arith)
    ∙ ap (λ (i : ℕ). read 16 s i) (omega (arith, shifted))
  where
    shifted : m * 16 ^ suc k ≡ m * 16 ^ k * 16
    shifted = rw (pow-suc 16 k) (sym (mul_assoc m (16 ^ k) 16))

small : (n : ℕ) (s : String) → n < 16 → read 10 (String.◌∷◌ (digit n) s) 0 ≡ read 10 s n
small n s h = read-digit 10 n 0 s h ∙ ap (λ (i : ℕ). read 10 s i) (omega arith)

read-decimal_digits :
    (k n : ℕ) (s : String) → n < 10 ^ suc k → read 10 (decimal_digits (suc k) n s) 0 ≡ read 10 s n
unfolding decimal_digits
read-decimal_digits zero n s h =
    if_elim (λ t. read 10 t 0 ≡ read 10 s n) (ltb n 10) (λ _. small n s (omega arith))
      (λ e. absurd (ground arith))
read-decimal_digits (suc k) n s h =
    if_elim (λ t. read 10 t 0 ≡ read 10 s n) (ltb n 10) (λ e. small n s (ground arith))
      (λ _.
        read-decimal_digits k (n / 10) (String.◌∷◌ (digit (n % 10)) s) (omega arith)
        ∙ read-digit 10 (n % 10) (n / 10) s (omega arith)
        ∙ ap (λ (i : ℕ). read 10 s i) (omega arith))

-- %08lX of 32 bits is read back.
pub read-hex_text : (n : ℕ) → n < 2 ^ 32 → read 16 (hex_text n) 0 ≡ n
unfolding hex_text read
read-hex_text n h = read-hex_digits 8 n 0 "" h ∙ omega arith

-- std::to_string of 64 bits is read back.
pub read-to_string : (n : ℕ) → n < 2 ^ 64 → read 10 (to_string n) 0 ≡ n
unfolding to_string read
read-to_string n h = read-decimal_digits 19 n "" (omega arith)

-- The number at the start of a text, up to the first character that is no digit, and the rest.
unfoldable pub read_digits : String → ℕ → ℕ × String
unfolding digit_value
read_digits String.[] n = (n, String.[])
read_digits (String.◌∷◌ c s) n =
    if leb 48 (code c) && ltb (code c) 58
    then read_digits s (n * 10 + digit_value c)
    else (n, String.◌∷◌ c s)

is_digit-digit : (n : ℕ) → n < 10 → (leb 48 (code (digit n)) && ltb (code (digit n)) 58) ≡ true
unfolding digit check_below
is_digit-digit n h =
    check_below_lem 10 n (λ i. leb 48 (code (digit i)) && ltb (code (digit i)) 58) refl h

read_digits-digit :
    (n m : ℕ) (s : String)
    → n < 10
    → read_digits (String.◌∷◌ (digit n) s) m ≡ read_digits s (m * 10 + n)
unfolding read_digits
read_digits-digit n m s h =
    rw (is_digit-digit n h)
      (ap (λ (i : ℕ). read_digits s (m * 10 + i)) (digit_value-digit n (omega arith)))

first_digit :
    (n : ℕ) (s : String) → n < 10 → read_digits (String.◌∷◌ (digit n) s) 0 ≡ read_digits s n
first_digit n s h = read_digits-digit n 0 s h ∙ ap (λ (i : ℕ). read_digits s i) (omega arith)

read_digits-decimal_digits :
    (k n : ℕ) (s : String)
    → n < 10 ^ suc k
    → read_digits (decimal_digits (suc k) n s) 0 ≡ read_digits s n
unfolding decimal_digits
read_digits-decimal_digits zero n s h =
    if_elim (λ t. read_digits t 0 ≡ read_digits s n) (ltb n 10) (λ _. first_digit n s (omega arith))
      (λ e. absurd (ground arith))
read_digits-decimal_digits (suc k) n s h =
    if_elim (λ t. read_digits t 0 ≡ read_digits s n) (ltb n 10)
      (λ e. first_digit n s (ground arith))
      (λ _.
        read_digits-decimal_digits k (n / 10) (String.◌∷◌ (digit (n % 10)) s) (omega arith)
        ∙ read_digits-digit (n % 10) (n / 10) s (omega arith)
        ∙ ap (λ (i : ℕ). read_digits s i) (omega arith))

decimal_digits-append :
    (k n : ℕ) (s t : String) → decimal_digits k n s ++ t ≡ decimal_digits k n (s ++ t)
unfolding decimal_digits
decimal_digits-append zero n s t = refl
decimal_digits-append (suc k) n s t = elim (Bool-cases (ltb n 10)) [
  | inl e ↦ rw (e, append.cons (digit n) s t) refl
  | inr e ↦
      rw
        (
          e,
          decimal_digits-append k (n / 10) (String.◌∷◌ (digit (n % 10)) s) t,
          append.cons (digit (n % 10)) s t,
        )
        refl
]

-- std::to_string of 64 bits in front of a comma is read back.
pub read_digits-to_string :
    (n : ℕ) (s : String)
    → n < 2 ^ 64
    → read_digits (to_string n ++ (",\n" ++ s)) 0 ≡ (n, ",\n" ++ s)
unfolding to_string read_digits
read_digits-to_string n s h =
    rw (decimal_digits-append 20 n "" (",\n" ++ s), append.nil (",\n" ++ s))
      (read_digits-decimal_digits 19 n (",\n" ++ s) (omega arith)
        ∙ rw (append.cons "," "\n" s) refl)
