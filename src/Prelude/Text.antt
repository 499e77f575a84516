-- ===== src/Prelude/Text.antt =====
-- Numbers as the standard library prints them: std::to_string, and the conversion %08lX.
pub mod Digits
use Prim.Native.Nat.{ℕ, zero, suc, ◌/◌, ◌%◌}
use Prim.Native.Char.{Char}
use Prim.Native.String.{String, ◌∷◌, compare}
use Prim.Native.String
use text.Mathlib.Text.{is_eq}
use mathlib.Core.Bool.{Bool}
use mathlib.Core.Path.{◌≡◌, refl}
use vdi_cpp_wrapper.Prelude.Tests.{ltb, ◌==◌, if◌then◌else◌}

-- The comparison of two texts: std::strcmp(s, t) == 0.
abbrev pub text_eq : String → String → Bool
text_eq s t = is_eq (compare s t)

-- The digits 0 to 9 and A to F.
digit : ℕ → Char
digit n =
    if n == 0
    then "0"
    else if n == 1
    then "1"
    else if n == 2
    then "2"
    else if n == 3
    then "3"
    else if n == 4
    then "4"
    else if n == 5
    then "5"
    else if n == 6
    then "6"
    else if n == 7
    then "7"
    else if n == 8
    then "8"
    else if n == 9
    then "9"
    else if n == 10
    then "A"
    else if n == 11
    then "B"
    else if n == 12
    then "C"
    else if n == 13
    then "D"
    else if n == 14
    then "E"
    else "F"

-- The last `k` hexadecimal digits.
hex_digits : ℕ → ℕ → String → String
unfolding digit
hex_digits zero n s = s
hex_digits (suc k) n s = hex_digits k (n / 16) (digit (n % 16) ∷ s)

-- %08lX of an unsigned long, which has 32 bits on Windows.
unfoldable pub hex_text : ℕ → String
unfolding hex_digits
hex_text n = hex_digits 8 n ""

lower : Char → Char
lower c =
    if text_eq (c ∷ "") "A"
    then "a"
    else if text_eq (c ∷ "") "B"
    then "b"
    else if text_eq (c ∷ "") "C"
    then "c"
    else if text_eq (c ∷ "") "D"
    then "d"
    else if text_eq (c ∷ "") "E"
    then "e"
    else if text_eq (c ∷ "") "F"
    then "f"
    else c

to_lower : String → String
unfolding lower
to_lower String.[] = String.[]
to_lower (String.◌∷◌ c s) = lower c ∷ to_lower s

-- %08lx
unfoldable pub lower_hex_text : ℕ → String
unfolding to_lower
lower_hex_text n = to_lower (hex_text n)

-- The decimal digits; 20 are enough for 64 bits.
decimal_digits : ℕ → ℕ → String → String
unfolding digit
decimal_digits zero n s = s
decimal_digits (suc k) n s =
    let rest = decimal_digits k (n / 10) (digit (n % 10) ∷ s) in
    if ltb n 10 then digit n ∷ s else rest

-- std::to_string
unfoldable pub to_string : ℕ → String
unfolding decimal_digits
to_string n = decimal_digits 20 n ""

to_string_test : to_string 12305 ≡ "12305"
unfolding to_string
to_string_test = refl

hex_text_test : hex_text 0x8077000F ≡ "8077000F"
unfolding hex_text
hex_text_test = refl

lower_hex_text_test : lower_hex_text 0x8077000F ≡ "8077000f"
unfolding lower_hex_text hex_text
lower_hex_text_test = refl
