-- ===== src/Errors/Decode.antt =====
-- The HRESULT back from the text that src/error_utils.cpp prints: the texts are unambiguous.
use Prim.Native.String.{String, ◌++◌}
use vdi_cpp_wrapper.Prelude.{
  ℕ, ◌<◌, ◌==◌, ◌≡◌, refl, ap, ◌∙◌, List, [], ◌∷◌, Option, none, some, Bool, true, false, arith,
  if◌then◌else◌, text_eq, hex_text, u32_mod, strip, strip-append, read, read-hex_text, Bool-cases,
  ==_iff, inl, inr, subst,
}
use vdi_cpp_wrapper.Errors.Messages.{hresult_to_string}

abbrev known_codes : List ℕ
known_codes =
    0x80770001 ∷ 0x80770002 ∷ 0x80770003 ∷ 0x80770004 ∷ 0x80770005 ∷ 0x80770006 ∷ 0x80770007
    ∷ 0x80770008 ∷ 0x80770009 ∷ 0x8077000A ∷ 0x8077000B ∷ 0x8077000C ∷ 0x8077000D ∷ 0x8077000E
    ∷ 0x80040154 ∷ 0x800401F0 ∷ 0x80004002 ∷ 0x80004001 ∷ 0x80070005 ∷ 0x80070057 ∷ 0x80004005
    ∷ 0x8000FFFF ∷ 0x8007006E ∷ 0x80070103 ∷ 0x8007045A ∷ []

find : String → List ℕ → ℕ
find s [] = 0
find s (hr ∷ hrs) = if text_eq s (hresult_to_string hr) then hr else find s hrs

decode : Option String → String → ℕ
unfolding find
decode none s = find s known_codes
decode (some digits) s = read 16 digits 0

-- The code of an unknown HRESULT stands in its text; the others have texts of their own.
unfoldable pub hresult_of : String → ℕ
unfolding decode
hresult_of s = decode (strip "Unknown HRESULT 0x" s) s

is_known : ℕ → List ℕ → Bool
is_known hr [] = false
is_known hr (k ∷ ks) = if k == hr then true else is_known hr ks

-- Each of the codes in a list comes back.
AllBack : List ℕ → Type 0
AllBack [] = (true ≡ true)
AllBack (k ∷ ks) = (hresult_of (hresult_to_string k) ≡ k) × AllBack ks

known_back :
    (hr : ℕ) (ks : List ℕ)
    → AllBack ks
    → is_known hr ks ≡ true
    → hresult_of (hresult_to_string hr) ≡ hr
unfolding AllBack is_known
known_back hr [] h e = cc
known_back hr (k ∷ ks) (h, hs) e = elim (Bool-cases (k == hr)) [
  | inl same ↦ subst (λ (i : ℕ). hresult_of (hresult_to_string i) ≡ i) ((==_iff k hr).0 same) h
  | inr other ↦ known_back hr ks hs (ground arith)
]

unknown_lem :
    (hr : ℕ)
    → is_known hr known_codes ≡ false
    → hresult_to_string hr ≡ "Unknown HRESULT 0x" ++ hex_text hr
unfolding is_known hresult_to_string
unknown_lem hr e = ground arith

all_back : AllBack known_codes
unfolding AllBack hresult_of hresult_to_string strip
all_back = (
  refl,
  (
    refl,
    (
      refl,
      (
        refl,
        (
          refl,
          (
            refl,
            (
              refl,
              (
                refl,
                (
                  refl,
                  (
                    refl,
                    (
                      refl,
                      (
                        refl,
                        (
                          refl,
                          (
                            refl,
                            (
                              refl,
                              (
                                refl,
                                (
                                  refl,
                                  (
                                    refl,
                                    (refl, (refl, (refl, (refl, (refl, (refl, (refl, refl))))))),
                                  ),
                                ),
                              ),
                            ),
                          ),
                        ),
                      ),
                    ),
                  ),
                ),
              ),
            ),
          ),
        ),
      ),
    ),
  ),
)

-- The text of every 32-bit HRESULT determines it: no two codes print alike, and the code of an
-- unknown one can be read from its text.
pub hresult_of-hresult_to_string : (hr : ℕ) → hr < u32_mod → hresult_of (hresult_to_string hr) ≡ hr
unfolding hresult_of decode
hresult_of-hresult_to_string hr h = elim (Bool-cases (is_known hr known_codes)) [
  | inl e ↦ known_back hr known_codes all_back e
  | inr e ↦ rw (unknown_lem hr e) (
      ap (λ (o : Option String). decode o ("Unknown HRESULT 0x" ++ hex_text hr))
        (strip-append "Unknown HRESULT 0x" (hex_text hr))
      ∙ read-hex_text hr h)
]
