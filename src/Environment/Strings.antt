-- ===== src/Environment/Strings.antt =====
-- What the strings of `capture_environment` are. The Windows API stores a registry string as it
-- was given, with a terminating NUL or without.
use Prim.Native.String.{String}
use vdi_cpp_wrapper.Prelude.{
  ℕ, zero, suc, ◌*◌, ◌%◌, ◌≡◌, refl, ap, sym, List, [], ◌∷◌, ◌++◌, Option, none, some, Bool, true,
  false, if◌then◌else◌, Bool-cases, inl, inr, length, drop, replicate, u32_mod,
}
use vdi_cpp_wrapper.Environment.{EnvironmentInfo}
use vdi_cpp_wrapper.Environment.Capture.{
  System, text, overrun, until_nul, read_value, read_os, read_single, capture_environment, ram_of,
  current_version, central_processor, sql_setup,
}

-- Whether there is a NUL, and what stands before the first.
abbrev pub has_nul : List ℕ → Bool
has_nul [] = false
has_nul (zero ∷ cs) = true
has_nul (suc c ∷ cs) = has_nul cs

abbrev pub before_nul : List ℕ → List ℕ
before_nul [] = []
before_nul (zero ∷ cs) = []
before_nul (suc c ∷ cs) = suc c ∷ before_nul cs

until_nul-terminated :
    (cs rest : List ℕ) → has_nul cs ≡ true → until_nul (cs ++ rest) ≡ text (before_nul cs)
unfolding until_nul
until_nul-terminated [] rest h = cc
until_nul-terminated (zero ∷ cs) rest h = refl
until_nul-terminated (suc c ∷ cs) rest h = rw (until_nul-terminated cs rest h) refl

pub until_nul-overrun : (cs : List ℕ) → has_nul cs ≡ false → until_nul cs ≡ overrun
unfolding until_nul
until_nul-overrun [] h = refl
until_nul-overrun (zero ∷ cs) h = cc
until_nul-overrun (suc c ∷ cs) h = rw (until_nul-overrun cs h) refl

-- Every value that can be read is stored with a NUL.
abbrev pub Terminates : System → Type 0
Terminates S =
    (key name : String) (size : ℕ)
    → (S.on_query key name size).0 ≡ true
    → has_nul (S.on_query key name size).1 ≡ true

abbrev or_empty : Option String → String
or_empty none = ""
or_empty (some s) = s

-- The text of a value by itself: the conversion of what it stores before the NUL, or the empty
-- text where it cannot be had.
unfoldable pub value_text : System → String → String → ℕ → String
value_text S key name size =
    if S.on_open key
    then (if (S.on_query key name size).0
        then or_empty (S.on_to_utf8 (before_nul (S.on_query key name size).1))
        else "")
    else ""

converted : (o : Option String) → (elim o [ none ↦ text "" | some s ↦ text s ]) ≡ text (or_empty o)
converted none = refl
converted (some s) = refl

read_value-terminated :
    (S : System) (key name : String) (capacity : ℕ) (buf : List ℕ)
    → Terminates S
    → S.on_open key ≡ true
    → (read_value S key name capacity buf).0 ≡ text (value_text S key name (2 * capacity))
unfolding read_value value_text
read_value-terminated S key name capacity buf t o = elim (Bool-cases q.0) [
  | inl e ↦
      rw (o, e, until_nul-terminated q.1 (drop (length q.1) buf) (t key name (2 * capacity) e))
        (converted (S.on_to_utf8 (before_nul q.1)))
  | inr e ↦ rw (o, e) refl
]
  where
    q : Bool × List ℕ
    q = S.on_query key name (2 * capacity)

value_text-closed :
    (S : System) (key name : String) (size : ℕ)
    → S.on_open key ≡ false
    → value_text S key name size ≡ ""
unfolding value_text
value_text-closed S key name size e = rw e refl

read_single-terminated :
    (S : System) (key name : String) (capacity : ℕ)
    → Terminates S
    → read_single S key name capacity ≡ text (value_text S key name (2 * capacity))
unfolding read_single
read_single-terminated S key name capacity t = elim (Bool-cases (S.on_open key)) [
  | inl e ↦ rw e (read_value-terminated S key name capacity (replicate capacity 0) t e)
  | inr e ↦ rw e (ap text (sym (value_text-closed S key name (2 * capacity) e)))
]

read_os-terminated :
    (S : System)
    → Terminates S
    → read_os S
      ≡ text (
        value_text S current_version "ProductName" 512,
        value_text S current_version "CurrentVersion" 512,
      )
unfolding read_os
read_os-terminated S t = elim (Bool-cases (S.on_open current_version)) [
  | inl e ↦
      rw
        (
          e,
          read_value-terminated S current_version "ProductName" 256 (replicate 256 0) t e,
          read_value-terminated S current_version "CurrentVersion" 256
              (read_value S current_version "ProductName" 256 (replicate 256 0)).1 t e,
        )
        refl
  | inr e ↦
      rw
        (
          e,
          value_text-closed S current_version "ProductName" 512 e,
          value_text-closed S current_version "CurrentVersion" 512 e,
        )
        refl
]

-- Each text by itself, with what the system says of its processors and its memory.
abbrev pub own_values : System → EnvironmentInfo
own_values S = record {
  os_name = value_text S current_version "ProductName" 512;
  os_version = value_text S current_version "CurrentVersion" 512;
  cpu_model = value_text S central_processor "ProcessorNameString" 512;
  cpu_core_count = S.number_of_processors % u32_mod;
  ram_bytes = ram_of S.total_phys;
  sql_version = value_text S sql_setup "PatchLevel" 256;
}

-- Where every value that can be read is stored with a NUL, capture_environment reads no buffer
-- past its end, and each text is the conversion of its own value, or empty where the key, the
-- value or the conversion fails: no text depends on what the shared buffer held before.
pub capture_environment-terminated :
    (S : System) → Terminates S → capture_environment S ≡ text (own_values S)
unfolding capture_environment
capture_environment-terminated S t =
    rw
      (
        read_os-terminated S t,
        read_single-terminated S central_processor "ProcessorNameString" 256 t,
        read_single-terminated S sql_setup "PatchLevel" 128 t,
      )
      refl
