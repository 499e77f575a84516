-- ===== src/Metrics/Reader.antt =====
-- A reader of the first numbers of the JSON report, the inverse of `Metrics::to_json` of
-- src/metrics.cpp there.
use Prim.Native.Char.{Char, code}
use Prim.Native.String.{String, ◌++◌}
use Prim.Native.String.append
use vdi_cpp_wrapper.Prelude.{
  ℕ, ◌<◌, ◌≡◌, refl, ap, ◌∙◌, Option, none, some, Bool, true, false, ◌==◌, if◌then◌else◌, to_string,
  strip, strip-append, read_digits, read_digits-to_string, u64_mod,
}
use text.Mathlib.TextLemmas.{append_assoc}
use vdi_cpp_wrapper.Metrics.{Metrics}
use vdi_cpp_wrapper.Metrics.Report.{Outside, to_json}

is_comma : Char → Bool
is_comma c = code c == 44

-- The text from its first comma on.
from_comma : String → String
unfolding is_comma
from_comma String.[] = String.[]
from_comma (String.◌∷◌ c s) = if is_comma c then String.◌∷◌ c s else from_comma s

-- A number in floating point is printed without a comma.
abbrev pub HasNoComma : String → Type 0
HasNoComma String.[] = true ≡ true
HasNoComma (String.◌∷◌ c s) = ((code c == 44) ≡ false) × HasNoComma s

infixl 5 ◌>>=◌
abbrev ◌>>=◌ {ℓ κ} : {A : Type ℓ} {B : Type κ} → Option A → (A → Option B) → Option B
none >>= f = none
some a >>= f = f a

-- total_bytes and chunk_count
unfoldable pub read_counts : String → Option (ℕ × ℕ)
unfolding from_comma
read_counts s = do
  s1 ← strip "{\n" s
  s2 ← strip "  \"tool_version\": \"0.1.0\",\n" s1
  s3 ← strip "  \"throughput_mbps\": " s2
  s4 ← strip ",\n" (from_comma s3)
  s5 ← strip "  \"total_bytes\": " s4
  s6 ← strip ",\n" (read_digits s5 0).1
  s7 ← strip "  \"chunk_count\": " s6
  some ((read_digits s5 0).0, (read_digits s7 0).0)

from_comma-append : (t s : String) → HasNoComma t → from_comma (t ++ (",\n" ++ s)) ≡ ",\n" ++ s
unfolding from_comma
from_comma-append String.[] s h = rw (append.nil (",\n" ++ s), append.cons "," "\n" s) refl
from_comma-append (String.◌∷◌ c t) s (e, h) =
    rw (append.cons c t (",\n" ++ s), e) (from_comma-append t s h)

-- The head of the report, and whatever comes behind it.
abbrev report_head : String → ℕ → ℕ → String → String
report_head throughput bytes chunks rest =
    "{\n"
    ++ "  \"tool_version\": \"0.1.0\",\n"
    ++ "  \"throughput_mbps\": "
    ++ throughput
    ++ ",\n"
    ++ "  \"total_bytes\": "
    ++ to_string bytes
    ++ ",\n"
    ++ "  \"chunk_count\": "
    ++ to_string chunks
    ++ ",\n"
    ++ rest

read_counts-report_head :
    (throughput rest : String) (bytes chunks : ℕ)
    → bytes < u64_mod
    → chunks < u64_mod
    → HasNoComma throughput
    → read_counts (report_head throughput bytes chunks rest) ≡ some (bytes, chunks)
unfolding read_counts
read_counts-report_head throughput rest bytes chunks b n h =
    let last = to_string chunks ++ (",\n" ++ rest) in
    let first = to_string bytes ++ (",\n" ++ ("  \"chunk_count\": " ++ last)) in
    let body = "  \"total_bytes\": " ++ first in
    simp (
      strip-append,
      from_comma-append throughput body h,
      read_digits-to_string bytes ("  \"chunk_count\": " ++ last) b,
      read_digits-to_string chunks rest n,
    )

report_head-append :
    (throughput rest more : String) (bytes chunks : ℕ)
    → report_head throughput bytes chunks rest ++ more
      ≡ report_head throughput bytes chunks (rest ++ more)
report_head-append throughput rest more bytes chunks = simp (append_assoc)

-- The JSON report says what the counters are: its total_bytes and chunk_count read back are those
-- of the object, which are below 2^64, where the text of the throughput, in floating point, has
-- no comma. More text may follow.
pub read_counts-to_json :
    (o : Outside) (m : Metrics) (more : String)
    → m.total_bytes < u64_mod
    → m.chunk_count < u64_mod
    → HasNoComma (o.throughput_text m.total_bytes o.elapsed_ms)
    → read_counts (to_json o m ++ more) ≡ some (m.total_bytes, m.chunk_count)
unfolding to_json
read_counts-to_json o m more b n h =
    let throughput = o.throughput_text m.total_bytes o.elapsed_ms in
    ap read_counts (report_head-append throughput _ more m.total_bytes m.chunk_count)
    ∙ read_counts-report_head throughput _ m.total_bytes m.chunk_count b n h
