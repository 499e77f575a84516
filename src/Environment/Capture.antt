-- ===== src/Environment/Capture.antt =====
-- `capture_environment` of src/environment.cpp, as built for Windows. The registry, the
-- conversion to UTF-8 and what the system says of itself are a parameter. A string is read into a
-- buffer of wide characters, and the conversion reads the buffer up to its first NUL: `overrun`
-- is the case where there is none.
use Prim.Native.String.{String}
use vdi_cpp_wrapper.Prelude.{
  ℕ, zero, suc, ◌*◌, ◌%◌, List, [], ◌∷◌, ◌++◌, Option, none, some, Bool, if◌then◌else◌, length,
  drop, replicate, u32_mod,
}
use vdi_cpp_wrapper.Environment.{EnvironmentInfo}

-- `on_open` says whether RegOpenKeyExW opens the key. `on_query` is RegQueryValueExW at the key,
-- the value and the bytes of the buffer: whether it succeeds, and the characters that it puts
-- into the buffer. `on_to_utf8` is WideCharToMultiByte, `none` where its length is 0.
pub record System : Type 0 where
  pub on_open : String → Bool
  pub on_query : String → String → ℕ → Bool × List ℕ
  pub on_to_utf8 : List ℕ → Option String
  pub number_of_processors : ℕ
  pub total_phys : Option ℕ

pub data Reading {ℓ} (A : Type ℓ) : Type ℓ where
  text : A → Reading A
  overrun : Reading A

infixl 5 ◌>>=◌
abbrev pub ◌>>=◌ {ℓ κ} : {A : Type ℓ} {B : Type κ} → Reading A → (A → Reading B) → Reading B
text a >>= f = f a
overrun >>= f = overrun

-- The characters before the first NUL.
unfoldable pub until_nul : List ℕ → Reading (List ℕ)
until_nul [] = overrun
until_nul (zero ∷ buf) = text []
until_nul (suc c ∷ buf) = do rest ← until_nul buf; text (suc c ∷ rest)

-- What the query leaves in the buffer: its characters in front of what was there.
abbrev pub overwrite : List ℕ → List ℕ → List ℕ
overwrite buf data_ = data_ ++ drop (length data_) buf

-- The conversion of the buffer, which leaves the field as it is where it fails.
abbrev pub convert : System → List ℕ → String → Reading String
convert S buf field = do
  wide ← until_nul buf
  elim (S.on_to_utf8 wide) [ none ↦ text field | some s ↦ text s ]

-- The query of a value into the buffer, with the conversion where it succeeds; and the buffer
-- after it.
unfoldable pub read_value : System → String → String → ℕ → List ℕ → Reading String × List ℕ
unfolding until_nul
read_value S key name capacity buf =
    let (done, data_) = S.on_query key name (2 * capacity) in
    let buf1 = overwrite buf data_ in (if done then convert S buf1 "" else text "", buf1)

abbrev pub current_version : String
current_version = "SOFTWARE\\Microsoft\\Windows NT\\CurrentVersion"

abbrev pub central_processor : String
central_processor = "HARDWARE\\DESCRIPTION\\System\\CentralProcessor\\0"

abbrev pub sql_setup : String
sql_setup = "SOFTWARE\\Microsoft\\Microsoft SQL Server\\MSSQL16.MSSQLSERVER\\Setup"

-- The name and the version of the system share one buffer.
unfoldable pub read_os : System → Reading (String × String)
read_os S =
    let (os_name, buf) = read_value S current_version "ProductName" 256 (replicate 256 0) in
    let (os_version, buf1) = read_value S current_version "CurrentVersion" 256 buf in
    if S.on_open current_version
    then (do n ← os_name; v ← os_version; text (n, v))
    else text ("", "")

-- One value of a key with a buffer of its own.
unfoldable pub read_single : System → String → String → ℕ → Reading String
read_single S key name capacity =
    if S.on_open key then (read_value S key name capacity (replicate capacity 0)).0 else text ""

-- ullTotalPhys, or 0 as the structure was cleared
abbrev pub ram_of : Option ℕ → ℕ
ram_of none = 0
ram_of (some n) = n

-- EnvironmentInfo capture_environment()
unfoldable pub capture_environment : System → Reading EnvironmentInfo
unfolding read_os read_single
capture_environment S = do
  os ← read_os S
  cpu_model ← read_single S central_processor "ProcessorNameString" 256
  sql_version ← read_single S sql_setup "PatchLevel" 128
  text (record {
    os_name = os.0;
    os_version = os.1;
    cpu_model = cpu_model;
    cpu_core_count = S.number_of_processors % u32_mod;
    ram_bytes = ram_of S.total_phys;
    sql_version = sql_version;
  })
