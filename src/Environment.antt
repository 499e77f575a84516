-- ===== src/Environment.antt =====
-- include/environment.h and the JSON of src/environment.cpp. `capture_environment` is in
-- Environment/Capture.
pub mod Capture
pub mod Strings
pub mod Stale
use Prim.Native.String.{String, ◌++◌}
use vdi_cpp_wrapper.Prelude.{ℕ, to_string}

pub record EnvironmentInfo : Type 0 where
  pub os_name : String
  pub os_version : String
  pub cpu_model : String
  pub cpu_core_count : ℕ
  pub ram_bytes : ℕ
  pub sql_version : String

-- std::string environment_to_json(env)
unfoldable pub environment_to_json : EnvironmentInfo → String
environment_to_json env =
    "  \"environment\": {\n"
    ++ "    \"os_name\": \""
    ++ env.os_name
    ++ "\",\n"
    ++ "    \"os_version\": \""
    ++ env.os_version
    ++ "\",\n"
    ++ "    \"cpu_model\": \""
    ++ env.cpu_model
    ++ "\",\n"
    ++ "    \"cpu_core_count\": "
    ++ to_string env.cpu_core_count
    ++ ",\n"
    ++ "    \"ram_bytes\": "
    ++ to_string env.ram_bytes
    ++ ",\n"
    ++ "    \"sql_version\": \""
    ++ env.sql_version
    ++ "\",\n"
    ++ "    \"tool_version\": \"0.1.0\"\n"
    ++ "  }"
