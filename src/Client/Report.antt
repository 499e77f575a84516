-- ===== src/Client/Report.antt =====
-- The end of `process_commands` of src/vdi_client.cpp, where it returns: what it prints.
use Prim.Native.String.{◌++◌}
use vdi_cpp_wrapper.Prelude.{ℕ, ◌∷◌, [], List, Bool, to_string}
use vdi_cpp_wrapper.Prelude
use vdi_cpp_wrapper.Logging.{Line, stdout, log_info}
use vdi_cpp_wrapper.Metrics.Report.{Outside, to_json}
use vdi_cpp_wrapper.Metrics.Summary.{Decimals, print_summary}
use vdi_cpp_wrapper.Client.{VdiClient}

-- The summary on the standard output, then the JSON report between two marks, and the highest
-- number of buffers in use, by LOG_INFO.
unfoldable pub report : ℕ → Outside → Decimals → Bool → VdiClient → List Line
report logging_level o d times_known c =
    record { stream = stdout; line = print_summary o d times_known c.metrics }
    ∷ Prelude.◌++◌ (log_info logging_level "---BEGIN JSON METRICS---") (
        Prelude.◌++◌ (log_info logging_level (to_json o c.metrics)) (
          Prelude.◌++◌ (log_info logging_level "---END JSON METRICS---") (
            log_info logging_level
              ("Resource accounting: max_active_buffers=" ++ to_string c.max_active_buffers))))
