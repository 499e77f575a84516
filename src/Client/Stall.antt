-- ===== src/Client/Stall.antt =====
-- src/vdi_client.cpp: check_stall.
use vdi_cpp_wrapper.Prelude.{ℕ, ◌*◌, ◌∷◌, ltb, ◌==◌, if◌then◌else◌, sub64}
use vdi_cpp_wrapper.World.{stall_warning}
pub mod Progress
pub mod Limit
use vdi_cpp_wrapper.Client.{VdiClient, stall_warn_ms}

-- void check_stall(now_us)
unfoldable pub check_stall : VdiClient → ℕ → VdiClient
check_stall c now_us =
    if c.last_stall_warn_us == 0
    then record c { last_stall_warn_us = now_us }
    else if ltb (sub64 now_us c.last_stall_warn_us) (stall_warn_ms * 1000)
    then c
    else if c.metrics.total_bytes == c.last_bytes_total
    then record c {
      calls = stall_warning c.metrics.total_bytes ∷ c.calls;
      last_stall_warn_us = now_us;
    }
    else record c { last_bytes_total = c.metrics.total_bytes; last_stall_warn_us = now_us }
