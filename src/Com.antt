-- ===== src/Com.antt =====
-- include/com_runtime.h and src/com_runtime.cpp, as built for Windows: the RAII wrapper of the COM
-- runtime.
use vdi_cpp_wrapper.Prelude.{ℕ, ◌∷◌, Bool, true, false, not, ◌&&◌, ◌==◌, if◌then◌else◌}
use vdi_cpp_wrapper.Protocol.{failed}
use vdi_cpp_wrapper.World.{Trace, Platform, co_initialize_ex, co_uninitialize}

pub record ComRuntime : Type 0 where
  pub initialized : Bool
  pub init_result : ℕ
  pub already_init : Bool

-- S_FALSE of the Windows headers
abbrev pub s_false : ℕ
s_false = 1

-- ComRuntime::ComRuntime()
unfoldable pub new : Platform → Trace → ComRuntime × Trace
new P t =
    let hr = P.on_co_initialize_ex t in
    (
      if failed hr
          then record { initialized = false; init_result = hr; already_init = false }
          else record { initialized = true; init_result = hr; already_init = hr == s_false },
      co_initialize_ex hr ∷ t,
    )

-- ComRuntime::~ComRuntime()
unfoldable pub destroy : ComRuntime → Trace → Trace
destroy runtime t =
    if runtime.initialized && not runtime.already_init then co_uninitialize ∷ t else t
