-- ===== src/Client/Session/Com.antt =====
-- The COM runtime over a whole history of calls: `connect` holds it in a local variable.
use Prim.Native.String.{String}
use vdi_cpp_wrapper.Prelude.{
  ℕ, ℤ, suc, ◌+◌, ◌≡◌, refl, List, [], ◌∷◌, Option, Bool, arith, ◌==◌, if◌then◌else◌,
}
use vdi_cpp_wrapper.Protocol.{failed}
use vdi_cpp_wrapper.World.{Trace, Platform, co_initialize_ex, co_uninitialize}
use vdi_cpp_wrapper.Com
use vdi_cpp_wrapper.Com.{s_false}
use vdi_cpp_wrapper.Sink.{Sink}
use vdi_cpp_wrapper.Faults.{FaultInjector}
use vdi_cpp_wrapper.Client.{VdiClient, new}
use vdi_cpp_wrapper.Client.Lifecycle.{connect}
use vdi_cpp_wrapper.Client.Session.{Method, run}
use vdi_cpp_wrapper.Client.Session.Histories.{KeepsCalls, run_calls_rule}

-- The successful calls of CoInitializeEx, those of them with S_FALSE, and the calls of
-- CoUninitialize.
unfoldable pub initialized : Trace → ℕ
initialized [] = 0
initialized (co_initialize_ex hr ∷ t) = (if failed hr then 0 else 1) + initialized t
initialized (_ ∷ t) = initialized t

unfoldable pub already_initialized : Trace → ℕ
already_initialized [] = 0
already_initialized (co_initialize_ex hr ∷ t) =
    (if hr == s_false then 1 else 0) + already_initialized t
already_initialized (_ ∷ t) = already_initialized t

unfoldable pub uninitialized : Trace → ℕ
uninitialized [] = 0
uninitialized (co_uninitialize ∷ t) = suc (uninitialized t)
uninitialized (_ ∷ t) = uninitialized t

abbrev pub IsBalanced : Trace → Type 0
IsBalanced t = initialized t ≡ uninitialized t + already_initialized t

connect-IsBalanced :
    (P : Platform) (c : VdiClient) (name : String) (n : ℤ)
    → IsBalanced c.calls
    → IsBalanced (connect P c name n).1.calls
unfolding connect Com.new Com.destroy initialized already_initialized uninitialized
connect-IsBalanced P c name n e = ground arith

IsBalanced-KeepsCalls : (P : Platform) → KeepsCalls P IsBalanced
unfolding initialized already_initialized uninitialized
IsBalanced-KeepsCalls P = record {
  heard = record {
    silent = record {
      quiet = record {
        on_clock = λ t e. e;
        on_write = λ t bytes e. e;
        on_flush = λ t e. e;
        on_warning = λ t n e. e;
      };
      on_complete = λ t device cmd code n position hr e. e;
    };
    on_get_command = λ t device timeout e. e;
  };
  on_open = λ t i hr e. e;
  on_release = λ t device e. e;
  on_drop = λ t e. e;
  on_configuration = λ t timeout hr e. e;
  on_connect = connect-IsBalanced P;
}

-- After any history of method calls on a new session, also while its device set is in use, every
-- successful call of CoInitializeEx has been followed by its CoUninitialize, except those that
-- answered S_FALSE, which are never followed by one.
pub run-IsBalanced :
    (P : Platform) (sink : Option Sink) (logging : Bool) (f : FaultInjector) (ms : List Method)
    → IsBalanced (run P (new sink logging f []) ms).calls
unfolding new initialized already_initialized uninitialized
run-IsBalanced P sink logging f ms =
    run_calls_rule P IsBalanced (IsBalanced-KeepsCalls P) (new sink logging f []) ms refl
