-- ===== src/Client/Objects.antt =====
-- The COM objects that src/vdi_client.cpp calls: which calls a device set and its devices admit,
-- by the order that include/sqlvdi.h expects of a client. The relation is read off the history of
-- calls alone, and so is independent of the session object.
use mathlib.Core.List.{Mem, append-nil, append_assoc, mem-append_right}
use vdi_cpp_wrapper.Prelude.{
  ℕ, zero, suc, ◌+◌, ◌≡◌, refl, subst, List, [], ◌∷◌, ◌++◌, Option, Bool, true, false, if_elim,
}
use vdi_cpp_wrapper.Protocol.{Command, VdConfig, failed}
use vdi_cpp_wrapper.World.{
  Event, Trace, Platform, co_initialize_ex, co_uninitialize, create_instance, create_ex,
  get_configuration, open_device, get_command, complete_command, release_device, close_set,
  release_set, read_clock, create_file, aligned_malloc, write_file, flush_file, close_file,
  aligned_free, stall_warning,
}
use vdi_cpp_wrapper.Client.{VdiClient}
use vdi_cpp_wrapper.Client.Loop.{open_all, run_loop, release_all}
use vdi_cpp_wrapper.Client.Calls.Loop.{AreHeard, run_served_rule}

-- Where a device set stands: there is none, CoCreateInstance has made it, CreateEx has failed,
-- CreateEx has succeeded, or Close has been called.
pub data SetState : Type 0 where
  absent instantiated unconfigured in_service shut_down : SetState

-- The calls on no device set and on no device.
abbrev pub is_local : Event → Bool
is_local (co_initialize_ex hr) = true
is_local co_uninitialize = true
is_local (read_clock now) = true
is_local (create_file done) = true
is_local (aligned_malloc done) = true
is_local (write_file bytes done n) = true
is_local flush_file = true
is_local close_file = true
is_local aligned_free = true
is_local (stall_warning n) = true
is_local (create_instance hr) = false
is_local (create_ex config hr) = false
is_local (get_configuration timeout hr) = false
is_local (open_device i hr) = false
is_local (get_command device timeout hr cmd) = false
is_local (complete_command device cmd code n position hr) = false
is_local (release_device device) = false
is_local close_set = false
is_local release_set = false

-- A history that uses the objects properly, with the device set and the open devices that it
-- leaves: every call is made on an object that exists and is in the right state.
pub data Uses : Trace → SetState → List ℕ → Type 0 where
  unused : Uses [] absent []
  apart :
      {t : Trace} {s : SetState} {devices : List ℕ} (e : Event)
      → is_local e ≡ true
      → Uses t s devices
      → Uses (e ∷ t) s devices
  instantiates :
      {t : Trace} {devices : List ℕ} (hr : ℕ)
      → failed hr ≡ false
      → Uses t absent devices
      → Uses (create_instance hr ∷ t) instantiated devices
  instantiates_nothing :
      {t : Trace} {devices : List ℕ} (hr : ℕ)
      → failed hr ≡ true
      → Uses t absent devices
      → Uses (create_instance hr ∷ t) absent devices
  configures :
      {t : Trace} {devices : List ℕ} (config : VdConfig) (hr : ℕ)
      → failed hr ≡ false
      → Uses t instantiated devices
      → Uses (create_ex config hr ∷ t) in_service devices
  configures_nothing :
      {t : Trace} {devices : List ℕ} (config : VdConfig) (hr : ℕ)
      → failed hr ≡ true
      → Uses t instantiated devices
      → Uses (create_ex config hr ∷ t) unconfigured devices
  awaits :
      {t : Trace} {devices : List ℕ} (timeout hr : ℕ)
      → Uses t in_service devices
      → Uses (get_configuration timeout hr ∷ t) in_service devices
  opens_device :
      {t : Trace} {devices : List ℕ} (i hr : ℕ)
      → failed hr ≡ false
      → Uses t in_service devices
      → Uses (open_device i hr ∷ t) in_service (devices ++ i ∷ [])
  opens_nothing :
      {t : Trace} {devices : List ℕ} (i hr : ℕ)
      → failed hr ≡ true
      → Uses t in_service devices
      → Uses (open_device i hr ∷ t) in_service devices
  asks :
      {t : Trace} {devices : List ℕ} (device timeout hr : ℕ) (cmd : Option Command)
      → Mem device devices
      → Uses t in_service devices
      → Uses (get_command device timeout hr cmd ∷ t) in_service devices
  answers :
      {t : Trace} {devices : List ℕ} (device : ℕ) (cmd : Command) (code n position hr : ℕ)
      → Mem device devices
      → Uses t in_service devices
      → Uses (complete_command device cmd code n position hr ∷ t) in_service devices
  gives_back :
      {t : Trace} (before : List ℕ) (device : ℕ) (after : List ℕ)
      → Uses t in_service (before ++ device ∷ after)
      → Uses (release_device device ∷ t) in_service (before ++ after)
  shuts_down :
      {t : Trace} {devices : List ℕ}
      → Uses t in_service devices
      → Uses (close_set ∷ t) shut_down devices
  drops :
      {t : Trace} {devices : List ℕ}
      → Uses t shut_down devices
      → Uses (release_set ∷ t) absent devices
  drops_unconfigured :
      {t : Trace} {devices : List ℕ}
      → Uses t unconfigured devices
      → Uses (release_set ∷ t) absent devices

-- The command loop uses the open devices and leaves them open.
Uses-AreHeard :
    (P : Platform) (others devices : List ℕ)
    → AreHeard P (λ t. Uses t in_service (others ++ devices)) devices
Uses-AreHeard P others devices device m = record {
  silent = record {
    quiet = record {
      on_clock = λ t u. apart (read_clock (P.on_now_us t)) refl u;
      on_write = λ t bytes u.
          apart (write_file bytes (P.on_write_file t bytes).0 (P.on_write_file t bytes).1) refl u;
      on_flush = λ t u. apart flush_file refl u;
      on_warning = λ t n u. apart (stall_warning n) refl u;
    };
    on_complete = λ t cmd code n position hr u.
        answers device cmd code n position hr (mem-append_right others m) u;
  };
  on_get_command = λ t timeout u.
      asks device timeout (P.on_get_command t device timeout).0
        (P.on_get_command t device timeout).1 (mem-append_right others m) u;
}

pub run_loop-Uses :
    (P : Platform) (fuel start : ℕ) (others devices : List ℕ) (c : VdiClient)
    → Uses c.calls in_service (others ++ devices)
    → Uses (run_loop P fuel start devices c).1.calls in_service (others ++ devices)
run_loop-Uses P fuel start others devices c u =
    run_served_rule P (λ t. Uses t in_service (others ++ devices)) fuel start devices c
      (Uses-AreHeard P others devices) u

-- Opening the devices adds those that were opened, also where it fails.
abbrev pub Opens : List ℕ → Bool × List ℕ × VdiClient → Type 0
Opens others q = Uses q.2.calls in_service (others ++ q.1)

pub open_all-Uses :
    (P : Platform) (n i : ℕ) (others devices : List ℕ) (c : VdiClient)
    → Uses c.calls in_service (others ++ devices)
    → Opens others (open_all P n i devices c)
unfolding open_all
open_all-Uses P zero i others devices c u = u
open_all-Uses P (suc n) i others devices c u =
    let hr = P.on_open_device c.calls i in
    if_elim (Opens others) (failed hr) (λ e. opens_nothing i hr e u)
      (λ e. open_all-Uses P n (i + 1) others (devices ++ i ∷ []) _ (
        subst (Uses (open_device i hr ∷ c.calls) in_service) (append_assoc others devices (i ∷ []))
          (opens_device i hr e u)))

-- Releasing the listed devices leaves the others.
pub release_all-Uses :
    (others devices : List ℕ) (c : VdiClient)
    → Uses c.calls in_service (others ++ devices)
    → Uses (release_all devices c).calls in_service others
unfolding release_all
release_all-Uses others [] c u = subst (Uses c.calls in_service) (append-nil others) u
release_all-Uses others (device ∷ devices) c u =
    release_all-Uses others devices _ (gives_back others device devices u)
