-- ===== src/Client/Session/Objects.antt =====
-- The use of the COM objects over a whole history of method calls on a session.
use Prim.Native.String.{String}
use vdi_cpp_wrapper.Prelude.{
  ℕ, ℤ, ◌≡◌, refl, sym, subst, List, ◌∷◌, Bool, true, false, arith, ◌||◌, ◌&&◌, not, if◌then◌else◌,
  if_elim,
}
use vdi_cpp_wrapper.Protocol.{failed}
use vdi_cpp_wrapper.World.{
  Platform, co_initialize_ex, co_uninitialize, create_instance, get_configuration, read_clock,
  write_file, flush_file, stall_warning,
}
use vdi_cpp_wrapper.Com
use vdi_cpp_wrapper.Com.{ComRuntime}
use vdi_cpp_wrapper.Errors.State.{
  SessionState, init, is_init, is_connected, is_streaming, is_flushing, is_closed,
}
use vdi_cpp_wrapper.Client.{VdiClient, fail}
use vdi_cpp_wrapper.Client.Lifecycle.{
  client_config, create_device_set, connect_com, connect, open_devices, flush_sink,
  release_device_set, close, destroy,
}
use vdi_cpp_wrapper.Client.Calls.{IsQuiet, flush_sink_rule}
use vdi_cpp_wrapper.Client.Session.Loop.{flush_sink-Fields}
use vdi_cpp_wrapper.Client.Session.Invariant.{Inv}
use vdi_cpp_wrapper.Client.Objects.{
  SetState, absent, in_service, Uses, apart, instantiates, instantiates_nothing, configures,
  configures_nothing, awaits, shuts_down, drops, drops_unconfigured,
}

-- A session holds a device set in service, or none, and the devices of the list are open.
abbrev pub set_of : Bool → SetState
set_of b = if b then in_service else absent

abbrev pub UsesWith : List ℕ → VdiClient → Type 0
UsesWith devices c = Uses c.calls (set_of c.device_set) devices

abbrev pub UsesObjects : VdiClient → Type 0
UsesObjects c = (devices : List ℕ) × UsesWith devices c

pub held_set :
    (c : VdiClient) (devices : List ℕ)
    → c.device_set ≡ true
    → Uses c.calls in_service devices
    → UsesWith devices c
held_set c ds e u = subst (λ b. Uses c.calls (set_of b) ds) (sym e) u

Uses-IsQuiet : (P : Platform) (s : SetState) (devices : List ℕ) → IsQuiet P (λ t. Uses t s devices)
Uses-IsQuiet P s devices = record {
  on_clock = λ t u. apart (read_clock (P.on_now_us t)) refl u;
  on_write = λ t bytes u.
      apart (write_file bytes (P.on_write_file t bytes).0 (P.on_write_file t bytes).1) refl u;
  on_flush = λ t u. apart flush_file refl u;
  on_warning = λ t n u. apart (stall_warning n) refl u;
}

init_of : (s : SessionState) → not (is_init s) ≡ false → s ≡ init
init_of s e = ground arith

module _ (ds : List ℕ) where
  abbrev Replies : Bool × VdiClient → Type 0
  Replies q = UsesWith ds q.1

  -- The destructor of `com` calls no object.
  destroyed :
      (runtime : ComRuntime) (c : VdiClient)
      → UsesWith ds c
      → UsesWith ds (record c { calls = Com.destroy runtime c.calls })
  unfolding Com.destroy
  destroyed runtime c u =
      if_elim (λ t. Uses t (set_of c.device_set) ds)
        (runtime.initialized && not runtime.already_init) (λ _. apart co_uninitialize refl u)
        (λ _. u)

  create_device_set-UsesWith :
      (P : Platform) (c : VdiClient)
      → c.device_set ≡ false
      → Uses c.calls absent ds
      → UsesWith ds (create_device_set P c).1
  unfolding create_device_set
  create_device_set-UsesWith P c e u =
      let hr = P.on_create_instance c.calls in
      let t1 = create_instance hr ∷ c.calls in
      let config = client_config c.device_count in
      let hr2 = P.on_create_ex t1 config in
      if_elim Replies (failed hr)
        (λ f. subst (λ b. Uses t1 (set_of b) ds) (sym e) (instantiates_nothing hr f u))
        (λ f.
          if_elim Replies (failed hr2)
            (λ g. drops_unconfigured (configures_nothing config hr2 g (instantiates hr f u)))
            (λ g. configures config hr2 g (instantiates hr f u)))

  connect_com-UsesWith :
      (P : Platform) (c : VdiClient)
      → c.device_set ≡ false
      → Uses c.calls absent ds
      → UsesWith ds (connect_com P c).1
  unfolding connect_com Com.new
  connect_com-UsesWith P c e u =
      let (runtime, t) = Com.new P c.calls in
      let c1 = record c { calls = t } in
      let u1 : Uses t absent ds = apart (co_initialize_ex (P.on_co_initialize_ex c.calls)) refl u in
      destroyed runtime
        (if not runtime.initialized then (false, fail c1) else create_device_set P c1).1
        (if_elim Replies (not runtime.initialized)
          (λ _. subst (λ b. Uses t (set_of b) ds) (sym e) u1)
          (λ _. create_device_set-UsesWith P c1 e u1))

  pub connect-UsesWith :
      (P : Platform) (c : VdiClient) (name : String) (n : ℤ)
      → Inv c
      → UsesWith ds c
      → UsesWith ds (connect P c name n).1
  unfolding connect
  connect-UsesWith P c name n v u =
      if_elim Replies (not (is_init c.state)) (λ _. u)
        (λ e.
          let no_set : c.device_set ≡ false = (v.untouched (init_of c.state e)).1 in
          connect_com-UsesWith P (record c { device_name = name; device_count = n }) no_set
            (subst (λ b. Uses c.calls (set_of b) ds) no_set u))

  pub open_devices-UsesWith :
      (P : Platform) (c : VdiClient) → UsesWith ds c → UsesWith ds (open_devices P c).1
  unfolding open_devices
  open_devices-UsesWith P c u =
      let hr = P.on_get_configuration c.calls 60000 in
      let t1 = get_configuration 60000 hr ∷ c.calls in
      if_elim Replies (not (is_connected c.state)) (λ _. u)
        (λ _.
          if_elim Replies (not c.device_set) (λ _. u)
            (λ e.
              let held : c.device_set ≡ true = ground arith in
              let u1 : Uses t1 (set_of c.device_set) ds =
                subst (λ b. Uses t1 (set_of b) ds) (sym held)
                  (awaits 60000 hr (subst (λ b. Uses c.calls (set_of b) ds) held u)) in
              if_elim Replies (failed hr) (λ _. u1) (λ _. u1)))

  release_device_set-UsesWith : (c : VdiClient) → UsesWith ds c → UsesWith ds (release_device_set c)
  unfolding release_device_set
  release_device_set-UsesWith c u =
      if_elim (UsesWith ds) c.device_set
        (λ e. drops (shuts_down (subst (λ b. Uses c.calls (set_of b) ds) e u))) (λ _. u)

  flush_sink-UsesWith :
      (P : Platform) (c : VdiClient) → UsesWith ds c → UsesWith ds (flush_sink P c)
  flush_sink-UsesWith P c u =
      let s = set_of c.device_set in
      subst (λ b. Uses (flush_sink P c).calls (set_of b) ds) (sym (flush_sink-Fields P c).0)
        (flush_sink_rule P (λ t. Uses t s ds) (Uses-IsQuiet P s ds) c u)

  pub close-UsesWith : (P : Platform) (c : VdiClient) → UsesWith ds c → UsesWith ds (close P c)
  unfolding close
  close-UsesWith P c u =
      if_elim (UsesWith ds) c.devices_closed (λ _. u)
        (λ _.
          release_device_set-UsesWith
            (if is_streaming c.state || is_flushing c.state then flush_sink P c else c)
            (if_elim (UsesWith ds) (is_streaming c.state || is_flushing c.state)
              (λ _. flush_sink-UsesWith P c u) (λ _. u)))

  pub destroy-UsesWith : (P : Platform) (c : VdiClient) → UsesWith ds c → UsesWith ds (destroy P c)
  unfolding destroy
  destroy-UsesWith P c u =
      if_elim (UsesWith ds) (not (is_closed c.state) && not (is_init c.state))
        (λ _. close-UsesWith P c u) (λ _. u)
