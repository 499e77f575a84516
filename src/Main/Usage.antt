-- ===== src/Main/Usage.antt =====
-- The COM objects over a whole run of main.
use Prim.Native.String.{String, ◌++◌}
use vdi_cpp_wrapper.Prelude.{
  ℕ, ◌≡◌, ◌≢◌, refl, subst, ◌∙◌, ap, inl, inr, ℤ, List, [], ◌∷◌, Option, none, some, Bool, true,
  false, not, pos, arith, ◌==◌, if◌then◌else◌, if_elim, to_string,
}
use vdi_cpp_wrapper.Protocol.{failed}
use vdi_cpp_wrapper.World.{Trace, Platform, close_file, aligned_free}
use vdi_cpp_wrapper.Sink.{Sink, null_sink, file_sink}
use vdi_cpp_wrapper.Sink
use vdi_cpp_wrapper.Sink.Files
use vdi_cpp_wrapper.Sink.Files.{FileSink, is_null}
use vdi_cpp_wrapper.Faults.{FaultInjector}
use vdi_cpp_wrapper.Client
use vdi_cpp_wrapper.Client.{VdiClient}
use vdi_cpp_wrapper.Client.Lifecycle.{connect, open_devices, close, destroy}
use vdi_cpp_wrapper.Client.Loop.{
  Outcome, returned, crashed, out_of_fuel, open_all, dev_count, process_commands,
}
use vdi_cpp_wrapper.Client.Rules.{option_elim}
use vdi_cpp_wrapper.Client.Objects.{absent, Uses, unused, apart}
use vdi_cpp_wrapper.Client.Session.Invariant.{Inv, connect-Inv, open_devices-Inv, destroy-Inv}
use vdi_cpp_wrapper.Client.Session.Objects.{
  set_of, UsesWith, connect-UsesWith, open_devices-UsesWith, close-UsesWith, destroy-UsesWith,
}
use vdi_cpp_wrapper.Client.Session.Usage.{Ends, left_open, process_commands-Ends}
use vdi_cpp_wrapper.Main.Rules.{exit_rule}
use vdi_cpp_wrapper.Main.Release.{new-Inv, make_sink-created, run_client-Inv}
use vdi_cpp_wrapper.Main.{
  parse_args, default_options, Options, make_sink, transfer, run_client, main, delete_client,
  destroy_fields,
}

-- The sink calls no object.
make_sink-Uses : (P : Platform) (o : Options) → Uses (make_sink P o).1 absent []
unfolding make_sink Files.new
make_sink-Uses P o =
    if_elim (λ (q : Sink × Trace). Uses q.1 absent []) o.use_file_sink
      (λ _.
        if_elim (λ (q : FileSink × Trace). Uses q.1 absent []) (P.on_wide_path [])
          (λ _. apart _ refl (apart _ refl unused)) (λ _. unused))
      (λ _. unused)

sink_destroy-Uses :
    (P : Platform) (k : Sink) (t : Trace) (devices : List ℕ)
    → Uses t absent devices
    → Uses (Sink.destroy P k t) absent devices
unfolding Sink.destroy Files.destroy Files.flush_buffer
sink_destroy-Uses P null_sink t ds u = u
sink_destroy-Uses P (file_sink k) t ds u =
    let (k1, t1) = Files.flush_buffer P k t in
    let u1 : Uses t1 absent ds =
      if_elim (λ (q : FileSink × Trace). Uses q.1 absent ds) (k.buffered_bytes == 0) (λ _. u)
        (λ _. apart _ refl u) in
    let t2 = if k1.file_handle then close_file ∷ t1 else t1 in
    let u2 : Uses t2 absent ds =
      if_elim (λ l. Uses l absent ds) k1.file_handle (λ _. apart close_file refl u1) (λ _. u1) in
    if_elim (λ l. Uses l absent ds) (is_null k1.write_buffer) (λ _. u2)
      (λ _. apart aligned_free refl u2)

-- With one device, a failed opening loop has opened none.
left_open-open_all : (P : Platform) (c : VdiClient) → left_open [] (open_all P 1 0 [] c) ≡ []
unfolding open_all
left_open-open_all P c =
    if_elim (λ (q : Bool × List ℕ × VdiClient). left_open [] q ≡ [])
      (failed (P.on_open_device c.calls 0)) (λ _. refl) (λ _. refl)

device_count-connect :
    (P : Platform) (c : VdiClient) (name : String) (n : ℤ)
    → (connect P c name n).0 ≡ true
    → (connect P c name n).1.device_count ≡ n
unfolding connect
device_count-connect P c name n e = ground arith

device_count-open_devices :
    (P : Platform) (c : VdiClient) → (open_devices P c).1.device_count ≡ c.device_count
unfolding open_devices
device_count-open_devices P c = ground arith

-- Where main's body comes to an exit code, no device is open.
abbrev Leaves : Option ℕ × VdiClient → Type 0
Leaves (some n, c) = UsesWith [] c
Leaves (none, c) = Unit

transfer-Leaves :
    (P : Platform) (fuel : ℕ) (c : VdiClient)
    → Inv c
    → c.device_count ≡ pos 1
    → UsesWith [] c
    → Leaves (transfer P fuel c)
unfolding transfer dev_count
transfer-Leaves P fuel c v one u =
    let (left, e, ends) = process_commands-Ends P fuel [] c v u in
    let none_left : left ≡ [] = elim e [
      | inl f ↦ f
      | inr f ↦
          f ∙ ap (λ n. left_open [] (open_all P (dev_count n) 0 [] c)) one ∙ left_open-open_all P c
    ] in
    let (outcome, c1) = process_commands P fuel c in
    ended outcome c1 (subst (λ l. Ends l (process_commands P fuel c)) none_left ends)
  where
    ended :
        (outcome : Outcome) (c1 : VdiClient)
        → Ends [] (outcome, c1)
        → Leaves (elim outcome [
          | returned ↦ (some 0, close P c1)
          | crashed ↦ (none, c1)
          | out_of_fuel ↦ (none, c1)
        ])
    ended returned c1 w = close-UsesWith [] P c1 w
    ended crashed c1 w = tt
    ended out_of_fuel c1 w = tt

run_client-Leaves :
    (P : Platform) (fuel : ℕ) (name : String) (c : VdiClient)
    → Inv c
    → UsesWith [] c
    → Leaves (run_client P fuel name c)
unfolding run_client
run_client-Leaves P fuel name c v u =
    let (joined, c1) = connect P c name (pos 1) in
    let (opened, c2) = open_devices P c1 in
    let v1 = connect-Inv P c name (pos 1) v in
    let u1 = connect-UsesWith [] P c name (pos 1) v u in
    let u2 = open_devices-UsesWith [] P c1 u1 in
    if_elim Leaves (not joined) (λ _. u1)
      (λ e.
        if_elim Leaves (not opened) (λ _. close-UsesWith [] P c2 u2)
          (λ _.
            transfer-Leaves P fuel c2 (open_devices-Inv P c1 v1)
              (device_count-open_devices P c1
                ∙ device_count-connect P c name (pos 1) (ground arith))
              u2))

-- The client's destruction, and that of its sink, end the use of the device set.
delete_client-Uses :
    (P : Platform) (c : VdiClient)
    → Inv c
    → UsesWith [] c
    → Uses (delete_client P c).calls absent []
unfolding delete_client destroy_fields
delete_client-Uses P c v u =
    let c1 = destroy P c in
    let u1 : Uses c1.calls absent [] =
      subst (λ b. Uses c1.calls (set_of b) []) (destroy-Inv P c v).1 (destroy-UsesWith [] P c u) in
    option_elim (λ (d : VdiClient). Uses d.calls absent []) c1.sink (λ _. u1)
      (λ k e. sink_destroy-Uses P k c1.calls [] u1)

-- A run of main that comes to an exit code, for every command line and whatever the outside
-- answers, makes every call on an object that exists and is in the right state (a device only
-- between its OpenDevice and its Release, and while the set is in service; the set's methods only
-- after a successful CreateEx and before Close), and in the end no device is open and there is no
-- device set.
pub main-Uses :
    (P : Platform) (fuel : ℕ) (f : FaultInjector) (pid : ℕ) (args : List String)
    → (main P fuel f pid args).0 ≢ none
    → Uses (main P fuel f pid args).1.calls absent []
unfolding main Client.new
main-Uses P fuel f pid args h =
    let o = parse_args args default_options in
    let (sink, t) = make_sink P o in
    let (none_made, none_released) = make_sink-created P o in
    let name = "VDI_Device_" ++ to_string pid in
    let c0 = Client.new (some sink) false f t in
    let (code, c) = run_client P fuel name c0 in
    let v0 = new-Inv (some sink) false f t none_made none_released in
    let l : Leaves (code, c) = run_client-Leaves P fuel name c0 v0 (make_sink-Uses P o) in
    exit_rule P (λ q. q.0 ≢ none → Uses q.1.calls absent []) code c (λ _ e. absurd (e refl))
      (λ n e _.
        delete_client-Uses P c (run_client-Inv P fuel name c0 v0) (subst (λ k. Leaves (k, c)) e l))
      h
