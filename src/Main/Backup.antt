-- ===== src/Main/Backup.antt =====
-- From the command line to the bytes of the file.
use Prim.Native.String.{String, ◌++◌}
use vdi_cpp_wrapper.Prelude.{
  ℕ, ◌<◌, ◌≡◌, refl, sym, subst, ◌∙◌, List, none, some, true, false, not, pos, arith, to_string,
  if_elim,
}
use vdi_cpp_wrapper.World.{Trace, Platform}
use vdi_cpp_wrapper.Sink
use vdi_cpp_wrapper.Sink.{file_sink}
use vdi_cpp_wrapper.Sink.Log.{file_bytes-destroy}
use vdi_cpp_wrapper.Sink.Files
use vdi_cpp_wrapper.Sink.Files.{FileSink}
use vdi_cpp_wrapper.Sink.Bytes.{file_bytes, WritesAll}
use vdi_cpp_wrapper.Faults.{stub}
use vdi_cpp_wrapper.Errors.State.{init, streaming, closed}
use vdi_cpp_wrapper.Client
use vdi_cpp_wrapper.Client.{VdiClient}
use vdi_cpp_wrapper.Client.Lifecycle.{connect, open_devices, close}
use vdi_cpp_wrapper.Client.Loop.{Outcome, returned, crashed, out_of_fuel, process_commands}
use vdi_cpp_wrapper.Client.Backup.{received_bytes, SendsWellFormed}
use vdi_cpp_wrapper.Client.Backup.Progress.{Cooperates}
use vdi_cpp_wrapper.Client.Backup.Completion.{process_commands_completes_lem}
use vdi_cpp_wrapper.Client.Backup.Session.{AllFiled}
use vdi_cpp_wrapper.Client.Termination.{EndsAfter}
use vdi_cpp_wrapper.Client.Session.Invariant.{
  Inv, connect-Inv, open_devices-Inv, process_commands-Inv,
}
use vdi_cpp_wrapper.Main.Release.{new-Inv, make_sink-created}
use vdi_cpp_wrapper.Main.Rules.{exit_rule}
use vdi_cpp_wrapper.Main.{
  parse_args, default_options, make_sink, transfer, run_client, main, delete_client, destroy_fields,
}
use vdi_cpp_wrapper.Main.Start.{
  Starts, Fresh, make_sink_lem, connect-Fresh, open_devices-Fresh, Fresh-Accepts, Stored,
  close_closed, destroy_closed,
}

received_bytes-destroy :
    (P : Platform) (k : FileSink) (t : Trace)
    → received_bytes (Sink.destroy P (file_sink k) t) ≡ received_bytes t
unfolding Sink.destroy Files.destroy Files.flush_buffer received_bytes
received_bytes-destroy P k t = ground arith

-- The destructor of the sink leaves the file as it is, since nothing waits.
destroy_fields-filed :
    (P : Platform) (c : VdiClient)
    → WritesAll P
    → AllFiled c
    → let d = destroy_fields P c in file_bytes d.calls ≡ received_bytes d.calls
unfolding destroy_fields Sink.destroy
destroy_fields-filed P c w (filed, (k, e, valid, ready, a)) =
    rw e (file_bytes-destroy P k c.calls w valid ∙ a ∙ sym (received_bytes-destroy P k c.calls))

delete_client-filed :
    (P : Platform) (c : VdiClient)
    → WritesAll P
    → c.state ≡ closed
    → AllFiled c
    → let d = delete_client P c in file_bytes d.calls ≡ received_bytes d.calls
unfolding delete_client
delete_client-filed P c w st filed =
    subst
      (λ (d : VdiClient).
        file_bytes (destroy_fields P d).calls ≡ received_bytes (destroy_fields P d).calls)
      (sym (destroy_closed P c st)) (destroy_fields-filed P c w filed)

module _ (P : Platform) (n fuel : ℕ) (w : WritesAll P) (f : SendsWellFormed P) (k : Cooperates P)
    (ends : EndsAfter n P) (more : n < fuel) (s : Starts P) where
  transfer-Stored :
      (c : VdiClient)
      → Inv c
      → Fresh c
      → c.state ≡ streaming
      → c.device_set ≡ true
      → Stored (transfer P fuel c)
  unfolding transfer Stored
  transfer-Stored c v fresh st set =
      let (outcome, c1) = process_commands P fuel c in
      let (back, shut, filed) =
        process_commands_completes_lem P n fuel c w f k ends more st set fresh.3
          (Fresh-Accepts c fresh) in
      ended outcome c1 back shut filed (process_commands-Inv P fuel c v)
    where
      ended :
          (outcome : Outcome) (c1 : VdiClient)
          → outcome ≡ returned
          → c1.state ≡ closed
          → AllFiled c1
          → Inv c1
          → Stored (elim outcome [
            | returned ↦ (some 0, close P c1)
            | crashed ↦ (none, c1)
            | out_of_fuel ↦ (none, c1)
          ])
      ended returned c1 e shut filed i = rw (close_closed P c1 i shut) (refl, shut, filed)
      ended crashed c1 e shut filed i = absurd (cc e)
      ended out_of_fuel c1 e shut filed i = absurd (cc e)

  run_client-Stored :
      (name : String) (c : VdiClient)
      → Inv c
      → Fresh c
      → c.state ≡ init
      → Stored (run_client P fuel name c)
  unfolding run_client
  run_client-Stored name c v fresh st =
      let (joined, c1) = connect P c name (pos 1) in
      let (opened, c2) = open_devices P c1 in
      let (j, fresh1, st1, set1) = connect-Fresh P c name s fresh st in
      let (o, fresh2, st2, set2) = open_devices-Fresh P c1 s fresh1 st1 set1 in
      let v2 = open_devices-Inv P c1 (connect-Inv P c name (pos 1) v) in
      if_elim Stored (not joined) (λ e. absurd (cc (e, j)))
        (λ _.
          if_elim Stored (not opened) (λ e. absurd (cc (e, o)))
            (λ _. transfer-Stored c2 v2 fresh2 st2 set2))

-- The whole program, with `--sink file` on its command line: where COM, the device set and the
-- file start, the disk writes all that it is given, the server plays its part and reports the end
-- from its n-th GetCommand on, and more than n rounds of fuel are given, main returns 0, and the
-- file then holds exactly the data of all the VDC_Write commands that the server has sent, in
-- order. The build has no fault injection.
pub main-backup :
    (P : Platform) (n fuel pid : ℕ) (args : List String)
    → WritesAll P
    → SendsWellFormed P
    → Cooperates P
    → EndsAfter n P
    → n < fuel
    → Starts P
    → (parse_args args default_options).use_file_sink ≡ true
    → let (code, c) = main P fuel stub pid args in
      (code ≡ some 0) × (file_bytes c.calls ≡ received_bytes c.calls)
unfolding main Stored Client.new
main-backup P n fuel pid args w f k ends more s file =
    let o = parse_args args default_options in
    let (sink, t) = make_sink P o in
    let c0 = Client.new (some sink) false stub t in
    let (made, unmade) = make_sink-created P o in
    let name = "VDI_Device_" ++ to_string pid in
    let (code, c) = run_client P fuel name c0 in
    let (good, shut, filed) =
      run_client-Stored P n fuel w f k ends more s name c0
        (new-Inv (some sink) false stub t made unmade) (make_sink_lem P o s file) refl in
    exit_rule P (λ q. (q.0 ≡ some 0) × (file_bytes q.1.calls ≡ received_bytes q.1.calls)) code c
      (λ e. absurd (cc (e, good))) (λ m e. (sym e ∙ good, delete_client-filed P c w shut filed))
