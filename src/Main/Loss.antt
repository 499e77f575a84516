-- ===== src/Main/Loss.antt =====
-- A run of main on a disk that is full.
use Prim.Native.String.{String, ◌++◌}
use vdi_cpp_wrapper.Prelude.{
  ℕ, sym, ◌∙◌, ℤ, ◌<◌, ◌≡◌, refl, List, [], Option, some, true, false, not, pos, arith, to_string,
  if_elim, take, ◌%◌, u32_mod, ◌&&◌,
}
use vdi_cpp_wrapper.World.{Platform, Trace}
use vdi_cpp_wrapper.Sink
use vdi_cpp_wrapper.Sink.{Sink, null_sink, file_sink}
use vdi_cpp_wrapper.Sink.Files
use vdi_cpp_wrapper.Sink.Files.{memory}
use vdi_cpp_wrapper.Sink.Bytes.{file_bytes}
use vdi_cpp_wrapper.Errors.State.{init, is_closed, is_init}
use vdi_cpp_wrapper.Faults.{stub}
use vdi_cpp_wrapper.Com
use vdi_cpp_wrapper.Client
use vdi_cpp_wrapper.Client.{VdiClient}
use vdi_cpp_wrapper.Client.Lifecycle.{connect, open_devices, destroy}
use vdi_cpp_wrapper.Client.Rules.{option_elim}
use vdi_cpp_wrapper.Client.Termination.{EndsAfter}
use vdi_cpp_wrapper.Client.Session.Histories.{KeepsCalls, Calls-KeepsMethods}
use vdi_cpp_wrapper.Main.{
  parse_args, default_options, make_sink, run_client, main, delete_client, destroy_fields,
}
use vdi_cpp_wrapper.Main.Exit.{transfer_lem}
use vdi_cpp_wrapper.Main.Start.{Starts, Fresh, make_sink_lem, connect-Fresh, open_devices-Fresh}
use vdi_cpp_wrapper.Main.Rules.{run_client_rule, exit_rule}

-- Every WriteFile fails and writes nothing.
abbrev pub IsFull : Platform → Type 0
IsFull P = (t : Trace) (bytes : List ℕ) → P.on_write_file t bytes ≡ (false, 0)

abbrev IsEmpty : Trace → Type 0
IsEmpty t = file_bytes t ≡ []

connect-IsEmpty :
    (P : Platform) (c : VdiClient) (name : String) (n : ℤ)
    → IsEmpty c.calls
    → IsEmpty (connect P c name n).1.calls
unfolding connect Com.new Com.destroy file_bytes
connect-IsEmpty P c name n h = ground arith

IsEmpty-KeepsCalls : (P : Platform) → IsFull P → KeepsCalls P IsEmpty
unfolding file_bytes
IsEmpty-KeepsCalls P full = record {
  heard = record {
    silent = record {
      quiet = record {
        on_clock = λ t h. h;
        on_write = λ t bytes h. rw (full t bytes, h) refl;
        on_flush = λ t h. h;
        on_warning = λ t n h. h;
      };
      on_complete = λ t device cmd code n position hr h. h;
    };
    on_get_command = λ t device timeout h. h;
  };
  on_open = λ t i hr h. h;
  on_release = λ t device h. h;
  on_drop = λ t h. h;
  on_configuration = λ t timeout hr h. h;
  on_connect = connect-IsEmpty P;
}

sink_destroy-IsEmpty :
    (P : Platform) (k : Sink) (t : Trace) → IsFull P → IsEmpty t → IsEmpty (Sink.destroy P k t)
unfolding Sink.destroy Files.destroy Files.flush_buffer file_bytes
sink_destroy-IsEmpty P null_sink t full h = h
sink_destroy-IsEmpty P (file_sink k) t full h =
    ground (arith, full t (take (k.buffered_bytes % u32_mod) (memory k.write_buffer)), h)

delete_client-IsEmpty :
    (P : Platform) (c : VdiClient) → IsFull P → IsEmpty c.calls → IsEmpty (delete_client P c).calls
unfolding delete_client destroy_fields destroy
delete_client-IsEmpty P c full h =
    let closes = (Calls-KeepsMethods P IsEmpty (IsEmpty-KeepsCalls P full)).loop.on_close c h in
    let c1 = destroy P c in
    let h1 : IsEmpty c1.calls =
      if_elim (λ (d : VdiClient). IsEmpty d.calls)
        (not (is_closed c.state) && not (is_init c.state)) (λ _. closes) (λ _. h) in
    option_elim (λ (d : VdiClient). IsEmpty d.calls) c1.sink (λ _. h1)
      (λ k e. sink_destroy-IsEmpty P k c1.calls full h1)

abbrev Succeeds : Option ℕ × VdiClient → Type 0
Succeeds q = q.0 ≡ some 0

run_client-Succeeds :
    (P : Platform) (n fuel : ℕ) (name : String) (c : VdiClient)
    → EndsAfter n P
    → n < fuel
    → Starts P
    → Fresh c
    → c.state ≡ init
    → Succeeds (run_client P fuel name c)
unfolding run_client
run_client-Succeeds P n fuel name c ends more s fresh st =
    let (joined, c1) = connect P c name (pos 1) in
    let (opened, c2) = open_devices P c1 in
    let (j, fresh1, st1, set1) = connect-Fresh P c name s fresh st in
    let (o, fresh2, st2, set2) = open_devices-Fresh P c1 s fresh1 st1 set1 in
    if_elim Succeeds (not joined) (λ e. absurd (cc (e, j)))
      (λ _.
        if_elim Succeeds (not opened) (λ e. absurd (cc (e, o)))
          (λ _. transfer_lem P n fuel c2 ends more (λ e. cc (e, fresh2.0))))

-- With `--sink file` on a disk where every WriteFile fails and writes nothing, where COM, the
-- device set and the file start, and the server, whatever it sends, answers every GetCommand from
-- the n-th on with a failure that is no timeout, with more than n rounds of fuel: main returns 0
-- and the file is empty. The build has no fault injection.
pub main-hides_loss :
    (P : Platform) (n fuel pid : ℕ) (args : List String)
    → IsFull P
    → EndsAfter n P
    → n < fuel
    → Starts P
    → (parse_args args default_options).use_file_sink ≡ true
    → let (code, c) = main P fuel stub pid args in (code ≡ some 0) × (file_bytes c.calls ≡ [])
unfolding main Client.new
main-hides_loss P n fuel pid args full ends more s file =
    let o = parse_args args default_options in
    let (sink, t) = make_sink P o in
    let name = "VDI_Device_" ++ to_string pid in
    let c0 = Client.new (some sink) false stub t in
    let (code, c) = run_client P fuel name c0 in
    let fresh = make_sink_lem P o s file in
    let good = run_client-Succeeds P n fuel name c0 ends more s fresh refl in
    let empty =
      run_client_rule P (λ (d : VdiClient). IsEmpty d.calls)
        (Calls-KeepsMethods P IsEmpty (IsEmpty-KeepsCalls P full)) fuel name c0 fresh.1 in
    exit_rule P (λ q. (q.0 ≡ some 0) × IsEmpty q.1.calls) code c (λ e. absurd (cc (e, good)))
      (λ m e. (sym e ∙ good, delete_client-IsEmpty P c full empty))
