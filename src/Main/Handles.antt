-- ===== src/Main/Handles.antt =====
-- What a whole run of main leaves of the file and of the buffer of its sink.
use Prim.Native.String.{String, ◌++◌}
use vdi_cpp_wrapper.Prelude.{
  ℕ, ℤ, ◌≤◌, ◌≡◌, ◌≢◌, refl, List, [], none, some, false, arith, to_string, if_elim, not, ◌&&◌,
  subst,
}
use vdi_cpp_wrapper.World.{Platform, Trace}
use vdi_cpp_wrapper.Sink
use vdi_cpp_wrapper.Sink.{Sink, null_sink, file_sink}
use vdi_cpp_wrapper.Sink.Files
use vdi_cpp_wrapper.Com
use vdi_cpp_wrapper.Sink.Handles.{
  misuses, Owns, new-Owns, destroy-Owns, opened_files, closed_files, allocated_buffers,
  freed_buffers,
}
use vdi_cpp_wrapper.Errors.State.{is_closed, is_init}
use vdi_cpp_wrapper.Faults.{FaultInjector}
use vdi_cpp_wrapper.Client
use vdi_cpp_wrapper.Client.{VdiClient}
use vdi_cpp_wrapper.Client.Lifecycle.{destroy, connect}
use vdi_cpp_wrapper.Client.Rules.{option_elim}
use vdi_cpp_wrapper.Client.Handles.{Holds, HoldsWith, Owns-of_sink, close-Holds, Holds-KeepsMethods}
use vdi_cpp_wrapper.Main.{
  Options, parse_args, default_options, make_sink, run_client, main, delete_client, destroy_fields,
}
use vdi_cpp_wrapper.Client.Session.Histories.{KeepsCalls, Calls-KeepsMethods}
use vdi_cpp_wrapper.Main.Rules.{run_client_rule, exit_rule}

make_sink-Owns : (P : Platform) (o : Options) → Owns (make_sink P o).0 (make_sink P o).1
unfolding misuses make_sink opened_files closed_files allocated_buffers freed_buffers
make_sink-Owns P o = ground (arith, new-Owns P [])

destroy-Holds : (P : Platform) (c : VdiClient) → Holds c → Holds (destroy P c)
unfolding destroy
destroy-Holds P c h =
    if_elim Holds (not (is_closed c.state) && not (is_init c.state)) (λ _. close-Holds P c h)
      (λ _. h)

delete_client-Owns :
    (P : Platform) (c : VdiClient) → Holds c → Owns null_sink (delete_client P c).calls
unfolding delete_client destroy_fields
delete_client-Owns P c h =
    let c1 = destroy P c in
    let h1 = destroy-Holds P c h in
    option_elim (λ (d : VdiClient). Owns null_sink d.calls) c1.sink
      (λ e. subst (λ o. HoldsWith o c1.calls) e h1)
      (λ k e. destroy-Owns P k c1.calls (Owns-of_sink c1 k e h1))

-- At most one file is opened and one buffer allocated: only the constructor of the sink does so.
abbrev Few : Trace → Type 0
Few t = (opened_files t ≤ 1) × (allocated_buffers t ≤ 1)

make_sink-Few : (P : Platform) (o : Options) → Few (make_sink P o).1
unfolding make_sink Files.new opened_files allocated_buffers
make_sink-Few P o = ground arith

connect-Few :
    (P : Platform) (c : VdiClient) (name : String) (n : ℤ)
    → Few c.calls
    → Few (connect P c name n).1.calls
unfolding connect Com.new Com.destroy opened_files allocated_buffers
connect-Few P c name n h = ground arith

Few-KeepsCalls : (P : Platform) → KeepsCalls P Few
unfolding opened_files allocated_buffers
Few-KeepsCalls P = record {
  heard = record {
    silent = record {
      quiet = record {
        on_clock = λ t h. h;
        on_write = λ t bytes h. h;
        on_flush = λ t h. h;
        on_warning = λ t n h. h;
      };
      on_complete = λ t device cmd code n position hr h. h;
    };
    on_get_command = λ t device timeout h. h;
  };
  on_open = λ t i hr h. h;
  on_release = λ t device h. h;
  on_drop = λ t h. h;
  on_configuration = λ t timeout hr h. h;
  on_connect = connect-Few P;
}

sink_destroy-Few : (P : Platform) (k : Sink) (t : Trace) → Few t → Few (Sink.destroy P k t)
unfolding Sink.destroy Files.destroy Files.flush_buffer opened_files allocated_buffers
sink_destroy-Few P null_sink t h = h
sink_destroy-Few P (file_sink k) t h = ground arith

delete_client-Few : (P : Platform) (c : VdiClient) → Few c.calls → Few (delete_client P c).calls
unfolding delete_client destroy_fields destroy
delete_client-Few P c h =
    let closes = (Calls-KeepsMethods P Few (Few-KeepsCalls P)).loop.on_close c h in
    let c1 = destroy P c in
    let h1 : Few c1.calls =
      if_elim (λ (d : VdiClient). Few d.calls) (not (is_closed c.state) && not (is_init c.state))
        (λ _. closes) (λ _. h) in
    option_elim (λ (d : VdiClient). Few d.calls) c1.sink (λ _. h1)
      (λ k e. sink_destroy-Few P k c1.calls h1)

abbrev AllGivenBack : Trace → Type 0
AllGivenBack t =
    (closed_files t ≡ opened_files t)
    × (freed_buffers t ≡ allocated_buffers t)
    × (opened_files t ≤ 1)
    × (allocated_buffers t ≤ 1)
    × (misuses t ≡ 0)

given_back : (t : Trace) → Owns null_sink t → Few t → AllGivenBack t
given_back t (a, b, m, _) (c, d) = (omega (arith, a), omega (arith, b), c, d, m)

-- A run of main that comes to an exit code, whichever it is, has closed the file if and only if
-- it has opened it, and freed the buffer if and only if it has allocated it, each at most once;
-- it has never written to, flushed or closed a file that was not open, nor freed a buffer that it
-- did not have. So for every command line and whatever the outside answers.
pub main-frees :
    (P : Platform) (fuel : ℕ) (f : FaultInjector) (pid : ℕ) (args : List String)
    → (main P fuel f pid args).0 ≢ none
    → let t = (main P fuel f pid args).1.calls in
      (closed_files t ≡ opened_files t)
      × (freed_buffers t ≡ allocated_buffers t)
      × (opened_files t ≤ 1)
      × (allocated_buffers t ≤ 1)
      × (misuses t ≡ 0)
unfolding main Client.new
main-frees P fuel f pid args h =
    let o = parse_args args default_options in
    let (sink, t) = make_sink P o in
    let name = "VDI_Device_" ++ to_string pid in
    let c0 = Client.new (some sink) false f t in
    let (code, c) = run_client P fuel name c0 in
    let held = run_client_rule P Holds (Holds-KeepsMethods P) fuel name c0 (make_sink-Owns P o) in
    let few =
      run_client_rule P (λ (d : VdiClient). Few d.calls)
        (Calls-KeepsMethods P Few (Few-KeepsCalls P)) fuel name c0 (make_sink-Few P o) in
    exit_rule P (λ q. q.0 ≢ none → AllGivenBack q.1.calls) code c (λ _ e. absurd (e refl))
      (λ m _ _. given_back _ (delete_client-Owns P c held) (delete_client-Few P c few)) h
