-- ===== src/Main.antt =====
-- src/main.cpp: the command line and the order of the calls on the client. The output is not
-- modelled, nor is the wait for the Enter key; the process id and the shell behind `_wsystem` are
-- arguments. The call of `_wsystem` in auto mode is `launch_sqlcmd`, and what follows from its
-- result is `asks_user`; `main` makes no step for it, since it touches neither the client nor the
-- sink.
pub mod Release
pub mod Exit
pub mod Backup
pub mod Start
pub mod Loss
pub mod Rules
pub mod Handles
pub mod Usage
use Prim.Native.String.{String, ◌++◌}
use vdi_cpp_wrapper.Prelude.{
  ℕ, List, [], ◌∷◌, Option, none, some, Bool, true, false, not, pos, ◌==◌, if◌then◌else◌, to_string,
  text_eq,
}
use vdi_cpp_wrapper.World.{Trace, Platform}
use vdi_cpp_wrapper.Sink
use vdi_cpp_wrapper.Sink.{Sink, null_sink, file_sink}
use vdi_cpp_wrapper.Sink.Files
use vdi_cpp_wrapper.Faults.{FaultInjector}
use vdi_cpp_wrapper.Client
use vdi_cpp_wrapper.Client.{VdiClient}
use vdi_cpp_wrapper.Client.Lifecycle.{connect, open_devices, close, destroy}
use vdi_cpp_wrapper.Client.Loop.{Outcome, returned, crashed, out_of_fuel, process_commands}

-- What the command line sets.
pub record Options : Type 0 where
  pub use_file_sink : Bool
  pub auto_mode : Bool
  pub benchmark_id : String

abbrev pub default_options : Options
default_options = record { use_file_sink = false; auto_mode = false; benchmark_id = "default_run" }

-- The loop over argv, from the argument after the program's name. `--sink` and `--benchmark-id`
-- take the next argument, and are ignored where there is none.
unfoldable pub parse_args : List String → Options → Options
parse_args [] o = o
parse_args (arg ∷ []) o = if text_eq arg "--auto" then record o { auto_mode = true } else o
parse_args (arg ∷ value ∷ args) o =
    let sink =
      parse_args args
        (record o { use_file_sink = if text_eq value "file" then true else o.use_file_sink }) in
    let benchmark = parse_args args (record o { benchmark_id = value }) in
    let auto = parse_args (value ∷ args) (record o { auto_mode = true }) in
    let other = parse_args (value ∷ args) o in
    if text_eq arg "--auto"
    then auto
    else if text_eq arg "--sink"
    then sink
    else if text_eq arg "--benchmark-id"
    then benchmark
    else other

-- bool launch_sqlcmd(device_name, backup_db)
unfoldable pub launch_sqlcmd : (String → ℕ) → String → String → Bool
launch_sqlcmd wsystem device_name backup_db =
    let rc = wsystem (
      "cmd /c start \"\" /B sqlcmd -S (local) -E -d master -Q \"BACKUP DATABASE [" ++ backup_db
      ++ "] TO VIRTUAL_DEVICE = N'" ++ device_name ++ "'\" -b -t 300") in
    rc == 0

-- Whether the user is asked to start the backup: in interactive mode, or where sqlcmd did not
-- start.
unfoldable pub asks_user : (String → ℕ) → Options → String → Bool
unfolding launch_sqlcmd
asks_user wsystem o device_name =
    if o.auto_mode then not (launch_sqlcmd wsystem device_name "VDIBenchmarkDB") else true

-- The sink of the options, and the calls that its constructor makes.
unfoldable pub make_sink : Platform → Options → Sink × Trace
make_sink P o =
    if o.use_file_sink then (file_sink (Files.new P []).0, (Files.new P []).1) else (null_sink, [])

-- From the opened devices to the end of main's body. A crash has no exit code.
unfoldable pub transfer : Platform → ℕ → VdiClient → Option ℕ × VdiClient
transfer P fuel c =
    let (outcome, c1) = process_commands P fuel c in
    elim outcome [
      | returned ↦ (some 0, close P c1)
      | crashed ↦ (none, c1)
      | out_of_fuel ↦ (none, c1)
    ]

-- int main(argc, argv), on the client that it has made.
unfoldable pub run_client : Platform → ℕ → String → VdiClient → Option ℕ × VdiClient
unfolding transfer
run_client P fuel device_name c =
    let (connected, c1) = connect P c device_name (pos 1) in
    let (opened, c2) = open_devices P c1 in
    if not connected
    then (some 1, c1)
    else if not opened
    then (some 1, close P c2)
    else transfer P fuel c2

-- The destructors of the client's fields, of which only the sink's calls the outside.
unfoldable pub destroy_fields : Platform → VdiClient → VdiClient
destroy_fields P c = elim c.sink [
  | none ↦ c
  | some k ↦ record c { calls = Sink.destroy P k c.calls }
]

-- The end of the client's lifetime.
unfoldable pub delete_client : Platform → VdiClient → VdiClient
unfolding destroy_fields
delete_client P c = destroy_fields P (destroy P c)

-- The whole of main, with the destruction of the client; `args` is argv without the program's
-- name.
unfoldable pub main : Platform → ℕ → FaultInjector → ℕ → List String → Option ℕ × VdiClient
unfolding run_client make_sink parse_args
main P fuel injector pid args =
    let o = parse_args args default_options in
    let (sink, t) = make_sink P o in
    let device_name = "VDI_Device_" ++ to_string pid in
    let (code, c) = run_client P fuel device_name (Client.new (some sink) false injector t) in
    elim code [ none ↦ (none, c) | some n ↦ (some n, delete_client P c) ]
