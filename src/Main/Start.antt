-- ===== src/Main/Start.antt =====
-- A whole run of main up to the opened devices: a client with an open file sink and nothing
-- received.
use mathlib.Core.List.{append-nil}
use Prim.Native.String.{String}
use vdi_cpp_wrapper.Prelude.{ℕ, ◌≡◌, sym, ◌∙◌, [], ◌∷◌, Option, some, true, false, pos, arith}
use vdi_cpp_wrapper.Protocol.{failed, VdConfig}
use vdi_cpp_wrapper.World.{Trace, Platform, co_initialize_ex, create_instance, create_file}
use vdi_cpp_wrapper.Sink.{file_sink}
use vdi_cpp_wrapper.Sink.Files
use vdi_cpp_wrapper.Sink.Files.{FileSink}
use vdi_cpp_wrapper.Sink.Bytes.{file_bytes}
use vdi_cpp_wrapper.Faults.{stub}
use vdi_cpp_wrapper.Errors.State.{init, connected, streaming, closed}
use vdi_cpp_wrapper.Client
use vdi_cpp_wrapper.Com
use vdi_cpp_wrapper.Client.{VdiClient}
use vdi_cpp_wrapper.Client.Lifecycle.{client_config, connect, open_devices, close, destroy}
use vdi_cpp_wrapper.Client.Backup.{received_bytes, Accepts}
use vdi_cpp_wrapper.Client.Backup.Progress.{IsSteady}
use vdi_cpp_wrapper.Client.Backup.Session.{AllFiled}
use vdi_cpp_wrapper.Client.Session.Invariant.{Inv}
use vdi_cpp_wrapper.Main.{Options, make_sink}

-- COM and the device set start, and the file is opened.
pub record Starts (P : Platform) : Type 0 where
  pub com_starts : (t : Trace) → failed (P.on_co_initialize_ex t) ≡ false
  pub instance_made : (t : Trace) → failed (P.on_create_instance t) ≡ false
  pub created : (t : Trace) (config : VdConfig) → failed (P.on_create_ex t config) ≡ false
  pub configured : (t : Trace) (timeout : ℕ) → failed (P.on_get_configuration t timeout) ≡ false
  pub path : (t : Trace) → P.on_wide_path t ≡ true
  pub file : (t : Trace) → P.on_create_file t ≡ true
  pub memory : (t : Trace) → P.on_aligned_malloc t ≡ true

-- An open file sink that nothing has gone through yet.
abbrev empty_file : FileSink
empty_file = record { file_handle = true; write_buffer = some []; buffered_bytes = 0 }

-- A client with such a sink, and nothing written or received.
abbrev pub Fresh : VdiClient → Type 0
Fresh c =
    (c.sink ≡ some (file_sink empty_file))
    × (file_bytes c.calls ≡ [])
    × (received_bytes c.calls ≡ [])
    × IsSteady c

pub make_sink_lem :
    (P : Platform) (o : Options)
    → Starts P
    → o.use_file_sink ≡ true
    → let (sink, t) = make_sink P o in Fresh (Client.new (some sink) false stub t)
unfolding make_sink Files.new Client.new file_bytes received_bytes
make_sink_lem P o s e =
    ground (arith, e, s.path [], s.file [], s.memory (create_file (P.on_create_file []) ∷ []))

pub connect-Fresh :
    (P : Platform) (c : VdiClient) (name : String)
    → Starts P
    → Fresh c
    → c.state ≡ init
    → let (done, c1) = connect P c name (pos 1) in
      (done ≡ true) × Fresh c1 × (c1.state ≡ connected) × (c1.device_set ≡ true)
unfolding connect Com.new Com.destroy file_bytes received_bytes
connect-Fresh P c name s f st =
    let t1 = co_initialize_ex (P.on_co_initialize_ex c.calls) ∷ c.calls in
    let t2 = create_instance (P.on_create_instance t1) ∷ t1 in
    ground (arith, s.com_starts c.calls, s.instance_made t1, s.created t2 (client_config (pos 1)))

pub open_devices-Fresh :
    (P : Platform) (c : VdiClient)
    → Starts P
    → Fresh c
    → c.state ≡ connected
    → c.device_set ≡ true
    → let (done, c1) = open_devices P c in
      (done ≡ true) × Fresh c1 × (c1.state ≡ streaming) × (c1.device_set ≡ true)
unfolding open_devices file_bytes received_bytes
open_devices-Fresh P c s f st set = ground (arith, s.configured c.calls 60000)

pub Fresh-Accepts : (c : VdiClient) → Fresh c → Accepts c (received_bytes c.calls)
Fresh-Accepts c f =
    (empty_file, f.0, ground arith, ground arith, append-nil (file_bytes c.calls) ∙ f.1 ∙ sym f.2)

-- The run has exit code 0, and the file holds what was received.
unfoldable pub Stored : Option ℕ × VdiClient → Type 0
Stored q = (q.0 ≡ some 0) × (q.1.state ≡ closed) × AllFiled q.1

pub close_closed : (P : Platform) (c : VdiClient) → Inv c → c.state ≡ closed → close P c ≡ c
unfolding close
close_closed P c v e = rw (v.marked e, close)

pub destroy_closed : (P : Platform) (c : VdiClient) → c.state ≡ closed → destroy P c ≡ c
unfolding destroy
destroy_closed P c e = ground (arith, e)
