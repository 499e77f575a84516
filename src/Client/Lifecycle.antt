-- ===== src/Client/Lifecycle.antt =====
-- src/vdi_client.cpp: connect, open_devices, close and the destructor, as built for Windows.
use Prim.Native.String.{String}
use vdi_cpp_wrapper.Prelude.{
  ℤ, to_dword, ◌*◌, ◌∷◌, none, some, Bool, true, false, not, ◌&&◌, ◌||◌, if◌then◌else◌,
}
use vdi_cpp_wrapper.Protocol.{VdConfig, vdf_default, failed}
use vdi_cpp_wrapper.World.{
  Platform, create_instance, create_ex, get_configuration, close_set, release_set,
}
use vdi_cpp_wrapper.Com
use vdi_cpp_wrapper.Com.{ComRuntime}
use vdi_cpp_wrapper.Sink
use vdi_cpp_wrapper.Sink.{Sink}
use vdi_cpp_wrapper.Errors.State.{
  connected, streaming, closed, is_init, is_connected, is_streaming, is_flushing, is_closed,
}
use vdi_cpp_wrapper.Client.{VdiClient, fail}

-- The VDConfig that `connect` fills in.
unfoldable pub client_config : ℤ → VdConfig
client_config device_count = record {
  device_count = to_dword device_count;
  features = vdf_default;
  prefix_zone_size = 0;
  alignment = 0;
  soft_file_mark_block_size = 0;
  eom_warning_size = 0;
  server_time_out = 60000;
  block_size = 64 * 1024;
  max_io_depth = 0;
  max_transfer_size = 1024 * 1024;
  buffer_area_size = 4 * 1024 * 1024;
}

-- `connect` from CoCreateInstance on.
unfoldable pub create_device_set : Platform → VdiClient → Bool × VdiClient
unfolding client_config
create_device_set P c =
    let hr = P.on_create_instance c.calls in
    let c1 = record c { calls = create_instance hr ∷ c.calls } in
    let config = client_config c1.device_count in
    let hr2 = P.on_create_ex c1.calls config in
    if failed hr
    then (false, fail c1)
    else if failed hr2
    then (
      false,
      fail
          (record c1 { calls = release_set ∷ create_ex config hr2 ∷ c1.calls; device_set = false }),
    )
    else (
      true,
      record c1 { calls = create_ex config hr2 ∷ c1.calls; device_set = true; state = connected },
    )

-- `connect` from the construction of `com` on; `com` is destroyed on every way out.
unfoldable pub connect_com : Platform → VdiClient → Bool × VdiClient
unfolding create_device_set Com.new Com.destroy
connect_com P c =
    let (runtime, t) = Com.new P c.calls in
    let c1 = record c { calls = t } in
    let (done, c2) = if not runtime.initialized then (false, fail c1) else create_device_set P c1 in
    (done, record c2 { calls = Com.destroy runtime c2.calls })

-- bool connect(device_name, device_count)
unfoldable pub connect : Platform → VdiClient → String → ℤ → Bool × VdiClient
unfolding connect_com
connect P c device_name device_count =
    if not (is_init c.state)
    then (false, c)
    else connect_com P (record c { device_name = device_name; device_count = device_count })

-- bool open_devices()
unfoldable pub open_devices : Platform → VdiClient → Bool × VdiClient
open_devices P c =
    let hr = P.on_get_configuration c.calls 60000 in
    let c1 = record c { calls = get_configuration 60000 hr ∷ c.calls } in
    if not (is_connected c.state)
    then (false, c)
    else if not c.device_set
    then (false, fail c)
    else if failed hr
    then (false, fail c1)
    else (true, record c1 { state = streaming })

-- sink_->flush(), where the pointer is tested first.
unfoldable pub flush_sink : Platform → VdiClient → VdiClient
flush_sink P c = elim c.sink [
  | none ↦ c
  | some k ↦ let (k', t) = Sink.flush P k c.calls in record c { sink = some k'; calls = t }
]

-- The close and the release of the device set.
unfoldable pub release_device_set : VdiClient → VdiClient
release_device_set c =
    if c.device_set
    then record c { calls = release_set ∷ close_set ∷ c.calls; device_set = false }
    else c

-- void close()
unfoldable pub close : Platform → VdiClient → VdiClient
unfolding release_device_set
close P c =
    if c.devices_closed
    then c
    else let c1 = if is_streaming c.state || is_flushing c.state then flush_sink P c else c in
      record (release_device_set c1) { devices_closed = true; state = closed }

-- VdiClient::~VdiClient(), up to the destruction of the fields.
unfoldable pub destroy : Platform → VdiClient → VdiClient
destroy P c = if not (is_closed c.state) && not (is_init c.state) then close P c else c
