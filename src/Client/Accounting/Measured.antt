-- ===== src/Client/Accounting/Measured.antt =====
-- The byte counter against the data: with well-formed commands it is the length of what was
-- received, and after a backup that of the file.
use Prim.Native.String.{String}
use vdi_cpp_wrapper.Prelude.{
  ℕ, ℤ, ◌+◌, ◌%◌, ◌≡◌, refl, ap, sym, Option, some, none, arith, length, length-append, length-take,
  u64_mod,
}
use vdi_cpp_wrapper.Protocol.{Command}
use vdi_cpp_wrapper.World.{Trace, Platform}
use vdi_cpp_wrapper.Sink.Bytes.{file_bytes, WritesAll}
use vdi_cpp_wrapper.Errors.State.{closed, streaming}
use vdi_cpp_wrapper.Client.{VdiClient}
use vdi_cpp_wrapper.Client.Lifecycle.{connect}
use vdi_cpp_wrapper.Client.Chunk.{readable}
use vdi_cpp_wrapper.Client.Loop.{process_commands}
use vdi_cpp_wrapper.Client.Calls.Loop.{IsHeard}
use vdi_cpp_wrapper.Client.Backup.{
  payload, delivered_bytes, received_bytes, Accepts, IsWellFormed, SendsWellFormed,
}
use vdi_cpp_wrapper.Client.Backup.Session.{process_commands-backup}
use vdi_cpp_wrapper.Client.Accounting.Histories.{ShowsHistory, process_commands-ShowsHistory}
use vdi_cpp_wrapper.Client.Accounting.Sizes.{totals, Totals, add_command, add_reply}
use vdi_cpp_wrapper.Client.Session.Histories.{KeepsCalls, process_calls_rule}

-- The data received are as long as the sizes of their commands say.
abbrev pub Measured : Trace → Type 0
Measured t = length (received_bytes t) ≡ (totals t).bytes

length-payload :
    (cmd : Command) (x : Totals)
    → IsWellFormed cmd
    → (add_command cmd x).bytes ≡ x.bytes + length (payload cmd)
length-payload cmd x w = ground (arith, length-take cmd.size (readable cmd.buffer), w.covered)

length-delivered_bytes :
    (hr : ℕ) (o : Option Command) (x : Totals)
    → ((cmd : Command) → o ≡ some cmd → IsWellFormed cmd)
    → (add_reply hr o x).bytes ≡ x.bytes + length (delivered_bytes hr o)
length-delivered_bytes hr none x f = omega arith
length-delivered_bytes hr (some cmd) x f = ground (arith, length-payload cmd x (f cmd refl))

Measured-IsHeard : (P : Platform) → SendsWellFormed P → IsHeard P Measured
unfolding received_bytes totals
Measured-IsHeard P f = record {
  silent = record {
    quiet = record {
      on_clock = λ t e. e;
      on_write = λ t bytes e. e;
      on_flush = λ t e. e;
      on_warning = λ t n e. e;
    };
    on_complete = λ t device cmd code n position hr e. e;
  };
  on_get_command = λ t device timeout e.
      let (hr, o) = P.on_get_command t device timeout in
      omega (
        arith,
        e,
        length-delivered_bytes hr o (totals t) (f t device timeout),
        length-append (received_bytes t) (delivered_bytes hr o),
      );
}

connect-Measured :
    (P : Platform) (c : VdiClient) (name : String) (n : ℤ)
    → Measured c.calls
    → Measured (connect P c name n).1.calls
unfolding connect received_bytes totals
connect-Measured P c name n e = ground arith

Measured-KeepsCalls : (P : Platform) → SendsWellFormed P → KeepsCalls P Measured
unfolding received_bytes totals
Measured-KeepsCalls P f = record {
  heard = Measured-IsHeard P f;
  on_open = λ t i hr e. e;
  on_release = λ t device e. e;
  on_drop = λ t e. e;
  on_configuration = λ t timeout hr e. e;
  on_connect = connect-Measured P;
}

-- On a disk where every WriteFile writes all that it is given, and with a server whose commands
-- have a DWORD size and a buffer of that size: where process_commands, called while streaming
-- with an open file sink that has accepted all the data sent so far, and with counters that show
-- these data, leaves the session closed, the byte counter that it reports is the length of the
-- file, modulo 2^64.
pub process_commands-measures :
    (P : Platform) (fuel : ℕ) (c : VdiClient)
    → WritesAll P
    → SendsWellFormed P
    → c.state ≡ streaming
    → Accepts c (received_bytes c.calls)
    → ShowsHistory c
    → Measured c.calls
    → (process_commands P fuel c).1.state ≡ closed
    → let d = (process_commands P fuel c).1 in
      d.metrics.total_bytes ≡ length (file_bytes d.calls) % u64_mod
process_commands-measures P fuel c w f st a h m e =
    let d = (process_commands P fuel c).1 in
    let filed = (process_commands-backup P fuel c w f st a).1 e in
    let shown = (process_commands-ShowsHistory P fuel c h).0 in
    rw (filed, shown)
      (ap (λ (n : ℕ). n % u64_mod)
        (sym (process_calls_rule P Measured (Measured-KeepsCalls P f) fuel c m)))
