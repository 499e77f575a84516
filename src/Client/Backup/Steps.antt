-- ===== src/Client/Backup/Steps.antt =====
-- Each stage of the command loop keeps the sink in step with the server.
use mathlib.Core.List.{append-nil}
use vdi_cpp_wrapper.Prelude.{
  ℕ, ◌≡◌, refl, sym, ap, ◌∙◌, subst, [], ◌++◌, Option, none, some, true, false, ◌==◌, if_elim, ltb,
  sub64, ◌*◌,
}
use vdi_cpp_wrapper.Protocol.{Command, failed, vd_e_close, vd_e_eof, vd_e_timeout}
use vdi_cpp_wrapper.World.{Platform}
use vdi_cpp_wrapper.Sink.Bytes.{file_bytes, WritesAll}
use vdi_cpp_wrapper.Errors.State.{streaming, flushing}
use vdi_cpp_wrapper.Faults
use vdi_cpp_wrapper.Client.{VdiClient, now_us, stall_warn_ms}
use vdi_cpp_wrapper.Client.Lifecycle.{flush_sink}
use vdi_cpp_wrapper.Client.Stall.{check_stall}
use vdi_cpp_wrapper.Client.Backup.{
  delivered_bytes, received_bytes, Accepts, IsWellFormed, SendsWellFormed, Delivered,
}
use vdi_cpp_wrapper.Client.Chunk.{
  Flow, next, stop, Times, receive, on_get_command_error, call_complete_command, record_completion,
}
use vdi_cpp_wrapper.Client.Rules.{Stages}
use vdi_cpp_wrapper.Client.Backup.Storing.{
  Pending, Settled, sink_stage-Delivered, state-flush_sink, flush_sink-Delivered,
}

check_stall-Delivered :
    (c : VdiClient) (now : ℕ) → Delivered next c → Delivered next (check_stall c now)
unfolding check_stall file_bytes received_bytes
check_stall-Delivered c now (st, (k, e, v, r, a)) =
    if_elim (Delivered next) (c.last_stall_warn_us == 0) (λ _. (st, (k, e, v, r, a)))
      (λ _.
        if_elim (Delivered next) (ltb (sub64 now c.last_stall_warn_us) (stall_warn_ms * 1000))
          (λ _. (st, (k, e, v, r, a)))
          (λ _.
            if_elim (Delivered next) (c.metrics.total_bytes == c.last_bytes_total)
              (λ _. (st, (k, e, v, r, a))) (λ _. (st, (k, e, v, r, a)))))

abbrev EndsDelivered : Flow × VdiClient → Type 0
EndsDelivered q = Delivered q.0 q.1

pub on_get_command_error-Delivered :
    (P : Platform) (hr now : ℕ) (c : VdiClient)
    → WritesAll P
    → Delivered next c
    → EndsDelivered (on_get_command_error P hr now c)
unfolding on_get_command_error
on_get_command_error-Delivered P hr now c w (st, a) =
    if_elim EndsDelivered (hr == vd_e_close) (λ _. flushed)
      (λ _.
        if_elim EndsDelivered (hr == vd_e_eof) (λ _. flushed)
          (λ _.
            if_elim EndsDelivered (hr == vd_e_timeout) (λ _. check_stall-Delivered c now (st, a))
              (λ _. (λ s. cc s, λ s. cc s))))
  where
    flushed : Delivered stop (flush_sink P (record c { state = flushing }))
    flushed = (
      λ s. (flush_sink-Delivered P (record c { state = flushing }) w a).0,
      λ s. cc (s, state-flush_sink P (record c { state = flushing })),
    )

pub record_completion-Delivered :
    (cmd : Command) (s : Times) (cc_us : ℕ) (c : VdiClient)
    → Delivered next c
    → EndsDelivered (record_completion cmd s cc_us c)
unfolding record_completion
record_completion-Delivered cmd s cc_us c (st, a) =
    if_elim EndsDelivered (Faults.on_chunk_completed c.fault_injector).0
      (λ _. (λ s. cc s, λ s. cc s)) (λ _. (st, a))

-- After stage 1 the sink has accepted all but what GetCommand has just delivered.
receive-Delivered :
    (P : Platform) (device : ℕ) (c : VdiClient)
    → Delivered next c
    → let (r, c1) = receive P device c in
      (c1.state ≡ streaming)
      × Accepts c1 (received_bytes c.calls)
      × (received_bytes c1.calls ≡ received_bytes c.calls ++ delivered_bytes r.hr r.cmd)
unfolding receive file_bytes received_bytes
receive-Delivered P device c (st, a) = (st, a, refl)

pub delivered_bytes-failed :
    (hr : ℕ) (o : Option Command) → failed hr ≡ true → delivered_bytes hr o ≡ []
delivered_bytes-failed hr none e = refl
delivered_bytes-failed hr (some cmd) e = rw e

-- GetCommand has delivered nothing.
pub Delivered-of_nothing :
    (P : Platform) (device : ℕ) (c : VdiClient)
    → Delivered next c
    → let (r, c1) = receive P device c in delivered_bytes r.hr r.cmd ≡ [] → Delivered next c1
Delivered-of_nothing P device c h e =
    let (st, a, g) = receive-Delivered P device c h in
    (
      st,
      subst (Accepts (receive P device c).1)
          (sym (g ∙ ap (λ l. received_bytes c.calls ++ l) e ∙ append-nil (received_bytes c.calls)))
          a,
    )

receive-IsWellFormed :
    (P : Platform) (device : ℕ) (c : VdiClient) (cmd : Command)
    → SendsWellFormed P
    → (receive P device c).0.cmd ≡ some cmd
    → IsWellFormed cmd
unfolding receive
receive-IsWellFormed P device c cmd f g = f (now_us P c).1.calls device c.command_timeout_ms cmd g

pub receive-Pending :
    (P : Platform) (device : ℕ) (c : VdiClient) (cmd : Command)
    → SendsWellFormed P
    → Delivered next c
    → let (r, c1) = receive P device c in
      failed r.hr ≡ false → r.cmd ≡ some cmd → Pending device cmd c1
receive-Pending P device c cmd f h e g =
    let (st, a, q) = receive-Delivered P device c h in
    (
      st,
      receive-IsWellFormed P device c cmd f g,
      (received_bytes c.calls, a, q ∙ ap (λ l. received_bytes c.calls ++ l) (rw g (rw e))),
    )

pub Delivered-Stages :
    (P : Platform)
    → WritesAll P
    → SendsWellFormed P
    → Stages P Delivered Pending Settled (λ hr. Settled)
unfolding now_us call_complete_command file_bytes received_bytes
Delivered-Stages P w f = record {
  tick_held = λ device cmd c h. h;
  tick_stored = λ device cmd c h. h;
  tick_done = λ hr device cmd c h. h;
  on_error = λ device c h e.
      let (r, c1) = receive P device c in
      on_get_command_error-Delivered P r.hr r.gc_end c1 w
        (Delivered-of_nothing P device c h (delivered_bytes-failed r.hr r.cmd e));
  on_null = λ device c h e g.
      Delivered-of_nothing P device c h (ap (delivered_bytes (receive P device c).0.hr) g);
  on_command = λ device c h cmd e g. receive-Pending P device c cmd f h e g;
  on_refused = λ device cmd c h _. (λ s. cc s, λ s. cc s);
  on_close = λ device cmd c h _. (λ s. cc (s, h.0), λ s. cc (s, h.0));
  on_store = λ device cmd c h. sink_stage-Delivered P device cmd c w h;
  on_complete = λ device cmd c h. h;
  on_incomplete = λ device cmd b c e h. (λ s. cc s, λ s. cc s);
  on_done = λ hr device cmd c s cc_us e h. record_completion-Delivered cmd s cc_us c h;
}
