-- ===== src/Io/ChannelEvents/References.antt =====
-- The references to a channel over its events and the tasks that it posted.
use mathlib.Core.Path.{subst}
use deprecated_tdk.Prelude.{ℕ, ◌+◌, ◌≡◌, refl, Bool, true, false, arith}
use deprecated_tdk.Io.Adapter.{BufferAdapter}
use deprecated_tdk.Io.Result.{returned, Returning, >>=-Returning}
use deprecated_tdk.Io.System.{System}
use deprecated_tdk.Io.Channel.{
  Channel, Posted, closing, registering, sending, writing, propagating, Filters, release, is_over,
  no_messages, register_handle, fire_on_error, fire_on_close, fire_do_write,
}
use deprecated_tdk.Io.Channel.Held.{
  IsHeld, IsHolding, release-IsHeld, register_handle-IsHeld, fire_on_error-IsHeld,
  fire_on_close-IsHeld, fire_do_write-IsHeld,
}
use deprecated_tdk.Io.ChannelEvents.{
  written, send_remains, write_unless, after_send, handle_writeable, dispatch, handle_io_events,
  run_posted,
}
use deprecated_tdk.Io.ChannelEvents.Kept.{handle_io_events-IsHeld}

-- The call of a posted task gives back the reference that it held; the end of the channel gives
-- back that of its start as well, and its handle of the loop.
abbrev started_by : Posted → ℕ
started_by closing = 1
started_by registering = 0
started_by sending = 0
started_by (writing msg) = 0
started_by (propagating ec) = 0

module _ (system : System) (filters : Filters) (holding : IsHolding filters) (r n : ℕ) (fuel : ℕ)
    (block : BufferAdapter) where
  run_other : (c : Channel) → IsHeld (r + 0 + 1) (n + 0) c → IsHeld (r + 1) n c
  run_other c h = (omega (arith, h.0), omega (arith, h.1))

  run-IsHeld :
      (p : Posted) (c : Channel)
      → IsHeld (r + started_by p + 1) (n + started_by p) c
      → Returning (IsHeld r n) (run_posted system filters fuel block p c)
  unfolding run_posted
  run-IsHeld closing c h =
      release-IsHeld r n (fire_on_close filters c)
        (fire_on_close-IsHeld filters holding (r + 1) n c h)
  run-IsHeld registering c h =
      release-IsHeld r n (register_handle system c)
        (register_handle-IsHeld (r + 1) n system c (run_other c h))
  run-IsHeld (writing msg) c h =
      release-IsHeld r n (fire_do_write filters msg c)
        (fire_do_write-IsHeld filters holding (r + 1) n msg c (run_other c h))
  run-IsHeld (propagating ec) c h =
      release-IsHeld r n (fire_on_error filters ec c)
        (fire_on_error-IsHeld filters holding (r + 1) n ec c (run_other c h))
  run-IsHeld sending c h =
      >>=-Returning (IsHeld (r + 1) n) (IsHeld r n)
        (handle_io_events system filters fuel block false false false true c)
        (λ c'. returned (release c'))
        (handle_io_events-IsHeld system filters holding (r + 1) n fuel block false false false true
          c (run_other c h))
        (release-IsHeld r n)

-- The call ends: for a task that sends, the loop of `_send_remains` must.
abbrev Sends : System → ℕ → Posted → Channel → Type 0
Sends system fuel closing c = Unit
Sends system fuel registering c = Unit
Sends system fuel sending c = (c' : Channel) × (send_remains system fuel c ≡ returned c')
Sends system fuel (writing msg) c = Unit
Sends system fuel (propagating ec) c = Unit

module _ (system : System) (filters : Filters) (fuel : ℕ) (block : BufferAdapter) where
  write_unless-ends :
      (over : Bool) (c : Channel)
      → Sends system fuel sending c
      → (c' : Channel) × (write_unless system filters over fuel c ≡ returned c')
  unfolding write_unless
  write_unless-ends true c ends = (c, refl)
  write_unless-ends false c (c', ends) = (after_send system filters c', rw ends refl)

  events-end :
      (over : Bool) (c : Channel)
      → is_over c ≡ over
      → Sends system fuel sending c
      → (c' : Channel) × (handle_io_events system filters fuel block false false false true c
          ≡ returned c')
  unfolding handle_io_events dispatch handle_writeable
  events-end true c e ends = (c, simp (handle_io_events, e) refl)
  events-end false c e ends =
      let (c', written) = write_unless-ends (no_messages c.send_queue) c ends in
      (register_handle system c', simp (handle_io_events, e) (rw written refl))

  run_posted-ends :
      (p : Posted) (c : Channel)
      → Sends system fuel p c
      → (c' : Channel) × (run_posted system filters fuel block p c ≡ returned c')
  unfolding run_posted
  run_posted-ends closing c ends = (_, refl)
  run_posted-ends registering c ends = (_, refl)
  run_posted-ends (writing msg) c ends = (_, refl)
  run_posted-ends (propagating ec) c ends = (_, refl)
  run_posted-ends sending c ends =
      let (c', done) = events-end (is_over c) c refl ends in (release c', rw done refl)

-- The call of a task that a channel posted ends, if the loop of `_send_remains` does where the task
-- sends. It gives back the reference that the task held; at the end of the channel also that of its
-- start, and its handle of the loop. The filters must keep the references and handles that are
-- counted.
pub run_posted-IsHeld :
    (system : System) (filters : Filters) (fuel r n : ℕ) (block : BufferAdapter) (p : Posted)
    (c : Channel)
    → IsHolding filters
    → Sends system fuel p c
    → IsHeld (r + started_by p + 1) (n + started_by p) c
    → (c' : Channel) × (run_posted system filters fuel block p c ≡ returned c') × IsHeld r n c'
run_posted-IsHeld system filters fuel r n block p c holding sends h =
    let (c', ends) = run_posted-ends system filters fuel block p c sends in
    (
      c',
      ends,
      subst (Returning (IsHeld r n)) ends (run-IsHeld system filters holding r n fuel block p c h),
    )
