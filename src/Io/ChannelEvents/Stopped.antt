-- ===== src/Io/ChannelEvents/Stopped.antt =====
-- `continue_read` flips the bits for an error and for the end as well.
use deprecated_tdk.Prelude.{ℕ, ◌≡◌, Bool, true}
use deprecated_tdk.Io.Adapter.{Iovec, BufferAdapter}
use deprecated_tdk.Io.Task.{Error}
use deprecated_tdk.Io.Result.{returned}
use deprecated_tdk.Io.System.{System}
use deprecated_tdk.Io.Channel.{
  Channel, Filters, close, propagate_later, register_handle, propagate, fire_do_write,
}
use deprecated_tdk.Io.ChannelEvents.{handle_io_events}

-- The bits for an error and for the end are on, so that these calls, and all events, change
-- nothing; in particular `close` posts nothing.
abbrev pub IsStopped : System → Filters → Channel → Type 0
IsStopped system filters c =
    (c.error_bit ≡ true)
    × (c.close_bit ≡ true)
    × (close c ≡ c)
    × ((ec : Error) → propagate_later ec c ≡ c)
    × ((ec : Error) → propagate filters ec c ≡ c)
    × (register_handle system c ≡ c)
    × ((msg : Iovec) → fire_do_write filters msg c ≡ c)
    × ((fuel : ℕ) (block : BufferAdapter) (err hup readable writeable : Bool)
        → handle_io_events system filters fuel block err hup readable writeable c ≡ returned c)
