-- ===== src/Io/ChannelEvents.antt =====
-- src/tdk/io/ip/tcp/channel_epoll.cpp: the events of a channel, and the tasks that it posted.
pub mod Queue
pub mod Sending
pub mod Stopped
pub mod Kept
pub mod References
use mathlib.Core.Bool.{not}
use deprecated_tdk.Prelude.{
  ℕ, zero, suc, ◌+◌, ◌-◌, ◌%◌, ◌^◌, Bool, true, false, ◌||◌, Option, none, some, List, [], ◌∷◌,
  ◌++◌, ◌==◌, ltb, if◌then◌else◌, take,
}
use deprecated_tdk.Io.Adapter.{Iovec, BufferAdapter, no_buffers, push_back, covered}
use deprecated_tdk.Io.Task.{
  Error, no_error, network_remote_closed, epoll_failed, epoll_hang_up, platform, is_error,
}
use deprecated_tdk.Io.Result.{Result, crashed, spins, returned, ◌>>=◌}
use deprecated_tdk.Io.System.{System, Answer, transferred, would_block, failed, retry}
use deprecated_tdk.Io.Channel.{
  Channel, Posted, closing, registering, sending, writing, propagating, Upcall, on_read, on_write,
  Filters, release, is_over, no_messages, register_handle, fire_on_error, fire_on_close, propagate,
  fire_do_write,
}

-- `for ( auto it : _send_queue ) if ( !buf.push_back( … ) ) break`
pub gather : List Iovec → BufferAdapter → BufferAdapter
gather [] buf = buf
gather (m ∷ ms) buf =
    let (pushed, buf') = push_back m.iov_base m.iov_len buf in
    let rest = gather ms buf' in if pushed then rest else buf

-- `while ( writesize > 0 )`: the bytes that were written leave the queue. With more of them than
-- the queue has, its front is asked for when it is empty.
pub consume : ℕ → List Iovec → Option (List Iovec)
consume n [] = if n == 0 then some [] else none
consume n (m ∷ ms) =
    let rest = consume (n - m.iov_len) ms in
    if n == 0
    then some (m ∷ ms)
    else if ltb n m.iov_len
    then some (record { iov_base = m.iov_base + n; iov_len = m.iov_len - n } ∷ ms)
    else rest

abbrev pub asked : Channel → Channel
asked c = record c { calls = c.calls + 1 }

-- `_on_send.error( … )` and `_on_send.io_bytes( … )`
abbrev pub on_send : Error → ℕ → Channel → Channel
on_send ec bytes c = record c { send_error = ec; send_bytes = bytes }

-- After a `writev` of `n` bytes: what is left of the queue, if it had them.
pub written : ℕ → BufferAdapter → Option (List Iovec) → Channel → Result Channel
written n buf none c = crashed
written n buf (some queue) c = returned (record c {
  send_queue = queue;
  calls = c.calls + 1;
  wire = c.wire ++ take n (covered buf.buffers);
})

-- A round of `_send_remains`, by what `writev` gave; `next` is the next round.
pub sent_of :
    (ℕ → Channel → Result Channel)
    → BufferAdapter
    → ℕ
    → List Iovec
    → Answer
    → Channel
    → Result Channel
unfolding written
sent_of next buf total queue would_block c = returned (on_send no_error total (asked c))
sent_of next buf total queue (failed e) c = returned (on_send (platform e) 0 (asked c))
sent_of next buf total queue (transferred n) c =
    written n buf (consume n queue) c >>= λ c'. next ((total + n) % 2 ^ 32) c'

module _ (system : System) where
  -- The loop of `_send_remains`: `buf` is declared before it, so each round adds to the buffers of
  -- the rounds before.
  pub send_from : ℕ → BufferAdapter → ℕ → Channel → Result Channel
  send_from zero buf total c = spins
  send_from (suc fuel) buf total c = elim c.send_queue [
    | [] ↦ returned (on_send no_error total c)
    | m ∷ ms ↦
        let buf' = gather (m ∷ ms) buf in
        sent_of (λ total' c'. send_from fuel buf' total' c') buf' total (m ∷ ms)
          (retry (system.writev c.calls buf')) c
  ]

  pub send_remains : ℕ → Channel → Result Channel
  unfolding send_from
  send_remains fuel c = send_from fuel no_buffers 0 c

module _ (system : System) (filters : Filters) where
  -- What `readv` gave; the message is a new block.
  pub read_of : Answer → Channel → Channel
  read_of would_block c = propagate filters (platform (system.errno c.calls)) (asked c)
  read_of (failed e) c = propagate filters (platform e) (asked c)
  read_of (transferred n) c =
      if n == 0
      then propagate filters network_remote_closed (asked c)
      else filters.in_bound (on_read n) (asked c)

  -- `block` is the memory that the configuration asks for.
  pub handle_readable : BufferAdapter → Channel → Channel
  unfolding read_of
  handle_readable block c =
      if is_over c || c.read_pending_bit then c else read_of (retry (system.readv c.calls block)) c

  pub after_send : Channel → Channel
  after_send c =
      if is_error c.send_error
      then propagate filters c.send_error c
      else filters.in_bound (on_write c.send_bytes (no_messages c.send_queue)) c

  -- `handle_writeable`, by whether the channel is over or has nothing to send.
  pub write_unless : Bool → ℕ → Channel → Result Channel
  unfolding send_remains after_send
  write_unless true fuel c = returned c
  write_unless false fuel c = send_remains system fuel c >>= λ c'. returned (after_send c')

  pub handle_writeable : ℕ → Channel → Result Channel
  unfolding write_unless
  handle_writeable fuel c = write_unless (is_over c || no_messages c.send_queue) fuel c

  -- `get_option( sock_error ) && sock_error.value() != 0`
  pub socket_error : Channel → Error
  socket_error c = elim (system.socket_error c.calls) [
    | none ↦ epoll_failed
    | some v ↦ if v == 0 then epoll_failed else platform v
  ]

  -- `handle_io_events`, by the bits EPOLLERR, EPOLLHUP, EPOLLIN and EPOLLOUT.
  pub dispatch : ℕ → BufferAdapter → Bool → Bool → Bool → Bool → Channel → Result Channel
  unfolding handle_readable handle_writeable
  dispatch fuel block true hup readable writeable c =
      returned (propagate filters (socket_error c) (asked c))
  dispatch fuel block false true readable writeable c = returned (propagate filters epoll_hang_up c)
  dispatch fuel block false false readable true c =
      handle_writeable fuel (if readable then handle_readable block c else c) >>= λ c'.
      returned (register_handle system c')
  dispatch fuel block false false readable false c =
      returned (register_handle system (if readable then handle_readable block c else c))

  unfoldable pub handle_io_events :
      ℕ → BufferAdapter → Bool → Bool → Bool → Bool → Channel → Result Channel
  unfolding dispatch
  handle_io_events fuel block err hup readable writeable c = elim (is_over c) [
    | true ↦ returned c
    | false ↦ dispatch fuel block err hup readable writeable c
  ]

  -- The call of a posted task, and the reference that it gives back.
  unfoldable pub run_posted : ℕ → BufferAdapter → Posted → Channel → Result Channel
  unfolding handle_io_events
  run_posted fuel block closing c = returned (release (fire_on_close filters c))
  run_posted fuel block registering c = returned (release (register_handle system c))
  run_posted fuel block (writing msg) c = returned (release (fire_do_write filters msg c))
  run_posted fuel block (propagating ec) c = returned (release (fire_on_error filters ec c))
  run_posted fuel block sending c =
      handle_io_events fuel block false false false true c >>= λ c'. returned (release c')
