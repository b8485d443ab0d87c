-- ===== src/Io/SocketEvents.antt =====
-- src/tdk/io/ip/tcp/socket/socket.cpp: what a socket does when epoll reports its events, and
-- `connect`. `handler` is what the call of a task does to the socket.
pub mod Rounds
pub mod Order
pub mod Count
pub mod Turn
pub mod Ends
use mathlib.Core.Option
use mathlib.Core.Bool.{not}
use deprecated_tdk.Prelude.{
  ℕ, zero, suc, Bool, true, false, ◌&&◌, Option, none, some, List, [], ◌∷◌, ◌++◌, ◌==◌,
  if◌then◌else◌,
}
use deprecated_tdk.Io.Adapter.{size, remain_buffers}
use deprecated_tdk.Io.Result.{Result, crashed, spins, returned, ◌>>=◌}
use deprecated_tdk.Io.Task.{
  Error, no_error, network_remote_closed, epoll_failed, epoll_hang_up, platform, epoll, is_error,
  IoTask,
}
use deprecated_tdk.Io.System.{System, transferred, would_block, failed, retry}
use deprecated_tdk.Io.Socket.{
  Socket, is_empty, release_loop, add_complete, write_try_count, add_io_bytes, is_written,
  register_events, sent, called, handle_error, run_all,
}

-- The events that epoll reports.
pub record Events : Type 0 where
  pub err : Bool
  pub hup : Bool
  pub readable : Bool
  pub writeable : Bool

-- `handle_error( ec , *_complete_tasks )`
unfoldable pub fail : Error → Socket → Socket
fail ec s =
    let (queue, s') = handle_error ec s in
    record s' { complete = Option.map (λ q. q ++ queue) s'.complete }

pub fail_if : Error × Socket → Socket
fail_if (ec, s) = if is_error ec then fail ec s else s

-- Whether the outer loop of `handle_writeable` goes on.
abbrev pub go_on :
    (Socket → Result (Error × Socket)) → Bool × Error × Socket → Result (Error × Socket)
go_on next (true, ec, s) = next s
go_on next (false, ec, s) = returned (ec, s)

module _ (system : System) where
  -- The loop of `handle_readable`, over the reads that wait.
  pub read_ready : List IoTask → Socket → Error × Socket
  read_ready [] s = (no_error, record s { reads = [] })
  read_ready (rt ∷ rts) s =
      let here : Socket = called system (record s { reads = rt ∷ rts }) in
      elim (retry (system.readv s.calls rt.buffers)) [
        | would_block ↦ (no_error, here)
        | failed e ↦ (platform e, here)
        | transferred n ↦
            let rest = read_ready rts (add_complete (record rt { io_bytes = n }) here) in
            if n == 0 && not (size rt.buffers == 0) then (network_remote_closed, here) else rest
      ]

  pub handle_readable : Socket → Socket
  handle_readable s = fail_if (read_ready s.reads s)

  -- The tries of one round of `handle_writeable`: whether to go on. Each try asks for the front of
  -- the queue again.
  pub write_round : ℕ → Socket → Result (Bool × Error × Socket)
  write_round zero s = returned (true, no_error, s)
  write_round (suc tries) s = elim s.writes [
    | [] ↦ crashed
    | wt ∷ wts ↦ elim (retry (system.writev s.calls (remain_buffers wt.io_bytes wt.buffers))) [
      | would_block ↦ returned (false, no_error, called system s)
      | failed e ↦ returned (false, platform e, called system s)
      | transferred n ↦
          let wt' = add_io_bytes n wt in
          let s' = sent system n wt s in
          let next = write_round tries (add_complete wt' (record s' { writes = wts })) in
          let again = write_round tries (record s' { writes = wt' ∷ wts }) in
          if is_written wt' then next else again
    ]
  ]

  pub write_ready : ℕ → Socket → Result (Error × Socket)
  write_ready zero s = spins
  write_ready (suc fuel) s = elim s.writes [
    | [] ↦ returned (no_error, s)
    | wt ∷ wts ↦ write_round write_try_count s >>= go_on (λ k. write_ready fuel k)
  ]

  pub handle_writeable : ℕ → Socket → Result Socket
  handle_writeable fuel s = write_ready fuel s >>= λ r. returned (fail_if r)

  -- `get_option( sock_error ) && sock_error.value() != 0`
  unfoldable pub socket_error : Error → Socket → Error × Socket
  socket_error ec s = elim (system.socket_error s.calls) [
    | none ↦ (ec, called system s)
    | some v ↦ (if v == 0 then ec else platform v, called system s)
  ]

  unfoldable pub register_handle : Socket → Option ℕ × Socket
  register_handle s =
      if is_empty s.reads && is_empty s.writes
      then (none, s)
      else register_events system (not (is_empty s.reads)) (not (is_empty s.writes)) s

  -- The first part of `handle_io_event`, by the bits EPOLLERR, EPOLLHUP, EPOLLIN and EPOLLOUT.
  unfoldable pub dispatch : ℕ → Bool → Bool → Bool → Bool → Socket → Result Socket
  dispatch fuel true hup readable writeable s =
      let (ec, s') = socket_error epoll_failed s in returned (fail ec s')
  dispatch fuel false true readable writeable s = returned (fail epoll_hang_up s)
  dispatch fuel false false readable true s =
      handle_writeable fuel (if readable then handle_readable s else s)
  dispatch fuel false false readable false s = returned (if readable then handle_readable s else s)

module _ (handler : IoTask → Socket → Socket) where
  -- The calls of what is complete; a handler may complete more.
  unfoldable pub run_complete : ℕ → Socket → Result Socket
  run_complete zero s = spins
  run_complete (suc fuel) s = elim s.complete [
    | none ↦ crashed
    | some q ↦ elim q [
      | [] ↦ returned s
      | t ∷ ts ↦ run_complete fuel (handler t (release_loop (record s { complete = some ts })))
    ]
  ]

  -- If `register_handle` fails, what waits is called with its error.
  unfoldable pub registered : Option ℕ × Socket → Socket
  registered (none, s) = s
  registered (some e, s) = let (queue, s') = handle_error (epoll e) s in run_all handler queue s'

module _ (system : System) (handler : IoTask → Socket → Socket) where
  -- The last part of `handle_io_event`.
  unfoldable pub rearm : Socket → Socket
  rearm s = registered handler (register_handle system (record s { complete = none }))

  unfoldable pub handle_io_event : ℕ → Events → Socket → Result Socket
  handle_io_event fuel evt s =
      dispatch system fuel evt.err evt.hup evt.readable evt.writeable
        (record s { complete = some [] })
      >>= λ s'. run_complete handler fuel s' >>= λ s''. returned (rearm s'')
