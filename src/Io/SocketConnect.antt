-- ===== src/Io/SocketConnect.antt =====
-- src/tdk/io/ip/tcp/socket/socket.cpp: `connect`, the event that ends it, and what the loop calls
-- for a socket.
pub mod Retry
use deprecated_tdk.Prelude.{
  ℕ, ◌+◌, Bool, true, false, Option, none, some, List, [], ◌∷◌, if◌then◌else◌,
}
use deprecated_tdk.Io.Task.{
  Error, no_error, epoll_failed, epoll_hang_up, invalid_event, platform, is_error, IoTask,
  set_error, address_next,
}
use deprecated_tdk.Io.Result.{Result, crashed, returned}
use deprecated_tdk.Io.System.{System, Answer, transferred, would_block, failed, retry}
use deprecated_tdk.Io.Socket.{
  Socket, Posted, finish, connecting, reading, writing, closing, post, retain_loop, release_loop,
  register_events, read_impl, write_impl, close_impl,
}
use deprecated_tdk.Io.SocketEvents.{Events, socket_error}

-- The end of a connection.
pub connect_over : (IoTask → Socket → Socket) → IoTask → Socket → Socket
connect_over handler ct s = handler ct (release_loop (record s { is_connecting = false }))

-- After `register_handle`. If that failed, every way on puts the object, which is in the queue of
-- writes, into a list again.
pub started : Option ℕ × Socket → Result Socket
started (none, s) = returned (retain_loop s)
started (some e, s) = crashed

abbrev pub opened : Bool → ℕ → Socket → Socket
opened is_open calls s = record s { is_open = is_open; calls = s.calls + calls }

-- One address: what `open_tcp`, `set_option( non_blocking )` and `connect` gave, and whether the
-- next address is tried or the connection is under way.
pub tried :
    (Socket → Result Socket)
    → (Socket → Result Socket)
    → Bool
    → Bool
    → Answer
    → Socket
    → Result Socket
tried next start false non_blocking answer s = next (opened false 1 s)
tried next start true false answer s = next (opened true 2 s)
tried next start true true (failed e) s = next (opened true 3 s)
tried next start true true would_block s = start (opened true 3 s)
tried next start true true (transferred n) s = start (opened true 3 s)

module _ (system : System) where
  -- A connection is under way: the object goes to the front of the queue of writes, and the handle
  -- is registered.
  pub start_connect : IoTask → Socket → Result Socket
  start_connect ct s = started (
      register_events system false true (record s { writes = ct ∷ s.writes; is_connecting = true }))

  -- The loop of `connect_impl` over the addresses, and what follows it.
  pub connect_to : List ℕ → IoTask → Socket → Result Socket
  connect_to [] ct s =
      let s' = record s { is_open = false; is_connecting = false } in
      returned (
        post
          (finish (record ct { addrs = []; io_bytes = 0; error = platform (system.errno s.calls) }))
          s')
  connect_to (a ∷ addrs) ct s =
      tried (λ k. connect_to addrs ct k) (λ k. start_connect (record ct { addrs = a ∷ addrs }) k)
        (system.open_tcp s.calls a) (system.set_non_blocking (s.calls + 1))
        (retry (system.connect (s.calls + 2) a)) s

  pub connect_impl : IoTask → Socket → Result Socket
  connect_impl ct s = connect_to ct.addrs ct s

  -- `connect( addrs , ct )`, in the thread of the loop or not.
  pub connect : Bool → List ℕ → IoTask → Socket → Result Socket
  connect inside addrs ct s =
      let ct' = record ct { addrs = addrs; io_bytes = 0; error = no_error } in
      elim inside [ true ↦ connect_impl ct' s | false ↦ returned (post (connecting ct') s) ]

  -- The error of a connection that has an event.
  unfoldable pub connect_error : Events → Socket → Error × Socket
  connect_error evt s = elim evt.writeable [
    | true ↦ socket_error system no_error s
    | false ↦ elim evt.err [
      | true ↦ socket_error system epoll_failed s
      | false ↦ (if evt.hup then epoll_hang_up else invalid_event, s)
    ]
  ]

  module _ (handler : IoTask → Socket → Socket) where
    pub handle_connect_event : Events → Socket → Result Socket
    handle_connect_event evt s = elim s.writes [
      | [] ↦ crashed
      | front ∷ wts ↦
          let (ec, s') = connect_error evt (record s { writes = wts }) in
          let ct = set_error ec front in
          elim (is_error ec) [
            | false ↦ returned (connect_over handler ct s')
            | true ↦
                let (again, ct') = address_next ct in
                elim again [
                  | true ↦ connect_impl ct' s'
                  | false ↦ returned (connect_over handler ct' s')
                ]
          ]
    ]

    -- The loop calls a posted task.
    pub run_posted : Posted → Socket → Result Socket
    run_posted (finish t) s = returned (handler t s)
    run_posted (connecting t) s = connect_impl t s
    run_posted (reading t) s = returned (read_impl system t s)
    run_posted (writing t) s = returned (write_impl system t s)
    run_posted (closing t) s = returned (close_impl handler t s)
