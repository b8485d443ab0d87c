-- ===== src/Io/SocketEvents/Ends.antt =====
-- An event ends: each task that is complete is called once.
use deprecated_tdk.Prelude.{
  ℕ, zero, suc, ◌+◌, ◌≤◌, ◌<◌, ◌≡◌, ◌∙◌, refl, sym, ap, Bool, true, false, none, some, List, [],
  ◌∷◌, ◌++◌, length, length-append, arith, Option-cases, inl, inr, ◌⊎◌,
}
use deprecated_tdk.Io.Task.{Error, epoll_failed, epoll_hang_up, IoTask}
use deprecated_tdk.Io.Result.{returned}
use deprecated_tdk.Io.System.{System, retry}
use deprecated_tdk.Io.Socket.{
  Socket, is_null, release_loop, add_complete, called, handle_error, abort,
}
use deprecated_tdk.Io.Socket.Count.{IsCounted, IsCounting, queued, waiting, amount, length-abort}
use deprecated_tdk.Io.SocketEvents.{
  Events, fail, fail_if, read_ready, handle_readable, socket_error, dispatch, run_complete, rearm,
  handle_io_event,
}
use deprecated_tdk.Io.SocketEvents.Turn.{handle_io_event-IsCounted}
use deprecated_tdk.Io.SocketEvents.Count.{map-queued}

-- What the calls of tasks do adds nothing to the tasks that are complete.
abbrev IsSettling : (IoTask → Socket → Socket) → Type 0
IsSettling handler = (t : IoTask) (s : Socket) → (handler t s).complete ≡ s.complete

run_complete-ends :
    (handler : IoTask → Socket → Socket)
    → IsSettling handler
    → (fuel : ℕ) (q : List IoTask) (s : Socket) → s.complete ≡ some q
    → length q < fuel
    → (s' : Socket) × (run_complete handler fuel s ≡ returned s')
unfolding run_complete
run_complete-ends handler settling zero q s e enough = absurd (omega arith)
run_complete-ends handler settling (suc fuel) [] s e enough = (s, simp (run_complete, e) refl)
run_complete-ends handler settling (suc fuel) (t ∷ q) s e enough =
    let popped : Socket = release_loop (record s { complete = some q }) in
    let (s', ends) =
      run_complete-ends handler settling fuel q (handler t popped) (settling t popped)
        (omega (arith, enough)) in
    (s', simp (run_complete, e) ends)

-- Inside of an event no task comes to those that wait or are complete.
abbrev IsBounded : ℕ → Socket → Type 0
IsBounded k s = (is_null s.complete ≡ false) × (waiting s ≤ k)

fail-IsBounded : (k : ℕ) (ec : Error) (s : Socket) → IsBounded k s → IsBounded k (fail ec s)
unfolding fail handle_error
fail-IsBounded k ec s (inside, few) =
    let queue : List IoTask = abort ec s.reads ++ abort ec s.writes in
    let (still, more) = map-queued queue s.complete inside in
    (
      still,
      omega (
        arith,
        few,
        more,
        length-append (abort ec s.reads) (abort ec s.writes),
        length-abort ec s.reads,
        length-abort ec s.writes,
      ),
    )

fail_if-IsBounded : (k : ℕ) (r : Error × Socket) → IsBounded k r.1 → IsBounded k (fail_if r)
unfolding fail_if
fail_if-IsBounded k (ec, s) b = ground (arith, fail-IsBounded k ec s b)

module _ (system : System) (k : ℕ) where
  read_ready-IsBounded :
      (rts : List IoTask) (s : Socket)
      → is_null s.complete ≡ false
      → length rts + length s.writes + queued s.complete ≤ k
      → IsBounded k (read_ready system rts s).1
  unfolding read_ready add_complete called
  read_ready-IsBounded [] s inside few = (inside, few)
  read_ready-IsBounded (rt ∷ rts) s inside few =
      let here = called system (record s { reads = rt ∷ rts }) in
      let n = amount (retry (system.readv s.calls rt.buffers)) in
      ground (
        arith,
        map-queued (record rt { io_bytes = n } ∷ []) s.complete inside,
        read_ready-IsBounded rts (add_complete (record rt { io_bytes = n }) here),
      )

  handle_readable-IsBounded : (s : Socket) → IsBounded k s → IsBounded k (handle_readable system s)
  unfolding handle_readable
  handle_readable-IsBounded s (inside, few) =
      fail_if-IsBounded k (read_ready system s.reads s) (read_ready-IsBounded s.reads s inside few)

  socket_error-IsBounded :
      (ec : Error) (s : Socket) → IsBounded k s → IsBounded k (socket_error system ec s).1
  unfolding socket_error called
  socket_error-IsBounded ec s b = ground (arith, b)

  dispatch-IsBounded :
      (fuel : ℕ) (err hup readable : Bool) (s : Socket)
      → IsBounded k s
      → (s' : Socket) × (dispatch system fuel err hup readable false s ≡ returned s')
        × IsBounded k s'
  unfolding dispatch
  dispatch-IsBounded fuel true hup readable s b = (
    _,
    refl,
    fail-IsBounded k (socket_error system epoll_failed s).0 (socket_error system epoll_failed s).1
        (socket_error-IsBounded epoll_failed s b),
  )
  dispatch-IsBounded fuel false true readable s b = (_, refl, fail-IsBounded k epoll_hang_up s b)
  dispatch-IsBounded fuel false false true s b = (_, refl, handle_readable-IsBounded s b)
  dispatch-IsBounded fuel false false false s b = (_, refl, b)

-- An event without EPOLLOUT ends, with one step of fuel for each task that waits and one more, if
-- the calls of tasks complete no others at once.
pub handle_io_event-ends :
    (system : System) (handler : IoTask → Socket → Socket) (fuel : ℕ) (evt : Events) (s : Socket)
    → IsSettling handler
    → evt.writeable ≡ false
    → length s.reads + length s.writes < fuel
    → (s' : Socket) × (handle_io_event system handler fuel evt s ≡ returned s')
unfolding handle_io_event
handle_io_event-ends system handler fuel evt s settling quiet enough =
    let inside : Socket = record s { complete = some [] } in
    let (k, first, bounded) =
      dispatch-IsBounded system (length s.reads + length s.writes) fuel evt.err evt.hup evt.readable
        inside (refl, omega arith) in
    go k first (Option-cases k.complete) bounded.0 bounded.1
  where
    go :
        (k : Socket)
        → dispatch system fuel evt.err evt.hup evt.readable false (record s { complete = some [] })
          ≡ returned k
        → (k.complete ≡ none) ⊎ ((q : List IoTask) × (k.complete ≡ some q))
        → is_null k.complete ≡ false
        → waiting k ≤ length s.reads + length s.writes
        → (s' : Socket) × (handle_io_event system handler fuel evt s ≡ returned s')
    go k first (inl none_there) still few =
        absurd (let null : true ≡ false = sym (ap is_null none_there) ∙ still in cc)
    go k first (inr (q, e)) still few =
        let (k', second) =
          run_complete-ends handler settling fuel q k e (omega (arith, enough, few, ap queued e)) in
        (rearm system handler k', rw (quiet, first, second) refl)

-- An event without EPOLLOUT, outside of another one, ends with one active handle in the loop for
-- each task that waits or is complete, as before it: with one step of fuel for each task that waits
-- and one more, and if the call of each task keeps this count and completes no others at once.
pub handle_io_event-keeps :
    (system : System) (handler : IoTask → Socket → Socket) (n fuel : ℕ) (evt : Events) (s : Socket)
    → IsSettling handler
    → IsCounting handler
    → evt.writeable ≡ false
    → s.complete ≡ none
    → length s.reads + length s.writes < fuel
    → IsCounted n s
    → (s' : Socket) × (handle_io_event system handler fuel evt s ≡ returned s') × IsCounted n s'
handle_io_event-keeps system handler n fuel evt s settling counting quiet outside enough b =
    let (s', ends) = handle_io_event-ends system handler fuel evt s settling quiet enough in
    (s', ends, handle_io_event-IsCounted system n handler counting fuel evt s s' outside b ends)
