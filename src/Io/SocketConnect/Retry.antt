-- ===== src/Io/SocketConnect/Retry.antt =====
-- A connection that fails: with the last address it is posted again, and leaves a handle behind.
use deprecated_tdk.Prelude.{
  ℕ, ◌+◌, ◌≡◌, refl, ap, Bool, true, false, Option, none, some, List, [], ◌∷◌, ◌++◌, length, arith,
}
use deprecated_tdk.EventLoop.Loop.Active.{add_active-Balanced}
use deprecated_tdk.Io.Task.{platform, IoTask, set_error, address_next, address_is_eof, is_error}
use deprecated_tdk.Io.Result.{Result, returned, Returning}
use deprecated_tdk.Io.System.{System, Answer, transferred, would_block, failed, retry}
use deprecated_tdk.Io.Socket.{Socket, finish, post, retain_loop, register_events, called}
use deprecated_tdk.Io.Socket.Count.{waiting, IsCounted, post-IsCounted}
use deprecated_tdk.Io.SocketEvents.{Events, socket_error}
use deprecated_tdk.Io.SocketConnect.{
  started, opened, tried, start_connect, connect_to, connect_impl, connect_error,
  handle_connect_event,
}

module _ (system : System) (handler : IoTask → Socket → Socket) (evt : Events) (s : Socket)
    (front : IoTask) (wts : List IoTask) (first : s.writes ≡ front ∷ wts) where
  abbrev pub popped : Socket
  popped = record s { writes = wts }

  module _ (bad : is_error (connect_error system evt popped).0 ≡ true) where
    last_address :
        (a : ℕ)
        → front.addrs ≡ a ∷ []
        → let (ec, s') = connect_error system evt popped in
          handle_connect_event system handler evt s
          ≡ connect_impl system (record front { addrs = []; error = ec }) s'
    unfolding handle_connect_event set_error address_next address_is_eof
    last_address a left = simp (handle_connect_event, first, bad, left) refl

    connect_error-IsCounted :
        (n : ℕ) → IsCounted n s → IsCounted (n + 1) (connect_error system evt popped).1
    unfolding connect_error socket_error called
    connect_error-IsCounted n b = ground (arith, ap length first, b)

    connect_error-posted : (connect_error system evt popped).1.posted ≡ s.posted
    unfolding connect_error socket_error called
    connect_error-posted = ground arith

    -- A connection fails with the last address, for which `address_next` is true: its task is posted
    -- once more, with the error that `errno` gives, and the handle that the connection had is not
    -- given back.
    pub handle_connect_event-leaks :
        (n a : ℕ)
        → front.addrs ≡ a ∷ []
        → IsCounted n s
        → let k = (connect_error system evt popped).1 in
          (s' : Socket) × (handle_connect_event system handler evt s ≡ returned s')
          × (s'.posted
              ≡ s.posted
                ++ (finish (record front {
                  addrs = [];
                  error = platform (system.errno k.calls);
                  io_bytes = 0;
                })
                    ∷ []))
          × IsCounted (n + 1) s'
          × (¬ IsCounted n s')
    unfolding connect_impl connect_to post
    handle_connect_event-leaks n a left b =
        let (ec, k) = connect_error system evt popped in
        let closed : Socket = record k { is_open = false; is_connecting = false } in
        let ct : IoTask = record front {
          addrs = [];
          error = platform (system.errno k.calls);
          io_bytes = 0;
        } in
        let more : IsCounted (n + 1) (post (finish ct) closed) =
          post-IsCounted (n + 1) (finish ct) closed (connect_error-IsCounted n b) in
        (
          post (finish ct) closed,
          last_address a left,
          ap (λ t. t ++ (finish ct ∷ [])) connect_error-posted,
          more,
          λ counted. omega (arith, more, counted),
        )

module _ (system : System) (n : ℕ) where
  started-IsCounted :
      (r : Option ℕ) (s : Socket)
      → IsCounted n (retain_loop s)
      → Returning (IsCounted n) (started (r, s))
  unfolding started
  started-IsCounted none s b = b
  started-IsCounted (some e) s b = tt

  start_connect-IsCounted :
      (ct : IoTask) (s : Socket)
      → IsCounted n s
      → Returning (IsCounted n) (start_connect system ct s)
  unfolding start_connect register_events
  start_connect-IsCounted ct s b =
      let queued : Socket = record s { writes = ct ∷ s.writes; is_connecting = true } in
      let (r, k) = register_events system false true queued in
      started-IsCounted r k (omega (arith, add_active-Balanced (n + waiting s) s.loop b))

  tried-IsCounted :
      (next start : Socket → Result Socket)
      → ((k : Socket) → IsCounted n k → Returning (IsCounted n) (next k))
      → ((k : Socket) → IsCounted n k → Returning (IsCounted n) (start k))
      → (is_open non_blocking : Bool) (answer : Answer) (s : Socket) → IsCounted n s
      → Returning (IsCounted n) (tried next start is_open non_blocking answer s)
  unfolding tried
  tried-IsCounted next start on ready false non_blocking answer s b = on (opened false 1 s) b
  tried-IsCounted next start on ready true false answer s b = on (opened true 2 s) b
  tried-IsCounted next start on ready true true (failed e) s b = on (opened true 3 s) b
  tried-IsCounted next start on ready true true would_block s b = ready (opened true 3 s) b
  tried-IsCounted next start on ready true true (transferred k) s b = ready (opened true 3 s) b

  -- `connect_impl` keeps the count, whichever addresses fail.
  connect_to-IsCounted :
      (addrs : List ℕ) (ct : IoTask) (s : Socket)
      → IsCounted n s
      → Returning (IsCounted n) (connect_to system addrs ct s)
  unfolding connect_to
  connect_to-IsCounted [] ct s b =
      post-IsCounted n
        (finish (record ct { addrs = []; io_bytes = 0; error = platform (system.errno s.calls) }))
        (record s { is_open = false; is_connecting = false }) b
  connect_to-IsCounted (a ∷ addrs) ct s b =
      tried-IsCounted (λ k. connect_to system addrs ct k)
        (λ k. start_connect system (record ct { addrs = a ∷ addrs }) k)
        (λ k c. connect_to-IsCounted addrs ct k c)
        (λ k c. start_connect-IsCounted (record ct { addrs = a ∷ addrs }) k c)
        (system.open_tcp s.calls a) (system.set_non_blocking (s.calls + 1))
        (retry (system.connect (s.calls + 2) a)) s b
