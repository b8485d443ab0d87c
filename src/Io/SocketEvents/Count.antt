-- ===== src/Io/SocketEvents/Count.antt =====
-- The events of a socket keep its count of active handles.
use mathlib.Core.Path.{subst}
use mathlib.Core.Option
use deprecated_tdk.Prelude.{
  ℕ, zero, suc, ◌+◌, ◌≡◌, refl, sym, ap, Bool, true, false, Option, none, some, List, [], ◌∷◌, ◌++◌,
  length, length-append, arith, Bool-cases, inl, inr, if◌then◌else◌,
}
use deprecated_tdk.EventLoop.Loop.Active.{Balanced}
use deprecated_tdk.Io.Adapter.{remain_buffers}
use deprecated_tdk.Io.Task.{Error, no_error, epoll_failed, epoll_hang_up, IoTask}
use deprecated_tdk.Io.Result.{returned, ◌>>=◌, Returning, >>=-Returning}
use deprecated_tdk.Io.System.{System, Answer, transferred, would_block, failed, retry}
use deprecated_tdk.Io.Socket.{
  Socket, is_null, write_try_count, add_complete, add_io_bytes, is_written, called, sent,
  handle_error,
}
use deprecated_tdk.Io.Socket.Count.{queued, IsCounted, handle_error-IsCounted, amount}
use deprecated_tdk.Io.SocketEvents.Rounds.{
  no_write, blocked_write, failed_write, whole_write, part_write,
}
use deprecated_tdk.Io.SocketEvents.{
  read_ready, fail, fail_if, handle_readable, go_on, write_round, write_ready, handle_writeable,
  socket_error, dispatch,
}

-- Inside of `handle_io_event`.
abbrev pub IsRunning : ℕ → Socket → Type 0
IsRunning n s = (is_null s.complete ≡ false) × IsCounted n s

pub map-queued :
    (queue : List IoTask) (c : Option (List IoTask))
    → is_null c ≡ false
    → (is_null (Option.map (λ q. q ++ queue) c) ≡ false)
      × (queued (Option.map (λ q. q ++ queue) c) ≡ queued c + length queue)
map-queued queue none e = cc
map-queued queue (some q) e = (refl, length-append q queue)

fail-IsRunning : (n : ℕ) (ec : Error) (s : Socket) → IsRunning n s → IsRunning n (fail ec s)
unfolding fail handle_error
fail-IsRunning n ec s (running, b) =
    let (queue, s') = handle_error ec s in
    let (still, more) = map-queued queue s.complete running in
    (still, omega (arith, handle_error-IsCounted n ec s b, more))

fail_if-IsRunning : (n : ℕ) (r : Error × Socket) → IsRunning n r.1 → IsRunning n (fail_if r)
unfolding fail_if
fail_if-IsRunning n (ec, s) b = ground (arith, fail-IsRunning n ec s b)

module _ (system : System) (n : ℕ) where
  read_ready-IsRunning :
      (rts : List IoTask) (s : Socket)
      → is_null s.complete ≡ false
      → Balanced (n + (length rts + length s.writes + queued s.complete)) s.loop
      → IsRunning n (read_ready system rts s).1
  unfolding read_ready add_complete called
  read_ready-IsRunning [] s running b = (running, b)
  read_ready-IsRunning (rt ∷ rts) s running b =
      let here = called system (record s { reads = rt ∷ rts }) in
      let k = amount (retry (system.readv s.calls rt.buffers)) in
      ground (
        arith,
        map-queued (record rt { io_bytes = k } ∷ []) s.complete running,
        read_ready-IsRunning rts (add_complete (record rt { io_bytes = k }) here),
      )

  abbrev IsRound : Bool × Error × Socket → Type 0
  IsRound (more, ec, s) = IsRunning n s

  write_round-IsRunning :
      (tries : ℕ) (s : Socket) → IsRunning n s → Returning IsRound (write_round system tries s)
  unfolding write_round add_complete called sent
  write_round-IsRunning zero s b = b
  write_round-IsRunning (suc tries) s b = go (λ k c. write_round-IsRunning tries k c) s.writes refl
    where
      answer : IoTask → Answer
      answer wt = retry (system.writev s.calls (remain_buffers wt.io_bytes wt.buffers))

      on_answer :
          ((k : Socket) → IsRunning n k → Returning IsRound (write_round system tries k))
          → (wt : IoTask) (wts : List IoTask) → s.writes ≡ wt ∷ wts
          → (a : Answer) → answer wt ≡ a
          → Returning IsRound (write_round system (suc tries) s)
      on_answer again wt wts e would_block a =
          subst (Returning IsRound) (sym (blocked_write system tries s wt wts e a)) b
      on_answer again wt wts e (failed k) a =
          subst (Returning IsRound) (sym (failed_write system tries s wt wts e k a)) b
      on_answer again wt wts e (transferred k) a =
          let wt' = add_io_bytes k wt in
          elim (Bool-cases (is_written wt')) [
            | inl whole ↦
                let more = map-queued (wt' ∷ []) s.complete b.0 in
                subst (Returning IsRound) (sym (whole_write system tries s wt wts e k a whole)) (
                  again (add_complete wt' (record (sent system k wt s) { writes = wts }))
                    (more.0, omega (arith, b.1, ap length e, more.1)))
            | inr part ↦
                subst (Returning IsRound) (sym (part_write system tries s wt wts e k a part)) (
                  again (record (sent system k wt s) { writes = wt' ∷ wts })
                    (b.0, omega (arith, b.1, ap length e)))
          ]

      go :
          ((k : Socket) → IsRunning n k → Returning IsRound (write_round system tries k))
          → (writes : List IoTask) → s.writes ≡ writes
          → Returning IsRound (write_round system (suc tries) s)
      go again [] e = subst (Returning IsRound) (sym (no_write system tries s e)) tt
      go again (wt ∷ wts) e = on_answer again wt wts e (answer wt) refl

  abbrev IsOver : Error × Socket → Type 0
  IsOver (ec, s) = IsRunning n s

  write_ready-IsRunning :
      (fuel : ℕ) (s : Socket) → IsRunning n s → Returning IsOver (write_ready system fuel s)
  unfolding write_ready
  write_ready-IsRunning zero s b = tt
  write_ready-IsRunning (suc fuel) s b = go (λ k c. write_ready-IsRunning fuel k c) s.writes refl
    where
      on_round :
          ((k : Socket) → IsRunning n k → Returning IsOver (write_ready system fuel k))
          → (r : Bool × Error × Socket) → IsRound r
          → Returning IsOver (go_on (λ k. write_ready system fuel k) r)
      on_round again (true, ec, k) c = again k c
      on_round again (false, ec, k) c = c

      go :
          ((k : Socket) → IsRunning n k → Returning IsOver (write_ready system fuel k))
          → (writes : List IoTask) → s.writes ≡ writes
          → Returning IsOver (write_ready system (suc fuel) s)
      go again [] e =
          let eq : write_ready system (suc fuel) s ≡ returned (no_error, s) =
            simp (write_ready, e) refl in
          subst (Returning IsOver) (sym eq) b
      go again (wt ∷ wts) e =
          let eq : write_ready system (suc fuel) s
              ≡ (write_round system write_try_count s >>= go_on (λ k. write_ready system fuel k)) =
            simp (write_ready, e) refl in
          subst (Returning IsOver) (sym eq) (
            >>=-Returning IsRound IsOver (write_round system write_try_count s)
              (go_on (λ k. write_ready system fuel k)) (write_round-IsRunning write_try_count s b)
              (on_round again))

  handle_writeable-IsRunning :
      (fuel : ℕ) (s : Socket)
      → IsRunning n s
      → Returning (IsRunning n) (handle_writeable system fuel s)
  unfolding handle_writeable
  handle_writeable-IsRunning fuel s b =
      >>=-Returning IsOver (IsRunning n) (write_ready system fuel s) (λ r. returned (fail_if r))
        (write_ready-IsRunning fuel s b) (λ r c. fail_if-IsRunning n r c)

  handle_readable-IsRunning : (s : Socket) → IsRunning n s → IsRunning n (handle_readable system s)
  unfolding handle_readable
  handle_readable-IsRunning s b =
      fail_if-IsRunning n (read_ready system s.reads s)
        (read_ready-IsRunning s.reads s b.0 (omega (arith, b.1)))

  socket_error-IsRunning :
      (ec : Error) (s : Socket) → IsRunning n s → IsRunning n (socket_error system ec s).1
  unfolding socket_error called
  socket_error-IsRunning ec s b = ground (arith, b)

  if_readable :
      (readable : Bool) (s : Socket)
      → IsRunning n s
      → IsRunning n (if readable then handle_readable system s else s)
  if_readable true s b = handle_readable-IsRunning s b
  if_readable false s b = b

  pub dispatch-IsRunning :
      (fuel : ℕ) (err hup readable writeable : Bool) (s : Socket)
      → IsRunning n s
      → Returning (IsRunning n) (dispatch system fuel err hup readable writeable s)
  unfolding dispatch
  dispatch-IsRunning fuel true hup readable writeable s b =
      fail-IsRunning n (socket_error system epoll_failed s).0 (socket_error system epoll_failed s).1
        (socket_error-IsRunning epoll_failed s b)
  dispatch-IsRunning fuel false true readable writeable s b = fail-IsRunning n epoll_hang_up s b
  dispatch-IsRunning fuel false false readable true s b =
      handle_writeable-IsRunning fuel (if readable then handle_readable system s else s)
        (if_readable readable s b)
  dispatch-IsRunning fuel false false readable false s b = if_readable readable s b
