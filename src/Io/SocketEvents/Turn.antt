-- ===== src/Io/SocketEvents/Turn.antt =====
-- `handle_io_event` as a whole, with the calls of its tasks.
use mathlib.Core.Path.{subst}
use deprecated_tdk.Prelude.{
  ℕ, zero, suc, ◌≡◌, refl, sym, ap, Option, none, some, List, [], ◌∷◌, arith,
}
use deprecated_tdk.Io.Task.{epoll, IoTask}
use deprecated_tdk.Io.Result.{crashed, returned, ◌>>=◌, Returning, >>=-Returning}
use deprecated_tdk.Io.System.{System}
use deprecated_tdk.Io.Socket.{Socket, release_loop, handle_error, register_events}
use deprecated_tdk.Io.Socket.Count.{
  queued, IsCounted, IsCounting, handle_error-IsCounted, run_all-IsCounted, release_loop-IsCounted,
}
use deprecated_tdk.Io.SocketEvents.{
  Events, register_handle, registered, dispatch, run_complete, rearm, handle_io_event,
}
use deprecated_tdk.Io.SocketEvents.Count.{IsRunning, dispatch-IsRunning}

module _ (system : System) (n : ℕ) (handler : IoTask → Socket → Socket)
    (counting : IsCounting handler) where
  -- All that is complete was called.
  abbrev IsDone : Socket → Type 0
  IsDone s = (s.complete ≡ some []) × IsCounted n s

  run_complete-IsDone :
      (fuel : ℕ) (s : Socket) → IsCounted n s → Returning IsDone (run_complete handler fuel s)
  unfolding run_complete
  run_complete-IsDone zero s b = tt
  run_complete-IsDone (suc fuel) s b = go (λ k c. run_complete-IsDone fuel k c) s.complete refl
    where
      go :
          ((k : Socket) → IsCounted n k → Returning IsDone (run_complete handler fuel k))
          → (c : Option (List IoTask)) → s.complete ≡ c
          → Returning IsDone (run_complete handler (suc fuel) s)
      go again none e =
          let eq : run_complete handler (suc fuel) s ≡ crashed = simp (run_complete, e) refl in
          subst (Returning IsDone) (sym eq) tt
      go again (some []) e =
          let eq : run_complete handler (suc fuel) s ≡ returned s = simp (run_complete, e) refl in
          subst (Returning IsDone) (sym eq) (e, b)
      go again (some (t ∷ ts)) e =
          let popped : Socket = record s { complete = some ts } in
          let eq : run_complete handler (suc fuel) s
              ≡ run_complete handler fuel (handler t (release_loop popped)) =
            simp (run_complete, e) refl in
          subst (Returning IsDone) (sym eq) (
            again (handler t (release_loop popped)) (
              counting n t (release_loop popped)
                (release_loop-IsCounted n popped (omega (arith, b, ap queued e)))))

  registered-IsCounted :
      (r : Option ℕ × Socket) → IsCounted n r.1 → IsCounted n (registered handler r)
  unfolding registered
  registered-IsCounted (none, s) b = b
  registered-IsCounted (some e, s) b =
      let (queue, s') = handle_error (epoll e) s in
      run_all-IsCounted handler counting n queue s' (handle_error-IsCounted n (epoll e) s b)

  register_handle-IsCounted :
      (s : Socket) → IsCounted n s → IsCounted n (register_handle system s).1
  unfolding register_handle register_events
  register_handle-IsCounted s b = ground (arith, b)

  rearm-IsCounted : (s : Socket) → IsDone s → IsCounted n (rearm system handler s)
  unfolding rearm
  rearm-IsCounted s (e, b) =
      let over : Socket = record s { complete = none } in
      registered-IsCounted (register_handle system over)
        (register_handle-IsCounted over (omega (arith, b, ap queued e)))

  -- What epoll reports is handled with the count kept, if the handling ends and each call keeps it:
  -- the tasks that were called gave their handles back, and the others have theirs.
  pub handle_io_event-IsCounted :
      (fuel : ℕ) (evt : Events) (s s' : Socket)
      → s.complete ≡ none
      → IsCounted n s
      → handle_io_event system handler fuel evt s ≡ returned s'
      → IsCounted n s'
  unfolding handle_io_event
  handle_io_event-IsCounted fuel evt s s' outside b e =
      let inside : Socket = record s { complete = some [] } in
      subst (Returning (IsCounted n)) e (
        >>=-Returning (IsRunning n) (IsCounted n)
          (dispatch system fuel evt.err evt.hup evt.readable evt.writeable inside)
          (λ k. run_complete handler fuel k >>= λ k'. returned (rearm system handler k'))
          (dispatch-IsRunning system n fuel evt.err evt.hup evt.readable evt.writeable inside
            (refl, omega (arith, b, ap queued outside)))
          (λ k c.
            >>=-Returning IsDone (IsCounted n) (run_complete handler fuel k)
              (λ k'. returned (rearm system handler k')) (run_complete-IsDone fuel k c.1)
              (λ k' d. rearm-IsCounted k' d)))
