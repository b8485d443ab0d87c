-- ===== src/Io/SocketEvents/Order.antt =====
-- Reads are complete in the order in which they were asked for, as the system has bytes; a queued write that completes ends
-- in a null pointer.
use mathlib.Core.Path.{subst}
use mathlib.Core.List.{append-nil, append_assoc}
use deprecated_tdk.Prelude.{
  ℕ, suc, ◌+◌, ◌≡◌, ◌≢◌, ◌∙◌, refl, sym, ap, true, some, List, [], ◌∷◌, ◌++◌, ◌==◌, ◌&&◌,
  Bool-cases, false, arith, inl, inr, ◌⊎◌,
}
use mathlib.Core.Bool.{not}
use mathlib.Core.Option
use deprecated_tdk.Io.Adapter.{size, remain_buffers}
use deprecated_tdk.Io.Task.{Error, no_error, network_remote_closed, platform, is_error, IoTask}
use deprecated_tdk.Io.Result.{crashed}
use deprecated_tdk.Io.System.{System, Answer, transferred, would_block, failed, retry}
use deprecated_tdk.Io.Socket.{
  Socket, add_complete, add_io_bytes, is_written, called, sent, write_try_count, abort,
  handle_error,
}
use deprecated_tdk.Io.SocketEvents.{
  read_ready, handle_readable, fail, fail_if, write_round, write_ready, handle_writeable,
}
use deprecated_tdk.Io.SocketEvents.Rounds.{no_write, whole_write}

module _ (system : System) where
  -- What `readv` gave to the read that stays in front, of which `length` bytes were asked, and the
  -- error that the reads end with.
  abbrev IsRefused : Answer → ℕ → Error → Type 0
  IsRefused would_block length ec = ec ≡ no_error
  IsRefused (failed e) length ec = ec ≡ platform e
  IsRefused (transferred n) length ec = (n ≡ 0) × (length ≢ 0) × (ec ≡ network_remote_closed)

  abbrev IsStop : ℕ → List IoTask → Error → Type 0
  IsStop k [] ec = ec ≡ no_error
  IsStop k (rt ∷ rts) ec = IsRefused (retry (system.readv k rt.buffers)) (size rt.buffers) ec

  -- From the `k`-th call on each read of `over` got bytes, in the order of `rts`, and their number
  -- is in it; the reads of `rest` are left, because none waits or the first of them got none.
  abbrev pub IsRead : ℕ → List IoTask → List IoTask → List IoTask → Error → Type 0
  IsRead k rts [] rest ec = (rest ≡ rts) × IsStop k rest ec
  IsRead k [] (t ∷ over) rest ec = ⊥
  IsRead k (rt ∷ rts) (t ∷ over) rest ec =
      (n : ℕ) × (retry (system.readv k rt.buffers) ≡ transferred n)
      × (n ≡ 0 → size rt.buffers ≡ 0)
      × (t ≡ record rt { io_bytes = n })
      × IsRead (k + 1) rts over rest ec

  abbrev IsSplit : List IoTask → List IoTask → Socket → Error × Socket → Type 0
  IsSplit rts q s r =
      (over : List IoTask) × (r.1.complete ≡ some (q ++ over))
      × IsRead s.calls rts over r.1.reads r.0
      × (r.1.writes ≡ s.writes)
      × (r.1.loop ≡ s.loop)

  read_ready_lem :
      (rts q : List IoTask) (s : Socket)
      → s.complete ≡ some q
      → IsSplit rts q s (read_ready system rts s)
  unfolding read_ready add_complete called
  read_ready_lem [] q s e = ([], e ∙ ap some (sym (append-nil q)), (refl, refl), refl, refl)
  read_ready_lem (rt ∷ rts) q s e =
      go (retry (system.readv s.calls rt.buffers)) refl (λ p k c. read_ready_lem rts p k c)
    where
      here : Socket
      here = called system (record s { reads = rt ∷ rts })

      stay : (ec : Error) → IsStop s.calls (rt ∷ rts) ec → IsSplit (rt ∷ rts) q s (ec, here)
      stay ec stop = ([], e ∙ ap some (sym (append-nil q)), (refl, stop), refl, refl)

      go :
          (a : Answer)
          → retry (system.readv s.calls rt.buffers) ≡ a
          → ((p : List IoTask) (k : Socket)
              → k.complete ≡ some p
              → IsSplit rts p k (read_ready system rts k))
          → IsSplit (rt ∷ rts) q s (read_ready system (rt ∷ rts) s)
      go would_block a again =
          let eq : read_ready system (rt ∷ rts) s ≡ (no_error, here) = simp (read_ready, a) refl in
          subst (IsSplit (rt ∷ rts) q s) (sym eq) (stay no_error (rw a refl))
      go (failed k) a again =
          let eq : read_ready system (rt ∷ rts) s ≡ (platform k, here) =
            simp (read_ready, a) refl in
          subst (IsSplit (rt ∷ rts) q s) (sym eq) (stay (platform k) (rw a refl))
      go (transferred n) a again = elim (Bool-cases (n == 0 && not (size rt.buffers == 0))) [
        | inl closed ↦
            let eq : read_ready system (rt ∷ rts) s ≡ (network_remote_closed, here) =
              simp (read_ready, a, closed) refl in
            let none_read : n ≡ 0 = ground (arith, closed) in
            let some_asked : size rt.buffers ≢ 0 = λ same. ground (arith, closed, same) in
            subst (IsSplit (rt ∷ rts) q s) (sym eq)
              (stay network_remote_closed (rw a (none_read, some_asked, refl)))
        | inr open_still ↦
            let rt' : IoTask = record rt { io_bytes = n } in
            let k : Socket = add_complete rt' here in
            let eq : read_ready system (rt ∷ rts) s ≡ read_ready system rts k =
              simp (read_ready, a, open_still) refl in
            let (over, complete, reads, writes, loop) =
              again (q ++ (rt' ∷ [])) k (ap (Option.map (λ t. t ++ (rt' ∷ []))) e) in
            let no_end : n ≡ 0 → size rt.buffers ≡ 0 = λ z. ground (arith, open_still, z) in
            subst (IsSplit (rt ∷ rts) q s) (sym eq) (
              rt' ∷ over,
              complete ∙ ap some (append_assoc q (rt' ∷ []) over),
              (n, a, no_end, refl, reads),
              writes,
              loop,
            )
      ]

  -- What is left behind: with no error the other reads and the writes wait on, else they are
  -- complete with the error and the socket is closed.
  abbrev pub IsLeft : List IoTask → List IoTask → List IoTask → Error → Socket → Type 0
  IsLeft q rest writes ec s =
      ((is_error ec ≡ false) × (s.complete ≡ some q) × (s.reads ≡ rest) × (s.writes ≡ writes))
      ⊎ ((is_error ec ≡ true)
          × (s.complete ≡ some (q ++ (abort ec rest ++ abort ec writes)))
          × (s.reads ≡ [])
          × (s.writes ≡ [])
          × (s.is_open ≡ false))

  fail_if-IsLeft :
      (r : Error × Socket) (q : List IoTask)
      → r.1.complete ≡ some q
      → IsLeft q r.1.reads r.1.writes r.0 (fail_if r)
  unfolding fail_if fail handle_error
  fail_if-IsLeft (ec, s) q e = elim (Bool-cases (is_error ec)) [
    | inl bad ↦
        let queue : List IoTask = abort ec s.reads ++ abort ec s.writes in
        rw bad (inr (refl, ap (Option.map (λ t. t ++ queue)) e, refl, refl, refl))
    | inr good ↦ rw good (inl (refl, e, refl, refl))
  ]

  -- `handle_readable` calls `readv` for the reads that wait, from the front on, until none is left,
  -- or one is refused. Those that got bytes are complete then, in their order, behind what was
  -- complete before; EAGAIN leaves the others to wait, and an error, or the end of the connection,
  -- completes them and all writes with it and closes the socket.
  pub handle_readable_lem :
      (q : List IoTask) (s : Socket)
      → s.complete ≡ some q
      → (over : List IoTask) × (rest : List IoTask) × (ec : Error) × IsRead s.calls s.reads over
          rest ec
        × IsLeft (q ++ over) rest s.writes ec (handle_readable system s)
  unfolding handle_readable
  handle_readable_lem q s e =
      let r = read_ready system s.reads s in
      let (over, complete, reads, writes, loop) = read_ready_lem s.reads q s e in
      (
        over,
        r.1.reads,
        r.0,
        reads,
        subst (λ w. IsLeft (q ++ over) r.1.reads w r.0 (fail_if r)) writes
            (fail_if-IsLeft r (q ++ over) complete),
      )

  -- The write that completes is the last in the queue: the next try asks the empty queue for its
  -- front.
  pub handle_writeable-crashes :
      (fuel k : ℕ) (wt : IoTask) (s : Socket)
      → s.writes ≡ wt ∷ []
      → retry (system.writev s.calls (remain_buffers wt.io_bytes wt.buffers)) ≡ transferred k
      → is_written (add_io_bytes k wt) ≡ true
      → handle_writeable system (suc fuel) s ≡ crashed
  unfolding handle_writeable write_ready add_complete
  handle_writeable-crashes fuel k wt s e a whole =
      let next : Socket =
        add_complete (add_io_bytes k wt) (record (sent system k wt s) { writes = [] }) in
      let round : write_round system write_try_count s ≡ crashed =
        whole_write system 3 s wt [] e k a whole ∙ no_write system 2 next refl in
      simp (write_ready, e, round) refl
