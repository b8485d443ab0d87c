-- ===== src/Io/ChannelEvents/Kept.antt =====
-- The events of a channel keep its references and handles.
use mathlib.Core.Path.{subst}
use deprecated_tdk.Prelude.{
  ℕ, zero, suc, ◌+◌, ◌%◌, ◌^◌, ◌≡◌, refl, sym, Bool, true, false, Option, none, some, List, [], ◌∷◌,
  ◌||◌, ◌==◌, if◌then◌else◌,
}
use deprecated_tdk.Io.Adapter.{Iovec, BufferAdapter, no_buffers}
use deprecated_tdk.Io.Task.{no_error, epoll_hang_up, network_remote_closed, platform, is_error}
use deprecated_tdk.Io.Result.{Result, returned, Returning, >>=-Returning}
use deprecated_tdk.Io.System.{System, Answer, transferred, would_block, failed, retry}
use deprecated_tdk.Io.Channel.{
  Channel, on_read, on_write, Filters, is_over, no_messages, register_handle, propagate,
}
use deprecated_tdk.Io.Channel.Held.{
  IsHeld, IsHolding, if-IsHeld, register_handle-IsHeld, propagate-IsHeld,
}
use deprecated_tdk.Io.ChannelEvents.{
  gather, consume, asked, on_send, written, send_from, send_remains, handle_readable, read_of,
  sent_of, write_unless, after_send, handle_writeable, socket_error, dispatch, handle_io_events,
}

module _ (system : System) (r n : ℕ) where
  written-IsHeld :
      (k : ℕ) (buf : BufferAdapter) (o : Option (List Iovec)) (c : Channel)
      → IsHeld r n c
      → Returning (IsHeld r n) (written k buf o c)
  unfolding written
  written-IsHeld k buf none c h = tt
  written-IsHeld k buf (some queue) c h = h

  sent_of-IsHeld :
      (next : ℕ → Channel → Result Channel)
      → ((total : ℕ) (c : Channel) → IsHeld r n c → Returning (IsHeld r n) (next total c))
      → (buf : BufferAdapter) (total : ℕ) (queue : List Iovec) (a : Answer) (c : Channel)
      → IsHeld r n c
      → Returning (IsHeld r n) (sent_of next buf total queue a c)
  unfolding sent_of
  sent_of-IsHeld next on buf total queue would_block c h = h
  sent_of-IsHeld next on buf total queue (failed e) c h = h
  sent_of-IsHeld next on buf total queue (transferred k) c h =
      >>=-Returning (IsHeld r n) (IsHeld r n) (written k buf (consume k queue) c)
        (λ c'. next ((total + k) % 2 ^ 32) c') (written-IsHeld k buf (consume k queue) c h)
        (on ((total + k) % 2 ^ 32))

  send_from-IsHeld :
      (fuel : ℕ) (buf : BufferAdapter) (total : ℕ) (c : Channel)
      → IsHeld r n c
      → Returning (IsHeld r n) (send_from system fuel buf total c)
  unfolding send_from
  send_from-IsHeld zero buf total c h = tt
  send_from-IsHeld (suc fuel) buf total c h =
      go (λ b t k g. send_from-IsHeld fuel b t k g) c.send_queue refl
    where
      go :
          ((b : BufferAdapter) (t : ℕ) (k : Channel)
            → IsHeld r n k
            → Returning (IsHeld r n) (send_from system fuel b t k))
          → (queue : List Iovec) → c.send_queue ≡ queue
          → Returning (IsHeld r n) (send_from system (suc fuel) buf total c)
      go again [] e =
          let eq : send_from system (suc fuel) buf total c ≡ returned (on_send no_error total c) =
            simp (send_from, e) refl in
          subst (Returning (IsHeld r n)) (sym eq) h
      go again (m ∷ ms) e =
          let buf' = gather (m ∷ ms) buf in
          let answer : Answer = retry (system.writev c.calls buf') in
          let next : ℕ → Channel → Result Channel = λ t k. send_from system fuel buf' t k in
          let eq : send_from system (suc fuel) buf total c
              ≡ sent_of next buf' total (m ∷ ms) answer c =
            simp (send_from, e) refl in
          subst (Returning (IsHeld r n)) (sym eq)
            (sent_of-IsHeld next (again buf') buf' total (m ∷ ms) answer c h)

module _ (system : System) (filters : Filters) (holding : IsHolding filters) (r n : ℕ) where
  read_of-IsHeld :
      (a : Answer) (c : Channel) → IsHeld r n c → IsHeld r n (read_of system filters a c)
  unfolding read_of
  read_of-IsHeld would_block c h =
      propagate-IsHeld filters holding r n (platform (system.errno c.calls)) (asked c) h
  read_of-IsHeld (failed e) c h = propagate-IsHeld filters holding r n (platform e) (asked c) h
  read_of-IsHeld (transferred k) c h =
      if-IsHeld r n (k == 0) (propagate filters network_remote_closed (asked c))
        (filters.in_bound (on_read k) (asked c))
        (propagate-IsHeld filters holding r n network_remote_closed (asked c) h)
        (holding.in_bound_held r n (on_read k) (asked c) h)

  handle_readable-IsHeld :
      (block : BufferAdapter) (c : Channel)
      → IsHeld r n c
      → IsHeld r n (handle_readable system filters block c)
  unfolding handle_readable
  handle_readable-IsHeld block c h =
      let a : Answer = retry (system.readv c.calls block) in
      if-IsHeld r n (is_over c || c.read_pending_bit) c (read_of system filters a c) h
        (read_of-IsHeld a c h)

  after_send-IsHeld : (c : Channel) → IsHeld r n c → IsHeld r n (after_send system filters c)
  unfolding after_send
  after_send-IsHeld c h =
      if-IsHeld r n (is_error c.send_error) (propagate filters c.send_error c)
        (filters.in_bound (on_write c.send_bytes (no_messages c.send_queue)) c)
        (propagate-IsHeld filters holding r n c.send_error c h)
        (holding.in_bound_held r n (on_write c.send_bytes (no_messages c.send_queue)) c h)

  write_unless-IsHeld :
      (over : Bool) (fuel : ℕ) (c : Channel)
      → IsHeld r n c
      → Returning (IsHeld r n) (write_unless system filters over fuel c)
  unfolding write_unless send_remains
  write_unless-IsHeld true fuel c h = h
  write_unless-IsHeld false fuel c h =
      >>=-Returning (IsHeld r n) (IsHeld r n) (send_from system fuel no_buffers 0 c)
        (λ c'. returned (after_send system filters c'))
        (send_from-IsHeld system r n fuel no_buffers 0 c h) after_send-IsHeld

  if_readable :
      (block : BufferAdapter) (readable : Bool) (c : Channel)
      → IsHeld r n c
      → IsHeld r n (if readable then handle_readable system filters block c else c)
  if_readable block readable c h =
      if-IsHeld r n readable (handle_readable system filters block c) c
        (handle_readable-IsHeld block c h) h

  dispatch-IsHeld :
      (fuel : ℕ) (block : BufferAdapter) (err hup readable writeable : Bool) (c : Channel)
      → IsHeld r n c
      → Returning (IsHeld r n) (dispatch system filters fuel block err hup readable writeable c)
  unfolding dispatch handle_writeable
  dispatch-IsHeld fuel block true hup readable writeable c h =
      propagate-IsHeld filters holding r n (socket_error system filters c) (asked c) h
  dispatch-IsHeld fuel block false true readable writeable c h =
      propagate-IsHeld filters holding r n epoll_hang_up c h
  dispatch-IsHeld fuel block false false readable true c h =
      let c' : Channel = if readable then handle_readable system filters block c else c in
      >>=-Returning (IsHeld r n) (IsHeld r n)
        (write_unless system filters (is_over c' || no_messages c'.send_queue) fuel c')
        (λ k. returned (register_handle system k))
        (write_unless-IsHeld (is_over c' || no_messages c'.send_queue) fuel c'
          (if_readable block readable c h))
        (register_handle-IsHeld r n system)
  dispatch-IsHeld fuel block false false readable false c h =
      register_handle-IsHeld r n system
        (if readable then handle_readable system filters block c else c)
        (if_readable block readable c h)

  pub handle_io_events-IsHeld :
      (fuel : ℕ) (block : BufferAdapter) (err hup readable writeable : Bool) (c : Channel)
      → IsHeld r n c
      → Returning
          (IsHeld r n)
          (handle_io_events system filters fuel block err hup readable writeable c)
  unfolding handle_io_events
  handle_io_events-IsHeld fuel block err hup readable writeable c h =
      elim (is_over c)
        as (λ b. Returning (IsHeld r n) (elim b [
          | true ↦ returned c
          | false ↦ dispatch system filters fuel block err hup readable writeable c
        ])) [ true ↦ h | false ↦ dispatch-IsHeld fuel block err hup readable writeable c h ]
