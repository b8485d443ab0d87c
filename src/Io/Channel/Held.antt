-- ===== src/Io/Channel/Held.antt =====
-- The references to a channel: one for each task that it posted, besides those of others.
use deprecated_tdk.Prelude.{
  ℕ, ◌+◌, ◌%◌, ◌^◌, ◌≡◌, Bool, true, false, none, some, [], ◌∷◌, length, length-append, arith,
}
use mathlib.Core.Bool.{not}
use deprecated_tdk.Prelude.{Option, ◌++◌, if◌then◌else◌}
use deprecated_tdk.EventLoop.Loop.{object, add_active, remove_active}
use deprecated_tdk.EventLoop.Loop.Active.{
  Balanced, add_active-Balanced, remove_active-Balanced, execute-Balanced,
}
use deprecated_tdk.Io.Adapter.{Iovec}
use deprecated_tdk.Io.Task.{Error, user_abort, epoll}
use deprecated_tdk.Io.System.{System}
use deprecated_tdk.Io.Channel.{
  Channel, Posted, closing, registering, sending, propagating, Upcall, on_error, on_closed, Filters,
  retain, release, post, close, continue_read, propagate_later, do_write, registered,
  register_handle, events_of, fire_on_start, fire_on_error, fire_on_close, propagate, fire_do_write,
}

-- `r` counts the references besides those of the posted tasks, `n` the handles of the loop besides
-- its timers and tasks.
abbrev pub IsHeld : ℕ → ℕ → Channel → Type 0
IsHeld r n c = (c.ref_count ≡ (r + length c.posted) % 2 ^ 32) × Balanced n c.loop

module _ (r n : ℕ) where
  pub post-IsHeld : (p : Posted) (c : Channel) → IsHeld r n c → IsHeld r n (post p c)
  unfolding post retain
  post-IsHeld p c (refs, b) =
      (omega (arith, refs, length-append c.posted (p ∷ [])), execute-Balanced n (object 0) c.loop b)

  pub retain-IsHeld : (c : Channel) → IsHeld r n c → IsHeld (r + 1) n (retain c)
  unfolding retain
  retain-IsHeld c (refs, b) = (omega (arith, refs), b)

  pub release-IsHeld : (c : Channel) → IsHeld (r + 1) n c → IsHeld r n (release c)
  unfolding release
  release-IsHeld c (refs, b) = (omega (arith, refs), b)

  -- Every call of a user takes a reference for each task that it posts.
  pub close-IsHeld : (c : Channel) → IsHeld r n c → IsHeld r n (close c)
  unfolding close
  close-IsHeld c h = ground (arith, post-IsHeld closing (record c { close_bit = true }) h)

  pub continue_read-IsHeld : (c : Channel) → IsHeld r n c → IsHeld r n (continue_read c)
  unfolding continue_read
  continue_read-IsHeld c h = ground (
    arith,
    post-IsHeld registering (record c { error_bit = not c.error_bit; close_bit = not c.close_bit })
        h,
  )

  pub propagate_later-IsHeld :
      (ec : Error) (c : Channel) → IsHeld r n c → IsHeld r n (propagate_later ec c)
  unfolding propagate_later
  propagate_later-IsHeld ec c h =
      ground (arith, post-IsHeld (propagating ec) (record c { error_bit = true }) h)

  pub do_write-IsHeld : (msg : Iovec) (c : Channel) → IsHeld r n c → IsHeld r n (do_write msg c)
  unfolding do_write
  do_write-IsHeld msg c h =
      ground (arith, post-IsHeld sending (record c { send_queue = c.send_queue ++ (msg ∷ []) }) h)

  registered-IsHeld : (o : Option ℕ) (c : Channel) → IsHeld r n c → IsHeld r n (registered o c)
  unfolding registered
  registered-IsHeld none c h = h
  registered-IsHeld (some e) c h = propagate_later-IsHeld (epoll e) c h

  pub register_handle-IsHeld :
      (system : System) (c : Channel) → IsHeld r n c → IsHeld r n (register_handle system c)
  unfolding register_handle
  register_handle-IsHeld system c h = ground (
    arith,
    registered-IsHeld (system.register c.calls)
        (record c { reg_events = events_of c; calls = c.calls + 1 }) h,
  )

pub if-IsHeld :
    (r n : ℕ) (b : Bool) (c d : Channel)
    → IsHeld r n c
    → IsHeld r n d
    → IsHeld r n (if b then c else d)
if-IsHeld r n true c d h k = h
if-IsHeld r n false c d h k = k

-- What the filters do keeps the references.
pub record IsHolding (filters : Filters) : Type 0 where
  pub in_bound_held :
      (r n : ℕ) (u : Upcall) (c : Channel) → IsHeld r n c → IsHeld r n (filters.in_bound u c)
  pub do_write_held :
      (r n : ℕ) (msg : Iovec) (c : Channel) → IsHeld r n c → IsHeld r n (filters.do_write msg c)

module _ (filters : Filters) (holding : IsHolding filters) (r n : ℕ) where
  pub fire_on_error-IsHeld :
      (ec : Error) (c : Channel) → IsHeld r n c → IsHeld r n (fire_on_error filters ec c)
  unfolding fire_on_error
  fire_on_error-IsHeld ec c h =
      holding.in_bound_held r n (on_error ec) (record c { is_open = false }) h

  pub propagate-IsHeld :
      (ec : Error) (c : Channel) → IsHeld r n c → IsHeld r n (propagate filters ec c)
  unfolding propagate
  propagate-IsHeld ec c h =
      ground (arith, fire_on_error-IsHeld ec (record c { error_bit = true }) h, h)

  pub fire_do_write-IsHeld :
      (msg : Iovec) (c : Channel) → IsHeld r n c → IsHeld r n (fire_do_write filters msg c)
  unfolding fire_do_write
  fire_do_write-IsHeld msg c h = ground (arith, holding.do_write_held r n msg c h, h)

  -- The start of a channel takes a reference and a handle of the loop.
  pub fire_on_start-IsHeld :
      (system : System) (start : Upcall) (c : Channel)
      → IsHeld r n c
      → IsHeld (r + 1) (n + 1) (fire_on_start system filters start c)
  unfolding fire_on_start
  fire_on_start-IsHeld system start c h =
      let (refs, b) = register_handle-IsHeld (r + 1) n system (retain c) (retain-IsHeld r n c h) in
      let c' = register_handle system (retain c) in
      holding.in_bound_held (r + 1) (n + 1) start (record c' { loop = add_active c'.loop })
        (refs, add_active-Balanced n c'.loop b)

  -- Its end gives both back.
  pub fire_on_close-IsHeld :
      (c : Channel) → IsHeld (r + 1) (n + 1) c → IsHeld r n (fire_on_close filters c)
  unfolding fire_on_close fire_on_error
  fire_on_close-IsHeld c h =
      let told : Channel =
        if c.error_bit
        then record c { is_open = false }
        else fire_on_error filters user_abort (record c { is_open = false; error_bit = true }) in
      let (refs, b) = holding.in_bound_held (r + 1) (n + 1) on_closed told (
        if-IsHeld (r + 1) (n + 1) c.error_bit (record c { is_open = false })
          (fire_on_error filters user_abort (record c { is_open = false; error_bit = true })) h
          (aborted_held c h)) in
      let closed = filters.in_bound on_closed told in
      release-IsHeld r n (record closed { loop = remove_active closed.loop })
        (refs, remove_active-Balanced n closed.loop b)
    where
      aborted_held :
          (k : Channel)
          → IsHeld (r + 1) (n + 1) k
          → IsHeld
              (r + 1)
              (n + 1)
              (fire_on_error filters user_abort (record k { is_open = false; error_bit = true }))
      aborted_held k h' =
          holding.in_bound_held (r + 1) (n + 1) (on_error user_abort)
            (record k { is_open = false; error_bit = true }) h'
