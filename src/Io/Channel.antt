-- ===== src/Io/Channel.antt =====
-- src/tdk/io/ip/tcp/channel_epoll.cpp: the state of a channel, and what its users and its pipeline
-- ask of it. A message is the unread part of a memory block: an address and a length.
pub mod Held
use mathlib.Core.Bool.{not}
use deprecated_tdk.Prelude.{
  ℕ, ◌+◌, ◌-◌, ◌%◌, ◌^◌, Bool, true, false, ◌||◌, Option, none, some, List, [], ◌∷◌, ◌++◌, ◌==◌,
  if◌then◌else◌,
}
use deprecated_tdk.EventLoop.Loop.{object, Loop, add_active, remove_active, execute}
use deprecated_tdk.Io.Adapter.{Iovec}
use deprecated_tdk.Io.Task.{Error, user_abort, epoll}
use deprecated_tdk.Io.System.{System}

-- The tasks that a channel posts. Each of them holds a reference.
pub data Posted : Type 0 where
  closing registering sending : Posted
  writing : Iovec → Posted
  propagating : Error → Posted

-- `error_bit`, `close_bit` and `read_pending_bit` of `_state`; its other bits are never read.
-- `reg_events` is 1 for EPOLLIN and 4 for EPOLLOUT. `send_error` and `send_bytes` are those of
-- `_on_send`. `calls` counts the system calls, `wire` are the addresses of the bytes they took.
pub record Channel : Type 0 where
  pub error_bit : Bool
  pub close_bit : Bool
  pub read_pending_bit : Bool
  pub is_open : Bool
  pub send_queue : List Iovec
  pub send_error : Error
  pub send_bytes : ℕ
  pub reg_events : ℕ
  pub ref_count : ℕ
  pub is_deleted : Bool
  pub loop : Loop
  pub posted : List Posted
  pub calls : ℕ
  pub wire : List ℕ

-- What the channel tells the first filter of its pipeline.
pub data Upcall : Type 0 where
  on_connected on_accepted on_closed : Upcall
  on_read : ℕ → Upcall
  on_write : ℕ → Bool → Upcall
  on_error : Error → Upcall

-- The calls of the filters: `in_bound_filter()` and `out_bound_filter()->do_write`. They are code
-- of the user.
pub record Filters : Type 0 where
  pub in_bound : Upcall → Channel → Channel
  pub do_write : Iovec → Channel → Channel

unfoldable pub retain : Channel → Channel
retain c = record c { ref_count = (c.ref_count + 1) % 2 ^ 32 }

unfoldable pub release : Channel → Channel
release c =
    let count = (c.ref_count + (2 ^ 32 - 1)) % 2 ^ 32 in
    record c { ref_count = count; is_deleted = c.is_deleted || count == 0 }

-- `_loop.execute( … )` of a task that holds a reference.
unfoldable pub post : Posted → Channel → Channel
unfolding retain
post p c =
    let c' = retain c in
    record c' { loop = execute (object 0) c'.loop; posted = c'.posted ++ (p ∷ []) }

-- `is_bits_on( k_error_bit | k_close_bit )`
abbrev pub is_over : Channel → Bool
is_over c = c.error_bit || c.close_bit

unfoldable pub close : Channel → Channel
unfolding post
close c = if c.close_bit then c else post closing (record c { close_bit = true })

pub write : Iovec → Channel → Channel
unfolding post
write msg c = post (writing msg) c

pub pending_read : Channel → Channel
pending_read c = record c { read_pending_bit = true }

-- `_state.fetch_xor( ~k_read_pending_bit )` changes every bit but the one of pending reads.
unfoldable pub continue_read : Channel → Channel
unfolding post
continue_read c =
    let c' = record c { error_bit = not c.error_bit; close_bit = not c.close_bit } in
    if c.read_pending_bit then post registering c' else c'

-- `error_propagation`
unfoldable pub propagate_later : Error → Channel → Channel
unfolding post
propagate_later ec c =
    if c.error_bit then c else post (propagating ec) (record c { error_bit = true })

abbrev pub no_messages : List Iovec → Bool
no_messages [] = true
no_messages (m ∷ ms) = false

-- `do_write`, the end of the pipeline.
pub do_write : Iovec → Channel → Channel
unfolding post
do_write msg c =
    let c' = record c { send_queue = c.send_queue ++ (msg ∷ []) } in
    if no_messages c.send_queue then post sending c' else c'

abbrev pub events_of : Channel → ℕ
events_of c = (if c.read_pending_bit then 0 else 1) + (if no_messages c.send_queue then 0 else 4)

-- The end of `_register_handle`: what `register_handle` of the loop gave.
pub registered : Option ℕ → Channel → Channel
unfolding propagate_later
registered none c = c
registered (some e) c = propagate_later (epoll e) c

unfoldable pub register_handle : System → Channel → Channel
unfolding registered
register_handle system c =
    let evt = events_of c in
    let c' =
      registered (system.register c.calls) (record c { reg_events = evt; calls = c.calls + 1 }) in
    if is_over c then c else if c.reg_events == evt then c else c'

module _ (filters : Filters) where
  unfoldable pub fire_on_error : Error → Channel → Channel
  fire_on_error ec c = filters.in_bound (on_error ec) (record c { is_open = false })

  unfoldable pub fire_on_close : Channel → Channel
  unfolding fire_on_error release
  fire_on_close c =
      let aborted = fire_on_error user_abort (record c { is_open = false; error_bit = true }) in
      let told = if c.error_bit then record c { is_open = false } else aborted in
      let closed = filters.in_bound on_closed told in
      release (record closed { loop = remove_active closed.loop })

  -- `_error_propagation`
  unfoldable pub propagate : Error → Channel → Channel
  unfolding fire_on_error
  propagate ec c = if c.error_bit then c else fire_on_error ec (record c { error_bit = true })

  unfoldable pub fire_do_write : Iovec → Channel → Channel
  fire_do_write msg c = if is_over c then c else filters.do_write msg c

module _ (system : System) (filters : Filters) where
  -- `fire_on_connected` and `fire_on_accepted`
  pub fire_on_start : Upcall → Channel → Channel
  unfolding retain register_handle
  fire_on_start start c =
      let c' = register_handle system (retain c) in
      filters.in_bound start (record c' { loop = add_active c'.loop })
