-- ===== src/Io/Acceptor.antt =====
-- src/tdk/io/ip/tcp/channel_acceptor.cpp on epoll: a listening socket that starts channels. The
-- channels run in the loop of the acceptor, as `channel_loop` has it.
pub mod Events
mod Tests
use mathlib.Core.Bool.{not}
use deprecated_tdk.Prelude.{
  ℕ, zero, suc, ◌+◌, Bool, true, false, ◌&&◌, List, [], ◌∷◌, ◌++◌, if◌then◌else◌,
}
use deprecated_tdk.EventLoop.Loop.{object, Loop, add_active, remove_active, execute}
use deprecated_tdk.Io.Result.{Result, spins, returned, ◌>>=◌}
use deprecated_tdk.Io.System.{Reply, Answer, transferred, would_block, failed, retry}

-- What the calls of `open` give.
pub record Setup : Type 0 where
  pub opens : Bool
  pub set_non_blocking : Bool
  pub set_reuse : Bool
  pub bind : Bool
  pub listen : Bool
  pub register_handle : Bool

-- `started` are the descriptors of the channels whose `fire_on_accepted` is posted, `closed` those
-- that were closed at once; `calls` counts the calls of `accept`.
pub record Acceptor : Type 0 where
  pub loop : Loop
  pub is_open : Bool
  pub started : List ℕ
  pub closed : List ℕ
  pub calls : ℕ

-- `return false`, with the socket closed
abbrev pub not_opened : Acceptor → Bool × Acceptor
not_opened a = (false, record a { is_open = false })

-- `open( addr , builder )`
pub open_acceptor : Setup → Acceptor → Bool × Acceptor
open_acceptor s a =
    if s.opens && s.set_non_blocking && s.set_reuse && s.bind && s.listen && s.register_handle
    then (true, record a { is_open = true; loop = add_active a.loop })
    else not_opened a

-- `close()`, in the thread of the loop or not
pub close : Bool → Acceptor → Acceptor
close true a = if a.is_open then record a { is_open = false; loop = remove_active a.loop } else a
close false a = record a { loop = execute (object 0) a.loop }

-- `accept` is the system call, by the calls before it; `condition` and `build` are code of the user:
-- whether the address behind a descriptor is welcome, and whether the builder has an error.
module _ (accept : ℕ → Reply) (condition build : ℕ → Bool) where
  -- A connection: it is closed, or its channel starts by a task.
  pub take : ℕ → Acceptor → Acceptor
  take fd a =
      let a' = record a { calls = a.calls + 1 } in
      if condition fd
      then if build fd
        then record a' { closed = a'.closed ++ (fd ∷ []) }
        else record a' { started = a'.started ++ (fd ∷ []); loop = execute (object fd) a'.loop }
      else record a' { closed = a'.closed ++ (fd ∷ []) }

  -- A round of the loop, by what `accept` gave.
  pub taken : (Acceptor → Result Acceptor) → Answer → Acceptor → Result Acceptor
  taken next (transferred fd) a = next (take fd a)
  taken next would_block a = returned (record a { calls = a.calls + 1 })
  taken next (failed e) a = returned (record a { calls = a.calls + 1 })

  -- The loop of `on_accept_handler`, with EPOLLIN.
  pub accept_from : ℕ → Acceptor → Result Acceptor
  accept_from zero a = spins
  accept_from (suc fuel) a = taken (λ k. accept_from fuel k) (retry (accept a.calls)) a

  pub on_accept_handler : ℕ → Bool → Acceptor → Result Acceptor
  on_accept_handler fuel true a = accept_from fuel a
  on_accept_handler fuel false a = returned a

  -- `_on_accept_handler( task* )`, by whether the event has EPOLLIN.
  pub handle_event : ℕ → Bool → Acceptor → Result Acceptor
  handle_event fuel readable a = on_accept_handler fuel readable a >>= λ a'.
      returned (record a' { loop = remove_active a'.loop })
