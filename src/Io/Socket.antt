-- ===== src/Io/Socket.antt =====
-- src/tdk/io/ip/tcp/socket/socket.cpp: the state of a socket and the requests of its users. The
-- queues hold the task objects by value, each object is in one of them. The loop is that of
-- EventLoop/Loop; `posted` are the tasks that were handed to it, with what they will do.
pub mod Count
pub mod Sent
use mathlib.Core.Option
use mathlib.Core.Bool.{not}
use deprecated_tdk.Prelude.{
  ℕ, zero, suc, ◌+◌, ◌%◌, ◌^◌, Bool, true, false, ◌&&◌, Option, none, some, List, [], ◌∷◌, ◌++◌,
  ◌==◌, if◌then◌else◌, take,
}
use deprecated_tdk.EventLoop.Loop.{object, Loop, add_active, remove_active, execute}
use deprecated_tdk.Io.Adapter.{BufferAdapter, size, remain_buffers, covered}
use deprecated_tdk.Io.Task.{Error, no_error, invalid_call, user_abort, platform, IoTask, set_error}
use deprecated_tdk.Io.System.{System, transferred, would_block, failed, retry}

-- A posted task calls its handler, or is a socket_forward_task or the internal task of a
-- close_task.
pub data Posted : Type 0 where
  finish connecting reading writing closing : IoTask → Posted

abbrev pub task_of : Posted → IoTask
task_of (finish t) = t
task_of (connecting t) = t
task_of (reading t) = t
task_of (writing t) = t
task_of (closing t) = t

-- `is_open`: the handle is valid. `complete`: `_complete_tasks`, null outside of
-- `handle_io_event`. `wants_in`, `wants_out`: the events of `_socket_task` besides EPOLLONESHOT;
-- `is_connecting`: its handler is `handle_connect_event`. `calls` counts the system calls, and
-- `wire` are the addresses of the bytes that they took.
pub record Socket : Type 0 where
  pub is_open : Bool
  pub reads : List IoTask
  pub writes : List IoTask
  pub complete : Option (List IoTask)
  pub wants_in : Bool
  pub wants_out : Bool
  pub is_connecting : Bool
  pub loop : Loop
  pub posted : List Posted
  pub calls : ℕ
  pub wire : List ℕ

abbrev pub is_empty : List IoTask → Bool
is_empty [] = true
is_empty (t ∷ ts) = false

abbrev pub is_null : Option (List IoTask) → Bool
is_null none = true
is_null (some q) = false

-- `_loop->execute( t )`
unfoldable pub post : Posted → Socket → Socket
post p s = record s {
  loop = execute (object (task_of p).address) s.loop;
  posted = s.posted ++ (p ∷ []);
}

-- `_loop->add_active()`, `_loop->remove_active()`
abbrev pub retain_loop : Socket → Socket
retain_loop s = record s { loop = add_active s.loop }

abbrev pub release_loop : Socket → Socket
release_loop s = record s { loop = remove_active s.loop }

-- `_complete_tasks->add_tail( t )`
unfoldable pub add_complete : IoTask → Socket → Socket
add_complete t s = record s { complete = Option.map (λ q. q ++ (t ∷ [])) s.complete }

-- `_execute_task( t )`
pub execute_task : IoTask → Socket → Socket
unfolding post add_complete
execute_task t s = elim s.complete [
  | none ↦ post (finish t) s
  | some q ↦ retain_loop (add_complete t s)
]

abbrev pub add_read : IoTask → Socket → Socket
add_read rt s = record s { reads = s.reads ++ (rt ∷ []) }

abbrev pub add_write : IoTask → Socket → Socket
add_write wt s = record s { writes = s.writes ++ (wt ∷ []) }

-- What is left of a write, and whether it is over.
pub data Outcome : Type 0 where
  completed pending : Outcome
  broken : Error → Outcome

abbrev pub write_try_count : ℕ
write_try_count = 4

-- `wt->io_bytes( write_before + writesize )`
unfoldable pub add_io_bytes : ℕ → IoTask → IoTask
add_io_bytes n t = record t { io_bytes = (t.io_bytes + n) % 2 ^ 32 }

-- `writed == total_write`
unfoldable pub is_written : IoTask → Bool
is_written t = t.io_bytes == size t.buffers

module _ (system : System) where
  -- `_socket_task.evt( … )` and `register_handle`
  unfoldable pub register_events : Bool → Bool → Socket → Option ℕ × Socket
  register_events i o s =
      (system.register s.calls, record s { wants_in = i; wants_out = o; calls = s.calls + 1 })

  pub read_impl : IoTask → Socket → Socket
  unfolding execute_task register_events
  read_impl rt s = elim s.is_open [
    | false ↦ execute_task (set_error invalid_call rt) s
    | true ↦ elim (is_empty s.reads && is_null s.complete) [
      | false ↦ retain_loop (add_read rt s)
      | true ↦
          let (r, s') = register_events true (not (is_empty s.writes)) s in
          elim r [
            | none ↦ retain_loop (add_read rt s')
            | some e ↦ execute_task (set_error (platform e) rt) s'
          ]
    ]
  ]

  -- `writev` takes the first bytes of what is left.
  unfoldable pub sent : ℕ → IoTask → Socket → Socket
  sent n wt s = record s {
    calls = s.calls + 1;
    wire = s.wire ++ take n (covered (remain_buffers wt.io_bytes wt.buffers).buffers);
  }

  unfoldable pub called : Socket → Socket
  called s = record s { calls = s.calls + 1 }

  -- The loop of `write_impl`, on the number of tries that are left.
  pub try_write : ℕ → IoTask → Socket → Outcome × IoTask × Socket
  unfolding sent called add_io_bytes is_written
  try_write zero wt s = (pending, wt, s)
  try_write (suc tries) wt s =
      elim (retry (system.writev s.calls (remain_buffers wt.io_bytes wt.buffers))) [
        | would_block ↦ (pending, wt, called s)
        | failed e ↦ (broken (platform e), wt, called s)
        | transferred n ↦
            let wt' = add_io_bytes n wt in
            let s' = sent n wt s in
            let rest = try_write tries wt' s' in
            if is_written wt' then (completed, wt', s') else rest
      ]

  -- The end of `write_impl`.
  pub keep_writing : IoTask → Socket → Socket
  unfolding register_events post
  keep_writing wt s = elim s.complete [
    | some q ↦ retain_loop (add_write wt s)
    | none ↦
        let (r, s') = register_events (not (is_empty s.reads)) true s in
        elim r [
          | none ↦ retain_loop (add_write wt s')
          | some e ↦ post (finish (set_error (platform e) wt)) s'
        ]
  ]

  pub write_over : Outcome × IoTask × Socket → Socket
  unfolding execute_task keep_writing
  write_over (completed, wt, s) = execute_task wt s
  write_over (broken ec, wt, s) = execute_task (set_error ec wt) s
  write_over (pending, wt, s) = keep_writing wt s

  pub write_impl : IoTask → Socket → Socket
  unfolding execute_task try_write write_over
  write_impl wt s = elim s.is_open [
    | false ↦ execute_task (set_error invalid_call wt) s
    | true ↦ elim (is_empty s.writes) [
      | false ↦ add_write wt s
      | true ↦ write_over (try_write write_try_count wt s)
    ]
  ]

  abbrev fresh : BufferAdapter → IoTask → IoTask
  fresh buf t = record t { buffers = buf; io_bytes = 0; error = no_error }

  -- `read( buf , rt )` and `write( buf , wt )`, in the thread of the loop or not.
  pub read : Bool → BufferAdapter → IoTask → Socket → Socket
  unfolding read_impl post
  read true buf rt s = read_impl (fresh buf rt) s
  read false buf rt s = post (reading (fresh buf rt)) s

  pub write : Bool → BufferAdapter → IoTask → Socket → Socket
  unfolding write_impl post
  write true buf wt s = write_impl (fresh buf wt) s
  write false buf wt s = post (writing (fresh buf wt)) s

-- `close( ct )`
pub close : IoTask → Socket → Socket
unfolding post
close ct s = post (closing ct) s

-- `handle_error`: the tasks for its queue, and the socket.
unfoldable pub abort : Error → List IoTask → List IoTask
abort ec [] = []
abort ec (t ∷ ts) = set_error ec t ∷ abort ec ts

unfoldable pub handle_error : Error → Socket → List IoTask × Socket
unfolding abort
handle_error ec s =
    (abort ec s.reads ++ abort ec s.writes, record s { is_open = false; reads = []; writes = [] })

-- The tasks of a queue that only this call knows are called one after another; `handler` is what
-- the call of a task does to the socket.
unfoldable pub run_all : (IoTask → Socket → Socket) → List IoTask → Socket → Socket
run_all handler [] s = s
run_all handler (t ∷ ts) s = run_all handler ts (handler t (release_loop s))

pub close_impl : (IoTask → Socket → Socket) → IoTask → Socket → Socket
unfolding handle_error run_all
close_impl handler ct s =
    let (queue, s') = handle_error user_abort s in handler ct (run_all handler queue s')
