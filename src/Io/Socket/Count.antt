-- ===== src/Io/Socket/Count.antt =====
-- A socket keeps its loop alive: one active handle for each task that it has not called yet.
use mathlib.Core.Path.{subst}
use mathlib.Core.Bool.{not}
use deprecated_tdk.Prelude.{
  ℕ, zero, suc, ◌+◌, ◌≡◌, refl, ap, true, Option, none, some, List, [], ◌∷◌, length, length-append,
  arith,
}
use deprecated_tdk.EventLoop.Loop.{object, Loop}
use deprecated_tdk.EventLoop.Loop.Active.{
  Balanced, add_active-Balanced, remove_active-Balanced, execute-Balanced,
}
use deprecated_tdk.Io.Adapter.{remain_buffers}
use deprecated_tdk.Io.Task.{Error, invalid_call, platform, user_abort, IoTask, set_error}
use deprecated_tdk.Io.System.{System, Answer, transferred, would_block, failed, retry}
use deprecated_tdk.Io.Socket.{
  Posted, finish, task_of, Socket, is_empty, post, retain_loop, release_loop, add_complete,
  execute_task, add_read, add_write, Outcome, completed, pending, broken, register_events,
  read_impl, sent, called, add_io_bytes, try_write, keep_writing, write_over, write_impl, abort,
  handle_error, run_all, close_impl, write_try_count,
}

abbrev pub queued : Option (List IoTask) → ℕ
queued none = 0
queued (some q) = length q

abbrev pub waiting : Socket → ℕ
waiting s = length s.reads + length s.writes + queued s.complete

-- `n` counts the other handles.
abbrev pub IsCounted : ℕ → Socket → Type 0
IsCounted n s = Balanced (n + waiting s) s.loop

counted_again : (n m : ℕ) (l : Loop) → n ≡ m → Balanced n l → Balanced m l
counted_again n m l e b = omega (arith, e, b)

pub post-IsCounted : (n : ℕ) (p : Posted) (s : Socket) → IsCounted n s → IsCounted n (post p s)
unfolding post
post-IsCounted n p s b = execute-Balanced (n + waiting s) (object (task_of p).address) s.loop b

-- One more handle, for a task that was not counted.
retain_loop-IsCounted : (n : ℕ) (s : Socket) → IsCounted n s → IsCounted (n + 1) (retain_loop s)
retain_loop-IsCounted n s b =
    counted_again (n + waiting s + 1) (n + 1 + waiting s) (retain_loop s).loop (omega arith)
      (add_active-Balanced (n + waiting s) s.loop b)

pub release_loop-IsCounted :
    (n : ℕ) (s : Socket) → IsCounted (n + 1) s → IsCounted n (release_loop s)
release_loop-IsCounted n s b =
    remove_active-Balanced (n + waiting s) s.loop
      (counted_again (n + 1 + waiting s) (n + waiting s + 1) s.loop (omega arith) b)

pub execute_task-IsCounted :
    (n : ℕ) (t : IoTask) (s : Socket) → IsCounted n s → IsCounted n (execute_task t s)
unfolding execute_task add_complete
execute_task-IsCounted n t s b = go s.complete refl
  where
    go : (c : Option (List IoTask)) → s.complete ≡ c → IsCounted n (execute_task t s)
    go none e =
        rw e (
          post-IsCounted n (finish t) (record s { complete = none })
            (omega (arith, b, ap queued e)))
    go (some q) e =
        rw e (omega (arith, retain_loop-IsCounted n s b, ap queued e, length-append q (t ∷ [])))

add_read-IsCounted :
    (n : ℕ) (rt : IoTask) (s : Socket) → IsCounted n s → IsCounted n (retain_loop (add_read rt s))
add_read-IsCounted n rt s b =
    omega (arith, retain_loop-IsCounted n s b, length-append s.reads (rt ∷ []))

add_write-IsCounted :
    (n : ℕ) (wt : IoTask) (s : Socket) → IsCounted n s → IsCounted n (retain_loop (add_write wt s))
add_write-IsCounted n wt s b =
    omega (arith, retain_loop-IsCounted n s b, length-append s.writes (wt ∷ []))

abbrev pub errno_of : Option ℕ → ℕ
errno_of none = 0
errno_of (some e) = e

abbrev pub amount : Answer → ℕ
amount (transferred n) = n
amount would_block = 0
amount (failed e) = 0

module _ (system : System) where
  -- `read_impl` counts the read on every branch: it waits, it is complete or it is posted.
  read_impl-IsCounted :
      (n : ℕ) (rt : IoTask) (s : Socket) → IsCounted n s → IsCounted n (read_impl system rt s)
  unfolding read_impl register_events
  read_impl-IsCounted n rt s b =
      let s' = record s {
        wants_in = true;
        wants_out = not (is_empty s.writes);
        calls = s.calls + 1;
      } in
      ground (
        arith,
        execute_task-IsCounted n (set_error invalid_call rt) s b,
        add_read-IsCounted n rt s b,
        add_read-IsCounted n rt s' b,
        execute_task-IsCounted n (set_error (platform (errno_of (system.register s.calls))) rt) s'
            b,
      )

  pub try_write-IsCounted :
      (n tries : ℕ) (wt : IoTask) (s : Socket)
      → IsCounted n s
      → IsCounted n (try_write system tries wt s).2
  unfolding try_write sent called
  try_write-IsCounted n zero wt s b = b
  try_write-IsCounted n (suc tries) wt s b =
      let k = amount (retry (system.writev s.calls (remain_buffers wt.io_bytes wt.buffers))) in
      ground (arith, try_write-IsCounted n tries (add_io_bytes k wt) (sent system k wt s) b)

  keep_writing-IsCounted :
      (n : ℕ) (wt : IoTask) (s : Socket) → IsCounted n s → IsCounted n (keep_writing system wt s)
  unfolding keep_writing register_events
  keep_writing-IsCounted n wt s b =
      let s' = record s {
        wants_in = not (is_empty s.reads);
        wants_out = true;
        calls = s.calls + 1;
      } in
      ground (
        arith,
        add_write-IsCounted n wt s b,
        add_write-IsCounted n wt s' b,
        post-IsCounted n (finish (set_error (platform (errno_of (system.register s.calls))) wt)) s'
            b,
      )

  write_over-IsCounted :
      (n : ℕ) (r : Outcome × IoTask × Socket) → IsCounted n r.2 → IsCounted n (write_over system r)
  unfolding write_over
  write_over-IsCounted n (completed, wt, s) b = execute_task-IsCounted n wt s b
  write_over-IsCounted n (broken ec, wt, s) b = execute_task-IsCounted n (set_error ec wt) s b
  write_over-IsCounted n (pending, wt, s) b = keep_writing-IsCounted n wt s b

  -- `write_impl` counts the write if no other write waits.
  write_impl-IsCounted :
      (n : ℕ) (wt : IoTask) (s : Socket)
      → s.writes ≡ []
      → IsCounted n s
      → IsCounted n (write_impl system wt s)
  unfolding write_impl
  write_impl-IsCounted n wt s first b = ground (
    arith,
    execute_task-IsCounted n (set_error invalid_call wt) s b,
    write_over-IsCounted n (try_write system write_try_count wt s)
        (try_write-IsCounted n write_try_count wt s b),
  )

  -- Behind another write of an open socket it is put into the queue and not counted: the loop has
  -- one handle too few for what waits.
  pub write_impl-uncounted :
      (n : ℕ) (wt front : IoTask) (rest : List IoTask) (s : Socket)
      → s.is_open ≡ true
      → s.writes ≡ front ∷ rest
      → IsCounted n s
      → ((write_impl system wt s).loop ≡ s.loop) × (¬ IsCounted n (write_impl system wt s))
  unfolding write_impl
  write_impl-uncounted n wt front rest s up behind b =
      let eq : write_impl system wt s ≡ add_write wt s = simp (write_impl, up, behind) refl in
      (
        ap (λ t. t.loop) eq,
        λ counted.
            omega (arith, b, subst (IsCounted n) eq counted, length-append s.writes (wt ∷ [])),
      )

pub length-abort : (ec : Error) (ts : List IoTask) → length (abort ec ts) ≡ length ts
unfolding abort
length-abort ec [] = refl
length-abort ec (t ∷ ts) = omega (arith, length-abort ec ts)

pub handle_error-IsCounted :
    (n : ℕ) (ec : Error) (s : Socket)
    → IsCounted n s
    → let (queue, s') = handle_error ec s in IsCounted (n + length queue) s'
unfolding handle_error
handle_error-IsCounted n ec s b = omega (
  arith,
  b,
  length-append (abort ec s.reads) (abort ec s.writes),
  length-abort ec s.reads,
  length-abort ec s.writes,
)

-- What the call of a task does keeps the count.
abbrev pub IsCounting : (IoTask → Socket → Socket) → Type 0
IsCounting handler = (n : ℕ) (t : IoTask) (s : Socket) → IsCounted n s → IsCounted n (handler t s)

module _ (handler : IoTask → Socket → Socket) (counting : IsCounting handler) where
  pub run_all-IsCounted :
      (n : ℕ) (ts : List IoTask) (s : Socket)
      → IsCounted (n + length ts) s
      → IsCounted n (run_all handler ts s)
  unfolding run_all
  run_all-IsCounted n [] s b =
      counted_again (n + 0 + waiting s) (n + waiting s) s.loop (omega arith) b
  run_all-IsCounted n (t ∷ ts) s b = run_all-IsCounted n ts (handler t (release_loop s)) (
      counting (n + length ts) t (release_loop s) (
        release_loop-IsCounted (n + length ts) s (
          counted_again (n + suc (length ts) + waiting s) (n + length ts + 1 + waiting s) s.loop
            (omega arith) b)))

  -- `close_impl` calls every task that waited and gives its handle back.
  close_impl-IsCounted :
      (n : ℕ) (ct : IoTask) (s : Socket) → IsCounted n s → IsCounted n (close_impl handler ct s)
  unfolding close_impl
  close_impl-IsCounted n ct s b =
      let (queue, s') = handle_error user_abort s in
      counting n ct (run_all handler queue s')
        (run_all-IsCounted n queue s' (handle_error-IsCounted n user_abort s b))
