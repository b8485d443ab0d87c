-- ===== src/TaskQueue.antt =====
-- src/tdk/task/queue.cpp: operations that are run one after another, by the first thread that finds
-- the queue idle. The lock makes `execute` up to the call, and `fetch`, one step each. An operation
-- is its address; those that wait are nodes of a `slist_queue`, and `next` is the memory of their
-- pointers, which a method returns with the queue.
pub mod Order
mod Tests
use deprecated_tdk.Prelude.{
  ℕ, zero, suc, ◌+◌, Bool, true, false, Option, none, some, List, [], ◌∷◌, ◌++◌, if◌then◌else◌,
}
use deprecated_tdk.Util.ListQueue.{Next, Queue, add_tail, pop_front, is_empty}

-- `_running` and `_op_queue`
pub record TaskQueue : Type 0 where
  pub running : Option ℕ
  pub op_queue : Queue

abbrev pub idle : TaskQueue
idle = record { running = none; op_queue = record { head = none; tail = none } }

-- `execute` under the lock: whether this thread goes on to call the operation.
pub enter : ℕ → Next → TaskQueue → Bool × Next × TaskQueue
enter op next q = elim q.running [
  | none ↦ (true, next, record q { running = some op })
  | some running ↦
      let (next', op_queue) = add_tail op next q.op_queue in
      (false, next', record q { op_queue = op_queue })
]

-- `fetch`: whether there is another operation to call.
pub fetch : Next → TaskQueue → Bool × Next × TaskQueue
fetch next q =
    let (next', op_queue) = pop_front next q.op_queue in
    if is_empty q.op_queue
    then (false, next, record q { running = none })
    else (true, next', record { running = q.op_queue.head; op_queue = op_queue })

-- The memory, the queue, the threads that are in the loop of `execute`, and the operations that
-- were called, in their order.
pub record State : Type 0 where
  pub next : Next
  pub queue : TaskQueue
  pub inside : ℕ
  pub called : List ℕ

-- `(*_running)()`
pub call : Option ℕ → List ℕ → List ℕ
call none called = called
call (some op) called = called ++ (op ∷ [])

-- What the threads do, in the order of the lock: an operation is handed in, or a thread in the loop
-- has called the running one and fetches.
pub data Event : Type 0 where
  hand_in : ℕ → Event
  finish : Event

-- A thread is in the loop from an `enter` to a `fetch` that say so.
pub step : Event → State → State
unfolding call
step (hand_in op) s =
    let (enters, next, q) = enter op s.next s.queue in
    record s { next = next; queue = q; inside = if enters then s.inside + 1 else s.inside }
step finish s = elim s.inside [
  | zero ↦ s
  | suc others ↦
      let (more, next, q) = fetch s.next s.queue in
      record {
        next = next;
        queue = q;
        inside = if more then s.inside else others;
        called = call s.queue.running s.called;
      }
]

pub steps : List Event → State → State
steps [] s = s
steps (event ∷ events) s = steps events (step event s)
