-- ===== src/TaskQueue/Order.antt =====
-- Operations are called one at a time, in the order in which they were handed in, and none is lost.
use mathlib.Core.List.{append_assoc, append-nil}
use deprecated_tdk.Prelude.{
  ℕ, ◌≡◌, ◌∙◌, refl, sym, ap, true, false, none, some, List, [], ◌∷◌, ◌++◌, arith,
}
use deprecated_tdk.Util.ListQueue.{Next, add_tail, pop_front, is_empty}
use deprecated_tdk.Util.ListQueue.Links.{Fresh, Apart, Stands}
use deprecated_tdk.Util.ListQueue.Laws.{add_tail_lem, pop_front_lem, is_empty_lem}
use deprecated_tdk.Util.ListQueue.Blank.{Blank, add_tail-Blank, pop_front-Blank}
use deprecated_tdk.TaskQueue.{
  TaskQueue, idle, State, Event, hand_in, finish, enter, fetch, call, step, steps,
}

-- The operations that were handed in.
abbrev handed_in : List Event → List ℕ
handed_in [] = []
handed_in (hand_in op ∷ events) = op ∷ handed_in events
handed_in (finish ∷ events) = handed_in events

abbrev pub behind : List ℕ → List ℕ
behind [] = []
behind (op ∷ ops) = ops

-- No operation is handed in while it waits; `ops` are the one that runs and those that wait.
abbrev IsClean : List Event → List ℕ → Type 0
IsClean [] ops = Unit {0}
IsClean (hand_in op ∷ events) ops = Apart (behind ops) (op ∷ []) × IsClean events (ops ++ (op ∷ []))
IsClean (finish ∷ events) ops = IsClean events (behind ops)

-- With no operation no thread is in the loop; otherwise one thread calls the first operation, and
-- the queue in memory stands for the others. All other nodes point to none.
abbrev pub IsServed : State → List ℕ → Type 0
IsServed s [] =
    (s.queue.running ≡ none) × (s.inside ≡ 0) × Stands s.next s.queue.op_queue [] × Blank s.next []
IsServed s (op ∷ waiting) =
    (s.queue.running ≡ some op)
    × (s.inside ≡ 1)
    × Stands s.next s.queue.op_queue waiting
    × Blank s.next waiting

-- The first of the operations, if there is one.
abbrev next_call : List ℕ → List ℕ
next_call [] = []
next_call (op ∷ ops) = op ∷ []

-- What the methods do in their cases.
module _ (next : Next) (q : TaskQueue) where
  enter-none :
      (op : ℕ) → q.running ≡ none → enter op next q ≡ (true, next, record q { running = some op })
  unfolding enter
  enter-none op e = simp (enter, e) refl

  enter-some :
      (op o : ℕ)
      → q.running ≡ some o
      → let (next', op_queue) = add_tail op next q.op_queue in
        enter op next q ≡ (false, next', record q { op_queue = op_queue })
  unfolding enter
  enter-some op o e = simp (enter, e) refl

  fetch-none :
      is_empty q.op_queue ≡ true → fetch next q ≡ (false, next, record q { running = none })
  unfolding fetch
  fetch-none e = rw e refl

  fetch-some :
      is_empty q.op_queue ≡ false
      → let (next', op_queue) = pop_front next q.op_queue in
        fetch next q ≡ (true, next', record { running = q.op_queue.head; op_queue = op_queue })
  unfolding fetch
  fetch-some e = rw e refl

Apart-Fresh : (xs : List ℕ) (x : ℕ) → Apart xs (x ∷ []) → Fresh x xs
Apart-Fresh [] x apart = tt
Apart-Fresh (y ∷ xs) x apart = (λ e. apart.0.0 (sym e), Apart-Fresh xs x apart.1)

hand_in-IsServed :
    (op : ℕ) (s : State) (ops : List ℕ)
    → IsServed s ops
    → Apart (behind ops) (op ∷ [])
    → let s' = step (hand_in op) s in IsServed s' (ops ++ (op ∷ [])) × (s'.called ≡ s.called)
unfolding step
hand_in-IsServed op s [] (runs, inside, stands, blank) apart =
    rw (enter-none s.next s.queue op runs) ((refl, omega (arith, inside), stands, blank), refl)
hand_in-IsServed op s (o ∷ waiting) (runs, inside, stands, blank) apart =
    let here = blank op (Apart-Fresh waiting op apart) in
    rw (enter-some s.next s.queue op o runs) (
      (
        runs,
        inside,
        add_tail_lem op s.next s.queue.op_queue waiting stands apart here,
        add_tail-Blank op s.next s.queue.op_queue waiting stands blank,
      ),
      refl,
    )

finish-IsServed :
    (s : State) (ops : List ℕ)
    → IsServed s ops
    → let s' = step finish s in
      IsServed s' (behind ops) × (s'.called ++ behind ops ≡ s.called ++ ops)
unfolding step call
finish-IsServed s [] (runs, inside, stands, blank) = rw inside ((runs, refl, stands, blank), refl)
finish-IsServed s (op ∷ []) (runs, inside, stands, blank) =
    let empty = is_empty_lem s.next s.queue.op_queue [] stands in
    rw (inside, fetch-none s.next s.queue empty, runs)
      ((refl, refl, stands, blank), append_assoc s.called (op ∷ []) [])
finish-IsServed s (op ∷ o ∷ waiting) (runs, inside, stands, blank) =
    let filled : is_empty s.queue.op_queue ≡ false =
      is_empty_lem s.next s.queue.op_queue (o ∷ waiting) stands ∙ (ground arith) in
    rw (inside, fetch-some s.next s.queue filled, runs)
      (
        (
          stands.head,
          refl,
          (pop_front_lem s.next s.queue.op_queue o waiting stands).0,
          pop_front-Blank s.next s.queue.op_queue o waiting stands blank,
        ),
        append_assoc s.called (op ∷ []) (o ∷ waiting),
      )

step_lem :
    (event : Event) (events : List Event) (s : State) (ops : List ℕ)
    → IsServed s ops
    → IsClean (event ∷ events) ops
    → let s' = step event s in
      (ops' : List ℕ) × IsServed s' ops'
      × IsClean events ops'
      × (s'.called ++ (ops' ++ handed_in events) ≡ s.called ++ (ops ++ handed_in (event ∷ events)))
step_lem (hand_in op) events s ops served clean =
    let (served', called) = hand_in-IsServed op s ops served clean.0 in
    (
      ops ++ (op ∷ []),
      served',
      clean.1,
      ap (λ t. t ++ ((ops ++ (op ∷ [])) ++ handed_in events)) called
          ∙ ap (λ t. s.called ++ t) (append_assoc ops (op ∷ []) (handed_in events)),
    )
step_lem finish events s ops served clean =
    let (served', called) = finish-IsServed s ops served in
    let s' = step finish s in
    (
      behind ops,
      served',
      clean,
      sym (append_assoc s'.called (behind ops) (handed_in events))
          ∙ ap (λ t. t ++ handed_in events) called
          ∙ append_assoc s.called ops (handed_in events),
    )

steps_from :
    (events : List Event) (s : State) (ops : List ℕ)
    → IsServed s ops
    → IsClean events ops
    → let s' = steps events s in
      (ops' : List ℕ) × IsServed s' ops'
      × (s'.called ++ ops' ≡ s.called ++ (ops ++ handed_in events))
unfolding steps
steps_from [] s ops served clean = (ops, served, ap (λ t. s.called ++ t) (sym (append-nil ops)))
steps_from (event ∷ events) s ops served clean =
    let (now, served', clean', once) = step_lem event events s ops served clean in
    let (after, served'', more) = steps_from events (step event s) now served' clean' in
    (after, served'', more ∙ once)

-- The memory before the first operation.
abbrev pub started : Next → State
started next = record { next = next; queue = idle; inside = 0; called = [] }

-- After any events in which no operation is handed in while it waits, the called operations, the
-- running one and those that wait in the list in memory are, in this order, those that were handed
-- in: none is lost or called twice. One thread is in the loop while there is an operation to call,
-- and none otherwise. At the start no node points to another.
pub steps_lem :
    (events : List Event) (next : Next)
    → Blank next []
    → IsClean events []
    → let s = steps events (started next) in
      (ops : List ℕ) × IsServed s ops × (s.called ++ ops ≡ handed_in events)
steps_lem events next blank clean =
    steps_from events (started next) []
      (refl, refl, record { head = refl; tail = refl; linked = tt }, blank) clean
