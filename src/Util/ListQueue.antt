-- ===== src/Util/ListQueue.antt =====
-- src/tdk/util/list_node.hpp: slist_queue, a list through the `_next` pointers of its nodes. A node
-- is its address; `next` is the memory of these pointers. A method returns both.
pub mod Links
pub mod Laws
pub mod Blank
mod Tests
use deprecated_tdk.Prelude.{
  ℕ, zero, suc, ◌+◌, Bool, true, false, Option, none, some, ◌==◌, if◌then◌else◌,
}

abbrev pub Next : Type 0
Next = ℕ → Option ℕ

pub record Queue : Type 0 where
  pub head : Option ℕ
  pub tail : Option ℕ

-- `node->next( n )`
abbrev pub set_next : Next → ℕ → Option ℕ → Next
set_next next node n p = if node == p then n else next p

-- The walk of the constructor from a head to its tail.
pub last_from : Next → ℕ → ℕ → ℕ
last_from next zero node = node
last_from next (suc fuel) node = elim (next node) [ none ↦ node | some n ↦ last_from next fuel n ]

pub of_head : Next → ℕ → Option ℕ → Queue
unfolding last_from
of_head next fuel none = record { head = none; tail = none }
of_head next fuel (some node) = record { head = some node; tail = some (last_from next fuel node) }

pub add_front : ℕ → Next → Queue → Next × Queue
add_front node next q = elim q.head [
  | none ↦ (next, record { head = some node; tail = some node })
  | some head ↦ (set_next next node (some head), record q { head = some node })
]

-- `_tail` is null only where `_head` is.
pub add_tail : ℕ → Next → Queue → Next × Queue
add_tail node next q = elim q.head [
  | none ↦ (next, record { head = some node; tail = some node })
  | some head ↦ elim q.tail [
    | none ↦ (next, q)
    | some tail ↦ (set_next next tail (some node), record q { tail = some node })
  ]
]

pub is_null : Option ℕ → Bool
is_null none = true
is_null (some p) = false

-- `_head == _tail`
pub same_pointer : Option ℕ → Option ℕ → Bool
same_pointer none none = true
same_pointer none (some q) = false
same_pointer (some p) none = false
same_pointer (some p) (some q) = p == q

pub pop_front : Next → Queue → Next × Queue
unfolding same_pointer
pop_front next q = elim q.head [
  | none ↦ (next, q)
  | some head ↦
      if same_pointer (some head) q.tail
      then (next, record { head = none; tail = none })
      else (set_next next head none, record q { head = next head })
]

pub is_empty : Queue → Bool
unfolding is_null
is_empty q = is_null q.head

-- `add_tail( slist_queue& list )`: the queue, and the emptied `list`.
pub add_list : Next → Queue → Queue → Next × Queue × Queue
unfolding add_tail
add_list next q list = elim list.head [
  | none ↦ (next, q, list)
  | some node ↦
      let (next', q') = add_tail node next q in
      (next', record q' { tail = list.tail }, record { head = none; tail = none })
]

-- `count()`; more rounds than there are nodes are enough.
pub count_from : Next → ℕ → Option ℕ → ℕ
count_from next zero p = 0
count_from next (suc fuel) none = 0
count_from next (suc fuel) (some p) = count_from next fuel (next p) + 1

pub count : Next → ℕ → Queue → ℕ
unfolding count_from
count next fuel q = count_from next fuel q.head
