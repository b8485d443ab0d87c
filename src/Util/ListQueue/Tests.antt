-- ===== src/Util/ListQueue/Tests.antt =====
-- Two queues in the same memory.
use deprecated_tdk.Prelude.{ℕ, ◌≡◌, ◌≢◌, refl, none, some, [], ◌∷◌, ◌==◌, if◌then◌else◌, arith}
use deprecated_tdk.Util.ListQueue.{Next, Queue, add_list}
use deprecated_tdk.Util.ListQueue.Links.{Stands}
use deprecated_tdk.Util.ListQueue.Laws.{add_list_lem}

-- 1 → 2 → 3, and 4 → 5
abbrev next : Next
next p = if p == 1 then some 2 else if p == 2 then some 3 else if p == 4 then some 5 else none

abbrev three : Queue
three = record { head = some 1; tail = some 3 }

abbrev two : Queue
two = record { head = some 4; tail = some 5 }

three-Stands : Stands next three (1 ∷ 2 ∷ 3 ∷ [])
three-Stands = record {
  head = refl;
  tail = refl;
  linked = (refl, (omega arith, (omega arith, tt)), (refl, (omega arith, tt), refl));
}

two-Stands : Stands next two (4 ∷ 5 ∷ [])
two-Stands = record { head = refl; tail = refl; linked = (refl, (omega arith, tt), refl) }

add_list_lem_example :
    let (next', q', list') = add_list next three two in
    Stands next' q' (1 ∷ 2 ∷ 3 ∷ 4 ∷ 5 ∷ [])
    × Stands next' list' []
    × ((p : ℕ) → three.tail ≢ some p → next' p ≡ next p)
add_list_lem_example =
    add_list_lem next three two (1 ∷ 2 ∷ 3 ∷ []) (4 ∷ 5 ∷ []) three-Stands two-Stands (
      (omega arith, (omega arith, tt)),
      ((omega arith, (omega arith, tt)), ((omega arith, (omega arith, tt)), tt)),
    )
