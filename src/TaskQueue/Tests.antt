-- ===== src/TaskQueue/Tests.antt =====
-- Three operations, one of them handed in again while it runs.
use deprecated_tdk.Prelude.{ℕ, ◌≡◌, refl, none, List, [], ◌∷◌, ◌++◌, arith}
use deprecated_tdk.Util.ListQueue.{Next}
use deprecated_tdk.TaskQueue.{Event, hand_in, finish, steps}
use deprecated_tdk.TaskQueue.Order.{IsServed, started, steps_lem}

abbrev next : Next
next p = none

abbrev events : List Event
events = hand_in 7 ∷ hand_in 8 ∷ hand_in 9 ∷ finish ∷ hand_in 8 ∷ finish ∷ []

steps_lem_example :
    let s = steps events (started next) in
    (ops : List ℕ) × IsServed s ops × (s.called ++ ops ≡ 7 ∷ 8 ∷ 9 ∷ 8 ∷ [])
steps_lem_example =
    steps_lem events next (λ p f. refl)
      (tt, (tt, (((omega arith, tt), tt), (((omega arith, tt), tt), tt))))
