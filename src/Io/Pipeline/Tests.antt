-- ===== src/Io/Pipeline/Tests.antt =====
-- A pipeline of three filters of channel 9, of which the first two have handlers of their own.
use deprecated_tdk.Prelude.{
  ℕ, ◌≡◌, ◌≢◌, refl, Bool, Option, none, some, List, [], ◌∷◌, All, ◌==◌, ltb, arith, if◌then◌else◌,
}
use deprecated_tdk.Io.Result.{returned}
use deprecated_tdk.Io.Pipeline.{
  Name, Filter, Memory, Pipeline, new_filter, add, find, delete_from, to_filter, fire_event,
  fire_do_write,
}
use deprecated_tdk.Io.Pipeline.Links.{Entry, Stands, Fresh, last_of}
use deprecated_tdk.Io.Pipeline.Chain.{add_lem}
use deprecated_tdk.Io.Pipeline.Walk.{IsFirst, find_lem, delete_lem}
use deprecated_tdk.Io.Pipeline.Delivery.{fire_lem}

abbrev of_name : Option ℕ → Option ℕ → Name → Filter
of_name before after name = record {
  channel = some 9;
  in_bound = after;
  out_bound = before;
  name = name;
}

-- Filters 1, 2 and 3 are in the pipeline, 4 is new.
abbrev memory : Memory
memory f =
    if f == 1
    then some (of_name none (some 2) (7 ∷ []))
    else if f == 2
    then some (of_name (some 1) (some 3) (8 ∷ []))
    else if f == 3
    then some (of_name (some 2) none (8 ∷ []))
    else if f == 4
    then some new_filter
    else none

abbrev three : List Entry
three = (1, 7 ∷ []) ∷ (2, 8 ∷ []) ∷ (3, 8 ∷ []) ∷ []

abbrev pipeline : Pipeline
pipeline = record { channel = 9; chain = record { head = some 1; tail = some 3 } }

pipeline-Stands : Stands memory pipeline three
pipeline-Stands = record {
  head = refl;
  tail = refl;
  linked = (refl, (omega arith, (omega arith, tt)), (refl, (omega arith, tt), (refl, tt, tt)));
}

abbrev own : ℕ → Bool
own f = ltb f 3

add_lem_example :
    (m' : Memory) × (p' : Pipeline) × (add (5 ∷ []) 4 memory pipeline ≡ returned (m', p'))
    × Stands m' p' ((1, 7 ∷ []) ∷ (2, 8 ∷ []) ∷ (3, 8 ∷ []) ∷ (4, 5 ∷ []) ∷ [])
    × ((g : ℕ) → 4 ≢ g → some g ≢ last_of three → m' g ≡ memory g)
add_lem_example =
    add_lem (5 ∷ []) 4 memory pipeline three none [] pipeline-Stands
      (omega arith, (omega arith, (omega arith, tt))) refl

find_lem_example :
    (r : Option ℕ) × (find (8 ∷ []) 4 memory pipeline ≡ returned r) × IsFirst (8 ∷ []) three r
find_lem_example = find_lem (8 ∷ []) 4 memory pipeline three pipeline-Stands (omega arith)

delete_lem_example :
    (m' : Memory) × (delete_from 4 (some 1) memory ≡ returned m')
    × All (λ x. m' x.0 ≡ none) three
    × ((g : ℕ) → Fresh g three → m' g ≡ memory g)
delete_lem_example = delete_lem 4 memory pipeline three pipeline-Stands (omega arith)

fire_lem_example :
    (fire_event own 3 memory pipeline ≡ returned (to_filter 1))
    × (fire_do_write own 3 memory pipeline ≡ returned (to_filter 2))
fire_lem_example =
    fire_lem own 3 memory pipeline (1, 7 ∷ []) ((2, 8 ∷ []) ∷ (3, 8 ∷ []) ∷ []) pipeline-Stands
      (omega arith)
