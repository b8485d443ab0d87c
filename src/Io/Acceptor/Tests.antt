-- ===== src/Io/Acceptor/Tests.antt =====
-- An acceptor with three connections that wait: 4 is not welcome, the builder has an error for 6.
use deprecated_tdk.Prelude.{
  ℕ, ◌+◌, ◌-◌, ◌%◌, ◌^◌, ◌≡◌, refl, Bool, true, [], ◌∷◌, ◌==◌, length, if◌then◌else◌, arith,
}
use mathlib.Core.Bool.{not}
use deprecated_tdk.EventLoop.Loop.{object}
use deprecated_tdk.EventLoop.Loop.Active.{Balanced}
use deprecated_tdk.Io.Result.{returned}
use deprecated_tdk.Io.System.{Reply, answered, interrupted, transferred, would_block, retry}
use deprecated_tdk.Io.Acceptor.{Acceptor, close, handle_event}
use deprecated_tdk.Io.Acceptor.Events.{Gives, handle_event_lem, handle_event-uncounts}

abbrev accept : ℕ → Reply
accept k =
    if k == 0
    then answered (transferred 4)
    else if k == 1
    then interrupted (answered (transferred 5))
    else if k == 2
    then answered (transferred 6)
    else answered would_block

abbrev condition : ℕ → Bool
condition fd = not (fd == 4)

abbrev build : ℕ → Bool
build fd = fd == 6

abbrev acceptor : Acceptor
acceptor = record {
  loop = record { active = 1; timers = []; tasks = [] };
  is_open = true;
  started = [];
  closed = [];
  calls = 0;
}

three-Gives : Gives accept 0 (4 ∷ 5 ∷ 6 ∷ [])
unfolding retry
three-Gives = (refl, (refl, (refl, tt)))

handle_event_lem_example :
    (a' : Acceptor) × (handle_event accept condition build 4 true acceptor ≡ returned a')
    × ((a'.started ≡ 5 ∷ [])
        × (a'.loop.tasks ≡ object 5 ∷ [])
        × (a'.closed ≡ 4 ∷ 6 ∷ [])
        × (a'.is_open ≡ true)
        × Balanced 0 a'.loop)
handle_event_lem_example =
    handle_event_lem accept condition build 0 4 acceptor (4 ∷ 5 ∷ 6 ∷ []) three-Gives (omega arith)
      refl

handle_event-uncounts_example :
    (a' : Acceptor) × (handle_event accept condition build 4 true acceptor ≡ returned a')
    × (a'.is_open ≡ true)
    × Balanced 0 a'.loop
    × ((close true a').loop.active
        ≡ (2 ^ 32 - 1 + length a'.loop.timers + length a'.loop.tasks) % 2 ^ 32)
handle_event-uncounts_example =
    handle_event-uncounts accept condition build 4 acceptor (4 ∷ 5 ∷ 6 ∷ []) three-Gives
      (omega arith) refl refl
