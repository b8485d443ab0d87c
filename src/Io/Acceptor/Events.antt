-- ===== src/Io/Acceptor/Events.antt =====
-- What an event of a listening socket does, and the active handle that it takes away.
use mathlib.Core.Bool.{not}
use mathlib.Core.List.{append_assoc, append-nil}
use deprecated_tdk.Prelude.{
  ℕ, zero, suc, ◌+◌, ◌-◌, ◌<◌, ◌%◌, ◌^◌, ◌≡◌, ◌∙◌, refl, sym, ap, Bool, true, ◌&&◌, List, [], ◌∷◌,
  ◌++◌, if◌then◌else◌, length, map, arith,
}
use deprecated_tdk.EventLoop.Loop.{object, add_active, remove_active, execute, subtract_active}
use deprecated_tdk.EventLoop.Loop.Active.{
  Balanced, add_active-Balanced, remove_active-Balanced, execute-Balanced,
}
use deprecated_tdk.Io.Result.{returned}
use deprecated_tdk.Io.System.{Reply, Answer, transferred, would_block, failed, retry}
use deprecated_tdk.Io.Acceptor.{
  Setup, Acceptor, open_acceptor, close, take, taken, accept_from, on_accept_handler, handle_event,
}

-- Opening counts the listening socket, if it succeeds.
open_acceptor-Balanced :
    (n : ℕ) (s : Setup) (a : Acceptor)
    → Balanced n a.loop
    → let (ok, a') = open_acceptor s a in
      (a'.is_open ≡ ok) × Balanced (n + (if ok then 1 else 0)) a'.loop
unfolding open_acceptor
open_acceptor-Balanced n s a b = ground (arith, add_active-Balanced n a.loop b)

-- The descriptors that `accept` gives, from its `k`-th call on until it gives none.
abbrev pub IsOver : Answer → Type 0
IsOver (transferred fd) = ⊥
IsOver would_block = Unit
IsOver (failed e) = Unit

abbrev pub Gives : (ℕ → Reply) → ℕ → List ℕ → Type 0
Gives accept k [] = IsOver (retry (accept k))
Gives accept k (fd ∷ fds) = (retry (accept k) ≡ transferred fd) × Gives accept (k + 1) fds

module _ (condition build : ℕ → Bool) where
  -- The connections whose channels start, and the others.
  abbrev pub welcome : List ℕ → List ℕ
  welcome [] = []
  welcome (fd ∷ fds) = if condition fd && not (build fd) then fd ∷ welcome fds else welcome fds

  abbrev rejected : List ℕ → List ℕ
  rejected [] = []
  rejected (fd ∷ fds) = if condition fd && not (build fd) then rejected fds else fd ∷ rejected fds

  welcome_cons : (fd : ℕ) (fds : List ℕ) → welcome (fd ∷ fds) ≡ welcome (fd ∷ []) ++ welcome fds
  welcome_cons fd fds = ground arith

  rejected_cons : (fd : ℕ) (fds : List ℕ) → rejected (fd ∷ fds) ≡ rejected (fd ∷ []) ++ rejected fds
  rejected_cons fd fds = ground arith

module _ (accept : ℕ → Reply) (condition build : ℕ → Bool) (n : ℕ) where
  -- Each connection of the list is closed, or the task that starts its channel is posted, in their
  -- order.
  abbrev IsAccepted : Acceptor → List ℕ → Acceptor → Type 0
  IsAccepted a fds a' =
      (a'.started ≡ a.started ++ welcome condition build fds)
      × (a'.loop.tasks ≡ a.loop.tasks ++ map object (welcome condition build fds))
      × (a'.closed ≡ a.closed ++ rejected condition build fds)
      × (a'.is_open ≡ a.is_open)
      × Balanced n a'.loop

  map-welcome :
      (fd : ℕ) (fds : List ℕ)
      → map object (welcome condition build (fd ∷ [])) ++ map object (welcome condition build fds)
        ≡ map object (welcome condition build (fd ∷ fds))
  map-welcome fd fds = ground arith

  take_lem :
      (fd : ℕ) (a : Acceptor)
      → Balanced n a.loop
      → ((take accept condition build fd a).calls ≡ a.calls + 1)
        × IsAccepted a (fd ∷ []) (take accept condition build fd a)
  unfolding take execute add_active
  take_lem fd a b = ground (
    arith,
    execute-Balanced n (object fd) a.loop b,
    append-nil a.started,
    append-nil a.closed,
    append-nil a.loop.tasks,
  )

  accept_from_lem :
      (fuel : ℕ) (a : Acceptor) (fds : List ℕ)
      → Gives accept a.calls fds
      → length fds < fuel
      → Balanced n a.loop
      → (a' : Acceptor) × (accept_from accept condition build fuel a ≡ returned a')
        × IsAccepted a fds a'
  unfolding accept_from taken
  accept_from_lem zero a fds gives enough b = absurd (omega arith)
  accept_from_lem (suc fuel) a [] gives enough b = go (retry (accept a.calls)) gives
    where
      go :
          (r : Answer)
          → IsOver r
          → (a' : Acceptor) × (taken accept condition build
                (λ k. accept_from accept condition build fuel k)
                r
                a
              ≡ returned a')
            × IsAccepted a [] a'
      go (transferred fd) over = absurd over
      go would_block over = (
        record a { calls = a.calls + 1 },
        refl,
        (
          sym (append-nil a.started),
          sym (append-nil a.loop.tasks),
          sym (append-nil a.closed),
          refl,
          b,
        ),
      )
      go (failed e) over = (
        record a { calls = a.calls + 1 },
        refl,
        (
          sym (append-nil a.started),
          sym (append-nil a.loop.tasks),
          sym (append-nil a.closed),
          refl,
          b,
        ),
      )
  accept_from_lem (suc fuel) a (fd ∷ fds) gives enough b =
      let a₁ = take accept condition build fd a in
      let (calls, (started, posted, closed, open_, b₁)) = take_lem fd a b in
      let (a', is, (started', posted', closed', open', b')) =
        accept_from_lem fuel a₁ fds (rw calls gives.1) (omega (arith, enough)) b₁ in
      (
        a',
        rw gives.0 is,
        (
          started'
              ∙ ap (λ t. t ++ welcome condition build fds) started
              ∙ append_assoc a.started (welcome condition build (fd ∷ []))
                  (welcome condition build fds)
              ∙ ap (λ t. a.started ++ t) (sym (welcome_cons condition build fd fds)),
          posted'
              ∙ ap (λ t. t ++ map object (welcome condition build fds)) posted
              ∙ append_assoc a.loop.tasks (map object (welcome condition build (fd ∷ [])))
                  (map object (welcome condition build fds))
              ∙ ap (λ t. a.loop.tasks ++ t) (map-welcome fd fds),
          closed'
              ∙ ap (λ t. t ++ rejected condition build fds) closed
              ∙ append_assoc a.closed (rejected condition build (fd ∷ []))
                  (rejected condition build fds)
              ∙ ap (λ t. a.closed ++ t) (sym (rejected_cons condition build fd fds)),
          open' ∙ open_,
          b',
        ),
      )

-- An event with EPOLLIN takes the connections that wait, in their order: each is closed, or the task
-- that starts its channel is posted to the loop, as `condition` and the builder say. With one round of fuel for each and
-- one more the handler ends. It gives an active handle back, with the socket as open as before.
pub handle_event_lem :
    (accept : ℕ → Reply) (condition build : ℕ → Bool) (n fuel : ℕ) (a : Acceptor) (fds : List ℕ)
    → Gives accept a.calls fds
    → length fds < fuel
    → Balanced (n + 1) a.loop
    → (a' : Acceptor) × (handle_event accept condition build fuel true a ≡ returned a')
      × IsAccepted accept condition build n a fds a'
unfolding handle_event on_accept_handler remove_active subtract_active
handle_event_lem accept condition build n fuel a fds gives enough b =
    let (a₁, is, (started, posted, closed, open_, b₁)) =
      accept_from_lem accept condition build (n + 1) fuel a fds gives enough b in
    (
      record a₁ { loop = remove_active a₁.loop },
      rw is refl,
      (started, posted, closed, open_, remove_active-Balanced n a₁.loop b₁),
    )

-- An acceptor that is all that its loop has to wait for: after its first event the loop has no
-- active handle for the socket, which is still open, and `close` makes the count one too small.
pub handle_event-uncounts :
    (accept : ℕ → Reply) (condition build : ℕ → Bool) (fuel : ℕ) (a : Acceptor) (fds : List ℕ)
    → Gives accept a.calls fds
    → length fds < fuel
    → a.is_open ≡ true
    → Balanced 1 a.loop
    → (a' : Acceptor) × (handle_event accept condition build fuel true a ≡ returned a')
      × (a'.is_open ≡ true)
      × Balanced 0 a'.loop
      × ((close true a').loop.active
          ≡ (2 ^ 32 - 1 + length a'.loop.timers + length a'.loop.tasks) % 2 ^ 32)
unfolding close remove_active subtract_active
handle_event-uncounts accept condition build fuel a fds gives enough opened b =
    let (a', is, (started, posted, closed, open_, b')) =
      handle_event_lem accept condition build 0 fuel a fds gives enough b in
    (a', is, open_ ∙ opened, b', rw (open_ ∙ opened) (omega (arith, b')))
