-- ===== src/Io/Connector/TriesOn.antt =====
-- How a request goes on after an attempt has failed or its time is over.
use mathlib.Core.Path.{subst}
use deprecated_tdk.Prelude.{
  ℕ, zero, suc, ◌+◌, ◌≤◌, ◌<◌, ◌≡◌, refl, ap, Bool, true, false, some, List, [], ◌∷◌, length,
  get_elem?, arith, inl, inr, ◌⊎◌,
}
use deprecated_tdk.EventLoop.Loop.{remove_active}
use deprecated_tdk.EventLoop.Loop.Active.{Balanced, remove_active-Balanced}
use deprecated_tdk.Io.Task.{Error, platform}
use deprecated_tdk.Io.System.{System}
use deprecated_tdk.Io.Connector.{
  gave_up, Connector, connect_next, post_failure, connect_end, connect, or_give_up, ends,
  on_timer_handler, current, before_index,
}
use deprecated_tdk.Io.Connector.Walk.{IsWalked, connect_next_lem}
use deprecated_tdk.Io.Connector.Handles.{pending, connect_next-Balanced, connect-Balanced}

-- The index stands behind an address.
abbrev pub IsBehind : Connector → Type 0
IsBehind c = (0 < c.addr_index) × (c.addr_index ≤ length c.addrs)

-- After a walk the request goes on with its handle, or the last that the handler did was the call
-- of `on_connect_fail` with this error, and `n` handles are left.
abbrev GoesOn : ℕ → Error → Bool × Connector → Connector → Type 0
GoesOn n ec r c' =
    ((r.0 ≡ true) × (c' ≡ r.1) × Balanced (n + 1) c'.loop)
    ⊎ ((r.0 ≡ false) × (c' ≡ ends (gave_up ec) r.1) × Balanced n c'.loop)

-- The handler goes on, from `c`, with the addresses that were not tried yet.
abbrev pub TriesOn : System → (ℕ → ℕ) → ℕ → Error → Connector → Connector → Type 0
TriesOn system clock n ec c c' =
    (r : Bool × Connector) × IsWalked system clock true c r × GoesOn n ec r c'

get_elem?-below : (xs : List ℕ) (i a : ℕ) → get_elem? xs i ≡ some a → i < length xs
get_elem?-below [] i a e = cc
get_elem?-below (x ∷ xs) zero a e = omega arith
get_elem?-below (x ∷ xs) (suc i) a e = omega (arith, get_elem?-below xs i a e)

before_index-below :
    (addrs : List ℕ) (i a : ℕ) → before_index addrs i ≡ some a → (0 < i) × (i ≤ length addrs)
unfolding before_index
before_index-below addrs zero a e = absurd cc
before_index-below addrs (suc i) a e = (omega arith, omega (arith, get_elem?-below addrs i a e))

get_elem?-some : (xs : List ℕ) (i : ℕ) → i < length xs → (a : ℕ) × (get_elem? xs i ≡ some a)
get_elem?-some [] i below = absurd (omega arith)
get_elem?-some (x ∷ xs) zero below = (x, refl)
get_elem?-some (x ∷ xs) (suc i) below = get_elem?-some xs i (omega arith)

pub before_index-some :
    (addrs : List ℕ) (i : ℕ) → 0 < i → i ≤ length addrs → (a : ℕ) × (before_index addrs i ≡ some a)
unfolding before_index
before_index-some addrs zero positive below = absurd (omega arith)
before_index-some addrs (suc i) positive below = get_elem?-some addrs i (omega arith)

current-below : (c : Connector) (a : ℕ) → current c ≡ some a → IsBehind c
unfolding current
current-below c a e = before_index-below c.addrs c.addr_index a e

or_give_up-GoesOn :
    (system : System) (clock : ℕ → ℕ) (n : ℕ) (ec : Connector → Error) (r : Bool × Connector)
    → Balanced (n + pending r.0) r.1.loop
    → GoesOn n (ec r.1) r (or_give_up system clock ec r)
unfolding or_give_up
or_give_up-GoesOn system clock n ec (true, d) b = inl (refl, refl, b)
or_give_up-GoesOn system clock n ec (false, d) b = inr (refl, refl, omega (arith, b))

or_give_up-IsBehind :
    (system : System) (clock : ℕ → ℕ) (c : Connector) (ec : Connector → Error)
    (r : Bool × Connector)
    → IsBehind c
    → IsWalked system clock true c r
    → IsBehind (or_give_up system clock ec r)
unfolding or_give_up
or_give_up-IsBehind system clock c ec (true, d) behind (addrs, outcomes, error, how) = elim how [
  | inl (ok, missed, a, rest, e, split, fails, hits, at, i) ↦ current-below d a at
  | inr (no_more, fails, at) ↦ absurd cc
]
or_give_up-IsBehind system clock c ec (false, d) behind (addrs, outcomes, error, how) = elim how [
  | inl (ok, missed, a, rest, e, split, fails, hits, at, i) ↦ absurd cc
  | inr (no_more, fails, at) ↦
      (omega (arith, at, behind.0, behind.1), omega (arith, at, ap length addrs))
]

-- The next addresses are tried after `n` handles are left.
pub tries_on :
    (system : System) (clock : ℕ → ℕ) (n : ℕ) (c : Connector) (ec : Connector → Error) (e : Error)
    → Balanced n c.loop
    → IsBehind c
    → ec (connect_next system clock true c).1 ≡ e
    → let c' = or_give_up system clock ec (connect_next system clock true c) in
      IsBehind c' × TriesOn system clock n e c c'
tries_on system clock n c ec e b behind told =
    let r = connect_next system clock true c in
    let walked = connect_next_lem system clock true c behind.1 in
    let on =
      or_give_up-GoesOn system clock n ec r (connect_next-Balanced system clock true n c b) in
    (
      or_give_up-IsBehind system clock c ec r behind walked,
      (r, walked, subst (λ t. GoesOn n t r (or_give_up system clock ec r)) told on),
    )

-- When the time is over, the socket is closed and its handle is given back. The request goes on with
-- the first of the next addresses whose attempt does not fail, and has a handle again; or they all
-- fail and it ends with `on_connect_fail`, told of the time out. What was told before is kept. The
-- loop counts the handle before, and the index stands behind an address before and after.
pub on_timer_handler_lem :
    (system : System) (clock : ℕ → ℕ) (n : ℕ) (c : Connector)
    → Balanced (n + 1) c.loop
    → IsBehind c
    → let c' = on_timer_handler system clock c in
      IsBehind c'
      × TriesOn system clock n
          (platform 110)
          (record c { is_open = false; loop = remove_active c.loop })
          c'
unfolding on_timer_handler
on_timer_handler_lem system clock n c b behind =
    tries_on system clock n (record c { is_open = false; loop = remove_active c.loop })
      (λ c'. platform 110) (platform 110) (remove_active-Balanced n c.loop b) behind refl

-- A request for some addresses has a handle until it ends, and its index stands behind an address.
connect-IsBehind :
    (system : System) (clock : ℕ → ℕ) (inside : Bool) (n a : ℕ) (addrs : List ℕ) (c : Connector)
    → Balanced n c.loop
    → let d = connect system clock inside (a ∷ addrs) c in Balanced (n + 1) d.loop × IsBehind d
unfolding connect connect_end post_failure
connect-IsBehind system clock inside n a addrs c b =
    let d : Connector = record c { addrs = a ∷ addrs; addr_index = 0 } in
    (
      connect-Balanced system clock inside n (a ∷ addrs) c b,
      go (connect_next system clock inside d)
          (connect_next_lem system clock inside d (omega arith)),
    )
  where
    go :
        (r : Bool × Connector)
        → IsWalked system clock inside (record c { addrs = a ∷ addrs; addr_index = 0 }) r
        → IsBehind (connect_end system clock r)
    go (true, d) (same, told, error, how) = elim how [
      | inl (ok, missed, x, rest, e, split, fails, hits, at, i) ↦ current-below d x at
      | inr (no_more, fails, at) ↦ absurd cc
    ]
    go (false, d) (same, told, error, how) = elim how [
      | inl (ok, missed, x, rest, e, split, fails, hits, at, i) ↦ absurd cc
      | inr (no_more, fails, at) ↦ (omega (arith, at), omega (arith, at, ap length same))
    ]
