-- ===== src/Io/Connector/Walk.antt =====
-- The walk over the addresses of a request.
use deprecated_tdk.Prelude.{
  ℕ, suc, ◌+◌, ◌≤◌, ◌≡◌, ◌∙◌, refl, sym, ap, Bool, true, false, Option, none, some, List, [], ◌∷◌,
  ◌++◌, length, length-append, take, drop, take-append-drop, length-take, get_elem?, arith, inl,
  inr, ◌⊎◌,
}
use mathlib.Core.List.{append_assoc}
use deprecated_tdk.EventLoop.Loop.{add_active}
use deprecated_tdk.Io.System.{System, Answer, transferred, would_block, failed, retry}
use deprecated_tdk.Io.Connector.{
  Connector, out_events, tried, opened, set_timer, registered, start, connect_one, connect_rest,
  connect_next, or_next, current, before_index,
}

-- What an attempt does not change.
abbrev pub Kept : Connector → Connector → Type 0
Kept c d =
    (d.addrs ≡ c.addrs)
    × (d.addr_index ≡ c.addr_index)
    × (d.outcomes ≡ c.outcomes)
    × (d.error ≡ c.error)

set_timer-Kept :
    (system : System) (clock : ℕ → ℕ) (inside : Bool) (c : Connector)
    → Kept c (set_timer system clock inside c)
unfolding set_timer
set_timer-Kept system clock inside c = ground arith

module _ (system : System) (clock : ℕ → ℕ) (inside : Bool) where
  registered-Kept : (r : Option ℕ) (c : Connector) → Kept c (registered system clock inside r c).1
  unfolding registered
  registered-Kept (some e) c = (refl, refl, refl, refl)
  registered-Kept none c =
      set_timer-Kept system clock inside (record c { loop = add_active c.loop })

  start-Kept : (c : Connector) → Kept c (start system clock inside c).1
  unfolding start
  start-Kept c =
      registered-Kept (system.register c.calls) (record c { evt = out_events; calls = c.calls + 1 })

  tried-Kept :
      (is_open non_blocking : Bool) (answer : Answer) (c : Connector)
      → Kept c (tried (start system clock inside) is_open non_blocking answer c).1
  unfolding tried
  tried-Kept false non_blocking answer c = (refl, refl, refl, refl)
  tried-Kept true false answer c = (refl, refl, refl, refl)
  tried-Kept true true (failed e) c = (refl, refl, refl, refl)
  tried-Kept true true would_block c = start-Kept (opened true 3 c)
  tried-Kept true true (transferred n) c = start-Kept (opened true 3 c)

  connect_one-Kept : (a : ℕ) (c : Connector) → Kept c (connect_one system clock inside a c).1
  unfolding connect_one
  connect_one-Kept a c =
      tried-Kept (system.open_tcp c.calls a) (system.set_non_blocking (c.calls + 1))
        (retry (system.connect (c.calls + 2) a)) c

get_elem?-append :
    (before : List ℕ) (a : ℕ) (rest : List ℕ)
    → get_elem? (before ++ (a ∷ rest)) (length before) ≡ some a
get_elem?-append [] a rest = refl
get_elem?-append (x ∷ before) a rest = get_elem?-append before a rest

current_lem :
    (c : Connector) (before : List ℕ) (a : ℕ) (rest : List ℕ)
    → c.addr_index ≡ length before + 1
    → c.addrs ≡ before ++ (a ∷ rest)
    → current c ≡ some a
unfolding current before_index
current_lem c before a rest index addrs =
    let next : c.addr_index ≡ suc (length before) = omega (arith, index) in
    rw (next, addrs) (get_elem?-append before a rest)

-- The attempts at these addresses failed, one after another, each with the index moved before it.
abbrev Missed : System → (ℕ → ℕ) → Bool → Connector → List ℕ → Connector → Type 0
Missed system clock inside c [] d = d ≡ c
Missed system clock inside c (a ∷ addrs) d =
    (c' : Connector) × (connect_one system clock inside a
        (record c { addr_index = c.addr_index + 1 })
      ≡ (false, c'))
    × Missed system clock inside c' addrs d

-- The walk returned with the connection of an attempt: those at the addresses before it failed, and
-- the index stands behind its address.
abbrev IsHit : System → (ℕ → ℕ) → Bool → List ℕ → Connector → Bool × Connector → Type 0
IsHit system clock inside addrs c r =
    (r.0 ≡ true)
    × (missed : List ℕ) × (a : ℕ) × (rest : List ℕ) × (d : Connector) × (addrs
        ≡ missed ++ (a ∷ rest))
    × Missed system clock inside c missed d
    × (connect_one system clock inside a (record d { addr_index = d.addr_index + 1 }) ≡ r)
    × (current r.1 ≡ some a)
    × (r.1.addr_index ≡ c.addr_index + length missed + 1)

-- A walk over these addresses ends with a hit, or all attempts failed and the index is at the end.
abbrev IsWalkedOver : System → (ℕ → ℕ) → Bool → List ℕ → Connector → Bool × Connector → Type 0
IsWalkedOver system clock inside addrs c r =
    (r.1.addrs ≡ c.addrs)
    × (r.1.outcomes ≡ c.outcomes)
    × (r.1.error ≡ c.error)
    × (IsHit system clock inside addrs c r
        ⊎ ((r.0 ≡ false)
            × Missed system clock inside c addrs r.1
            × (r.1.addr_index ≡ length c.addrs)))

abbrev pub IsWalked : System → (ℕ → ℕ) → Bool → Connector → Bool × Connector → Type 0
IsWalked system clock inside c r = IsWalkedOver system clock inside (drop c.addr_index c.addrs) c r

module _ (system : System) (clock : ℕ → ℕ) (inside : Bool) where
  connect_rest_lem :
      (before rest : List ℕ) (c : Connector)
      → c.addrs ≡ before ++ rest
      → c.addr_index ≡ length before
      → IsWalkedOver system clock inside rest c (connect_rest system clock inside rest c)
  unfolding connect_rest or_next
  connect_rest_lem before [] c addrs index = (
    refl,
    refl,
    refl,
    inr (refl, refl, index ∙ sym (ap length addrs ∙ (omega (arith, length-append before [])))),
  )
  connect_rest_lem before (a ∷ rest) c addrs index =
      let d : Connector = record c { addr_index = c.addr_index + 1 } in
      go (connect_one system clock inside a d) refl (connect_one-Kept system clock inside a d)
        (λ c'. connect_rest_lem (before ++ (a ∷ [])) rest c')
    where
      go :
          (r : Bool × Connector)
          → connect_one system clock inside a (record c { addr_index = c.addr_index + 1 }) ≡ r
          → Kept (record c { addr_index = c.addr_index + 1 }) r.1
          → ((c' : Connector)
              → c'.addrs ≡ (before ++ (a ∷ [])) ++ rest
              → c'.addr_index ≡ length (before ++ (a ∷ []))
              → IsWalkedOver system clock inside rest c' (connect_rest system clock inside rest c'))
          → IsWalkedOver system clock inside
              (a ∷ rest)
              c
              (or_next (λ k. connect_rest system clock inside rest k) r)
      go (true, c') is kept on = (
        kept.0,
        kept.2,
        kept.3,
        inl (
          refl,
          [],
          a,
          rest,
          c,
          refl,
          refl,
          is,
          current_lem c' before a rest (kept.1 ∙ omega (arith, index)) (kept.0 ∙ addrs),
          omega (arith, kept.1),
        ),
      )
      go (false, c') is kept on =
          let all : c.addrs ≡ (before ++ (a ∷ [])) ++ rest =
            addrs ∙ sym (append_assoc before (a ∷ []) rest) in
          let further : c'.addr_index ≡ length (before ++ (a ∷ [])) =
            kept.1 ∙ omega (arith, index, length-append before (a ∷ [])) in
          let (same, outcomes, error, how) = on c' (kept.0 ∙ all) further in
          (
            same ∙ kept.0,
            outcomes ∙ kept.2,
            error ∙ kept.3,
            elim how [
              | inl (ok, missed, x, others, d, split, fails, hits, at, i) ↦ inl (
                ok,
                a ∷ missed,
                x,
                others,
                d,
                ap (λ t. a ∷ t) split,
                (c', is, fails),
                hits,
                at,
                omega (arith, i, kept.1),
              )
              | inr (no_more, fails, at_end) ↦
                  inr (no_more, (c', is, fails), at_end ∙ ap length kept.0)
            ],
          )

-- The walk, whose index is not past the end, tries the addresses from it on, in their order. It
-- returns with the first attempt that does not fail, and `_addrs[_addr_index - 1]` is the address of
-- that attempt then; or the attempts at all of these addresses fail, one after another, and the
-- index is at the end. The addresses, what was told to the user and the error do not change.
pub connect_next_lem :
    (system : System) (clock : ℕ → ℕ) (inside : Bool) (c : Connector)
    → c.addr_index ≤ length c.addrs
    → IsWalked system clock inside c (connect_next system clock inside c)
unfolding connect_next
connect_next_lem system clock inside c below =
    connect_rest_lem system clock inside (take c.addr_index c.addrs) (drop c.addr_index c.addrs) c
      (sym (take-append-drop c.addr_index c.addrs))
      (sym (length-take c.addr_index c.addrs ∙ omega (arith, below)))
