-- ===== src/Io/Connector/Handles.antt =====
-- The active handles of the loop: one for a request, from its start to its end.
use deprecated_tdk.Prelude.{
  ℕ, ◌+◌, ◌%◌, ◌^◌, Bool, true, false, Option, none, some, List, [], ◌∷◌, drop, arith,
}
use deprecated_tdk.EventLoop.Loop.{object, add_active}
use deprecated_tdk.EventLoop.Loop.Active.{
  Balanced, add_active-Balanced, execute-Balanced, schedule-Balanced,
}
use deprecated_tdk.Io.Task.{Error, invalid_call, platform}
use deprecated_tdk.Io.System.{System, Answer, transferred, would_block, failed, retry}
use deprecated_tdk.Io.Connector.{
  Connector, out_events, tried, opened, set_timer, registered, start, connect_one, connect_rest,
  connect_next, or_next, post_failure, connect_end, reconnect, connect,
}

-- A connection that is under way has a handle.
abbrev pub pending : Bool → ℕ
pending true = 1
pending false = 0

set_timer-Balanced :
    (system : System) (clock : ℕ → ℕ) (inside : Bool) (n : ℕ) (c : Connector)
    → Balanced n c.loop
    → Balanced n (set_timer system clock inside c).loop
unfolding set_timer
set_timer-Balanced system clock inside n c b = ground (
  arith,
  schedule-Balanced n inside
      (record c.on_timer { expired_at = (clock c.calls + c.time_out) % 2 ^ 64 }) c.loop b,
)

module _ (system : System) (clock : ℕ → ℕ) (inside : Bool) (n : ℕ) where
  registered-Balanced :
      (r : Option ℕ) (c : Connector)
      → Balanced n c.loop
      → let (ok, c') = registered system clock inside r c in Balanced (n + pending ok) c'.loop
  unfolding registered
  registered-Balanced (some e) c b = omega (arith, b)
  registered-Balanced none c b =
      set_timer-Balanced system clock inside (n + 1) (record c { loop = add_active c.loop })
        (add_active-Balanced n c.loop b)

  tried-Balanced :
      (next : Connector → Bool × Connector)
      → ((c : Connector) → Balanced n c.loop → Balanced (n + pending (next c).0) (next c).1.loop)
      → (is_open non_blocking : Bool) (answer : Answer) (c : Connector) → Balanced n c.loop
      → let (ok, c') = tried next is_open non_blocking answer c in Balanced (n + pending ok) c'.loop
  unfolding tried
  tried-Balanced next keeps false non_blocking answer c b = omega (arith, b)
  tried-Balanced next keeps true false answer c b = omega (arith, b)
  tried-Balanced next keeps true true (failed e) c b = omega (arith, b)
  tried-Balanced next keeps true true would_block c b = keeps (opened true 3 c) b
  tried-Balanced next keeps true true (transferred k) c b = keeps (opened true 3 c) b

  connect_one-Balanced :
      (a : ℕ) (c : Connector)
      → Balanced n c.loop
      → let (ok, c') = connect_one system clock inside a c in Balanced (n + pending ok) c'.loop
  unfolding connect_one start
  connect_one-Balanced a c b =
      tried-Balanced (start system clock inside)
        (λ c' b'.
          registered-Balanced (system.register c'.calls)
            (record c' { evt = out_events; calls = c'.calls + 1 }) b')
        (system.open_tcp c.calls a) (system.set_non_blocking (c.calls + 1))
        (retry (system.connect (c.calls + 2) a)) c b

  or_next-Balanced :
      (next : Connector → Bool × Connector)
      → ((c : Connector) → Balanced n c.loop → Balanced (n + pending (next c).0) (next c).1.loop)
      → (r : Bool × Connector) → Balanced (n + pending r.0) r.1.loop
      → let (ok, c') = or_next next r in Balanced (n + pending ok) c'.loop
  unfolding or_next
  or_next-Balanced next keeps (true, c) b = b
  or_next-Balanced next keeps (false, c) b = keeps c (omega (arith, b))

  pub connect_rest-Balanced :
      (addrs : List ℕ) (c : Connector)
      → Balanced n c.loop
      → let (ok, c') = connect_rest system clock inside addrs c in Balanced (n + pending ok) c'.loop
  unfolding connect_rest
  connect_rest-Balanced [] c b = omega (arith, b)
  connect_rest-Balanced (a ∷ addrs) c b =
      or_next-Balanced (λ k. connect_rest system clock inside addrs k)
        (λ d e. connect_rest-Balanced addrs d e)
        (connect_one system clock inside a (record c { addr_index = c.addr_index + 1 }))
        (connect_one-Balanced a (record c { addr_index = c.addr_index + 1 }) b)

  post_failure-Balanced :
      (ec : Error) (c : Connector)
      → Balanced n c.loop
      → Balanced (n + 1) (post_failure system clock ec c).loop
  unfolding post_failure
  post_failure-Balanced ec c b =
      execute-Balanced (n + 1) (object c.on_connect) (add_active c.loop)
        (add_active-Balanced n c.loop b)

  connect_end-Balanced :
      (r : Bool × Connector)
      → Balanced (n + pending r.0) r.1.loop
      → Balanced (n + 1) (connect_end system clock r).loop
  unfolding connect_end
  connect_end-Balanced (true, c) b = b
  connect_end-Balanced (false, c) b =
      post_failure-Balanced (platform (system.errno c.calls)) c (omega (arith, b))

-- A request, also one that fails at once, has one handle more than the loop had.
module _ (system : System) (clock : ℕ → ℕ) (inside : Bool) (n : ℕ) where
  pub connect-Balanced :
      (addrs : List ℕ) (c : Connector)
      → Balanced n c.loop
      → Balanced (n + 1) (connect system clock inside addrs c).loop
  unfolding connect connect_next
  connect-Balanced [] c b =
      post_failure-Balanced system clock inside n invalid_call
        (record c { addrs = []; addr_index = 0 }) b
  connect-Balanced (a ∷ addrs) c b =
      connect_end-Balanced system clock inside n
        (connect_next system clock inside (record c { addrs = a ∷ addrs; addr_index = 0 }))
        (connect_rest-Balanced system clock inside n (a ∷ addrs)
          (record c { addrs = a ∷ addrs; addr_index = 0 }) b)

  reconnect-Balanced :
      (c : Connector) → Balanced n c.loop → Balanced (n + 1) (reconnect system clock inside c).loop
  unfolding reconnect connect_next
  reconnect-Balanced c b =
      connect_end-Balanced system clock inside n
        (connect_next system clock inside (record c { addr_index = 0 }))
        (connect_rest-Balanced system clock inside n c.addrs (record c { addr_index = 0 }) b)

pub connect_next-Balanced :
    (system : System) (clock : ℕ → ℕ) (inside : Bool) (n : ℕ) (c : Connector)
    → Balanced n c.loop
    → let (ok, c') = connect_next system clock inside c in Balanced (n + pending ok) c'.loop
unfolding connect_next
connect_next-Balanced system clock inside n c b =
    connect_rest-Balanced system clock inside n (drop c.addr_index c.addrs) c b
