-- ===== src/Io/Connector/Settled.antt =====
-- How the event of a connection ends.
use mathlib.Core.Path.{subst}
use deprecated_tdk.Prelude.{
  ℕ, ◌+◌, ◌≡◌, ◌∙◌, refl, sym, ap, Bool, true, false, Option, none, some, [], ◌∷◌, ◌++◌, length,
  arith, inl, inr, ◌⊎◌,
}
use deprecated_tdk.EventLoop.Loop.{remove_active}
use deprecated_tdk.EventLoop.Loop.Active.{Balanced, remove_active-Balanced, cancel-Balanced}
use deprecated_tdk.Io.Task.{Error, no_error, epoll_failed, is_error}
use deprecated_tdk.Io.Result.{returned}
use deprecated_tdk.Io.System.{System}
use deprecated_tdk.Io.Channel.{Channel, Filters, on_connected, fire_on_start}
use deprecated_tdk.Io.Channel.Held.{IsHolding, fire_on_start-IsHeld}
use deprecated_tdk.Io.Connector.{
  Outcome, refused, not_built, started, gave_up, Connector, read_option, option_error, event_error,
  stop_timer, new_channel, start_channel, accepted, connected, connect_over, current, before_index,
  on_connect_handler,
}
use deprecated_tdk.Io.Connector.TriesOn.{IsBehind, TriesOn, before_index-some, tries_on}
use deprecated_tdk.Io.Connector.Walk.{connect_next_lem}

-- The handle of a channel that has started.
abbrev handle_of : Outcome → ℕ
handle_of (refused a) = 0
handle_of (not_built a ec) = 0
handle_of (started a ch) = 1
handle_of (gave_up ec) = 0

-- The request is the same, but for its loop.
abbrev SameRequest : Connector → Connector → Type 0
SameRequest c d = (d.addrs ≡ c.addrs) × (d.addr_index ≡ c.addr_index) × (d.outcomes ≡ c.outcomes)

-- What `on_connnect` and, at call `k`, the builder say of the address decides on the outcome.
abbrev IsTold : (ℕ → Bool) → (ℕ → Error) → ℕ → ℕ → Outcome → Type 0
IsTold accepts build k a o =
    ((accepts a ≡ false) × (o ≡ refused a))
    ⊎ ((accepts a ≡ true) × (is_error (build k) ≡ true) × (o ≡ not_built a (build k)))
    ⊎ ((ch : Channel) × (accepts a ≡ true) × (is_error (build k) ≡ false) × (o ≡ started a ch))

-- How the event of a connection ends, of which `e` knows the error: with the next addresses, or
-- with one outcome for the current address, whose handle goes to the channel that starts.
abbrev pub IsSettled :
    System → (ℕ → ℕ) → (ℕ → Bool) → (ℕ → Error) → ℕ → Connector → Connector → Connector → Type 0
IsSettled system clock accepts build n c e c' =
    ((is_error e.error ≡ true)
      × (d : Connector) × SameRequest e d
      × (d.is_open ≡ false)
      × TriesOn system clock n e.error d c')
    ⊎ ((is_error e.error ≡ false)
        × (a : ℕ) × (o : Outcome) × (current c ≡ some a)
        × IsTold accepts build e.calls a o
        × (c'.outcomes ≡ c.outcomes ++ (o ∷ []))
        × Balanced (n + handle_of o) c'.loop)

read_option-same :
    (o : Option ℕ) (c : Connector)
    → SameRequest c (read_option o c) × ((read_option o c).loop ≡ c.loop)
unfolding read_option
read_option-same none c = ((refl, refl, refl), refl)
read_option-same (some e) c = ground arith

module _ (system : System) (clock : ℕ → ℕ) where
  option_error-same :
      (ec : Error) (c : Connector)
      → let d = option_error system clock ec c in SameRequest c d × (d.loop ≡ c.loop)
  unfolding option_error
  option_error-same ec c =
      read_option-same (system.socket_error c.calls) (record c { error = ec; calls = c.calls + 1 })

  event_error-same :
      (c : Connector) → let d = event_error system clock c in SameRequest c d × (d.loop ≡ c.loop)
  unfolding event_error
  event_error-same c =
      ground (arith, option_error-same no_error c, option_error-same epoll_failed c)

  stop_timer-Balanced :
      (n : ℕ) (c : Connector) → Balanced n c.loop → Balanced n (stop_timer system clock c).loop
  stop_timer-Balanced n c b = ground (arith, cancel-Balanced n true c.on_timer c.loop b)

  stop_timer-same :
      (c : Connector)
      → let d = stop_timer system clock c in
        SameRequest c d × (d.error ≡ c.error) × (d.calls ≡ c.calls)
  stop_timer-same c = ground arith

module _ (system : System) (clock : ℕ → ℕ) (filters : Filters) (holding : IsHolding filters)
    (accepts : ℕ → Bool) (build : ℕ → Error) (n : ℕ) where
  -- The outcome for the current address.
  abbrev Ended : ℕ → Connector → Connector → Type 0
  Ended a c c' =
      (o : Outcome) × IsTold accepts build c.calls a o
      × (c'.outcomes ≡ c.outcomes ++ (o ∷ []))
      × Balanced (n + handle_of o) c'.loop
      × (c'.addr_index ≡ c.addr_index)
      × (c'.addrs ≡ c.addrs)

  start_channel-Ended :
      (e : Bool) (a : ℕ) (c : Connector)
      → accepts a ≡ true
      → is_error (build c.calls) ≡ e
      → Balanced n c.loop
      → Ended a c (start_channel system clock filters accepts build e a c)
  unfolding start_channel
  start_channel-Ended true a c accept fails b = (
    not_built a (build c.calls),
    inr (inl (accept, fails, refl)),
    refl,
    omega (arith, b),
    refl,
    refl,
  )
  start_channel-Ended false a c accept fails b =
      let channel = new_channel system clock c in
      let ch = fire_on_start system filters on_connected channel in
      let held =
        fire_on_start-IsHeld filters holding 0 n system on_connected channel (omega arith, b) in
      (started a ch, inr (inr (ch, accept, fails, refl)), refl, held.1, refl, refl)

  accepted-Ended :
      (accept : Bool) (a : ℕ) (c : Connector)
      → accepts a ≡ accept
      → Balanced n c.loop
      → Ended a c (accepted system clock filters accepts build accept a c)
  unfolding accepted
  accepted-Ended true a c accept b =
      start_channel-Ended (is_error (build c.calls)) a c accept refl b
  accepted-Ended false a c refuse b =
      (refused a, inl (refuse, refl), refl, omega (arith, b), refl, refl)

  connect_over-IsSettled :
      (over : Bool) (c e d : Connector)
      → is_error e.error ≡ over
      → SameRequest c e
      → SameRequest e d × (d.error ≡ e.error) × (d.calls ≡ e.calls)
      → Balanced n d.loop
      → IsBehind d
      → (c' : Connector) × (connect_over system clock filters accepts build over d ≡ returned c')
        × IsBehind c'
        × IsSettled system clock accepts build n c e c'
  unfolding connect_over connected current
  connect_over-IsSettled true c e d fails first (second, same, calls) b behind =
      let closed : Connector = record d { is_open = false } in
      let told = (connect_next_lem system clock true closed behind.1).2 ∙ same in
      let (behind', on) = tries_on system clock n closed (λ c'. c'.error) e.error b behind told in
      (_, refl, behind', inl (fails, closed, second, refl, on))
  connect_over-IsSettled false c e d fine first (second, same, calls) b behind =
      let (a, at) = before_index-some d.addrs d.addr_index behind.0 behind.1 in
      let (o, told, outcomes, balanced, index, addrs) = accepted-Ended (accepts a) a d refl b in
      let c' = accepted system clock filters accepts build (accepts a) a d in
      (
        c',
        rw at refl,
        (omega (arith, behind.0, index), omega (arith, behind.1, index, ap length addrs)),
        inr (
          fine,
          a,
          o,
          subst (λ t. before_index t c.addr_index ≡ some a) (second.0 ∙ first.0)
              (subst (λ t. before_index d.addrs t ≡ some a) (second.1 ∙ first.1) at),
          subst (λ t. IsTold accepts build t a o) calls told,
          outcomes ∙ ap (λ t. t ++ (o ∷ [])) (second.2 ∙ first.2),
          balanced,
        ),
      )

  -- The event of a connection, or the call of a request that failed at once, ends, and its handle is
  -- given back. If `event_error` finds an error, the request goes on with the first of the next
  -- addresses whose attempt does not fail, and has a handle again, or ends with `on_connect_fail`
  -- and that error. If not, there is one outcome for the current address: `on_connnect` refused it,
  -- the builder failed, or a channel starts and has a handle. The loop counts the handle of the
  -- request and the index stands behind an address before; the index does after it as well. The
  -- filters must keep the references and handles that are counted.
  pub on_connect_handler-IsSettled :
      (c : Connector)
      → Balanced (n + 1) c.loop
      → IsBehind c
      → (c' : Connector) × (on_connect_handler system clock filters accepts build c ≡ returned c')
        × IsBehind c'
        × IsSettled system clock accepts build n c (event_error system clock c) c'
  unfolding on_connect_handler
  on_connect_handler-IsSettled c b behind =
      let e = event_error system clock c in
      let (first, loop) = event_error-same system clock c in
      let e_balanced : Balanced (n + 1) e.loop = rw loop b in
      let c₁ = stop_timer system clock e in
      let stopped = stop_timer-Balanced system clock (n + 1) e e_balanced in
      let second = stop_timer-same system clock e in
      let c₂ : Connector = record c₁ { loop = remove_active c₁.loop } in
      let behind₂ : IsBehind c₂ = (
        omega (arith, behind.0, second.0.1 ∙ first.1),
        omega (arith, behind.1, second.0.1 ∙ first.1, ap length (second.0.0 ∙ first.0)),
      ) in
      connect_over-IsSettled (is_error c₁.error) c e c₂ (ap is_error (sym (second.1))) first second
        (remove_active-Balanced n c₁.loop stopped) behind₂
