-- ===== src/Io/Connector/Stale.antt =====
-- A request that fails at once is called with the events of an earlier attempt.
use deprecated_tdk.Prelude.{
  ℕ, ◌+◌, ◌≡◌, ◌∙◌, refl, ap, Bool, true, false, none, some, [], ◌∷◌, ◌++◌, arith,
}
use deprecated_tdk.EventLoop.Loop.{remove_active}
use deprecated_tdk.Io.Task.{Error, no_error, platform, is_error}
use deprecated_tdk.Io.Result.{returned}
use deprecated_tdk.Io.System.{System}
use deprecated_tdk.Io.Channel.{Channel, Filters, on_connected, fire_on_start}
use deprecated_tdk.Io.Connector.{
  started, Connector, connect_next, post_failure, connect_end, reconnect, option_error, read_option,
  event_error, stop_timer, new_channel, start_channel, accepted, connected, connect_over, current,
  on_connect_handler,
}

module _ (system : System) (clock : ℕ → ℕ) where
  option_error-none :
      (ec : Error) (c : Connector)
      → system.socket_error c.calls ≡ none
      → option_error system clock ec c ≡ record c { error = ec; calls = c.calls + 1 }
  unfolding option_error read_option
  option_error-none ec c e = rw e refl

  event_error-out :
      (c : Connector)
      → c.evt.writeable ≡ true
      → event_error system clock c ≡ option_error system clock no_error c
  unfolding event_error
  event_error-out c out = rw out refl

  stop_timer-current :
      (c : Connector)
      → ((stop_timer system clock c).error ≡ c.error)
        × ((stop_timer system clock c).outcomes ≡ c.outcomes)
        × ((stop_timer system clock c).addrs ≡ c.addrs)
        × ((stop_timer system clock c).addr_index ≡ c.addr_index)
  stop_timer-current c = ground arith

  reconnect-through :
      (inside : Bool) (c d : Connector)
      → connect_next system clock inside (record c { addr_index = 0 }) ≡ (false, d)
      → reconnect system clock inside c
        ≡ post_failure system clock (platform (system.errno d.calls)) d
  unfolding reconnect connect_end
  reconnect-through inside c d through = rw through refl

module _ (system : System) (clock : ℕ → ℕ) (filters : Filters) (accepts : ℕ → Bool)
    (build : ℕ → Error) where
  handler-out :
      (c : Connector) (a : ℕ)
      → c.evt.writeable ≡ true
      → system.socket_error c.calls ≡ none
      → current c ≡ some a
      → accepts a ≡ true
      → ((n : ℕ) → is_error (build n) ≡ false)
      → (ch : Channel) × (c' : Connector) × (on_connect_handler system clock filters accepts build c
          ≡ returned c')
        × (c'.outcomes ≡ c.outcomes ++ (started a ch ∷ []))
  unfolding on_connect_handler connect_over connected accepted start_channel current is_error
  handler-out c a out no_answer at accept built =
      let e : Connector = record c { error = no_error; calls = c.calls + 1 } in
      let says : event_error system clock c ≡ e =
        event_error-out system clock c out ∙ option_error-none system clock no_error c no_answer in
      let kept = stop_timer-current system clock e in
      let c₁ : Connector = stop_timer system clock e in
      let c₂ : Connector = record c₁ { loop = remove_active c₁.loop } in
      let quiet : is_error c₁.error ≡ false = ap is_error (kept.0) in
      let at₂ : current c₂ ≡ some a = rw (kept.2, kept.3) at in
      let ch = fire_on_start system filters on_connected (new_channel system clock c₂) in
      let c' = start_channel system clock filters accepts build false a c₂ in
      (
        ch,
        c',
        rw (says, quiet, at₂, accept, built c₂.calls) refl,
        ap (λ t. t ++ (started a ch ∷ [])) (kept.1),
      )

  -- None of the addresses of a `reconnect` can be tried. If an earlier attempt left EPOLLOUT in
  -- `_on_connect` and the socket has no error to give, the handler starts a channel all the same.
  pub reconnect-starts :
      (inside : Bool) (c d : Connector) (a : ℕ)
      → connect_next system clock inside (record c { addr_index = 0 }) ≡ (false, d)
      → d.evt.writeable ≡ true
      → system.socket_error d.calls ≡ none
      → current d ≡ some a
      → accepts a ≡ true
      → ((n : ℕ) → is_error (build n) ≡ false)
      → (ch : Channel) × (c' : Connector) × (on_connect_handler system clock filters accepts build
            (reconnect system clock inside c)
          ≡ returned c')
        × (c'.outcomes ≡ d.outcomes ++ (started a ch ∷ []))
  unfolding post_failure current
  reconnect-starts inside c d a through out no_answer at accept built =
      rw (reconnect-through system clock inside c d through) (
        handler-out (post_failure system clock (platform (system.errno d.calls)) d) a out no_answer
          at accept built)
