-- ===== src/Io/Connector.antt =====
-- src/tdk/io/ip/tcp/channel_connector.cpp on epoll: connections that become channels. What the user
-- overrides is called last in each handler, so these calls are recorded as outcomes. `clock` is
-- `date_time::utc()`, by the number of system calls made before it.
pub mod Walk
pub mod Handles
pub mod TriesOn
pub mod Settled
pub mod Stale
mod Tests
use deprecated_tdk.Prelude.{
  ℕ, zero, suc, ◌+◌, ◌%◌, ◌^◌, Bool, true, false, Option, none, some, List, [], ◌∷◌, ◌++◌, ◌==◌,
  if◌then◌else◌, get_elem?, drop,
}
use deprecated_tdk.EventLoop.Scheduler.{TimerTask}
use deprecated_tdk.EventLoop.Loop.{
  object, Loop, add_active, remove_active, execute, schedule, cancel,
}
use deprecated_tdk.Io.Task.{
  Error, no_error, invalid_call, epoll_failed, epoll_hang_up, invalid_event, platform, is_error,
}
use deprecated_tdk.Io.Result.{Result, crashed, returned}
use deprecated_tdk.Io.System.{System, Answer, transferred, would_block, failed, retry}
use deprecated_tdk.Io.SocketEvents.{Events}
use deprecated_tdk.Io.Channel.{Channel, Filters, on_connected, fire_on_start}

-- How a request ends: `on_connnect` refused the address, the builder had an error, a channel
-- started, or `on_connect_fail` was called.
pub data Outcome : Type 0 where
  refused : ℕ → Outcome
  not_built : ℕ → Error → Outcome
  started : ℕ → Channel → Outcome
  gave_up : Error → Outcome

-- `on_connect` is the address of `_on_connect`; `evt` and `error` are its fields.
pub record Connector : Type 0 where
  pub loop : Loop
  pub is_open : Bool
  pub addrs : List ℕ
  pub on_connect : ℕ
  pub evt : Events
  pub error : Error
  pub addr_index : ℕ
  pub on_timer : TimerTask
  pub time_out : ℕ
  pub calls : ℕ
  pub outcomes : List Outcome

-- `EPOLLOUT | EPOLLONESHOT`
abbrev pub out_events : Events
out_events = record { err = false; hup = false; readable = false; writeable = true }

abbrev pub opened : Bool → ℕ → Connector → Connector
opened is_open calls c = record c { is_open = is_open; calls = c.calls + calls }

-- One address: what `open_tcp`, `set_option( non_blocking )` and `connect` gave, and whether it goes
-- on with `register_handle`.
pub tried : (Connector → Bool × Connector) → Bool → Bool → Answer → Connector → Bool × Connector
tried next false non_blocking answer c = (false, opened false 1 c)
tried next true false answer c = (false, opened true 2 c)
tried next true true (failed e) c = (false, opened true 3 c)
tried next true true would_block c = next (opened true 3 c)
tried next true true (transferred n) c = next (opened true 3 c)

-- `if ( connect( … ) ) return;`
pub or_next : (Connector → Bool × Connector) → Bool × Connector → Bool × Connector
or_next next (true, c) = (true, c)
or_next next (false, c) = next c

-- `_addrs[_addr_index - 1]`: with index 0 it is out of bounds.
pub before_index : List ℕ → ℕ → Option ℕ
before_index addrs zero = none
before_index addrs (suc i) = get_elem? addrs i

pub current : Connector → Option ℕ
current c = before_index c.addrs c.addr_index

-- `if ( _fd.get_option( err ) && err.value() != 0 )`
pub read_option : Option ℕ → Connector → Connector
read_option none c = c
read_option (some e) c = if e == 0 then c else record c { error = platform e }

-- The last that a handler does is a call of the user.
abbrev pub ends : Outcome → Connector → Connector
ends o c = record c { outcomes = c.outcomes ++ (o ∷ []) }

module _ (system : System) (clock : ℕ → ℕ) where
  -- `_on_timer.expired_at( … )` and `_loop.schedule( &_on_timer )`, if there is a time to wait for.
  pub set_timer : Bool → Connector → Connector
  set_timer inside c =
      let tt : TimerTask = record c.on_timer {
        expired_at = (clock c.calls + c.time_out) % 2 ^ 64;
      } in
      if c.time_out == 0 then c else record c { on_timer = tt; loop = schedule inside tt c.loop }

  -- After `register_handle`.
  pub registered : Bool → Option ℕ → Connector → Bool × Connector
  registered inside (some e) c = (false, c)
  registered inside none c = (true, set_timer inside (record c { loop = add_active c.loop }))

  pub start : Bool → Connector → Bool × Connector
  start inside c =
      registered inside (system.register c.calls)
        (record c { evt = out_events; calls = c.calls + 1 })

  -- `connect( addr )`; `inside` tells the thread of the loop, for the timer.
  pub connect_one : Bool → ℕ → Connector → Bool × Connector
  connect_one inside a c =
      tried (start inside) (system.open_tcp c.calls a) (system.set_non_blocking (c.calls + 1))
        (retry (system.connect (c.calls + 2) a)) c

  -- `while ( _addr_index < _addrs.size() ) if ( connect( _addrs[_addr_index++] ) ) return;`, over
  -- the addresses from the index on: whether it returned.
  pub connect_rest : Bool → List ℕ → Connector → Bool × Connector
  connect_rest inside [] c = (false, c)
  connect_rest inside (a ∷ addrs) c =
      or_next (λ k. connect_rest inside addrs k)
        (connect_one inside a (record c { addr_index = c.addr_index + 1 }))

  pub connect_next : Bool → Connector → Bool × Connector
  connect_next inside c = connect_rest inside (drop c.addr_index c.addrs) c

  -- `_loop.add_active()` and `_loop.execute( &_on_connect )`
  pub post_failure : Error → Connector → Connector
  post_failure ec c = record c {
    error = ec;
    loop = execute (object c.on_connect) (add_active c.loop);
  }

  -- The end of `connect` and `reconnect`.
  pub connect_end : Bool × Connector → Connector
  connect_end (true, c) = c
  connect_end (false, c) = post_failure (platform (system.errno c.calls)) c

  pub reconnect : Bool → Connector → Connector
  reconnect inside c = connect_end (connect_next inside (record c { addr_index = 0 }))

  -- `connect( addrs , builder )`
  pub connect : Bool → List ℕ → Connector → Connector
  connect inside [] c = post_failure invalid_call (record c { addrs = []; addr_index = 0 })
  connect inside (a ∷ addrs) c =
      connect_end (connect_next inside (record c { addrs = a ∷ addrs; addr_index = 0 }))

  -- `connect( addrs , builder , time )`
  pub connect_within : Bool → ℕ → List ℕ → Connector → Connector
  connect_within inside time addrs c = connect inside addrs (record c { time_out = time })

  -- `_on_connect.error( ec )`, and then the error of the socket, if it has one.
  pub option_error : Error → Connector → Connector
  option_error ec c =
      read_option (system.socket_error c.calls) (record c { error = ec; calls = c.calls + 1 })

  -- The first part of `on_connect_handler`: what `_on_connect.evt()` says.
  pub event_error : Connector → Connector
  event_error c =
      if c.evt.writeable
      then option_error no_error c
      else if c.evt.err
      then option_error epoll_failed c
      else if c.evt.hup
      then record c { error = epoll_hang_up }
      else record c { error = invalid_event }

  abbrev pub stop_timer : Connector → Connector
  stop_timer c = if c.time_out == 0 then c else record c { loop = cancel true c.on_timer c.loop }

  -- A handler goes on with the next address or tells the user.
  pub or_give_up : (Connector → Error) → Bool × Connector → Connector
  or_give_up ec (true, c) = c
  or_give_up ec (false, c) = ends (gave_up (ec c)) c

  pub on_timer_handler : Connector → Connector
  on_timer_handler c =
      or_give_up (λ c'. platform 110)
        (connect_next true (record c { is_open = false; loop = remove_active c.loop }))

  -- `new channel( _loop , _fd.handle() )`
  abbrev pub new_channel : Connector → Channel
  new_channel c = record {
    error_bit = false;
    close_bit = false;
    read_pending_bit = false;
    is_open = c.is_open;
    send_queue = [];
    send_error = no_error;
    send_bytes = 0;
    reg_events = 0;
    ref_count = 0;
    is_deleted = false;
    loop = c.loop;
    posted = [];
    calls = c.calls;
    wire = [];
  }

  -- `accepts` is `on_connnect`, `build` what `_builder->build` returns.
  module _ (filters : Filters) (accepts : ℕ → Bool) (build : ℕ → Error) where
    -- Whether the builder had an error.
    pub start_channel : Bool → ℕ → Connector → Connector
    start_channel true a c = ends (not_built a (build c.calls)) c
    start_channel false a c =
        let ch = fire_on_start system filters on_connected (new_channel c) in
        ends (started a ch) (record c { loop = ch.loop; calls = ch.calls })

    -- Whether `on_connnect` returned true.
    pub accepted : Bool → ℕ → Connector → Connector
    accepted true a c = start_channel (is_error (build c.calls)) a c
    accepted false a c = ends (refused a) c

    -- `_addrs[_addr_index - 1]` is asked for.
    pub connected : Option ℕ → Connector → Result Connector
    connected none c = crashed
    connected (some a) c = returned (accepted (accepts a) a c)

    -- `if ( _on_connect.error() )`
    pub connect_over : Bool → Connector → Result Connector
    connect_over true c =
        returned (or_give_up (λ c'. c'.error) (connect_next true (record c { is_open = false })))
    connect_over false c = connected (current c) c

    pub on_connect_handler : Connector → Result Connector
    on_connect_handler c =
        let c₁ = stop_timer (event_error c) in
        connect_over (is_error c₁.error) (record c₁ { loop = remove_active c₁.loop })
