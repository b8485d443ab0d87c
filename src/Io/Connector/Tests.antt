-- ===== src/Io/Connector/Tests.antt =====
-- A connector with two addresses: connections to 7 are refused, those to 8 are under way.
use deprecated_tdk.Prelude.{
  ℕ, ◌+◌, ◌≡◌, refl, Bool, true, false, none, some, [], ◌∷◌, ◌==◌, if◌then◌else◌, arith,
}
use deprecated_tdk.EventLoop.Loop.{remove_active}
use deprecated_tdk.Io.Task.{Error, no_error, platform, is_error}
use deprecated_tdk.Io.Result.{returned}
use deprecated_tdk.Io.System.{System, answered, would_block, failed, retry}
use deprecated_tdk.Io.Channel.{Channel, Filters}
use deprecated_tdk.Io.Channel.Held.{IsHolding}
use deprecated_tdk.Io.Connector.{
  started, Connector, out_events, tried, start, registered, set_timer, connect_one, connect_rest,
  or_next, connect_next, reconnect, current, before_index, event_error, on_timer_handler,
  on_connect_handler,
}
use deprecated_tdk.Io.Connector.Walk.{IsWalked, connect_next_lem}
use deprecated_tdk.Io.Connector.TriesOn.{IsBehind, TriesOn, on_timer_handler_lem}
use deprecated_tdk.Io.Connector.Settled.{IsSettled, on_connect_handler-IsSettled}
use deprecated_tdk.Io.Connector.Stale.{reconnect-starts}

abbrev system : System
system = record {
  readv = λ k b. answered would_block;
  writev = λ k b. answered would_block;
  connect = λ k a. if a == 8 then answered would_block else answered (failed 111);
  register = λ k. none;
  socket_error = λ k. none;
  errno = λ k. 111;
  open_tcp = λ k a. true;
  set_non_blocking = λ k. true;
}

abbrev clock : ℕ → ℕ
clock k = 1000 + k

abbrev filters : Filters
filters = record { in_bound = λ u c. c; do_write = λ msg c. c }

filters-IsHolding : IsHolding filters
filters-IsHolding = record { in_bound_held = λ r n u c h. h; do_write_held = λ r n msg c h. h }

abbrev accepts : ℕ → Bool
accepts a = true

abbrev build : ℕ → Error
build k = no_error

-- The first address is being tried, for at most 50 microseconds.
abbrev connector : Connector
connector = record {
  loop = record { active = 2; timers = record { address = 6; expired_at = 1040 } ∷ []; tasks = [] };
  is_open = true;
  addrs = 7 ∷ 8 ∷ [];
  on_connect = 5;
  evt = out_events;
  error = no_error;
  addr_index = 1;
  on_timer = record { address = 6; expired_at = 1040 };
  time_out = 50;
  calls = 0;
  outcomes = [];
}

-- Not in use yet.
abbrev idle : Connector
idle = record connector { loop = record { active = 0; timers = []; tasks = [] }; addrs = [] }

connect_next_lem_example :
    IsWalked system clock true connector (connect_next system clock true connector)
connect_next_lem_example = connect_next_lem system clock true connector (omega arith)

on_timer_handler_lem_example :
    let c' = on_timer_handler system clock connector in
    IsBehind c'
    × TriesOn system clock 0
        (platform 110)
        (record connector { is_open = false; loop = remove_active connector.loop })
        c'
on_timer_handler_lem_example =
    on_timer_handler_lem system clock 0 connector refl (omega arith, omega arith)

on_connect_handler-IsSettled_example :
    (c' : Connector) × (on_connect_handler system clock filters accepts build connector
      ≡ returned c')
    × IsBehind c'
    × IsSettled system clock accepts build 0 connector (event_error system clock connector) c'
on_connect_handler-IsSettled_example =
    on_connect_handler-IsSettled system clock filters filters-IsHolding accepts build 0 connector
      refl (omega arith, omega arith)

-- Only the address that refuses is left to try.
abbrev refused_connector : Connector
refused_connector = record connector { addrs = 7 ∷ [] }

tried_all :
    connect_next system clock true (record refused_connector { addr_index = 0 })
    ≡ (false, record refused_connector { calls = 3 })
unfolding connect_next connect_rest connect_one or_next tried start registered set_timer retry
tried_all = refl

now_at : current (record refused_connector { calls = 3 }) ≡ some 7
unfolding current before_index
now_at = refl

reconnect-starts_example :
    (ch : Channel) × (c' : Connector) × (on_connect_handler system clock filters accepts build
        (reconnect system clock true refused_connector)
      ≡ returned c')
    × (c'.outcomes ≡ started 7 ch ∷ [])
unfolding is_error
reconnect-starts_example =
    reconnect-starts system clock filters accepts build true refused_connector
      (record refused_connector { calls = 3 }) 7 tried_all refl refl now_at refl (λ k. refl)
