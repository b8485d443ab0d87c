-- ===== src/Io/ChannelTests.antt =====
-- Channels at concrete states.
use deprecated_tdk.Prelude.{
  ◌≡◌, refl, true, false, none, [], ◌∷◌, ◌++◌, take, drop, ◌==◌, if◌then◌else◌, arith,
}
use deprecated_tdk.EventLoop.Loop.{remove_active, subtract_active}
use deprecated_tdk.Io.Adapter.{Iovec, no_buffers, addresses, covered}
use deprecated_tdk.Io.Task.{no_error}
use deprecated_tdk.Io.Result.{returned}
use deprecated_tdk.Io.System.{System, answered, interrupted, transferred, would_block, retry}
use deprecated_tdk.Io.Channel.{Channel, closing, Filters, release, fire_on_close, fire_on_error}
use deprecated_tdk.Io.Channel.Held.{IsHeld, IsHolding}
use deprecated_tdk.Io.ChannelEvents.{send_remains, run_posted}
use deprecated_tdk.Io.ChannelEvents.Sending.{send_remains_lem, send_remains-repeats}
use deprecated_tdk.Io.ChannelEvents.References.{run_posted-IsHeld}

-- The first calls write three and then two bytes; the system is full after that.
abbrev system : System
system = record {
  readv = λ k b. answered (transferred 2);
  writev = λ k b.
      if k == 0
      then answered (transferred 3)
      else if k == 1
      then interrupted (answered (transferred 2))
      else answered would_block;
  connect = λ k a. answered would_block;
  register = λ k. none;
  socket_error = λ k. none;
  errno = λ k. 11;
  open_tcp = λ k a. true;
  set_non_blocking = λ k. true;
}

-- It writes three bytes and is full.
abbrev slow_system : System
slow_system = record system {
  writev = λ k b. if k == 0 then answered (transferred 3) else answered would_block;
}

abbrev filters : Filters
filters = record { in_bound = λ u c. c; do_write = λ msg c. c }

filters-IsHolding : IsHolding filters
filters-IsHolding = record { in_bound_held = λ r n u c h. h; do_write_held = λ r n msg c h. h }

abbrev four_bytes : Iovec
four_bytes = record { iov_base = 100; iov_len = 4 }

abbrev two_bytes : Iovec
two_bytes = record { iov_base = 200; iov_len = 2 }

-- Connected, with two messages to send.
abbrev channel : Channel
channel = record {
  error_bit = false;
  close_bit = false;
  read_pending_bit = true;
  is_open = true;
  send_queue = four_bytes ∷ two_bytes ∷ [];
  send_error = no_error;
  send_bytes = 0;
  reg_events = 4;
  ref_count = 1;
  is_deleted = false;
  loop = record { active = 1; timers = []; tasks = [] };
  posted = [];
  calls = 0;
  wire = [];
}

-- Before it is connected.
abbrev new_channel : Channel
new_channel = record channel {
  ref_count = 0;
  loop = record { active = 0; timers = []; tasks = [] };
}

-- Its end was posted and is called.
abbrev closing_channel : Channel
closing_channel = record channel { close_bit = true; ref_count = 2 }

abbrev closed_channel : Channel
closed_channel = record closing_channel {
  error_bit = true;
  is_open = false;
  ref_count = 0;
  is_deleted = true;
  loop = record { active = 0; timers = []; tasks = [] };
}

send_remains_lem_example :
    (c' : Channel) × (send_remains slow_system 2 channel ≡ returned c')
    × (c'.wire ≡ [] ++ take 3 (covered (four_bytes ∷ two_bytes ∷ [])))
    × (covered c'.send_queue ≡ drop 3 (covered (four_bytes ∷ two_bytes ∷ [])))
    × (c'.send_bytes ≡ 3)
    × (c'.send_error ≡ no_error)
unfolding covered addresses retry
send_remains_lem_example =
    send_remains_lem slow_system channel four_bytes (two_bytes ∷ [])
      (omega arith, (omega arith, tt)) refl (omega arith) 0 3 (λ b. refl) (λ b. refl) (omega arith)
      (omega arith)

send_remains-repeats_example :
    (c' : Channel) × (send_remains system 3 channel ≡ returned c')
    × (c'.wire
        ≡ ([] ++ take 3 (covered (four_bytes ∷ two_bytes ∷ [])))
          ++ take 2 (covered (four_bytes ∷ two_bytes ∷ [])))
    × (covered c'.send_queue ≡ drop 5 (covered (four_bytes ∷ two_bytes ∷ [])))
unfolding covered addresses retry
send_remains-repeats_example =
    send_remains-repeats system channel four_bytes (two_bytes ∷ []) (omega arith, (omega arith, tt))
      refl (omega arith) 0 3 2 (λ b. refl) (λ b. refl) (λ b. refl) (omega arith) (omega arith)

closes : run_posted system filters 1 no_buffers closing closing_channel ≡ returned closed_channel
unfolding run_posted fire_on_close fire_on_error release remove_active subtract_active
closes = refl

run_posted-IsHeld_example :
    (c' : Channel) × (run_posted system filters 1 no_buffers closing closing_channel ≡ returned c')
    × IsHeld 0 0 c'
run_posted-IsHeld_example =
    run_posted-IsHeld system filters 1 0 0 no_buffers closing closing_channel filters-IsHolding tt
      (omega arith)
