-- ===== src/Io/SocketTests.antt =====
-- Sockets at concrete states, with a system that takes a part of what it is given.
use deprecated_tdk.Prelude.{
  ℕ, ◌+◌, ◌/◌, ◌≡◌, refl, true, false, none, some, List, [], ◌∷◌, length, arith,
}
use deprecated_tdk.EventLoop.Loop.{Loop, remove_active, subtract_active}
use deprecated_tdk.Io.Adapter.{
  BufferAdapter, covered, addresses, size, size_from, remain_buffers, remain_from, push_back,
}
use deprecated_tdk.Io.Task.{Error, no_error, platform, is_error, IoTask}
use deprecated_tdk.Io.Result.{crashed, returned}
use deprecated_tdk.Io.System.{System, answered, interrupted, transferred, failed, retry}
use deprecated_tdk.Io.Socket.{
  Socket, finish, add_io_bytes, is_written, write_impl, try_write, called, handle_error, abort,
}
use deprecated_tdk.Io.Socket.Count.{IsCounted, IsCounting, write_impl-uncounted}
use deprecated_tdk.Io.Socket.Sent.{IsHonest, IsRegular, IsSent, try_write_lem}
use deprecated_tdk.Io.SocketEvents.{
  Events, handle_readable, handle_writeable, handle_io_event, dispatch, socket_error, fail,
  run_complete, rearm, registered, register_handle,
}
use deprecated_tdk.Io.SocketEvents.Order.{
  IsRead, IsLeft, handle_readable_lem, handle_writeable-crashes,
}
use deprecated_tdk.Io.SocketEvents.Ends.{handle_io_event-ends, handle_io_event-keeps}
use deprecated_tdk.Io.SocketConnect.{connect_error, handle_connect_event}
use deprecated_tdk.Io.SocketConnect.Retry.{handle_connect_event-leaks}

-- Two bytes are read, half of what is left is written, SO_ERROR is 111, connections are refused.
abbrev system : System
system = record {
  readv = λ k b. interrupted (answered (transferred 2));
  writev = λ k b. answered (transferred ((length (covered b.buffers) + 1) / 2));
  connect = λ k a. answered (failed 111);
  register = λ k. none;
  socket_error = λ k. some 111;
  errno = λ k. 111;
  open_tcp = λ k a. true;
  set_non_blocking = λ k. true;
}

system-IsHonest : IsHonest system
unfolding retry
system-IsHonest calls b n e = ground (arith, e)

abbrev four_bytes : BufferAdapter
four_bytes = record { buffers = record { iov_base = 100; iov_len = 4 } ∷ [] }

abbrev task : ℕ → IoTask
task address = record {
  address = address;
  buffers = four_bytes;
  addrs = 7 ∷ [];
  io_bytes = 0;
  error = no_error;
}

abbrev loop : ℕ → Loop
loop n = record { active = n; timers = []; tasks = [] }

-- Two reads wait.
abbrev reading_socket : Socket
reading_socket = record {
  is_open = true;
  reads = task 1 ∷ task 2 ∷ [];
  writes = [];
  complete = none;
  wants_in = true;
  wants_out = false;
  is_connecting = false;
  loop = loop 2;
  posted = [];
  calls = 0;
  wire = [];
}

abbrev idle_socket : Socket
idle_socket = record reading_socket { reads = []; loop = loop 0 }

-- A write waits of which three bytes are out.
abbrev writing_socket : Socket
writing_socket = record idle_socket {
  writes = record (task 3) { io_bytes = 3 } ∷ [];
  loop = loop 1;
}

abbrev connecting_socket : Socket
connecting_socket = record idle_socket { writes = task 4 ∷ []; is_connecting = true; loop = loop 1 }

abbrev handler : IoTask → Socket → Socket
handler t s = s

handler-IsCounting : IsCounting handler
handler-IsCounting n t s b = b

abbrev readable_event : Events
readable_event = record { err = false; hup = false; readable = true; writeable = false }

abbrev error_event : Events
error_event = record { err = true; hup = false; readable = false; writeable = false }

write_impl-uncounted_example :
    ((write_impl system (task 5) writing_socket).loop ≡ writing_socket.loop)
    × (¬ IsCounted 0 (write_impl system (task 5) writing_socket))
write_impl-uncounted_example =
    write_impl-uncounted system 0 (task 5) (record (task 3) { io_bytes = 3 }) [] writing_socket refl
      refl (omega arith)

four_bytes-IsRegular : IsRegular 4 four_bytes
unfolding covered addresses
four_bytes-IsRegular = record {
  long = (refl, tt);
  few = omega arith;
  short = omega arith;
  small = omega arith;
}

try_write_lem_example :
    IsSent system system-IsHonest 4 four_bytes four_bytes-IsRegular []
      (try_write system 4 (task 5) idle_socket)
try_write_lem_example =
    try_write_lem system system-IsHonest 4 four_bytes four_bytes-IsRegular [] 4 (task 5) idle_socket
      (refl, refl, omega arith, λ no. cc)

handle_readable_lem_example :
    let inside = record reading_socket { complete = some [] } in
    (over : List IoTask) × (rest : List IoTask) × (ec : Error) × IsRead system 0
      (task 1 ∷ task 2 ∷ [])
      over
      rest
      ec
    × IsLeft system over rest [] ec (handle_readable system inside)
handle_readable_lem_example =
    handle_readable_lem system [] (record reading_socket { complete = some [] }) refl

handle_writeable-crashes_example : handle_writeable system 1 writing_socket ≡ crashed
unfolding retry is_written add_io_bytes size size_from covered addresses remain_buffers remain_from
    push_back
handle_writeable-crashes_example =
    handle_writeable-crashes system 0 1 (record (task 3) { io_bytes = 3 }) writing_socket refl refl
      refl

-- Both reads are called with the error of the socket.
abbrev failed_socket : Socket
failed_socket = record idle_socket { is_open = false; calls = 1; wants_in = true }

after_error : handle_io_event system handler 3 error_event reading_socket ≡ returned failed_socket
unfolding handle_io_event dispatch socket_error called fail handle_error abort run_complete rearm
    registered register_handle remove_active subtract_active
after_error = refl

handle_io_event-keeps_example :
    (s' : Socket) × (handle_io_event system handler 3 error_event reading_socket ≡ returned s')
    × IsCounted 0 s'
handle_io_event-keeps_example =
    handle_io_event-keeps system handler 0 3 error_event reading_socket (λ t s. refl)
      handler-IsCounting refl refl (omega arith) (omega arith)

abbrev two_addresses : IoTask
two_addresses = record (task 4) { addrs = 7 ∷ 8 ∷ [] }

handle_connect_event-leaks_example :
    (s' : Socket) × (handle_connect_event system handler error_event connecting_socket
      ≡ returned s')
    × (s'.posted ≡ finish (record (task 4) { addrs = []; error = platform 111; io_bytes = 0 }) ∷ [])
    × IsCounted 1 s'
    × (¬ IsCounted 0 s')
unfolding connect_error socket_error is_error
handle_connect_event-leaks_example =
    handle_connect_event-leaks system handler error_event connecting_socket (task 4) [] refl refl 0
      7 refl (omega arith)

handle_io_event-ends_example :
    (s' : Socket) × (handle_io_event system handler 3 error_event reading_socket ≡ returned s')
handle_io_event-ends_example =
    handle_io_event-ends system handler 3 error_event reading_socket (λ t s. refl) refl
      (omega arith)
