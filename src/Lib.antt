-- ===== src/Lib.antt =====
-- tdk, a C++ library for network servers: buffers, checksums and text encodings, time and timers,
-- and TCP and UDP channels on epoll or completion ports.
--
-- Parts and files:
--   Prelude: the names that all modules share, Boolean tests on the native numbers, lists measured
--   by them, a small ℤ, and bounded search.
--   Bits: `&`, `|` and `^` as arithmetic (Bits/Step bit by bit, Bits/Xor and Bits/Fields their laws).
--   Crypto/Crc32: src/tdk/crypto/crc32.cpp. A crc32 object is its register; `update` takes the bytes
--   at the pointer as a list. Crypto/Crc32/Serial has the shift register that the table stands for.
--   Crypto/Base64: src/tdk/crypto/base64.cpp, the loops with their local variables as records.
--   Crypto/Base64/Spec is RFC 4648 by groups of three bytes.
--   Crypto/Padding: src/tdk/crypto/padding.cpp, on blocks.
--   Buffer/Memory: what the buffers ask of the allocator and of memcpy: a heap of counted byte
--   arrays, and commands that end with a fault where the source is undefined or throws.
--   Buffer/Base: src/tdk/buffer/buffer_base.cpp, method by method.
--   Buffer/Block: src/tdk/buffer/memory_block.cpp and marker.cpp, method by method. Its children
--   prove what the methods do: Cursor the two positions, Live the invariant of a block on a heap,
--   Write, Read, Align, Mark, Padding and Share (copy, assignment, move, copy on write).
--   Crypto/Stream: what MD5Update and SHA1_Update have in common: the bit count, the buffer and the
--   loop over blocks. Its children prove it for any transform (Rules the loop, Feed one update,
--   Count the bit count, Absorb a message in pieces).
--   Crypto/Md5, Crypto/Sha1: src/tdk/crypto/md5.cpp and sha1.cpp, with RFC 1321 and RFC 3174 for a
--   whole message in Spec.
--   Time/Calendar: src/tdk/time/ctime.cpp. Time/Span: time_span.cpp. Time/Date: date_time.cpp and
--   the conversions of tick.cpp that it uses.
--   Util/ListQueue: src/tdk/util/list_node.hpp, slist_queue on a memory of next pointers; Links says
--   what list a queue stands for, Blank what the other nodes point to.
--   EventLoop/Scheduler, EventLoop/Loop: src/tdk/event_loop/scheduler.cpp and event_loop.cpp; Loop/Turn
--   is about one round, Loop/Weighed adds up what its calls do.
--   TaskQueue: src/tdk/task/queue.cpp, with the steps of its threads in the order of the lock, over
--   the slist_queue of Util/ListQueue.
--   Io/Adapter: src/tdk/io/buffer_adapter.cpp and the remaining buffers of
--   io/ip/tcp/socket/write_task.cpp. Io/Task: the fields of the tasks. Io/System: the answers of the
--   system calls, a parameter. Io/Result: how a handler ends.
--   Io/Socket, Io/SocketEvents, Io/SocketConnect: src/tdk/io/ip/tcp/socket/socket.cpp: the requests,
--   the events that epoll reports, and connections. Their children: Count the active handles, Sent
--   the bytes of a write, Rounds and Order the loops over the queues, Turn an event as a whole,
--   Ends its end, Retry connections that fail.
--   Io/Channel, Io/ChannelEvents: src/tdk/io/ip/tcp/channel_epoll.cpp. Held, Kept and References
--   are about its reference count, Queue and Sending about what it sends, Stopped about its state bits.
--   Io/Pipeline: src/tdk/io/ip/tcp/pipeline, the filters between a channel and its user as nodes in
--   memory. Links says what list of filters a pipeline stands for, Chain adds one, Walk finds and
--   deletes, Again adds one twice, Delivery is about whom events and writes arrive at.
--   Io/Connector: src/tdk/io/ip/tcp/channel_connector.cpp. Walk is about the addresses of a request,
--   Handles about its active handle, TriesOn about how it goes on when its time is over or an attempt
--   failed, Settled about the event of a connection, Stale about events that an earlier attempt left
--   behind. Io/Acceptor: channel_acceptor.cpp, with its events in Events.
--
-- How the parts meet: a block owns a share of counted memory, and `write`, `reserve`, `clear` and
-- `align` take memory of their own first if the share is not the only one; PKCS 5 padding writes
-- to a block. Sockets and channels count their work in the loop of EventLoop/Loop by the operations
-- modelled there, and hand their buffers over by Io/Adapter. A connector that succeeds starts a
-- channel of Io/Channel in its loop, whose events go through a pipeline.
--
-- Numbers: `std::size_t` is 64 bits wide and its sums and differences are written with the wrap;
-- `int32_t` is the cast modulo 2 ^ 32. Theorems about blocks ask for a size below 2 ^ 31, which is
-- what the casts to `int32_t` in the source allow.
-- Fuel: the inner loop of `base64::encode` runs on as much fuel as it has bits, each round takes
-- six of them. The blocks of a hash update run on as much fuel as there are bytes, the zeros of
-- SHA1_Final on 64, the search for a year on one more than the days; each comes with a proof
-- that this is enough. The timers of a round run on fuel that is an argument, since handlers may
-- set expired timers without end; `turn-ends` says when it is enough. So do the loops of a
-- socket over its writes and of a channel over its messages, which the system may keep going; a
-- handler that is out of fuel `spins`. The walks along a pipeline need one step more than it has
-- filters, and the events of an acceptor one more than connections that wait.
--
-- Not modelled: what the system calls do (their answers are a parameter, Io/System), threads and
-- atomics (a reference count is one number, changed in one step), the memory behind an address that
-- is handed to a system call, allocation that fails, formatting, the Win32 code of the sockets, UDP,
-- whose pipelines have the code of those of TCP, and the parts that only pass calls on to OpenSSL,
-- Win32 or the platform's sockets.
pub mod Bits
pub mod Buffer
pub mod Crypto
pub mod EventLoop
pub mod Io
pub mod Prelude
pub mod TaskQueue
pub mod Time
pub mod Util
