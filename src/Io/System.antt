-- ===== src/Io/System.antt =====
-- The system calls that the sockets and channels make. They are not code of the repository: the
-- models take them as a parameter.
use deprecated_tdk.Prelude.{ℕ, Bool, Option}
use deprecated_tdk.Io.Adapter.{BufferAdapter}

-- What a call returns at last: a number of bytes, EAGAIN (for `connect`, EINPROGRESS), or another
-- `errno`.
pub data Answer : Type 0 where
  transferred : ℕ → Answer
  would_block : Answer
  failed : ℕ → Answer

-- A call may be interrupted (EINTR) some times before that.
pub data Reply : Type 0 where
  answered : Answer → Reply
  interrupted : Reply → Reply

-- `do { … } while ( ( r < 0 ) && ( errno == EINTR ) )`
unfoldable pub retry : Reply → Answer
retry (answered a) = a
retry (interrupted r) = retry r

-- Each call is told how many calls were made before it.
pub record System : Type 0 where
  pub readv : ℕ → BufferAdapter → Reply
  pub writev : ℕ → BufferAdapter → Reply
  pub connect : ℕ → ℕ → Reply
  -- `epoll::register_handle`: none, or the `errno` of a failure
  pub register : ℕ → Option ℕ
  -- `get_option( SO_ERROR )`, and `errno`
  pub socket_error : ℕ → Option ℕ
  pub errno : ℕ → ℕ
  pub open_tcp : ℕ → ℕ → Bool
  pub set_non_blocking : ℕ → Bool
