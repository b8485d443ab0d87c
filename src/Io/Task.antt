-- ===== src/Io/Task.antt =====
-- The tasks of src/tdk/io/ip/tcp/socket (read_task, write_task, connect_task, all io::task), and the
-- error codes of src/tdk/error that they are given.
use deprecated_tdk.Prelude.{ℕ, Bool, true, false, List, [], ◌∷◌}
use deprecated_tdk.Io.Adapter.{BufferAdapter}

-- `std::error_code`: none, those of error_tdk.hpp, and `errno` as `platform::error( errno )` or
-- `epoll_error( errno )`.
pub data Error : Type 0 where
  no_error invalid_call network_remote_closed user_abort epoll_failed epoll_hang_up invalid_event :
      Error
  platform epoll : ℕ → Error

unfoldable pub is_error : Error → Bool
is_error no_error = false
is_error e = true

-- A task object: its address, and the fields of its class; `addrs` is what is left of the
-- addresses of a connect_task from `_addrs_it` on.
pub record IoTask : Type 0 where
  pub address : ℕ
  pub buffers : BufferAdapter
  pub addrs : List ℕ
  pub io_bytes : ℕ
  pub error : Error

unfoldable pub set_error : Error → IoTask → IoTask
set_error ec t = record t { error = ec }

unfoldable pub address_is_eof : IoTask → Bool
address_is_eof t = elim t.addrs [ [] ↦ true | a ∷ addrs ↦ false ]

-- `address_next()`
unfoldable pub address_next : IoTask → Bool × IoTask
unfolding address_is_eof
address_next t = elim t.addrs [
  | [] ↦ (false, t)
  | a ∷ addrs ↦ let t' = record t { addrs = addrs } in (address_is_eof t', t')
]
