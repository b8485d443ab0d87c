-- ===== src/Io/Adapter.antt =====
-- src/tdk/io/buffer_adapter.cpp and src/tdk/io/ip/tcp/socket/write_task.cpp: the array of buffers
-- that is handed to `readv` and `writev`, and what is left of it after some bytes were written.
pub mod Remain
mod Tests
use deprecated_tdk.Prelude.{
  ℕ, zero, suc, ◌+◌, ◌-◌, ◌%◌, ◌^◌, Bool, true, false, List, [], ◌∷◌, ◌++◌, length, ltb, leb,
  if◌then◌else◌,
}

-- `iovec`: an address, and a length that is a `size_t`.
pub record Iovec : Type 0 where
  pub iov_base : ℕ
  pub iov_len : ℕ

-- `_buffers` up to `_count`.
pub record BufferAdapter : Type 0 where
  pub buffers : List Iovec

abbrev pub buffer_size : ℕ
buffer_size = 64

-- `buffer_adapter()`
unfoldable pub no_buffers : BufferAdapter
no_buffers = record { buffers = [] }

-- An `int`, by its 32-bit pattern, as a `size_t`.
abbrev pub widen : ℕ → ℕ
widen size = if ltb size (2 ^ 31) then size else size + (2 ^ 64 - 2 ^ 32)

-- `buffer_adapter( p , size )`
pub one_buffer : ℕ → ℕ → BufferAdapter
one_buffer p size = record { buffers = record { iov_base = p; iov_len = widen size } ∷ [] }

pub count : BufferAdapter → ℕ
count b = length b.buffers

unfoldable pub size_from : ℕ → List Iovec → ℕ
size_from size [] = size
size_from size (b ∷ bs) = size_from ((size + b.iov_len) % 2 ^ 32) bs

-- `size()`, the 32-bit pattern of an `int`.
unfoldable pub size : BufferAdapter → ℕ
unfolding size_from
size b = size_from 0 b.buffers

unfoldable pub push_back : ℕ → ℕ → BufferAdapter → Bool × BufferAdapter
unfolding count
push_back p size b = if leb buffer_size (count b) then (false, b) else (
  true,
  record { buffers = b.buffers ++ (record { iov_base = p; iov_len = widen size } ∷ []) },
)

-- The addresses of a buffer, in order.
unfoldable pub addresses : ℕ → ℕ → List ℕ
addresses p zero = []
addresses p (suc n) = p ∷ addresses (p + 1) n

unfoldable pub covered : List Iovec → List ℕ
unfolding addresses
covered [] = []
covered (b ∷ bs) = addresses b.iov_base b.iov_len ++ covered bs

-- The loop of `write_task::remain_buffers`: `impl->iov_len` is the length of the first buffer.
unfoldable pub remain_from : ℕ → ℕ → List Iovec → BufferAdapter → BufferAdapter
unfolding push_back
remain_from first writed [] buffer = buffer
remain_from first writed (b ∷ bs) buffer =
    let skip = remain_from first ((writed + 2 ^ 64 - first) % 2 ^ 64) bs buffer in
    let keep =
      remain_from first 0 bs
        (push_back (b.iov_base + writed) ((b.iov_len - writed) % 2 ^ 32) buffer).1 in
    if leb b.iov_len writed then skip else keep

abbrev pub first_len : List Iovec → ℕ
first_len [] = 0
first_len (b ∷ bs) = b.iov_len

-- `remain_buffers()`, with `io_bytes()` as an argument.
unfoldable pub remain_buffers : ℕ → BufferAdapter → BufferAdapter
unfolding remain_from no_buffers
remain_buffers io_bytes b = remain_from (first_len b.buffers) (widen io_bytes) b.buffers no_buffers
