-- ===== src/Buffer/Block/Cursor.antt =====
-- The two positions of a block: the order that memory_block.hpp promises, and how `wr_ptr` and
-- `rd_ptr` move them.
use deprecated_tdk.Prelude.{ℕ, suc, ◌+◌, ◌-◌, ◌^◌, ◌≤◌, ◌<◌, ◌≡◌, arith, ltb, if◌then◌else◌}
use deprecated_tdk.Prelude.Int.{ℤ, pos, negsuc, ◌-ℤ◌, ◌+ℤ◌}
use deprecated_tdk.Buffer.Block.{MemoryBlock, space, length_of, wr_ptr, rd_ptr, to_int32}

-- `0 <= _read_pos <= _write_pos <= size()`, at a size that an `int32_t` holds
pub record IsOrdered (m : MemoryBlock) : Type 0 where
  pub order : m.read_pos ≤ m.write_pos
  pub within : m.write_pos ≤ m.base.size
  pub small : m.base.size < 2 ^ 31

pub space_lem : (m : MemoryBlock) → IsOrdered m → space m ≡ m.base.size - m.write_pos
unfolding space
space_lem m v = omega arith

pub length_of_lem : (m : MemoryBlock) → IsOrdered m → length_of m ≡ m.write_pos - m.read_pos
unfolding length_of
length_of_lem m v = omega arith

-- An `int32_t`, but not the least one, which has no absolute value.
abbrev pub IsMove : ℤ → Type 0
IsMove (pos v) = v < 2 ^ 31
IsMove (negsuc v) = suc v < 2 ^ 31

-- The move that `wr_ptr` makes: at most the free space forward, at most the unread bytes back.
abbrev pub clamped : ℕ → ℕ → ℤ → ℤ
clamped room behind (pos v) = pos (if ltb room v then room else v)
clamped room behind (negsuc v) = pos 0 -ℤ pos (if ltb behind (suc v) then behind else suc v)

-- `wr_ptr` moves the write position by the move that it returns, and keeps the order.
pub wr_ptr-IsOrdered :
    (m : MemoryBlock) (move : ℤ)
    → IsOrdered m
    → IsMove move
    → let (done, m') = wr_ptr m move in
      (done ≡ clamped (m.base.size - m.write_pos) (m.write_pos - m.read_pos) move)
      × (pos m'.write_pos ≡ pos m.write_pos +ℤ done)
      × (m'.read_pos ≡ m.read_pos)
      × IsOrdered m'
unfolding wr_ptr ◌-ℤ◌ ◌+ℤ◌
wr_ptr-IsOrdered m (pos v) o h = ground arith
wr_ptr-IsOrdered m (negsuc v) o h = ground arith

-- `rd_ptr` moves the read position by the move that it returns, at most to the write position or
-- back to the start, and keeps the order.
pub rd_ptr-IsOrdered :
    (m : MemoryBlock) (move : ℤ)
    → IsOrdered m
    → IsMove move
    → let (done, m') = rd_ptr m move in
      (done ≡ clamped (m.write_pos - m.read_pos) m.read_pos move)
      × (pos m'.read_pos ≡ pos m.read_pos +ℤ done)
      × (m'.write_pos ≡ m.write_pos)
      × IsOrdered m'
unfolding rd_ptr ◌-ℤ◌ ◌+ℤ◌
rd_ptr-IsOrdered m (pos v) o h = ground arith
rd_ptr-IsOrdered m (negsuc v) o h = ground arith

-- What `write` and `read` do after they copied `n` bytes.
pub wr_ptr-forward :
    (m : MemoryBlock) (n : ℕ)
    → IsOrdered m
    → m.write_pos + n ≤ m.base.size
    → wr_ptr m (to_int32 n) ≡ (pos n, record m { write_pos = m.write_pos + n })
unfolding wr_ptr
wr_ptr-forward m n o h = ground arith

pub rd_ptr-forward :
    (m : MemoryBlock) (n : ℕ)
    → IsOrdered m
    → m.read_pos + n ≤ m.write_pos
    → rd_ptr m (to_int32 n) ≡ (pos n, record m { read_pos = m.read_pos + n })
unfolding rd_ptr
rd_ptr-forward m n o h = ground arith

-- In a block with 2 GiB or more of free space the cast of `space()` is negative, and a move forward
-- goes back: the write position falls by what the space lacks of 4 GiB.
pub wr_ptr-large :
    (m : MemoryBlock) (v : ℕ)
    → m.write_pos ≤ m.base.size
    → 2 ^ 31 ≤ m.base.size - m.write_pos
    → m.base.size - m.write_pos < 2 ^ 32
    → m.base.size < 2 ^ 64
    → v < 2 ^ 31
    → (wr_ptr m (pos v)).0 ≡ negsuc (2 ^ 32 - (m.base.size - m.write_pos) - 1)
unfolding wr_ptr
wr_ptr-large m v w low high fits h = ground arith
