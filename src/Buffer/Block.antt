-- ===== src/Buffer/Block.antt =====
-- src/tdk/buffer/memory_block.cpp and marker.cpp: a block of memory with a read and a write
-- position. `std::size_t` is 64 bits wide; a method returns the block as it leaves it.
pub mod Cursor
pub mod Live
pub mod Write
pub mod Read
pub mod Align
pub mod Mark
pub mod Share
pub mod Padding
mod Tests
use Prim.Native.Nat.{min}
use deprecated_tdk.Prelude.{
  ℕ, zero, suc, ◌+◌, ◌-◌, ◌*◌, ◌%◌, ◌^◌, Option, none, some, List, [], ◌∷◌, Bool, true, false,
  length, take, drop, ltb, leb, ◌==◌, if◌then◌else◌,
}
use deprecated_tdk.Prelude.Int.{ℤ, pos, negsuc, ◌-ℤ◌, ltb_ℤ}
use deprecated_tdk.Buffer.Memory.{M, pure, ◌>>=◌, ◌>>◌, read_bytes, write_bytes}
use deprecated_tdk.Buffer.Base
use deprecated_tdk.Buffer.Base.{BufferBase, null_base}

-- `std::size_t` sums and differences wrap.
abbrev pub add_size : ℕ → ℕ → ℕ
add_size a b = (a + b) % 2 ^ 64

abbrev pub sub_size : ℕ → ℕ → ℕ
sub_size a b = (a + 2 ^ 64 - b) % 2 ^ 64

-- `static_cast< int32_t >` of a `std::size_t`
abbrev pub to_int32 : ℕ → ℤ
to_int32 n =
    if ltb (n % 2 ^ 32) (2 ^ 31) then pos (n % 2 ^ 32) else negsuc (2 ^ 32 - n % 2 ^ 32 - 1)

abbrev pub min_ℤ : ℤ → ℤ → ℤ
min_ℤ a b = if ltb_ℤ b a then b else a

-- `pos += move` of a `std::size_t` and an `int32_t`
abbrev pub advance : ℕ → ℤ → ℕ
advance n (pos v) = add_size n v
advance n (negsuc v) = sub_size n (suc v)

pub record MemoryBlock : Type 0 where
  pub base : BufferBase
  pub read_pos : ℕ
  pub write_pos : ℕ

-- marker.hpp, marker.cpp
pub record Marker : Type 0 where
  pub read_mark : ℕ
  pub write_mark : ℕ

-- The constructors.
pub create : ℕ → M MemoryBlock
create size = do base ← Base.create size; pure (record { base = base; read_pos = 0; write_pos = 0 })

pub wrap : ℕ → ℕ → ℕ → MemoryBlock
wrap p buf_size data_size = record {
  base = Base.wrap p buf_size;
  read_pos = 0;
  write_pos = data_size;
}

pub copy : MemoryBlock → M MemoryBlock
copy rhs = do base ← Base.copy rhs.base; pure (record rhs { base = base })

-- The destructor of the base runs when a block dies.
pub destroy : MemoryBlock → M (Unit {0})
destroy m = do gone ← Base.dec_ref m.base; pure tt

-- `operator=( const memory_block& )`: the old block dies in `temp`.
pub assign : MemoryBlock → MemoryBlock → M MemoryBlock
assign m rhs = do temp ← copy rhs; destroy m; pure temp

-- The move constructor: the new block, and what is left of `rhs`.
pub move_from : MemoryBlock → MemoryBlock × MemoryBlock
move_from rhs = (rhs, record { base = null_base; read_pos = 0; write_pos = 0 })

-- `operator=( memory_block&& )` leaves the positions of `rhs` as they are.
pub move_assign : MemoryBlock → MemoryBlock → M (MemoryBlock × MemoryBlock)
move_assign m rhs = do
  (base, rest) ← Base.move_assign m.base rhs.base
  pure (record rhs { base = base }, record rhs { base = rest })

pub space : MemoryBlock → ℕ
space m = sub_size m.base.size m.write_pos

pub length_of : MemoryBlock → ℕ
length_of m = sub_size m.write_pos m.read_pos

-- `length( std::size_t l )`
pub set_length : MemoryBlock → ℕ → MemoryBlock
set_length m l = record m { write_pos = add_size m.read_pos l }

-- A move forward by at most `room`, or back by at most `behind`; the result is what `wr_ptr` and
-- `rd_ptr` return.
bounded_move : ℤ → ℤ → ℤ → ℤ
unfolding ◌-ℤ◌
bounded_move room behind (pos v) = min_ℤ (pos v) room
bounded_move room behind (negsuc v) = pos 0 -ℤ min_ℤ (pos (suc v)) behind

-- `wr_ptr( int32_t move )`: forward by at most the space, back by at most the length.
pub wr_ptr : MemoryBlock → ℤ → ℤ × MemoryBlock
unfolding bounded_move space length_of
wr_ptr m move =
    let done = bounded_move (to_int32 (space m)) (to_int32 (length_of m)) move in
    (done, record m { write_pos = advance m.write_pos done })

-- `rd_ptr( int32_t move )`: forward by at most the length, back by at most the read position.
pub rd_ptr : MemoryBlock → ℤ → ℤ × MemoryBlock
unfolding bounded_move length_of
rd_ptr m move =
    let done = bounded_move (to_int32 (length_of m)) (to_int32 m.read_pos) move in
    (done, record m { read_pos = advance m.read_pos done })

pub reserve : MemoryBlock → ℕ → M MemoryBlock
reserve m sz = do
  base ← Base.reserve m.base sz
  pure (record {
    base = base;
    read_pos = min base.size m.read_pos;
    write_pos = min base.size m.write_pos;
  })

pub clear : MemoryBlock → M MemoryBlock
clear m = do
  base ← Base.reserve m.base m.base.size
  pure (record { base = base; read_pos = 0; write_pos = 0 })

-- `_write_pos = length(); _read_pos = 0;` after the bytes were moved to the front.
pub align : MemoryBlock → M MemoryBlock
align m = do
  m' ← reserve m m.base.size
  if m'.write_pos == m'.read_pos then clear m' else (do
    bytes ← read_bytes m'.base.base m'.read_pos (length_of m')
    write_bytes m'.base.base 0 bytes
    pure (record m' { read_pos = 0; write_pos = length_of m' }))

-- `swap( memory_block& )`: the two blocks after it.
pub swap : MemoryBlock → MemoryBlock → MemoryBlock × MemoryBlock
swap m rhs = (rhs, m)

pub mark : MemoryBlock → Marker
mark m = record { read_mark = m.read_pos; write_mark = m.write_pos }

-- `move( const marker& m )`
pub move_to : MemoryBlock → Marker → Bool × MemoryBlock
move_to m k =
    if ltb k.write_mark m.base.size
    then (true, record m { read_pos = k.read_mark; write_pos = k.write_mark })
    else (false, m)

-- An `int32_t` that is returned as a `std::size_t`.
abbrev pub to_size : ℤ → ℕ
to_size (pos v) = v
to_size (negsuc v) = 2 ^ 64 - suc v

-- The rest of `write` once there is room.
store : MemoryBlock → List ℕ → M (ℕ × MemoryBlock)
store m bytes = do
  let n = min (space m) (length bytes)
  write_bytes m.base.base m.write_pos (take n bytes)
  let (done, m') = wr_ptr m (to_int32 n)
  pure (to_size done, m')

-- `write( void* buf , std::size_t write_size )`; the list is what `buf` holds. `copy( p , n )` is
-- this function.
pub write : MemoryBlock → List ℕ → M (ℕ × MemoryBlock)
unfolding store
write m bytes = do m' ← reserve m (add_size m.write_pos (length bytes)); store m' bytes

-- `peek( void* buf , std::size_t peek_size )`: the bytes that go to `buf`; their number is returned.
pub peek : MemoryBlock → ℕ → M (List ℕ)
peek m n = read_bytes m.base.base m.read_pos (min (length_of m) n)

-- `read( void* buf , std::size_t read_size )`: the bytes that go to `buf`, the result, the block.
pub read : MemoryBlock → ℕ → M (List ℕ × ℕ × MemoryBlock)
read m n = do
  bytes ← peek m n
  let (done, m') = rd_ptr m (to_int32 (length bytes))
  pure (bytes, to_size done, m')

-- The loop of `padding`, `append` rounds of `*this << val`.
pub pad : ℕ → ℕ → MemoryBlock → M MemoryBlock
pad zero val m = pure m
pad (suc append) val m = do (n, m') ← write m (val ∷ []); pad append val m'

-- `padding( int align , uint8_t val )`, at a positive `align`
pub padding : ℕ → ℕ → MemoryBlock → M (ℕ × MemoryBlock)
padding align val m =
    let rest = length_of m % align in
    if rest == 0 then pure (0, m) else (do m' ← pad (align - rest) val m; pure (align - rest, m'))

-- `operator << ( memory_block& , const memory_block& )`: the bytes at `rd_ptr()` of another block.
pub append : MemoryBlock → MemoryBlock → M MemoryBlock
append m from = do
  bytes ← read_bytes from.base.base from.read_pos (length_of from)
  (n, m') ← write m bytes
  pure m'
