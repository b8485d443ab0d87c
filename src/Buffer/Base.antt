-- ===== src/Buffer/Base.antt =====
-- src/tdk/buffer/buffer_base.cpp: a share in reference-counted memory, or memory of the caller.
-- A method returns the object as it leaves it; objects are not aliased (no `b = std::move( b )`).
pub mod Rules
pub mod Reserve
pub mod Share
use Prim.Native.Nat.{min}
use deprecated_tdk.Prelude.{
  ℕ, ◌+◌, ◌-◌, Option, none, some, List, Bool, true, false, ◌&&◌, leb, ◌==◌, if◌then◌else◌,
}
use deprecated_tdk.Buffer.Memory.{
  M, pure, throw, ◌>>=◌, ◌>>◌, invalid_argument, Cell, alloc, load, put, read_bytes, write_bytes,
}

-- `owned` says that `_allocator` is not null.
pub record BufferBase : Type 0 where
  pub base : Option ℕ
  pub size : ℕ
  pub owned : Bool

abbrev pub null_base : BufferBase
null_base = record { base = none; size = 0; owned = false }

pub add_ref : BufferBase → M (Unit {0})
add_ref b =
    if b.owned
    then (do c ← load b.base; put b.base (some (record c { count = c.count + 1 })))
    else pure tt

-- `fetch_sub(1) == 1` frees the memory. Without that the fields stay as they are.
pub dec_ref : BufferBase → M BufferBase
dec_ref b =
    if b.owned
    then (do
      c ← load b.base
      put b.base (if c.count == 1 then none else some (record c { count = c.count - 1 }))
      pure (if c.count == 1 then record b { base = none; owned = false } else b))
    else pure b

-- `buffer_base( std::size_t sz , allocator* alloc )`: a null `alloc` means the allocator of the
-- library, so the memory is counted in any case.
pub create : ℕ → M BufferBase
create sz = do
  p ← alloc sz
  let b : BufferBase = record { base = some p; size = sz; owned = true }
  add_ref b
  pure b

-- `buffer_base( void* base , std::size_t sz )` with no allocator: memory of the caller.
pub wrap : ℕ → ℕ → BufferBase
wrap p sz = record { base = some p; size = sz; owned = false }

-- The copy constructor.
pub copy : BufferBase → M BufferBase
copy rhs = if rhs.owned then (do add_ref rhs; pure rhs) else throw invalid_argument

-- `operator=( const buffer_base& )`: the old share dies in `_new`.
pub assign : BufferBase → BufferBase → M BufferBase
assign b rhs =
    if rhs.owned then (do fresh ← copy rhs; old ← dec_ref b; pure fresh) else throw invalid_argument

-- The move constructor: the new object, and what is left of `rhs`.
pub move_from : BufferBase → BufferBase × BufferBase
move_from rhs = (rhs, null_base)

-- `operator=( buffer_base&& )`
pub move_assign : BufferBase → BufferBase → M (BufferBase × BufferBase)
move_assign b rhs = do old ← dec_ref b; pure (rhs, null_base)

pub ref_count : BufferBase → M ℕ
ref_count b = if b.owned then (do c ← load b.base; pure c.count) else pure 1

-- The copy that `reserve` falls back to, and the end of the old share in `new_buffer`.
reallocate : BufferBase → ℕ → M BufferBase
reallocate b sz = do
  fresh ← create sz
  old ← read_bytes b.base 0 (min b.size sz)
  write_bytes fresh.base 0 old
  gone ← dec_ref b
  pure (record fresh { size = sz })

pub reserve : BufferBase → ℕ → M BufferBase
unfolding reallocate
reserve b sz = do n ← ref_count b; if n == 1 && leb sz b.size then pure b else reallocate b sz
