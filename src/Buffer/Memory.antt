-- ===== src/Buffer/Memory.antt =====
-- What buffer_base.cpp asks of the machine: `alloc` and `free` of an allocator, the reference count
-- in front of the data, `memcpy`, and the exception of the copy constructor. An address stands for
-- one allocation; its data is a list of bytes. A read or write of memory that is not allocated, or
-- outside of it, is undefined in the source: here it ends the run with a fault.
pub mod Rules
use Prim.Native.Nat.{min}
use deprecated_tdk.Prelude.{
  ℕ, zero, suc, ◌+◌, ◌-◌, Option, none, some, List, [], ◌∷◌, ◌++◌, Bool, true, false, length, take,
  drop, leb, ◌==◌, if◌then◌else◌,
}

pub data Fault : Type 0 where
  dangling out_of_range invalid_argument : Fault

pub data Res {ℓ} (A : Type ℓ) : Type ℓ where
  ok : A → Res A
  err : Fault → Res A

-- One allocation: the `std::atomic<int>` that counts its users, and the data behind it.
pub record Cell : Type 0 where
  pub count : ℕ
  pub bytes : List ℕ

-- `junk a i` is what byte `i` of a fresh allocation at `a` happens to hold.
pub record Heap : Type 0 where
  pub next : ℕ
  pub cell : ℕ → Option Cell
  pub junk : ℕ → ℕ → ℕ

abbrev pub M : Type 0 → Type 0
M A = Heap → Res (A × Heap)

abbrev pub pure : {A : Type 0} → A → M A
pure a h = ok (a, h)

abbrev pub throw : {A : Type 0} → Fault → M A
throw e h = err e

infixl 5 ◌>>=◌ ◌>>◌
abbrev pub ◌>>=◌ : {A B : Type 0} → M A → (A → M B) → M B
◌>>=◌ m f h = elim (m h) [ err e ↦ err e | ok (a, h') ↦ f a h' ]

abbrev pub update : (ℕ → Option Cell) → ℕ → Option Cell → ℕ → Option Cell
update f p c q = if p == q then c else f q

abbrev pub ◌>>◌ : {A : Type 0} → M (Unit {0}) → M A → M A
first >> next = first >>= λ done. next

-- The bytes that fresh memory holds, from index `i` on.
unfoldable pub fill : (ℕ → ℕ) → ℕ → ℕ → List ℕ
fill junk i zero = []
fill junk i (suc n) = junk i ∷ fill junk (i + 1) n

unfoldable pub alloc : ℕ → M ℕ
alloc n h =
    let fresh : Cell = record { count = 0; bytes = fill (h.junk h.next) 0 n } in
    ok (h.next, record h { next = h.next + 1; cell = update h.cell h.next (some fresh) })

-- A pointer that is null, or to memory that was freed.
unfoldable pub load : Option ℕ → M Cell
load none h = err dangling
load (some p) h = elim (h.cell p) [ none ↦ err dangling | some c ↦ ok (c, h) ]

-- The write itself: `some c` fills the place, `none` gives it back.
unfoldable pub put : Option ℕ → Option Cell → M (Unit {0})
put none c h = err dangling
put (some p) c h = ok (tt, record h { cell = update h.cell p c })

-- `memcpy` of `n` bytes from offset `i` of the memory at `p`; no bytes touch no memory.
unfoldable pub read_bytes : Option ℕ → ℕ → ℕ → M (List ℕ)
read_bytes p i zero = pure []
read_bytes p i (suc n) = do
  c ← load p
  if leb (i + suc n) (length c.bytes)
      then pure (take (suc n) (drop i c.bytes))
      else throw out_of_range

-- `memcpy` of `bytes` to offset `i` of the memory at `p`.
unfoldable pub write_bytes : Option ℕ → ℕ → List ℕ → M (Unit {0})
write_bytes p i [] = pure tt
write_bytes p i (x ∷ xs) = do
  c ← load p
  let after : Cell = record c {
    bytes = take i c.bytes ++ (x ∷ (xs ++ drop (i + suc (length xs)) c.bytes));
  }
  if leb (i + suc (length xs)) (length c.bytes) then put p (some after) else throw out_of_range
