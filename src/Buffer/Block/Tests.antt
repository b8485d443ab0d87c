-- ===== src/Buffer/Block/Tests.antt =====
-- Blocks on a heap where memory is shared and memory is not.
use deprecated_tdk.Prelude.{
  ℕ, ◌≡◌, refl, Option, none, some, List, [], ◌∷◌, if◌then◌else◌, ◌==◌, arith,
}
use deprecated_tdk.Buffer.Memory.{Heap, Cell, ok, ◌>>=◌}
use deprecated_tdk.Buffer.Base
use deprecated_tdk.Buffer.Base.{BufferBase}
use deprecated_tdk.Buffer.Base.Rules.{share}
use deprecated_tdk.Buffer.Base.Reserve.{Reserved, reserve_lem}
use deprecated_tdk.Buffer.Block.{MemoryBlock, copy, write, read, peek, length_of}
use deprecated_tdk.Buffer.Block.Cursor.{IsOrdered}
use deprecated_tdk.Buffer.Block.Live.{Live, contents, Apart}
use deprecated_tdk.Buffer.Block.Write.{write_lem}
use deprecated_tdk.Buffer.Block.Read.{read-write}
use deprecated_tdk.Buffer.Block.Share.{peek-write-copy}

-- Two users share the memory at 0; the memory at 1 has one user.
abbrev four : List ℕ
four = 10 ∷ 20 ∷ 30 ∷ 40 ∷ []

abbrev two : List ℕ
two = 1 ∷ 2 ∷ []

abbrev cells : ℕ → Option Cell
cells q =
    if q == 0
    then some (record { count = 2; bytes = four })
    else if q == 1
    then some (record { count = 1; bytes = two })
    else none

abbrev heap : Heap
heap = record { next = 2; cell = cells; junk = λ a i. 0 }

abbrev shared : MemoryBlock
shared = record { base = share 0 4; read_pos = 1; write_pos = 3 }

abbrev sole : MemoryBlock
sole = record { base = share 1 2; read_pos = 0; write_pos = 2 }

shared-Live : Live heap shared 0 2 four
shared-Live = record {
  holds = record {
    at = refl;
    own = refl;
    stored = refl;
    used = omega arith;
    sized = refl;
    below = omega arith;
  };
  ordered = omega arith;
}

sole-Live : Live heap sole 1 1 two
sole-Live = record {
  holds = record {
    at = refl;
    own = refl;
    stored = refl;
    used = omega arith;
    sized = refl;
    below = omega arith;
  };
  ordered = omega arith;
}

reserve_lem_example :
    (b' : BufferBase) × (h' : Heap) × (p' : ℕ) × (bytes' : List ℕ) × (Base.reserve shared.base 9
        heap
      ≡ ok (b', h'))
    × Reserved heap shared.base 0 2 four 9 b' h' p' bytes'
reserve_lem_example = reserve_lem heap shared.base 0 2 four 9 shared-Live.holds

-- A block of 3 GiB, empty.
abbrev large : MemoryBlock
large = record { base = share 0 3_221_225_472; read_pos = 0; write_pos = 0 }

write_lem_example :
    (m' : MemoryBlock) × (h' : Heap) × (p' : ℕ) × (bytes' : List ℕ) × (write shared two heap
      ≡ ok ((2, m'), h'))
    × Live h' m' p' 1 bytes'
    × (contents m' bytes' ≡ 20 ∷ 30 ∷ 1 ∷ 2 ∷ [])
    × (m'.read_pos ≡ 1)
    × Apart heap 0 2 h' p'
write_lem_example = write_lem heap shared 0 2 four two shared-Live (omega arith)

read-write_example :
    (m' : MemoryBlock) × (h' : Heap) × ((do (n, m₁) ← write shared two; read m₁ 4) heap
      ≡ ok ((20 ∷ 30 ∷ 1 ∷ 2 ∷ [], 4, m'), h'))
    × (length_of m' ≡ 0)
    × IsOrdered m'
read-write_example = read-write heap shared 0 2 four two shared-Live (omega arith)

peek-write-copy_example :
    (twin : MemoryBlock) × (h' : Heap) × ((do twin ← copy sole; write twin (7 ∷ [])) heap
      ≡ ok ((1, twin), h'))
    × (peek sole 2 h' ≡ ok (two, h'))
    × (peek twin 3 h' ≡ ok (1 ∷ 2 ∷ 7 ∷ [], h'))
peek-write-copy_example = peek-write-copy heap sole 1 1 two (7 ∷ []) 2 sole-Live (omega arith)
