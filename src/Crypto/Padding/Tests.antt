-- ===== src/Crypto/Padding/Tests.antt =====
-- A padded block.
use deprecated_tdk.Prelude.{
  ℕ, ◌<◌, ◌≡◌, refl, Option, none, some, List, [], ◌∷◌, true, if◌then◌else◌, ◌==◌, ◌%◌, arith,
}
use deprecated_tdk.Buffer.Memory.{Heap, Cell, ok}
use deprecated_tdk.Buffer.Block.{MemoryBlock}
use deprecated_tdk.Buffer.Block.Live.{Live, contents}
use deprecated_tdk.Crypto.Padding.{pkcs5, pkcs5_data_size}
use deprecated_tdk.Crypto.Padding.Laws.{pkcs5_lem}

abbrev text : List ℕ
text = 65 ∷ 66 ∷ 67 ∷ []

abbrev cells : ℕ → Option Cell
cells q = if q == 0 then some (record { count = 1; bytes = text }) else none

abbrev heap : Heap
heap = record { next = 1; cell = cells; junk = λ a i. 0 }

abbrev block : MemoryBlock
block = record {
  base = record { base = some 0; size = 3; owned = true };
  read_pos = 0;
  write_pos = 3;
}

block-Live : Live heap block 0 1 text
block-Live = record {
  holds = record {
    at = refl;
    own = refl;
    stored = refl;
    used = omega arith;
    sized = refl;
    below = omega arith;
  };
  ordered = omega arith;
}

pkcs5_lem_example :
    (m' : MemoryBlock) × (h' : Heap) × (p' : ℕ) × (k' : ℕ) × (bytes' : List ℕ) × (pkcs5 block 8 heap
      ≡ ok (m', h'))
    × Live h' m' p' k' bytes'
    × (contents m' bytes' ≡ 65 ∷ 66 ∷ 67 ∷ 5 ∷ 5 ∷ 5 ∷ 5 ∷ 5 ∷ [])
    × (8 % 8 ≡ 0)
    × (0 < 5)
    × (pkcs5_data_size (65 ∷ 66 ∷ 67 ∷ 5 ∷ 5 ∷ 5 ∷ 5 ∷ 5 ∷ []) 8 ≡ some 3)
pkcs5_lem_example =
    pkcs5_lem 8 heap block 0 1 text block-Live (omega arith) (omega arith) (omega arith)
