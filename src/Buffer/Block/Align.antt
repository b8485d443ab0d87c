-- ===== src/Buffer/Block/Align.antt =====
-- `clear` and `align` on a block.
use deprecated_tdk.Prelude.{
  ℕ, ◌+◌, ◌-◌, ◌≡◌, ◌∙◌, sym, refl, ap, arith, some, List, length, take, drop, ◌==◌, Bool-cases,
  inl, inr, take-length, drop-take,
}
use deprecated_tdk.Buffer.Memory.{Heap, ok, pure, ◌>>=◌, ◌>>◌, read_bytes, write_bytes}
use deprecated_tdk.Buffer.Memory.Rules.{
  bind-ok, read_bytes_lem, write_bytes_lem, written, spliced, length-spliced, update_self,
}
use deprecated_tdk.Buffer.Base
use deprecated_tdk.Buffer.Base.{BufferBase}
use deprecated_tdk.Buffer.Base.Reserve.{reserve_lem}
use deprecated_tdk.Buffer.Block.{MemoryBlock, reserve, clear, align, length_of}
use deprecated_tdk.Buffer.Block.Cursor.{length_of_lem}
use deprecated_tdk.Buffer.Block.Live.{
  Live, contents, Apart, Apart-trans, block_reserve, reserved-Live, reserved-contents,
  reserved-Apart, written-Apart,
}
use deprecated_tdk.Buffer.Block.Read.{length-contents, contents_none}

-- `clear` empties a block and has the memory to itself; what others hold stays.
pub clear_lem :
    (h : Heap) (m : MemoryBlock) (p k : ℕ) (bytes : List ℕ)
    → Live h m p k bytes
    → (m' : MemoryBlock) × (h' : Heap) × (p' : ℕ) × (bytes' : List ℕ) × (clear m h ≡ ok (m', h'))
      × Live h' m' p' 1 bytes'
      × (m'.read_pos ≡ 0)
      × (m'.write_pos ≡ 0)
      × Apart h p k h' p'
unfolding clear
clear_lem h m p k bytes live =
    let (b', h', p', bytes', run, r) = reserve_lem h m.base p k bytes m.base.size live.holds in
    (
      record { base = b'; read_pos = 0; write_pos = 0 },
      h',
      p',
      bytes',
      bind-ok (Base.reserve m.base m.base.size) _ h run,
      record { holds = r.holds; ordered = omega (arith, r.capacity, live.ordered) },
      refl,
      refl,
      reserved-Apart live r,
    )

-- The rest of `align` on a block that is the only user of its memory and holds unread bytes.
module _ (h : Heap) (m : MemoryBlock) (p : ℕ) (bytes : List ℕ) (live : Live h m p 1 bytes) where
  abbrev unread : List ℕ
  unread = contents m bytes

  abbrev shifted : List ℕ
  shifted = spliced bytes 0 unread

  abbrev front : MemoryBlock
  front = record m { read_pos = 0; write_pos = m.write_pos - m.read_pos }

  abbrev after_shift : Heap
  after_shift = written h p (some (record { count = 1; bytes = shifted }))

  get_unread : read_bytes m.base.base m.read_pos (length_of m) h ≡ ok (unread, h)
  get_unread =
      let size : length_of m ≡ m.write_pos - m.read_pos = length_of_lem m live.ordered in
      let all : m.read_pos + (m.write_pos - m.read_pos) ≡ m.write_pos =
        omega (arith, live.ordered) in
      ap (λ q. read_bytes q m.read_pos (length_of m) h) live.holds.at
      ∙ ap (λ n. read_bytes (some p) m.read_pos n h) size
      ∙ read_bytes_lem p m.read_pos (m.write_pos - m.read_pos) h live.holds.stored
          (omega (arith, live.holds.sized, live.ordered))
      ∙ ap (λ t. ok (t, h))
          (sym (drop-take m.read_pos (m.write_pos - m.read_pos) bytes)
            ∙ ap (λ k. drop m.read_pos (take k bytes)) all)

  put_front : write_bytes m.base.base 0 unread h ≡ ok (tt, after_shift)
  put_front = rw live.holds.at (
      write_bytes_lem p 0 unread h live.holds.stored
        (omega (arith, length-contents h m p 1 bytes live, live.holds.sized, live.ordered)))

  shift_lem :
      (do
        bytes ← read_bytes m.base.base m.read_pos (length_of m)
        write_bytes m.base.base 0 bytes
        pure (record m { read_pos = 0; write_pos = length_of m }))
        h
      ≡ ok (front, after_shift)
  shift_lem =
      bind-ok (read_bytes m.base.base m.read_pos (length_of m)) _ h get_unread
      ∙ bind-ok (write_bytes m.base.base 0 unread) _ h put_front
      ∙ rw (length_of_lem m live.ordered) refl

  front-Live : Live after_shift front p 1 shifted
  front-Live = record {
    holds = record {
      at = live.holds.at;
      own = live.holds.own;
      stored = update_self h.cell p _;
      used = omega arith;
      sized =
          length-spliced bytes 0 unread
            (omega (arith, length-contents h m p 1 bytes live, live.holds.sized, live.ordered))
          ∙ live.holds.sized;
      below = live.holds.below;
    };
    ordered = omega (arith, live.ordered);
  }

  contents-front : contents front shifted ≡ unread
  contents-front =
      ap (λ n. take n shifted) (sym (length-contents h m p 1 bytes live))
      ∙ take-length unread (drop (0 + length unread) bytes)

-- `align` moves the unread bytes to the front of memory that the block has to itself: nothing that
-- was unread is lost, the read position is 0, and what other blocks hold stays as it is.
align_lem :
    (h : Heap) (m : MemoryBlock) (p k : ℕ) (bytes : List ℕ)
    → Live h m p k bytes
    → (m' : MemoryBlock) × (h' : Heap) × (p' : ℕ) × (bytes' : List ℕ) × (align m h ≡ ok (m', h'))
      × Live h' m' p' 1 bytes'
      × (contents m' bytes' ≡ contents m bytes)
      × (m'.read_pos ≡ 0)
      × (m'.write_pos ≡ m.write_pos - m.read_pos)
      × Apart h p k h' p'
unfolding align
align_lem h m p k bytes live =
    let (b', h', p', bytes', run, r) =
      block_reserve h m p k bytes live m.base.size live.ordered.within in
    let m₁ : MemoryBlock = record m { base = b' } in
    let live₁ : Live h' m₁ p' 1 bytes' =
      reserved-Live live r live.ordered.within live.ordered.small in
    let same = reserved-contents live r live.ordered.within in
    elim (Bool-cases (m.write_pos == m.read_pos)) [
      | inl equal ↦
          let both : m.write_pos ≡ m.read_pos = ground arith in
          let (m₂, h₂, p₂, bytes₂, run₂, live₂, low, high, away) =
            clear_lem h' m₁ p' 1 bytes' live₁ in
          (
            m₂,
            h₂,
            p₂,
            bytes₂,
            bind-ok (reserve m m.base.size) _ h run ∙ rw equal run₂,
            live₂,
            contents_none h₂ m₂ p₂ 1 bytes₂ live₂ (omega (arith, low, high))
                ∙ sym (contents_none h m p k bytes live both),
            low,
            omega (arith, high, both),
            Apart-trans (reserved-Apart live r) away,
          )
      | inr unequal ↦ (
        front h' m₁ p' bytes' live₁,
        after_shift h' m₁ p' bytes' live₁,
        p',
        shifted h' m₁ p' bytes' live₁,
        bind-ok (reserve m m.base.size) _ h run ∙ rw unequal (shift_lem h' m₁ p' bytes' live₁),
        front-Live h' m₁ p' bytes' live₁,
        contents-front h' m₁ p' bytes' live₁ ∙ same,
        refl,
        refl,
        Apart-trans (reserved-Apart live r) (written-Apart h' p' _),
      )
    ]
