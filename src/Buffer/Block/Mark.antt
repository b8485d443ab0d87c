-- ===== src/Buffer/Block/Mark.antt =====
-- `mark` and `move` of a block.
use deprecated_tdk.Prelude.{
  ℕ, ◌+◌, ◌-◌, ◌^◌, ◌≤◌, ◌<◌, ◌≡◌, ◌∙◌, sym, ap, arith, List, ◌++◌, length, length-append, take,
  drop, true, false, ◌==◌, if◌then◌else◌, take-take, drop-take, take-length,
}
use deprecated_tdk.Buffer.Memory.{Heap, ok}
use deprecated_tdk.Buffer.Block.{MemoryBlock, write, mark, move_to}
use deprecated_tdk.Buffer.Block.Live.{Live, contents}
use deprecated_tdk.Buffer.Block.Read.{length-contents}
use deprecated_tdk.Buffer.Block.Write.{write_lem}

-- The block is back at its own mark if and only if it is not full: `move` refuses the mark of a
-- block whose write position is its size.
pub move_to-mark :
    (m : MemoryBlock)
    → m.write_pos ≤ m.base.size
    → move_to m (mark m) ≡ (if m.write_pos == m.base.size then false else true, m)
unfolding move_to mark
move_to-mark m within = ground arith

-- A write that put something behind a mark is undone by `move`: the block holds what it held when
-- the mark was taken.
pub move_to-write :
    (h : Heap) (m : MemoryBlock) (p k : ℕ) (bytes new : List ℕ)
    → Live h m p k bytes
    → 0 < length new
    → m.write_pos + length new < 2 ^ 31
    → (m₁ m₂ : MemoryBlock) × (h' : Heap) × (p' : ℕ) × (bytes' : List ℕ) × (write m new h
        ≡ ok ((length new, m₁), h'))
      × (move_to m₁ (mark m) ≡ (true, m₂))
      × Live h' m₂ p' 1 bytes'
      × (contents m₂ bytes' ≡ contents m bytes)
unfolding move_to mark
move_to-write h m p k bytes new live some_new small =
    let (m₁, h', p', bytes', run, live₁, all, same, away) =
      write_lem h m p k bytes new live small in
    let unread = m.write_pos - m.read_pos in
    let longer : m₁.write_pos ≡ m.write_pos + length new = omega (
      arith,
      length-contents h' m₁ p' 1 bytes' live₁,
      ap length all,
      length-append (contents m bytes) new,
      length-contents h m p k bytes live,
      same,
      live.ordered,
      live₁.ordered,
    ) in
    let m₂ : MemoryBlock = record m₁ { read_pos = m.read_pos; write_pos = m.write_pos } in
    let back : m.read_pos + unread ≡ m.write_pos = omega (arith, live.ordered) in
    let window : contents m₂ bytes' ≡ take unread (contents m₁ bytes') =
      sym (ap (λ j. drop m.read_pos (take j bytes')) back)
      ∙ ap (drop m.read_pos)
          (sym (take-take (m.read_pos + unread) m₁.write_pos bytes' (omega (arith, longer, back))))
      ∙ drop-take m.read_pos unread (take m₁.write_pos bytes')
      ∙ ap (λ j. take unread (drop j (take m₁.write_pos bytes'))) (sym same) in
    (
      m₁,
      m₂,
      h',
      p',
      bytes',
      run,
      ground (arith, longer, live₁.ordered),
      record { holds = live₁.holds; ordered = omega (arith, live.ordered, longer, live₁.ordered) },
      window
          ∙ ap (take unread) all
          ∙ ap (λ n. take n (contents m bytes ++ new)) (sym (length-contents h m p k bytes live))
          ∙ take-length (contents m bytes) new,
    )
