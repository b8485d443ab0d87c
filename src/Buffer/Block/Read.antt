-- ===== src/Buffer/Block/Read.antt =====
-- `peek` and `read` on a block.
use Prim.Native.Nat.{min}
use deprecated_tdk.Prelude.{
  ℕ, ◌+◌, ◌-◌, ◌^◌, ◌≤◌, ◌<◌, ◌≡◌, ◌∙◌, sym, refl, ap, arith, some, List, [], ◌++◌, length, take,
  drop, take_all, empty_of_length, drop-take, drop-length-take, drop-drop, take-take-min,
  length-take, length-drop,
}
use deprecated_tdk.Buffer.Memory.{Heap, Cell, ok, ◌>>=◌, read_bytes}
use deprecated_tdk.Buffer.Memory.Rules.{bind-ok, read_bytes_lem}
use deprecated_tdk.Buffer.Block.{MemoryBlock, peek, read, write, length_of}
use deprecated_tdk.Buffer.Block.Cursor.{IsOrdered, rd_ptr-forward, length_of_lem}
use deprecated_tdk.Buffer.Block.Live.{Live, contents}
use deprecated_tdk.Buffer.Block.Write.{write_lem}

-- The bytes at the place of a block are enough to peek at it, whoever counts as a user.
pub peek_at :
    (h : Heap) (m : MemoryBlock) (p : ℕ) (c : Cell) (n : ℕ)
    → m.base.base ≡ some p
    → h.cell p ≡ some c
    → length c.bytes ≡ m.base.size
    → IsOrdered m
    → peek m n h ≡ ok (take n (contents m c.bytes), h)
unfolding peek
peek_at h m p c n at stored sized ordered =
    let unread = m.write_pos - m.read_pos in
    let fits : min (length_of m) n ≡ min unread n = omega (arith, length_of_lem m ordered) in
    let all : m.read_pos + unread ≡ m.write_pos = omega (arith, ordered) in
    let window : contents m c.bytes ≡ take unread (drop m.read_pos c.bytes) =
      ap (λ k. drop m.read_pos (take k c.bytes)) (sym all) ∙ drop-take m.read_pos unread c.bytes in
    ap (λ q. read_bytes q m.read_pos (min (length_of m) n) h) at
    ∙ ap (λ j. read_bytes (some p) m.read_pos j h) fits
    ∙ read_bytes_lem p m.read_pos (min unread n) h stored (omega (arith, sized, ordered))
    ∙ ap (λ t. ok (t, h))
        (sym (take-take-min n unread (drop m.read_pos c.bytes)) ∙ ap (take n) (sym window))

module _ (h : Heap) (m : MemoryBlock) (p k : ℕ) (bytes : List ℕ) (live : Live h m p k bytes) where
  pub length-contents : length (contents m bytes) ≡ m.write_pos - m.read_pos
  length-contents = omega (
    arith,
    length-drop m.read_pos (take m.write_pos bytes),
    length-take m.write_pos bytes,
    live.holds.sized,
    live.ordered,
  )

  pub contents_none : m.write_pos ≡ m.read_pos → contents m bytes ≡ []
  contents_none e = empty_of_length (contents m bytes) (omega (arith, length-contents))

  -- `peek` sees the unread bytes, as many as there are.
  pub peek_lem : (n : ℕ) → peek m n h ≡ ok (take n (contents m bytes), h)
  peek_lem n = peek_at h m p _ n live.holds.at live.holds.stored live.holds.sized live.ordered

  -- `read` takes the first `n` unread bytes, or all of them if there are fewer: it returns them
  -- and their number, leaves the memory alone, and the rest stays unread.
  pub read_lem :
      (n : ℕ)
      → let out = take n (contents m bytes) in
        (m' : MemoryBlock) × (read m n h ≡ ok ((out, length out, m'), h))
        × Live h m' p k bytes
        × (contents m' bytes ≡ drop n (contents m bytes))
        × (m'.write_pos ≡ m.write_pos)
  unfolding read
  read_lem n =
      let out = take n (contents m bytes) in
      let size : length out ≡ min n (m.write_pos - m.read_pos) =
        length-take n (contents m bytes) ∙ ap (min n) length-contents in
      let room : m.read_pos + length out ≤ m.write_pos = omega (arith, size, live.ordered) in
      (
        record m { read_pos = m.read_pos + length out },
        bind-ok (peek m n) _ h (peek_lem n)
            ∙ rw (rd_ptr-forward m (length out) live.ordered room) refl,
        record { holds = live.holds; ordered = omega (arith, live.ordered, room) },
        sym (drop-drop (length out) m.read_pos (take m.write_pos bytes))
            ∙ drop-length-take n (contents m bytes),
        refl,
      )

-- First in, first out: bytes that are written to a block come out of `read` behind the ones that
-- waited already, and a read of them all leaves the block empty and in order.
pub read-write :
    (h : Heap) (m : MemoryBlock) (p k : ℕ) (bytes new : List ℕ)
    → Live h m p k bytes
    → m.write_pos + length new < 2 ^ 31
    → let out = contents m bytes ++ new in
      (m' : MemoryBlock) × (h' : Heap) × ((do (n, m₁) ← write m new; read m₁ (length out)) h
        ≡ ok ((out, length out, m'), h'))
      × (length_of m' ≡ 0)
      × IsOrdered m'
read-write h m p k bytes new live small =
    let out = contents m bytes ++ new in
    let (m₁, h₁, p₁, bytes₁, run, live₁, all, same, away) =
      write_lem h m p k bytes new live small in
    let (m₂, run₂, live₂, rest, end) = read_lem h₁ m₁ p₁ 1 bytes₁ live₁ (length out) in
    let whole : take (length out) (contents m₁ bytes₁) ≡ out =
      ap (take (length out)) all ∙ take_all (length out) out (omega arith) in
    let none_left : length (contents m₂ bytes₁) ≡ 0 =
      omega (arith, ap length rest, length-drop (length out) (contents m₁ bytes₁), ap length all) in
    (
      m₂,
      h₁,
      bind-ok (write m new) _ h run ∙ run₂ ∙ ap (λ t. ok ((t, length t, m₂), h₁)) whole,
      omega (
        arith,
        length_of_lem m₂ live₂.ordered,
        length-contents h₁ m₂ p₁ 1 bytes₁ live₂,
        none_left,
      ),
      live₂.ordered,
    )
