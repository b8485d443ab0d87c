-- ===== src/Buffer/Block/Write.antt =====
-- `write` appends to a block, and to no other block.
use Prim.Native.Nat.{min}
use deprecated_tdk.Prelude.{
  ℕ, ◌+◌, ◌^◌, ◌≤◌, ◌<◌, ◌≡◌, ◌∙◌, sym, refl, ap, arith, List, ◌++◌, some, length, take, drop,
  take_all, take-append_add, drop-append_le, take-length, length-take,
}
use deprecated_tdk.Buffer.Memory.{Heap, ok, write_bytes}
use deprecated_tdk.Buffer.Memory.Rules.{
  bind-ok, written, write_bytes_lem, spliced, length-spliced, update_self,
}
use deprecated_tdk.Buffer.Block.{MemoryBlock, reserve, write, store, space, add_size}
use deprecated_tdk.Buffer.Block.Cursor.{IsOrdered, wr_ptr-forward, space_lem}
use deprecated_tdk.Buffer.Block.Live.{
  Live, contents, Apart, block_reserve, Apart-trans, reserved-Apart, written-Apart, reserved-Live,
  reserved-contents,
}

-- The window of a block after `new` is put behind its `w` written bytes.
window-spliced :
    (r w : ℕ) (old new : List ℕ)
    → r ≤ w
    → w + length new ≤ length old
    → drop r (take (w + length new) (spliced old w new)) ≡ drop r (take w old) ++ new
window-spliced r w old new order room =
    ap (drop r) front ∙ drop-append_le r (take w old) new (omega (arith, written_length))
  where
    written_length : length (take w old) ≡ w
    written_length = omega (arith, length-take w old)

    front : take (w + length new) (spliced old w new) ≡ take w old ++ new
    front =
        ap (λ k. take (k + length new) (spliced old w new)) (sym written_length)
        ∙ take-append_add (take w old) (new ++ drop (w + length new) old) (length new)
        ∙ ap (λ t. take w old ++ t) (take-length new (drop (w + length new) old))

-- A write with room for it.
module _ (h : Heap) (m : MemoryBlock) (p : ℕ) (bytes new : List ℕ) (live : Live h m p 1 bytes)
    (room : m.write_pos + length new ≤ m.base.size) where
  abbrev stored : List ℕ
  stored = spliced bytes m.write_pos new

  abbrev after_store : Heap
  after_store = written h p (some (record { count = 1; bytes = stored }))

  abbrev longer : MemoryBlock
  longer = record m { write_pos = m.write_pos + length new }

  put_new : write_bytes m.base.base m.write_pos new h ≡ ok (tt, after_store)
  put_new =
      rw live.holds.at
        (write_bytes_lem p m.write_pos new h live.holds.stored (omega (arith, live.holds.sized)))

  longer-IsOrdered : IsOrdered longer
  longer-IsOrdered = omega (arith, live.ordered, room)

  longer-Live : Live after_store longer p 1 stored
  longer-Live = record {
    holds = record {
      at = live.holds.at;
      own = live.holds.own;
      stored = update_self h.cell p _;
      used = omega arith;
      sized =
          length-spliced bytes m.write_pos new (omega (arith, live.holds.sized)) ∙ live.holds.sized;
      below = live.holds.below;
    };
    ordered = longer-IsOrdered;
  }

  contents-longer : contents longer stored ≡ contents m bytes ++ new
  contents-longer =
      window-spliced m.read_pos m.write_pos bytes new live.ordered.order
        (omega (arith, live.holds.sized))

  store_lem : store m new h ≡ ok ((length new, longer), after_store)
  unfolding store
  store_lem =
      let fits : min (space m) (length new) ≡ length new =
        omega (arith, room, live.ordered, space_lem m live.ordered) in
      rw
        (
          fits,
          take_all (length new) new (omega arith),
          wr_ptr-forward m (length new) live.ordered room,
        )
        (bind-ok (write_bytes m.base.base m.write_pos new) _ h put_new)

-- `write` on a block, whoever else uses its memory: the bytes go behind the unread ones, their
-- number is returned, and the block is in order and has its memory to itself. What other blocks
-- hold stays as it is, also where they shared the memory.
pub write_lem :
    (h : Heap) (m : MemoryBlock) (p k : ℕ) (bytes new : List ℕ)
    → Live h m p k bytes
    → m.write_pos + length new < 2 ^ 31
    → (m' : MemoryBlock) × (h' : Heap) × (p' : ℕ) × (bytes' : List ℕ) × (write m new h
        ≡ ok ((length new, m'), h'))
      × Live h' m' p' 1 bytes'
      × (contents m' bytes' ≡ contents m bytes ++ new)
      × (m'.read_pos ≡ m.read_pos)
      × Apart h p k h' p'
unfolding write
write_lem h m p k bytes new live small =
    let sz = add_size m.write_pos (length new) in
    let fits : sz ≡ m.write_pos + length new = omega arith in
    let (b', h', p', bytes', run, r) = block_reserve h m p k bytes live sz (omega arith) in
    let live' = reserved-Live live r (omega arith) (omega arith) in
    let room : m.write_pos + length new ≤ b'.size = omega (arith, r.room) in
    let m₁ : MemoryBlock = record m { base = b' } in
    (
      longer h' m₁ p' bytes' new live' room,
      after_store h' m₁ p' bytes' new live' room,
      p',
      stored h' m₁ p' bytes' new live' room,
      bind-ok (reserve m sz) _ h run ∙ store_lem h' m₁ p' bytes' new live' room,
      longer-Live h' m₁ p' bytes' new live' room,
      contents-longer h' m₁ p' bytes' new live' room
          ∙ ap (λ t. t ++ new) (reserved-contents live r (omega arith)),
      refl,
      Apart-trans (reserved-Apart live r) (written-Apart h' p' _),
    )
