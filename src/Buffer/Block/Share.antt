-- ===== src/Buffer/Block/Share.antt =====
-- Blocks that share memory: copy, assignment, destruction and the copy on write.
use Prim.Native.Nat.{min}
use mathlib.Core.Option
use deprecated_tdk.Prelude.{
  ℕ, zero, suc, ◌+◌, ◌^◌, ◌<◌, ◌≡◌, ◌≢◌, ◌∙◌, refl, ap, arith, Option, none, some, List, ◌++◌,
  length, take_all, take,
}
use deprecated_tdk.Buffer.Memory.{Heap, ok, err, dangling, Cell, ◌>>=◌, read_bytes, load}
use deprecated_tdk.Buffer.Memory.Rules.{bind-ok, written, written-written, update_same, update_self}
use deprecated_tdk.Buffer.Base
use deprecated_tdk.Buffer.Base.{BufferBase, add_ref, dec_ref, null_base}
use deprecated_tdk.Buffer.Base.Rules.{released, dec_ref_lem}
use deprecated_tdk.Buffer.Base.Share
use deprecated_tdk.Buffer.Base.Reserve.{bytes_at}
use deprecated_tdk.Buffer.Block.{
  MemoryBlock, copy, assign, destroy, move_assign, write, peek, length_of,
}
use deprecated_tdk.Buffer.Block.Cursor.{length_of_lem}
use deprecated_tdk.Buffer.Block.Live.{Live, contents}
use deprecated_tdk.Buffer.Block.Read.{peek_at, peek_lem}
use deprecated_tdk.Buffer.Block.Write.{write_lem}

-- The heap with the count at `p` set to `k`.
abbrev counted : Heap → ℕ → ℕ → List ℕ → Heap
counted h p k bytes = written h p (some (record { count = k; bytes = bytes }))

module _ (h : Heap) (m : MemoryBlock) (p k : ℕ) (bytes : List ℕ) (live : Live h m p k bytes) where
  copy_lem : copy m h ≡ ok (m, counted h p (k + 1) bytes)
  unfolding copy
  copy_lem = bind-ok (Base.copy m.base) _ h (Share.copy_lem h m.base p k bytes live.holds)

  -- Both blocks live on the memory that they share.
  shared-Live : Live (counted h p (k + 1) bytes) m p (k + 1) bytes
  shared-Live = record {
    holds = record {
      at = live.holds.at;
      own = live.holds.own;
      stored = update_self h.cell p _;
      used = omega arith;
      sized = live.holds.sized;
      below = live.holds.below;
    };
    ordered = live.ordered;
  }

  destroy_lem : destroy m h ≡ ok (tt, written h p (released k bytes))
  unfolding destroy
  destroy_lem = bind-ok (dec_ref m.base) _ h (dec_ref_lem h m.base p k bytes live.holds)

-- A copy that is destroyed again leaves the heap as it was.
pub destroy-copy :
    (h : Heap) (m : MemoryBlock) (p k : ℕ) (bytes : List ℕ)
    → Live h m p k bytes
    → (do twin ← copy m; destroy twin) h ≡ ok (tt, h)
destroy-copy h m p k bytes live =
    let h₁ = counted h p (k + 1) bytes in
    let live₁ = shared-Live h m p k bytes live in
    let back : written h₁ p (released (k + 1) bytes) ≡ h =
      ap (written h₁ p) (ground arith)
      ∙ written-written h p _ (some (record { count = k; bytes = bytes }))
      ∙ ap (λ f. record h { cell = f }) (update_same h.cell p _ live.holds.stored) in
    bind-ok (copy m) _ h (copy_lem h m p k bytes live)
    ∙ destroy_lem h₁ m p (k + 1) bytes live₁
    ∙ ap (λ t. ok (tt, t)) back

-- What stands at a place that holds some bytes.
cell_at :
    (h : Heap) (q : ℕ) (bytes : List ℕ)
    → bytes_at h q ≡ some bytes
    → (c : Cell) × (h.cell q ≡ some c) × (c.bytes ≡ bytes)
cell_at h q bytes e = go (h.cell q) refl
  where
    go : (o : Option Cell) → h.cell q ≡ o → (c : Cell) × (h.cell q ≡ some c) × (c.bytes ≡ bytes)
    go none at = ground arith
    go (some c) at = (c, at, ground arith)

-- Copy on write: what is written to a copy of a block is not seen through the block, whose bytes
-- stay where they were.
pub peek-write-copy :
    (h : Heap) (m : MemoryBlock) (p k : ℕ) (bytes new : List ℕ) (n : ℕ)
    → Live h m p k bytes
    → m.write_pos + length new < 2 ^ 31
    → (twin : MemoryBlock) × (h' : Heap) × ((do twin ← copy m; write twin new) h
        ≡ ok ((length new, twin), h'))
      × (peek m n h' ≡ ok (take n (contents m bytes), h'))
      × (peek twin (length (contents m bytes ++ new)) h' ≡ ok (contents m bytes ++ new, h'))
peek-write-copy h m p k bytes new n live small =
    let live₁ = shared-Live h m p k bytes live in
    let h₁ = counted h p (k + 1) bytes in
    let (twin, h', p', bytes', run, live', all, same, away) =
      write_lem h₁ m p (k + 1) bytes new live₁ small in
    let kept : bytes_at h' p ≡ some bytes =
      away.others p live.holds.below (λ e. omega (arith, live.holds.used))
      ∙ ap (Option.map (λ c. c.bytes)) (update_self h.cell p _) in
    let (c, stored, content) = cell_at h' p bytes kept in
    (
      twin,
      h',
      bind-ok (copy m) _ h (copy_lem h m p k bytes live) ∙ run,
      peek_at h' m p c n live.holds.at stored (ap length content ∙ live.holds.sized) live.ordered
          ∙ ap (λ t. ok (take n (contents m t), h')) content,
      peek_lem h' twin p' 1 bytes' live' (length (contents m bytes ++ new))
          ∙ ap (λ t. ok (t, h'))
              (ap (take _) all ∙ take_all _ (contents m bytes ++ new) (omega arith)),
    )

-- Assignment of a block with other memory: the assigned block is what the other one is, with one
-- more user of its memory; the old memory loses a user and is freed if that was the last one. No
-- other memory is touched.
assign_lem :
    (h : Heap) (m rhs : MemoryBlock) (p k q l : ℕ) (bytes other : List ℕ)
    → Live h m p k bytes
    → Live h rhs q l other
    → p ≢ q
    → (h' : Heap) × (assign m rhs h ≡ ok (rhs, h'))
      × Live h' rhs q (l + 1) other
      × (h'.cell p ≡ released k bytes)
      × ((r : ℕ) → r ≢ p → r ≢ q → h'.cell r ≡ h.cell r)
unfolding assign
assign_lem h m rhs p k q l bytes other live live₂ ne =
    let h₁ = counted h q (l + 1) other in
    let h₂ = written h₁ p (released k bytes) in
    let twin = shared-Live h rhs q l other live₂ in
    let old : Live h₁ m p k bytes = record {
      holds = record {
        at = live.holds.at;
        own = live.holds.own;
        stored = ground (arith, live.holds.stored);
        used = live.holds.used;
        sized = live.holds.sized;
        below = live.holds.below;
      };
      ordered = live.ordered;
    } in
    (
      h₂,
      bind-ok (copy rhs) _ h (copy_lem h rhs q l other live₂)
          ∙ bind-ok (destroy m) _ h₁ (destroy_lem h₁ m p k bytes old),
      record {
        holds = record {
          at = twin.holds.at;
          own = twin.holds.own;
          stored = ground arith;
          used = twin.holds.used;
          sized = twin.holds.sized;
          below = twin.holds.below;
        };
        ordered = twin.ordered;
      },
      update_self h₁.cell p _,
      λ r np nq. ground arith,
    )

read_null : (i n : ℕ) (h : Heap) → 0 < n → read_bytes none i n h ≡ err dangling
unfolding read_bytes load
read_null i zero h some_left = absurd (omega arith)
read_null i (suc n) h some_left = refl

-- Move assignment gives the memory to the block on the left, but leaves the positions of the block
-- on the right: that has the length it had and no memory behind it, and a read of it faults.
pub move_assign_lem :
    (h : Heap) (m rhs : MemoryBlock) (p k q l : ℕ) (bytes other : List ℕ) (n : ℕ)
    → Live h m p k bytes
    → Live h rhs q l other
    → rhs.read_pos < rhs.write_pos
    → (rest : MemoryBlock) × (h' : Heap) × (move_assign m rhs h ≡ ok ((rhs, rest), h'))
      × (h'.cell p ≡ released k bytes)
      × (length_of rest ≡ length_of rhs)
      × (peek rest (suc n) h' ≡ err dangling)
unfolding move_assign length_of peek
move_assign_lem h m rhs p k q l bytes other n live live₂ some_left = (
  record rhs { base = null_base },
  written h p (released k bytes),
  bind-ok (Base.move_assign m.base rhs.base) _ h
      (Share.move_assign_lem h m.base p k bytes live.holds rhs.base),
  update_self h.cell p _,
  refl,
  read_null rhs.read_pos (min (length_of rhs) (suc n)) _
      (omega (arith, length_of_lem rhs live₂.ordered)),
)
