-- ===== src/Buffer/Block/Live.antt =====
-- A block over counted memory, what it holds, and `reserve`, `clear` and `align` on it.
use Prim.Native.Nat.{min}
use deprecated_tdk.Prelude.{ℕ, ◌^◌, ◌≤◌, ◌<◌, ◌≡◌, ◌≢◌, ◌∙◌, ap, arith, List, some, take, drop}
use deprecated_tdk.Buffer.Memory.{Heap, ok}
use deprecated_tdk.Buffer.Memory.Rules.{bind-ok, written}
use deprecated_tdk.Buffer.Base
use deprecated_tdk.Buffer.Base.{BufferBase}
use deprecated_tdk.Buffer.Base.Rules.{Holds}
use deprecated_tdk.Buffer.Base.Reserve.{Reserved, reserve_lem, bytes_at}
use deprecated_tdk.Buffer.Block.{MemoryBlock, reserve}
use deprecated_tdk.Buffer.Block.Cursor.{IsOrdered}

-- `m` is one of the `k` users of the memory at `p`, which holds `bytes`.
pub record Live (h : Heap) (m : MemoryBlock) (p k : ℕ) (bytes : List ℕ) : Type 0 where
  pub holds : Holds h m.base p k bytes
  pub ordered : IsOrdered m

-- The bytes that wait to be read.
abbrev pub contents : MemoryBlock → List ℕ → List ℕ
contents m bytes = drop m.read_pos (take m.write_pos bytes)

-- What a method that changes a block leaves alone: the bytes at any other place, and those at its
-- own place if the block was not the only user. At the end it uses `p'`, which is none of those.
pub record Apart (h : Heap) (p k : ℕ) (h' : Heap) (p' : ℕ) : Type 0 where
  pub others : (q : ℕ) → q < h.next → (q ≡ p → 1 < k) → bytes_at h' q ≡ bytes_at h q
  pub apart : (q : ℕ) → q < h.next → (q ≡ p → 1 < k) → q ≢ p'
  pub fresh : h.next ≤ h'.next

-- The block is the only user in between.
pub Apart-trans :
    {h h₁ h₂ : Heap} {p k p₁ p₂ : ℕ} → Apart h p k h₁ p₁ → Apart h₁ p₁ 1 h₂ p₂ → Apart h p k h₂ p₂
Apart-trans {h} {h₁} {h₂} {p} {k} {p₁} {p₂} a b = record {
  others = λ q lt ne.
      b.others q (omega (arith, a.fresh)) (λ e. absurd (a.apart q lt ne e)) ∙ a.others q lt ne;
  apart = λ q lt ne. b.apart q (omega (arith, a.fresh)) (λ e. absurd (a.apart q lt ne e));
  fresh = omega (arith, a.fresh, b.fresh);
}

module _ (h : Heap) (m : MemoryBlock) (p k : ℕ) (bytes : List ℕ) (live : Live h m p k bytes)
    (sz : ℕ) where
  -- With no less than the written bytes asked for, both positions stay.
  pub block_reserve :
      m.write_pos ≤ sz
      → (b' : BufferBase) × (h' : Heap) × (p' : ℕ) × (bytes' : List ℕ) × (reserve m sz h
          ≡ ok (record m { base = b' }, h'))
        × Reserved h m.base p k bytes sz b' h' p' bytes'
  unfolding reserve
  block_reserve fits =
      let (b', h', p', bytes', run, r) = reserve_lem h m.base p k bytes sz live.holds in
      let low : min b'.size m.read_pos ≡ m.read_pos = omega (arith, r.room, live.ordered.order) in
      let high : min b'.size m.write_pos ≡ m.write_pos = omega (arith, r.room) in
      (b', h', p', bytes', bind-ok (Base.reserve m.base sz) _ h run ∙ rw (low, high), r)

-- The block after `reserve`, and what it holds.
module _ {h : Heap} {m : MemoryBlock} {p k sz : ℕ} {bytes : List ℕ} {b' : BufferBase} {h' : Heap}
    {p' : ℕ} {bytes' : List ℕ} (live : Live h m p k bytes)
    (r : Reserved h m.base p k bytes sz b' h' p' bytes') where
  pub reserved-Live : m.write_pos ≤ sz → sz < 2 ^ 31 → Live h' (record m { base = b' }) p' 1 bytes'
  reserved-Live fits small = record {
    holds = r.holds;
    ordered = omega (arith, live.ordered, r.room, r.capacity);
  }

  pub reserved-contents :
      m.write_pos ≤ sz → contents (record m { base = b' }) bytes' ≡ contents m bytes
  reserved-contents fits = ap (drop m.read_pos) (r.same_bytes m.write_pos live.ordered.within fits)

  pub reserved-Apart : Apart h p k h' p'
  reserved-Apart = record { others = r.others; apart = r.apart; fresh = r.fresh }

-- One overwritten place.
pub written-Apart :
    (h : Heap) (p : ℕ) (bytes : List ℕ)
    → Apart h p 1 (written h p (some (record { count = 1; bytes = bytes }))) p
written-Apart h p bytes = record {
  others =
      λ q lt ne. let other : q ≢ p = λ e. absurd (omega (arith, ne e)) in ground (arith, other);
  apart = λ q lt ne e. absurd (omega (arith, ne e));
  fresh = omega arith;
}
