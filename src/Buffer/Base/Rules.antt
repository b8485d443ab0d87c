-- ===== src/Buffer/Base/Rules.antt =====
-- What each method of a share does when the memory is there.
use deprecated_tdk.Prelude.{
  ℕ, ◌+◌, ◌-◌, ◌<◌, ◌≡◌, Option, none, some, List, true, false, ◌==◌, if◌then◌else◌, arith, length,
}
use deprecated_tdk.Buffer.Memory.{Heap, Cell, ok, update, fill, alloc, load, put}
use deprecated_tdk.Buffer.Memory.Rules.{written, update-update}
use deprecated_tdk.Buffer.Base.{BufferBase, add_ref, dec_ref, create, ref_count}

-- `b` is one of the `k` users of the memory at `p`, which holds `bytes`.
pub record Holds (h : Heap) (b : BufferBase) (p k : ℕ) (bytes : List ℕ) : Type 0 where
  pub at : b.base ≡ some p
  pub own : b.owned ≡ true
  pub stored : h.cell p ≡ some (record { count = k; bytes = bytes })
  pub used : 0 < k
  pub sized : length bytes ≡ b.size
  pub below : p < h.next

-- What is left at a place when one of its `k` users goes.
abbrev pub released : ℕ → List ℕ → Option Cell
released k bytes = if k == 1 then none else some (record { count = k - 1; bytes = bytes })

abbrev pub share : ℕ → ℕ → BufferBase
share p sz = record { base = some p; size = sz; owned = true }

module _ (h : Heap) (b : BufferBase) (p k : ℕ) (bytes : List ℕ) (own : Holds h b p k bytes) where
  pub ref_count_lem : ref_count b h ≡ ok (k, h)
  unfolding ref_count load
  ref_count_lem = ground arith

  pub add_ref_lem :
      add_ref b h ≡ ok (tt, written h p (some (record { count = k + 1; bytes = bytes })))
  unfolding add_ref load put
  add_ref_lem = ground arith

  pub dec_ref_lem :
      dec_ref b h
      ≡ ok (
        if k == 1 then record b { base = none; owned = false } else b,
        written h p (released k bytes),
      )
  unfolding dec_ref load put
  dec_ref_lem = ground arith

pub create_lem :
    (sz : ℕ) (h : Heap)
    → create sz h
      ≡ ok (
        share h.next sz,
        record h {
          next = h.next + 1;
          cell =
              update h.cell h.next (some (record { count = 1; bytes = fill (h.junk h.next) 0 sz }));
        },
      )
unfolding create alloc add_ref load put
create_lem sz h = ground (
  arith,
  update-update h.cell h.next (some (record { count = 0; bytes = fill (h.junk h.next) 0 sz }))
      (some (record { count = 1; bytes = fill (h.junk h.next) 0 sz })),
)
