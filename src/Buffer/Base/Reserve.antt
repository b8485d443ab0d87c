-- ===== src/Buffer/Base/Reserve.antt =====
-- `reserve` leaves a share of its own, with the bytes that fit.
use Prim.Native.Nat.{min, max}
use mathlib.Core.Option
use deprecated_tdk.Prelude.{
  ℕ, ◌+◌, ◌≤◌, ◌<◌, ◌≡◌, ◌≢◌, ◌∙◌, refl, Option, some, List, true, false, ◌&&◌, leb, ◌==◌, arith,
  length, take, drop, length-take, length-drop, length-append, take-append_le, take-take,
  Bool-cases, inl, inr,
}
use deprecated_tdk.Buffer.Memory.{Heap, ok, update, fill, read_bytes, write_bytes}
use deprecated_tdk.Buffer.Memory.Rules.{
  length-fill, written, bind-ok, update-update, update_self, spliced, read_bytes_lem,
  write_bytes_lem,
}
use deprecated_tdk.Buffer.Base.{BufferBase, ref_count, dec_ref, create, reserve, reallocate}
use deprecated_tdk.Buffer.Base.Rules.{
  Holds, released, share, create_lem, dec_ref_lem, ref_count_lem,
}

module _ (h : Heap) (b : BufferBase) (p k : ℕ) (bytes : List ℕ) (own : Holds h b p k bytes)
    (sz : ℕ) where
  -- The bytes that are copied, and what the new memory holds then.
  abbrev pub kept : List ℕ
  kept = take (min b.size sz) bytes

  abbrev pub moved : List ℕ
  moved = spliced (fill (h.junk h.next) 0 sz) 0 kept

  -- The heap with the new memory, and then without the old share.
  abbrev with_new : List ℕ → Heap
  with_new content = record h {
    next = h.next + 1;
    cell = update h.cell h.next (some (record { count = 1; bytes = content }));
  }

  abbrev after_move : Heap
  after_move = written (with_new moved) p (released k bytes)

  length-kept : length kept ≡ min b.size sz
  length-kept = omega (arith, length-take (min b.size sz) bytes, own.sized)

  old_cell :
      (content : List ℕ) → (with_new content).cell p ≡ some (record { count = k; bytes = bytes })
  old_cell content = ground (arith, own.stored, own.below)

  still : (content : List ℕ) → Holds (with_new content) b p k bytes
  still content = record {
    at = own.at;
    own = own.own;
    stored = old_cell content;
    used = own.used;
    sized = own.sized;
    below = omega (arith, own.below);
  }

  fill_new :
      write_bytes (some h.next) 0 kept (with_new (fill (h.junk h.next) 0 sz))
      ≡ ok (tt, with_new moved)
  fill_new =
      write_bytes_lem h.next 0 kept (with_new (fill (h.junk h.next) 0 sz))
        (update_self h.cell h.next _) (omega (arith, length-kept, length-fill (h.junk h.next) 0 sz))
      ∙ rw (update-update h.cell h.next)

  read_old :
      (content : List ℕ)
      → read_bytes b.base 0 (min b.size sz) (with_new content) ≡ ok (kept, with_new content)
  read_old content = rw own.at (
      read_bytes_lem p 0 (min b.size sz) (with_new content) (old_cell content)
        (omega (arith, own.sized)))

  reallocate_lem : reallocate b sz h ≡ ok (share h.next sz, after_move)
  unfolding reallocate
  reallocate_lem =
      bind-ok (create sz) _ h (create_lem sz h)
      ∙ bind-ok (read_bytes b.base 0 (min b.size sz)) _ _ (read_old (fill (h.junk h.next) 0 sz))
      ∙ bind-ok (write_bytes (some h.next) 0 kept) _ _ fill_new
      ∙ bind-ok (dec_ref b) _ (with_new moved)
          (dec_ref_lem (with_new moved) b p k bytes (still moved))

  reserve-keeps : k ≡ 1 → sz ≤ b.size → reserve b sz h ≡ ok (b, h)
  unfolding reserve
  reserve-keeps e fits =
      let sole : (k == 1 && leb sz b.size) ≡ true = ground arith in
      bind-ok (ref_count b) _ h (ref_count_lem h b p k bytes own) ∙ rw sole

  reserve-moves : (k ≡ 1 → b.size < sz) → reserve b sz h ≡ ok (share h.next sz, after_move)
  unfolding reserve
  reserve-moves e =
      let shared : (k == 1 && leb sz b.size) ≡ false = ground arith in
      bind-ok (ref_count b) _ h (ref_count_lem h b p k bytes own) ∙ rw shared reallocate_lem

  new_cell : after_move.cell h.next ≡ some (record { count = 1; bytes = moved })
  new_cell = ground (arith, own.below)

  new_share-Holds : Holds after_move (share h.next sz) h.next 1 moved
  new_share-Holds = record {
    at = refl;
    own = refl;
    stored = new_cell;
    used = omega arith;
    sized = omega (
      arith,
      length-append kept (drop (0 + length kept) (fill (h.junk h.next) 0 sz)),
      length-drop (0 + length kept) (fill (h.junk h.next) 0 sz),
      length-fill (h.junk h.next) 0 sz,
      length-kept,
    );
    below = omega arith;
  }

-- The bytes at a place, whoever uses it.
abbrev pub bytes_at : Heap → ℕ → Option (List ℕ)
bytes_at h q = Option.map (λ c. c.bytes) (h.cell q)

-- After `reserve` the object is the one user of memory that is large enough; its first bytes are
-- what they were, up to the smaller size. `k` users shared the memory at `p` before: with room and
-- no other user nothing changes, else the memory is new, has the size that was asked for, and the
-- memory at `p` has one user less, or is freed. All other memory is left alone.
pub record Reserved (h : Heap) (b : BufferBase) (p k : ℕ) (bytes : List ℕ) (sz : ℕ)
    (b' : BufferBase) (h' : Heap) (p' : ℕ) (bytes' : List ℕ) : Type 0 where
  pub holds : Holds h' b' p' 1 bytes'
  pub room : sz ≤ b'.size
  pub capacity : b'.size ≤ max b.size sz
  pub same_bytes : (n : ℕ) → n ≤ b.size → n ≤ sz → take n bytes' ≡ take n bytes
  pub others : (q : ℕ) → q < h.next → (q ≡ p → 1 < k) → bytes_at h' q ≡ bytes_at h q
  pub apart : (q : ℕ) → q < h.next → (q ≡ p → 1 < k) → q ≢ p'
  pub fresh : h.next ≤ h'.next
  kept_all : k ≡ 1 → sz ≤ b.size → (b' ≡ b) × (h' ≡ h)
  given_back :
      (k ≡ 1 → b.size < sz) → (b'.size ≡ sz) × (p' ≡ h.next) × (h'.cell p ≡ released k bytes)
  untouched : (q : ℕ) → q < h.next → q ≢ p → h'.cell q ≡ h.cell q

module _ (h : Heap) (b : BufferBase) (p k : ℕ) (bytes : List ℕ) (own : Holds h b p k bytes)
    (sz : ℕ) where
  stays : k ≡ 1 → sz ≤ b.size → Reserved h b p k bytes sz b h p bytes
  stays e fits = record {
    holds = rw e at own;
    room = fits;
    capacity = omega arith;
    same_bytes = λ n p q. refl;
    others = λ q lt ne. refl;
    apart = λ q lt ne same. absurd (omega (arith, ne same, e));
    fresh = omega arith;
    kept_all = λ one room. (refl, refl);
    given_back = λ no_room. absurd (omega (arith, no_room e, fits));
    untouched = λ q lt other. refl;
  }

  moves_same : (n : ℕ) → n ≤ b.size → n ≤ sz → take n (moved h b p k bytes own sz) ≡ take n bytes
  moves_same n small fits =
      take-append_le n (take (min b.size sz) bytes) _
        (omega (arith, length-take (min b.size sz) bytes, own.sized))
      ∙ take-take n (min b.size sz) bytes (omega arith)

  moves_others :
      (q : ℕ)
      → q < h.next
      → (q ≡ p → 1 < k)
      → bytes_at (after_move h b p k bytes own sz) q ≡ bytes_at h q
  moves_others q lt ne = ground (arith, own.stored)

  moves_back : (after_move h b p k bytes own sz).cell p ≡ released k bytes
  moves_back = ground arith

  moves_untouched :
      (q : ℕ) → q < h.next → q ≢ p → (after_move h b p k bytes own sz).cell q ≡ h.cell q
  moves_untouched q lt other = ground (arith, lt, other)

  moves :
      (k ≡ 1 → b.size < sz)
      → Reserved h b p k bytes sz
          (share h.next sz)
          (after_move h b p k bytes own sz)
          h.next
          (moved h b p k bytes own sz)
  moves no_room = record {
    holds = new_share-Holds h b p k bytes own sz;
    room = omega arith;
    capacity = omega arith;
    same_bytes = moves_same;
    others = moves_others;
    apart = λ q lt ne same. absurd (omega (arith, lt, same));
    fresh = omega arith;
    kept_all = λ one room. absurd (omega (arith, no_room one, room));
    given_back = λ e. (refl, refl, moves_back);
    untouched = moves_untouched;
  }

-- `reserve` on every branch: with room and no other user it changes nothing, else it moves to new
-- memory of exactly the size that was asked for, and gives its share of the old memory back.
pub reserve_lem :
    (h : Heap) (b : BufferBase) (p k : ℕ) (bytes : List ℕ) (sz : ℕ)
    → Holds h b p k bytes
    → (b' : BufferBase) × (h' : Heap) × (p' : ℕ) × (bytes' : List ℕ) × (reserve b sz h
        ≡ ok (b', h'))
      × Reserved h b p k bytes sz b' h' p' bytes'
reserve_lem h b p k bytes sz own = elim (Bool-cases (k == 1 && leb sz b.size)) [
  | inl sole ↦ (
    b,
    h,
    p,
    bytes,
    reserve-keeps h b p k bytes own sz (ground arith) (ground arith),
    stays h b p k bytes own sz (ground arith) (ground arith),
  )
  | inr shared ↦ (
    share h.next sz,
    after_move h b p k bytes own sz,
    h.next,
    moved h b p k bytes own sz,
    reserve-moves h b p k bytes own sz (λ e. ground arith),
    moves h b p k bytes own sz (λ e. ground arith),
  )
]
