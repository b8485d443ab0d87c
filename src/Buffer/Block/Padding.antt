-- ===== src/Buffer/Block/Padding.antt =====
-- `padding` on a block, and the loop of one-byte writes in it.
use native.Mathlib.Nat.{mod-lt, mod-add-div, mul-mod_right, add-mod_right}
use deprecated_tdk.Prelude.{
  ℕ, zero, suc, ◌+◌, ◌-◌, ◌*◌, ◌%◌, ◌/◌, ◌^◌, ◌<◌, ◌≡◌, ◌∙◌, sym, refl, ap, arith, List, [], ◌∷◌,
  ◌++◌, replicate, length, ◌==◌, Bool-cases, inl, inr, length-append, length-replicate,
}
use mathlib.Core.List.{append_assoc, append-nil}
use deprecated_tdk.Buffer.Memory.{Heap, ok}
use deprecated_tdk.Buffer.Memory.Rules.{bind-ok}
use deprecated_tdk.Buffer.Block.{MemoryBlock, write, pad, padding, length_of}
use deprecated_tdk.Buffer.Block.Cursor.{length_of_lem}
use deprecated_tdk.Buffer.Block.Live.{Live, contents}
use deprecated_tdk.Buffer.Block.Read.{length-contents}
use deprecated_tdk.Buffer.Block.Write.{write_lem}

-- `n` times `val` is behind the unread bytes after the loop.
pub pad_lem :
    (n val : ℕ) (h : Heap) (m : MemoryBlock) (p k : ℕ) (bytes : List ℕ)
    → Live h m p k bytes
    → m.write_pos + n < 2 ^ 31
    → (m' : MemoryBlock) × (h' : Heap) × (p' : ℕ) × (k' : ℕ) × (bytes' : List ℕ) × (pad n val m h
        ≡ ok (m', h'))
      × Live h' m' p' k' bytes'
      × (contents m' bytes' ≡ contents m bytes ++ replicate n val)
unfolding pad
pad_lem zero val h m p k bytes live small =
    (m, h, p, k, bytes, refl, live, sym (append-nil (contents m bytes)))
pad_lem (suc n) val h m p k bytes live small =
    let (m₁, h₁, p₁, bytes₁, run, live₁, one, same, away) =
      write_lem h m p k bytes (val ∷ []) live (omega arith) in
    let longer : m₁.write_pos ≡ m.write_pos + 1 = omega (
      arith,
      length-contents h₁ m₁ p₁ 1 bytes₁ live₁,
      ap length one,
      length-append (contents m bytes) (val ∷ []),
      length-contents h m p k bytes live,
      same,
      live.ordered,
      live₁.ordered,
    ) in
    let (m₂, h₂, p₂, k₂, bytes₂, runs, live₂, all) =
      pad_lem n val h₁ m₁ p₁ 1 bytes₁ live₁ (omega (arith, longer)) in
    (
      m₂,
      h₂,
      p₂,
      k₂,
      bytes₂,
      bind-ok (write m (val ∷ [])) _ h run ∙ runs,
      live₂,
      all
          ∙ ap (λ t. t ++ replicate n val) one
          ∙ append_assoc (contents m bytes) (val ∷ []) (replicate n val),
    )

-- What is missing to the next multiple of `a`.
pub mod-add_missing : (n a : ℕ) → 0 < a → (n + (a - n % a)) % a ≡ 0
mod-add_missing n a some_a =
    let whole : n + (a - n % a) ≡ a * (n / a) + a =
      omega (arith, mod-add-div n a, mod-lt n some_a) in
    ap (λ s. s % a) whole ∙ add-mod_right (a * (n / a)) a ∙ mul-mod_right a (n / a)

-- `padding` puts the least number of bytes `val` behind the unread ones that makes their number a
-- multiple of the alignment, and returns how many that were.
pub padding_lem :
    (align val : ℕ) (h : Heap) (m : MemoryBlock) (p k : ℕ) (bytes : List ℕ)
    → Live h m p k bytes
    → 0 < align
    → m.write_pos + align < 2 ^ 31
    → (n : ℕ) × (m' : MemoryBlock) × (h' : Heap) × (p' : ℕ) × (k' : ℕ) × (bytes' : List ℕ)
      × (padding align val m h ≡ ok ((n, m'), h'))
      × Live h' m' p' k' bytes'
      × (contents m' bytes' ≡ contents m bytes ++ replicate n val)
      × (length (contents m' bytes') % align ≡ 0)
      × (n < align)
unfolding padding
padding_lem align val h m p k bytes live some_align small =
    let rest = length_of m % align in
    let size : length_of m ≡ length (contents m bytes) =
      length_of_lem m live.ordered ∙ sym (length-contents h m p k bytes live) in
    let count : (m' : MemoryBlock) (bytes' : List ℕ)
        → contents m' bytes' ≡ contents m bytes ++ replicate (align - rest) val
        → length (contents m' bytes') ≡ length_of m + (align - rest) =
      λ m' bytes' all.
        ap length all
        ∙ length-append (contents m bytes) (replicate (align - rest) val)
        ∙ omega (arith, size, length-replicate (align - rest) val) in
    elim (Bool-cases (rest == 0)) [
      | inl whole ↦
          let none_left : length_of m % align ≡ 0 = ground arith in
          (
            0,
            m,
            h,
            p,
            k,
            bytes,
            rw whole refl,
            live,
            sym (append-nil (contents m bytes)),
            ap (λ s. s % align) (sym size) ∙ none_left,
            some_align,
          )
      | inr left ↦
          let some_left : 0 < rest = ground arith in
          let (m', h', p', k', bytes', run, live', all) =
            pad_lem (align - rest) val h m p k bytes live (omega arith) in
          (
            align - rest,
            m',
            h',
            p',
            k',
            bytes',
            rw left (bind-ok (pad (align - rest) val m) _ h run),
            live',
            all,
            ap (λ s. s % align) (count m' bytes' all)
                ∙ mod-add_missing (length_of m) align some_align,
            omega (arith, some_left),
          )
    ]
