-- ===== src/Crypto/Padding/Laws.antt =====
-- What a padded block holds, and that the size of its data is found again.
use mathlib.Core.Option
use native.Mathlib.Nat.{mod-lt}
use deprecated_tdk.Prelude.{
  ℕ, zero, suc, ◌+◌, ◌-◌, ◌%◌, ◌^◌, ◌<◌, ◌≡◌, ◌∙◌, refl, ap, arith, List, [], ◌∷◌, ◌++◌, some,
  get_elem?, replicate, length, length-append, length-replicate,
}
use deprecated_tdk.Buffer.Memory.{Heap, ok}
use deprecated_tdk.Buffer.Block.{MemoryBlock, pad, sub_size, length_of}
use deprecated_tdk.Buffer.Block.Cursor.{length_of_lem}
use deprecated_tdk.Buffer.Block.Live.{Live, contents}
use deprecated_tdk.Buffer.Block.Read.{length-contents}
use deprecated_tdk.Buffer.Block.Padding.{pad_lem, mod-add_missing}
use deprecated_tdk.Crypto.Padding.{padding_size, pkcs5, pkcs5_of, pkcs5_data_size}

replicate-last : {A : Type 0} (k : ℕ) (v : A) → get_elem? (replicate (suc k) v) k ≡ some v
replicate-last zero v = refl
replicate-last (suc k) v = replicate-last k v

padded-last :
    (xs : List ℕ) (k v : ℕ) → get_elem? (xs ++ replicate (suc k) v) (length xs + k) ≡ some v
padded-last [] k v = ap (get_elem? (replicate (suc k) v)) (omega arith) ∙ replicate-last k v
padded-last (x ∷ xs) k v =
    let step : suc (length xs) + k ≡ suc (length xs + k) = omega arith in
    rw step (padded-last xs k v)

data_size :
    (xs : List ℕ) (n : ℕ)
    → 0 < n
    → length xs + n < 2 ^ 64
    → pkcs5_data_size (xs ++ replicate n n) (length (xs ++ replicate n n)) ≡ some (length xs)
unfolding pkcs5_data_size
data_size xs zero some_n small = absurd (omega arith)
data_size xs (suc k) some_n small =
    let padded = xs ++ replicate (suc k) (suc k) in
    let size : length padded ≡ length xs + suc k =
      length-append xs (replicate (suc k) (suc k))
      ∙ ap (λ l. length xs + suc l) (length-replicate k (suc k)) in
    let last : sub_size (length padded) 1 ≡ length xs + k = omega (arith, size) in
    ap (λ i. Option.map (sub_size (length padded)) (get_elem? padded i)) last
    ∙ ap (Option.map (sub_size (length padded))) (padded-last xs k (suc k))
    ∙ ap some (omega (arith, size))

padding_size_lem :
    (len align : ℕ)
    → 0 < align
    → align < 2 ^ 8
    → len < 2 ^ 31
    → padding_size len align ≡ align - len % align
unfolding padding_size
padding_size_lem len align some_align byte small = omega (arith, mod-lt len some_align)

-- `pkcs5` puts between one byte and as many as the alignment behind the unread ones, each of them
-- their number, so that the length is a multiple of the alignment; from the padded bytes
-- `pkcs5_data_size` finds how many there were before.
pub pkcs5_lem :
    (align : ℕ) (h : Heap) (m : MemoryBlock) (p k : ℕ) (bytes : List ℕ)
    → Live h m p k bytes
    → 0 < align
    → align < 2 ^ 8
    → m.write_pos + align < 2 ^ 31
    → let unread = contents m bytes in
      let n = align - length unread % align in
      let padded = unread ++ replicate n n in
      (m' : MemoryBlock) × (h' : Heap) × (p' : ℕ) × (k' : ℕ) × (bytes' : List ℕ) × (pkcs5 m align h
        ≡ ok (m', h'))
      × Live h' m' p' k' bytes'
      × (contents m' bytes' ≡ padded)
      × (length padded % align ≡ 0)
      × (0 < n)
      × (pkcs5_data_size padded (length padded) ≡ some (length unread))
unfolding pkcs5 pkcs5_of
pkcs5_lem align h m p k bytes live some_align byte small =
    let unread = contents m bytes in
    let n = align - length unread % align in
    let len : length unread ≡ m.write_pos - m.read_pos = length-contents h m p k bytes live in
    let below : length unread % align < align = mod-lt (length unread) some_align in
    let same : length_of m ≡ length unread = omega (arith, length_of_lem m live.ordered, len) in
    let size : padding_size (length_of m) align ≡ n =
      ap (λ l. padding_size l align) same
      ∙ padding_size_lem (length unread) align some_align byte (omega (arith, len)) in
    let (m', h', p', k', bytes', run, live', all) = pad_lem n n h m p k bytes live (omega arith) in
    (
      m',
      h',
      p',
      k',
      bytes',
      ap (λ j. pad j j m h) size ∙ run,
      live',
      all,
      ap (λ l. l % align)
            (length-append unread (replicate n n)
              ∙ ap (λ l. length unread + l) (length-replicate n n))
          ∙ mod-add_missing (length unread) align some_align,
      omega (arith, below),
      data_size unread n (omega (arith, below)) (omega (arith, len, below)),
    )
