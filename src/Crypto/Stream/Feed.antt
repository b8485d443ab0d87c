-- ===== src/Crypto/Stream/Feed.antt =====
-- What a context holds after it was fed.
use mathlib.Core.List.{append_assoc}
use deprecated_tdk.Prelude.{
  ℕ, suc, ◌+◌, ◌-◌, ◌*◌, ◌≤◌, ◌<◌, ◌≡◌, ◌∙◌, refl, sym, ap, arith, List, ◌++◌, length,
  length-append, length-take, length-drop, take, drop, leb, true, Bool-cases, inl, inr,
  take-append-drop, take-append_add, take-length, take_all,
}
use deprecated_tdk.Crypto.Stream.{paste, blocks, feed}
use deprecated_tdk.Crypto.Stream.Rules.{run, run-append, run_first, blocks-run}

pub length-paste :
    (old : List ℕ) (i : ℕ) (bytes : List ℕ)
    → i + length bytes ≤ length old
    → length (paste old i bytes) ≡ length old
length-paste old i bytes fits = omega (
  arith,
  length-append (take i old) (bytes ++ drop (i + length bytes) old),
  length-append bytes (drop (i + length bytes) old),
  length-take i old,
  length-drop (i + length bytes) old,
)

-- The front of a buffer that holds `tail`, once `bytes` are put behind it.
pub take-paste :
    (old tail bytes : List ℕ)
    → take (length tail) old ≡ tail
    → take (length tail + length bytes) (paste old (length tail) bytes) ≡ tail ++ bytes
take-paste old tail bytes e =
    ap
      (λ t.
        take (length tail + length bytes) (t ++ (bytes ++ drop (length tail + length bytes) old)))
      e
    ∙ take-append_add tail (bytes ++ drop (length tail + length bytes) old) (length bytes)
    ∙ ap (λ t. tail ++ t) (take-length bytes (drop (length tail + length bytes) old))

module _ {S : Type 0} (transform : S → List ℕ → S) (first : S) where
  -- `n` blocks, the bytes `front`, were transformed; `tail` waits in the buffer.
  pub record Fed (state : S) (buffer : List ℕ) (n : ℕ) (front tail : List ℕ) : Type 0 where
    pub same : state ≡ run transform n first front
    pub whole : length front ≡ n * 64
    pub short : length tail < 64
    pub kept : take (length tail) buffer ≡ tail
    pub size : length buffer ≡ 64

  module _ (used : List ℕ → List ℕ) (state : S) (buffer : List ℕ) (n : ℕ)
      (front tail input : List ℕ) (fed : Fed state buffer n front tail) where
    abbrev part : ℕ
    part = 64 - length tail

    -- Not enough for a block.
    feed_few :
        length input < part → Fed state (paste buffer (length tail) input) n front (tail ++ input)
    feed_few few = record {
      same = fed.same;
      whole = fed.whole;
      short = omega (arith, length-append tail input, few);
      kept =
          ap (λ j. take j (paste buffer (length tail) input)) (length-append tail input)
          ∙ take-paste buffer tail input fed.kept;
      size = length-paste buffer (length tail) input (omega (arith, fed.size, few)) ∙ fed.size;
    }

    full_block :
        part ≤ length input → paste buffer (length tail) (take part input) ≡ tail ++ take part input
    full_block enough =
        let taken : length (take part input) ≡ part =
          omega (arith, length-take part input, enough) in
        let all = paste buffer (length tail) (take part input) in
        let size : length all ≡ 64 =
          length-paste buffer (length tail) (take part input)
            (omega (arith, taken, fed.size, fed.short))
          ∙ fed.size in
        sym (
          take_all (length tail + length (take part input)) all
            (omega (arith, size, taken, fed.short)))
        ∙ take-paste buffer tail (take part input) fed.kept

    -- Enough for a block, and the `k` blocks of `middle` behind it.
    module _ (enough : part ≤ length input)
        (keeps : (b : List ℕ) → length b ≡ 64 → length (used b) ≡ 64) (k : ℕ) (middle rest : List ℕ)
        (parts : drop part input ≡ middle ++ rest) (blocks_whole : length middle ≡ k * 64)
        (less : length rest < 64) where
      abbrev block : List ℕ
      block = tail ++ take part input

      abbrev full : List ℕ
      full = paste buffer (length tail) (take part input)

      length-block : length block ≡ 64
      length-block =
          omega
            (arith, length-append tail (take part input), length-take part input, enough, fed.short)

      same_run :
          run transform k (transform state full) middle
          ≡ run transform (n + suc k) first (front ++ (block ++ middle))
      same_run =
          ap (λ b. run transform k (transform state b) middle) (full_block enough)
          ∙ ap (λ s. run transform k (transform s block) middle) fed.same
          ∙ sym (
              run-append transform n (suc k) first front (block ++ middle) fed.whole
              ∙ run_first transform k (run transform n first front) block middle length-block)

      length-full : length (used full) ≡ 64
      length-full = keeps full (ap length (full_block enough) ∙ length-block)

      feed_many :
          Fed
            (run transform k (transform state full) middle)
            (paste (used full) 0 rest)
            (n + suc k)
            (front ++ (block ++ middle))
            rest
      feed_many = record {
        same = same_run;
        whole = omega (
          arith,
          length-append front (block ++ middle),
          length-append block middle,
          length-block,
          fed.whole,
          blocks_whole,
        );
        short = less;
        kept = take-length rest (drop (0 + length rest) (used full));
        size = length-paste (used full) 0 rest (omega (arith, length-full, less)) ∙ length-full;
      }

      same_bytes : (front ++ (block ++ middle)) ++ rest ≡ (front ++ tail) ++ input
      same_bytes =
          let input_parts : input ≡ take part input ++ (middle ++ rest) =
            sym (take-append-drop part input) ∙ ap (λ t. take part input ++ t) parts in
          let flat : (front ++ (block ++ middle)) ++ rest
              ≡ (front ++ tail) ++ (take part input ++ (middle ++ rest)) =
            simp append_assoc refl in
          flat ∙ ap (λ t. (front ++ tail) ++ t) (sym input_parts)

    feed_short :
        length input < part
        → feed transform used (length tail) state buffer input
          ≡ (state, paste buffer (length tail) input)
    unfolding feed
    feed_short few = ground arith

    feed_loop :
        {after : S} {rest : List ℕ}
        → part ≤ length input
        → blocks transform
            (length input)
            (transform state (paste buffer (length tail) (take part input)))
            (drop part input)
          ≡ (after, rest)
        → feed transform used (length tail) state buffer input
          ≡ (after, paste (used (paste buffer (length tail) (take part input))) 0 rest)
    unfolding feed
    feed_loop enough loop =
        let larger : leb part (length input) ≡ true = ground arith in
        rw larger
          (ap (λ r. (r.0, paste (used (paste buffer (length tail) (take part input))) 0 r.1)) loop)

    -- `feed` keeps the bytes in order: after it, the transformed and the waiting bytes are those
    -- from before and the input.
    pub feed_lem :
        ((b : List ℕ) → length b ≡ 64 → length (used b) ≡ 64)
        → (state' : S) × (buffer' : List ℕ) × (n' : ℕ) × (front' tail' : List ℕ) × (feed transform
              used
              (length tail)
              state
              buffer
              input
            ≡ (state', buffer'))
          × Fed state' buffer' n' front' tail'
          × (front' ++ tail' ≡ (front ++ tail) ++ input)
    feed_lem keeps = elim (Bool-cases (leb part (length input))) [
      | inl larger ↦
          let enough : part ≤ length input = ground arith in
          let (k, middle, rest, loop, parts, whole, less) =
            blocks-run transform (length input)
              (transform state (paste buffer (length tail) (take part input))) (drop part input)
              (omega (arith, length-drop part input)) in
          (
            _,
            _,
            _,
            _,
            _,
            feed_loop enough loop,
            feed_many enough keeps k middle rest parts whole less,
            same_bytes enough keeps k middle rest parts whole less,
          )
      | inr smaller ↦
          let few : length input < part = ground arith in
          (_, _, _, _, _, feed_short few, feed_few few, sym (append_assoc front tail input))
    ]
