-- ===== src/Crypto/Stream/Absorb.antt =====
-- A context takes in the pieces of a message in order.
use Prim.Native.Nat.{bit_and}
use mathlib.Core.Path.{subst}
use mathlib.Core.List.{append_assoc, append-nil}
use deprecated_tdk.Prelude.{
  ℕ, ◌/◌, ◌%◌, ◌^◌, ◌<◌, ◌≡◌, ◌∙◌, refl, sym, ap, List, [], ◌∷◌, ◌++◌, length, length-append, arith,
  empty_of_length,
}
use deprecated_tdk.Crypto.Stream.{Context, add_bits, feed, absorb}
use deprecated_tdk.Crypto.Stream.Rules.{run}
use deprecated_tdk.Crypto.Stream.Feed.{Fed, feed_lem}
use deprecated_tdk.Crypto.Stream.Count.{low, high, add_bits_lem, index_lem}

abbrev pub joined : List (List ℕ) → List ℕ
joined [] = []
joined (piece ∷ pieces) = piece ++ joined pieces

-- One update for each piece.
abbrev pub updates : {C : Type 0} → (C → List ℕ → C) → C → List (List ℕ) → C
updates update ctx [] = ctx
updates update ctx (piece ∷ pieces) = updates update (update ctx piece) pieces

module _ {S : Type 0} (transform : S → List ℕ → S) (used : List ℕ → List ℕ)
    (keeps : (b : List ℕ) → length b ≡ 64 → length (used b) ≡ 64) (first : S) where
  -- The context took in the bytes `msg`.
  pub record Absorbed (ctx : Context S) (msg : List ℕ) : Type 0 where
    pub blocks : ℕ
    pub front : List ℕ
    pub tail : List ℕ
    pub fed : Fed transform first ctx.state ctx.buffer blocks front tail
    pub split : front ++ tail ≡ msg
    pub count0 : ctx.count0 ≡ low (length msg)
    pub count1 : ctx.count1 ≡ high (length msg)

  pub first-Absorbed :
      (buffer : List ℕ)
      → length buffer ≡ 64
      → Absorbed (record { state = first; count0 = 0; count1 = 0; buffer = buffer }) []
  unfolding run
  first-Absorbed buffer size = record {
    blocks = 0;
    front = [];
    tail = [];
    fed = record { same = refl; whole = refl; short = omega arith; kept = refl; size = size };
    split = refl;
    count0 = refl;
    count1 = refl;
  }

  abbrev made : S × List ℕ → ℕ × ℕ → Context S
  made (state, buffer) (count0, count1) = record {
    state = state;
    count0 = count0;
    count1 = count1;
    buffer = buffer;
  }

  module _ (ctx : Context S) (msg : List ℕ) (a : Absorbed ctx msg) where
    pub length-tail : length msg % 64 ≡ length a.tail
    length-tail =
        omega (arith, ap length a.split, length-append a.front a.tail, a.fed.whole, a.fed.short)

    pub index-tail : bit_and (ctx.count0 / 2 ^ 3) 0x3f ≡ length a.tail
    index-tail = ap (λ c. bit_and (c / 2 ^ 3) 0x3f) a.count0 ∙ index_lem (length msg) ∙ length-tail

    pub update-Absorbed :
        (input : List ℕ)
        → length input < 2 ^ 32
        → Absorbed (absorb transform used ctx input) (msg ++ input)
    unfolding absorb
    update-Absorbed input small =
        let (state', buffer', n', front', tail', result, fed', bytes) =
          feed_lem transform first used ctx.state ctx.buffer a.blocks a.front a.tail input a.fed
            keeps in
        let counted : add_bits ctx.count0 ctx.count1 (length input)
            ≡ (low (length (msg ++ input)), high (length (msg ++ input))) =
          ap (λ c. add_bits c ctx.count1 (length input)) a.count0
          ∙ ap (λ c. add_bits (low (length msg)) c (length input)) a.count1
          ∙ add_bits_lem (length msg) (length input) small
          ∙ ap (λ n. (low n, high n)) (sym (length-append msg input)) in
        let fed_at : feed transform used (bit_and (ctx.count0 / 2 ^ 3) 0x3f) ctx.state ctx.buffer
              input
            ≡ (state', buffer') =
          ap (λ i. feed transform used i ctx.state ctx.buffer input) index-tail ∙ result in
        let after : absorb transform used ctx input
            ≡ made (state', buffer') (low (length (msg ++ input)), high (length (msg ++ input))) =
          ap (λ r. made r (add_bits ctx.count0 ctx.count1 (length input))) fed_at
          ∙ ap (made (state', buffer')) counted in
        subst (λ c. Absorbed c (msg ++ input)) (sym after)
          (record {
            blocks = n';
            front = front';
            tail = tail';
            fed = fed';
            split = bytes ∙ ap (λ t. t ++ input) a.split;
            count0 = refl;
            count1 = refl;
          })

    -- Whole blocks leave nothing in the buffer.
    pub whole-run : length msg % 64 ≡ 0 → ctx.state ≡ run transform (length msg / 64) first msg
    whole-run e =
        let none_left : a.tail ≡ [] = empty_of_length a.tail (omega (arith, length-tail, e)) in
        let all : a.front ≡ msg =
          sym (append-nil a.front) ∙ ap (λ t. a.front ++ t) (sym none_left) ∙ a.split in
        let count : a.blocks ≡ length msg / 64 = omega (arith, a.fed.whole, ap length all) in
        a.fed.same
        ∙ ap (λ n. run transform n first a.front) count
        ∙ ap (run transform (length msg / 64) first) all

  pub updates-Absorbed :
      (pieces : List (List ℕ)) (ctx : Context S) (msg : List ℕ)
      → Absorbed ctx msg
      → length (joined pieces) < 2 ^ 32
      → Absorbed (updates (absorb transform used) ctx pieces) (msg ++ joined pieces)
  updates-Absorbed [] ctx msg a small = subst (Absorbed ctx) (sym (append-nil msg)) a
  updates-Absorbed (piece ∷ pieces) ctx msg a small =
      let size = length-append piece (joined pieces) in
      subst (Absorbed (updates (absorb transform used) (absorb transform used ctx piece) pieces))
        (append_assoc msg piece (joined pieces))
        (updates-Absorbed pieces (absorb transform used ctx piece) (msg ++ piece)
          (update-Absorbed ctx msg a piece (omega (arith, size))) (omega (arith, size)))
