-- ===== src/Crypto/Base64/Rounds.antt =====
-- The rounds of `base64::decode` on the text of one, two and three bytes.
use Prim.Native.Nat.{bit_or}
use mathlib.Core.List.{append_assoc}
use deprecated_tdk.Prelude.{
  if◌then◌else◌, ℕ, ◌+◌, ◌*◌, ◌/◌, ◌%◌, ◌^◌, ◌<◌, ◌≡◌, refl, ◌∙◌, List, [], ◌∷◌, ◌++◌, arith, true,
  false, Bool, ◌||◌, length, length-append, set-append, ◌==◌, Option, some, none, all_below,
  all_below_sound,
}
use deprecated_tdk.Bits.Fields.{bit_or-add, bit_and-mask}
use deprecated_tdk.Crypto.Base64.{
  Decoder, digit, undigit, isspace, store, take_digit, decode_char, decode_chars,
}

-- The character for `i` is no blank and no filler, and the reverse table leads back to `i`.
is_read_back : ℕ → Bool
is_read_back i =
    if isspace (digit i) || digit i == b'='
    then false
    else elim (undigit (digit i)) [ none ↦ false | some v ↦ v == i ]

is_read_back_table : all_below 64 is_read_back ≡ true
unfolding all_below is_read_back digit undigit isspace
is_read_back_table = refl

abbrev pub decoder : List ℕ → List ℕ → ℕ → ℕ → Decoder
decoder done rest bits acc = record {
  buffer = done ++ rest;
  index = length done;
  bits_collected = bits;
  accumulator = acc;
}

-- The accumulator after a digit is shifted in.
abbrev pub shifted : ℕ → ℕ → ℕ
shifted acc v = acc % 2 ^ 26 * 64 + v

decode_char-digit : (d : Decoder) (i : ℕ) → i < 64 → decode_char d (digit i) ≡ take_digit d i
unfolding decode_char is_read_back
decode_char-digit d i h = ground (arith, read_back)
  where
    read_back : is_read_back i ≡ true
    read_back = all_below_sound 64 is_read_back i is_read_back_table h

decode_char-filler : (d : Decoder) → decode_char d b'=' ≡ some d
unfolding decode_char isspace
decode_char-filler d = refl

shift_in : (acc v : ℕ) → v < 64 → bit_or (acc * 2 ^ 6 % 2 ^ 32) v ≡ shifted acc v
shift_in acc v h = ground (arith, bit_or-add 6 (acc % 2 ^ 26) v)

take_digit-bits :
    (done rest : List ℕ) (acc v : ℕ)
    → v < 64
    → take_digit (decoder done rest 0 acc) v ≡ some (decoder done rest 6 (shifted acc v))
unfolding take_digit
take_digit-bits done rest acc v h = rw (shift_in acc v h)

take_digit-byte :
    (done rest : List ℕ) (y left acc v byte : ℕ)
    → v < 64
    → shifted acc v / 2 ^ left % 256 ≡ byte
    → take_digit (decoder done (y ∷ rest) (left + 2) acc) v
      ≡ some (decoder (done ++ (byte ∷ [])) rest left (shifted acc v))
unfolding take_digit store
take_digit-byte done rest y left acc v byte h e = ground (
  arith,
  shift_in acc v h,
  bit_and-mask 8 (shifted acc v / 2 ^ left),
  set-append done rest y byte,
  append_assoc done (byte ∷ []) rest,
  length-append done (byte ∷ []),
  length-append done (y ∷ rest),
)

-- A byte that finds no room.
take_digit-full :
    (done : List ℕ) (left acc v : ℕ) → take_digit (decoder done [] (left + 2) acc) v ≡ none
unfolding take_digit store
take_digit-full done left acc v = ground (arith, length-append done [])

decode_chars-some :
    (d d' : Decoder) (c : ℕ) (src : List ℕ)
    → decode_char d c ≡ some d'
    → decode_chars d (c ∷ src) ≡ decode_chars d' src
unfolding decode_chars
decode_chars-some d d' c src e = ground arith

pub decode_chars-filler :
    (d : Decoder) (src : List ℕ) → decode_chars d (b'=' ∷ src) ≡ decode_chars d src
decode_chars-filler d src = decode_chars-some d d b'=' src (decode_char-filler d)

pub decode_chars-bits :
    (done rest : List ℕ) (acc v : ℕ) (src : List ℕ)
    → v < 64
    → decode_chars (decoder done rest 0 acc) (digit v ∷ src)
      ≡ decode_chars (decoder done rest 6 (shifted acc v)) src
decode_chars-bits done rest acc v src h =
    decode_chars-some (decoder done rest 0 acc) _ (digit v) src
      (decode_char-digit _ v h ∙ take_digit-bits done rest acc v h)

decode_chars-byte :
    (done rest : List ℕ) (y left acc v byte : ℕ) (src : List ℕ)
    → v < 64
    → shifted acc v / 2 ^ left % 256 ≡ byte
    → decode_chars (decoder done (y ∷ rest) (left + 2) acc) (digit v ∷ src)
      ≡ decode_chars (decoder (done ++ (byte ∷ [])) rest left (shifted acc v)) src
decode_chars-byte done rest y left acc v byte src h e =
    decode_chars-some (decoder done (y ∷ rest) (left + 2) acc) _ (digit v) src
      (decode_char-digit _ v h ∙ take_digit-byte done rest y left acc v byte h e)

pub decode_chars-full :
    (done : List ℕ) (left acc v : ℕ) (src : List ℕ)
    → v < 64
    → decode_chars (decoder done [] (left + 2) acc) (digit v ∷ src) ≡ none
unfolding decode_chars
decode_chars-full done left acc v src h =
    ground (
      arith,
      decode_char-digit (decoder done [] (left + 2) acc) v h,
      take_digit-full done left acc v,
    )

-- What the loop has done on a text that holds `bytes`, where `done` was written before.
abbrev pub decoded : Option Decoder → Option (ℕ × List ℕ)
decoded none = none
decoded (some d) = some (d.index, d.buffer)

-- The characters for one, two and three bytes, where there is room for them.
pub one_byte :
    (done rest : List ℕ) (x acc a : ℕ) (src : List ℕ)
    → a < 256
    → (low : ℕ) → low < 16
    → decode_chars (decoder done (x ∷ rest) 0 acc) (digit (a / 4) ∷ digit (a % 4 * 16 + low) ∷ src)
      ≡ decode_chars
          (decoder (done ++ (a ∷ [])) rest 4 (shifted (shifted acc (a / 4)) (a % 4 * 16 + low)))
          src
one_byte done rest x acc a src h low hl =
    decode_chars-bits done (x ∷ rest) acc (a / 4) _ (omega arith)
    ∙ decode_chars-byte done rest x 4 (shifted acc (a / 4)) (a % 4 * 16 + low) a src (omega arith)
        (omega arith)

pub two_bytes :
    (done rest : List ℕ) (x y acc a b : ℕ) (src : List ℕ)
    → a < 256
    → b < 256
    → (low : ℕ) → low < 4
    → (acc' : ℕ) × (acc' % 4 ≡ low)
      × (decode_chars
            (decoder done (x ∷ y ∷ rest) 0 acc)
            (digit (a / 4) ∷ digit (a % 4 * 16 + b / 16) ∷ digit (b % 16 * 4 + low) ∷ src)
          ≡ decode_chars (decoder ((done ++ (a ∷ [])) ++ (b ∷ [])) rest 2 acc') src)
two_bytes done rest x y acc a b src ha hb low hl =
    let acc₂ = shifted (shifted acc (a / 4)) (a % 4 * 16 + b / 16) in
    (
      shifted acc₂ (b % 16 * 4 + low),
      omega arith,
      one_byte done (y ∷ rest) x acc a _ ha (b / 16) (omega arith)
          ∙ decode_chars-byte (done ++ (a ∷ [])) rest y 2 acc₂ (b % 16 * 4 + low) b src
              (omega arith) (omega arith),
    )

pub three-Bytes :
    (done rest : List ℕ) (x y z acc a b c : ℕ) (src : List ℕ)
    → a < 256
    → b < 256
    → c < 256
    → (acc' : ℕ) × (decode_chars (decoder done (x ∷ y ∷ z ∷ rest) 0 acc) (
          digit (a / 4)
          ∷ digit (a % 4 * 16 + b / 16)
          ∷ digit (b % 16 * 4 + c / 64)
          ∷ digit (c % 64)
          ∷ src)
        ≡ decode_chars (decoder (((done ++ (a ∷ [])) ++ (b ∷ [])) ++ (c ∷ [])) rest 0 acc') src)
three-Bytes done rest x y z acc a b c src ha hb hc =
    let (acc₂, low, run) =
      two_bytes done (z ∷ rest) x y acc a b (digit (c % 64) ∷ src) ha hb (c / 64) (omega arith) in
    (
      shifted acc₂ (c % 64),
      run
          ∙ decode_chars-byte ((done ++ (a ∷ [])) ++ (b ∷ [])) rest z 0 acc₂ (c % 64) c src
              (omega arith) (omega arith),
    )

-- The end of the text.
pub finished :
    (done bytes rest : List ℕ) (bits acc : ℕ)
    → decoded (decode_chars (decoder (done ++ bytes) rest bits acc) [])
      ≡ some (length done + length bytes, done ++ (bytes ++ rest))
unfolding decode_chars
finished done bytes rest bits acc =
    ground (arith, length-append done bytes, append_assoc done bytes rest)
