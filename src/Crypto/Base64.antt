-- ===== src/Crypto/Base64.antt =====
-- src/tdk/crypto/base64.cpp: `base64::encode` and `base64::decode`. A `std::string` is the list of
-- its characters, a memory area the list of its bytes.
pub mod Spec
pub mod Encode
pub mod Rounds
pub mod Decode
mod Tests
use Prim.Native.Nat.{bit_or, bit_and}
use deprecated_tdk.Prelude.{
  ℕ, zero, suc, ◌+◌, ◌-◌, ◌*◌, ◌/◌, ◌%◌, ◌^◌, Bool, true, false, ◌||◌, ◌&&◌, Option, none, some,
  List, [], ◌∷◌, length, get_elem?, get_or, set, replicate, ◌==◌, ltb, leb, if◌then◌else◌,
}

-- `b64_table`, the characters for the numbers below 64
abbrev b64_table : List ℕ
b64_table =
    65 ∷ 66 ∷ 67 ∷ 68 ∷ 69 ∷ 70 ∷ 71 ∷ 72 ∷ 73 ∷ 74 ∷ 75 ∷ 76 ∷ 77 ∷ 78 ∷ 79 ∷ 80 ∷ 81 ∷ 82 ∷ 83
    ∷ 84 ∷ 85 ∷ 86 ∷ 87 ∷ 88 ∷ 89 ∷ 90 ∷ 97 ∷ 98 ∷ 99 ∷ 100 ∷ 101 ∷ 102 ∷ 103 ∷ 104 ∷ 105 ∷ 106
    ∷ 107 ∷ 108 ∷ 109 ∷ 110 ∷ 111 ∷ 112 ∷ 113 ∷ 114 ∷ 115 ∷ 116 ∷ 117 ∷ 118 ∷ 119 ∷ 120 ∷ 121 ∷ 122
    ∷ 48 ∷ 49 ∷ 50 ∷ 51 ∷ 52 ∷ 53 ∷ 54 ∷ 55 ∷ 56 ∷ 57 ∷ 43 ∷ 47 ∷ []

-- `reverse_table`; 64 stands for a character that is no digit.
abbrev reverse_table : List ℕ
reverse_table =
    64 ∷ 64 ∷ 64 ∷ 64 ∷ 64 ∷ 64 ∷ 64 ∷ 64 ∷ 64 ∷ 64 ∷ 64 ∷ 64 ∷ 64 ∷ 64 ∷ 64 ∷ 64 ∷ 64 ∷ 64 ∷ 64
    ∷ 64 ∷ 64 ∷ 64 ∷ 64 ∷ 64 ∷ 64 ∷ 64 ∷ 64 ∷ 64 ∷ 64 ∷ 64 ∷ 64 ∷ 64 ∷ 64 ∷ 64 ∷ 64 ∷ 64 ∷ 64 ∷ 64
    ∷ 64 ∷ 64 ∷ 64 ∷ 64 ∷ 64 ∷ 62 ∷ 64 ∷ 64 ∷ 64 ∷ 63 ∷ 52 ∷ 53 ∷ 54 ∷ 55 ∷ 56 ∷ 57 ∷ 58 ∷ 59 ∷ 60
    ∷ 61 ∷ 64 ∷ 64 ∷ 64 ∷ 64 ∷ 64 ∷ 64 ∷ 64 ∷ 0 ∷ 1 ∷ 2 ∷ 3 ∷ 4 ∷ 5 ∷ 6 ∷ 7 ∷ 8 ∷ 9 ∷ 10 ∷ 11 ∷ 12
    ∷ 13 ∷ 14 ∷ 15 ∷ 16 ∷ 17 ∷ 18 ∷ 19 ∷ 20 ∷ 21 ∷ 22 ∷ 23 ∷ 24 ∷ 25 ∷ 64 ∷ 64 ∷ 64 ∷ 64 ∷ 64 ∷ 64
    ∷ 26 ∷ 27 ∷ 28 ∷ 29 ∷ 30 ∷ 31 ∷ 32 ∷ 33 ∷ 34 ∷ 35 ∷ 36 ∷ 37 ∷ 38 ∷ 39 ∷ 40 ∷ 41 ∷ 42 ∷ 43 ∷ 44
    ∷ 45 ∷ 46 ∷ 47 ∷ 48 ∷ 49 ∷ 50 ∷ 51 ∷ 64 ∷ 64 ∷ 64 ∷ 64 ∷ 64 ∷ []

-- `b64_table[i]`; the code reads it below 64 only.
pub digit : ℕ → ℕ
digit i = get_or b64_table i 0

-- `reverse_table[c]`, nothing for a read out of the table
pub undigit : ℕ → Option ℕ
undigit c = get_elem? reverse_table c

-- The local variables of `encode`. `accumulator` is an `unsigned int`.
pub record Encoder : Type 0 where
  pub retval : List ℕ
  pub outpos : ℕ
  pub bits_collected : ℕ
  pub accumulator : ℕ

-- `retval[outpos++] = ch`
pub emit : Encoder → ℕ → Encoder
emit e ch = record e { retval = set e.retval e.outpos ch; outpos = e.outpos + 1 }

-- `while (bits_collected >= 6)`: each round takes 6 off, so `bits_collected` rounds are enough.
pub drain : ℕ → Encoder → Encoder
drain zero e = e
drain (suc fuel) e = elim (leb 6 e.bits_collected) [
  | true ↦
      let left = e.bits_collected - 6 in
      drain fuel (
        emit (record e { bits_collected = left }) (digit (bit_and (e.accumulator / 2 ^ left) 0x3f)))
  | false ↦ e
]

-- One round of the `for` loop.
pub encode_byte : Encoder → ℕ → Encoder
encode_byte e byte = drain (e.bits_collected + 8) (record e {
  accumulator = bit_or (e.accumulator * 2 ^ 8 % 2 ^ 32) (bit_and byte 0xff);
  bits_collected = e.bits_collected + 8;
})

pub encode_bytes : Encoder → List ℕ → Encoder
encode_bytes e [] = e
encode_bytes e (byte ∷ bytes) = encode_bytes (encode_byte e byte) bytes

-- The bits that are left after the loop, filled up with zeros.
pub finish : Encoder → Encoder
finish e =
    if ltb 0 e.bits_collected
    then emit e (digit (bit_and (e.accumulator * 2 ^ (6 - e.bits_collected) % 2 ^ 32) 0x3f))
    else e

-- `std::string retval((((size + 2) / 3) * 4), '=')`
pub start : List ℕ → Encoder
start bytes = record {
  retval = replicate ((length bytes + 2) / 3 * 4) b'=';
  outpos = 0;
  bits_collected = 0;
  accumulator = 0;
}

-- `encode( void* ptr , std::size_t size )`, over the `size` bytes at `ptr`
pub encode : List ℕ → List ℕ
encode bytes =
    if ltb 1024968 (length bytes) then [] else (finish (encode_bytes (start bytes) bytes)).retval

-- `isspace` in the C locale
pub isspace : ℕ → Bool
isspace c = c == 32 || (leb 9 c && leb c 13)

-- The local variables of `decode`, with the memory at `ptr`.
pub record Decoder : Type 0 where
  pub buffer : List ℕ
  pub index : ℕ
  pub bits_collected : ℕ
  pub accumulator : ℕ

-- `buffer[index++] = byte`; a write out of the memory at `ptr` is undefined, hence `none`.
pub store : Decoder → ℕ → Option Decoder
store d byte =
    if ltb d.index (length d.buffer)
    then some (record d { buffer = set d.buffer d.index byte; index = d.index + 1 })
    else none

-- What the loop does with the digit that it read.
pub take_digit : Decoder → ℕ → Option Decoder
take_digit d v =
    let acc = bit_or (d.accumulator * 2 ^ 6 % 2 ^ 32) v in
    let bits = d.bits_collected + 6 in
    if leb 8 bits
    then store (record d { accumulator = acc; bits_collected = bits - 8 })
        (bit_and (acc / 2 ^ (bits - 8)) 0xff)
    else some (record d { accumulator = acc; bits_collected = bits })

-- One round of the loop: the test on a character that is no digit has an empty body, so the table
-- is read in any case.
pub decode_char : Decoder → ℕ → Option Decoder
decode_char d c =
    if isspace c || c == b'='
    then some d
    else elim (undigit c) [ none ↦ none | some v ↦ take_digit d v ]

pub decode_chars : Decoder → List ℕ → Option Decoder
decode_chars d [] = some d
decode_chars d (c ∷ src) = elim (decode_char d c) [ none ↦ none | some d' ↦ decode_chars d' src ]

-- `decode( src , ptr , size )` returns the number of bytes it wrote; here beside it is the memory
-- at `ptr`. The body does not read `size`.
pub decode : List ℕ → List ℕ → ℕ → Option (ℕ × List ℕ)
decode src memory size =
    elim (decode_chars (record { buffer = memory; index = 0; bits_collected = 0; accumulator = 0 })
      src) [ none ↦ none | some d ↦ some (d.index, d.buffer) ]
