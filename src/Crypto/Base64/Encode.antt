-- ===== src/Crypto/Base64/Encode.antt =====
-- `base64::encode` writes the encoding of RFC 4648.
use Prim.Native.Nat.{bit_or, bit_and}
use mathlib.Core.List.{append_assoc}
use deprecated_tdk.Prelude.{
  if◌then◌else◌, ℕ, zero, suc, ◌+◌, ◌-◌, ◌*◌, ◌/◌, ◌%◌, ◌^◌, ◌<◌, ◌≡◌, refl, ◌∙◌, List, [], ◌∷◌,
  ◌++◌, arith, true, false, length, length-append, set-append, replicate, ltb, leb, Bytes,
}
use deprecated_tdk.Bits.Fields.{bit_or-add, bit_and-mask}
use deprecated_tdk.Crypto.Base64.{
  Encoder, digit, emit, drain, encode_byte, encode_bytes, finish, start, encode,
}
use deprecated_tdk.Crypto.Base64.Spec.{base64}

-- `done` is written, `room` characters are still the filler.
abbrev encoder : List ℕ → ℕ → ℕ → ℕ → Encoder
encoder done room bits acc = record {
  retval = done ++ replicate room b'=';
  outpos = length done;
  bits_collected = bits;
  accumulator = acc;
}

-- The accumulator after a byte is shifted in.
abbrev shifted : ℕ → ℕ → ℕ
shifted acc b = acc % 2 ^ 24 * 256 + b

shift_in : (acc b : ℕ) → b < 256 → bit_or (acc * 2 ^ 8 % 2 ^ 32) (bit_and b 0xff) ≡ shifted acc b
shift_in acc b h = ground (arith, bit_and-mask 8 b, bit_or-add 8 (acc % 2 ^ 24) b)

emit-encoder :
    (done : List ℕ) (room bits acc ch : ℕ)
    → emit (encoder done (suc room) bits acc) ch ≡ encoder (done ++ (ch ∷ [])) room bits acc
unfolding emit
emit-encoder done room bits acc ch = ground (
  arith,
  set-append done (replicate room b'=') b'=' ch,
  append_assoc done (ch ∷ []) (replicate room b'='),
  length-append done (ch ∷ []),
)

-- The six bits that a character stands for.
six_bits : (x v : ℕ) → x % 64 ≡ v → bit_and x 0x3f ≡ v
six_bits x v e = omega (arith, e, bit_and-mask 6 x)

-- One round of the inner loop, and its end.
drain-round :
    (fuel : ℕ) (done : List ℕ) (room left acc v : ℕ)
    → acc / 2 ^ left % 64 ≡ v
    → drain (suc fuel) (encoder done (suc room) (left + 6) acc)
      ≡ drain fuel (encoder (done ++ (digit v ∷ [])) room left acc)
unfolding drain
drain-round fuel done room left acc v e =
    let more : leb 6 (left + 6) ≡ true = ground arith in
    let rest : left + 6 - 6 ≡ left = omega arith in
    rw (more, drain, rest, six_bits (acc / 2 ^ left) v e, emit-encoder done room left acc (digit v))

drain-stop : (fuel : ℕ) (e : Encoder) → e.bits_collected < 6 → drain fuel e ≡ e
unfolding drain
drain-stop zero e h = refl
drain-stop (suc fuel) e h =
    let stop : leb 6 e.bits_collected ≡ false = ground arith in rw (stop, drain)

first_byte :
    (done : List ℕ) (room acc b : ℕ)
    → b < 256
    → encode_byte (encoder done (suc room) 0 acc) b
      ≡ encoder (done ++ (digit (b / 4) ∷ [])) room 2 (shifted acc b)
unfolding encode_byte
first_byte done room acc b h =
    rw (shift_in acc b h, drain-round 7 done room 2 (shifted acc b) (b / 4) (omega arith))
      (drain-stop 7 _ (omega arith))

second_byte :
    (done : List ℕ) (room acc b a : ℕ)
    → b < 256
    → acc % 4 ≡ a
    → encode_byte (encoder done (suc room) 2 acc) b
      ≡ encoder (done ++ (digit (a * 16 + b / 16) ∷ [])) room 4 (shifted acc b)
unfolding encode_byte
second_byte done room acc b a h e =
    rw (shift_in acc b h, drain-round 9 done room 4 (shifted acc b) (a * 16 + b / 16) (omega arith))
      (drain-stop 9 _ (omega arith))

third_byte :
    (done : List ℕ) (room acc b a : ℕ)
    → b < 256
    → acc % 16 ≡ a
    → encode_byte (encoder done (suc (suc room)) 4 acc) b
      ≡ encoder
          ((done ++ (digit (a * 4 + b / 64) ∷ [])) ++ (digit (b % 64) ∷ []))
          room
          0
          (shifted acc b)
unfolding encode_byte
third_byte done room acc b a h e =
    rw
      (
        shift_in acc b h,
        drain-round 11 done (suc room) 6 (shifted acc b) (a * 4 + b / 64) (omega arith),
        drain-round 10 (done ++ (digit (a * 4 + b / 64) ∷ [])) room 0 (shifted acc b) (b % 64)
            (omega arith),
      )
      (drain-stop 10 _ (omega arith))

finish-encoder :
    (done : List ℕ) (room left acc v : ℕ)
    → left < 6
    → acc * 2 ^ left % 2 ^ 32 % 64 ≡ v
    → finish (encoder done (suc room) (6 - left) acc)
      ≡ encoder (done ++ (digit v ∷ [])) room (6 - left) acc
unfolding finish
finish-encoder done room left acc v h e =
    let some_left : ltb 0 (6 - left) ≡ true = ground arith in
    let back : 6 - (6 - left) ≡ left = omega arith in
    rw (some_left, back, six_bits (acc * 2 ^ left % 2 ^ 32) v e)
      (emit-encoder done room (6 - left) acc (digit v))

finish-none :
    (done : List ℕ) (room acc : ℕ) → finish (encoder done room 0 acc) ≡ encoder done room 0 acc
unfolding finish
finish-none done room acc = refl

-- Three bytes become four characters, and the accumulator has no bits left.
three-Bytes :
    (done : List ℕ) (room acc a b c : ℕ)
    → Bytes (a ∷ b ∷ c ∷ [])
    → (acc' : ℕ) × (encode_byte
          (encode_byte (encode_byte (encoder done (suc (suc (suc (suc room)))) 0 acc) a) b)
          c
        ≡ encoder
            (((((done ++ (digit (a / 4) ∷ [])) ++ (digit (a % 4 * 16 + b / 16) ∷ []))
                ++ (digit (b % 16 * 4 + c / 64) ∷ []))
              ++ (digit (c % 64) ∷ [])))
            room
            0
            acc')
three-Bytes done room acc a b c h = (
  shifted (shifted (shifted acc a) b) c,
  rw
      (
        first_byte done (suc (suc (suc room))) acc a h.0,
        second_byte (done ++ (digit (a / 4) ∷ [])) (suc (suc room)) (shifted acc a) b (a % 4) h.1.0
            (omega arith),
      )
      (third_byte _ room (shifted (shifted acc a) b) c (b % 16) h.1.1.0 (omega arith)),
)

encode_bytes-base64 :
    (bytes done : List ℕ) (acc : ℕ)
    → Bytes bytes
    → (finish (encode_bytes (encoder done ((length bytes + 2) / 3 * 4) 0 acc) bytes)).retval
      ≡ done ++ base64 bytes
unfolding encode_bytes base64
encode_bytes-base64 [] done acc h = rw finish-none refl
encode_bytes-base64 (a ∷ []) done acc h =
    rw
      (
        first_byte done 3 acc a h.0,
        finish-encoder (done ++ (digit (a / 4) ∷ [])) 2 4 (shifted acc a) (a % 4 * 16) (omega arith)
            (omega arith),
      )
      (simp append_assoc)
encode_bytes-base64 (a ∷ b ∷ []) done acc h =
    rw
      (
        first_byte done 3 acc a h.0,
        second_byte (done ++ (digit (a / 4) ∷ [])) 2 (shifted acc a) b (a % 4) h.1.0 (omega arith),
        finish-encoder _ 1 2 (shifted (shifted acc a) b) (b % 16 * 4) (omega arith) (omega arith),
      )
      (simp append_assoc)
encode_bytes-base64 (a ∷ b ∷ c ∷ rest) done acc h =
    let (acc', run) =
      three-Bytes done ((length rest + 2) / 3 * 4) acc a b c (h.0, (h.1.0, (h.1.1.0, tt))) in
    let room : (suc (suc (suc (length rest))) + 2) / 3 * 4
        ≡ suc (suc (suc (suc ((length rest + 2) / 3 * 4)))) =
      omega arith in
    rw (room, run) (encode_bytes-base64 rest _ acc' h.1.1.1 ∙ simp append_assoc)

-- `encode` is the encoding of RFC 4648 up to its limit on the size, and empty beyond it.
pub encode-base64 :
    (bytes : List ℕ)
    → Bytes bytes
    → encode bytes ≡ (if ltb 1024968 (length bytes) then [] else base64 bytes)
unfolding encode start
encode-base64 bytes h = rw (encode_bytes-base64 bytes [] 0 h)
