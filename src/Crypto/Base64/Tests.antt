-- ===== src/Crypto/Base64/Tests.antt =====
-- The encoding at concrete texts.
use deprecated_tdk.Prelude.{ℕ, ◌≡◌, refl, List, [], ◌∷◌, some, arith}
use deprecated_tdk.Crypto.Base64.{
  encode, decode, emit, encode_byte, encode_bytes, drain, start, finish, digit, undigit, store,
  take_digit, decode_char, decode_chars, isspace,
}
use deprecated_tdk.Crypto.Base64.Spec.{base64}
use deprecated_tdk.Crypto.Base64.Encode.{encode-base64}
use deprecated_tdk.Crypto.Base64.Decode.{decode-encode}

-- "Man", "Ma"
abbrev man : List ℕ
man = 77 ∷ 97 ∷ 110 ∷ []

abbrev two : List ℕ
two = 77 ∷ 97 ∷ []

encode-man : encode man ≡ b'T' ∷ b'W' ∷ b'F' ∷ b'u' ∷ []
unfolding encode start finish encode_bytes encode_byte drain emit digit
encode-man = refl

encode-two : encode two ≡ b'T' ∷ b'W' ∷ b'E' ∷ b'=' ∷ []
unfolding encode start finish encode_bytes encode_byte drain emit digit
encode-two = refl

-- A blank is skipped; a character that is no digit is taken for the number 64.
decode_bad_character : decode (b'T' ∷ 32 ∷ b'!' ∷ []) (0 ∷ []) 1 ≡ some (1, 76 ∷ [])
unfolding decode decode_chars decode_char take_digit store undigit isspace
decode_bad_character = refl

encode-base64_example : encode two ≡ base64 two
encode-base64_example = encode-base64 two (omega arith)

decode-encode_example :
    decode (encode man) (0 ∷ 0 ∷ 0 ∷ 9 ∷ []) 4 ≡ some (3, 77 ∷ 97 ∷ 110 ∷ 9 ∷ [])
decode-encode_example =
    decode-encode man (0 ∷ 0 ∷ 0 ∷ 9 ∷ []) 4 (omega arith) (omega arith) (omega arith)
