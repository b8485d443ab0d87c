-- ===== src/Crypto/Md5/Spec.antt =====
-- RFC 1321: the digest of a whole message, with the transform of the source.
use deprecated_tdk.Prelude.{ℕ, ◌-◌, ◌/◌, ◌%◌, List, [], ◌∷◌, ◌++◌, length, replicate}
use deprecated_tdk.Crypto.Stream.Rules.{run}
use deprecated_tdk.Crypto.Stream.Count.{low, high}
use deprecated_tdk.Crypto.Md5.{State, transform, encode_words, first}

-- 3.1 and 3.2: a bit 1, zeros up to 56 modulo 64, and the number of bits in 64 bits, low word first.
abbrev pub padded : List ℕ → List ℕ
padded msg =
    msg
    ++ ((0x80 ∷ replicate ((119 - length msg % 64) % 64) 0)
        ++ encode_words (low (length msg) ∷ high (length msg) ∷ []))

abbrev pub output : State → List ℕ
output s = encode_words (s.a ∷ s.b ∷ s.c ∷ s.d ∷ [])

unfoldable pub md5 : List ℕ → List ℕ
md5 msg = output (run transform (length (padded msg) / 64) first (padded msg))
