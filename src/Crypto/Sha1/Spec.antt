-- ===== src/Crypto/Sha1/Spec.antt =====
-- RFC 3174: the digest of a whole message, with the transform of the source.
use deprecated_tdk.Prelude.{ℕ, ◌-◌, ◌/◌, ◌%◌, List, [], ◌∷◌, ◌++◌, length, replicate}
use deprecated_tdk.Crypto.Stream.Rules.{run}
use deprecated_tdk.Crypto.Stream.Count.{low, high}
use deprecated_tdk.Crypto.Sha1.{State, transform, big_endian, first}

-- 4: a bit 1, zeros up to 56 modulo 64, and the number of bits in 64 bits, high word first.
abbrev pub zeros : ℕ → List ℕ
zeros n = replicate ((119 - n % 64) % 64) 0

abbrev pub padded : List ℕ → List ℕ
padded msg =
    ((msg ++ (0x80 ∷ [])) ++ zeros (length msg))
    ++ big_endian (high (length msg) ∷ low (length msg) ∷ [])

abbrev pub output : State → List ℕ
output s = big_endian (s.a ∷ s.b ∷ s.c ∷ s.d ∷ s.e ∷ [])

unfoldable pub sha1 : List ℕ → List ℕ
sha1 msg = output (run transform (length (padded msg) / 64) first (padded msg))
