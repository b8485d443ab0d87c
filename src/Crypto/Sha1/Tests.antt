-- ===== src/Crypto/Sha1/Tests.antt =====
-- SHA-1 at concrete messages.
use deprecated_tdk.Prelude.{ℕ, ◌≡◌, refl, List, [], ◌∷◌, replicate, arith}
use deprecated_tdk.Crypto.Stream.{add_bits, feed, absorb}
use deprecated_tdk.Crypto.Md5.{decode_words}
use deprecated_tdk.Crypto.Stream.Absorb.{updates}
use deprecated_tdk.Crypto.Sha1.Spec.{sha1}
use deprecated_tdk.Crypto.Sha1.Digest.{sha1-value-updates}
use deprecated_tdk.Crypto.Sha1.{reset, update, value}

abbrev junk : List ℕ
junk = replicate 64 7

-- "abc"
value_abc :
    value (update (reset junk) (97 ∷ 98 ∷ 99 ∷ []))
    ≡ 0xa9 ∷ 0x99 ∷ 0x3e ∷ 0x36 ∷ 0x47 ∷ 0x06 ∷ 0x81 ∷ 0x6a ∷ 0xba ∷ 0x3e ∷ 0x25 ∷ 0x71 ∷ 0x78
      ∷ 0x50 ∷ 0xc2 ∷ 0x6c ∷ 0x9c ∷ 0xd0 ∷ 0xd8 ∷ 0x9d ∷ []
unfolding value reset update add_bits feed absorb decode_words
value_abc = refl

sha1-value-updates_example :
    value (updates update (reset junk) ((97 ∷ []) ∷ (replicate 70 98) ∷ []))
    ≡ sha1 (97 ∷ replicate 70 98)
sha1-value-updates_example =
    sha1-value-updates junk ((97 ∷ []) ∷ (replicate 70 98) ∷ []) refl (omega arith)
