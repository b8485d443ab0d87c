-- ===== src/Crypto/Md5/Tests.antt =====
-- MD5 at concrete messages.
use deprecated_tdk.Prelude.{ℕ, ◌≡◌, refl, List, [], ◌∷◌, replicate, arith}
use deprecated_tdk.Crypto.Stream.{add_bits, feed, absorb}
use deprecated_tdk.Crypto.Stream.Absorb.{updates}
use deprecated_tdk.Crypto.Md5.{reset, update, value}
use deprecated_tdk.Crypto.Md5.Spec.{md5}
use deprecated_tdk.Crypto.Md5.Digest.{value-updates}

abbrev junk : List ℕ
junk = replicate 64 7

-- "abc", the third test of the RFC
value_abc :
    value (update (reset junk) (97 ∷ 98 ∷ 99 ∷ []))
    ≡ 0x90 ∷ 0x01 ∷ 0x50 ∷ 0x98 ∷ 0x3c ∷ 0xd2 ∷ 0x4f ∷ 0xb0 ∷ 0xd6 ∷ 0x96 ∷ 0x3f ∷ 0x7d ∷ 0x28
      ∷ 0xe1 ∷ 0x7f ∷ 0x72 ∷ []
unfolding value reset update add_bits feed absorb
value_abc = refl

value-updates_example :
    value (updates update (reset junk) ((97 ∷ []) ∷ (replicate 70 98) ∷ []))
    ≡ md5 (97 ∷ replicate 70 98)
value-updates_example = value-updates junk ((97 ∷ []) ∷ (replicate 70 98) ∷ []) refl (omega arith)
