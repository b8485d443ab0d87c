-- ===== src/Crypto/Crc32/Tests.antt =====
-- The checksum at concrete messages.
use deprecated_tdk.Prelude.{ℕ, ◌≡◌, refl, List, [], ◌∷◌, arith}
use deprecated_tdk.Crypto.Crc32.{reset, update, value, update_byte, entry}
use deprecated_tdk.Crypto.Crc32.Serial.{register, update-register}

-- "123456789", the message by which CRC-32 is checked
abbrev digits : List ℕ
digits = 49 ∷ 50 ∷ 51 ∷ 52 ∷ 53 ∷ 54 ∷ 55 ∷ 56 ∷ 57 ∷ []

check_value : value (update reset digits) ≡ 0xcbf4_3926
unfolding value update reset update_byte entry
check_value = refl

update-register_example : (update reset digits).crc ≡ register 0xffff_ffff digits
unfolding reset
update-register_example = update-register reset digits (omega arith)
