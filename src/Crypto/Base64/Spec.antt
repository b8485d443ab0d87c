-- ===== src/Crypto/Base64/Spec.antt =====
-- Base 64 as RFC 4648 defines it, three bytes at a time, and the facts about single digits.
use deprecated_tdk.Prelude.{ℕ, ◌+◌, ◌*◌, ◌/◌, ◌%◌, List, [], ◌∷◌}
use deprecated_tdk.Crypto.Base64.{digit}

unfoldable pub base64 : List ℕ → List ℕ
base64 [] = []
base64 (a ∷ []) = digit (a / 4) ∷ digit (a % 4 * 16) ∷ b'=' ∷ b'=' ∷ []
base64 (a ∷ b ∷ []) = digit (a / 4) ∷ digit (a % 4 * 16 + b / 16) ∷ digit (b % 16 * 4) ∷ b'=' ∷ []
base64 (a ∷ b ∷ c ∷ rest) =
    digit (a / 4)
    ∷ digit (a % 4 * 16 + b / 16)
    ∷ digit (b % 16 * 4 + c / 64)
    ∷ digit (c % 64)
    ∷ base64 rest
