-- ===== src/Crypto/Base64/Decode.antt =====
-- `base64::decode` reads back what `encode` wrote, and writes as much as the text holds.
use native.Mathlib.Nat.{add-zero}
use mathlib.Core.List.{append_assoc}
use deprecated_tdk.Prelude.{
  ℕ, suc, ◌+◌, ◌*◌, ◌/◌, ◌%◌, ◌≤◌, ◌<◌, ◌≡◌, ◌∙◌, List, [], ◌∷◌, ◌++◌, arith, length, length-append,
  drop, Bytes, Option, some, none,
}
use deprecated_tdk.Crypto.Base64.{decode_chars, decode, encode}
use deprecated_tdk.Crypto.Base64.Spec.{base64}
use deprecated_tdk.Crypto.Base64.Encode.{encode-base64}
use deprecated_tdk.Crypto.Base64.Rounds.{
  decoder, decoded, decode_chars-filler, decode_chars-bits, decode_chars-full, one_byte, two_bytes,
  three-Bytes, finished,
}

finished_at :
    (done rest : List ℕ) (acc : ℕ)
    → decoded (decode_chars (decoder done rest 0 acc) []) ≡ some (length done + 0, done ++ rest)
unfolding decode_chars
finished_at done rest acc = ground arith

-- A number of bytes written, with the memory.
abbrev reply : ℕ → List ℕ → Option (ℕ × List ℕ)
reply n memory = some (n, memory)

after_three :
    (done : List ℕ) (a b c n : ℕ) (t : List ℕ)
    → reply (length (done ++ (a ∷ b ∷ c ∷ [])) + n) ((done ++ (a ∷ b ∷ c ∷ [])) ++ t)
      ≡ reply (length done + suc (suc (suc n))) (done ++ (a ∷ b ∷ c ∷ t))
after_three done a b c n t =
    ground (arith, length-append done (a ∷ b ∷ c ∷ []), append_assoc done (a ∷ b ∷ c ∷ []) t)

-- The text of `bytes` puts back `bytes`, where there is room, and nothing behind them changes.
decode_chars-base64 :
    (bytes done rest : List ℕ) (acc : ℕ)
    → Bytes bytes
    → length bytes ≤ length rest
    → decoded (decode_chars (decoder done rest 0 acc) (base64 bytes))
      ≡ some (length done + length bytes, done ++ (bytes ++ drop (length bytes) rest))
unfolding base64
decode_chars-base64 [] done rest acc h room = finished_at done rest acc
decode_chars-base64 (a ∷ []) done [] acc h room = absurd (omega arith)
decode_chars-base64 (a ∷ []) done (x ∷ rest) acc h room =
    rw
      (
        ← add-zero (a % 4 * 16),
        one_byte done rest x acc a (b'=' ∷ b'=' ∷ []) h.0 0 (omega arith),
        decode_chars-filler,
      )
      (rw decode_chars-filler (finished done (a ∷ []) rest _ _))
decode_chars-base64 (a ∷ b ∷ []) done [] acc h room = absurd (omega arith)
decode_chars-base64 (a ∷ b ∷ []) done (x ∷ []) acc h room = absurd (omega arith)
decode_chars-base64 (a ∷ b ∷ []) done (x ∷ y ∷ rest) acc h room =
    let (acc', low, run) = two_bytes done rest x y acc a b (b'=' ∷ []) h.0 h.1.0 0 (omega arith) in
    rw (← add-zero (b % 16 * 4), run, decode_chars-filler, append_assoc done (a ∷ []) (b ∷ []))
      (finished done (a ∷ b ∷ []) rest 2 acc')
decode_chars-base64 (a ∷ b ∷ c ∷ bytes) done [] acc h room = absurd (omega arith)
decode_chars-base64 (a ∷ b ∷ c ∷ bytes) done (x ∷ []) acc h room = absurd (omega arith)
decode_chars-base64 (a ∷ b ∷ c ∷ bytes) done (x ∷ y ∷ []) acc h room = absurd (omega arith)
decode_chars-base64 (a ∷ b ∷ c ∷ bytes) done (x ∷ y ∷ z ∷ rest) acc h room =
    let (acc', run) = three-Bytes done rest x y z acc a b c (base64 bytes) h.0 h.1.0 h.1.1.0 in
    rw
      (
        run,
        append_assoc (done ++ (a ∷ [])) (b ∷ []) (c ∷ []),
        append_assoc done (a ∷ []) (b ∷ c ∷ []),
      )
      (decode_chars-base64 bytes (done ++ (a ∷ b ∷ c ∷ [])) rest acc' h.1.1.1 (omega arith)
        ∙ after_three done a b c (length bytes) (bytes ++ drop (length bytes) rest))

-- Where there is less room than bytes, the write behind the last place is reached.
decode_chars-no_room :
    (bytes done rest : List ℕ) (acc : ℕ)
    → Bytes bytes
    → length rest < length bytes
    → decode_chars (decoder done rest 0 acc) (base64 bytes) ≡ none
unfolding base64
decode_chars-no_room [] done rest acc h room = absurd (omega arith)
decode_chars-no_room (a ∷ []) done [] acc h room =
    decode_chars-bits done [] acc (a / 4) _ (omega arith)
    ∙ decode_chars-full done 4 _ _ _ (omega arith)
decode_chars-no_room (a ∷ []) done (x ∷ rest) acc h room = absurd (omega arith)
decode_chars-no_room (a ∷ b ∷ []) done [] acc h room =
    decode_chars-bits done [] acc (a / 4) _ (omega arith)
    ∙ decode_chars-full done 4 _ _ _ (omega arith)
decode_chars-no_room (a ∷ b ∷ []) done (x ∷ []) acc h room =
    one_byte done [] x acc a _ h.0 (b / 16) (omega arith)
    ∙ decode_chars-full (done ++ (a ∷ [])) 2 _ _ _ (omega arith)
decode_chars-no_room (a ∷ b ∷ []) done (x ∷ y ∷ rest) acc h room = absurd (omega arith)
decode_chars-no_room (a ∷ b ∷ c ∷ bytes) done [] acc h room =
    decode_chars-bits done [] acc (a / 4) _ (omega arith)
    ∙ decode_chars-full done 4 _ _ _ (omega arith)
decode_chars-no_room (a ∷ b ∷ c ∷ bytes) done (x ∷ []) acc h room =
    one_byte done [] x acc a _ h.0 (b / 16) (omega arith)
    ∙ decode_chars-full (done ++ (a ∷ [])) 2 _ _ _ (omega arith)
decode_chars-no_room (a ∷ b ∷ c ∷ bytes) done (x ∷ y ∷ []) acc h room =
    let (acc', low, run) = two_bytes done [] x y acc a b _ h.0 h.1.0 (c / 64) (omega arith) in
    run ∙ decode_chars-full ((done ++ (a ∷ [])) ++ (b ∷ [])) 0 acc' _ _ (omega arith)
decode_chars-no_room (a ∷ b ∷ c ∷ bytes) done (x ∷ y ∷ z ∷ rest) acc h room =
    let (acc', run) = three-Bytes done rest x y z acc a b c (base64 bytes) h.0 h.1.0 h.1.1.0 in
    run
    ∙ decode_chars-no_room bytes (((done ++ (a ∷ [])) ++ (b ∷ [])) ++ (c ∷ [])) rest acc' h.1.1.1
        (omega arith)

within_limit : (bytes : List ℕ) → Bytes bytes → length bytes ≤ 1024968 → encode bytes ≡ base64 bytes
within_limit bytes h small = ground (arith, encode-base64 bytes h)

-- `decode` of what `encode` wrote returns the number of bytes and puts them at `ptr`; the memory
-- behind them keeps its content. That needs memory for them, whatever `size` says.
pub decode-encode :
    (bytes memory : List ℕ) (size : ℕ)
    → Bytes bytes
    → length bytes ≤ 1024968
    → length bytes ≤ length memory
    → decode (encode bytes) memory size ≡ some (length bytes, bytes ++ drop (length bytes) memory)
unfolding decode
decode-encode bytes memory size h small room =
    ground (arith, within_limit bytes h small, decode_chars-base64 bytes [] memory 0 h room)

-- `decode` is told the size of the memory and writes past its end, for every text that holds more.
pub decode-overrun :
    (bytes memory : List ℕ)
    → Bytes bytes
    → length bytes ≤ 1024968
    → length memory < length bytes
    → decode (encode bytes) memory (length memory) ≡ none
unfolding decode
decode-overrun bytes memory h small room =
    ground (arith, within_limit bytes h small, decode_chars-no_room bytes [] memory 0 h room)
