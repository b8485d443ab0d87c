-- ===== src/Io/Adapter/Remain.antt =====
-- What is left to write after some bytes: right if all buffers are as long as the first.
use deprecated_tdk.Prelude.{
  ℕ, zero, suc, ◌+◌, ◌-◌, ◌%◌, ◌^◌, ◌≤◌, ◌<◌, ◌≡◌, ◌∙◌, refl, sym, ap, true, false, List, [], ◌∷◌,
  ◌++◌, length, length-append, drop, drop-nil, drop-append_le, arith, leb, leb→le, ltb, lt→ltb,
  Bool-cases, inl, inr,
}
use mathlib.Core.Path.{ap₂}
use mathlib.Core.List.{append_assoc, append-nil}
use deprecated_tdk.Io.Adapter.{
  Iovec, BufferAdapter, buffer_size, no_buffers, first_len, widen, count, push_back, addresses,
  covered, remain_from, remain_buffers, size, size_from,
}

-- Buffers of one length.
abbrev pub AllLong : ℕ → List Iovec → Type 0
AllLong n [] = Unit {0}
AllLong n (b ∷ bs) = (b.iov_len ≡ n) × AllLong n bs

pub length-addresses : (p n : ℕ) → length (addresses p n) ≡ n
unfolding addresses
length-addresses p zero = refl
length-addresses p (suc n) = omega (arith, length-addresses (p + 1) n)

pub drop-addresses : (p n k : ℕ) → k ≤ n → drop k (addresses p n) ≡ addresses (p + k) (n - k)
unfolding addresses
drop-addresses p n zero h =
    let p' : p ≡ p + 0 = omega arith in let n' : n ≡ n - 0 = omega arith in ap₂ addresses p' n'
drop-addresses p zero (suc k) h = absurd (omega arith)
drop-addresses p (suc n) (suc k) h =
    let p' : p + 1 + k ≡ p + suc k = omega arith in
    let n' : n - k ≡ suc n - suc k = omega arith in
    drop-addresses (p + 1) n k (omega arith) ∙ ap₂ addresses p' n'

pub covered-append : (xs ys : List Iovec) → covered (xs ++ ys) ≡ covered xs ++ covered ys
unfolding covered
covered-append [] ys = refl
covered-append (x ∷ xs) ys =
    ap (λ t. addresses x.iov_base x.iov_len ++ t) (covered-append xs ys)
    ∙ sym (append_assoc (addresses x.iov_base x.iov_len) (covered xs) (covered ys))

-- Bytes past the first list.
pub drop-append_add : (xs ys : List ℕ) (n k : ℕ) → n ≡ length xs + k → drop n (xs ++ ys) ≡ drop k ys
drop-append_add [] ys n k e = ap (λ t. drop t ys) (omega (arith, e))
drop-append_add (x ∷ xs) ys zero k e = absurd (omega (arith, e))
drop-append_add (x ∷ xs) ys (suc n) k e = drop-append_add xs ys n k (omega (arith, e))

abbrev pub with_buffer : ℕ → ℕ → BufferAdapter → BufferAdapter
with_buffer p size b = record {
  buffers = b.buffers ++ (record { iov_base = p; iov_len = size } ∷ []);
}

-- With room, a buffer is put behind the others.
pub push_back_lem :
    (p size : ℕ) (b : BufferAdapter)
    → size < 2 ^ 31
    → length b.buffers < buffer_size
    → push_back p size b ≡ (true, with_buffer p size b)
unfolding push_back count
push_back_lem p size b fits room = ground arith

-- In any case the buffers that were there stay, in their places.
pub push_back-appends :
    (p size : ℕ) (b : BufferAdapter)
    → (rest : List Iovec) × ((push_back p size b).1.buffers ≡ b.buffers ++ rest)
unfolding push_back count
push_back-appends p size b = elim (Bool-cases (leb buffer_size (length b.buffers))) [
  | inl full ↦ ([], rw full (sym (append-nil b.buffers)))
  | inr room ↦ (record { iov_base = p; iov_len = widen size } ∷ [], rw room refl)
]

module _ (n : ℕ) (fits : n < 2 ^ 31) where
  remain_from_lem :
      (w : ℕ) (bs : List Iovec) (buffer : BufferAdapter)
      → AllLong n bs
      → w < 2 ^ 64
      → length buffer.buffers + length bs ≤ buffer_size
      → covered (remain_from n w bs buffer).buffers ≡ covered buffer.buffers ++ drop w (covered bs)
  unfolding remain_from covered
  remain_from_lem w [] buffer long small room =
      rw (drop-nil w) (sym (append-nil (covered buffer.buffers)))
  remain_from_lem w (b ∷ bs) buffer (e, long) small room = elim (Bool-cases (leb b.iov_len w)) [
    | inl whole ↦
        let here : List ℕ = addresses b.iov_base b.iov_len in
        let less : (w + 2 ^ 64 - n) % 2 ^ 64 ≡ w - n = omega (arith, leb→le b.iov_len w whole) in
        let past : drop w (here ++ covered bs) ≡ drop (w - n) (covered bs) =
          drop-append_add here (covered bs) w (w - n)
            (omega (arith, length-addresses b.iov_base b.iov_len, leb→le b.iov_len w whole)) in
        rw (whole, less, past) (remain_from_lem (w - n) bs buffer long (omega arith) (omega arith))
    | inr part ↦
        let here : List ℕ = addresses b.iov_base b.iov_len in
        let below : w < n = ground (arith, e) in
        let left : (b.iov_len - w) % 2 ^ 32 ≡ b.iov_len - w = omega arith in
        let rest : drop w (here ++ covered bs)
            ≡ addresses (b.iov_base + w) (b.iov_len - w) ++ covered bs =
          drop-append_le w here (covered bs) (omega (arith, length-addresses b.iov_base b.iov_len))
          ∙ ap (λ t. t ++ covered bs) (drop-addresses b.iov_base b.iov_len w (omega arith)) in
        rw
          (
            part,
            left,
            rest,
            push_back_lem (b.iov_base + w) (b.iov_len - w) buffer (omega arith) (omega arith),
          )
          (remain_from_lem 0 bs (with_buffer (b.iov_base + w) (b.iov_len - w) buffer) long
              (omega arith)
              (omega (
                arith,
                length-append buffer.buffers
                    (record { iov_base = b.iov_base + w; iov_len = b.iov_len - w } ∷ []),
              ))
            ∙ simp (covered, covered-append, append_assoc, append-nil))
  ]

module _ (n : ℕ) (fits : n < 2 ^ 31) (w : ℕ) (small : w < 2 ^ 64) where
  remain_first :
      (bs : List Iovec)
      → AllLong n bs
      → length bs ≤ buffer_size
      → covered (remain_from (first_len bs) w bs no_buffers).buffers ≡ drop w (covered bs)
  unfolding no_buffers covered remain_from
  remain_first [] long room = sym (drop-nil w)
  remain_first (b ∷ bs) long room =
      ap (λ f. covered (remain_from f w (b ∷ bs) no_buffers).buffers) long.0
      ∙ remain_from_lem n fits w (b ∷ bs) no_buffers long small (omega arith)

-- The remaining buffers cover exactly the bytes behind the first `io_bytes`, in order, if all
-- buffers are as long as the first (one buffer, as `write( p , sz )` makes it, always is).
pub remain_buffers_lem :
    (n io_bytes : ℕ) (b : BufferAdapter)
    → n < 2 ^ 31
    → io_bytes < 2 ^ 31
    → AllLong n b.buffers
    → length b.buffers ≤ buffer_size
    → covered (remain_buffers io_bytes b).buffers ≡ drop io_bytes (covered b.buffers)
unfolding remain_buffers no_buffers
remain_buffers_lem n io_bytes b fits small long room =
    rw (lt→ltb io_bytes (2 ^ 31) small)
      (remain_first n fits io_bytes (omega arith) b.buffers long room)

-- Three buffers of which the second is longer than the first: once the first two are written, as
-- many bytes of the third are skipped as the second has more than the first.
pub remain_buffers-skips :
    (a b c : Iovec)
    → a.iov_len < b.iov_len
    → b.iov_len < a.iov_len + c.iov_len
    → a.iov_len + b.iov_len < 2 ^ 31
    → c.iov_len < 2 ^ 31
    → covered (remain_buffers (a.iov_len + b.iov_len) (record { buffers = a ∷ b ∷ c ∷ [] })).buffers
      ≡ drop (b.iov_len - a.iov_len) (addresses c.iov_base c.iov_len)
unfolding remain_buffers remain_from push_back count no_buffers covered
remain_buffers-skips a b c longer left small fits =
    let small' : ltb (a.iov_len + b.iov_len) (2 ^ 31) ≡ true = lt→ltb _ _ small in
    let one : leb a.iov_len (a.iov_len + b.iov_len) ≡ true = ground arith in
    let w₁ : (a.iov_len + b.iov_len + 2 ^ 64 - a.iov_len) % 2 ^ 64 ≡ b.iov_len = omega arith in
    let two : leb b.iov_len b.iov_len ≡ true = ground arith in
    let w₂ : (b.iov_len + 2 ^ 64 - a.iov_len) % 2 ^ 64 ≡ b.iov_len - a.iov_len = omega arith in
    let three : leb c.iov_len (b.iov_len - a.iov_len) ≡ false = ground arith in
    let rest : (c.iov_len - (b.iov_len - a.iov_len)) % 2 ^ 32
        ≡ c.iov_len - (b.iov_len - a.iov_len) =
      omega arith in
    let rest' : ltb (c.iov_len - (b.iov_len - a.iov_len)) (2 ^ 31) ≡ true = ground arith in
    rw (small', one, w₁, two, w₂, three, rest, rest')
      (append-nil
          (addresses (c.iov_base + (b.iov_len - a.iov_len)) (c.iov_len - (b.iov_len - a.iov_len)))
        ∙ sym (drop-addresses c.iov_base c.iov_len (b.iov_len - a.iov_len) (omega arith)))

size_from_lem :
    (k : ℕ) (bs : List Iovec)
    → k + length (covered bs) < 2 ^ 32
    → size_from k bs ≡ k + length (covered bs)
unfolding size_from covered
size_from_lem k [] h = omega (arith, h)
size_from_lem k (b ∷ bs) h =
    let here : List ℕ = addresses b.iov_base b.iov_len in
    let both : length (here ++ covered bs) ≡ b.iov_len + length (covered bs) =
      omega (arith, length-append here (covered bs), length-addresses b.iov_base b.iov_len) in
    let small : (k + b.iov_len) % 2 ^ 32 ≡ k + b.iov_len = omega (arith, both, h) in
    rw small (omega (arith, both, h, size_from_lem (k + b.iov_len) bs (omega (arith, both, h))))

pub size_lem :
    (b : BufferAdapter) → length (covered b.buffers) < 2 ^ 32 → size b ≡ length (covered b.buffers)
unfolding size
size_lem b h = size_from_lem 0 b.buffers (omega (arith, h)) ∙ omega arith
