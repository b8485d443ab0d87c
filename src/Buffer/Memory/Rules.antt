-- ===== src/Buffer/Memory/Rules.antt =====
-- What each command does on memory that is there.
use mathlib.Core.Path.{fun_ext}
use native.Mathlib.Nat.{add-zero}
use deprecated_tdk.Prelude.{
  ℕ, zero, suc, ◌+◌, ◌≤◌, ◌<◌, ◌≡◌, refl, Option, some, List, [], ◌∷◌, ◌++◌, take-append-drop,
  length-append, length-take, length-drop, arith, length, take, drop,
}
use deprecated_tdk.Buffer.Memory.{
  Heap, Cell, M, ok, ◌>>=◌, update, fill, load, put, read_bytes, write_bytes,
}

pub length-fill : (junk : ℕ → ℕ) (i n : ℕ) → length (fill junk i n) ≡ n
unfolding fill
length-fill junk i zero = refl
length-fill junk i (suc n) = omega (arith, length-fill junk (i + 1) n)

pub update-update :
    (f : ℕ → Option Cell) (p : ℕ) (c d : Option Cell) → update (update f p c) p d ≡ update f p d
update-update f p c d = fun_ext λ q. ground arith

pub update_self : (f : ℕ → Option Cell) (p : ℕ) (c : Option Cell) → update f p c p ≡ c
update_self f p c = ground arith

pub update_ne : (f : ℕ → Option Cell) (p q : ℕ) (c : Option Cell) → p < q → update f q c p ≡ f p
update_ne f p q c lt = ground arith

pub update_same : (f : ℕ → Option Cell) (p : ℕ) (c : Option Cell) → f p ≡ c → update f p c ≡ f
update_same f p c e = fun_ext λ q. ground arith

-- The heap with place `p` overwritten.
abbrev pub written : Heap → ℕ → Option Cell → Heap
written h p c = record h { cell = update h.cell p c }

pub written-written :
    (h : Heap) (p : ℕ) (c d : Option Cell) → written (written h p c) p d ≡ written h p d
written-written h p c d = rw (update-update h.cell p c d)

pub bind-ok :
    {A B : Type 0} (m : M A) (f : A → M B) (h : Heap) {a : A} {h' : Heap}
    → m h ≡ ok (a, h')
    → (m >>= f) h ≡ f a h'
bind-ok m f h e = rw (e, ◌>>=◌)

pub load_lem : (p : ℕ) (h : Heap) {c : Cell} → h.cell p ≡ some c → load (some p) h ≡ ok (c, h)
unfolding load
load_lem p h e = ground arith

pub put_lem : (p : ℕ) (c : Option Cell) (h : Heap) → put (some p) c h ≡ ok (tt, written h p c)
unfolding put
put_lem p c h = refl

pub read_bytes_lem :
    (p i n : ℕ) (h : Heap) {c : Cell}
    → h.cell p ≡ some c
    → i + n ≤ length c.bytes
    → read_bytes (some p) i n h ≡ ok (take n (drop i c.bytes), h)
unfolding read_bytes load
read_bytes_lem p i zero h e fits = refl
read_bytes_lem p i (suc n) h e fits = ground arith

-- The bytes of a place, overwritten from `i` on.
abbrev pub spliced : List ℕ → ℕ → List ℕ → List ℕ
spliced old i bytes = take i old ++ (bytes ++ drop (i + length bytes) old)

pub write_bytes_lem :
    (p i : ℕ) (bytes : List ℕ) (h : Heap) {c : Cell}
    → h.cell p ≡ some c
    → i + length bytes ≤ length c.bytes
    → write_bytes (some p) i bytes h
      ≡ ok (tt, written h p (some (record { count = c.count; bytes = spliced c.bytes i bytes })))
unfolding write_bytes load put
write_bytes_lem p i [] h {c} e fits =
    rw (add-zero, take-append-drop i c.bytes, update_same h.cell p (some c) e)
write_bytes_lem p i (x ∷ xs) h e fits = ground arith

pub length-spliced :
    (old : List ℕ) (i : ℕ) (bytes : List ℕ)
    → i + length bytes ≤ length old
    → length (spliced old i bytes) ≡ length old
length-spliced old i bytes fits = omega (
  arith,
  length-append (take i old) (bytes ++ drop (i + length bytes) old),
  length-append bytes (drop (i + length bytes) old),
  length-take i old,
  length-drop (i + length bytes) old,
)
