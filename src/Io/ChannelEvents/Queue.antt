-- ===== src/Io/ChannelEvents/Queue.antt =====
-- The queue of messages as bytes: what goes into the buffers, and what is taken off.
use mathlib.Core.List.{append_assoc, append-nil}
use deprecated_tdk.Prelude.{
  ℕ, ◌+◌, ◌-◌, ◌^◌, ◌≤◌, ◌<◌, ◌≡◌, ◌∙◌, refl, sym, ap, some, List, [], ◌∷◌, ◌++◌, length,
  length-append, drop, drop-nil, drop-append_le, ltb, ◌==◌, arith, ==_iff, Bool-cases, inl, inr,
}
use deprecated_tdk.Io.Adapter.{Iovec, BufferAdapter, buffer_size, push_back, addresses, covered}
use deprecated_tdk.Io.Adapter.Remain.{
  push_back_lem, push_back-appends, length-addresses, drop-addresses, drop-append_add,
}
use deprecated_tdk.Io.ChannelEvents.{gather, consume}

-- Messages of less than 2 GiB.
abbrev pub AllShort : List Iovec → Type 0
AllShort [] = Unit {0}
AllShort (m ∷ ms) = (m.iov_len < 2 ^ 31) × AllShort ms

pub gather_lem :
    (ms : List Iovec) (buf : BufferAdapter)
    → AllShort ms
    → length buf.buffers + length ms ≤ buffer_size
    → (gather ms buf).buffers ≡ buf.buffers ++ ms
unfolding gather
gather_lem [] buf short room = sym (append-nil buf.buffers)
gather_lem (m ∷ ms) buf (fits, short) room =
    rw (push_back_lem m.iov_base m.iov_len buf fits (omega arith)) (
      gather_lem ms (record { buffers = buf.buffers ++ (m ∷ []) }) short
        (omega (arith, length-append buf.buffers (m ∷ [])))
      ∙ append_assoc buf.buffers (m ∷ []) ms)

pub gather-appends :
    (ms : List Iovec) (buf : BufferAdapter)
    → (rest : List Iovec) × ((gather ms buf).buffers ≡ buf.buffers ++ rest)
unfolding gather
gather-appends [] buf = ([], sym (append-nil buf.buffers))
gather-appends (m ∷ ms) buf =
    let (added, one) = push_back-appends m.iov_base m.iov_len buf in
    let (rest, more) = gather-appends ms (push_back m.iov_base m.iov_len buf).1 in
    elim (Bool-cases (push_back m.iov_base m.iov_len buf).0) [
      | inl pushed ↦ (
        added ++ rest,
        rw pushed (more ∙ ap (λ t. t ++ rest) one ∙ append_assoc buf.buffers added rest),
      )
      | inr full ↦ ([], rw full (sym (append-nil buf.buffers)))
    ]

-- The bytes that were written leave the queue, and no others.
pub consume_lem :
    (n : ℕ) (ms : List Iovec)
    → n ≤ length (covered ms)
    → (q : List Iovec) × (consume n ms ≡ some q)
      × (covered q ≡ drop n (covered ms))
      × (length q ≤ length ms)
unfolding consume covered
consume_lem n [] h = ([], ground (arith, h), sym (drop-nil n), omega arith)
consume_lem n (m ∷ ms) h =
    let here : List ℕ = addresses m.iov_base m.iov_len in
    let long : length here ≡ m.iov_len = length-addresses m.iov_base m.iov_len in
    let both : length (here ++ covered ms) ≡ m.iov_len + length (covered ms) =
      omega (arith, long, length-append here (covered ms)) in
    elim (Bool-cases (n == 0)) [
      | inl none_left ↦
          let zero_n : n ≡ 0 = (==_iff n 0).0 none_left in
          (
            m ∷ ms,
            rw none_left refl,
            ap (λ t. drop t (here ++ covered ms)) (sym zero_n),
            omega arith,
          )
      | inr more ↦ elim (Bool-cases (ltb n m.iov_len)) [
        | inl part ↦ (
          record { iov_base = m.iov_base + n; iov_len = m.iov_len - n } ∷ ms,
          rw (more, part) refl,
          ap (λ t. t ++ covered ms) (sym (drop-addresses m.iov_base m.iov_len n (ground arith)))
              ∙ sym (drop-append_le n here (covered ms) (ground (arith, long))),
          omega arith,
        )
        | inr whole ↦
            let le : m.iov_len ≤ n = ground arith in
            let (q, eq, rest, short) =
              consume_lem (n - m.iov_len) ms (omega (arith, h, both, le)) in
            (
              q,
              rw (more, whole) eq,
              rest
                  ∙ sym (
                      drop-append_add here (covered ms) n (n - m.iov_len)
                        (omega (arith, long, le))),
              omega (arith, short),
            )
      ]
    ]
