-- ===== src/Io/Socket/Sent.antt =====
-- The bytes of a write go out in order, each of them once, over as many calls of `writev` as it
-- takes.
use mathlib.Core.Path.{subst}
use mathlib.Core.List.{append_assoc}
use deprecated_tdk.Prelude.{
  ℕ, zero, suc, ◌+◌, ◌%◌, ◌^◌, ◌≤◌, ◌<◌, ◌≡◌, ◌∙◌, refl, sym, ap, true, List, ◌++◌, length,
  length-drop, take, drop, take-append-drop, take-take, drop-take, arith, ==_iff, Bool-cases, inl,
  inr,
}
use deprecated_tdk.Io.Adapter.{BufferAdapter, buffer_size, size, covered, remain_buffers}
use deprecated_tdk.Io.Adapter.Remain.{AllLong, remain_buffers_lem, size_lem}
use deprecated_tdk.Io.Task.{platform, IoTask}
use deprecated_tdk.Io.System.{System, Answer, transferred, would_block, failed, retry}
use deprecated_tdk.Io.Socket.{
  Socket, Outcome, completed, pending, broken, sent, called, add_io_bytes, is_written, try_write,
}

-- `writev` takes no more than it is given.
abbrev pub IsHonest : System → Type 0
IsHonest system =
    (calls : ℕ) (b : BufferAdapter) (n : ℕ)
    → retry (system.writev calls b) ≡ transferred n
    → n ≤ length (covered b.buffers)

take-append_drop : (n m : ℕ) (xs : List ℕ) → take n xs ++ take m (drop n xs) ≡ take (n + m) xs
take-append_drop n m xs =
    ap (λ t. take n xs ++ t) (sym (drop-take n m xs))
    ∙ ap (λ t. t ++ drop n (take (n + m) xs)) (sym (take-take n (n + m) xs (omega arith)))
    ∙ take-append-drop n (take (n + m) xs)

-- The buffers of a write: at most 64 of one length, less than 2 GiB in all.
pub record IsRegular (len : ℕ) (b : BufferAdapter) : Type 0 where
  pub long : AllLong len b.buffers
  pub few : length b.buffers ≤ buffer_size
  pub short : len < 2 ^ 31
  pub small : length (covered b.buffers) < 2 ^ 31

module _ (system : System) (honest : IsHonest system) (len : ℕ) (b : BufferAdapter)
    (regular : IsRegular len b) (old : List ℕ) where
  -- What went out is the part of the buffers that `io_bytes` counts, behind what went out before.
  abbrev pub IsSent : Outcome × IoTask × Socket → Type 0
  IsSent r =
      (r.1.buffers ≡ b)
      × (r.2.wire ≡ old ++ take r.1.io_bytes (covered b.buffers))
      × (r.1.io_bytes ≤ length (covered b.buffers))
      × (r.0 ≡ completed → r.1.io_bytes ≡ length (covered b.buffers))

  left_over :
      (wt : IoTask)
      → wt.buffers ≡ b
      → wt.io_bytes ≤ length (covered b.buffers)
      → covered (remain_buffers wt.io_bytes wt.buffers).buffers
        ≡ drop wt.io_bytes (covered b.buffers)
  left_over wt same le =
      ap (λ t. covered (remain_buffers wt.io_bytes t).buffers) same
      ∙ remain_buffers_lem len wt.io_bytes b regular.short (omega (arith, le, regular.small))
          regular.long regular.few

  sent_step :
      (n : ℕ) (wt : IoTask) (s : Socket)
      → IsSent (pending, wt, s)
      → retry (system.writev s.calls (remain_buffers wt.io_bytes wt.buffers)) ≡ transferred n
      → IsSent (pending, add_io_bytes n wt, sent system n wt s)
  unfolding sent add_io_bytes
  sent_step n wt s (same, out, le, over) e =
      let c : List ℕ = covered b.buffers in
      let rest = left_over wt same le in
      let fits : wt.io_bytes + n ≤ length c = omega (
        arith,
        honest s.calls (remain_buffers wt.io_bytes wt.buffers) n e,
        ap length rest,
        length-drop wt.io_bytes c,
        le,
      ) in
      let sum : (wt.io_bytes + n) % 2 ^ 32 ≡ wt.io_bytes + n = omega (arith, fits, regular.small) in
      (
        same,
        ap (λ t. t ++ take n (covered (remain_buffers wt.io_bytes wt.buffers).buffers)) out
            ∙ ap (λ t. (old ++ take wt.io_bytes c) ++ take n t) rest
            ∙ append_assoc old (take wt.io_bytes c) (take n (drop wt.io_bytes c))
            ∙ ap (λ t. old ++ t) (take-append_drop wt.io_bytes n c)
            ∙ ap (λ t. old ++ take t c) (sym sum),
        omega (arith, fits, sum),
        λ no. cc,
      )

  full :
      (wt : IoTask)
      → wt.buffers ≡ b
      → is_written wt ≡ true
      → wt.io_bytes ≡ length (covered b.buffers)
  unfolding is_written
  full wt same whole =
      (==_iff wt.io_bytes (size wt.buffers)).0 whole
      ∙ ap size same
      ∙ size_lem b (omega (arith, regular.small))

  -- Over all tries of a write, and however little each of them takes, the bytes that went out are
  -- those at the start of its buffers that `io_bytes` counts, in order and each of them once; when
  -- the write is complete, that is all of them. The buffers are of one length.
  pub try_write_lem :
      (tries : ℕ) (wt : IoTask) (s : Socket)
      → IsSent (pending, wt, s)
      → IsSent (try_write system tries wt s)
  unfolding try_write called is_written
  try_write_lem zero wt s h = h
  try_write_lem (suc tries) wt s h =
      go (λ wt' s' h'. try_write_lem tries wt' s' h')
        (retry (system.writev s.calls (remain_buffers wt.io_bytes wt.buffers))) refl
    where
      go :
          ((wt' : IoTask) (s' : Socket)
            → IsSent (pending, wt', s')
            → IsSent (try_write system tries wt' s'))
          → (a : Answer) → retry (system.writev s.calls (remain_buffers wt.io_bytes wt.buffers)) ≡ a
          → IsSent (try_write system (suc tries) wt s)
      go again would_block e =
          let eq : try_write system (suc tries) wt s ≡ (pending, wt, called system s) =
            simp (try_write, e) refl in
          subst IsSent (sym eq) h
      go again (failed k) e =
          let eq : try_write system (suc tries) wt s ≡ (broken (platform k), wt, called system s) =
            simp (try_write, e) refl in
          subst IsSent (sym eq) (h.0, h.1, h.2, λ no. cc)
      go again (transferred n) e =
          let next = sent_step n wt s h e in
          let wt' = add_io_bytes n wt in
          elim (Bool-cases (is_written wt')) [
            | inl whole ↦
                let eq : try_write system (suc tries) wt s ≡ (completed, wt', sent system n wt s) =
                  simp (try_write, e, whole) refl in
                subst IsSent (sym eq) (next.0, next.1, next.2, λ done. full wt' next.0 whole)
            | inr part ↦
                let eq : try_write system (suc tries) wt s
                    ≡ try_write system tries wt' (sent system n wt s) =
                  simp (try_write, e, part) refl in
                subst IsSent (sym eq) (again wt' (sent system n wt s) next)
          ]
