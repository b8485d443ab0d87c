-- ===== src/Io/ChannelEvents/Sending.antt =====
-- What `_send_remains` puts on the wire.
use deprecated_tdk.Prelude.{
  ℕ, suc, ◌+◌, ◌%◌, ◌^◌, ◌≤◌, ◌<◌, ◌≡◌, ◌∙◌, refl, ap, some, List, [], ◌∷◌, ◌++◌, length,
  length-drop, take, drop, drop-drop, take-append_le, arith,
}
use deprecated_tdk.Io.Adapter.{Iovec, BufferAdapter, no_buffers, covered}
use deprecated_tdk.Io.Adapter.Remain.{covered-append}
use deprecated_tdk.Io.Task.{no_error}
use deprecated_tdk.Io.Result.{returned}
use deprecated_tdk.Io.System.{System, transferred, would_block, retry}
use deprecated_tdk.Io.Channel.{Channel}
use deprecated_tdk.Io.ChannelEvents.{
  gather, sent_of, consume, asked, on_send, written, send_from, send_remains,
}
use deprecated_tdk.Io.ChannelEvents.Queue.{AllShort, gather_lem, gather-appends, consume_lem}

length-covered_nil : length (covered []) ≡ 0
unfolding covered
length-covered_nil = refl

-- The channel after a `writev` of `n` bytes that leaves `q`.
abbrev took : ℕ → BufferAdapter → List Iovec → Channel → Channel
took n buf q c = record c {
  send_queue = q;
  calls = c.calls + 1;
  wire = c.wire ++ take n (covered buf.buffers);
}

module _ (system : System) (fuel total : ℕ) (buf : BufferAdapter) (c : Channel) where
  sent_step :
      (n : ℕ) (m : Iovec) (ms q : List Iovec)
      → c.send_queue ≡ m ∷ ms
      → retry (system.writev c.calls (gather (m ∷ ms) buf)) ≡ transferred n
      → consume n (m ∷ ms) ≡ some q
      → send_from system (suc fuel) buf total c
        ≡ send_from system fuel
            (gather (m ∷ ms) buf)
            ((total + n) % 2 ^ 32)
            (took n (gather (m ∷ ms) buf) q c)
  unfolding send_from sent_of written
  sent_step n m ms q e a left = simp (send_from, e, a, sent_of, left) refl

  -- A loop that ends at once: nothing waits, or the buffer of the system is full.
  abbrev Ends : List Iovec → Type 0
  Ends queue =
      (c' : Channel) × (send_from system (suc fuel) buf total c ≡ returned c')
      × (c'.wire ≡ c.wire)
      × (c'.send_queue ≡ queue)
      × (c'.send_bytes ≡ total)
      × (c'.send_error ≡ no_error)

  last_step :
      (queue : List Iovec)
      → c.send_queue ≡ queue
      → ((b : BufferAdapter) → retry (system.writev c.calls b) ≡ would_block)
      → Ends queue
  unfolding send_from sent_of
  last_step [] e full = (on_send no_error total c, simp (send_from, e) refl, refl, e, refl, refl)
  last_step (m ∷ ms) e full = (
    on_send no_error total (asked c),
    simp (send_from, e, full (gather (m ∷ ms) buf)) refl,
    refl,
    e,
    refl,
    refl,
  )

module _ (system : System) (c : Channel) (m : Iovec) (ms : List Iovec) (short : AllShort (m ∷ ms))
    (waits : c.send_queue ≡ m ∷ ms) (few : length (m ∷ ms) ≤ 32) where
  first : BufferAdapter
  first = gather (m ∷ ms) no_buffers

  first_lem : first.buffers ≡ m ∷ ms
  unfolding first no_buffers
  first_lem = gather_lem (m ∷ ms) no_buffers short (omega (arith, few))

  -- Behind them come the messages of the next round.
  second_lem :
      (q : List Iovec) (k : ℕ)
      → k ≤ length (covered (m ∷ ms))
      → take k (covered (gather q first).buffers) ≡ take k (covered (m ∷ ms))
  second_lem q k le =
      let (rest, more) = gather-appends q first in
      ap (λ t. take k (covered t)) (more ∙ ap (λ t. t ++ rest) first_lem)
      ∙ ap (λ t. take k t) (covered-append (m ∷ ms) rest)
      ∙ take-append_le k (covered (m ∷ ms)) (covered rest) le

  -- The system takes `n` bytes, then it is full: the first `n` bytes of the messages go out, the
  -- others stay in the queue, and `n` is the number that is told.
  pub send_remains_lem :
      (fuel n : ℕ)
      → ((b : BufferAdapter) → retry (system.writev c.calls b) ≡ transferred n)
      → ((b : BufferAdapter) → retry (system.writev (c.calls + 1) b) ≡ would_block)
      → n ≤ length (covered (m ∷ ms))
      → n < 2 ^ 31
      → (c' : Channel) × (send_remains system (suc (suc fuel)) c ≡ returned c')
        × (c'.wire ≡ c.wire ++ take n (covered (m ∷ ms)))
        × (covered c'.send_queue ≡ drop n (covered (m ∷ ms)))
        × (c'.send_bytes ≡ n)
        × (c'.send_error ≡ no_error)
  unfolding send_remains first
  send_remains_lem fuel n once full le small =
      let (q, left, rest, less) = consume_lem n (m ∷ ms) le in
      let (c', ends, wire, queue, bytes, error) =
        last_step system fuel ((0 + n) % 2 ^ 32) first (took n first q c) q refl full in
      (
        c',
        sent_step system (suc fuel) 0 no_buffers c n m ms q waits (once first) left ∙ ends,
        wire ∙ ap (λ t. c.wire ++ take n (covered t)) first_lem,
        ap covered queue ∙ rest,
        bytes ∙ omega (arith, small),
        error,
      )

  -- The system takes `n` bytes, which are not all, and then `k` more before it is full: the second
  -- `writev` is handed the first messages again, so its `k` bytes are the first `k`, a second time,
  -- while the queue moves on by them.
  pub send_remains-repeats :
      (fuel n k : ℕ)
      → ((b : BufferAdapter) → retry (system.writev c.calls b) ≡ transferred n)
      → ((b : BufferAdapter) → retry (system.writev (c.calls + 1) b) ≡ transferred k)
      → ((b : BufferAdapter) → retry (system.writev (c.calls + 1 + 1) b) ≡ would_block)
      → n < length (covered (m ∷ ms))
      → n + k ≤ length (covered (m ∷ ms))
      → (c' : Channel) × (send_remains system (suc (suc (suc fuel))) c ≡ returned c')
        × (c'.wire ≡ (c.wire ++ take n (covered (m ∷ ms))) ++ take k (covered (m ∷ ms)))
        × (covered c'.send_queue ≡ drop (n + k) (covered (m ∷ ms)))
  unfolding send_remains first
  send_remains-repeats fuel n k once again full more le =
      let (q, left, rest, less) = consume_lem n (m ∷ ms) (omega (arith, le)) in go q left rest less
    where
      go :
          (q : List Iovec)
          → consume n (m ∷ ms) ≡ some q
          → covered q ≡ drop n (covered (m ∷ ms))
          → length q ≤ length (m ∷ ms)
          → (c' : Channel) × (send_remains system (suc (suc (suc fuel))) c ≡ returned c')
            × (c'.wire ≡ (c.wire ++ take n (covered (m ∷ ms))) ++ take k (covered (m ∷ ms)))
            × (covered c'.send_queue ≡ drop (n + k) (covered (m ∷ ms)))
      go [] left rest less = absurd (
          omega (arith, more, ap length rest, length-drop n (covered (m ∷ ms)), length-covered_nil))
      go (p ∷ ps) left rest less =
          let second : BufferAdapter = gather (p ∷ ps) first in
          let sum : ℕ = (0 + n) % 2 ^ 32 in
          let c₁ : Channel = took n first (p ∷ ps) c in
          let (r, left', rest', less') =
            consume_lem k (p ∷ ps)
              (omega (arith, le, ap length rest, length-drop n (covered (m ∷ ms)))) in
          let (c', ends, wire, queue, bytes, error) =
            last_step system fuel ((sum + k) % 2 ^ 32) second (took k second r c₁) r refl full in
          (
            c',
            sent_step system (suc (suc fuel)) 0 no_buffers c n m ms (p ∷ ps) waits (once first) left
                ∙ sent_step system (suc fuel) sum first c₁ k p ps r refl (again second) left'
                ∙ ends,
            wire
                ∙ ap (λ t. (c.wire ++ take n (covered t)) ++ take k (covered second.buffers))
                    first_lem
                ∙ ap (λ t. (c.wire ++ take n (covered (m ∷ ms))) ++ t)
                    (second_lem (p ∷ ps) k (omega (arith, le))),
            ap covered queue ∙ rest' ∙ ap (λ t. drop k t) rest ∙ drop-drop k n (covered (m ∷ ms)),
          )
