-- ===== src/Io/SocketEvents/Rounds.antt =====
-- The branches of one try of `handle_writeable`.
use deprecated_tdk.Prelude.{ℕ, suc, ◌≡◌, refl, true, false, List, [], ◌∷◌}
use deprecated_tdk.Io.Adapter.{remain_buffers}
use deprecated_tdk.Io.Task.{no_error, platform, IoTask}
use deprecated_tdk.Io.Result.{crashed, returned}
use deprecated_tdk.Io.System.{System, transferred, would_block, failed, retry}
use deprecated_tdk.Io.Socket.{Socket, add_complete, add_io_bytes, is_written, called, sent}
use deprecated_tdk.Io.SocketEvents.{write_round}

module _ (system : System) (tries : ℕ) (s : Socket) where
  pub no_write : s.writes ≡ [] → write_round system (suc tries) s ≡ crashed
  unfolding write_round
  no_write e = simp (write_round, e) refl

  module _ (wt : IoTask) (wts : List IoTask) (e : s.writes ≡ wt ∷ wts) where
    pub blocked_write :
        retry (system.writev s.calls (remain_buffers wt.io_bytes wt.buffers)) ≡ would_block
        → write_round system (suc tries) s ≡ returned (false, no_error, called system s)
    unfolding write_round
    blocked_write a = simp (write_round, e, a) refl

    pub failed_write :
        (k : ℕ)
        → retry (system.writev s.calls (remain_buffers wt.io_bytes wt.buffers)) ≡ failed k
        → write_round system (suc tries) s ≡ returned (false, platform k, called system s)
    unfolding write_round
    failed_write k a = simp (write_round, e, a) refl

    pub whole_write :
        (k : ℕ)
        → retry (system.writev s.calls (remain_buffers wt.io_bytes wt.buffers)) ≡ transferred k
        → is_written (add_io_bytes k wt) ≡ true
        → write_round system (suc tries) s
          ≡ write_round system tries
              (add_complete (add_io_bytes k wt) (record (sent system k wt s) { writes = wts }))
    unfolding write_round
    whole_write k a whole = simp (write_round, e, a, whole) refl

    pub part_write :
        (k : ℕ)
        → retry (system.writev s.calls (remain_buffers wt.io_bytes wt.buffers)) ≡ transferred k
        → is_written (add_io_bytes k wt) ≡ false
        → write_round system (suc tries) s
          ≡ write_round system tries
              (record (sent system k wt s) { writes = add_io_bytes k wt ∷ wts })
    unfolding write_round
    part_write k a part = simp (write_round, e, a, part) refl
