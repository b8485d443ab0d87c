-- ===== src/Buffer/Base/Share.antt =====
-- Copy, assignment and move of a share.
use deprecated_tdk.Prelude.{ℕ, ◌+◌, ◌≡◌, some, List}
use deprecated_tdk.Buffer.Memory.{Heap, ok, pure}
use deprecated_tdk.Buffer.Memory.Rules.{bind-ok, written}
use deprecated_tdk.Buffer.Base.{BufferBase, null_base, add_ref, dec_ref, copy, move_assign}
use deprecated_tdk.Buffer.Base.Rules.{Holds, released, add_ref_lem, dec_ref_lem}

module _ (h : Heap) (b : BufferBase) (p k : ℕ) (bytes : List ℕ) (own : Holds h b p k bytes) where
  pub copy_lem : copy b h ≡ ok (b, written h p (some (record { count = k + 1; bytes = bytes })))
  unfolding copy
  copy_lem = simp own.own (bind-ok (add_ref b) (λ u. pure b) h (add_ref_lem h b p k bytes own))

  pub move_assign_lem :
      (rhs : BufferBase)
      → move_assign b rhs h ≡ ok ((rhs, null_base), written h p (released k bytes))
  unfolding move_assign
  move_assign_lem rhs = bind-ok (dec_ref b) _ h (dec_ref_lem h b p k bytes own)
