-- ===== src/Io/Adapter/Tests.antt =====
-- Buffers of two and of four bytes.
use deprecated_tdk.Prelude.{◌≡◌, refl, true, [], ◌∷◌, drop, arith}
use deprecated_tdk.Io.Adapter.{
  Iovec, BufferAdapter, size, size_from, one_buffer, push_back, count, remain_buffers, addresses,
  covered,
}
use deprecated_tdk.Io.Adapter.Remain.{remain_buffers_lem, remain_buffers-skips}

abbrev two_bytes : Iovec
two_bytes = record { iov_base = 100; iov_len = 2 }

abbrev four_bytes : Iovec
four_bytes = record { iov_base = 200; iov_len = 4 }

abbrev equal_buffers : BufferAdapter
equal_buffers = record { buffers = two_bytes ∷ record { iov_base = 300; iov_len = 2 } ∷ [] }

push_back_adds :
    push_back 200 4 (one_buffer 100 2) ≡ (true, record { buffers = two_bytes ∷ four_bytes ∷ [] })
unfolding push_back count one_buffer
push_back_adds = refl

size_adds : size (record { buffers = two_bytes ∷ four_bytes ∷ [] }) ≡ 6
unfolding size size_from
size_adds = refl

remain_buffers_lem_example :
    covered (remain_buffers 3 equal_buffers).buffers ≡ drop 3 (covered equal_buffers.buffers)
remain_buffers_lem_example =
    remain_buffers_lem 2 3 equal_buffers (omega arith) (omega arith) (refl, (refl, tt))
      (omega arith)

remain_buffers-skips_example :
    covered
      (remain_buffers 6 (record { buffers = two_bytes ∷ four_bytes ∷ four_bytes ∷ [] })).buffers
    ≡ drop 2 (addresses 200 4)
remain_buffers-skips_example =
    remain_buffers-skips two_bytes four_bytes four_bytes (omega arith) (omega arith) (omega arith)
      (omega arith)
