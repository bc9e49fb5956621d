-- ===== src/Buffer/Examples.antt =====
-- src/c/sysfs/buffer.c: the results at concrete inputs, and runs of the functions.
use kdrivers.Base.{
  ℕ, ◌≡◌, refl, Option, none, some, List, [], ◌∷◌, length, done, fault, replicate, length-replicate,
  arith,
}
use kdrivers.Base.Slices.{memcpy}
use kdrivers.Base.Alloc.{Allocator}
use kdrivers.Buffer.{BufferState, buffer_init, requested_size, buffer_read, buffer_write}
use kdrivers.Buffer.Transfer.{IsValid, IsRequest, buffer_transfer-eq, buffer_read_past_end}
use kdrivers.Buffer.Laws.{Reached, initialised, written, Reached-IsValid, buffer_read-write}

-- An allocator that has memory left for as long as its count is not 0.
counted_alloc : ℕ → ℕ → Option (List ℕ) × ℕ
counted_alloc n ℕ.zero = (none, 0)
counted_alloc n (ℕ.suc left) = (some (replicate n 7), left)

counted_alloc_length : (n w : ℕ) (m : List ℕ) → (counted_alloc n w).0 ≡ some m → length m ≡ n
unfolding counted_alloc
counted_alloc_length n ℕ.zero m e = ground arith
counted_alloc_length n (ℕ.suc left) m e = ground (arith, length-replicate {A = ℕ} n 7)

abbrev counted : Allocator
counted = record { World = ℕ; alloc = counted_alloc; alloc_length = counted_alloc_length }

abbrev five : BufferState
five = record { size = 5; buffer = 1 ∷ 2 ∷ 3 ∷ 4 ∷ 5 ∷ [] }

five-IsValid : IsValid five
five-IsValid = omega arith

abbrev four_bytes : List ℕ
four_bytes = 9 ∷ 8 ∷ 7 ∷ 6 ∷ []

two_by_two-IsRequest : IsRequest 2 2 4
two_by_two-IsRequest = omega arith

read_stops_at_the_end :
    buffer_read (some four_bytes) 2 2 (some 3) (some (some five))
    ≡ done (2, some (4 ∷ 5 ∷ 7 ∷ 6 ∷ []))
unfolding buffer_read memcpy
read_stops_at_the_end = refl

second_alloc_fails : buffer_init counted 16 (some 3) 1 ≡ fault
unfolding buffer_init counted_alloc
second_alloc_fails = refl

buffer_transfer-eq_example :
    (buffer_read (some four_bytes) 2 2 (some 3) (some (some five))
      ≡ done (2, some (4 ∷ 5 ∷ 7 ∷ 6 ∷ [])))
    × (buffer_write (some four_bytes) 2 2 (some 3) (some (some five))
        ≡ done (2, some (some (record { size = 5; buffer = 1 ∷ 2 ∷ 3 ∷ 9 ∷ 8 ∷ [] }))))
buffer_transfer-eq_example =
    buffer_transfer-eq four_bytes 2 2 3 five five-IsValid two_by_two-IsRequest (omega arith)

buffer_read_past_end_example : buffer_read (some four_bytes) 2 2 (some 6) (some (some five)) ≡ fault
buffer_read_past_end_example =
    buffer_read_past_end four_bytes 2 2 6 five two_by_two-IsRequest (omega arith) (omega arith)
      (omega arith)

-- Three bytes, and a write of four from byte 1 on.
abbrev three : BufferState
three = record { size = 3; buffer = 0 ∷ 0 ∷ 0 ∷ [] }

started : Reached counted 16 (some 3) three
unfolding buffer_init counted_alloc
started = initialised 2 0 refl

after_write : Reached counted 16 (some 3) (record { size = 3; buffer = 0 ∷ 9 ∷ 8 ∷ [] })
unfolding buffer_write memcpy
after_write = written (some four_bytes) 2 2 2 (some 1) started refl

Reached-IsValid_example :
    IsValid (record { size = 3; buffer = 0 ∷ 9 ∷ 8 ∷ [] })
    × (3 ≡ requested_size counted 16 (some 3))
Reached-IsValid_example =
    Reached-IsValid counted 16 (some 3) (unfold requested_size in omega arith) after_write

buffer_read-write_example :
    (s' : BufferState) × (buffer_write (some four_bytes) 2 2 (some 1) (some (some five))
      ≡ done (4, some (some s')))
    × (buffer_read (some (0 ∷ 0 ∷ 0 ∷ 0 ∷ [])) 2 2 (some 1) (some (some s'))
        ≡ done (4, some four_bytes))
buffer_read-write_example =
    buffer_read-write four_bytes (0 ∷ 0 ∷ 0 ∷ 0 ∷ []) 2 2 1 five five-IsValid two_by_two-IsRequest
      two_by_two-IsRequest (omega arith)
