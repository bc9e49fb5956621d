-- ===== src/Buffer/Transfer.antt =====
-- src/c/sysfs/buffer.c: how many bytes a read or a write moves, and which.
use kdrivers.Base.{
  ℕ, ◌-◌, ◌*◌, ◌^◌, ◌≤◌, ◌<◌, min, ◌≡◌, ◌≢◌, some, List, length, sub64, u64, done, fault, arith,
}
use kdrivers.Base.Slices.{slice, blit, blit-slice_zero, memcpy-eq-blit, memcpy-eq-fault}
use kdrivers.Buffer.{BufferState, given_size, read_at, buffer_read, write_at, buffer_write}

-- The buffer is as long as `size` says, and no array takes half of the address space.
pub record IsValid (s : BufferState) : Type 0 where
  pub same_length : length s.buffer ≡ s.size
  pub small : s.size < 2 ^ 63

-- A request that the caller's array holds, with no wrap in `size * count`.
pub record IsRequest (size count len : ℕ) : Type 0 where
  pub size_pos : size ≢ 0
  pub count_pos : count ≢ 0
  pub fits : size * count ≤ len
  pub len_small : len < 2 ^ 63

pub given_size-eq-min :
    (wanted size offset : ℕ)
    → wanted < 2 ^ 63
    → size < 2 ^ 63
    → offset ≤ size
    → given_size wanted (sub64 size offset) ≡ min wanted (size - offset)
unfolding given_size
given_size-eq-min wanted size offset hw hs h = ground arith

read_at-eq :
    (dst : List ℕ) (wanted offset : ℕ) (s : BufferState)
    → IsValid s
    → wanted ≤ length dst
    → length dst < 2 ^ 63
    → offset ≤ s.size
    → let n = min wanted (s.size - offset) in
      read_at dst wanted offset s ≡ done (n, some (blit dst 0 (slice s.buffer offset n)))
unfolding read_at
read_at-eq dst wanted offset s v h k o = ground (
  arith,
  v,
  given_size-eq-min wanted s.size offset,
  memcpy-eq-blit dst 0 s.buffer offset (min wanted (s.size - offset)),
  blit-slice_zero dst 0 s.buffer offset (min wanted (s.size - offset)),
)

-- A read within the buffer gives as many bytes as are wanted and there, the bytes that the buffer
-- holds from the offset on, and leaves the rest of the caller's array.
pub buffer_read-eq :
    (dst : List ℕ) (size count offset : ℕ) (s : BufferState)
    → IsValid s
    → IsRequest size count (length dst)
    → offset ≤ s.size
    → let n = min (size * count) (s.size - offset) in
      buffer_read (some dst) size count (some offset) (some (some s))
      ≡ done (n, some (blit dst 0 (slice s.buffer offset n)))
unfolding buffer_read
buffer_read-eq dst size count offset s v r h =
    ground (arith, read_at-eq dst (u64 (size * count)) offset s v)

write_at-eq :
    (src : List ℕ) (wanted offset : ℕ) (s : BufferState)
    → IsValid s
    → wanted ≤ length src
    → length src < 2 ^ 63
    → offset ≤ s.size
    → let n = min wanted (s.size - offset) in
      write_at src wanted offset s
      ≡ done (n, some (some (record s { buffer = blit s.buffer offset (slice src 0 n) })))
unfolding write_at
write_at-eq src wanted offset s v h k o = ground (
  arith,
  v,
  given_size-eq-min wanted s.size offset,
  memcpy-eq-blit s.buffer offset src 0 (min wanted (s.size - offset)),
  blit-slice_zero s.buffer offset src 0 (min wanted (s.size - offset)),
)

-- A write within the buffer takes as many bytes as are wanted and fit, puts the first ones of the
-- caller's array into the buffer from the offset on, and changes nothing else.
pub buffer_write-eq :
    (src : List ℕ) (size count offset : ℕ) (s : BufferState)
    → IsValid s
    → IsRequest size count (length src)
    → offset ≤ s.size
    → let n = min (size * count) (s.size - offset) in
      buffer_write (some src) size count (some offset) (some (some s))
      ≡ done (n, some (some (record s { buffer = blit s.buffer offset (slice src 0 n) })))
unfolding buffer_write
buffer_write-eq src size count offset s v r h =
    ground (arith, write_at-eq src (u64 (size * count)) offset s v)

-- A buffer is an array file. Of the bytes that a request asks for from an offset within it on,
-- both transfers move those that there is room for up to its end: a read puts what the buffer
-- holds there at the front of the caller's array, and leaves the rest of that; a write puts the
-- first bytes of the caller's array there, and changes no other byte of the buffer.
pub buffer_transfer-eq :
    (buffer : List ℕ) (size count offset : ℕ) (s : BufferState)
    → IsValid s
    → IsRequest size count (length buffer)
    → offset ≤ s.size
    → let n = min (size * count) (s.size - offset) in
      (buffer_read (some buffer) size count (some offset) (some (some s))
        ≡ done (n, some (blit buffer 0 (slice s.buffer offset n))))
      × (buffer_write (some buffer) size count (some offset) (some (some s))
          ≡ done (n, some (some (record s { buffer = blit s.buffer offset (slice buffer 0 n) }))))
buffer_transfer-eq buffer size count offset s v r h = (
  buffer_read-eq buffer size count offset s v r h,
  buffer_write-eq buffer size count offset s v r h,
)

given_size_past_end :
    (wanted size offset : ℕ)
    → wanted < 2 ^ 62
    → size < offset
    → offset < 2 ^ 62
    → 2 ^ 63 ≤ given_size wanted (sub64 size offset)
unfolding given_size
given_size_past_end wanted size offset hw h ho = ground arith

-- An offset past the end is not refused: the count of accessible bytes wraps, so that the copy
-- leaves the caller's array, however few bytes were asked for.
pub buffer_read_past_end :
    (dst : List ℕ) (size count offset : ℕ) (s : BufferState)
    → IsRequest size count (length dst)
    → length dst < 2 ^ 62
    → s.size < offset
    → offset < 2 ^ 62
    → buffer_read (some dst) size count (some offset) (some (some s)) ≡ fault
unfolding buffer_read read_at
buffer_read_past_end dst size count offset s r k h ho = ground (
  arith,
  given_size_past_end (u64 (size * count)) s.size offset,
  memcpy-eq-fault dst 0 s.buffer offset (given_size (u64 (size * count)) (sub64 s.size offset)),
)
