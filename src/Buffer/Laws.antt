-- ===== src/Buffer/Laws.antt =====
-- src/c/sysfs/buffer.c: a buffer as an array file of a fixed size, over its whole life.
use kdrivers.Base.{
  ℕ, ◌+◌, ◌-◌, ◌*◌, ◌^◌, ◌≤◌, ◌<◌, min, ◌≡◌, refl, inl, inr, ap, ◌∙◌, Option, none, some, List,
  ◌==◌, ◌||◌, Bool-cases, length, u64, sub64, minus_one, Outcome, done, fault, out_of_fuel, ◌>>=◌,
  arith, replicate, length-replicate,
}
use kdrivers.Base.Slices.{
  slice, blit, memcpy, memcpy-eq-blit, memcpy-eq-fault, length-slice, length-blit, slice-blit,
}
use kdrivers.Base.Alloc.{Allocator}
use kdrivers.Buffer.{
  BufferState, buffer_init, requested_size, given_size, buffer_read, write_at, buffer_write,
}
use kdrivers.Buffer.Transfer.{IsValid, IsRequest, buffer_read-eq, buffer_write-eq}
use native.Mathlib.Decide.{dec_le}

module _ (heap : Allocator) (std_buff_size : ℕ) where
  -- An initialised buffer is valid, has the size that was asked for (the standard one if none
  -- was), and holds zeros.
  buffer_init-IsValid :
      (arg : Option ℕ) (w w' : heap.World) (s : BufferState)
      → requested_size heap std_buff_size arg < 2 ^ 63
      → buffer_init heap std_buff_size arg w ≡ done (0, some s, w')
      → IsValid s
        × (s.size ≡ requested_size heap std_buff_size arg)
        × (s.buffer ≡ replicate s.size 0)
  unfolding buffer_init
  buffer_init-IsValid arg w w' s small e =
      ground (arith, length-replicate {A = ℕ} (requested_size heap std_buff_size arg) 0)

-- A `memcpy` that does not fault keeps the length of the array that it writes to.
memcpy_length :
    (dst filled : List ℕ) (doff : ℕ) (src : List ℕ) (n : ℕ)
    → memcpy dst doff src 0 n ≡ done filled
    → length filled ≡ length dst
memcpy_length dst filled doff src n e = elim (dec_le (doff + n) (length dst)) [
  | yes room ↦ elim (dec_le (0 + n) (length src)) [
    | yes given ↦
        let taken : length (slice src 0 n) ≡ n = length-slice src 0 n given in
        let copied = memcpy-eq-blit dst doff src 0 n room given in
        let same : filled ≡ blit dst doff (slice src 0 n) = cc in
        let kept = length-blit dst doff (slice src 0 n) (omega (arith, taken)) in
        ap (length {A = ℕ}) same ∙ kept
    | no short ↦ let out = memcpy-eq-fault dst doff src 0 n (inr (omega arith)) in absurd cc
  ]
  | no over ↦ let out = memcpy-eq-fault dst doff src 0 n (inl (omega arith)) in absurd cc
]

module _ (s s' : BufferState) (n : ℕ) (v : IsValid s) where
  abbrev Kept : Type 0
  Kept = IsValid s' × (s'.size ≡ s.size)

  abbrev with_bytes : ℕ → List ℕ → Outcome (ℕ × Option (Option BufferState))
  with_bytes given filled = done (given, some (some (record s { buffer = filled })))

  copy_keeps :
      (given : ℕ) (copy : Outcome (List ℕ))
      → ((filled : List ℕ) → copy ≡ done filled → length filled ≡ length s.buffer)
      → (copy >>= λ filled. with_bytes given filled) ≡ done (n, some (some s'))
      → Kept
  copy_keeps given (done filled) same e =
      let len = same filled refl in
      let state : s' ≡ record s { buffer = filled } = cc in
      rw state (record { same_length = len ∙ v.same_length; small = v.small }, refl)
  copy_keeps given fault same e = absurd cc
  copy_keeps given out_of_fuel same e = absurd cc

  unchanged :
      (m : ℕ)
      → ◌≡◌ {A = Outcome (ℕ × Option (Option BufferState))}
          (done (m, some (some s)))
          (done (n, some (some s')))
      → Kept
  unchanged m e = let state : s' ≡ s = cc in rw state (v, refl)

  write_at-keeps :
      (src : List ℕ) (wanted offset : ℕ)
      → write_at src wanted offset s ≡ done (n, some (some s'))
      → Kept
  unfolding write_at
  write_at-keeps src wanted offset e =
      let accessible = sub64 s.size offset in
      let given = given_size wanted accessible in
      elim (Bool-cases (accessible == 0)) [
        | inl nothing ↦ unchanged 0 (rw nothing at e)
        | inr bytes ↦
            copy_keeps given (memcpy s.buffer offset src 0 given)
              (λ filled copied. memcpy_length s.buffer filled offset src given copied)
              (rw bytes at e)
      ]

  -- A write that gives a state back keeps the buffer valid, and its size, whatever it was given.
  buffer_write-keeps :
      (buffer : Option (List ℕ)) (size count : ℕ) (file : Option ℕ)
      → buffer_write buffer size count file (some (some s)) ≡ done (n, some (some s'))
      → Kept
  unfolding buffer_write
  buffer_write-keeps none size count file e = unchanged minus_one e
  buffer_write-keeps (some src) size count none e = unchanged minus_one e
  buffer_write-keeps (some src) size count (some offset) e =
      elim (Bool-cases (size == 0 || count == 0)) [
        | inl nothing ↦ unchanged minus_one (rw nothing at e)
        | inr bytes ↦ write_at-keeps src (u64 (size * count)) offset (rw bytes at e)
      ]

module _ (heap : Allocator) (std_buff_size : ℕ) (arg : Option ℕ) where
  -- The states of a buffer: the one that `buffer_init` gives, and those that writes give, with
  -- any arguments.
  pub data Reached : BufferState → Type 0 where
    initialised :
        (w w' : heap.World) {s : BufferState}
        → buffer_init heap std_buff_size arg w ≡ done (0, some s, w')
        → Reached s
    written :
        {s s' : BufferState} (buffer : Option (List ℕ)) (size count n : ℕ) (file : Option ℕ)
        → Reached s
        → buffer_write buffer size count file (some (some s)) ≡ done (n, some (some s'))
        → Reached s'

  -- In every state of a buffer, from its initialisation on and after any writes that do not
  -- fault, whatever they were given, the buffer is valid, and its size is the one that was asked
  -- for, or the standard one if none was.
  pub Reached-IsValid :
      {s : BufferState}
      → requested_size heap std_buff_size arg < 2 ^ 63
      → Reached s
      → IsValid s × (s.size ≡ requested_size heap std_buff_size arg)
  Reached-IsValid small (initialised w w' {s} e) =
      let r = buffer_init-IsValid heap std_buff_size arg w w' s small e in (r.0, r.1)
  Reached-IsValid small (written {s} {s'} buffer size count n file before e) =
      let r = Reached-IsValid small before in
      let k = buffer_write-keeps s s' n r.0 buffer size count file e in (k.0, k.1 ∙ r.1)

-- What was written is read back: a read of the same size at the same offset, into any array that
-- holds it, gives as many bytes as the write took, and those bytes.
pub buffer_read-write :
    (src dst : List ℕ) (size count offset : ℕ) (s : BufferState)
    → IsValid s
    → IsRequest size count (length src)
    → IsRequest size count (length dst)
    → offset ≤ s.size
    → let n = min (size * count) (s.size - offset) in
      (s' : BufferState) × (buffer_write (some src) size count (some offset) (some (some s))
        ≡ done (n, some (some s')))
      × (buffer_read (some dst) size count (some offset) (some (some s'))
          ≡ done (n, some (blit dst 0 (slice src 0 n))))
buffer_read-write src dst size count offset s v r q h =
    let n = min (size * count) (s.size - offset) in
    let bytes = slice src 0 n in
    let taken : length bytes ≡ n = length-slice src 0 n (omega (arith, r.fits)) in
    let room : offset + length bytes ≤ length s.buffer = omega arith in
    let s' : BufferState = record s { buffer = blit s.buffer offset bytes } in
    let valid : IsValid s' = record {
      same_length = length-blit s.buffer offset bytes room ∙ v.same_length;
      small = v.small;
    } in
    let back : slice s'.buffer offset n ≡ bytes = slice-blit s.buffer offset bytes n room taken in
    (
      s',
      buffer_write-eq src size count offset s v r h,
      buffer_read-eq dst size count offset s' valid q h
          ∙ ap (λ (l : List ℕ). done (n, some (blit dst 0 l))) back,
    )
