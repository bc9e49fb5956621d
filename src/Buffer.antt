-- ===== src/Buffer.antt =====
-- src/c/sysfs/buffer.c: RAM files of a fixed size. A pointer argument is an `Option`, a byte
-- array a list; `file` is the file's offset, as its 64-bit pattern, and `res` the resource's
-- `driver_state`. A `size_t` is a number below 2 ^ 64.
pub mod Transfer
pub mod Laws
pub mod Examples
use kdrivers.Base.{
  ℕ, ◌+◌, ◌*◌, ◌^◌, Option, none, some, List, Bool, ◌||◌, ltb, ◌==◌, if◌then◌else◌, length,
  replicate, u64, sub64, minus_one, positive64, Outcome, done, fault, ◌>>=◌,
}
use kdrivers.Base.Slices.{memcpy}
use kdrivers.Base.Alloc.{Allocator, neg}

-- `struct buffer_dri_state`
pub record BufferState : Type 0 where
  pub size : ℕ
  pub buffer : List ℕ

abbrev pub buffer_state_size : ℕ
buffer_state_size = 16

-- `memset(state->buffer, 0, size)` right after `alloc`, which is not checked for `NULL`.
zeroed : ℕ → Option (List ℕ) → Outcome BufferState
zeroed size none = fault
zeroed size (some memory) = done (record { size = size; buffer = replicate size 0 })

module _ (heap : Allocator) (std_buff_size : ℕ) where
  open heap use {World, alloc}

  pub requested_size : Option ℕ → ℕ
  requested_size none = std_buff_size
  requested_size (some size) = size

  -- The result code, and the driver state of the resource.
  pub buffer_init : Option ℕ → World → Outcome (ℕ × Option BufferState × World)
  unfolding zeroed requested_size
  buffer_init arg w =
      let size = requested_size arg in
      let (state, w') = alloc buffer_state_size w in
      let (memory, w'') = alloc size w' in
      elim state [
        | none ↦ done (neg 1, none, w')
        | some _ ↦ zeroed size memory >>= λ s. done (0, some s, w'')
      ]

-- The blocks that `buffer_uninit` frees, in order.
pub data Block : Type 0 where
  buffer_block state_block : Block

pub buffer_uninit : Option BufferState → ℕ × List Block
buffer_uninit none = (1, List.[])
buffer_uninit (some s) = (0, List.◌∷◌ buffer_block (List.◌∷◌ state_block List.[]))

-- `delta > 0 ? wanted - delta : wanted`, then `given > 0 ? given : 0`.
pub given_size : ℕ → ℕ → ℕ
given_size wanted accessible =
    let delta = sub64 wanted accessible in
    let given = if positive64 delta then sub64 wanted delta else wanted in
    if ltb 0 given then given else 0

-- `none` in place of a caller's buffer is `NULL`. The second component is that buffer afterwards.
read_at : List ℕ → ℕ → ℕ → BufferState → Outcome (ℕ × Option (List ℕ))
unfolding given_size
read_at buffer wanted offset state =
    let accessible = sub64 state.size offset in
    let given = given_size wanted accessible in
    if accessible == 0
    then done (0, some buffer)
    else memcpy buffer 0 state.buffer offset given >>= λ filled. done (given, some filled)

pub buffer_read :
    Option (List ℕ) → ℕ → ℕ → Option ℕ → Option (Option BufferState) → Outcome (ℕ × Option (List ℕ))
unfolding read_at
buffer_read (some buffer) size count (some offset) (some (some state)) =
    if size == 0 || count == 0
    then done (minus_one, some buffer)
    else read_at buffer (u64 (size * count)) offset state
buffer_read buffer size count file res = done (minus_one, buffer)

-- The second component is the resource's `driver_state` afterwards.
write_at : List ℕ → ℕ → ℕ → BufferState → Outcome (ℕ × Option (Option BufferState))
unfolding given_size
write_at buffer wanted offset state =
    let accessible = sub64 state.size offset in
    let given = given_size wanted accessible in
    if accessible == 0
    then done (0, some (some state))
    else memcpy state.buffer offset buffer 0 given >>= λ filled.
        done (given, some (some (record state { buffer = filled })))

pub buffer_write :
    Option (List ℕ)
    → ℕ
    → ℕ
    → Option ℕ
    → Option (Option BufferState)
    → Outcome (ℕ × Option (Option BufferState))
unfolding write_at
buffer_write (some buffer) size count (some offset) (some (some state)) =
    if size == 0 || count == 0
    then done (minus_one, some (some state))
    else write_at buffer (u64 (size * count)) offset state
buffer_write buffer size count file res = done (minus_one, res)

pub buffer_seek : Option ℕ → Option (Option BufferState) → ℕ
buffer_seek file res = 0

-- The code, and `st_size` where it is written; the driver state is not checked for `NULL`.
pub buffer_stat : Option (Option BufferState) → Bool → Outcome (ℕ × Option ℕ)
buffer_stat (some (some state)) Bool.true = done (0, some state.size)
buffer_stat (some none) Bool.true = fault
buffer_stat res stat = done (neg 1, none)
