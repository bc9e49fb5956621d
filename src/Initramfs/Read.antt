-- ===== src/Initramfs/Read.antt =====
-- src/c/sysfs/initramfs/file.c: what reading and `stat` of a file of the archive give.
use kdrivers.Base.{
  ℕ, zero, suc, ◌+◌, ◌*◌, ◌^◌, ◌<◌, ◌≤◌, ◌≡◌, refl, sym, ap, ◌∙◌, true, some, List, [], ◌∷◌, ◌++◌,
  ltb, if◌then◌else◌, length, length-append, set, get_or, length-set, get_or-set, get_or-set_ne,
  u64, Outcome, done, lt→ltb, le→ltb_false, arith,
}
use native.Mathlib.Decide.{dec_lt}
use kdrivers.Base.Filled.{IsFilled}
use kdrivers.Base.Memory.{load8}
use kdrivers.Initramfs.Archive.{Entry, IsEntry, encode, round_even}
use kdrivers.Initramfs.Layout.{
  length-encode, load_data_offset-encode, load_data_size-encode, load_stat-encode, load8-data,
  stat_of,
}
use kdrivers.Initramfs.File.{read_loop, initramfs_read, initramfs_stat}

module _ (memory : List ℕ) (file_start f_size offset : ℕ) where
  abbrev source : ℕ → Outcome ℕ
  source i =
      if ltb (u64 (i + offset)) f_size then load8 memory (u64 (file_start + offset + i)) else done 0

  -- The copy loop, when every byte that it loads is there.
  read_loop-IsFilled :
      (byte : ℕ → ℕ) (rounds i hi : ℕ) (buffer : List ℕ)
      → i + rounds ≡ hi
      → hi ≤ length buffer
      → ((j : ℕ) → j < hi → source j ≡ done (byte j))
      → (after : List ℕ) × (read_loop rounds memory file_start f_size offset i buffer ≡ done after)
        × IsFilled byte i hi buffer after
  unfolding read_loop
  read_loop-IsFilled byte zero i hi buffer e h loads = (
    buffer,
    refl,
    record { same_length = refl; inside = λ j p q. absurd (omega arith); outside = λ j p. refl },
  )
  read_loop-IsFilled byte (suc rounds) i hi buffer e h loads =
      let rest =
        read_loop-IsFilled byte rounds (i + 1) hi (set buffer i (byte i)) (omega arith)
          (rw length-set h) loads in
      (
        rest.0,
        rw (loads i (omega arith), lt→ltb i (length buffer) (omega arith)) rest.1,
        record {
          same_length = rest.2.same_length ∙ length-set buffer i (byte i);
          inside = λ j p q.
              ground (arith, rest.2.inside j, rest.2.outside j, get_or-set buffer i (byte i) 0);
          outside = λ j p. ground (arith, rest.2.outside j, get_or-set_ne buffer i j (byte i) 0);
        },
      )

get_or-past_end : (xs : List ℕ) (i : ℕ) → length xs ≤ i → get_or xs i 0 ≡ 0
get_or-past_end [] i h = refl
get_or-past_end (x ∷ xs) zero h = absurd (omega arith)
get_or-past_end (x ∷ xs) (suc i) h = get_or-past_end xs i (omega arith)

-- What the loop stores for a file of the archive.
source-encode :
    (before : List ℕ) (e : Entry) (rest : List ℕ) (offset j : ℕ)
    → IsEntry e
    → length (before ++ encode e rest) < 2 ^ 63
    → j + offset < 2 ^ 64
    → source
        (before ++ encode e rest)
        (length before + (26 + round_even (length e.name + 1)))
        (round_even (length e.contents))
        offset
        j
      ≡ done (get_or e.contents (j + offset) 0)
source-encode before e rest offset j v small h =
    let len = round_even (length e.contents) in
    let start = length before + (26 + round_even (length e.name + 1)) in
    let no_wrap : u64 (j + offset) ≡ j + offset = omega arith in
    rw no_wrap (elim (dec_lt (j + offset) len) [
      | yes inside ↦ rw (lt→ltb (j + offset) len inside) (
          load8-data before e rest (j + offset) _ inside
            (omega (arith, length-append before (encode e rest), length-encode e rest)))
      | no outside ↦
          rw (le→ltb_false (j + offset) len (omega arith))
            (ap done (sym (get_or-past_end e.contents (j + offset) (omega arith))))
    ])

-- Reading a file of the archive fills as much of the caller's array as was asked for: with the
-- file's contents from the offset on, then, past the end, with zeros. The count returned is
-- always the count asked for, also past the end.
pub initramfs_read-encode :
    (before : List ℕ) (e : Entry) (rest buffer : List ℕ) (size count offset : ℕ)
    → IsEntry e
    → length (before ++ encode e rest) < 2 ^ 63
    → size * count ≤ length buffer
    → length buffer < 2 ^ 63
    → offset < 2 ^ 63
    → (after : List ℕ) × (initramfs_read
          (before ++ encode e rest)
          buffer
          size
          count
          (some offset)
          (some (some (length before)))
        ≡ done (size * count, after))
      × IsFilled (λ i. get_or e.contents (i + offset) 0) 0 (size * count) buffer after
unfolding initramfs_read
initramfs_read-encode before e rest buffer size count offset v small fits buffer_small far =
    let memory = before ++ encode e rest in
    let file_start = length before + (26 + round_even (length e.name + 1)) in
    let f_size = round_even (length e.contents) in
    let no_wrap : u64 (size * count) ≡ size * count = omega arith in
    let filled =
      read_loop-IsFilled memory file_start f_size offset (λ i. get_or e.contents (i + offset) 0)
        (size * count) 0 (size * count) buffer (omega arith) fits
        (λ j h. source-encode before e rest offset j v small (omega arith)) in
    (
      filled.0,
      rw
          (
            load_data_offset-encode before e rest,
            load_data_size-encode before e rest v,
            no_wrap,
            filled.1,
            no_wrap,
          )
          refl,
      filled.2,
    )

-- `stat` of a file of the archive gives its header's words. The size is that of the contents
-- filled up to an even number, which is one too many for a file of odd length.
pub initramfs_stat-encode :
    (before : List ℕ) (e : Entry) (rest : List ℕ)
    → IsEntry e
    → initramfs_stat (before ++ encode e rest) (some (some (some (length before)))) true
      ≡ done (0, some (stat_of before e rest))
unfolding initramfs_stat
initramfs_stat-encode before e rest v = rw (load_stat-encode before e rest v)
