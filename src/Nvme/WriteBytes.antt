-- ===== src/Nvme/WriteBytes.antt =====
-- src/c/sysdev/nvme/namespace.c: what is written to a namespace.
use kdrivers.Base.{
  ℕ, zero, suc, ◌+◌, ◌-◌, ◌*◌, ◌/◌, ◌%◌, ◌^◌, ◌≤◌, ◌<◌, ◌≡◌, ◌⊎◌, inl, inr, refl, ap, ◌∙◌, Option,
  none, some, List, ==_false, lt→ltb, le→ltb_false, length, get_or, u32, u64, done, fault, arith,
}
use kdrivers.Base.Filled.{IsFilled, IsFilled-refl, IsFilled-trans, IsFilled-blit}
use kdrivers.Base.Slices.{slice, blit}
use kdrivers.Nvme.{page_size}
use kdrivers.Nvme.Transport.{Transport, IsNvm, IsNvmWrite}
use kdrivers.Nvme.Namespace.{
  State, prepare_page, copy_to_page, round_size, write_loop, write_nvme_namespace,
}
use kdrivers.Nvme.ReadPages.{
  AtBlock, in_range, within, step, lba_positive, lba_le, step-AtBlock, round_size-eq,
}
use kdrivers.Nvme.WritePages.{HasPage, write_round}
use native.Mathlib.Decide.{dec_lt}
use native.Mathlib.Nat.{mod-lt}

module _ (t : Transport) (align_down : ℕ → ℕ → ℕ) (state : State)
    (d : IsNvm t state.lba_size (u32 state.namespace) state.qpair_base)
    (wr : IsNvmWrite t state.lba_size (u32 state.namespace) state.qpair_base d)
    (aligns : (x : ℕ) → align_down x state.lba_size ≡ x / state.lba_size * state.lba_size) (m : ℕ)
    (whole_blocks : m * state.lba_size ≡ page_size) (page_blocks : state.block_size ≡ page_size)
    (offset total : ℕ) (lbas_small : offset + total ≤ 2 ^ 31 * state.lba_size) (buffer : List ℕ)
    (fits : total ≤ length buffer) where
  abbrev pub given_byte : ℕ → ℕ
  given_byte i = get_or buffer (i - offset) 0

  abbrev pub Writes : ℕ → ℕ → Option ℕ → t.World → Type 0
  Writes fuel moved page w =
      (w' : t.World) × (write_loop t align_down state offset total fuel moved page buffer w
        ≡ done (total, w'))
      × IsFilled given_byte (offset + moved) (offset + total) (d.disk w) (d.disk w')

  -- What a round relies on: it starts at a block, and has a page if it does not read one.
  abbrev Starts : ℕ → Option ℕ → Type 0
  Starts moved page =
      (more : moved < total)
      → (at : AtBlock t align_down state d aligns m whole_blocks page_blocks offset total lbas_small
          moved)
        × HasPage t align_down state d wr aligns m whole_blocks page_blocks offset total lbas_small
            moved more at page

  writes :
      (fuel moved : ℕ) (page : Option ℕ) (w : t.World)
      → moved ≤ total
      → total < moved + fuel
      → Starts moved page
      → offset + total + page_size ≤ length (d.disk w)
      → Writes fuel moved page w
  unfolding write_loop
  writes zero moved page w h enough starts inside = absurd (omega arith)
  writes (suc fuel) moved page w h enough starts inside = elim (dec_lt moved total) [
    | yes more ↦
        let at = (starts more).0 in
        let n =
          step t align_down state d aligns m whole_blocks page_blocks offset total lbas_small
            moved in
        let small_block = lba_le t align_down state d aligns m whole_blocks page_blocks in
        let in_block : within t align_down state d aligns m whole_blocks page_blocks offset total
              lbas_small moved
            < state.lba_size =
          mod-lt (offset + moved)
            (omega (arith, lba_positive t align_down state d aligns m whole_blocks page_blocks)) in
        let round =
          write_round t align_down state d wr aligns m whole_blocks page_blocks offset total
            lbas_small moved more at fuel page buffer w (starts more).1 inside fits in
        let written = blit (d.disk w) (offset + moved) (slice buffer moved n) in
        let filled : IsFilled given_byte (offset + moved) (offset + (moved + n)) (d.disk w)
            written =
          IsFilled-blit given_byte (d.disk w) (offset + moved) buffer moved n (offset + (moved + n))
            (omega arith) (omega arith) (omega arith)
            (λ k hk. ap (λ (i : ℕ). get_or buffer i 0) (omega arith)) in
        let filled' : IsFilled given_byte (offset + moved) (offset + (moved + n)) (d.disk w)
            (d.disk round.1) =
          rw round.3 filled in
        let rest =
          writes fuel (moved + n) (some round.0) round.1 (omega arith) (omega arith)
            (λ again. (
              step-AtBlock t align_down state d aligns m whole_blocks page_blocks offset total
                  lbas_small moved more again,
              inr (round.0, refl),
            ))
            (rw filled'.same_length inside) in
        (
          rest.0,
          round.2 ∙ rest.1,
          IsFilled-trans {y = d.disk round.1} {z = d.disk rest.0} (omega arith) (omega arith)
              filled' rest.2,
        )
    | no over ↦
        let all : moved ≡ total = omega arith in
        (
          t.pmm_free page w,
          rw (le→ltb_false moved total (omega arith), all) refl,
          rw (d.free_disk page w)
              (IsFilled-refl given_byte (offset + moved) (offset + total) (d.disk w) (omega arith)),
        )
  ]

  whole_page :
      offset % state.lba_size ≡ 0
      → page_size ≤ total
      → round_size t align_down state offset total 0 ≡ page_size
  whole_page aligned full =
      let from_start : offset + 0 ≡ offset = omega arith in
      let start : (offset + 0) % state.lba_size ≡ 0 = rw from_start aligned in
      round_size-eq t align_down state d aligns m whole_blocks page_blocks offset total lbas_small 0
        (omega arith) (inl refl)
      ∙ omega (arith, start)

  no_memory :
      (fuel : ℕ) (w : t.World)
      → offset % state.lba_size ≡ 0
      → page_size ≤ total
      → write_loop t align_down state offset total (suc fuel) 0 none buffer w ≡ fault
  unfolding write_loop prepare_page copy_to_page
  no_memory fuel w aligned full =
      let size = round_size t align_down state offset total 0 in
      rw
        (
          lt→ltb 0 total (omega arith),
          ==_false state.lba_size 0
              (lba_positive t align_down state d aligns m whole_blocks page_blocks),
          le→ltb_false size page_size (omega (arith, whole_page aligned full)),
        )
        refl

  -- The first round of a write that begins with a whole page.
  first_round :
      (w : t.World)
      → offset % state.lba_size ≡ 0
      → page_size ≤ total
      → write_loop t align_down state offset total (total + 1) 0 none buffer w ≡ fault
  first_round w aligned full =
      ap (λ (fuel : ℕ). write_loop t align_down state offset total fuel 0 none buffer w)
        (let e : total + 1 ≡ suc total = omega arith in e)
      ∙ no_memory total w aligned full

  from_zero :
      (before after : List ℕ)
      → IsFilled given_byte (offset + 0) (offset + total) before after
      → IsFilled given_byte offset (offset + total) before after
  from_zero before after f = record {
    same_length = f.same_length;
    inside = λ i p q. f.inside i (omega arith) q;
    outside =
        λ i p. f.outside i (elim p [ inl before ↦ inl (omega arith) | inr after ↦ inr after ]);
  }

  module _ (size count : ℕ) (wanted : size * count ≡ total) where
    loop-eq :
        (w : t.World)
        → write_nvme_namespace t align_down state buffer size count offset w
          ≡ write_loop t align_down state offset total (total + 1) 0 none buffer w
    unfolding write_nvme_namespace
    loop-eq w =
        let range =
          in_range t align_down state d aligns m whole_blocks page_blocks offset total lbas_small in
        let n : u64 (size * count) ≡ total = rw wanted (omega arith) in
        ap (λ (k : ℕ). write_loop t align_down state offset k (k + 1) 0 none buffer w) n

    -- A write that does not begin with a whole page puts the bytes of the buffer on the namespace,
    -- from the file's offset on, and leaves the other bytes of the namespace as they were; it ends,
    -- and gives the count of all bytes. A write begins with a whole page where the offset is the
    -- start of a block and there are as many bytes as in a page, or more. The write ends at block
    -- 2 ^ 31 at most, since the code keeps the number of a block in an `int`; the namespace has a
    -- whole page more behind the last byte that is written, since each command is for a page; the
    -- buffer has all the bytes; and a page is the namespace's block of the file system and a whole
    -- number of its logical blocks.
    -- There is memory for a page, the processor's pair of queues is one of the array, and the device
    -- carries each command out.
    pub write_nvme_namespace-IsFilled :
        (w : t.World)
        → (0 < offset % state.lba_size) ⊎ (total < page_size)
        → offset + total + page_size ≤ length (d.disk w)
        → (w' : t.World) × (write_nvme_namespace t align_down state buffer size count offset w
            ≡ done (total, w'))
          × IsFilled given_byte offset (offset + total) (d.disk w) (d.disk w')
    write_nvme_namespace-IsFilled w part inside =
        let from_start : offset + 0 ≡ offset = omega arith in
        let reads_page : (0 < (offset + 0) % state.lba_size) ⊎ (total < page_size) =
          rw from_start part in
        let r =
          writes (total + 1) 0 none w (omega arith) (omega arith)
            (λ more. (
              inl refl,
              inl (elim reads_page [ inl inner ↦ omega arith | inr short ↦ omega arith ]),
            ))
            inside in
        (r.0, loop-eq w ∙ r.1, from_zero (d.disk w) (d.disk r.0) r.2)

    -- A write that begins with a whole page does not read one first, so that there is no memory for
    -- it: the bytes are copied to the address `NULL`. The write ends at block 2 ^ 31 at most, the
    -- buffer has all the bytes, and a page is the namespace's block of the file system and a whole
    -- number of its logical blocks.
    pub write_nvme_namespace_fault :
        (w : t.World)
        → offset % state.lba_size ≡ 0
        → page_size ≤ total
        → write_nvme_namespace t align_down state buffer size count offset w ≡ fault
    write_nvme_namespace_fault w aligned full = loop-eq w ∙ first_round w aligned full
