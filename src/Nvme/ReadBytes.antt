-- ===== src/Nvme/ReadBytes.antt =====
-- src/c/sysdev/nvme/namespace.c: what is read from a namespace.
use kdrivers.Base.{
  ℕ, zero, suc, ◌+◌, ◌*◌, ◌/◌, ◌^◌, ◌≤◌, ◌<◌, ◌≡◌, inl, refl, ap, ap₂, ◌∙◌, Option, none, some,
  false, List, ==_false, lt→ltb, le→leb, le→ltb_false, length, get_or, u32, u64, done, arith,
}
use kdrivers.Base.Filled.{IsFilled, IsFilled-refl, IsFilled-trans, IsFilled-blit}
use kdrivers.Base.Slices.{slice, blit, length-slice, length-blit}
use kdrivers.Nvme.{page_size}
use kdrivers.Nvme.Transport.{Transport, IsNvm}
use kdrivers.Nvme.Namespace.{
  State, namespace_rw_page, page_offset, round_size, round_lba, copy_from_page, read_loop,
  read_nvme_namespace,
}
use kdrivers.Nvme.ReadPages.{
  AtBlock, in_range, lba_small, within, step, lba_positive, lba_le, whole_at, page_offset-eq,
  round_size-eq, round_lba-eq, step-AtBlock, rw_page-read,
}
use native.Mathlib.Decide.{dec_lt}
use native.Mathlib.Nat.{mod-lt}

module _ (t : Transport) (align_down : ℕ → ℕ → ℕ) (state : State)
    (d : IsNvm t state.lba_size (u32 state.namespace) state.qpair_base)
    (aligns : (x : ℕ) → align_down x state.lba_size ≡ x / state.lba_size * state.lba_size) (m : ℕ)
    (whole_blocks : m * state.lba_size ≡ page_size) (page_blocks : state.block_size ≡ page_size)
    (offset total : ℕ) (lbas_small : offset + total ≤ 2 ^ 31 * state.lba_size) (bytes : List ℕ)
    (inside : offset + total + page_size ≤ length bytes) where
  abbrev byte_at : ℕ → ℕ
  byte_at i = get_or bytes (offset + i) 0

  abbrev pub Reads : ℕ → ℕ → Option ℕ → List ℕ → t.World → Type 0
  Reads fuel moved page buffer w =
      (buffer' : List ℕ) × (w' : t.World) × (read_loop t align_down state offset total fuel moved
          page buffer w
        ≡ done ((total, buffer'), w'))
      × IsFilled byte_at moved total buffer buffer'
      × (d.disk w' ≡ bytes)

  copy-eq :
      (buffer : List ℕ) (at page from n place : ℕ) (w : t.World)
      → at + n ≤ length buffer
      → from + n ≤ page_size
      → t.load (page + from) n w ≡ slice bytes place n
      → copy_from_page t align_down state buffer at page from n w
        ≡ done (blit buffer at (slice bytes place n))
  unfolding copy_from_page
  copy-eq buffer at page from n place w h k e =
      rw (le→leb (at + n) (length buffer) h, page_blocks, le→leb (from + n) page_size k, e) refl

  -- One round that reads a page.
  read_round :
      (fuel moved : ℕ) (page : Option ℕ) (buffer : List ℕ) (w : t.World)
      → moved < total
      → AtBlock t align_down state d aligns m whole_blocks page_blocks offset total lbas_small moved
      → (p : ℕ) (w' : t.World)
      → namespace_rw_page t align_down state false ((offset + moved) / state.lba_size) page w
        ≡ done ((0, p), w')
      → let place =
          (offset + moved) / state.lba_size * state.lba_size
          + within t align_down state d aligns m whole_blocks page_blocks offset total lbas_small
              moved in
        let n =
          step t align_down state d aligns m whole_blocks page_blocks offset total lbas_small
            moved in
        t.load
            (p
              + within t align_down state d aligns m whole_blocks page_blocks offset total
                  lbas_small moved)
            n
            w'
          ≡ slice bytes place n
        → total ≤ length buffer
        → read_loop t align_down state offset total (suc fuel) moved page buffer w
          ≡ read_loop t align_down state offset total fuel
              (moved + n)
              (some p)
              (blit buffer moved (slice bytes place n))
              w'
  unfolding read_loop
  read_round fuel moved page buffer w more at p w' read loaded fits =
      let from =
        within t align_down state d aligns m whole_blocks page_blocks offset total lbas_small
          moved in
      let n =
        step t align_down state d aligns m whole_blocks page_blocks offset total lbas_small moved in
      let in_block : from < state.lba_size =
        mod-lt (offset + moved)
          (omega (arith, lba_positive t align_down state d aligns m whole_blocks page_blocks)) in
      let small_block = lba_le t align_down state d aligns m whole_blocks page_blocks in
      let range =
        in_range t align_down state d aligns m whole_blocks page_blocks offset total lbas_small in
      let round : namespace_rw_page t align_down state false
            (round_lba t align_down state offset moved) page w
          ≡ done ((0, p), w') =
        ap (λ (l : ℕ). namespace_rw_page t align_down state false l page w)
          (round_lba-eq t align_down state d aligns m whole_blocks page_blocks offset total
            lbas_small moved more)
        ∙ read in
      let size_eq =
        round_size-eq t align_down state d aligns m whole_blocks page_blocks offset total lbas_small
          moved more at in
      let copied : copy_from_page t align_down state buffer moved p
            (page_offset t align_down state offset moved)
            (round_size t align_down state offset total moved) w'
          ≡ done (
              blit buffer moved
                (slice bytes ((offset + moved) / state.lba_size * state.lba_size + from) n)) =
        ap₂ (λ (f : ℕ) (k : ℕ). copy_from_page t align_down state buffer moved p f k w')
          (page_offset-eq t align_down state d aligns m whole_blocks page_blocks offset total
            lbas_small moved more)
          size_eq
        ∙ copy-eq buffer moved p from n _ w' (omega arith) (omega arith) loaded in
      let next : u64 (moved + round_size t align_down state offset total moved) ≡ moved + n =
        omega (arith, size_eq) in
      rw
        (
          round,
          lt→ltb moved total more,
          copied,
          next,
          ==_false state.lba_size 0
              (lba_positive t align_down state d aligns m whole_blocks page_blocks),
        )
        refl

  reads :
      (fuel moved : ℕ) (page : Option ℕ) (buffer : List ℕ) (w : t.World)
      → moved ≤ total
      → total < moved + fuel
      → (moved < total
          → AtBlock t align_down state d aligns m whole_blocks page_blocks offset total lbas_small
              moved)
      → d.disk w ≡ bytes
      → total ≤ length buffer
      → Reads fuel moved page buffer w
  unfolding read_loop
  reads zero moved page buffer w h enough at same fits = absurd (omega arith)
  reads (suc fuel) moved page buffer w h enough at same fits = elim (dec_lt moved total) [
    | yes more ↦
        let x = offset + moved in
        let lba = x / state.lba_size in
        let from =
          within t align_down state d aligns m whole_blocks page_blocks offset total lbas_small
            moved in
        let n =
          step t align_down state d aligns m whole_blocks page_blocks offset total lbas_small
            moved in
        let below =
          lba_small t align_down state d aligns m whole_blocks page_blocks x (omega arith) in
        let range =
          in_range t align_down state d aligns m whole_blocks page_blocks offset total lbas_small in
        let whole =
          whole_at t align_down state d aligns m whole_blocks page_blocks offset total lbas_small
            moved in
        let in_block : from < state.lba_size =
          mod-lt x
            (omega (arith, lba_positive t align_down state d aligns m whole_blocks page_blocks)) in
        let small_block = lba_le t align_down state d aligns m whole_blocks page_blocks in
        let place = lba * state.lba_size + from in
        let got =
          rw_page-read t align_down state d aligns m whole_blocks page_blocks lba below page w
            (rw same (omega arith)) in
        let loaded : t.load (got.0 + from) n got.1 ≡ slice bytes place n =
          got.4 from n (omega arith) ∙ ap (λ (l : List ℕ). slice l place n) same in
        let copied = blit buffer moved (slice bytes place n) in
        let copied_length : length (slice bytes place n) ≡ n =
          length-slice bytes place n (omega arith) in
        let rest =
          reads fuel (moved + n) (some got.0) copied got.1 (omega arith) (omega arith)
            (λ again.
              step-AtBlock t align_down state d aligns m whole_blocks page_blocks offset total
                lbas_small moved more again)
            (got.3 ∙ same)
            (rw (length-blit buffer moved (slice bytes place n) (omega (arith, copied_length)))
              fits) in
        (
          rest.0,
          rest.1,
          read_round fuel moved page buffer w more (at more) got.0 got.1 got.2 loaded fits ∙ rest.2,
          IsFilled-trans {y = copied} {z = rest.0} (omega arith) (omega arith)
              (IsFilled-blit byte_at buffer moved bytes place n (moved + n) refl (omega arith)
                (omega arith) (λ k hk. ap (λ (p : ℕ). get_or bytes p 0) (omega arith)))
              rest.3,
          rest.4,
        )
    | no over ↦
        let all : moved ≡ total = omega arith in
        (
          buffer,
          t.pmm_free page w,
          rw (le→ltb_false moved total (omega arith), all) refl,
          IsFilled-refl byte_at moved total buffer (omega arith),
          d.free_disk page w ∙ same,
        )
  ]

  loop-eq :
      (buffer : List ℕ) (size count : ℕ) (w : t.World)
      → size * count ≡ total
      → read_nvme_namespace t align_down state buffer size count offset w
        ≡ read_loop t align_down state offset total (total + 1) 0 none buffer w
  unfolding read_nvme_namespace
  loop-eq buffer size count w e =
      let range =
        in_range t align_down state d aligns m whole_blocks page_blocks offset total lbas_small in
      let n : u64 (size * count) ≡ total = rw e (omega arith) in
      ap (λ (k : ℕ). read_loop t align_down state offset k (k + 1) 0 none buffer w) n

  -- A read of `total` bytes is given the bytes of the namespace from the file's offset on, in the
  -- first bytes of the buffer, which is else left as it was; it ends, gives the count of all bytes,
  -- and leaves the namespace as it was. The read ends at block 2 ^ 31 at most, since the code keeps
  -- the number of a block in an `int`; the namespace has a whole page more behind the last byte
  -- that is read, since each command is for a page; the buffer has room for all bytes; and a page is
  -- the namespace's block of the file system and a whole number of its logical blocks.
  -- There is memory for a page, the processor's pair of queues is one of the array, and the device
  -- carries each command out.
  pub read_nvme_namespace-IsFilled :
      (buffer : List ℕ) (size count : ℕ) (w : t.World)
      → size * count ≡ total
      → d.disk w ≡ bytes
      → total ≤ length buffer
      → (buffer' : List ℕ) × (w' : t.World) × (read_nvme_namespace t align_down state buffer size
            count offset w
          ≡ done ((total, buffer'), w'))
        × IsFilled byte_at 0 total buffer buffer'
        × (d.disk w' ≡ bytes)
  read_nvme_namespace-IsFilled buffer size count w e same fits =
      let r =
        reads (total + 1) 0 none buffer w (omega arith) (omega arith) (λ h. inl refl) same fits in
      (r.0, r.1, loop-eq buffer size count w e ∙ r.2, r.3, r.4)
