-- ===== src/Nvme/WritePages.antt =====
-- src/c/sysdev/nvme/namespace.c: one round of writing a namespace.
use kdrivers.Base.{
  ℕ, suc, ◌+◌, ◌*◌, ◌/◌, ◌^◌, ◌≤◌, ◌<◌, ◌≡◌, ◌⊎◌, inl, inr, refl, ap, ap₂, ◌∙◌, Option, some, true,
  false, List, ==_false, lt→ltb, le→leb, le→ltb_false, length, u32, u64, done, arith,
}
use kdrivers.Base.Slices.{slice, blit, length-slice, blit_whole}
use kdrivers.Base.Patch.{blit-blit_slice}
use kdrivers.Nvme.{page_size}
use kdrivers.Nvme.Transport.{Transport, IsNvm, IsNvmWrite}
use kdrivers.Nvme.Namespace.{
  State, page_command, get_page, namespace_rw_page, prepare_page, page_offset, round_size,
  round_lba, copy_to_page, write_loop,
}
use kdrivers.Nvme.ReadPages.{
  AtBlock, in_range, lba_small, queue_there, within, step, lba_positive, lba_le, whole_at,
  page_offset-eq, round_size-eq, round_lba-eq, rw_page-read, command_lba, command_length,
}
use native.Mathlib.Decide.{dec_lt}
use native.Mathlib.Nat.{mod-lt}

module _ (t : Transport) (align_down : ℕ → ℕ → ℕ) (state : State)
    (d : IsNvm t state.lba_size (u32 state.namespace) state.qpair_base)
    (wr : IsNvmWrite t state.lba_size (u32 state.namespace) state.qpair_base d)
    (aligns : (x : ℕ) → align_down x state.lba_size ≡ x / state.lba_size * state.lba_size) (m : ℕ)
    (whole_blocks : m * state.lba_size ≡ page_size)
    (page_blocks : state.block_size ≡ page_size) where
  -- A page is written to the blocks from `lba` on.
  rw_page-write :
      (lba p : ℕ) (w : t.World)
      → lba < 2 ^ 31
      → lba * state.lba_size + page_size ≤ length (d.disk w)
      → (w' : t.World) × (namespace_rw_page t align_down state true lba (some p) w
          ≡ done ((0, p), w'))
        × (d.disk w' ≡ blit (d.disk w) (lba * state.lba_size) (t.load p page_size w))
  unfolding namespace_rw_page page_command get_page
  rw_page-write lba p w small inside =
      let got = t.pmm_fast_page_alloc w in
      let same = d.fast_alloc_disk w in
      let cmd = page_command t align_down state true lba (some p) got.0 in
      let r =
        wr.write_done (some (t.smp_get_processor_id got.1 + state.qpair_base)) cmd p lba page_size
          got.1 refl refl refl
          (command_lba t align_down state d aligns m whole_blocks page_blocks lba small)
          (command_length t align_down state d aligns m whole_blocks page_blocks lba small)
          (rw same inside) in
      (
        t.pmm_fast_page_free got.0 r.1,
        rw
            (
              ==_false state.lba_size 0
                  (lba_positive t align_down state d aligns m whole_blocks page_blocks),
              queue_there t align_down state d aligns m whole_blocks page_blocks got.1,
              r.2,
              r.3,
            )
            refl,
        d.fast_free_disk got.0 r.1
            ∙ r.4
            ∙ ap₂ (λ (x : List ℕ) (y : List ℕ). blit x (lba * state.lba_size) y) same
                (wr.fast_alloc_load p page_size w),
      )

  module _ (offset total : ℕ) (lbas_small : offset + total ≤ 2 ^ 31 * state.lba_size) (moved : ℕ)
      (more : moved < total)
      (at : AtBlock t align_down state d aligns m whole_blocks page_blocks offset total lbas_small
        moved) where
    abbrev lba : ℕ
    lba = (offset + moved) / state.lba_size

    abbrev from : ℕ
    from =
        within t align_down state d aligns m whole_blocks page_blocks offset total lbas_small moved

    abbrev n : ℕ
    n = step t align_down state d aligns m whole_blocks page_blocks offset total lbas_small moved

    -- There is a page already, or the round needs one.
    abbrev pub HasPage : Option ℕ → Type 0
    HasPage page = (n < page_size) ⊎ ((p : ℕ) × (page ≡ some p))

    -- What the page holds is what the blocks hold, or the round overwrites all of it.
    abbrev IsReady : ℕ → t.World → List ℕ → Type 0
    IsReady p w bytes =
        (t.load p page_size w ≡ slice bytes (lba * state.lba_size) page_size)
        ⊎ ((n ≡ page_size) × (from ≡ 0))

    in_block : from + n ≤ page_size
    in_block =
        let small : from < state.lba_size =
          mod-lt (offset + moved)
            (omega (arith, lba_positive t align_down state d aligns m whole_blocks page_blocks)) in
        omega (arith, lba_le t align_down state d aligns m whole_blocks page_blocks)

    lba_fits : lba < 2 ^ 31
    lba_fits =
        lba_small t align_down state d aligns m whole_blocks page_blocks (offset + moved)
          (omega arith)

    place_eq : lba * state.lba_size + from ≡ offset + moved
    place_eq =
        whole_at t align_down state d aligns m whole_blocks page_blocks offset total lbas_small
          moved

    read_lba :
        (page : Option ℕ) (w : t.World) (p : ℕ) (w' : t.World)
        → namespace_rw_page t align_down state false lba page w ≡ done ((0, p), w')
        → n < page_size
        → prepare_page t align_down state offset total moved n page w ≡ done ((0, some p), w')
    unfolding prepare_page
    read_lba page w p w' read less =
        let read' : namespace_rw_page t align_down state false
              (round_lba t align_down state offset moved) page w
            ≡ done ((0, p), w') =
          ap (λ (l : ℕ). namespace_rw_page t align_down state false l page w)
            (round_lba-eq t align_down state d aligns m whole_blocks page_blocks offset total
              lbas_small moved more)
          ∙ read in
        rw (read', lt→ltb n page_size less) refl

    no_read :
        (p : ℕ) (w : t.World)
        → page_size ≤ n
        → prepare_page t align_down state offset total moved n (some p) w ≡ done ((0, some p), w)
    unfolding prepare_page
    no_read p w full = rw (le→ltb_false n page_size full) refl

    prepare-IsReady :
        (page : Option ℕ) (w : t.World)
        → HasPage page
        → lba * state.lba_size + page_size ≤ length (d.disk w)
        → (p : ℕ) × (w' : t.World) × (prepare_page t align_down state offset total moved n page w
            ≡ done ((0, some p), w'))
          × (d.disk w' ≡ d.disk w)
          × IsReady p w' (d.disk w)
    prepare-IsReady page w has inside = elim (dec_lt n page_size) [
      | yes less ↦
          let r =
            rw_page-read t align_down state d aligns m whole_blocks page_blocks lba lba_fits page w
              inside in
          let place = lba * state.lba_size in
          let held : t.load r.0 page_size r.1 ≡ slice (d.disk w) place page_size =
            ap (λ (a : ℕ). t.load a page_size r.1) (let e : r.0 ≡ r.0 + 0 = omega arith in e)
            ∙ r.4 0 page_size (omega arith)
            ∙ ap (λ (a : ℕ). slice (d.disk w) a page_size)
                (let e : place + 0 ≡ place = omega arith in e) in
          (r.0, r.1, read_lba page w r.0 r.1 r.2 less, r.3, inl held)
      | no full ↦ elim has [
        | inl less ↦ absurd (full less)
        | inr held ↦ (
          held.0,
          w,
          ap (λ (q : Option ℕ). prepare_page t align_down state offset total moved n q w) held.1
              ∙ no_read held.0 w (omega arith),
          refl,
          inr (let b = in_block in (omega arith, omega arith)),
        )
      ]
    ]

    patched :
        (p : ℕ) (w : t.World) (bytes content : List ℕ)
        → IsReady p w bytes
        → lba * state.lba_size + page_size ≤ length bytes
        → length content ≡ n
        → blit bytes (lba * state.lba_size) (blit (t.load p page_size w) from content)
          ≡ blit bytes (offset + moved) content
    patched p w bytes content ready inside len = elim ready [
      | inl held ↦
          ap (λ (l : List ℕ). blit bytes (lba * state.lba_size) (blit l from content)) held
          ∙ blit-blit_slice bytes (lba * state.lba_size) page_size from content inside
              (let b = in_block in omega arith)
          ∙ ap (λ (a : ℕ). blit bytes a content) place_eq
      | inr full ↦
          ap (λ (f : ℕ). blit bytes (lba * state.lba_size) (blit (t.load p page_size w) f content))
            full.1
          ∙ ap (λ (l : List ℕ). blit bytes (lba * state.lba_size) l)
              (blit_whole (t.load p page_size w) content
                (omega (arith, wr.load_length p page_size w, full.0)))
          ∙ ap (λ (a : ℕ). blit bytes a content) (omega (arith, place_eq, full.1))
    ]

    copy-eq :
        (p : ℕ) (buffer : List ℕ) (w : t.World)
        → total ≤ length buffer
        → copy_to_page t align_down state (some p) from buffer moved n w
          ≡ done (p, t.store (p + from) (slice buffer moved n) w)
    unfolding copy_to_page
    copy-eq p buffer w fits =
        let b = in_block in
        rw
          (
            le→leb (moved + n) (length buffer) (omega arith),
            page_blocks,
            le→leb (from + n) page_size b,
          )
          refl

    write_round-eq :
        (fuel : ℕ) (page : Option ℕ) (buffer : List ℕ) (w : t.World) (p : ℕ) (w1 w2 : t.World)
        → prepare_page t align_down state offset total moved n page w ≡ done ((0, some p), w1)
        → namespace_rw_page t align_down state true lba
            (some p)
            (t.store (p + from) (slice buffer moved n) w1)
          ≡ done ((0, p), w2)
        → total ≤ length buffer
        → write_loop t align_down state offset total (suc fuel) moved page buffer w
          ≡ write_loop t align_down state offset total fuel (moved + n) (some p) buffer w2
    unfolding write_loop
    write_round-eq fuel page buffer w p w1 w2 prepared written fits =
        let size_eq =
          round_size-eq t align_down state d aligns m whole_blocks page_blocks offset total
            lbas_small moved more at in
        let range =
          in_range t align_down state d aligns m whole_blocks page_blocks offset total lbas_small in
        let size = round_size t align_down state offset total moved in
        let place = page_offset t align_down state offset moved in
        let ready : prepare_page t align_down state offset total moved size page w
            ≡ done ((0, some p), w1) =
          ap (λ (k : ℕ). prepare_page t align_down state offset total moved k page w) size_eq
          ∙ prepared in
        let copied : copy_to_page t align_down state (some p) place buffer moved size w1
            ≡ done (p, t.store (p + from) (slice buffer moved n) w1) =
          ap₂ (λ (f : ℕ) (k : ℕ). copy_to_page t align_down state (some p) f buffer moved k w1)
            (page_offset-eq t align_down state d aligns m whole_blocks page_blocks offset total
              lbas_small moved more)
            size_eq
          ∙ copy-eq p buffer w1 fits in
        let put : namespace_rw_page t align_down state true
              (round_lba t align_down state offset moved) (some p)
              (t.store (p + from) (slice buffer moved n) w1)
            ≡ done ((0, p), w2) =
          ap
            (λ (l : ℕ).
              namespace_rw_page t align_down state true l (some p)
                (t.store (p + from) (slice buffer moved n) w1))
            (round_lba-eq t align_down state d aligns m whole_blocks page_blocks offset total
              lbas_small moved more)
          ∙ written in
        let next : u64 (moved + size) ≡ moved + n = omega (arith, size_eq) in
        rw
          (
            ready,
            lt→ltb moved total more,
            copied,
            put,
            next,
            ==_false state.lba_size 0
                (lba_positive t align_down state d aligns m whole_blocks page_blocks),
          )
          refl

    -- A round puts its part of the buffer on the namespace.
    pub write_round :
        (fuel : ℕ) (page : Option ℕ) (buffer : List ℕ) (w : t.World)
        → HasPage page
        → offset + total + page_size ≤ length (d.disk w)
        → total ≤ length buffer
        → (p : ℕ) × (w' : t.World) × (write_loop t align_down state offset total
              (suc fuel)
              moved
              page
              buffer
              w
            ≡ write_loop t align_down state offset total fuel (moved + n) (some p) buffer w')
          × (d.disk w' ≡ blit (d.disk w) (offset + moved) (slice buffer moved n))
    write_round fuel page buffer w has inside fits =
        let whole = place_eq in
        let ready = prepare-IsReady page w has (omega arith) in
        let content = slice buffer moved n in
        let content_length : length content ≡ n = length-slice buffer moved n (omega arith) in
        let stored = t.store (ready.0 + from) content ready.1 in
        let same = d.store_disk (ready.0 + from) content ready.1 ∙ ready.3 in
        let written = rw_page-write lba ready.0 stored lba_fits (rw same (omega arith)) in
        let block = in_block in
        (
          ready.0,
          written.0,
          write_round-eq fuel page buffer w ready.0 ready.1 written.0 ready.2 written.1 fits,
          written.2
              ∙ ap₂ (λ (x : List ℕ) (y : List ℕ). blit x (lba * state.lba_size) y) same
                  (wr.load-store ready.0 page_size from content ready.1 (omega arith))
              ∙ patched ready.0 ready.1 (d.disk w) content ready.4 (omega arith) content_length,
        )
