-- ===== src/Nvme/ReadPages.antt =====
-- src/c/sysdev/nvme/namespace.c: reading a namespace page by page gives its bytes.
use kdrivers.Base.{
  ℕ, ◌+◌, ◌-◌, ◌*◌, ◌/◌, ◌%◌, ◌^◌, ◌≤◌, ◌<◌, ◌≡◌, ◌≢◌, ◌⊎◌, ◌↔◌, leb, lt→leb_false, inl, inr, refl,
  ap, sym, ◌∙◌, min, Option, none, some, false, List, ==_false, length, replicate, u32, u64, sub64,
  Outcome, done, arith,
}
use kdrivers.Base.Slices.{slice}
use kdrivers.Nvme.{page_size}
use kdrivers.Nvme.Transport.{Transport, IsNvm}
use kdrivers.Nvme.Namespace.{
  State, page_command, get_page, namespace_rw_page, round_offset, page_offset, round_size,
  round_lba,
}
use native.Mathlib.Nat.{
  mod-lt, div-add-mod, mul_comm, mul-div_cancel, mul-mod_left, div-le_self, mul-le-mul_right,
  add-mul, div-lt_iff_lt-mul,
}

module _ (t : Transport) (align_down : ℕ → ℕ → ℕ) (state : State)
    (d : IsNvm t state.lba_size (u32 state.namespace) state.qpair_base)
    (aligns : (x : ℕ) → align_down x state.lba_size ≡ x / state.lba_size * state.lba_size) (m : ℕ)
    (whole_blocks : m * state.lba_size ≡ page_size)
    (page_blocks : state.block_size ≡ page_size) where
  pub lba_positive : state.lba_size ≢ 0
  lba_positive e = omega (arith, ap (λ (k : ℕ). m * k) e)

  blocks_per_page : page_size / state.lba_size ≡ m
  blocks_per_page = rw (sym whole_blocks) (mul-div_cancel m (omega (arith, lba_positive)))

  one_block : 1 ≤ m
  one_block =
      let none : m ≢ 0 = λ e. omega (arith, ap (λ (k : ℕ). k * state.lba_size) e) in omega arith

  pub lba_le : state.lba_size ≤ page_size
  lba_le = omega (arith, mul-le-mul_right state.lba_size one_block)

  -- The processor's queue is one of the array.
  pub queue_there :
      (w : t.World) → leb (t.qpair_count w) (t.smp_get_processor_id w + state.qpair_base) ≡ false
  queue_there w =
      lt→leb_false (t.qpair_count w) (t.smp_get_processor_id w + state.qpair_base) (d.own_queue w)

  -- What a round gives: the status 0, a page, and in it the bytes from block `lba` on.
  abbrev pub PageRead : ℕ → t.World → Outcome ((ℕ × ℕ) × t.World) → Type 0
  PageRead lba w r =
      (p : ℕ) × (w' : t.World) × (r ≡ done ((0, p), w'))
      × (d.disk w' ≡ d.disk w)
      × ((from k : ℕ)
          → from + k ≤ page_size
          → t.load (p + from) k w' ≡ slice (d.disk w) (lba * state.lba_size + from) k)

  -- The number of a block whose start is in range fits an `int`.
  pub lba_small : (x : ℕ) → x < 2 ^ 31 * state.lba_size → x / state.lba_size < 2 ^ 31
  lba_small x h =
      let both : (x / state.lba_size < 2 ^ 31) ↔ (x < 2 ^ 31 * state.lba_size) =
        div-lt_iff_lt-mul (omega (arith, lba_positive)) in
      both.1 h

  module _ (lba : ℕ) (small : lba < 2 ^ 31) where
    pub command_lba : u32 lba + u32 (lba / 2 ^ 32) * 2 ^ 32 ≡ lba
    command_lba = omega arith

    pub command_length :
        (u32 (sub64 (page_size / state.lba_size) 1) + 1) * state.lba_size ≡ page_size
    command_length =
        let le = div-le_self page_size state.lba_size in
        let one : m ≢ 0 = λ e. omega (arith, ap (λ (k : ℕ). k * state.lba_size) e) in
        let e : u32 (sub64 (page_size / state.lba_size) 1) + 1 ≡ m =
          omega (arith, blocks_per_page) in
        rw e whole_blocks

    rw_page-read_given :
        (p : ℕ) (w : t.World)
        → lba * state.lba_size + page_size ≤ length (d.disk w)
        → PageRead lba w (namespace_rw_page t align_down state false lba (some p) w)
    unfolding namespace_rw_page page_command get_page
    rw_page-read_given p w inside =
        let got = t.pmm_fast_page_alloc w in
        let same = d.fast_alloc_disk w in
        let cmd = page_command t align_down state false lba (some p) got.0 in
        let has_queue = queue_there got.1 in
        let r =
          d.read_done (some (t.smp_get_processor_id got.1 + state.qpair_base)) cmd p lba page_size
            got.1 refl refl refl command_lba command_length (rw same inside) in
        (
          p,
          t.pmm_fast_page_free got.0 r.1,
          rw (==_false state.lba_size 0 lba_positive, has_queue, r.2, r.3) refl,
          d.fast_free_disk got.0 r.1 ∙ r.4 ∙ same,
          λ from k h.
              d.fast_free_load got.0 (p + from) k r.1
              ∙ r.5 from k h
              ∙ ap (λ (l : List ℕ). slice l (lba * state.lba_size + from) k) same,
        )

    fresh_page :
        (w : t.World) (p : ℕ)
        → (t.pmm_alloc state.block_size w).0 ≡ some p
        → get_page t align_down state none w
          ≡ done (p, t.store p (replicate page_size 0) (t.pmm_alloc state.block_size w).1)
    unfolding get_page
    fresh_page w p e = rw (get_page, e) refl

    fresh_page-read :
        (w : t.World) (p : ℕ)
        → (t.pmm_alloc state.block_size w).0 ≡ some p
        → namespace_rw_page t align_down state false lba none w
          ≡ namespace_rw_page t align_down state false lba
              (some p)
              (t.store p (replicate page_size 0) (t.pmm_alloc state.block_size w).1)
    unfolding namespace_rw_page
    fresh_page-read w p e = rw (fresh_page w p e, get_page) refl

    -- Reading to a page that is allocated first is reading to the cleared page.
    pub rw_page-read :
        (page : Option ℕ) (w : t.World)
        → lba * state.lba_size + page_size ≤ length (d.disk w)
        → PageRead lba w (namespace_rw_page t align_down state false lba page w)
    rw_page-read (some p) w inside = rw_page-read_given p w inside
    rw_page-read none w inside =
        let new = d.page_alloc state.block_size w in
        let cleared = t.store new.0 (replicate page_size 0) (t.pmm_alloc state.block_size w).1 in
        let same : d.disk cleared ≡ d.disk w =
          d.store_disk new.0 (replicate page_size 0) (t.pmm_alloc state.block_size w).1
          ∙ d.alloc_disk state.block_size w in
        let r = rw_page-read_given new.0 cleared (rw same inside) in
        (
          r.0,
          r.1,
          fresh_page-read w new.0 new.1 ∙ r.2,
          r.3 ∙ same,
          λ from k h.
              r.4 from k h ∙ ap (λ (l : List ℕ). slice l (lba * state.lba_size + from) k) same,
        )

  module _ (offset total : ℕ) (lbas_small : offset + total ≤ 2 ^ 31 * state.lba_size) where
    pub in_range : offset + total < 2 ^ 63
    in_range = omega (arith, lba_le)

    -- A round starts where the last one ended: at the offset, or at the start of a block.
    abbrev pub AtBlock : ℕ → Type 0
    AtBlock moved = (moved ≡ 0) ⊎ ((offset + moved) % state.lba_size ≡ 0)

    abbrev pub within : ℕ → ℕ
    within moved = (offset + moved) % state.lba_size

    abbrev pub step : ℕ → ℕ
    step moved = min (page_size - within moved) (total - moved)

    pub offset-eq :
        (moved : ℕ)
        → moved < total
        → round_offset t align_down state offset moved
          ≡ (offset + moved) / state.lba_size * state.lba_size
    unfolding round_offset
    offset-eq moved h =
        let small : u64 (offset + moved) ≡ offset + moved = omega (arith, in_range) in
        rw small (aligns (offset + moved))

    pub page_offset-eq :
        (moved : ℕ) → moved < total → page_offset t align_down state offset moved ≡ within moved
    unfolding page_offset
    page_offset-eq moved h = omega (
      arith,
      in_range,
      offset-eq moved h,
      div-add-mod (offset + moved) state.lba_size,
      mul_comm state.lba_size ((offset + moved) / state.lba_size),
    )

    pub whole_at :
        (moved : ℕ)
        → (offset + moved) / state.lba_size * state.lba_size + within moved ≡ offset + moved
    whole_at moved = omega (
      arith,
      div-add-mod (offset + moved) state.lba_size,
      mul_comm state.lba_size ((offset + moved) / state.lba_size),
    )

    pub round_size-eq :
        (moved : ℕ)
        → moved < total
        → AtBlock moved
        → round_size t align_down state offset total moved ≡ step moved
    unfolding round_size
    round_size-eq moved h at =
        let x = offset + moved in
        let small : within moved < state.lba_size = mod-lt x (omega (arith, lba_positive)) in
        let e = page_offset-eq moved h in
        rw (e, page_blocks)
          (elim at [
            | inl start ↦
                ground (arith, in_range, start, small, lba_le, offset-eq moved h, whole_at moved)
            | inr on_block ↦ rw on_block (omega (arith, in_range))
          ])

    pub round_lba-eq :
        (moved : ℕ)
        → moved < total
        → round_lba t align_down state offset moved ≡ (offset + moved) / state.lba_size
    unfolding round_lba
    round_lba-eq moved h =
        let x = offset + moved in
        let whole : x / state.lba_size * state.lba_size / state.lba_size ≡ x / state.lba_size =
          mul-div_cancel (x / state.lba_size) (omega (arith, lba_positive)) in
        let le = lba_small x (omega arith) in
        let e : round_offset t align_down state offset moved / state.lba_size ≡ x / state.lba_size =
          ap (λ (k : ℕ). k / state.lba_size) (offset-eq moved h) ∙ whole in
        ground (arith, e)

    pub step-AtBlock :
        (moved : ℕ) → moved < total → moved + step moved < total → AtBlock (moved + step moved)
    step-AtBlock moved h more =
        let x = offset + moved in
        let small : within moved < state.lba_size = mod-lt x (omega (arith, lba_positive)) in
        let q = x / state.lba_size in
        let full : offset + (moved + step moved) ≡ q * state.lba_size + m * state.lba_size =
          omega (arith, whole_at moved, lba_le) in
        inr (
          ap (λ (k : ℕ). k % state.lba_size) (full ∙ sym (add-mul q m state.lba_size))
          ∙ mul-mod_left (q + m) state.lba_size)
