-- ===== src/Ext2/Groups.antt =====
-- src/c/sysfs/ext2/super.c: which block group gives the blocks, and what the bitmap of an unused
-- group does to the result's array.
use kdrivers.Base.{
  ℕ, zero, suc, ◌+◌, ◌%◌, ◌^◌, ◌≤◌, ◌<◌, ◌≡◌, ◌≢◌, ◌⊎◌, inl, inr, refl, ap, ◌∙◌, Option, none, some,
  List, get_elem?, get_elem?_inside, length, ==_false, le→leb, lt→leb_false, u64, Outcome, done,
  arith,
}
use kdrivers.Base.Masks.{Masks}
use kdrivers.Base.Vfs.{Vfs}
use kdrivers.Ext2.{GroupDesc, SuperState}
use kdrivers.Ext2.Inode.{block_group}
use kdrivers.Ext2.Allocate.{AllocateMemory, find_group, pick_from, table_of, ext2_allocate_blocks}
use native.Mathlib.Decide.{dec_lt, ℕ_discrete}
use native.Mathlib.Nat.{mod-lt}

module _ (table : List GroupDesc) (groups group count : ℕ) (whole : length table ≡ groups)
    (some_group : 0 < groups) (no_wrap : group + groups < 2 ^ 64) where
  -- The group that is looked at in round `k`.
  abbrev pub group_at : ℕ → ℕ
  group_at k = (group + k) % groups

  abbrev pub HasRoom : ℕ → Type 0
  HasRoom k =
      (desc : GroupDesc) × (get_elem? table (group_at k) ≡ some desc)
      × (count ≤ desc.unallocated_blocks)

  abbrev pub IsFull : ℕ → Type 0
  IsFull k =
      (desc : GroupDesc) × (get_elem? table (group_at k) ≡ some desc)
      × (desc.unallocated_blocks < count)

  -- What is found from round `i` on.
  abbrev pub Finds : ℕ → Outcome (Option ℕ) → Type 0
  Finds i r =
      ((k : ℕ) × (r ≡ done (some (group_at k)))
        × (i ≤ k)
        × (k < groups)
        × HasRoom k
        × ((j : ℕ) → i ≤ j → j < k → IsFull j))
      ⊎ ((r ≡ done none) × ((j : ℕ) → i ≤ j → j < groups → IsFull j))

  look : (i : ℕ) → (desc : GroupDesc) × (get_elem? table (group_at i) ≡ some desc)
  look i =
      let inside : group_at i < groups = mod-lt (group + i) some_group in
      get_elem?_inside table (group_at i) (omega arith)

  module _ (left i : ℕ) (inside : i < groups) (desc : GroupDesc)
      (at_i : get_elem? table (group_at i) ≡ some desc) where
    same_group : u64 (group + i) % groups ≡ group_at i
    same_group = let e : u64 (group + i) ≡ group + i = omega arith in ap (λ (n : ℕ). n % groups) e

    at_round : get_elem? table (u64 (group + i) % groups) ≡ some desc
    at_round = ap (get_elem? table) same_group ∙ at_i

    hit :
        count ≤ desc.unallocated_blocks
        → find_group table groups group count (suc left) i ≡ done (some (group_at i))
    unfolding find_group
    hit h =
        rw (find_group, at_round, le→leb count desc.unallocated_blocks h)
          (ap (λ (g : ℕ). done (some g)) same_group)

    miss :
        desc.unallocated_blocks < count
        → find_group table groups group count (suc left) i
          ≡ find_group table groups group count left (i + 1)
    unfolding find_group
    miss h = rw (find_group, at_round, lt→leb_false count desc.unallocated_blocks h) refl

  -- A full group more at the front.
  still-IsFull :
      (i last : ℕ)
      → IsFull i
      → ((j : ℕ) → i + 1 ≤ j → j < last → IsFull j)
      → (j : ℕ) → i ≤ j
      → j < last
      → IsFull j
  still-IsFull i last full after j p q = elim (ℕ_discrete j i) [
    | yes e ↦ rw e full
    | no ne ↦ after j (omega arith) q
  ]

  later : (i : ℕ) (r : Outcome (Option ℕ)) → IsFull i → Finds (i + 1) r → Finds i r
  later i r full (inl found) = inl (
    found.0,
    found.1,
    let h = found.2 in omega arith,
    found.3,
    found.4,
    still-IsFull i found.0 full found.5,
  )
  later i r full (inr nothing) = inr (nothing.0, still-IsFull i groups full nothing.1)

  finds : (left i : ℕ) → i + left ≡ groups → Finds i (find_group table groups group count left i)
  unfolding find_group
  finds zero i e = inr (refl, λ j p q. absurd (omega arith))
  finds (suc left) i e =
      let here = look i in
      elim (dec_lt here.0.unallocated_blocks count) [
        | yes few ↦
            rw (miss left i (omega arith) here.0 here.1 few)
              (later i _ (here.0, here.1, few) (finds left (i + 1) (omega arith)))
        | no enough ↦ inl (
          i,
          hit left i (omega arith) here.0 here.1 (omega arith),
          omega arith,
          omega arith,
          (here.0, here.1, omega arith),
          λ j p q. absurd (omega arith),
        )
      ]

module _ (masks : Masks) (v : Vfs) (align_up : ℕ → ℕ → ℕ) (state : SuperState v.File)
    (memory : AllocateMemory) (table : List GroupDesc) (inode count : ℕ)
    (has_table : state.descriptor_table ≡ some table)
    (whole : length table ≡ state.descriptor_count) (some_group : 0 < state.descriptor_count)
    (no_wrap : block_group state.super_block inode + state.descriptor_count < 2 ^ 64)
    (groups_of_inodes : state.super_block.inodes_per_group ≢ 0) (an_inode : inode ≢ 0)
    (some_blocks : count ≢ 0) where
  abbrev own_group : ℕ
  own_group = block_group state.super_block inode

  abbrev pub chosen : ℕ → ℕ
  chosen k = group_at table state.descriptor_count own_group count whole some_group no_wrap k

  abbrev pub Room : ℕ → Type 0
  Room k = HasRoom table state.descriptor_count own_group count whole some_group no_wrap k

  abbrev pub Full : ℕ → Type 0
  Full k = IsFull table state.descriptor_count own_group count whole some_group no_wrap k

  allocate-eq :
      (group : Option ℕ) (w : v.World)
      → find_group table state.descriptor_count own_group count state.descriptor_count 0
        ≡ done group
      → ext2_allocate_blocks masks v align_up state memory inode count w
        ≡ pick_from masks v align_up state table memory count group w
  unfolding ext2_allocate_blocks table_of
  allocate-eq group w e =
      rw
        (
          has_table,
          ==_false inode 0 an_inode,
          ==_false count 0 some_blocks,
          ==_false state.super_block.inodes_per_group 0 groups_of_inodes,
          e,
        )
        refl

  pick_nothing :
      (w : v.World) → pick_from masks v align_up state table memory count none w ≡ done (none, w)
  unfolding pick_from
  pick_nothing w = refl

  -- The groups are looked at once each, in a circle that begins with the inode's own. The blocks
  -- come from the first that has as many unallocated blocks as are asked for; where there is none,
  -- no blocks are given, and nothing changes.
  pub ext2_allocate_blocks-first_group :
      (w : v.World)
      → ((k : ℕ) × (k < state.descriptor_count)
          × Room k
          × ((j : ℕ) → j < k → Full j)
          × (ext2_allocate_blocks masks v align_up state memory inode count w
              ≡ pick_from masks v align_up state table memory count (some (chosen k)) w))
        ⊎ (((j : ℕ) → j < state.descriptor_count → Full j)
            × (ext2_allocate_blocks masks v align_up state memory inode count w ≡ done (none, w)))
  ext2_allocate_blocks-first_group w =
      elim (finds table state.descriptor_count own_group count whole some_group no_wrap
        state.descriptor_count 0 (omega arith)) [
          | inl found ↦ inl (
            found.0,
            found.3,
            found.4,
            λ j h. found.5 j (omega arith) h,
            allocate-eq (some (chosen found.0)) w found.1,
          )
          | inr nothing ↦
              inr
                (λ j h. nothing.1 j (omega arith) h, allocate-eq none w nothing.0 ∙ pick_nothing w)
        ]
