-- ===== src/Ext2/Start.antt =====
-- src/c/sysfs/ext2/super.c: which file systems are mounted, and which for writing.
use kdrivers.Base.{ℕ, ◌/◌, ◌%◌, ◌^◌, ◌≡◌, ◌≢◌, ◌⊎◌, ◌↔◌, Option, none, some, arith}
use kdrivers.Base.Masks.{Masks}
use kdrivers.Ext2.{SuperBlock, SuperState}
use kdrivers.Ext2.Check.{errors_attributes, without_feature, check_attributes, ext2_check_super}

-- Bit `k` of a word.
abbrev pub bit : ℕ → ℕ → ℕ
bit word k = word / 2 ^ k % 2

-- A file system without errors, or whose errors are not to fail the mount, and with none of the
-- required features that the driver lacks: compression, journal replay, a journal.
unfoldable pub Supported : SuperBlock → Type 0
Supported super =
    ((super.state ≡ 1) ⊎ (super.err_handle ≢ 3))
    × (bit super.required_features 0 ≡ 0)
    × (bit super.required_features 2 ≡ 0)
    × (bit super.required_features 3 ≡ 0)

-- A file system without errors, or whose errors do not ask for a read-only mount, and without
-- sparse super blocks and directories with trees.
unfoldable pub Writable : SuperBlock → Type 0
Writable super =
    ((super.state ≡ 1) ⊎ (super.err_handle ≢ 2))
    × (bit super.write_features 0 ≡ 0)
    × (bit super.write_features 2 ≡ 0)

module _ (masks : Masks) (super : SuperBlock) (a : ℕ) where
  pub code-Supported : (check_attributes masks super a).0 ≡ 0 → Supported super
  unfolding check_attributes Supported errors_attributes without_feature
  code-Supported = ground (
    arith,
    masks.read_field super.required_features 0 1,
    masks.read_field super.required_features 2 1,
    masks.read_field super.required_features 3 1,
  )

  pub Supported-code : Supported super → (check_attributes masks super a).0 ≡ 0
  unfolding check_attributes Supported errors_attributes without_feature
  Supported-code = ground (
    arith,
    masks.read_field super.required_features 0 1,
    masks.read_field super.required_features 2 1,
    masks.read_field super.required_features 3 1,
  )

  write_bit : (b new : ℕ) → masks.masked_write b new 1 1 / 2 % 2 ≡ new % 2
  write_bit b new = omega (arith, masks.write_field b new 1 1)

  errors_bit :
      a / 2 % 2 ≡ 1
      → (errors_attributes masks super a / 2 % 2 ≡ 1) ↔ ((super.state ≡ 1) ⊎ (super.err_handle ≢ 2))
  unfolding errors_attributes
  errors_bit h = ground (arith, write_bit a 0, write_bit a 1)

  feature_bit :
      (k : ℕ)
      → (without_feature masks k super a / 2 % 2 ≡ 1)
        ↔ ((a / 2 % 2 ≡ 1) × (bit super.write_features k ≡ 0))
  unfolding without_feature
  feature_bit k = ground (arith, write_bit a 0, masks.read_field super.write_features k 1)

  Supported-attributes :
      Supported super
      → (check_attributes masks super a).1
        ≡ without_feature masks 2 super
            (without_feature masks 0 super (errors_attributes masks super a))
  unfolding check_attributes Supported
  Supported-attributes h = ground (
    arith,
    masks.read_field super.required_features 0 1,
    masks.read_field super.required_features 2 1,
    masks.read_field super.required_features 3 1,
  )

-- The attributes of a driver state, 0 where there is none.
abbrev pub attributes_of : {File : Type 0} → Option (SuperState File) → ℕ
attributes_of none = 0
attributes_of (some state) = state.basic.attributes

module _ (masks : Masks) (super : SuperBlock) (a : ℕ) where
  attributes-Writable :
      Supported super
      → a / 2 % 2 ≡ 1
      → ((check_attributes masks super a).1 / 2 % 2 ≡ 1) ↔ Writable super
  unfolding Writable
  attributes-Writable h writes =
      let first = errors_attributes masks super a in
      let second = without_feature masks 0 super first in
      let errors = errors_bit masks super a writes in
      let sparse = feature_bit masks super first 0 in
      let trees = feature_bit masks super second 2 in
      rw (Supported-attributes masks super a h) (
        (λ on. let (on', t) = trees.0 on in let (on'', s) = sparse.0 on' in (errors.0 on'', s, t)),
        (λ (e, s, t). trees.1 (sparse.1 (errors.1 e, s), t)),
      )

module _ (masks : Masks) {File : Type 0} (state : SuperState File) where
  -- The check of a super block gives 0 for the file systems that are supported, and for no other.
  pub ext2_check_super-Supported :
      ((ext2_check_super masks (some state)).0 ≡ 0) ↔ Supported state.super_block
  unfolding ext2_check_super
  ext2_check_super-Supported = (
    code-Supported masks state.super_block state.basic.attributes,
    Supported-code masks state.super_block state.basic.attributes,
  )

  -- Where it gives 0, a file system that was to be written stays so if its errors and its features
  -- let it, and only then.
  pub ext2_check_super-Writable :
      state.basic.attributes / 2 % 2 ≡ 1
      → (ext2_check_super masks (some state)).0 ≡ 0
      → (attributes_of (ext2_check_super masks (some state)).1 / 2 % 2 ≡ 1)
        ↔ Writable state.super_block
  unfolding ext2_check_super
  ext2_check_super-Writable writes ok =
      attributes-Writable masks state.super_block state.basic.attributes
        (code-Supported masks state.super_block state.basic.attributes ok) writes
