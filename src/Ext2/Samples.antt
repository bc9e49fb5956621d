-- ===== src/Ext2/Samples.antt =====
-- src/c/sysfs/ext2/: the data that the tests share.
use kdrivers.Base.{
  ℕ, zero, suc, ◌<◌, ◌≡◌, ap, ◌∙◌, Bool, true, ◌&&◌, List, [], ◌∷◌, ◌++◌, replicate, arith,
}
use kdrivers.Ext2.{SuperBlock}
use native.Mathlib.Decide.{ℕ_discrete}

-- A test of all numbers below a bound, by evaluation.
abbrev pub all_below : ℕ → (ℕ → Bool) → Bool
all_below zero p = true
all_below (suc n) p = p n && all_below n p

both : (a b : Bool) → (a && b) ≡ true → (a ≡ true) × (b ≡ true)
both a b h = ground arith

pub below : (n : ℕ) (p : ℕ → Bool) → all_below n p ≡ true → (i : ℕ) → i < n → p i ≡ true
below zero p h i k = absurd (omega arith)
below (suc n) p h i k = elim (ℕ_discrete i n) [
  | yes e ↦ ap p e ∙ (both (p n) (all_below n p) h).0
  | no ne ↦ below n p (both (p n) (all_below n p) h).1 i (omega arith)
]

abbrev pub words : ℕ → List ℕ
words zero = []
words (suc n) = 1 ∷ 0 ∷ 0 ∷ 0 ∷ words n

-- An inode whose first twelve blocks are block 1, and whose table is block 2.
abbrev pub node : List ℕ
node = replicate 40 0 ++ words 12 ++ (2 ∷ 0 ∷ 0 ∷ 0 ∷ []) ++ replicate 36 0

abbrev pub no_super : SuperBlock
no_super = record {
  total_inodes = 0;
  total_blocks = 0;
  total_resv_blocks = 0;
  total_unallocated_blocks = 0;
  total_unallocated_inodes = 0;
  superblock = 0;
  log2_block_size = 0;
  log2_frag_size = 0;
  blocks_per_group = 0;
  frags_per_group = 0;
  inodes_per_group = 0;
  last_mount = 0;
  last_written = 0;
  mount_count = 0;
  mounts_per_check = 0;
  sig = 0;
  state = 0;
  err_handle = 0;
  ver_min = 0;
  last_check = 0;
  interval_forced_check = 0;
  os_id = 0;
  ver_maj = 0;
  uid_superuser = 0;
  gid_superuser = 0;
  first_non_resv_inode = 0;
  inode_size = 0;
  superblock_group = 0;
  opt_features = 0;
  required_features = 0;
  write_features = 0;
  fs_id = [];
  vol_name = [];
  last_path = [];
  compression_algo = 0;
  file_pre_alloc_blocks = 0;
  dir_pre_alloc_blocks = 0;
  resv0 = 0;
  journal_id = [];
  journal_inode = 0;
  journal_dev = 0;
  orphan_inode_list_head = 0;
}
