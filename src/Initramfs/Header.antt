-- ===== src/Initramfs/Header.antt =====
-- `struct ARC_HeaderCPIO` and the macros over it, which src/c/sysfs/initramfs/file.c and super.c
-- both declare, and `struct stat` as their `stat` functions fill it in.
use kdrivers.Base.{ℕ, ◌+◌, List, bit_and, bit_or, u32, sign_extend, ◌<<◌, Outcome, done, ◌>>=◌}
use kdrivers.Base.Memory.{load16}

abbrev pub cpio_magic : ℕ
cpio_magic = 0o070707

-- sizeof(struct ARC_HeaderCPIO): thirteen packed words of 16 bits.
abbrev pub name_offset : ℕ
name_offset = 26

abbrev pub name_size : ℕ → ℕ
name_size namesize = namesize + bit_and namesize 1

abbrev pub data_offset : ℕ → ℕ
data_offset namesize = name_offset + name_size namesize

-- `(hi << 16) | lo`, an `int` by its bit pattern.
unfoldable pub two_words : ℕ → ℕ → ℕ
two_words hi lo = bit_or (u32 (hi << 16)) lo

-- ARC_DATA_SIZE as an `int`, and where it is used, as a `size_t`.
unfoldable pub data_size : ℕ → ℕ → ℕ
unfolding two_words
data_size hi lo = let size = two_words hi lo in sign_extend (u32 (size + bit_and size 1))

pub record Stat : Type 0 where
  pub st_uid : ℕ
  pub st_gid : ℕ
  pub st_mode : ℕ
  pub st_dev : ℕ
  pub st_ino : ℕ
  pub st_nlink : ℕ
  pub st_rdev : ℕ
  pub st_size : ℕ
  pub st_mtim_nsec : ℕ
  pub st_mtim_sec : ℕ

module _ (memory : List ℕ) (header : ℕ) where
  unfoldable pub load_magic : Outcome ℕ
  load_magic = load16 memory header

  -- ARC_DATA_OFFSET(header)
  unfoldable pub load_data_offset : Outcome ℕ
  load_data_offset = do namesize ← load16 memory (header + 20); done (data_offset namesize)

  -- ARC_DATA_SIZE(header)
  unfoldable pub load_data_size : Outcome ℕ
  load_data_size = do
    hi ← load16 memory (header + 22)
    lo ← load16 memory (header + 24)
    done (data_size hi lo)

  -- The assignments that both `initramfs_stat` functions end with.
  unfoldable pub load_stat : Outcome Stat
  load_stat = do
    uid ← load16 memory (header + 8)
    gid ← load16 memory (header + 10)
    mode ← load16 memory (header + 6)
    device ← load16 memory (header + 2)
    inode ← load16 memory (header + 4)
    nlink ← load16 memory (header + 12)
    rdev ← load16 memory (header + 14)
    size ← load_data_size
    mod_hi ← load16 memory (header + 16)
    mod_lo ← load16 memory (header + 18)
    done (record {
      st_uid = uid;
      st_gid = gid;
      st_mode = mode;
      st_dev = device;
      st_ino = inode;
      st_nlink = nlink;
      st_rdev = rdev;
      st_size = size;
      st_mtim_nsec = 0;
      st_mtim_sec = sign_extend (two_words mod_hi mod_lo);
    })
