-- ===== src/Initramfs/Examples.antt =====
-- src/c/sysfs/initramfs: the results at a small archive, and runs of the functions.
use kdrivers.Base.{ℕ, ◌+◌, ◌≡◌, refl, some, true, List, [], ◌∷◌, ◌++◌, get_or, done, arith}
use kdrivers.Base.Memory.{load16, load8, strncmp_eq}
use kdrivers.Initramfs.Header.{load_magic, load_data_offset, load_data_size, data_size}
use kdrivers.Initramfs.Archive.{Entry, IsEntry, encode, encode_all, starts_with, offset_of}
use kdrivers.Initramfs.Super.{find_loop, skip_slash, initramfs_find_file}
use kdrivers.Initramfs.File.{initramfs_read, initramfs_stat}
use kdrivers.Initramfs.Layout.{stat_of}
use kdrivers.Initramfs.Find.{IsTail, initramfs_find_file-encode_all}
use kdrivers.Base.Filled.{IsFilled}
use kdrivers.Initramfs.Read.{initramfs_read-encode, initramfs_stat-encode}

abbrev entry : List ℕ → List ℕ → Entry
entry name contents = record {
  device = 1;
  inode = 2;
  mode = 0x81a4;
  uid = 3;
  gid = 4;
  nlink = 1;
  rdev = 0;
  mod_hi = 5;
  mod_lo = 6;
  name = name;
  contents = contents;
}

-- The file names `ab` and `a`.
abbrev long : Entry
long = entry (b'a' ∷ b'b' ∷ []) (10 ∷ 11 ∷ 12 ∷ [])

abbrev short : Entry
short = entry (b'a' ∷ []) (20 ∷ 21 ∷ [])

abbrev tail : List ℕ
tail = 0 ∷ 0 ∷ []

abbrev before : List ℕ
before = 255 ∷ []

long-IsEntry : IsEntry long
long-IsEntry = omega arith

short-IsEntry : IsEntry short
short-IsEntry = omega arith

tail-IsTail : IsTail tail
unfolding load16 load8
tail-IsTail = (0, refl, omega arith)

-- A search for `/ab`.
finds_second :
    initramfs_find_file
      (encode_all (short ∷ long ∷ []) tail)
      (some 0)
      (some (b'/' ∷ b'a' ∷ b'b' ∷ []))
    ≡ done (some 30)
unfolding initramfs_find_file find_loop skip_slash encode_all encode load_magic load_data_offset
    load_data_size data_size load16 load8 strncmp_eq
finds_second = refl

-- A search for `a` meets `ab` first.
finds_longer_name :
    initramfs_find_file (encode_all (long ∷ short ∷ []) tail) (some 0) (some (b'a' ∷ []))
    ≡ done (some 0)
unfolding initramfs_find_file find_loop skip_slash encode_all encode load_magic load_data_offset
    load_data_size data_size load16 load8 strncmp_eq
finds_longer_name = refl

initramfs_find_file-encode_all_example :
    initramfs_find_file
      (before ++ encode_all (short ∷ long ∷ []) tail)
      (some 1)
      (some (b'/' ∷ b'a' ∷ b'b' ∷ []))
    ≡ done (some 31)
unfolding encode_all encode offset_of starts_with skip_slash
initramfs_find_file-encode_all_example =
    initramfs_find_file-encode_all before (short ∷ long ∷ []) tail (b'/' ∷ b'a' ∷ b'b' ∷ [])
      (omega arith) (short-IsEntry, (long-IsEntry, tt)) tail-IsTail (omega arith)

initramfs_read-encode_example :
    (after : List ℕ) × (initramfs_read
        (before ++ encode long tail)
        (1 ∷ 2 ∷ 3 ∷ 4 ∷ 5 ∷ [])
        2
        2
        (some 1)
        (some (some 1))
      ≡ done (4, after))
    × IsFilled (λ i. get_or long.contents (i + 1) 0) 0 4 (1 ∷ 2 ∷ 3 ∷ 4 ∷ 5 ∷ []) after
unfolding encode
initramfs_read-encode_example =
    initramfs_read-encode before long tail (1 ∷ 2 ∷ 3 ∷ 4 ∷ 5 ∷ []) 2 2 1 long-IsEntry (omega arith)
      (omega arith) (omega arith) (omega arith)

-- Three bytes, of which `stat` makes four.
initramfs_stat-encode_example :
    initramfs_stat (before ++ encode long tail) (some (some (some 1))) true
    ≡ done (0, some (record (stat_of before long tail) { st_size = 4 }))
initramfs_stat-encode_example = initramfs_stat-encode before long tail long-IsEntry
