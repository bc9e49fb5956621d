-- ===== src/Ext2/Stat.antt =====
-- src/c/sysfs/ext2/directory.c and file.c: the status of a file, by the directory and by its driver.
use kdrivers.Base.{ℕ, ◌+◌, ◌*◌, ◌^◌, ◌≤◌, ◌<◌, ◌≡◌, some, List, length, get_or}
use kdrivers.Base.Masks.{Masks}
use kdrivers.Base.Vfs.{Vfs, IsDevice}
use kdrivers.Ext2.{NodeState}
use kdrivers.Ext2.Blocks.{TableMemory}
use kdrivers.Ext2.ByName.{IsDirectory, IsInode, IsNamed, inode_bytes}
use kdrivers.Ext2.Entries.{Entry}
use kdrivers.Ext2.Layout.{word32}
use kdrivers.Ext2.Node.{Stat}

-- The 16-bit word at `p`.
unfoldable pub word16 : List ℕ → ℕ → ℕ
word16 m p = get_or m p 0 + get_or m (p + 1) 0 * 256

-- The status that the inode at `address` has: its mode and the low word of its size.
abbrev pub status_at : List ℕ → ℕ → Stat
status_at bytes address = record {
  st_mode = word16 bytes address;
  st_size = word32 bytes (address + 4);
}

module _ (v : Vfs) (file : v.File) (d : IsDevice v file) (memory : TableMemory)
    (dir : NodeState v.File) (bytes : List ℕ) (masks : Masks) (path : List ℕ)
    (has_path : dir.super.partition_path ≡ some path)
    (opens : (w : v.World) → (v.vfs_open path w).0 ≡ some file)
    (opens_only : (w : v.World) → d.bytes (v.vfs_open path w).1 ≡ d.bytes w)
    (small : length bytes < 2 ^ 64) (limit : ℕ) (entries : ℕ → List Entry)
    (directory : IsDirectory v file d memory dir bytes limit entries) (name : List ℕ)
    (inode address : ℕ) (is_named : IsNamed v file d memory dir bytes limit entries name inode)
    (is_inode : IsInode v file d memory dir bytes inode address) (fuel : ℕ)
    (enough : limit ≤ fuel) where
  abbrev node : List ℕ
  node = inode_bytes v file d memory dir bytes address
