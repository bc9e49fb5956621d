-- ===== src/Ext2/Storage.antt =====
-- src/c/sysfs/ext2/ over src/c/sysdev/partition_dummy.c: a file system on a partition of a drive.
use kdrivers.Base.{ℕ, ◌+◌, ◌^◌, ◌≤◌, ◌<◌, ◌≡◌, none, some, List, length}
use kdrivers.Base.Masks.{Masks}
use kdrivers.Base.Vfs.{Vfs, IsDevice}
use kdrivers.Ext2.{NodeState}
use kdrivers.Ext2.Blocks.{TableMemory}
use kdrivers.Ext2.ByName.{IsDirectory, IsInode, IsNamed, inode_bytes, opened}
use kdrivers.Ext2.Entries.{Entry}
use kdrivers.Ext2.Layout.{IsLayout}
use kdrivers.Partition.{DriverState}
use kdrivers.Partition.Device.{Opened, partition_vfs, partition_device}
use kdrivers.Partition.Laws.{start, partition_size, partition_bytes}

module _ (v : Vfs) (drive : v.File) (d : IsDevice v drive) (s : DriverState v.File)
    (open_drive : s.drive ≡ some drive) (no_wrap : start s + partition_size s < 2 ^ 64)
    (memory : TableMemory) (dir : NodeState (DriverState v.File)) (w : Opened v.World) where
  abbrev pub bytes : List ℕ
  bytes = partition_bytes v drive d s open_drive w.world

  abbrev pub device : IsDevice (partition_vfs v s) s
  device = partition_device v drive d s open_drive no_wrap

  module _ (masks : Masks) (path : List ℕ) (has_path : dir.super.partition_path ≡ some path)
      (small : length bytes < 2 ^ 64) (limit : ℕ) (entries : ℕ → List Entry)
      (directory : IsDirectory (partition_vfs v s) s device memory dir bytes limit entries)
      (name : List ℕ) (inode address : ℕ)
      (is_named : IsNamed (partition_vfs v s) s device memory dir bytes limit entries name inode)
      (is_inode : IsInode (partition_vfs v s) s device memory dir bytes inode address) (fuel : ℕ)
      (enough : limit ≤ fuel) (held flimit : ℕ)
      (layout : IsLayout
        (partition_vfs v s)
        s
        device
        none
        memory
        (opened (partition_vfs v s) s device memory dir bytes held inode address).basic
        (inode_bytes (partition_vfs v s) s device memory dir bytes address)
        bytes
        flimit) where
    abbrev pub node : List ℕ
    node = inode_bytes (partition_vfs v s) s device memory dir bytes address
