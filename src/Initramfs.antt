-- ===== src/Initramfs.antt =====
-- src/c/sysfs/initramfs: files of a cpio archive that stays in memory. Memory is a list of bytes
-- and a pointer an index into it, so that the archive is read where it lies.
pub mod Header
pub mod File
pub mod Super
pub mod Archive
pub mod Layout
pub mod Find
pub mod Read
pub mod Examples
