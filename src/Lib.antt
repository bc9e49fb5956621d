-- ===== src/Lib.antt =====
-- The kernel drivers of Arctan-OS: what the C code under src/c does, and what it is shown to do.
--
-- The drivers stand between the kernel and a device or a file format. Each has a table of functions
-- (init, uninit, read, write, seek, stat and, for file systems, locate) that the kernel calls with a
-- resource; the registry of resource.c finds a driver in a generated table and starts it.
--
-- Which file models what (paths from the repository's root):
--   Base        what the modules share: comparisons, arrays as lists, machine words, memcpy and
--               loads that may fault, and the interfaces of code outside the repository: the
--               allocator (Alloc), the virtual file system (Vfs, with RamDisk as an instance), the
--               bit field macros (Masks), port input and output (Ports).
--   Buffer      src/c/sysfs/buffer.c, RAM files of a fixed size.
--   Initramfs   src/c/sysfs/initramfs/file.c and super.c, files of a cpio archive in memory. Header
--               has the macros, Super the search, File the transfers; Archive is the format by its
--               writer, against which Layout, Find and Read prove them.
--   Ext2        src/c/sysfs/ext2/, a file system on a partition, whose structures (src/c/include/
--               drivers/sysfs/ext2/) are in Ext2 itself. Check, Super, Inode and Allocate are
--               super.c, Groups and Overrun being about the latter; Node is file.c and directory.c
--               over the interface InodeData of util.c. util.c is Blocks (tables), Data (traversal)
--               and Directory, whose `util` fills the interface; Layout and Entries are the format,
--               Resolve, ReadData, Search, Robust and Alias the proofs. Direct and WriteData are
--               writes to the blocks that an inode names itself, which RoundTrip reads back. ByName
--               composes reading, from a name in a directory to the file's bytes, Storage puts it on a
--               partition, and Stat is about a file's status. Whole, Mount and Mounted are
--               about the start of super.c.
--   Clock       src/c/sysdev/rtc.c and hpet.c, drivers that only check their arguments.
--   Nvme        src/c/sysdev/nvme/, drives on the PCI bus; Nvme itself has the structures of
--               src/c/include/drivers/sysdev/nvme/nvme.h. Kernel is what pci.c calls; Queue is its
--               submission and completion, Pci the start of a controller, PciFunctions the driver's
--               functions, Completion, Config and Reset the proofs. Transport is the interface between
--               the queues and what uses them, with what that relies on of a device. Controller, Init
--               and Driver are nvme.c, QPairs and Listing its proofs. Namespace and Start are
--               namespace.c; ReadPages, ReadBytes, WritePages, WriteBytes and RoundTrip are its
--               proofs. RamNvm is a namespace in memory.
--   Partition   src/c/sysdev/partition_dummy.c, a part of a drive. Device shows that it is what the
--               drivers of its content rely on: an array of bytes behind the virtual file system.
--   Platform    the entries that src/c/sysdev/ makes in the driver table, and what the registry does
--               with them: which ACPI and PCI devices get a driver.
--   Resource    src/c/resource.c and src/c/include/drivers/resource.h, the registry of drivers.
--   Uart        src/c/sysdev/serial/uart.c, a 16550 serial port.
-- The functions keep their names. The children of a module prove what the module's functions do;
-- Examples holds tests, and the results at concrete inputs.
--
-- How C is read: a pointer that the code holds against NULL is an Option; an array is a list, and an
-- access out of range is the outcome `fault`; size_t and the uint types are numbers with their wrap
-- written out; int results are 32-bit patterns. An allocation that may fail is a Boolean argument or
-- the interface Alloc. Debug output has no part in the model.
--
-- Loops over counts recur on the rounds left. The search of an archive recurs on fuel, one more than
-- the memory has bytes: each header that it passes takes 26 of them at least, so that the fuel is
-- enough for every archive, as the theorem about it shows. The traversal of the blocks of an inode
-- has fuel for one round per byte that is wanted and one more, the listing of a block one round per
-- byte of the block and one more; the listing of a directory is given its fuel, where as many rounds
-- as there are blocks up to the entry that is looked for are enough. The transfers of a namespace
-- have fuel for one round per byte and one more. The waits for a device, and the listing of its
-- namespaces, are given their fuel, since the code has no bound for them: a wait is shown to end
-- where the device answers after fewer reads than that, a listing within one round where the numbers
-- fit a page.
--
-- Not modelled: the generator of the driver table. Frees are modelled only where a result shows them.
pub mod Base
pub mod Buffer
pub mod Clock
pub mod Ext2
pub mod Initramfs
pub mod Nvme
pub mod Partition
pub mod Platform
pub mod Resource
pub mod Uart
