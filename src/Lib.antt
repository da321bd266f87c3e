-- ===== src/Lib.antt =====
-- ouiche_fs, an educational Linux file system, and what is proved of it.
--
-- The program. The kernel module keeps a super block, an inode store, two free bitmaps and data
-- blocks. bitmap.h allocates inodes and blocks. file.c stores small files (up to 3968 bytes, blocks
-- count 0) in runs of 128-byte slices of sliced blocks, which form a list through their headers,
-- and big files in data blocks under an index block. inode.c keeps directories, super.c mounts,
-- syncs and writes inodes, sysfs.c reports statistics, and mkfs/mkfs-ouichefs.c formats a
-- partition.
--
-- The files.
--   Prelude, Words: shared names, tests, tables, counts; uint32_t arithmetic and binary digits.
--   Kernel: what the sources take from Linux, as a parameter `Kernel`; the documented behaviour of
--     find_first_bit, bitmap_clear and bitmap_set is the record of hypotheses `BitmapLaws`.
--   Block: a block as bytes, with the little-endian words that the sources read in it.
--   State: struct ouichefs_sb_info, struct ouichefs_inode_info, the state `Fs` of a mounted
--     partition, and the runs of a routine: a value, an errno, a stop of the kernel, or no fuel
--     left.
--   Bitmap: bitmap.h. Blocks is about the allocation of blocks, History about sequences of them,
--     Inodes about the allocation of inodes.
--   Slice: the small-file routines of file.c and the macros of ouichefs.h, from the search for free
--     slices (Find, Take) and the packed index (Index) to the allocation of sliced blocks
--     (Allocate) and delete_slice (Chain, Swept, Sweep, Delete, Inodes).
--   File: the read and write paths of file.c (Reads, SmallWrites, BigWrites, Writes), and what is
--     proved of them: reads of small files (SmallReads) and of big ones (BigBytes, BigReads),
--     writes in place (InPlace), the end of big writes (BigEnds) and their contents (BigContents,
--     BigTaken, BigRounds, BigLoop), O_TRUNC (Truncate), files that do not fit (Limits), failures (Failures)
--     and the conversion of a small file (Conversion). PageCache is the operations of the page
--     cache (Gets, Frees, WriteEnd). Outcomes has the rules for chains of steps.
--   Store: the inode store, ouichefs_write_inode (super.c) and ouichefs_iget (inode.c), as a table
--     of inodes (RoundTrip, Apart).
--   Super: ouichefs_sync_fs and ouichefs_fill_super of super.c with the bitmap copies of bitmap.h:
--     bits and bytes (Bits), the loops over bitmap blocks (Sync), mounting (Fill), mounting after a
--     sync (Mount), and ouichefs_statfs (Statfs).
--   Directory: lookup, create, mkdir, unlink and rmdir of inode.c, with the entries of a directory
--     (Entries) and their names (SameName, Names). iget_locked and inode_init_owner are parameters.
--     Create is about ouichefs_create: new files (Steps, Files) and creations that fail (Failures,
--     Atomic), with rules for the runs (Opened, Ends), and Unlink about ouichefs_unlink of an empty
--     file (Empty) and of a new one (Undone). Iterate is ouichefs_iterate of dir.c (Emits, Reads),
--     Rename is ouichefs_rename (Scan, Halves, Moves).
--   Mkfs: the numbers of a fresh super block, write_superblock of mkfs/mkfs-ouichefs.c (Geometry).
--     Format is the rest of the tool: what its routines write (Written, Areas, Sequence), how main
--     ends (Main), the bits of the bitmap blocks (Bits, Lines), mounting the result (Loads,
--     Mounts), and allocations on it (Allocations). The calls of the C library are the parameter
--     `Libc`, and the command line and the file's size are a `Command`.
--   Sysfs: the statistics of sysfs.c, as numbers (Counts, Statistics).
--   Module: fs.c with the parts of super.c, sysfs.c and ioctl.c that it calls (Starts), and the
--     ioctl (Ioctl).
--   Examples: a concrete kernel, runs of the model, and each theorem at a concrete input.
--
-- The correspondence. A `struct buffer_head` is the number of its block, and the buffer cache is
-- the field `disk`. Marking buffers dirty, syncing and releasing them and the messages have no
-- counterpart. A call of the kernel that may fail (sb_bread, kmalloc, copies to and from user
-- space) asks the parameter `Kernel` for its outcome, with the number of calls made so far, so that
-- every sequence of outcomes is covered. Integers are natural numbers, with the wrap of uint32_t
-- written out; file sizes and offsets are 64-bit numbers that the VFS keeps from wrapping. The host
-- is little-endian. Loops whose end the data decides (lists of sliced blocks) take fuel; the
-- theorems ask for more fuel than the list has blocks, and then the run ends.
--
-- Not modelled: the tables of operations that the VFS gets, ouichefs_put_super,
-- ouichefs_alloc_inode and ouichefs_destroy_inode, which only free and allocate memory,
-- ouichefs_mount and ouichefs_kill_sb, which only call the VFS, user-space tests and tools (test,
-- util), and the locking, which is the VFS's. mkfs is modelled for partitions up to 6 GiB where
-- mounting is concerned, since its first bitmap block holds the used blocks of no larger one.
pub mod Prelude
pub mod Words
pub mod Kernel
pub mod Block
pub mod State
pub mod Bitmap
pub mod Slice
pub mod Store
pub mod Super
pub mod Directory
pub mod Mkfs
pub mod Sysfs
pub mod Module
pub mod File
pub mod Examples
