-- ===== src/Lib.antt =====
-- A model of pengwin, an ext4 driver for Windows, with the theorems that hold of it.
--
-- The crate `ext4-core` is the file system: block devices, the superblock, the group descriptors,
-- the allocators and the journal. The crate `pengwin` serves it through WinFsp and puts a sector
-- cache in front of the device. The files here model `ext4-core` and that cache; a path below
-- starts at the root of the repository.
--
-- - Base: outcomes that are a value, an error or a panic (Base/Fallible); code that mutates a
--   state and keeps what it changed before an error (Base/Stateful); lists, bytes and words over
--   the native numbers.
-- - Device: ext4-core/src/block_device/mod.rs. The trait is a record of operations, what its
--   documentation promises is `IsLawful`, and a device's state is whatever the implementation
--   says. Device/Image is image_file.rs over a parameter for the operating system's file,
--   with the helpers for Unix and those for Windows.
-- - Cache: pengwin/src/cache.rs over a parameter for `lru::LruCache`.
-- - Superblock: ext4-core/src/superblock.rs. A raw superblock is its 1024 bytes, read by offset.
-- - GroupDesc: ext4-core/src/group_desc.rs.
-- - Journal: ext4-core/src/journal. Journal/Transaction and Journal/Writer are writer.rs,
--   Journal/Format is superblock.rs with the errors of mod.rs, Journal/Load the block map of mod.rs,
--   Journal/Replay is replay.rs and Journal/Mount mount.rs.
-- - Inode: ext4-core/src/inode.rs; Inode/Raw is the layout of an inode, and Inode/Write is
--   inode_write.rs. Superblock/Write is superblock_write.rs.
-- - Extent: ext4-core/src/extent.rs. Extent/Leaves collects the leaves of a tree and searches
--   them as journal/mod.rs and file.rs do, Extent/Iter is the iterator. Extent/Write is
--   extent_write.rs: Nodes are the nodes as bytes, Append and Truncate the operations.
-- - File: the reader of ext4-core/src/file.rs; a call of `read` returns the bytes that it puts at
--   the start of the buffer. File/Write is file_write.rs.
-- - Dir: ext4-core/src/dir.rs, with `String::from_utf8_lossy` as a parameter. Dir/Write is
--   dir_write.rs: the records of a block, Operations on the blocks of a directory, and Rename.
-- - FsContext: pengwin/src/fs_context.rs, opening and the resolution of paths, without the mutexes.
-- - Fsp: pengwin/src/fsp_impl: the parent and name of a path (create.rs), and in Fsp/Handles the
--   callbacks of rename.rs, set_file_size.rs and write_file.rs.
-- - WriteState: the device, descriptor table and transaction that the writing code takes as
--   `&mut` arguments, as one record.
-- - Alloc: ext4-core/src/alloc. Both bitmaps have the same operations, modelled once in
--   Alloc/Bitmap; Alloc/Blocks is block_alloc.rs and Alloc/Inodes inode_alloc.rs, with the clock as
--   a parameter.
-- - Tests: a device in memory, a small image, and the theorems applied to them.
--
-- Numbers are the native natural numbers. A product or sum that the code computes on `u64` or
-- `u32` and that can exceed the width is cut (`u64`, `u32`), where a debug build would panic;
-- a slice out of range is `panic`. Loops over groups, sectors and bits are structural recursions
-- on the number of turns left, which the caller sets to the loop's bound. The descent of the extent
-- tree is on fuel, since the code bounds it by nothing: one unit for each node is enough, and a
-- lack of it is the panic of a stack that overflows. The loops over the records of a directory
-- block are on fuel, one more than the bytes of the block, and a lack of it is a panic too: a
-- record is at least 8 bytes long, so it never occurs. The loop of `read` has the number of bytes
-- as fuel. `extent_truncate` recurses on the depth in the root's header. The replay loop is on fuel,
-- since the code has no bound: a log full of revoke blocks keeps it going for ever.
--
-- Not modelled: the raw disk device (Windows I/O), the command line of the crate `pengwin`, the
-- other callbacks of its WinFsp layer, slow symlinks, locking, and the text of errors.
pub mod Base
pub mod Device
pub mod Cache
pub mod Superblock
pub mod GroupDesc
pub mod Journal
pub mod WriteState
pub mod Alloc
pub mod Inode
pub mod Extent
pub mod File
pub mod Dir
pub mod FsContext
pub mod Fsp
mod Tests
