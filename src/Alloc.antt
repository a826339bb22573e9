-- ===== src/Alloc.antt =====
-- `ext4-core/src/alloc/`: the allocators of blocks and inodes.
pub mod Error
pub mod Bitmap
pub mod Blocks
pub mod Inodes
