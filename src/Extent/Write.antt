-- ===== src/Extent/Write.antt =====
-- `ext4-core/src/extent_write.rs`: the extent tree of an inode, changed.
pub mod Nodes
pub mod Append
pub mod Truncate
use pengwin.Base.{
  ℕ, ◌+◌, ◌-◌, ◌*◌, ◌/◌, ◌%◌, ◌^◌, leb, ◌==◌, Option, none, some, List, length, slice, u64, Outcome,
  ok, err, map_err, ensure, assert, M, reads,
}
use pengwin.Base.Fallible
use pengwin.Base.Stateful.{◌>>=◌, ◌>>◌}
use pengwin.Device.{BlockDevice, BlockDeviceError, read_sectors, write_sectors}
use pengwin.Superblock.{Superblock}
use pengwin.GroupDesc
use pengwin.GroupDesc.{GroupDescTable, GroupDescError}
use pengwin.Journal.Transaction
use pengwin.Journal.Transaction.{pinned}
use pengwin.WriteState.{WriteState, start_sector, copy_at, on_dev, on_txn}
use pengwin.Inode.{InodeError}
use pengwin.Inode.Raw.{RawInode, read_from, as_bytes}
use pengwin.Alloc.Error.{AllocError}
use pengwin.Extent.{ExtentHeader, extent_magic, read_header}

-- The journal's error, that `pin_block` never returns, is left out.
pub data ExtentWriteError : Type 0 where
  not_extent_based : ExtentWriteError
  depth_limit_exceeded : ExtentWriteError
  corrupt_tree : ℕ → ExtentWriteError
  alloc : AllocError → ExtentWriteError
  block_device : BlockDeviceError → ExtentWriteError
  inode : InodeError → ExtentWriteError
  group_desc : GroupDescError → ExtentWriteError

unfoldable pub parse_header : List ℕ → ℕ → Outcome ExtentWriteError ExtentHeader
parse_header bytes location =
    Fallible.◌>>◌ (ensure (leb 12 (length bytes)) (corrupt_tree location)) (
      Fallible.◌>>◌ (ensure ((read_header bytes).eh_magic == extent_magic) (corrupt_tree location))
        (ok (read_header bytes)))

-- The inode's block of the table and its offset in the block.
unfoldable pub inode_location : Superblock → GroupDescTable → ℕ → Outcome ExtentWriteError (ℕ × ℕ)
inode_location sb gdt inode_num =
    let idx_in_group = (inode_num - 1) % sb.inodes_per_group in
    let inodes_per_block = sb.block_size / sb.inode_size in
    Fallible.◌>>=◌ (map_err group_desc (GroupDesc.get gdt ((inode_num - 1) / sb.inodes_per_group)))
      (λ desc. ok (
        u64 (desc.inode_table + idx_in_group / inodes_per_block),
        idx_in_group % inodes_per_block * sb.inode_size,
      ))

-- `data[off..off + 128]` as an inode, and its change.
unfoldable pub raw_at : List ℕ → ℕ → Outcome ExtentWriteError RawInode
raw_at bytes off =
    Fallible.◌>>◌ (assert (leb (off + 128) (length bytes))) (ok (read_from (slice bytes off 128)))

module _ (D : BlockDevice) (sb : Superblock) where
  abbrev pub Extents : Type 0 → Type 0
  Extents A = M (WriteState D) ExtentWriteError A

  unfoldable pub read_block : ℕ → WriteState D → Outcome ExtentWriteError (List ℕ)
  read_block block s =
      map_err block_device (read_sectors D s.dev (start_sector sb block) (sb.block_size / 512))

  unfoldable pub write_block : ℕ → List ℕ → Extents (Unit {0})
  write_block block bytes = do
    on_dev D block_device (write_sectors D (start_sector sb block) bytes)
    on_txn D (Transaction.pin_block block bytes)

  -- The latest pin of the block, or what the device holds.
  unfoldable pub current_block : ℕ → WriteState D → Outcome ExtentWriteError (List ℕ)
  current_block block s = elim (pinned s.txn block) [
    | some bytes ↦ ok bytes
    | none ↦ read_block block s
  ]

  unfoldable pub read_raw_inode_at_with_txn : ℕ → ℕ → Extents RawInode
  read_raw_inode_at_with_txn table_block off = do
    bytes ← reads (current_block table_block)
    reads (λ s. raw_at bytes off)

  unfoldable pub flush_raw_inode : ℕ → ℕ → RawInode → Extents (Unit {0})
  flush_raw_inode table_block off raw = do
    bytes ← reads (current_block table_block)
    patched ← reads (λ s. copy_at bytes off (as_bytes raw))
    write_block table_block patched
