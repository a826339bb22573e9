-- ===== src/Inode/Write.antt =====
-- `ext4-core/src/inode_write.rs`: inodes updated inside a transaction.
pub mod Location
pub mod Update
pub mod ReadBack
use pengwin.Base.{
  ℕ, ◌+◌, ◌-◌, ◌*◌, ◌/◌, ◌%◌, ◌^◌, leb, Option, none, some, List, length, slice, splice,
  bytes_u16_le, u16, u32, u64, ◌>>>◌, Outcome, ok, err, map_err, ensure, M, done, reads,
}
use pengwin.Base.Fallible
use pengwin.Base.Stateful.{◌>>=◌, ◌>>◌}
use pengwin.Device.{BlockDevice, BlockDeviceError, read_sectors}
use pengwin.Superblock.{Superblock}
use pengwin.GroupDesc
use pengwin.GroupDesc.{GroupDescTable, GroupDescError}
use pengwin.Journal.Transaction
use pengwin.Journal.Transaction.{pinned}
use pengwin.WriteState.{WriteState, start_sector, on_txn}
use pengwin.Inode.Raw.{RawInode, read_from, as_bytes}
use pengwin.Inode.{in_range}

-- The journal's error, that `pin_block` never returns, is left out.
pub data InodeWriteError : Type 0 where
  out_of_range : ℕ → ℕ → InodeWriteError
  block_device : BlockDeviceError → InodeWriteError
  group_desc : GroupDescError → InodeWriteError
  invalid_buffer : InodeWriteError

pub record InodeUpdate : Type 0 where
  pub size : Option ℕ
  pub mode : Option ℕ
  pub uid : Option ℕ
  pub gid : Option ℕ
  pub atime : Option ℕ
  pub mtime : Option ℕ
  pub ctime : Option ℕ
  pub links_count : Option ℕ
  pub flags : Option ℕ

abbrev pub no_update : InodeUpdate
no_update = record {
  size = none;
  mode = none;
  uid = none;
  gid = none;
  atime = none;
  mtime = none;
  ctime = none;
  links_count = none;
  flags = none;
}

abbrev pub with_size : ℕ → InodeUpdate
with_size v = record no_update { size = some v }

abbrev pub with_links_count : ℕ → InodeUpdate
with_links_count v = record no_update { links_count = some v }

-- `if let Some(v) = value { ... }`.
abbrev pub when_some {ℓ κ} : {A : Type ℓ} {R : Type κ} → Option A → (A → R → R) → R → R
when_some none f r = r
when_some (some v) f r = f v r

-- `U16::new` and `U32::new` take a value of that width already.
unfoldable pub apply_size : ℕ → RawInode → RawInode
apply_size v raw = record raw { i_size_lo = u32 v; i_size_hi = u32 (v >>> 32) }

unfoldable pub apply_uid : ℕ → RawInode → RawInode
apply_uid v raw = record raw { i_uid = u16 v; osd2 = splice raw.osd2 4 (bytes_u16_le (v >>> 16)) }

unfoldable pub apply_gid : ℕ → RawInode → RawInode
apply_gid v raw = record raw { i_gid = u16 v; osd2 = splice raw.osd2 6 (bytes_u16_le (v >>> 16)) }

unfoldable pub apply_update : InodeUpdate → RawInode → RawInode
apply_update update raw =
    let r₁ = when_some update.size apply_size raw in
    let r₂ = when_some update.mode (λ v (r : RawInode). record r { i_mode = u16 v }) r₁ in
    let r₃ = when_some update.atime (λ v (r : RawInode). record r { i_atime = u32 v }) r₂ in
    let r₄ = when_some update.mtime (λ v (r : RawInode). record r { i_mtime = u32 v }) r₃ in
    let r₅ = when_some update.ctime (λ v (r : RawInode). record r { i_ctime = u32 v }) r₄ in
    let r₆ =
      when_some update.links_count (λ v (r : RawInode). record r { i_links_count = u16 v }) r₅ in
    let r₇ = when_some update.flags (λ v (r : RawInode). record r { i_flags = u32 v }) r₆ in
    let r₈ = when_some update.uid apply_uid r₇ in when_some update.gid apply_gid r₈

-- The table's first block and the byte offset of the inode in the table.
unfoldable pub inode_location : Superblock → GroupDescTable → ℕ → Outcome InodeWriteError (ℕ × ℕ)
inode_location sb gdt inode_num =
    Fallible.◌>>◌ (ensure (in_range sb inode_num) (out_of_range inode_num sb.inodes_count)) (
      Fallible.◌>>=◌
        (map_err group_desc (GroupDesc.get gdt ((inode_num - 1) / sb.inodes_per_group)))
        (λ desc. ok (desc.inode_table, (inode_num - 1) % sb.inodes_per_group * sb.inode_size)))

-- The inode's fields are changed in place, in the 128 bytes at the offset.
unfoldable pub patch_inode : InodeUpdate → ℕ → List ℕ → Outcome InodeWriteError (List ℕ)
patch_inode update offset block_data =
    Fallible.◌>>◌ (ensure (leb (offset + 128) (length block_data)) invalid_buffer) (
      ok (
        splice block_data offset
          (as_bytes (apply_update update (read_from (slice block_data offset 128))))))

module _ (D : BlockDevice) (sb : Superblock) where
  -- The latest pin of the block, or what the device holds.
  unfoldable pub current_block : ℕ → WriteState D → Outcome InodeWriteError (List ℕ)
  current_block block s = elim (pinned s.txn block) [
    | some bytes ↦ ok bytes
    | none ↦
        map_err block_device (read_sectors D s.dev (start_sector sb block) (sb.block_size / 512))
  ]

  -- The part of `update_inode` once the inode is located.
  unfoldable pub update_at : InodeUpdate → ℕ → ℕ → M (WriteState D) InodeWriteError (Unit {0})
  update_at update phys_block offset_within_block = do
    block_data ← reads (current_block phys_block)
    patched ← reads (λ s. patch_inode update offset_within_block block_data)
    on_txn D (Transaction.pin_block phys_block patched)

  unfoldable pub update_inode : ℕ → InodeUpdate → M (WriteState D) InodeWriteError (Unit {0})
  update_inode inode_num update = do
    (inode_table_block, offset_in_table) ← reads (λ s. inode_location sb s.gdt inode_num)
    update_at update (u64 (inode_table_block + offset_in_table / sb.block_size))
        (offset_in_table % sb.block_size)
