-- ===== src/Alloc/Inodes.antt =====
-- `ext4-core/src/alloc/inode_alloc.rs`, with `InodeBitmap::load`.
pub mod Fresh
use pengwin.Base.{
  ℕ, zero, suc, ◌+◌, ◌-◌, ◌*◌, ◌/◌, ◌%◌, ◌^◌, ◌==◌, Bool, true, false, ltb, leb, if◌then◌else◌,
  Option, none, some, List, [], ◌∷◌, ◌++◌, length, replicate, slice, splice, bytes_u16_le, ◌>>>◌,
  u16, u32, u64, u8, Outcome, ok, err, map_err, assert, M, pure, throw, reads,
}
use pengwin.Base.Fallible
use pengwin.Base.Stateful.{◌>>=◌, ◌>>◌}
use pengwin.Device.{BlockDevice, read_sectors}
use pengwin.Superblock.{Superblock}
use pengwin.GroupDesc
use pengwin.GroupDesc.{GroupDesc, GroupDescTable, Delta, plus, minus}
use pengwin.Journal.Transaction
use pengwin.Journal.Transaction.{pinned}
use pengwin.WriteState.{WriteState, start_sector, copy_at, on_txn, set_gdt, write_through}
use pengwin.Inode.Raw.{RawInode, read_from, as_bytes}
use pengwin.Alloc.Error.{AllocError, no_free_inodes, group_desc, block_device}
use pengwin.Alloc.Bitmap.{allocate, free, first_free}
use pengwin.Alloc.Blocks.{get_desc, read_block}

abbrev pub extents_fl : ℕ
extents_fl = 0x80000

-- Magic 0xF30A, no entries, at most 4, depth 0, generation 0.
abbrev pub extent_header : List ℕ
extent_header = 0x0A ∷ 0xF3 ∷ 0 ∷ 0 ∷ 4 ∷ 0 ∷ 0 ∷ 0 ∷ 0 ∷ 0 ∷ 0 ∷ 0 ∷ []

-- `inode_num - 1` on `u32`.
abbrev pub inode_index : ℕ → ℕ
inode_index inode_num = u32 (inode_num + (2 ^ 32 - 1))

-- The counters of descriptor `group` in the block of the table, as `sync_gdt_block` patches them.
unfoldable pub patch_inode_counts :
    {E : Type 0} → Superblock → ℕ → GroupDesc → List ℕ → Outcome E (List ℕ)
patch_inode_counts sb offset desc gdt_data =
    Fallible.◌>>=◌ (copy_at gdt_data (offset + 14) (bytes_u16_le desc.free_inodes_count)) λ a.
      Fallible.◌>>=◌ (copy_at a (offset + 28) (bytes_u16_le desc.itable_unused)) λ b.
        if leb 64 sb.desc_size
        then Fallible.◌>>=◌ (copy_at b (offset + 46) (bytes_u16_le (desc.free_inodes_count >>> 16)))
            (λ c. copy_at c (offset + 50) (bytes_u16_le (desc.itable_unused >>> 16)))
        else ok b

-- The fields of an inode just created: everything else is zero.
unfoldable pub fresh_inode : (now mode uid gid : ℕ) → RawInode
fresh_inode now mode uid gid = record {
  i_mode = u16 mode;
  i_uid = u16 uid;
  i_size_lo = 0;
  i_atime = now;
  i_ctime = now;
  i_mtime = now;
  i_dtime = 0;
  i_gid = u16 gid;
  i_links_count = 1;
  i_blocks_lo = 0;
  i_flags = extents_fl;
  osd1 = replicate 4 0;
  i_block = extent_header ++ replicate 48 0;
  i_generation = 0;
  i_file_acl_lo = 0;
  i_size_hi = 0;
  i_obso_faddr = 0;
  osd2 =
      0
      ∷ 0
      ∷ 0
      ∷ 0
      ∷ u8 (uid >>> 16)
      ∷ u8 (uid >>> 24)
      ∷ u8 (gid >>> 16)
      ∷ u8 (gid >>> 24)
      ∷ 0
      ∷ 0
      ∷ 0
      ∷ 0
      ∷ [];
}

-- A slice of 128 bytes at the offset is rewritten as an inode; out of range is a panic.
unfoldable pub patch_raw : {E : Type 0} → (RawInode → RawInode) → ℕ → List ℕ → Outcome E (List ℕ)
patch_raw f offset table_block =
    Fallible.◌>>◌ (assert (leb (offset + 128) (length table_block)))
      (ok (splice table_block offset (as_bytes (f (read_from (slice table_block offset 128))))))

-- `unix_now()` is the parameter `now`.
module _ (D : BlockDevice) (sb : Superblock) (now : ℕ) where
  abbrev Alloc : Type 0 → Type 0
  Alloc A = M (WriteState D) AllocError A

  unfoldable pub load_inode_bitmap : ℕ → Alloc (List ℕ)
  load_inode_bitmap group = do desc ← get_desc D sb group; read_block D sb desc.inode_bitmap

  unfoldable pub flush_inode_bitmap : ℕ → List ℕ → Alloc (Unit {0})
  flush_inode_bitmap bitmap_block bytes = write_through D block_device sb bitmap_block bytes

  unfoldable pub flush_inode_table : ℕ → List ℕ → Alloc (Unit {0})
  flush_inode_table inode_table_block bytes =
      write_through D block_device sb inode_table_block bytes

  -- The block of the table, the inode's offset in it, and the block's address.
  unfoldable pub load_inode_table_block : ℕ → Alloc (List ℕ × ℕ × ℕ)
  load_inode_table_block inode_num = do
    let group = inode_index inode_num / sb.inodes_per_group
    let index_in_group = inode_index inode_num % sb.inodes_per_group
    desc ← get_desc D sb group
    let inodes_per_block = sb.block_size / sb.inode_size
    let offset = index_in_group % inodes_per_block * sb.inode_size
    let target_block = u64 (desc.inode_table + index_in_group / inodes_per_block)
    bytes ← read_block D sb target_block
    pure (bytes, offset, target_block)

  -- The transaction's latest pin of the block, if there is one.
  unfoldable pub load_inode_table_block_with_txn : ℕ → Alloc (List ℕ × ℕ × ℕ)
  load_inode_table_block_with_txn inode_num = do
    (disk_data, offset, target_block) ← load_inode_table_block inode_num
    λ s. elim (pinned s.txn target_block) [
      | some bytes ↦ pure (bytes, offset, target_block) s
      | none ↦ pure (disk_data, offset, target_block) s
    ]

  -- The table's block is read from the device, patched where the descriptor fits, and pinned.
  unfoldable pub sync_gdt_block : ℕ → Alloc (Unit {0})
  sync_gdt_block group = do
    let gdt_block = sb.first_data_block + 1
    gdt_data ← read_block D sb gdt_block
    let offset = group * sb.desc_size
    if leb (offset + 32) (length gdt_data)
        then (do
          desc ← get_desc D sb group
          patched ← reads (λ s. patch_inode_counts sb offset desc gdt_data)
          on_txn D (Transaction.pin_block gdt_block patched))
        else on_txn D (Transaction.pin_block gdt_block gdt_data)

  unfoldable pub update_gdt_free_inodes : ℕ → Delta → Alloc (Unit {0})
  update_gdt_free_inodes group delta = do
    gdt ← reads (λ s. map_err group_desc (GroupDesc.adjust_free_inodes s.gdt group delta))
    set_gdt D gdt
    sync_gdt_block group

  unfoldable pub update_gdt_itable_unused : ℕ → Alloc (Unit {0})
  update_gdt_itable_unused group = sync_gdt_block group

  -- What `alloc_inode` does in the group where `slot` is free. The bit is not checked again.
  unfoldable pub take_slot : ℕ → ℕ → List ℕ → Alloc ℕ
  take_slot group slot bitmap = do
    (was_free, marked) ← reads (λ s. allocate bitmap slot)
    desc ← get_desc D sb group
    flush_inode_bitmap desc.inode_bitmap marked
    update_gdt_free_inodes group (minus 1)
    gdt ← reads (λ s. map_err group_desc (GroupDesc.update_itable_unused s.gdt group slot sb))
    set_gdt D gdt
    update_gdt_itable_unused group
    pure (u32 (u32 group * sb.inodes_per_group + slot + 1))

  unfoldable pub take_first : ℕ → List ℕ → Option ℕ → Alloc (Option ℕ)
  take_first group bitmap none = pure none
  take_first group bitmap (some slot) = do
    inode_num ← take_slot group slot bitmap
    pure (some inode_num)

  -- One turn of the loop over the groups: `none` is its `continue`.
  unfoldable pub try_inode_group : ℕ → Alloc (Option ℕ)
  try_inode_group group = do
    desc ← get_desc D sb group
    if desc.free_inodes_count == 0
        then pure none
        else do bitmap ← load_inode_bitmap group; take_first group bitmap (first_free bitmap)

  unfoldable pub inode_loop : ℕ → ℕ → ℕ → ℕ → Alloc ℕ
  inode_loop hint_group num_groups i zero = throw no_free_inodes
  inode_loop hint_group num_groups i (suc n) = do
    found ← try_inode_group ((hint_group + i) % num_groups)
    elim found [
      | some inode_num ↦ pure inode_num
      | none ↦ inode_loop hint_group num_groups (i + 1) n
    ]

  unfoldable pub alloc_inode : ℕ → Alloc ℕ
  alloc_inode hint_group s =
      let num_groups = GroupDesc.group_count s.gdt in
      inode_loop hint_group num_groups 0 num_groups s

  unfoldable pub init_inode : (inode_num mode uid gid : ℕ) → Alloc (Unit {0})
  init_inode inode_num mode uid gid = do
    (table_block, offset, inode_table_block) ← load_inode_table_block_with_txn inode_num
    patched ← reads (λ s. patch_raw (λ _. fresh_inode now mode uid gid) offset table_block)
    flush_inode_table inode_table_block patched

  unfoldable pub free_inode : ℕ → Alloc (Unit {0})
  free_inode inode_num = do
    let group = inode_index inode_num / sb.inodes_per_group
    let slot = inode_index inode_num % sb.inodes_per_group
    bitmap ← load_inode_bitmap group
    (was_taken, cleared) ← reads (λ s. free bitmap slot)
    desc ← get_desc D sb group
    flush_inode_bitmap desc.inode_bitmap cleared
    (table_block, offset, inode_table_block) ← load_inode_table_block_with_txn inode_num
    patched ←
        reads (λ s. patch_raw (λ (raw : RawInode). record raw { i_dtime = now }) offset table_block)
    flush_inode_table inode_table_block patched
    update_gdt_itable_unused group
    update_gdt_free_inodes group (plus 1)
