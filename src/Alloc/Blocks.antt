-- ===== src/Alloc/Blocks.antt =====
-- `ext4-core/src/alloc/block_alloc.rs`, with `BlockBitmap::load`.
pub mod Marks
pub mod Disjoint
pub mod Free
pub mod Twice
pub mod Search
pub mod Facts
use pengwin.Base.{
  ℕ, zero, suc, ◌+◌, ◌-◌, ◌*◌, ◌/◌, ◌%◌, ◌^◌, Bool, true, false, ltb, leb, if◌then◌else◌, Option,
  none, some, List, length, bytes_u16_le, ◌>>>◌, u64, Outcome, ok, err, map_err, M, pure, throw,
  reads,
}
use pengwin.Base.Fallible
use pengwin.Base.Stateful.{◌>>=◌, ◌>>◌}
use pengwin.Device.{BlockDevice, read_sectors}
use pengwin.Superblock.{Superblock}
use pengwin.GroupDesc
use pengwin.GroupDesc.{GroupDescTable, Delta, plus, minus}
use pengwin.Journal.Transaction
use pengwin.WriteState.{WriteState, start_sector, copy_at, on_txn, set_gdt, write_through}
use pengwin.Alloc.Error.{AllocError, no_free_blocks, double_freed, group_desc, block_device}
use pengwin.Alloc.Bitmap.{is_allocated, allocate, free, first_free_run}

-- The counters of descriptor `group` in the block of the table, as `update_gdt_free_blocks`
-- patches them.
unfoldable pub patch_free_blocks {ℓ} :
    {E : Type ℓ} → Superblock → ℕ → ℕ → List ℕ → Outcome E (List ℕ)
patch_free_blocks sb group free_blocks_count gdt_data =
    let offset = group * sb.desc_size in
    let low = copy_at gdt_data (offset + 12) (bytes_u16_le free_blocks_count) in
    if leb (offset + 16) (length gdt_data)
    then (if leb 64 sb.desc_size
        then Fallible.◌>>=◌ low
            (λ b. copy_at b (offset + 44) (bytes_u16_le (free_blocks_count >>> 16)))
        else low)
    else ok gdt_data

-- `for bit in bit..bit + n { bm.allocate(bit); }`: whether a bit was free already is not looked at.
unfoldable pub allocate_run {ℓ} : {E : Type ℓ} → ℕ → ℕ → List ℕ → Outcome E (List ℕ)
allocate_run bit zero bitmap = ok bitmap
allocate_run bit (suc n) bitmap =
    Fallible.◌>>=◌ (allocate bitmap bit) λ r. allocate_run (bit + 1) n r.1

module _ (D : BlockDevice) (sb : Superblock) where
  abbrev Alloc : Type 0 → Type 0
  Alloc A = M (WriteState D) AllocError A

  abbrev pub get_desc : ℕ → Alloc GroupDesc.GroupDesc
  get_desc group = reads (λ s. map_err group_desc (GroupDesc.get s.gdt group))

  -- The block at an address, read from the device.
  abbrev pub read_block : ℕ → Alloc (List ℕ)
  read_block block = reads (λ s.
      map_err block_device (read_sectors D s.dev (start_sector sb block) (sb.block_size / 512)))

  unfoldable pub load_bitmap : ℕ → Alloc (List ℕ)
  load_bitmap group = do desc ← get_desc group; read_block desc.block_bitmap

  unfoldable pub flush_bitmap : ℕ → List ℕ → Alloc (Unit {0})
  flush_bitmap bitmap_block bytes = write_through D block_device sb bitmap_block bytes

  -- The table's block is read from the device, patched and pinned; it is not written.
  unfoldable pub update_gdt_free_blocks : ℕ → Delta → Alloc (Unit {0})
  update_gdt_free_blocks group delta = do
    gdt ← reads (λ s. map_err group_desc (GroupDesc.adjust_free_blocks s.gdt group delta))
    set_gdt D gdt
    let gdt_block = sb.first_data_block + 1
    gdt_data ← read_block gdt_block
    desc ← get_desc group
    patched ← reads (λ s. patch_free_blocks sb group desc.free_blocks_count gdt_data)
    on_txn D (Transaction.pin_block gdt_block patched)

  -- What `alloc_blocks` does in the group where the run at `start_bit` was found.
  unfoldable pub take_run : ℕ → ℕ → ℕ → List ℕ → Alloc ℕ
  take_run group count start_bit bitmap = do
    marked ← reads (λ s. allocate_run start_bit count bitmap)
    desc ← get_desc group
    flush_bitmap desc.block_bitmap marked
    update_gdt_free_blocks group (minus count)
    pure (u64 (group * sb.blocks_per_group + start_bit))

  unfoldable pub take_found : ℕ → ℕ → List ℕ → Option ℕ → Alloc (Option ℕ)
  take_found count group bitmap none = pure none
  take_found count group bitmap (some start_bit) = do
    block ← take_run group count start_bit bitmap
    pure (some block)

  -- One turn of the loop over the groups: `none` is its `continue`.
  unfoldable pub try_group : ℕ → ℕ → Alloc (Option ℕ)
  try_group count group = do
    desc ← get_desc group
    if ltb desc.free_blocks_count count then pure none else do
      bitmap ← load_bitmap group
      run ← reads (λ s. first_free_run bitmap count sb.blocks_per_group)
      take_found count group bitmap run

  -- The groups `hint_group + i` onwards, with `n` of them left.
  unfoldable pub alloc_loop : ℕ → ℕ → ℕ → ℕ → ℕ → Alloc ℕ
  alloc_loop count hint_group num_groups i zero = throw no_free_blocks
  alloc_loop count hint_group num_groups i (suc n) = do
    found ← try_group count ((hint_group + i) % num_groups)
    elim found [ some block ↦ pure block | none ↦ alloc_loop count hint_group num_groups (i + 1) n ]

  unfoldable pub alloc_blocks : ℕ → ℕ → Alloc ℕ
  alloc_blocks count hint_block s =
      let num_groups = GroupDesc.group_count s.gdt in
      alloc_loop count (hint_block / sb.blocks_per_group) num_groups 0 num_groups s

  -- `if !bm.free(bit) { return Err(DoubleFreed(block)); }`.
  abbrev ensure_taken : Bool → ℕ → Alloc (Unit {0})
  ensure_taken was_taken block = if was_taken then pure tt else throw (double_freed block)

  unfoldable pub free_block : ℕ → Alloc (Unit {0})
  free_block block = do
    let group = block / sb.blocks_per_group
    let bit = block % sb.blocks_per_group
    bitmap ← load_bitmap group
    (was_taken, cleared) ← reads (λ s. free bitmap bit)
    ensure_taken was_taken block
    desc ← get_desc group
    flush_bitmap desc.block_bitmap cleared
    on_txn D (Transaction.revoke_block block)
    update_gdt_free_blocks group (plus 1)
