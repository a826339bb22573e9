-- ===== src/Journal/Load.antt =====
-- `ext4-core/src/journal/mod.rs`: the journal's block map and its superblock.
use pengwin.Base.{
  ℕ, zero, suc, ◌+◌, ◌*◌, ◌/◌, leb, Option, none, some, List, [], ◌∷◌, length, get_elem?, take, u64,
  div_ceil, Outcome, ok, map_err, ok_or, ensure,
}
use pengwin.Base.Fallible.{◌>>=◌, ◌>>◌}
use pengwin.Device.{BlockDevice, read_sectors}
use pengwin.Superblock.{Superblock}
use pengwin.GroupDesc.{GroupDescTable}
use pengwin.Inode.{read_inode}
use pengwin.Extent.{ExtentLeaf}
use pengwin.Extent.Leaves.{collect_leaves_pub, sort_leaves, find_phys}
use pengwin.Journal.Format.{
  JournalError, JournalSuperblock, block_out_of_range, block_device, inode, extent, invalid_buffer,
  parse,
}

-- Journal-relative block numbers index `blocks`.
pub record Journal : Type 0 where
  pub blocks : List ℕ
  pub sb : JournalSuperblock

-- A hole is block 0.
unfoldable pub or_zero : Option ℕ → ℕ
or_zero none = 0
or_zero (some phys) = phys

-- The map from `lblock`, with `n` blocks left.
unfoldable pub block_map : List ExtentLeaf → ℕ → ℕ → List ℕ
block_map leaves lblock zero = []
block_map leaves lblock (suc n) =
    or_zero (find_phys leaves lblock) ∷ block_map leaves (lblock + 1) n

module _ (D : BlockDevice) (dev : D.Dev) (fs_sb : Superblock) where
  unfoldable pub read_phys_block : ℕ → Outcome JournalError (List ℕ)
  read_phys_block phys =
      let sectors_per_block = fs_sb.block_size / 512 in
      map_err block_device (read_sectors D dev (u64 (phys * sectors_per_block)) sectors_per_block)

  unfoldable pub read_block : Journal → ℕ → Outcome JournalError (List ℕ)
  read_block journal jblock =
      ok_or (block_out_of_range jblock) (get_elem? journal.blocks jblock) >>= λ phys.
      read_phys_block phys

  unfoldable pub read_journal_superblock : List ℕ → Outcome JournalError JournalSuperblock
  read_journal_superblock blocks = do
    phys ← ok_or (block_out_of_range 0) (get_elem? blocks 0)
    bytes ← read_phys_block phys
    ensure (leb 1024 (length bytes)) invalid_buffer
    parse (take 1024 bytes)

  -- Inode 8; the descent of its extent tree is on fuel.
  unfoldable pub load : GroupDescTable → ℕ → Outcome JournalError Journal
  load gdt fuel = do
    found ← map_err inode (read_inode D dev fs_sb gdt 8)
    leaves ← map_err extent (collect_leaves_pub D dev fs_sb fuel found [])
    let blocks = block_map (sort_leaves leaves) 0 (div_ceil found.size fs_sb.block_size)
    sb ← read_journal_superblock blocks
    ok (record { blocks = blocks; sb = sb })
