-- ===== src/Superblock/Write.antt =====
-- `ext4-core/src/superblock_write.rs`: the counts and the write time of the superblock, pinned in
-- the transaction as the block that holds it.
use pengwin.Base.{
  ℕ, ◌+◌, ◌*◌, ◌/◌, leb, if◌then◌else◌, List, length, splice, bytes_u32_le, ◌>>>◌, u32, Outcome, ok,
  map_err, ensure, M, reads,
}
use pengwin.Base.Fallible
use pengwin.Base.Stateful.{◌>>=◌}
use pengwin.Device.{BlockDevice, BlockDeviceError, read_sectors}
use pengwin.Superblock.{Superblock}
use pengwin.Journal.Transaction
use pengwin.WriteState.{WriteState, on_txn}

-- The journal's error, that `pin_block` never returns, is left out.
pub data SuperblockWriteError : Type 0 where
  block_device : BlockDeviceError → SuperblockWriteError
  invalid_buffer : SuperblockWriteError

-- The block that holds byte 1024, and where in it the superblock starts.
unfoldable pub sb_location : Superblock → ℕ × ℕ
sb_location sb = if leb sb.block_size 1024 then (1, 0) else (0, 1024)

-- The four fields, at bytes 12, 344, 16 and 48 of the superblock.
unfoldable pub patch_superblock : ℕ → (free_blocks free_inodes wtime : ℕ) → List ℕ → List ℕ
patch_superblock off free_blocks free_inodes wtime buf =
    let b₁ = splice buf (off + 12) (bytes_u32_le (u32 free_blocks)) in
    let b₂ = splice b₁ (off + 344) (bytes_u32_le (u32 (free_blocks >>> 32))) in
    let b₃ = splice b₂ (off + 16) (bytes_u32_le free_inodes) in
    splice b₃ (off + 48) (bytes_u32_le wtime)

unfoldable pub patch_checked :
    ℕ → (free_blocks free_inodes wtime : ℕ) → List ℕ → Outcome SuperblockWriteError (List ℕ)
patch_checked off free_blocks free_inodes wtime buf =
    Fallible.◌>>◌ (ensure (leb (off + 1024) (length buf)) invalid_buffer)
      (ok (patch_superblock off free_blocks free_inodes wtime buf))

unfoldable pub update_superblock :
    (D : BlockDevice)
    → Superblock
    → (free_blocks free_inodes wtime : ℕ) → M (WriteState D) SuperblockWriteError (Unit {0})
update_superblock D sb free_blocks free_inodes wtime = do
  let (sb_fs_block, off) = sb_location sb
  let sectors_per_block = sb.block_size / 512
  buf ← reads (λ s.
      map_err block_device
        (read_sectors D s.dev (sb_fs_block * sectors_per_block) sectors_per_block))
  patched ← reads (λ s. patch_checked off free_blocks free_inodes wtime buf)
  on_txn D (Transaction.pin_block sb_fs_block patched)
