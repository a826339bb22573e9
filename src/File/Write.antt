-- ===== src/File/Write.antt =====
-- `ext4-core/src/file_write.rs`: bytes written into a file, with blocks allocated as needed.
pub mod Parts
pub mod Place
use pengwin.Base.{
  ℕ, zero, suc, ◌+◌, ◌-◌, ◌*◌, ◌/◌, ◌^◌, Bool, true, false, ◌&&◌, ltb, leb, ◌==◌, min, max,
  if◌then◌else◌, Option, none, some, List, [], ◌∷◌, ◌++◌, length, get_elem?, slice, replicate, u16,
  u64, Outcome, ok, err, panic, map_err, assert, M, done, fail, abort, pure, reads, map_fail,
}
use pengwin.Base.Fallible
use pengwin.Base.Stateful.{◌>>=◌, ◌>>◌}
use pengwin.Device.{BlockDevice, BlockDeviceError, read_sectors, write_sectors}
use pengwin.Superblock.{Superblock}
use pengwin.Journal.Transaction
use pengwin.WriteState.{WriteState, start_sector, copy_at, on_dev, on_txn}
use pengwin.Inode.{Inode}
use pengwin.Alloc.Error.{AllocError}
use pengwin.Alloc.Blocks.{alloc_blocks}
use pengwin.Extent.{ExtentError}
use pengwin.Extent.Leaves.{lookup}
use pengwin.Extent.Write.{ExtentWriteError}
use pengwin.Extent.Write.Append.{extent_append}

-- The journal's error, that `pin_block` never returns, is left out, and so is that of the group
-- descriptors.
pub data FileWriteError : Type 0 where
  block_device : BlockDeviceError → FileWriteError
  extent : ExtentError → FileWriteError
  extent_write : ExtentWriteError → FileWriteError
  alloc : AllocError → FileWriteError

abbrev pub extent_batch_max : ℕ
extent_batch_max = 32768

-- `start, start + 1, ...`, `n` of them.
unfoldable pub count_from : ℕ → ℕ → List ℕ
count_from start zero = []
count_from start (suc n) = start ∷ count_from (start + 1) n

-- The part of the data that goes into logical block `lb`: where it starts in the block, and its
-- bytes.
unfoldable pub part_of : ℕ → ℕ → List ℕ → ℕ → ℕ × List ℕ
part_of block_size offset bytes lb =
    let at_first = lb == offset / block_size in
    let intra_off = if at_first then offset - lb * block_size else 0 in
    let data_start = if at_first then 0 else lb * block_size - offset in
    let data_end = min ((lb + 1) * block_size - offset) (length bytes) in
    (intra_off, slice bytes data_start (data_end - data_start))

-- `fuel` bounds the descent of the extent tree.
module _ (D : BlockDevice) (sb : Superblock) (fuel : ℕ) where
  abbrev pub Writes : Type 0 → Type 0
  Writes A = M (WriteState D) FileWriteError A

  unfoldable pub look : Inode → ℕ → WriteState D → Outcome FileWriteError (Option ℕ)
  look found lblock s = map_err extent (lookup D s.dev sb fuel found lblock)

  -- The end of the run of unallocated blocks from `run_start`, at `run_end` with `n` left.
  unfoldable pub run_end_loop : Inode → ℕ → ℕ → ℕ → WriteState D → Outcome FileWriteError ℕ
  run_end_loop found run_start run_end zero s = ok run_end
  run_end_loop found run_start run_end (suc n) s = Fallible.◌>>=◌ (look found run_end s) λ phys.
      elim phys [
        | some _ ↦ ok run_end
        | none ↦ elim (leb extent_batch_max (run_end + 1 - run_start)) [
          | true ↦ ok (run_end + 1)
          | false ↦ run_end_loop found run_start (run_end + 1) n s
        ]
      ]

  -- Half as many blocks are asked for after each failure, which may have changed the state; the
  -- first argument is the number itself, so one is reached. The start and the number.
  unfoldable pub alloc_halving : ℕ → ℕ → ℕ → Writes (ℕ × ℕ)
  alloc_halving zero want hint = λ s. abort
  alloc_halving (suc n) want hint = λ s. elim (alloc_blocks D sb want hint s) [
    | done phys_start t ↦ done (phys_start, want) t
    | fail e t ↦ elim (want == 1) [
      | true ↦ fail (alloc e) t
      | false ↦ alloc_halving n (want / 2) hint t
    ]
    | abort ↦ abort
  ]

  -- The blocks of a run from `cursor`, with `remaining` left; each turn allocates at least one.
  unfoldable pub fill_loop : ℕ → ℕ → ℕ → ℕ → ℕ → ℕ → List ℕ → Writes (List ℕ)
  fill_loop inode_num first_lblock hint zero cursor remaining phys_map = pure phys_map
  fill_loop inode_num first_lblock hint (suc n) cursor remaining phys_map = elim (remaining == 0) [
    | true ↦ pure phys_map
    | false ↦ do
      let want = min remaining extent_batch_max
      (phys_start, got) ← alloc_halving want want hint
      on_dev D block_device
          (write_sectors D (start_sector sb phys_start) (replicate (got * sb.block_size) 0))
      map_fail extent_write (extent_append D sb inode_num phys_start (u16 got))
      phys_map' ← reads (λ s. copy_at phys_map (cursor - first_lblock) (count_from phys_start got))
      fill_loop inode_num first_lblock hint n (cursor + got) (remaining - got) phys_map'
  ]

  -- Phase 1 from `lblock`, with `left` blocks to provide for; every turn provides at least one, so
  -- as much fuel is enough.
  unfoldable pub provide_loop : ℕ → Inode → ℕ → ℕ → ℕ → ℕ → List ℕ → Writes (List ℕ)
  provide_loop inode_num found first_lblock zero lblock left phys_map = pure phys_map
  provide_loop inode_num found first_lblock (suc n) lblock left phys_map = elim (left == 0) [
    | true ↦ pure phys_map
    | false ↦ do
      phys_opt ← reads (look found lblock)
      elim phys_opt [
        | some p ↦ do
          phys_map' ← reads (λ s. copy_at phys_map (lblock - first_lblock) (p ∷ []))
          provide_loop inode_num found first_lblock n (lblock + 1) (left - 1) phys_map'
        | none ↦ do
          run_end ← reads (run_end_loop found lblock lblock left)
          let remaining = run_end - lblock
          let hint = max (found.size / sb.block_size) lblock
          phys_map' ← fill_loop inode_num first_lblock hint remaining lblock remaining phys_map
          provide_loop inode_num found first_lblock n run_end (left - remaining) phys_map'
      ]
  ]

  -- What a part is written over: zeros if it fills the block, or what the block holds.
  unfoldable pub base_of : Bool → ℕ → WriteState D → Outcome FileWriteError (List ℕ)
  base_of true phys s = ok (replicate sb.block_size 0)
  base_of false phys s =
      map_err block_device (read_sectors D s.dev (start_sector sb phys) (sb.block_size / 512))

  -- One block of phase 2.
  unfoldable pub write_part : ℕ → ℕ → List ℕ → Writes (Unit {0})
  write_part phys intra_off part = do
    block_data ← reads (base_of ((intra_off == 0) && (length part == sb.block_size)) phys)
    block_data' ← reads (λ s. copy_at block_data intra_off part)
    on_dev D block_device (write_sectors D (start_sector sb phys) block_data')
    on_txn D (Transaction.pin_block phys block_data')

  -- Phase 2 over the blocks of the map from `lb`.
  unfoldable pub write_parts : ℕ → List ℕ → ℕ → List ℕ → Writes (Unit {0})
  write_parts offset bytes lb [] = pure tt
  write_parts offset bytes lb (phys ∷ rest) = do
    let part = part_of sb.block_size offset bytes lb
    write_part phys part.0 part.1
    write_parts offset bytes (lb + 1) rest

  unfoldable pub write_file_data : ℕ → Inode → ℕ → List ℕ → Writes (Unit {0})
  write_file_data inode_num found offset bytes = elim (length bytes == 0) [
    | true ↦ pure tt
    | false ↦ do
      let first_lblock = offset / sb.block_size
      let last_lblock = (offset + length bytes - 1) / sb.block_size
      let total_lblocks = last_lblock - first_lblock + 1
      phys_map ←
          provide_loop inode_num found first_lblock total_lblocks first_lblock total_lblocks
            (replicate total_lblocks 0)
      write_parts offset bytes first_lblock phys_map
  ]
