-- ===== src/Dir/Write/Operations.antt =====
-- The operations of `ext4-core/src/dir_write.rs` on the blocks of a directory.
use pengwin.Base.{
  ℕ, zero, suc, ◌+◌, ◌*◌, ◌/◌, ◌^◌, Bool, true, false, not, ltb, leb, ◌==◌, Option, none, some,
  List, length, replicate, u16, u64, div_ceil, Outcome, ok, map_err, ensure, M, pure, throw, reads,
  map_fail,
}
use pengwin.Base.Fallible
use pengwin.Base.Stateful.{◌>>=◌, ◌>>◌}
use pengwin.Device.{BlockDevice, read_sectors}
use pengwin.Superblock.{Superblock}
use pengwin.Journal.Transaction
use pengwin.Journal.Transaction.{pinned}
use pengwin.WriteState.{WriteState, on_txn}
use pengwin.Inode.{Inode, file_type, read_inode, read_inode_with_txn}
use pengwin.Inode.Write.{with_size, update_inode}
use pengwin.Alloc.Blocks.{alloc_blocks}
use pengwin.Extent.Leaves.{lookup}
use pengwin.Extent.Write.Append.{extent_append}
use pengwin.Dir.{max_dir_blocks}
use pengwin.Dir.Write.{
  DirWriteError, already_exists, not_found, name_too_long, inode_write, alloc, block_device, inode,
  extent, extent_write, block_number_overflow, size_too_large, write_dirent, try_insert_in_block,
  scan, lookup_test, exists_test, other_test, remove_loop,
}

-- `fuel` bounds the descent of the extent trees.
module _ (D : BlockDevice) (sb : Superblock) (fuel : ℕ) where
  abbrev pub Dirs : Type 0 → Type 0
  Dirs A = M (WriteState D) DirWriteError A

  unfoldable pub read_block : ℕ → WriteState D → Outcome DirWriteError (List ℕ)
  read_block block s =
      let sectors_per_block = sb.block_size / 512 in
      Fallible.◌>>◌ (ensure (ltb (block * sectors_per_block) (2 ^ 64)) block_number_overflow)
        (map_err block_device (read_sectors D s.dev (block * sectors_per_block) sectors_per_block))

  unfoldable pub look : Inode → ℕ → WriteState D → Outcome DirWriteError (Option ℕ)
  look dir lblock s = map_err extent (lookup D s.dev sb fuel dir lblock)

  unfoldable pub count_blocks : Inode → Outcome DirWriteError ℕ
  count_blocks dir =
      let count = div_ceil dir.size sb.block_size in
      Fallible.◌>>◌ (ensure (leb count max_dir_blocks) size_too_large) (ok count)

  -- The blocks from `lblock`, with `n` left, up to the first for which `f` has an answer.
  unfoldable pub walk_loop :
      {T : Type 0}
      → (ℕ → List ℕ → Outcome DirWriteError (Option T))
      → Inode
      → ℕ
      → ℕ
      → WriteState D
      → Outcome DirWriteError (Option T)
  walk_loop f dir lblock zero s = ok none
  walk_loop f dir lblock (suc n) s = Fallible.◌>>=◌ (look dir lblock s) λ phys.
      Fallible.◌>>=◌
        (elim phys [
          | none ↦ ok none
          | some phys_block ↦ Fallible.◌>>=◌ (read_block phys_block s) (f phys_block)
        ])
        λ found. elim found [ some r ↦ ok (some r) | none ↦ walk_loop f dir (lblock + 1) n s ]

  unfoldable pub walk_dir_blocks :
      {T : Type 0}
      → (ℕ → List ℕ → Outcome DirWriteError (Option T))
      → ℕ
      → WriteState D
      → Outcome DirWriteError (Option T)
  walk_dir_blocks f dir_inode_num s =
      Fallible.◌>>=◌ (map_err inode (read_inode D s.dev sb s.gdt dir_inode_num))
        λ dir. Fallible.◌>>=◌ (count_blocks dir) λ count. walk_loop f dir 0 count s

  unfoldable pub dir_lookup_entry :
      ℕ → List ℕ → WriteState D → Outcome DirWriteError (Option (ℕ × ℕ))
  dir_lookup_entry dir_inode_num name =
      walk_dir_blocks (λ _ block_data. scan (lookup_test block_data name) block_data) dir_inode_num

  unfoldable pub dir_is_empty : ℕ → WriteState D → Outcome DirWriteError Bool
  dir_is_empty dir_inode_num s =
      Fallible.◌>>=◌
        (walk_dir_blocks (λ _ block_data. scan (other_test block_data) block_data) dir_inode_num s)
        λ non_dot. ok (elim non_dot [ none ↦ true | some _ ↦ false ])

  -- The latest pin of the block unless it is empty, or what the device holds.
  unfoldable pub insertable_block : ℕ → WriteState D → Outcome DirWriteError (List ℕ)
  insertable_block block s = elim (pinned s.txn block) [
    | none ↦ read_block block s
    | some bytes ↦ elim (length bytes == 0) [ true ↦ read_block block s | false ↦ ok bytes ]
  ]

  -- The latest pin of the block, or what the device holds, which is read in both cases.
  unfoldable pub removable_block : ℕ → WriteState D → Outcome DirWriteError (List ℕ)
  removable_block block s =
      Fallible.◌>>=◌ (read_block block s)
        λ stored. ok (elim (pinned s.txn block) [ some bytes ↦ bytes | none ↦ stored ])

  -- Whether the entry went into one of the blocks from `lblock`, with `n` left.
  unfoldable pub insert_in_blocks : Inode → List ℕ → ℕ → ℕ → ℕ → ℕ → Dirs Bool
  insert_in_blocks dir name child_inode_num file_type lblock zero = pure false
  insert_in_blocks dir name child_inode_num file_type lblock (suc n) = do
    phys ← reads (look dir lblock)
    elim phys [
      | none ↦ insert_in_blocks dir name child_inode_num file_type (lblock + 1) n
      | some phys_block ↦ do
        block_data ← reads (insertable_block phys_block)
        inserted ← reads (λ s. try_insert_in_block block_data name child_inode_num file_type)
        elim inserted [
          | some b ↦ do on_txn D (Transaction.pin_block phys_block b); pure true
          | none ↦ insert_in_blocks dir name child_inode_num file_type (lblock + 1) n
        ]
    ]

  -- The block of the last entries, near which a new block is asked for.
  unfoldable pub block_hint : Inode → ℕ → WriteState D → Outcome DirWriteError ℕ
  block_hint dir zero s = ok 0
  block_hint dir (suc last_lblock) s =
      Fallible.◌>>=◌ (look dir last_lblock s)
        λ found. ok (elim found [ some block ↦ block | none ↦ 0 ])

  -- A new block that the entry fills.
  unfoldable pub insert_in_new_block : ℕ → Inode → ℕ → List ℕ → ℕ → ℕ → Dirs (Unit {0})
  insert_in_new_block dir_inode_num dir block_count name child_inode_num file_type = do
    hint ← reads (block_hint dir block_count)
    new_phys_block ← map_fail alloc (alloc_blocks D sb 1 hint)
    new_block ← reads (λ s.
        write_dirent (replicate sb.block_size 0) 0 child_inode_num name file_type
          (u16 sb.block_size))
    on_txn D (Transaction.pin_block new_phys_block new_block)
    map_fail extent_write (extent_append D sb dir_inode_num new_phys_block 1)
    map_fail inode_write
        (update_inode D sb dir_inode_num (with_size (u64 (dir.size + sb.block_size))))

  unfoldable pub dir_insert_entry : ℕ → List ℕ → ℕ → ℕ → Dirs (Unit {0})
  dir_insert_entry dir_inode_num name child_inode_num file_type = do
    dir ← reads (λ s. map_err inode (read_inode_with_txn D s.dev sb s.gdt s.txn dir_inode_num))
    block_count ← reads (λ s. count_blocks dir)
    inserted ← insert_in_blocks dir name child_inode_num file_type 0 block_count
    elim inserted [
      | true ↦ pure tt
      | false ↦ insert_in_new_block dir_inode_num dir block_count name child_inode_num file_type
    ]

  -- An entry of this name that the device holds.
  unfoldable pub existing : ℕ → List ℕ → WriteState D → Outcome DirWriteError (Option (Unit {0}))
  existing dir_inode_num name =
      walk_dir_blocks (λ _ block_data. scan (exists_test block_data name) block_data) dir_inode_num

  unfoldable pub dir_add_entry : ℕ → List ℕ → ℕ → ℕ → Dirs (Unit {0})
  dir_add_entry dir_inode_num name child_inode_num file_type = do
    reads (λ s. ensure (not (ltb 255 (length name))) name_too_long)
    found ← reads (existing dir_inode_num name)
    elim found [
      | some _ ↦ throw (already_exists name)
      | none ↦ dir_insert_entry dir_inode_num name child_inode_num file_type
    ]

  unfoldable pub remove_in_blocks : Inode → List ℕ → ℕ → ℕ → Dirs ℕ
  remove_in_blocks dir name lblock zero = throw (not_found name)
  remove_in_blocks dir name lblock (suc n) = do
    phys ← reads (look dir lblock)
    elim phys [
      | none ↦ remove_in_blocks dir name (lblock + 1) n
      | some phys_block ↦ do
        block_data ← reads (removable_block phys_block)
        found ← reads (λ s. remove_loop block_data name (suc (length block_data)) 0 none)
        elim found [
          | some r ↦ do on_txn D (Transaction.pin_block phys_block r.1); pure r.0
          | none ↦ remove_in_blocks dir name (lblock + 1) n
        ]
    ]

  unfoldable pub dir_remove_entry : ℕ → List ℕ → Dirs ℕ
  dir_remove_entry dir_inode_num name = do
    dir ← reads (λ s. map_err inode (read_inode_with_txn D s.dev sb s.gdt s.txn dir_inode_num))
    block_count ← reads (λ s. count_blocks dir)
    remove_in_blocks dir name 0 block_count
