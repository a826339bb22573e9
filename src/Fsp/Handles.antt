-- ===== src/Fsp/Handles.antt =====
-- `pengwin/src/fsp_impl/rename.rs`, `write_file.rs` and `set_file_size.rs`. The inode that the
-- source turns into the driver's file information at the end is the result here; the name of a
-- path is its bytes behind `to_string_lossy` and `replace`.
use pengwin.Base.{
  ℕ, ◌+◌, Bool, true, false, not, ◌&&◌, ltb, ◌==◌, max, none, some, List, [], ◌∷◌, length, u32, u64,
  div_ceil, Outcome, ok, err, ok_or, ensure, M, pure, reads, zoom, map_err, map_fail, ◌||◌,
  if◌then◌else◌,
}
use pengwin.Base.Stateful.{◌>>=◌, ◌>>◌}
use pengwin.Device.{BlockDevice}
use pengwin.Superblock.{Superblock}
use pengwin.Superblock.Write.{update_superblock}
use pengwin.GroupDesc.{GroupDesc}
use pengwin.WriteState.{WriteState}
use pengwin.Inode.{Inode}
use pengwin.Inode.Write.{InodeUpdate, with_size, update_inode}
use pengwin.Journal.Writer.{begin_transaction, commit, Log}
use pengwin.Extent.Write.Truncate.{extent_truncate}
use pengwin.File.Write.{write_file_data}
use pengwin.Dir.Write.Rename.{dir_rename}
use pengwin.FsContext
use pengwin.FsContext.{Ext4Fs, resolve_path, lookup}
use pengwin.Fsp.{split_path}

-- The codes that the driver is given.
pub data NtStatus : Type 0 where
  media_write_protected object_name_invalid object_path_not_found object_name_collision : NtStatus
  invalid_device_request disk_full internal_error : NtStatus

-- `FileHandle` without the directory buffer and the link's target.
pub data FileHandle : Type 0 where
  file directory symlink : ℕ → Inode → FileHandle

-- `Ext4Fs`, its device with it.
pub record Mounted (D : BlockDevice) : Type 0 where
  pub dev : D.Dev
  pub fs : Ext4Fs

unfoldable pub file_inode_num : FileHandle → Outcome NtStatus ℕ
file_inode_num (file inode_num _) = ok inode_num
file_inode_num (directory _ _) = err invalid_device_request
file_inode_num (symlink _ _) = err invalid_device_request

unfoldable pub free_blocks : List GroupDesc → ℕ
free_blocks [] = 0
free_blocks (g ∷ groups) = g.free_blocks_count + free_blocks groups

unfoldable pub free_inodes : List GroupDesc → ℕ
free_inodes [] = 0
free_inodes (g ∷ groups) = g.free_inodes_count + free_inodes groups

unfoldable pub timed : ℕ → ℕ → InodeUpdate
timed now size = record (with_size size) { mtime = some now; ctime = some now }

module _ (lossy : List ℕ → List ℕ) (D : BlockDevice) (depth now : ℕ) where
  abbrev pub Callback : Type 0 → Type 0
  Callback A = M (Mounted D) NtStatus A

  abbrev opened : Mounted D → WriteState D
  opened s = record { dev = s.dev; gdt = s.fs.gdt; txn = begin_transaction s.fs.writer }

  abbrev kept : WriteState D → Mounted D → Mounted D
  kept t s = record s { dev = t.dev; fs = record s.fs { gdt = t.gdt } }

  abbrev log : Mounted D → Log D
  log s = record { dev = s.dev; writer = s.fs.writer }

  abbrev logged : Log D → Mounted D → Mounted D
  logged l s = record s { dev = l.dev; fs = record s.fs { writer = l.writer } }

  -- The transaction of the writer, the body on it, and the commit; a body that fails leaves what
  -- it did to the device and to the table, and its transaction is dropped.
  unfoldable pub transact : {A : Type 0} → M (WriteState D) NtStatus A → Callback A
  transact body = do
    (a, txn) ←
        zoom opened kept (λ e. e)
          (do a ← body; txn ← reads (λ (t : WriteState D). ok t.txn); pure (a, txn))
    zoom log logged (λ e. internal_error) (commit D txn)
    pure a

  unfoldable pub current_inode : ℕ → Callback Inode
  current_inode inode_num =
      reads
        (λ s. map_err (λ e. internal_error) (FsContext.inode lossy D depth s.dev s.fs inode_num))

  unfoldable pub refuse_read_only : Callback (Unit {0})
  refuse_read_only = reads (λ s. ensure (not s.fs.is_read_only) media_write_protected)

  unfoldable pub resolve : List ℕ → Callback ℕ
  resolve path =
      reads (λ s. map_err (λ e. object_path_not_found) (resolve_path lossy D depth s.dev s.fs path))

  -- The counts of the table go to the superblock.
  unfoldable pub save_counts : Superblock → M (WriteState D) NtStatus (Unit {0})
  save_counts sb = do
    gdt ← reads (λ s. ok s.gdt)
    map_fail (λ e. internal_error)
        (update_superblock D sb (free_blocks gdt.groups) (u32 (free_inodes gdt.groups)) now)

  unfoldable pub save_size : Superblock → ℕ → ℕ → M (WriteState D) NtStatus (Unit {0})
  save_size sb inode_num size =
      map_fail (λ e. internal_error) (update_inode D sb inode_num (timed now size))

  unfoldable pub rename_handle : List ℕ → List ℕ → Bool → Callback (Unit {0})
  rename_handle src dst replace_if_exists = do
    refuse_read_only
    (src_parent, src_name) ← reads (λ s. ok_or object_name_invalid (split_path src))
    (dst_parent, dst_name) ← reads (λ s. ok_or object_name_invalid (split_path dst))
    dst_parent_num ← resolve dst_parent
    dst_parent_inode ← current_inode dst_parent_num
    found ← reads (λ s.
        map_err (λ e. internal_error) (lookup lossy D depth s.dev s.fs dst_parent_inode dst_name))
    reads (λ s.
        ensure (elim found [ none ↦ true | some _ ↦ replace_if_exists ]) object_name_collision)
    src_parent_num ← resolve src_parent
    sb ← reads (λ s. ok s.fs.sb)
    transact (
        map_fail (λ e. internal_error)
          (dir_rename D sb depth src_parent_num src_name dst_parent_num dst_name))

  -- The file grows by its size only; blocks come with what is written.
  unfoldable pub set_file_size_cb : FileHandle → ℕ → Callback Inode
  set_file_size_cb context new_size = do
    refuse_read_only
    inode_num ← reads (λ s. file_inode_num context)
    inode ← current_inode inode_num
    sb ← reads (λ s. ok s.fs.sb)
    transact (do
      elim (ltb new_size inode.size) [
        | true ↦
            map_fail (λ e. internal_error)
              (extent_truncate D sb inode_num (u32 (div_ceil new_size sb.block_size)))
        | false ↦ pure tt
      ]
      save_size sb inode_num new_size
      save_counts sb)
    current_inode inode_num

  -- The write at its offset: the bytes written, with the inode. The test for constrained writes
  -- stands before the transaction, which changes nothing until then.
  unfoldable pub write_at : ℕ → Inode → List ℕ → ℕ → Bool → Superblock → Callback (ℕ × Inode)
  write_at inode_num inode buffer write_offset constrained_io sb =
      let end = u64 (write_offset + length buffer) in
      elim (length buffer == 0 || constrained_io && ltb inode.size end) [
        | true ↦ pure (0, inode)
        | false ↦ do
          transact (do
            map_fail (λ e. disk_full)
                (write_file_data D sb depth inode_num inode write_offset buffer)
            save_size sb inode_num (max end inode.size)
            save_counts sb)
          updated ← current_inode inode_num
          pure (u32 (length buffer), updated)
      ]

  unfoldable pub write_file_data_cb : FileHandle → List ℕ → ℕ → Bool → Bool → Callback (ℕ × Inode)
  write_file_data_cb context buffer offset write_to_eof constrained_io = do
    refuse_read_only
    inode_num ← reads (λ s. file_inode_num context)
    inode ← current_inode inode_num
    sb ← reads (λ s. ok s.fs.sb)
    write_at inode_num inode buffer (if write_to_eof then inode.size else offset) constrained_io sb
