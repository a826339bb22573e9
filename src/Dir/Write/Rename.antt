-- ===== src/Dir/Write/Rename.antt =====
-- `dir_rename` and `hard_link` of `ext4-core/src/dir_write.rs`.
use pengwin.Base.{
  ℕ, ◌+◌, ◌-◌, Bool, true, false, not, ◌&&◌, ltb, ◌==◌, min, none, some, List, length, u16,
  div_ceil, Outcome, ok, map_err, ensure, ok_or, pure, reads, map_fail,
}
use pengwin.Base.Fallible
use pengwin.Base.Stateful.{◌>>=◌, ◌>>◌}
use pengwin.Device.{BlockDevice}
use pengwin.Superblock.{Superblock}
use pengwin.Journal.Transaction
use pengwin.Journal.Transaction.{pinned}
use pengwin.WriteState.{WriteState, on_txn}
use pengwin.Inode.{Inode, FileType, directory, regular, symlink, other, file_type, read_inode}
use pengwin.Inode.Write.{with_links_count, update_inode}
use pengwin.Dir.{max_dir_blocks}
use pengwin.Dir.Write.{
  DirWriteError, not_found, not_empty, hard_link_to_directory, too_many_links, name_too_long,
  inode_write, inode, scan, dotdot_test,
}
use pengwin.Dir.Write.Operations.{
  Dirs, walk_loop, dir_lookup_entry, dir_is_empty, dir_insert_entry, dir_add_entry,
  dir_remove_entry,
}

abbrev pub is_directory : FileType → Bool
is_directory directory = true
is_directory regular = false
is_directory symlink = false
is_directory other = false

-- `dir_file_type::{REG_FILE, SYMLINK, UNKNOWN}`.
abbrev pub link_type : FileType → ℕ
link_type regular = 1
link_type symlink = 7
link_type directory = 0
link_type other = 0

module _ (D : BlockDevice) (sb : Superblock) (fuel : ℕ) where
  -- No error when the directory has no `..`; an overlong directory is looked at in part.
  unfoldable pub update_dotdot : ℕ → ℕ → Dirs D sb fuel (Unit {0})
  update_dotdot dir_inode_num new_parent_inode = do
    dir ← reads (λ s. map_err inode (read_inode D s.dev sb s.gdt dir_inode_num))
    found ← reads (
        walk_loop D sb fuel {T = ℕ × List ℕ}
          (λ phys_block block_data.
            Fallible.◌>>=◌ (scan (dotdot_test block_data new_parent_inode) block_data)
              λ b. ok (elim b [ none ↦ none | some b' ↦ some (phys_block, b') ]))
          dir 0 (min (div_ceil dir.size sb.block_size) max_dir_blocks))
    elim found [ none ↦ pure tt | some r ↦ on_txn D (Transaction.pin_block r.0 r.1) ]

  -- The inode that the new name stood for: its entry goes, and a file has one link less.
  unfoldable pub replace_target : ℕ → List ℕ → ℕ → Dirs D sb fuel (Unit {0})
  replace_target dst_dir_inode dst_name dst_inode_num = do
    dst_inode ← reads (λ s. map_err inode (read_inode D s.dev sb s.gdt dst_inode_num))
    elim (is_directory (file_type dst_inode)) [
      | true ↦ do
        empty ← reads (dir_is_empty D sb fuel dst_inode_num)
        reads (λ s. ensure empty not_empty)
        _ ← dir_remove_entry D sb fuel dst_dir_inode dst_name
        pure tt
      | false ↦ do
        _ ← dir_remove_entry D sb fuel dst_dir_inode dst_name
        elim (ltb 1 dst_inode.links_count) [
          | true ↦
              map_fail inode_write
                (update_inode D sb dst_inode_num (with_links_count (dst_inode.links_count - 1)))
          | false ↦ pure tt
        ]
    ]

  unfoldable pub dir_rename : ℕ → List ℕ → ℕ → List ℕ → Dirs D sb fuel (Unit {0})
  dir_rename src_dir_inode src_name dst_dir_inode dst_name = do
    (src_inode_num, src_file_type) ← reads (λ s.
        Fallible.◌>>=◌ (dir_lookup_entry D sb fuel src_dir_inode src_name s)
          (ok_or (not_found src_name)))
    src_inode ← reads (λ s. map_err inode (read_inode D s.dev sb s.gdt src_inode_num))
    target ← reads (dir_lookup_entry D sb fuel dst_dir_inode dst_name)
    elim target [ none ↦ pure tt | some entry ↦ replace_target dst_dir_inode dst_name entry.0 ]
    dir_insert_entry D sb fuel dst_dir_inode dst_name src_inode_num src_file_type
    _ ← dir_remove_entry D sb fuel src_dir_inode src_name
    elim (is_directory (file_type src_inode) && not (src_dir_inode == dst_dir_inode)) [
      | true ↦ update_dotdot src_inode_num dst_dir_inode
      | false ↦ pure tt
    ]

  -- What `hard_link` refuses, or the inode to link to.
  unfoldable pub linkable : ℕ → List ℕ → WriteState D → Outcome DirWriteError Inode
  linkable target_inode_num link_name s =
      Fallible.◌>>◌ (ensure (not (ltb 255 (length link_name))) name_too_long) (
        Fallible.◌>>=◌ (map_err inode (read_inode D s.dev sb s.gdt target_inode_num)) λ target.
          Fallible.◌>>◌ (ensure (not (is_directory (file_type target))) hard_link_to_directory)
            (Fallible.◌>>◌ (ensure (ltb target.links_count 65000) too_many_links) (ok target)))

  unfoldable pub hard_link : ℕ → ℕ → List ℕ → Dirs D sb fuel (Unit {0})
  hard_link target_inode_num dst_dir_inode link_name = do
    target ← reads (linkable target_inode_num link_name)
    dir_add_entry D sb fuel dst_dir_inode link_name target_inode_num (link_type (file_type target))
    map_fail inode_write
        (update_inode D sb target_inode_num (with_links_count (u16 (target.links_count + 1))))
