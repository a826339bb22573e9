-- ===== src/Tests/Directories.antt =====
-- Directories on the small image.
use pengwin.Base.{
  ℕ, ◌≡◌, ◌≢◌, refl, arith, ◌==◌, if◌then◌else◌, List, [], ◌∷◌, replicate, some, ok, panic,
}
use pengwin.Device.{read_loop, read_sectors}
use pengwin.Inode.{Inode, is_dir, file_type, uses_extents}
use pengwin.Extent.{
  check_node, leaf_at, leaf_block, leaf_loop, look_in_node, lookup_in_node, lookup_block,
}
use pengwin.Extent.Leaves
use pengwin.Dir.{
  DirEntry, DirError, read_block, parse_record, parse_dirent, entries_loop, parse_block_entries,
  block_count, dir_block, read_dir_loop, read_dir, lookup,
}
use pengwin.Dir.Scan.{find_named, parse_block_entries-ne_panic}
use pengwin.Dir.Lookup.{lookup-read_dir}
use pengwin.Dir.Write.{dirent_bytes, write_dirent}
use pengwin.Dir.Write.Records.{parse_dirent-write_dirent}
use pengwin.Tests.Memory.{memory, read_memory, is_sector, all_bytes}
use pengwin.Tests.Image.{small_sb, small_sectors}

-- ASCII names are kept.
abbrev same : List ℕ → List ℕ
same name = name

-- Inode 1 is a directory, whose block 10 has the entries `a`, a deleted one, and `bc`.
abbrev sectors : ℕ → List ℕ
sectors i =
    if i == 10
    then 0xED ∷ 0x41 ∷ replicate 510 0
    else if i == 20
    then 11
      ∷ 0
      ∷ 0
      ∷ 0
      ∷ 12
      ∷ 0
      ∷ 1
      ∷ 2
      ∷ 97
      ∷ 0
      ∷ 0
      ∷ 0
      ∷ 0
      ∷ 0
      ∷ 0
      ∷ 0
      ∷ 12
      ∷ 0
      ∷ 1
      ∷ 1
      ∷ 98
      ∷ 0
      ∷ 0
      ∷ 0
      ∷ 12
      ∷ 0
      ∷ 0
      ∷ 0
      ∷ 0xE8
      ∷ 3
      ∷ 2
      ∷ 1
      ∷ 98
      ∷ 99
      ∷ replicate 478 0
    else small_sectors i

abbrev dir : Inode
dir = record {
  mode = 0x41ED;
  uid = 0;
  gid = 0;
  size = 1024;
  atime = 0;
  mtime = 0;
  ctime = 0;
  links_count = 2;
  flags = 0x80000;
  block_data =
      0x0A
      ∷ 0xF3
      ∷ 1
      ∷ 0
      ∷ 4
      ∷ 0
      ∷ 0
      ∷ 0
      ∷ 0
      ∷ 0
      ∷ 0
      ∷ 0
      ∷ 0
      ∷ 0
      ∷ 0
      ∷ 0
      ∷ 1
      ∷ 0
      ∷ 0
      ∷ 0
      ∷ 10
      ∷ 0
      ∷ 0
      ∷ 0
      ∷ replicate 36 0;
}

abbrev entries : List DirEntry
entries =
    record { inode_num = 11; name = 97 ∷ []; file_type = 2 }
    ∷ record { inode_num = 12; name = 98 ∷ 99 ∷ []; file_type = 1 }
    ∷ []

two_entries : read_dir same memory sectors small_sb 2 dir ≡ ok entries
unfolding read_dir read_dir_loop parse_block_entries entries_loop parse_dirent parse_record
    dir_block block_count read_block Leaves.lookup lookup_block lookup_in_node look_in_node
    leaf_loop leaf_block leaf_at check_node uses_extents is_dir file_type read_loop read_sectors
    read_memory is_sector all_bytes
two_entries = refl

lookup-read_dir_example :
    lookup same memory sectors small_sb 2 dir (98 ∷ 99 ∷ [])
    ≡ ok (find_named (98 ∷ 99 ∷ []) entries)
lookup-read_dir_example =
    lookup-read_dir same memory sectors small_sb 2 dir (98 ∷ 99 ∷ []) two_entries

parse_block_entries-ne_panic_example :
    parse_block_entries same (11 ∷ 0 ∷ 0 ∷ 0 ∷ 0 ∷ 0 ∷ 1 ∷ 2 ∷ []) [] ≢ panic
parse_block_entries-ne_panic_example =
    parse_block_entries-ne_panic same (11 ∷ 0 ∷ 0 ∷ 0 ∷ 0 ∷ 0 ∷ 1 ∷ 2 ∷ []) []

abbrev written : List ℕ
written = 0 ∷ 0 ∷ 0 ∷ 0 ∷ 7 ∷ 0 ∷ 0 ∷ 0 ∷ 12 ∷ 0 ∷ 2 ∷ 1 ∷ 98 ∷ 99 ∷ 0 ∷ 0 ∷ []

write_entry : write_dirent {E = DirError} (replicate 16 0) 4 7 (98 ∷ 99 ∷ []) 1 12 ≡ ok written
unfolding write_dirent dirent_bytes
write_entry = refl

parse_dirent-write_dirent_example :
    parse_dirent same written 4
    ≡ ok (some (record { inode_num = 7; name = 98 ∷ 99 ∷ []; file_type = 1 }, 12))
parse_dirent-write_dirent_example =
    parse_dirent-write_dirent same (replicate 16 0) 4 7 (98 ∷ 99 ∷ []) 1 12 (λ e. omega arith)
      (omega arith) (omega arith) (omega arith) (omega arith) (omega arith) write_entry
