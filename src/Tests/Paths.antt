-- ===== src/Tests/Paths.antt =====
-- A path on the small image, whose root has one entry.
use pengwin.Base.{ℕ, ◌==◌, ◌≡◌, refl, false, if◌then◌else◌, List, [], ◌∷◌, ◌++◌, replicate, ok}
use pengwin.Device.{read_loop, read_sectors}
use pengwin.GroupDesc.{get}
use pengwin.Inode.{is_dir, file_type, uses_extents, parse_raw, parse_live, read_inode}
use pengwin.Inode.Raw.{read_from}
use pengwin.Extent.{
  check_node, leaf_at, leaf_block, leaf_loop, look_in_node, lookup_in_node, lookup_block,
}
use pengwin.Extent.Leaves
use pengwin.Dir
use pengwin.Dir.{
  read_block, parse_record, parse_dirent, search_loop, search_block, block_count, dir_block,
  lookup_loop,
}
use pengwin.FsContext.{
  Ext4Fs, slash, split_from, components, inode, lookup, enter, step, resolve_components,
  resolve_path_with_hops, resolve_path,
}
use pengwin.FsContext.Resolve.{HasNoDotdot, resolve_path-append, resolve_path-HasNoDotdot}
use pengwin.Tests.Memory.{memory, read_memory, is_sector, all_bytes}
use pengwin.Tests.Image.{small_sb, small_sectors, small_gdt}

abbrev pub same : List ℕ → List ℕ
same name = name

-- Inode 2 with one extent, to block 10, where `a` is inode 11.
abbrev pub sectors : ℕ → List ℕ
sectors i =
    if i == 10
    then replicate 128 0
      ++ 0xED
        ∷ 0x41
        ∷ 0
        ∷ 0
        ∷ 0
        ∷ 4
        ∷ 0
        ∷ 0
        ∷ (replicate 24 0
            ++ 0
              ∷ 0
              ∷ 8
              ∷ 0
              ∷ 0
              ∷ 0
              ∷ 0
              ∷ 0
              ∷ 0x0A
              ∷ 0xF3
              ∷ 1
              ∷ 0
              ∷ 4
              ∷ 0
              ∷ 0
              ∷ 0
              ∷ 0
              ∷ 0
              ∷ 0
              ∷ 0
              ∷ 0
              ∷ 0
              ∷ 0
              ∷ 0
              ∷ 1
              ∷ 0
              ∷ 0
              ∷ 0
              ∷ 10
              ∷ 0
              ∷ 0
              ∷ 0
              ∷ replicate 320 0)
    else if i == 20
    then 11 ∷ 0 ∷ 0 ∷ 0 ∷ 0 ∷ 4 ∷ 1 ∷ 2 ∷ 97 ∷ replicate 503 0
    else small_sectors i

abbrev pub fs : Ext4Fs
fs = record {
  sb = small_sb;
  gdt = small_gdt;
  writer = record {
    write_head = 1;
    next_sequence = 1;
    journal_blocks = [];
    block_size = 1024;
    first_usable_block = 1;
    total_journal_blocks = 4;
    journal_uuid = [];
    csum_v3 = false;
  };
  is_read_only = false;
}

resolve_a : resolve_path same memory 2 sectors fs (slash ∷ 97 ∷ []) ≡ ok 11
unfolding resolve_path resolve_path_with_hops resolve_components step enter lookup inode components
    split_from Dir.lookup lookup_loop search_block search_loop dir_block block_count read_block
    parse_record parse_dirent Leaves.lookup lookup_block lookup_in_node look_in_node leaf_loop
    leaf_block leaf_at check_node uses_extents is_dir file_type read_inode parse_live parse_raw
    read_from get read_loop read_sectors read_memory is_sector all_bytes
resolve_a = refl

resolve_path-append_example :
    resolve_path same memory 2 sectors fs ((slash ∷ 97 ∷ []) ++ slash ∷ 98 ∷ [])
    ≡ resolve_components same memory 2 sectors fs
        ((slash ∷ 97 ∷ []) ++ slash ∷ 98 ∷ [])
        11
        (components (98 ∷ []))
resolve_path-append_example =
    resolve_path-append same memory 2 sectors fs (slash ∷ 97 ∷ []) (98 ∷ []) resolve_a

resolve_path-HasNoDotdot_example : HasNoDotdot (components (slash ∷ 97 ∷ []))
resolve_path-HasNoDotdot_example =
    resolve_path-HasNoDotdot same memory 2 sectors fs (slash ∷ 97 ∷ []) resolve_a
