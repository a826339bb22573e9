-- ===== src/Extent/Write/Append.antt =====
-- `extent_append` of `ext4-core/src/extent_write.rs`, with the splitting of a leaf and the growth
-- of the tree.
use pengwin.Base.{
  ℕ, zero, suc, ◌+◌, ◌-◌, ◌*◌, ◌/◌, Bool, true, false, not, ltb, leb, ◌==◌, List, ◌++◌, length,
  slice, replicate, Outcome, ok, map_err, ensure, assert, pure, reads, map_fail,
}
use pengwin.Base.Fallible
use pengwin.Base.Stateful.{◌>>=◌, ◌>>◌}
use pengwin.Device.{BlockDevice}
use pengwin.Superblock.{Superblock}
use pengwin.WriteState.{WriteState, copy_at}
use pengwin.Inode.{read_inode, uses_extents}
use pengwin.Inode.Raw.{RawInode}
use pengwin.Alloc.Blocks.{alloc_blocks}
use pengwin.Extent.{ExtentLeaf, ExtentHeader, leaf_at, idx_at, idx_child}
use pengwin.Extent.Write.{
  ExtentWriteError, not_extent_based, corrupt_tree, alloc, inode, Extents, parse_header,
  inode_location, read_block, write_block, current_block, read_raw_inode_at_with_txn,
  flush_raw_inode,
}
use pengwin.Extent.Write.Nodes.{
  tree_max_depth, root_max_entries, leaf_max_entries, make_header, header_bytes, make_leaf_entry,
  leaf_bytes, make_idx_entry, idx_bytes, next_logical_block, update_iblocks, push_entry,
  coalesce_last, try_coalesce_root_leaf, add_idx_to_root,
}

-- The child of the last index entry of a node.
unfoldable pub last_child : List ℕ → Outcome ExtentWriteError ℕ
last_child node_data = Fallible.◌>>=◌ (parse_header node_data 0) λ hdr.
    Fallible.◌>>◌ (ensure (not (hdr.eh_entries == 0)) (corrupt_tree 0)) (
      Fallible.◌>>◌ (assert (leb (12 + hdr.eh_entries * 12) (length node_data)))
        (ok (idx_child (idx_at node_data (hdr.eh_entries - 1)))))

-- The upper half of the entries of a full leaf, as a block of its own, and the leaf that is left,
-- whose header alone changes.
unfoldable pub split_leaf : ℕ → List ℕ → ExtentHeader → Outcome ExtentWriteError (List ℕ × List ℕ)
split_leaf block_size old_data hdr =
    let entries = hdr.eh_entries in
    let split_at = entries / 2 in
    let new_entries = entries - split_at in
    Fallible.◌>>=◌
      (copy_at (replicate block_size 0) 0 (header_bytes (make_header new_entries hdr.eh_max 0)))
      λ with_header. Fallible.◌>>◌ (assert (leb (12 + entries * 12) (length old_data))) (
        Fallible.◌>>=◌
          (copy_at with_header 12 (slice old_data (12 + split_at * 12) (new_entries * 12)))
          λ new_data.
            Fallible.◌>>=◌ (copy_at old_data 0 (header_bytes (make_header split_at hdr.eh_max 0)))
              λ old_data'. ok (old_data', new_data))

-- The block that takes over the entries of the root.
unfoldable pub grown_child : ℕ → List ℕ → ExtentHeader → Outcome ExtentWriteError (List ℕ)
grown_child block_size root hdr =
    Fallible.◌>>=◌
      (copy_at (replicate block_size 0) 0
        (header_bytes (make_header hdr.eh_entries (leaf_max_entries block_size) hdr.eh_depth)))
      λ with_header.
        Fallible.◌>>◌ (assert (leb (12 + hdr.eh_entries * 12) (length root)))
          (copy_at with_header 12 (slice root 12 (hdr.eh_entries * 12)))

-- The root over one child.
unfoldable pub grown_root : ℕ → ℕ → List ℕ
grown_root depth new_block =
    header_bytes (make_header 1 root_max_entries (depth + 1))
    ++ idx_bytes (make_idx_entry 0 new_block)
    ++ replicate 36 0

module _ (D : BlockDevice) (sb : Superblock) where
  -- Down the last children, from a node of depth `n + 1`.
  unfoldable pub find_rightmost_leaf : ℕ → List ℕ → Extents D sb ℕ
  find_rightmost_leaf zero node_data = reads (λ s. last_child node_data)
  find_rightmost_leaf (suc n) node_data = do
    child_phys ← reads (λ s. last_child node_data)
    child_data ← reads (read_block D sb child_phys)
    find_rightmost_leaf n child_data

  unfoldable pub logical_next_in_leaf : ℕ → Extents D sb ℕ
  logical_next_in_leaf leaf_phys = do
    bytes ← reads (read_block D sb leaf_phys)
    reads (λ s. next_logical_block bytes)

  unfoldable pub try_coalesce_leaf_block : ℕ → ℕ → ℕ → Extents D sb Bool
  try_coalesce_leaf_block leaf_phys phys_start block_count = do
    leaf_data ← reads (current_block D sb leaf_phys)
    hdr ← reads (λ s. parse_header leaf_data leaf_phys)
    (longer, leaf_data') ←
        reads (λ s. coalesce_last leaf_data hdr.eh_entries phys_start block_count)
    elim longer [ false ↦ pure false | true ↦ do write_block D sb leaf_phys leaf_data'; pure true ]

  -- The new block and the root.
  unfoldable pub extent_leaf_split : ℕ → ℕ → List ℕ → Extents D sb (ℕ × List ℕ)
  extent_leaf_split leaf_block inode_hint root_data = do
    old_data ← reads (read_block D sb leaf_block)
    hdr ← reads (λ s. parse_header old_data leaf_block)
    new_block ← map_fail alloc (alloc_blocks D sb 1 inode_hint)
    (old_data', new_data) ← reads (λ s. split_leaf sb.block_size old_data hdr)
    write_block D sb leaf_block old_data'
    write_block D sb new_block new_data
    reads (λ s. Fallible.◌>>◌ (assert (leb 24 (length new_data))) (
        Fallible.◌>>=◌ (add_idx_to_root root_data (leaf_at new_data 0).ee_block new_block)
          λ root. ok (new_block, root)))

  -- One more leaf in the block at `block`, if its node has room.
  unfoldable pub append_if_room : ℕ → List ℕ → ExtentHeader → ExtentLeaf → Extents D sb (Unit {0})
  append_if_room block node hdr new_leaf = elim (ltb hdr.eh_entries hdr.eh_max) [
    | false ↦ pure tt
    | true ↦ do
      node' ← reads (λ s. push_entry node (leaf_bytes new_leaf) hdr.eh_entries hdr.eh_max 0)
      write_block D sb block node'
  ]

  -- The root after it.
  unfoldable pub append_to_leaf_block : ℕ → ℕ → ExtentLeaf → List ℕ → Extents D sb (List ℕ)
  append_to_leaf_block inode_hint leaf_phys new_leaf root_data = do
    leaf_data ← reads (read_block D sb leaf_phys)
    hdr ← reads (λ s. parse_header leaf_data leaf_phys)
    elim (ltb hdr.eh_entries hdr.eh_max) [
      | true ↦ do append_if_room leaf_phys leaf_data hdr new_leaf; pure root_data
      | false ↦ do
        (new_block, root) ← extent_leaf_split leaf_phys inode_hint root_data
        new_leaf_data ← reads (read_block D sb new_block)
        hdr2 ← reads (λ s. parse_header new_leaf_data new_block)
        append_if_room new_block new_leaf_data hdr2 new_leaf
        pure root
    ]

  -- The inode's entries move to a new block.
  unfoldable pub extent_tree_grow : ℕ → ℕ → ℕ → RawInode → Extents D sb RawInode
  extent_tree_grow inode_num table_block inode_off raw = do
    hdr ← reads (λ s. parse_header raw.i_block 0)
    reads (λ s. assert (ltb hdr.eh_depth tree_max_depth))
    new_block ← map_fail alloc (alloc_blocks D sb 1 inode_num)
    child_data ← reads (λ s. grown_child sb.block_size raw.i_block hdr)
    write_block D sb new_block child_data
    let raw' = record raw { i_block = grown_root hdr.eh_depth new_block }
    flush_raw_inode D sb table_block inode_off raw'
    pure raw'

  -- The counter of the inode, and the inode.
  unfoldable pub finish_append : ℕ → ℕ → ℕ → RawInode → Extents D sb (Unit {0})
  finish_append table_block inode_off block_count raw =
      flush_raw_inode D sb table_block inode_off (update_iblocks raw sb block_count)

  -- A new leaf in the inode, or, when that is full, in the block that the tree grows by.
  unfoldable pub append_to_root :
      ℕ → ℕ → ℕ → RawInode → ExtentHeader → ℕ → ℕ → Extents D sb RawInode
  append_to_root inode_num table_block inode_off raw hdr phys_start block_count = do
    logical ← reads (λ s. next_logical_block raw.i_block)
    let new_leaf = make_leaf_entry logical block_count phys_start
    elim (ltb hdr.eh_entries hdr.eh_max) [
      | true ↦ do
        i_block ←
            reads (λ s. push_entry raw.i_block (leaf_bytes new_leaf) hdr.eh_entries hdr.eh_max 0)
        pure (record raw { i_block = i_block })
      | false ↦ do
        raw' ← extent_tree_grow inode_num table_block inode_off raw
        child_phys ← reads (λ s. last_child raw'.i_block)
        root ← append_to_leaf_block inode_num child_phys new_leaf raw'.i_block
        pure (record raw' { i_block = root })
    ]

  -- The two kinds of tree, once the inode is read.
  unfoldable pub append_flat : ℕ → ℕ → ℕ → RawInode → ExtentHeader → ℕ → ℕ → Extents D sb (Unit {0})
  append_flat inode_num table_block inode_off raw hdr phys_start block_count = do
    (longer, i_block) ← reads (λ s. try_coalesce_root_leaf raw.i_block phys_start block_count)
    elim longer [
      | true ↦ finish_append table_block inode_off block_count (record raw { i_block = i_block })
      | false ↦ do
        raw' ← append_to_root inode_num table_block inode_off raw hdr phys_start block_count
        finish_append table_block inode_off block_count raw'
    ]

  unfoldable pub append_deep : ℕ → ℕ → ℕ → RawInode → ℕ → ℕ → ℕ → Extents D sb (Unit {0})
  append_deep inode_num table_block inode_off raw depth phys_start block_count = do
    rightmost_leaf_phys ← find_rightmost_leaf (depth - 1) raw.i_block
    longer ← try_coalesce_leaf_block rightmost_leaf_phys phys_start block_count
    elim longer [
      | true ↦ finish_append table_block inode_off block_count raw
      | false ↦ do
        logical ← logical_next_in_leaf rightmost_leaf_phys
        root ←
            append_to_leaf_block inode_num rightmost_leaf_phys
              (make_leaf_entry logical block_count phys_start) raw.i_block
        finish_append table_block inode_off block_count (record raw { i_block = root })
    ]

  -- Where the inode is, if it has extents.
  unfoldable pub locate : ℕ → WriteState D → Outcome ExtentWriteError (ℕ × ℕ)
  locate inode_num s =
      Fallible.◌>>=◌ (map_err inode (read_inode D s.dev sb s.gdt inode_num)) λ found.
        Fallible.◌>>=◌ (inode_location sb s.gdt inode_num)
          λ location. Fallible.◌>>◌ (ensure (uses_extents found) not_extent_based) (ok location)

  unfoldable pub extent_append : ℕ → ℕ → ℕ → Extents D sb (Unit {0})
  extent_append inode_num phys_start block_count = do
    (table_block, inode_off) ← reads (locate inode_num)
    raw ← read_raw_inode_at_with_txn D sb table_block inode_off
    hdr ← reads (λ s. parse_header raw.i_block 0)
    elim (hdr.eh_depth == 0) [
      | true ↦ append_flat inode_num table_block inode_off raw hdr phys_start block_count
      | false ↦ append_deep inode_num table_block inode_off raw hdr.eh_depth phys_start block_count
    ]
