-- ===== src/Tests/Inodes.antt =====
-- Inodes and extents of the small image.
use pengwin.Base.{
  ℕ, zero, suc, ◌≢◌, ◌++◌, replicate, panic, ◌+◌, ◌==◌, ◌≡◌, refl, arith, if◌then◌else◌, List, [],
  ◌∷◌, none, some, ok, err, done,
}
use pengwin.Device.{read_loop, read_sectors}
use pengwin.GroupDesc.{get}
use pengwin.Journal.Transaction.{upsert, pin_block, find_last}
use pengwin.WriteState.{WriteState}
use pengwin.Inode.{deleted, parse_raw, read_inode_with_txn}
use pengwin.Inode.Raw.{RawInode, IsRaw, IsRaw-from, read_from, as_bytes}
use pengwin.Inode.Write.{
  InodeUpdate, apply_size, apply_uid, apply_gid, apply_update, inode_location, patch_inode,
  current_block, update_at, update_inode,
}
use pengwin.Inode.Write.Update.{updated, IsSized}
use pengwin.Inode.Write.ReadBack.{IsCurrent, read_inode_with_txn-update_inode}
use pengwin.Alloc.Inodes.{fresh_inode}
use pengwin.Alloc.Inodes.Fresh.{fresh, parse_raw-fresh_inode}
use pengwin.Extent.{idx_at, read_block}
use pengwin.Extent.Descent.{IsTree, Ends, lookup_in_node-IsTree}
use pengwin.Tests.Memory.{memory, memory-IsLawful, read_memory, is_sector, all_bytes}
use pengwin.Tests.Image.{small_sb, small_sb-IsValid, small_sectors, small, final}

abbrev grow : InodeUpdate
grow = record {
  size = some 5000000000;
  mode = none;
  uid = some 70000;
  gid = none;
  atime = none;
  mtime = some 12;
  ctime = none;
  links_count = none;
  flags = none;
}

grow-IsSized : IsSized grow
grow-IsSized = record {
  size-lt = omega arith;
  mode-lt = omega arith;
  uid-lt = omega arith;
  gid-lt = omega arith;
  atime-lt = omega arith;
  mtime-lt = omega arith;
  ctime-lt = omega arith;
  links_count-lt = omega arith;
  flags-lt = omega arith;
}

abbrev grown : WriteState memory
grown = final (update_inode memory small_sb 11 grow small) small

grow_inode : update_inode memory small_sb 11 grow small ≡ done tt grown
unfolding read_loop read_sectors get upsert pin_block find_last read_from as_bytes apply_size
    apply_uid apply_gid apply_update inode_location patch_inode current_block update_at update_inode
    read_memory is_sector all_bytes
grow_inode = refl

read_inode_with_txn-update_inode_example :
    (raw : RawInode) × IsCurrent memory small_sb small 11 raw
    × (read_inode_with_txn memory grown.dev small_sb grown.gdt grown.txn 11
        ≡ (if raw.i_dtime == 0 then ok (updated grow (parse_raw raw)) else err (deleted 11)))
unfolding find_last
read_inode_with_txn-update_inode_example =
    read_inode_with_txn-update_inode memory small_sb memory-IsLawful small_sb-IsValid grow 11 small
      grown grow-IsSized tt (λ k b h. absurd (cc)) grow_inode

parse_raw-fresh_inode_example :
    ((read_from (as_bytes (fresh_inode 1700000000 0x81A4 70000 100))).i_dtime ≡ 0)
    × (parse_raw (read_from (as_bytes (fresh_inode 1700000000 0x81A4 70000 100)))
        ≡ fresh 1700000000 0x81A4 70000 100)
parse_raw-fresh_inode_example =
    parse_raw-fresh_inode 1700000000 0x81A4 70000 100 (omega arith) (omega arith) (omega arith)
      (omega arith)

fresh_inode-IsRaw_small : IsRaw (fresh_inode 5 0x81A4 1 2)
unfolding fresh_inode
fresh_inode-IsRaw_small = IsRaw-from _ (ground arith)

-- A leaf node that maps blocks 2 to 4 to blocks 100 to 102.
abbrev leaf_node : List ℕ
leaf_node =
    0x0A ∷ 0xF3 ∷ 1 ∷ 0 ∷ 4 ∷ 0 ∷ 0 ∷ 0 ∷ 0 ∷ 0 ∷ 0 ∷ 0 ∷ 2 ∷ 0 ∷ 0 ∷ 0 ∷ 3 ∷ 0 ∷ 0 ∷ 0 ∷ 100 ∷ 0
    ∷ 0 ∷ 0 ∷ []

-- An index node whose one child is block 12, which starts with the leaf node.
abbrev root_node : List ℕ
root_node =
    0x0A ∷ 0xF3 ∷ 1 ∷ 0 ∷ 4 ∷ 0 ∷ 1 ∷ 0 ∷ 0 ∷ 0 ∷ 0 ∷ 0 ∷ 0 ∷ 0 ∷ 0 ∷ 0 ∷ 12 ∷ 0 ∷ 0 ∷ 0 ∷ 0 ∷ 0 ∷ 0
    ∷ 0 ∷ []

abbrev tree_sectors : ℕ → List ℕ
tree_sectors i = if i == 24 then leaf_node ++ replicate 488 0 else small_sectors i

tree_reads : (i : ℕ) → read_memory tree_sectors i ≢ panic
unfolding read_memory
tree_reads i = ground arith

child_bytes :
    read_block memory tree_sectors small_sb 12
    ≡ ok (leaf_node ++ replicate 488 0 ++ small_sectors 25)
unfolding read_block read_sectors read_loop read_memory is_sector all_bytes
child_bytes = refl

root_node-IsTree : IsTree memory tree_sectors small_sb tree_reads 1 root_node
unfolding idx_at
root_node-IsTree zero bytes lt h =
    let same : leaf_node ++ replicate 488 0 ++ small_sectors 25 ≡ bytes = cc child_bytes in
    rw (← same) refl
root_node-IsTree (suc j) bytes lt h = absurd (omega arith)

lookup_in_node-IsTree_example :
    Ends memory tree_sectors small_sb tree_reads (suc (1 + 4)) root_node 3
lookup_in_node-IsTree_example =
    lookup_in_node-IsTree memory tree_sectors small_sb tree_reads 1 4 root_node 3 root_node-IsTree
