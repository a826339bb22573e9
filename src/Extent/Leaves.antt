-- ===== src/Extent/Leaves.antt =====
-- `collect_leaves` of `ext4-core/src/extent.rs`, and the searches of a sorted list of leaves in
-- `journal/mod.rs` and `file.rs`.
use pengwin.Base.{
  ℕ, zero, suc, ◌+◌, ◌-◌, ◌^◌, true, false, ltb, leb, ◌==◌, if◌then◌else◌, Option, none, some, List,
  [], ◌∷◌, ◌++◌, length, get_elem?, Outcome, ok, panic, ensure,
}
use pengwin.Base.Fallible.{◌>>=◌, ◌>>◌}
use pengwin.Device.{BlockDevice}
use pengwin.Superblock.{Superblock}
use pengwin.Inode.{Inode, uses_extents}
use pengwin.Extent.{
  ExtentError, too_many_leaves, unsupported_block_map, ExtentLeaf, leaf_at, idx_at, idx_child,
  check_node, read_block, max_total_leaves, leaf_start, covers, lookup_block,
}

-- The entries of a leaf node from `i`, with `n` left.
unfoldable pub push_leaves : List ℕ → ℕ → ℕ → List ExtentLeaf → List ExtentLeaf
push_leaves node i zero out = out
push_leaves node i (suc n) out = push_leaves node (i + 1) n (out ++ leaf_at node i ∷ [])

-- A recursion without end overflows the stack: a panic.
abbrev pub bounded {ℓ κ} : {E : Type ℓ} {A : Type κ} → Option (Outcome E A) → Outcome E A
bounded none = panic
bounded (some r) = r

module _ (D : BlockDevice) (dev : D.Dev) (sb : Superblock) where
  -- The children of an index node from entry `i`, with `n` left; `visit` is the recursive call.
  unfoldable pub collect_children :
      (List ℕ → List ExtentLeaf → Outcome ExtentError (List ExtentLeaf))
      → List ℕ
      → ℕ
      → ℕ
      → List ExtentLeaf
      → Outcome ExtentError (List ExtentLeaf)
  collect_children visit node i zero out = ok out
  collect_children visit node i (suc n) out = do
    child_data ← read_block D dev sb (idx_child (idx_at node i))
    out' ← visit child_data out
    collect_children visit node (i + 1) n out'

  -- The recursion is on fuel, as that of `lookup_in_node`.
  unfoldable pub collect_leaves :
      ℕ → List ℕ → List ExtentLeaf → Outcome ExtentError (List ExtentLeaf)
  collect_leaves zero node out = panic
  collect_leaves (suc fuel) node out = do
    header ← check_node node
    elim (header.eh_depth == 0) [
      | true ↦ do
        ensure (leb (length out + header.eh_entries) max_total_leaves) too_many_leaves
        ok (push_leaves node 0 header.eh_entries out)
      | false ↦ collect_children (collect_leaves fuel) node 0 header.eh_entries out
    ]

  unfoldable pub collect_leaves_pub :
      ℕ → Inode → List ExtentLeaf → Outcome ExtentError (List ExtentLeaf)
  collect_leaves_pub fuel inode out = do
    ensure (uses_extents inode) unsupported_block_map
    collect_leaves fuel inode.block_data out

  -- `lookup_block` for the code that calls it.
  unfoldable pub lookup : ℕ → Inode → ℕ → Outcome ExtentError (Option ℕ)
  lookup fuel inode lblock = bounded (lookup_block D dev sb fuel inode lblock)

-- `sort_by_key(|l| l.ee_block)`, which is stable.
unfoldable pub insert_leaf : ExtentLeaf → List ExtentLeaf → List ExtentLeaf
insert_leaf l [] = l ∷ []
insert_leaf l (m ∷ rest) =
    let later = m ∷ insert_leaf l rest in if leb l.ee_block m.ee_block then l ∷ m ∷ rest else later

unfoldable pub sort_leaves : List ExtentLeaf → List ExtentLeaf
sort_leaves [] = []
sort_leaves (l ∷ rest) = insert_leaf l (sort_leaves rest)

-- The first initialized leaf that covers the block.
unfoldable pub find_phys : List ExtentLeaf → ℕ → Option ℕ
find_phys [] lblock = none
find_phys (leaf ∷ rest) lblock =
    let later = find_phys rest lblock in
    let phys = leaf_start leaf + (lblock - leaf.ee_block) in
    if covers leaf lblock then (if ltb phys (2 ^ 64) then some phys else none) else later

-- `partition_point` of `l.ee_block <= lblock` on leaves that are sorted.
unfoldable pub partition_point : List ExtentLeaf → ℕ → ℕ
partition_point [] lblock = 0
partition_point (leaf ∷ rest) lblock =
    let later = suc (partition_point rest lblock) in if leb leaf.ee_block lblock then later else 0

abbrev pub resolve_in : Option ExtentLeaf → ℕ → Option ℕ
resolve_in none lblock = none
resolve_in (some leaf) lblock =
    if ltb 32768 leaf.ee_len
    then none
    else if ltb lblock (leaf.ee_block + leaf.ee_len)
    then some (leaf_start leaf + (lblock - leaf.ee_block))
    else none

-- The leaf before the partition point, if there is one.
abbrev pub resolve_at : List ExtentLeaf → ℕ → ℕ → Option ℕ
resolve_at leaves lblock zero = none
resolve_at leaves lblock (suc k) = resolve_in (get_elem? leaves k) lblock

unfoldable pub resolve_lblock : List ExtentLeaf → ℕ → Option ℕ
resolve_lblock leaves lblock = resolve_at leaves lblock (partition_point leaves lblock)
