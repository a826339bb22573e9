-- ===== src/Extent/Write/Truncate.antt =====
-- `extent_truncate` of `ext4-core/src/extent_write.rs`.
pub mod Subtree
use pengwin.Base.{
  ℕ, zero, suc, ◌+◌, ◌-◌, ◌*◌, ◌/◌, Bool, true, false, not, ◌&&◌, ltb, leb, ◌==◌, if◌then◌else◌,
  List, [], ◌∷◌, ◌++◌, length, slice, u16, bytes_u16_le, Outcome, ok, err, assert, M, pure, reads,
  map_fail,
}
use pengwin.Base.Fallible
use pengwin.Base.Stateful.{◌>>=◌, ◌>>◌}
use pengwin.Device.{BlockDevice}
use pengwin.Superblock.{Superblock}
use pengwin.Journal.Transaction
use pengwin.WriteState.{WriteState, copy_at, on_txn}
use pengwin.Alloc.Blocks.{free_block}
use pengwin.Extent.{
  ExtentIdx, ExtentLeaf, ExtentHeader, read_header, leaf_at, leaf_start, idx_at, idx_child,
}
use pengwin.Extent.Write.{
  ExtentWriteError, alloc, Extents, parse_header, read_block, write_block,
  read_raw_inode_at_with_txn, flush_raw_inode,
}
use pengwin.Extent.Write.Nodes.{make_header, header_bytes, real_len, saturating_add, leaf_in}
use pengwin.Extent.Write.Append.{locate}

abbrev pub idx_in {ℓ} : {E : Type ℓ} → List ℕ → ℕ → Outcome E ExtentIdx
idx_in node i = Fallible.◌>>◌ (assert (leb (12 + i * 12 + 12) (length node))) (ok (idx_at node i))

-- The entries behind entry `i`, of which `remaining` are left, move one place down: `copy_within`.
unfoldable pub delete_entry : List ℕ → ℕ → ℕ → Outcome ExtentWriteError (List ℕ)
delete_entry node i remaining =
    let off = 12 + i * 12 in
    elim (remaining == 0) [
      | true ↦ ok node
      | false ↦
          Fallible.◌>>◌ (assert (leb (off + 12 + remaining * 12) (length node)))
            (copy_at node off (slice node (off + 12) (remaining * 12)))
    ]

-- The blocks of a root without levels below, in sectors.
unfoldable pub count_leaves : List ℕ → ℕ → ℕ → ℕ → ℕ → ℕ
count_leaves root_data block_size i zero total = total
count_leaves root_data block_size i (suc n) total =
    let leaf = leaf_at root_data i in
    let rest =
      count_leaves root_data block_size (i + 1) n
        (saturating_add total (real_len leaf.ee_len * (block_size / 512))) in
    if ltb (length root_data) (12 + i * 12 + 12) then total else rest

unfoldable pub count_iblocks : List ℕ → ℕ → ℕ
count_iblocks root_data block_size =
    let hdr = read_header root_data in
    let total = count_leaves root_data block_size 0 hdr.eh_entries 0 in
    if ltb (length root_data) 12 then 0 else if not (hdr.eh_depth == 0) then 0 else total

module _ (D : BlockDevice) (sb : Superblock) where
  unfoldable pub free_and_revoke : ℕ → Extents D sb (Unit {0})
  free_and_revoke block = do
    map_fail alloc (free_block D sb block)
    on_txn D (Transaction.revoke_block block)

  -- `for b in 0..n`, from `start`.
  unfoldable pub free_run : ℕ → ℕ → Extents D sb (Unit {0})
  free_run start zero = pure tt
  free_run start (suc n) = do free_and_revoke start; free_run (start + 1) n

  -- The leaf at `i` of a node from `keep_from` on: gone, cut, or kept. The node, and whether the
  -- entry is still there.
  unfoldable pub truncate_leaf : List ℕ → ℕ → ℕ → ℕ → ExtentLeaf → Extents D sb (List ℕ × Bool)
  truncate_leaf node i remaining keep_from leaf =
      let first = leaf.ee_block in
      let len = real_len leaf.ee_len in
      let last = saturating_add first len in
      let keep_len = u16 (keep_from - first) in
      let actual_keep = if ltb 32768 leaf.ee_len then u16 (keep_len + 32768) else keep_len in
      elim (leb keep_from first) [
        | true ↦ do
          free_run (leaf_start leaf) len
          node' ← reads (λ s. delete_entry node i remaining)
          pure (node', false)
        | false ↦ elim (ltb keep_from last) [
          | true ↦ do
            free_run (leaf_start leaf + keep_len) (last - keep_from)
            node' ← reads (λ s. copy_at node (12 + i * 12 + 4) (bytes_u16_le actual_keep))
            pure (node', true)
          | false ↦ pure (node, true)
        ]
      ]

  -- The entries from `i`, with `n` left; the node and the number of entries that stay.
  unfoldable pub truncate_leaves : List ℕ → ℕ → ℕ → ℕ → Extents D sb (List ℕ × ℕ)
  truncate_leaves node i zero keep_from = pure (node, i)
  truncate_leaves node i (suc n) keep_from = do
    leaf ← reads (λ s. leaf_in node i)
    (node', kept) ← truncate_leaf node i n keep_from leaf
    elim kept [
      | true ↦ truncate_leaves node' (i + 1) n keep_from
      | false ↦ truncate_leaves node' i n keep_from
    ]

  unfoldable pub free_leaves : List ℕ → ℕ → ℕ → Extents D sb (Unit {0})
  free_leaves node i zero = pure tt
  free_leaves node i (suc n) = do
    leaf ← reads (λ s. leaf_in node i)
    free_run (leaf_start leaf) (real_len leaf.ee_len)
    free_leaves node (i + 1) n

  -- The children, each freed by `visit` and then once more.
  unfoldable pub free_children :
      (ℕ → Extents D sb (Unit {0})) → List ℕ → ℕ → ℕ → Extents D sb (Unit {0})
  free_children visit node i zero = pure tt
  free_children visit node i (suc n) = do
    idx ← reads (λ s. idx_in node i)
    visit (idx_child idx)
    free_and_revoke (idx_child idx)
    free_children visit node (i + 1) n

  unfoldable pub free_subtree : ℕ → ℕ → Extents D sb (Unit {0})
  free_subtree zero block_phys = do
    bytes ← reads (read_block D sb block_phys)
    hdr ← reads (λ s. parse_header bytes block_phys)
    free_leaves bytes 0 hdr.eh_entries
    free_and_revoke block_phys
  free_subtree (suc depth) block_phys = do
    bytes ← reads (read_block D sb block_phys)
    hdr ← reads (λ s. parse_header bytes block_phys)
    free_children (free_subtree depth) bytes 0 hdr.eh_entries
    free_and_revoke block_phys

  -- The child at `i`: freed whole by `free`, or truncated by `visit` and then freed or written.
  unfoldable pub truncate_child :
      (List ℕ → Extents D sb (List ℕ × Bool))
      → (ℕ → Extents D sb (Unit {0}))
      → List ℕ
      → ℕ
      → ℕ
      → ℕ
      → ExtentIdx
      → Extents D sb (List ℕ × Bool)
  truncate_child visit free node i remaining keep_from idx =
      let child_phys = idx_child idx in
      elim (leb keep_from idx.ei_block && ltb 0 keep_from) [
        | true ↦ do
          free child_phys
          node' ← reads (λ s. delete_entry node i remaining)
          pure (node', false)
        | false ↦ do
          child_data ← reads (read_block D sb child_phys)
          (child_data', child_empty) ← visit child_data
          elim child_empty [
            | true ↦ do
              free_and_revoke child_phys
              node' ← reads (λ s. delete_entry node i remaining)
              pure (node', false)
            | false ↦ do write_block D sb child_phys child_data'; pure (node, true)
          ]
      ]

  unfoldable pub truncate_children :
      (List ℕ → Extents D sb (List ℕ × Bool))
      → (ℕ → Extents D sb (Unit {0}))
      → List ℕ
      → ℕ
      → ℕ
      → ℕ
      → Extents D sb (List ℕ × ℕ)
  truncate_children visit free node i zero keep_from = pure (node, i)
  truncate_children visit free node i (suc n) keep_from = do
    idx ← reads (λ s. idx_in node i)
    (node', kept) ← truncate_child visit free node i n keep_from idx
    elim kept [
      | true ↦ truncate_children visit free node' (i + 1) n keep_from
      | false ↦ truncate_children visit free node' i n keep_from
    ]

  -- The header counts the entries that stay; the answer says that the node is empty.
  unfoldable pub close_node : List ℕ → ℕ → ℕ → ℕ → Bool → Extents D sb (List ℕ × Bool)
  close_node node entries max depth may_go = do
    node' ← reads (λ s. copy_at node 0 (header_bytes (make_header entries max depth)))
    pure (node', entries == 0 && may_go)

  -- The recursion is on the depth that the root's header gives.
  unfoldable pub truncate_node : ℕ → List ℕ → ℕ → Bool → Extents D sb (List ℕ × Bool)
  truncate_node zero node keep_from is_root = do
    hdr ← reads (λ s. parse_header node 0)
    (node', entries) ← truncate_leaves node 0 hdr.eh_entries keep_from
    close_node node' entries hdr.eh_max 0 (keep_from == 0)
  truncate_node (suc depth) node keep_from is_root = do
    hdr ← reads (λ s. parse_header node 0)
    (node', entries) ←
        truncate_children (λ child_data. truncate_node depth child_data keep_from false)
          (free_subtree depth) node 0 hdr.eh_entries keep_from
    close_node node' entries hdr.eh_max (suc depth) (not is_root)

  unfoldable pub extent_truncate : ℕ → ℕ → Extents D sb (Unit {0})
  extent_truncate inode_num keep_from = do
    (table_block, inode_off) ← reads (locate D sb inode_num)
    raw ← read_raw_inode_at_with_txn D sb table_block inode_off
    hdr ← reads (λ s. parse_header raw.i_block 0)
    (root_buf, _) ← truncate_node hdr.eh_depth raw.i_block keep_from true
    flush_raw_inode D sb table_block inode_off
        (record raw { i_block = root_buf; i_blocks_lo = count_iblocks root_buf sb.block_size })
