-- ===== src/Extent/Write/Nodes.antt =====
-- The nodes of the tree as bytes in `ext4-core/src/extent_write.rs`.
pub mod Entries
pub mod Coalesce
use pengwin.Base.{
  ℕ, zero, suc, ◌+◌, ◌-◌, ◌*◌, ◌/◌, ◌%◌, ◌^◌, min, Bool, true, false, not, ◌||◌, ltb, leb, ◌==◌,
  if◌then◌else◌, List, [], ◌∷◌, ◌++◌, length, bytes_u16_le, bytes_u32_le, u16, u32, ◌>>>◌, Outcome,
  ok, err, ensure, assert,
}
use pengwin.Base.Fallible.{◌>>=◌, ◌>>◌}
use pengwin.Superblock.{Superblock}
use pengwin.Inode.Raw.{RawInode}
use pengwin.WriteState.{copy_at}
use pengwin.Extent.{
  ExtentHeader, ExtentIdx, ExtentLeaf, extent_magic, read_header, leaf_at, leaf_start,
}
use pengwin.Extent.Write.{ExtentWriteError, depth_limit_exceeded, parse_header}

abbrev pub tree_max_depth : ℕ
tree_max_depth = 5

abbrev pub root_max_entries : ℕ
root_max_entries = 4

abbrev pub max_extent_len : ℕ
max_extent_len = 32768

unfoldable pub leaf_max_entries : ℕ → ℕ
leaf_max_entries block_size = u16 ((block_size - 12) / 12)

unfoldable pub make_header : ℕ → ℕ → ℕ → ExtentHeader
make_header entries max depth = record {
  eh_magic = extent_magic;
  eh_entries = entries;
  eh_max = max;
  eh_depth = depth;
  eh_generation = 0;
}

unfoldable pub make_leaf_entry : ℕ → ℕ → ℕ → ExtentLeaf
make_leaf_entry ee_block ee_len phys = record {
  ee_block = ee_block;
  ee_len = ee_len;
  ee_start_hi = u16 (phys >>> 32);
  ee_start_lo = u32 phys;
}

unfoldable pub make_idx_entry : ℕ → ℕ → ExtentIdx
make_idx_entry ei_block child_phys = record {
  ei_block = ei_block;
  ei_leaf_lo = u32 child_phys;
  ei_leaf_hi = u16 (child_phys >>> 32);
}

-- `as_bytes` of the three structs; the unused half-word of an index entry is 0.
unfoldable pub header_bytes : ExtentHeader → List ℕ
header_bytes h =
    bytes_u16_le h.eh_magic
    ++ bytes_u16_le h.eh_entries
    ++ bytes_u16_le h.eh_max
    ++ bytes_u16_le h.eh_depth
    ++ bytes_u32_le h.eh_generation

unfoldable pub leaf_bytes : ExtentLeaf → List ℕ
leaf_bytes l =
    bytes_u32_le l.ee_block
    ++ bytes_u16_le l.ee_len
    ++ bytes_u16_le l.ee_start_hi
    ++ bytes_u32_le l.ee_start_lo

unfoldable pub idx_bytes : ExtentIdx → List ℕ
idx_bytes i =
    bytes_u32_le i.ei_block
    ++ bytes_u32_le i.ei_leaf_lo
    ++ bytes_u16_le i.ei_leaf_hi
    ++ bytes_u16_le 0

-- The number of blocks of a leaf: a length over 32768 marks it uninitialized.
abbrev pub real_len : ℕ → ℕ
real_len raw_len = if ltb 32768 raw_len then raw_len - 32768 else raw_len

-- `saturating_add` on `u32`.
abbrev pub saturating_add : ℕ → ℕ → ℕ
saturating_add a b = min (a + b) (2 ^ 32 - 1)

-- The entry at `i`, whose bytes the code takes as a slice.
abbrev pub leaf_in {ℓ} : {E : Type ℓ} → List ℕ → ℕ → Outcome E ExtentLeaf
leaf_in node i = assert (leb (12 + i * 12 + 12) (length node)) >> ok (leaf_at node i)

unfoldable pub next_logical_block : List ℕ → Outcome ExtentWriteError ℕ
next_logical_block node_data = do
  assert (leb 12 (length node_data))
  let entries = (read_header node_data).eh_entries
  elim (entries == 0) [
    | true ↦ ok 0
    | false ↦ leaf_in node_data (entries - 1) >>= λ leaf.
        ok (saturating_add leaf.ee_block (real_len leaf.ee_len))
  ]

unfoldable pub update_iblocks : RawInode → Superblock → ℕ → RawInode
update_iblocks raw sb added = record raw {
  i_blocks_lo = saturating_add raw.i_blocks_lo (added * (sb.block_size / 512));
}

-- The bytes of entry number `entries` behind the others, and the header that counts it.
unfoldable pub push_entry : List ℕ → List ℕ → ℕ → ℕ → ℕ → Outcome ExtentWriteError (List ℕ)
push_entry node entry entries max depth = copy_at node (12 + entries * 12) entry >>= λ node'.
    copy_at node' 0 (header_bytes (make_header (entries + 1) max depth))

-- The new length of the last leaf, when the blocks from `phys_start` go on where it ends; the
-- answer and the buffer.
unfoldable pub coalesce_leaf_in_buf :
    List ℕ → ℕ → ExtentLeaf → ℕ → ℕ → Outcome ExtentWriteError (Bool × List ℕ)
coalesce_leaf_in_buf buf off leaf phys_start block_count =
    let combined = leaf.ee_len + block_count in
    let longer = copy_at buf (off + 4) (bytes_u16_le combined) >>= (λ buf'. ok (true, buf')) in
    if leaf.ee_len == 0 || ltb max_extent_len leaf.ee_len
    then ok (false, buf)
    else if not (leaf_start leaf + leaf.ee_len == phys_start)
    then ok (false, buf)
    else if ltb max_extent_len combined
    then ok (false, buf)
    else longer

-- The last leaf of a node with that many entries.
unfoldable pub coalesce_last : List ℕ → ℕ → ℕ → ℕ → Outcome ExtentWriteError (Bool × List ℕ)
coalesce_last node entries phys_start block_count = elim (entries == 0) [
  | true ↦ ok (false, node)
  | false ↦ leaf_in node (entries - 1) >>= λ leaf.
      coalesce_leaf_in_buf node (12 + (entries - 1) * 12) leaf phys_start block_count
]

unfoldable pub try_coalesce_root_leaf : List ℕ → ℕ → ℕ → Outcome ExtentWriteError (Bool × List ℕ)
try_coalesce_root_leaf root phys_start block_count = do
  assert (leb 12 (length root))
  let hdr = read_header root
  elim (hdr.eh_depth == 0) [
    | false ↦ ok (false, root)
    | true ↦ coalesce_last root hdr.eh_entries phys_start block_count
  ]

unfoldable pub add_idx_to_root : List ℕ → ℕ → ℕ → Outcome ExtentWriteError (List ℕ)
add_idx_to_root root_data first_logical child_phys = do
  hdr ← parse_header root_data 0
  ensure (ltb hdr.eh_entries hdr.eh_max) depth_limit_exceeded
  push_entry root_data (idx_bytes (make_idx_entry first_logical child_phys)) hdr.eh_entries
      hdr.eh_max hdr.eh_depth
