-- ===== src/Extent/Iter.antt =====
-- `ExtentIter` of `ext4-core/src/extent.rs`. The fields that `next` does not read are left out.
pub mod Order
use pengwin.Base.{
  ℕ, zero, suc, ◌+◌, ◌-◌, ◌*◌, ◌/◌, ◌^◌, Bool, true, false, not, ◌||◌, ltb, leb, if◌then◌else◌,
  Option, none, some, List, [], ◌∷◌, drop, div_ceil, u64, Outcome, ok, err, ensure,
}
use pengwin.Base.Fallible.{◌>>=◌, ◌>>◌}
use pengwin.Device.{BlockDevice}
use pengwin.Superblock.{Superblock}
use pengwin.Inode.{Inode, uses_extents}
use pengwin.Extent.{ExtentError, unsupported_block_map, ExtentLeaf, leaf_block}
use pengwin.Extent.Leaves.{collect_leaves, sort_leaves}
use pengwin.Extent.Ordered.{leaf_len}

pub record ExtentIter : Type 0 where
  pub leaves : List ExtentLeaf
  pub leaf_idx : ℕ
  pub next_lblock : ℕ
  pub total_lblocks : ℕ
  pub is_done : Bool

unfoldable pub new :
    (D : BlockDevice) → D.Dev → Superblock → ℕ → Inode → Outcome ExtentError ExtentIter
new D dev sb fuel inode = do
  ensure (uses_extents inode) unsupported_block_map
  leaves ← collect_leaves D dev sb fuel inode.block_data []
  ok (record {
    leaves = sort_leaves leaves;
    leaf_idx = 0;
    next_lblock = 0;
    total_lblocks = div_ceil inode.size sb.block_size;
    is_done = false;
  })

-- The block of a leaf that covers `lblock`.
abbrev pub covered : ExtentLeaf → ℕ → Outcome ExtentError (Option ℕ)
covered leaf lblock =
    if ltb 32768 leaf.ee_len then ok none else leaf_block leaf lblock >>= λ phys. ok (some phys)

-- The loop over the leaves from `leaf_idx` on, with the index at its end.
unfoldable pub next_loop : List ExtentLeaf → ℕ → ℕ → Outcome ExtentError (Option ℕ) × ℕ
next_loop [] leaf_idx lblock = (ok none, leaf_idx)
next_loop (leaf ∷ rest) leaf_idx lblock =
    let later = next_loop rest (leaf_idx + 1) lblock in
    if ltb lblock leaf.ee_block
    then (ok none, leaf_idx)
    else if ltb lblock (leaf.ee_block + leaf_len leaf)
    then (covered leaf lblock, leaf_idx)
    else later

unfoldable pub next : ExtentIter → Option (Outcome ExtentError (ℕ × Option ℕ)) × ExtentIter
next it =
    let lblock = it.next_lblock in
    let found = next_loop (drop it.leaf_idx it.leaves) it.leaf_idx lblock in
    if it.is_done || leb it.total_lblocks lblock then (none, it) else (
      some (found.0 >>= λ phys. ok (lblock, phys)),
      record it { leaf_idx = found.1; next_lblock = u64 (lblock + 1) },
    )
