-- ===== src/Extent.antt =====
-- `ext4-core/src/extent.rs`: the extent tree of an inode, read.
pub mod Mapping
pub mod Descent
pub mod Leaves
pub mod Ordered
pub mod Iter
pub mod Write
use pengwin.Base.{
  ℕ, zero, suc, ◌+◌, ◌-◌, ◌*◌, ◌/◌, ◌^◌, Bool, true, false, not, ◌&&◌, ltb, leb, ◌==◌,
  if◌then◌else◌, Option, none, some, List, [], ◌∷◌, ◌++◌, length, get_elem?, u16_le, u32_le,
  div_ceil, Outcome, ok, err, panic, map_err, ensure,
}
use pengwin.Base.Fallible.{◌>>=◌, ◌>>◌}
use pengwin.Device.{BlockDevice, BlockDeviceError, read_sectors}
use pengwin.Superblock.{Superblock}
use pengwin.Inode.{Inode, uses_extents}

abbrev pub extent_magic : ℕ
extent_magic = 0xF30A

abbrev pub max_depth : ℕ
max_depth = 5

abbrev pub max_total_leaves : ℕ
max_total_leaves = 2 ^ 21

pub record ExtentHeader : Type 0 where
  pub eh_magic : ℕ
  pub eh_entries : ℕ
  pub eh_max : ℕ
  pub eh_depth : ℕ
  pub eh_generation : ℕ

pub record ExtentIdx : Type 0 where
  pub ei_block : ℕ
  pub ei_leaf_lo : ℕ
  pub ei_leaf_hi : ℕ

pub record ExtentLeaf : Type 0 where
  pub ee_block : ℕ
  pub ee_len : ℕ
  pub ee_start_hi : ℕ
  pub ee_start_lo : ℕ

abbrev pub read_header : List ℕ → ExtentHeader
read_header node = record {
  eh_magic = u16_le node 0;
  eh_entries = u16_le node 2;
  eh_max = u16_le node 4;
  eh_depth = u16_le node 6;
  eh_generation = u32_le node 8;
}

-- Entry `i` of a node.
unfoldable pub idx_at : List ℕ → ℕ → ExtentIdx
idx_at node i =
    let off = 12 + i * 12 in
    record {
      ei_block = u32_le node off;
      ei_leaf_lo = u32_le node (off + 4);
      ei_leaf_hi = u16_le node (off + 8);
    }

unfoldable pub leaf_at : List ℕ → ℕ → ExtentLeaf
leaf_at node i =
    let off = 12 + i * 12 in
    record {
      ee_block = u32_le node off;
      ee_len = u16_le node (off + 4);
      ee_start_hi = u16_le node (off + 6);
      ee_start_lo = u32_le node (off + 8);
    }

pub data ExtentError : Type 0 where
  bad_magic : ℕ → ExtentError
  unsupported_block_map : ExtentError
  depth_exceeded : ℕ → ExtentError
  truncated_node : ExtentError
  block_number_overflow : ExtentError
  too_many_leaves : ExtentError
  block_device : BlockDeviceError → ExtentError

-- The checks that `lookup_in_node` and `collect_leaves` share; the products fit `usize`.
unfoldable pub check_node : List ℕ → Outcome ExtentError ExtentHeader
check_node node = do
  ensure (leb 12 (length node)) truncated_node
  let header = read_header node
  ensure (header.eh_magic == extent_magic) (bad_magic header.eh_magic)
  ensure (leb header.eh_depth max_depth) (depth_exceeded header.eh_depth)
  ensure (leb (12 + header.eh_entries * 12) (length node)) truncated_node
  ok header

abbrev pub leaf_start : ExtentLeaf → ℕ
leaf_start leaf = leaf.ee_start_hi * 2 ^ 32 + leaf.ee_start_lo

abbrev pub idx_child : ExtentIdx → ℕ
idx_child idx = idx.ei_leaf_hi * 2 ^ 32 + idx.ei_leaf_lo

-- The block that a leaf maps `lblock` to, with the checked addition.
unfoldable pub leaf_block : ExtentLeaf → ℕ → Outcome ExtentError ℕ
leaf_block leaf lblock =
    let phys = leaf_start leaf + (lblock - leaf.ee_block) in
    if ltb phys (2 ^ 64) then ok phys else err block_number_overflow

abbrev pub covers : ExtentLeaf → ℕ → Bool
covers leaf lblock =
    leb leaf.ee_len 32768 && leb leaf.ee_block lblock && ltb lblock (leaf.ee_block + leaf.ee_len)

-- The search of a leaf node from entry `i`, with `n` entries left.
unfoldable pub leaf_loop : List ℕ → ℕ → ℕ → ℕ → Outcome ExtentError (Option ℕ)
leaf_loop node lblock i zero = ok none
leaf_loop node lblock i (suc n) =
    let rest = leaf_loop node lblock (i + 1) n in
    let leaf = leaf_at node i in
    if covers leaf lblock then leaf_block leaf lblock >>= (λ phys. ok (some phys)) else rest

-- The last entry at or before `lblock`, up to the first that is after it.
unfoldable pub idx_loop : List ℕ → ℕ → ℕ → ℕ → Option ℕ → Option ℕ
idx_loop node lblock i zero best = best
idx_loop node lblock i (suc n) best =
    let idx = idx_at node i in
    let rest = idx_loop node lblock (i + 1) n (some (idx_child idx)) in
    if leb idx.ei_block lblock then rest else best

unfoldable pub read_block :
    (D : BlockDevice) → D.Dev → Superblock → ℕ → Outcome ExtentError (List ℕ)
read_block D dev sb block = do
  let sectors_per_block = sb.block_size / 512
  ensure (ltb (block * sectors_per_block) (2 ^ 64)) block_number_overflow
  map_err block_device (read_sectors D dev (block * sectors_per_block) sectors_per_block)

-- What a node says of a block: the answer, or the child to go on with.
pub data Next : Type 0 where
  answer : Option ℕ → Next
  child : ℕ → Next

unfoldable pub next_of : Option ℕ → Next
next_of none = answer none
next_of (some block) = child block

unfoldable pub look_in_node : List ℕ → ℕ → Outcome ExtentError Next
look_in_node node lblock = do
  header ← check_node node
  if header.eh_depth == 0
      then leaf_loop node lblock 0 header.eh_entries >>= (λ found. ok (answer found))
      else ok (next_of (idx_loop node lblock 0 header.eh_entries none))

module _ (D : BlockDevice) (dev : D.Dev) (sb : Superblock) where
  -- The recursion of `lookup_in_node` is on fuel; `none` is out of fuel.
  unfoldable pub lookup_in_node : ℕ → List ℕ → ℕ → Option (Outcome ExtentError (Option ℕ))
  lookup_in_node zero node lblock = none
  lookup_in_node (suc fuel) node lblock = elim (look_in_node node lblock) [
    | err e ↦ some (err e)
    | panic ↦ some panic
    | ok next ↦ elim next [
      | answer found ↦ some (ok found)
      | child block ↦ elim (read_block D dev sb block) [
        | err e ↦ some (err e)
        | panic ↦ some panic
        | ok bytes ↦ lookup_in_node fuel bytes lblock
      ]
    ]
  ]

  unfoldable pub lookup_block : ℕ → Inode → ℕ → Option (Outcome ExtentError (Option ℕ))
  lookup_block fuel inode lblock =
      if uses_extents inode
      then lookup_in_node fuel inode.block_data lblock
      else some (err unsupported_block_map)
