-- ===== src/Inode/Write/Location.antt =====
-- `read_inode_with_txn` counts whole inodes and `update_inode` counts bytes: both find the same
-- block and offset, and the inode lies inside that block.
use pengwin.Base.{ℕ, ◌+◌, ◌*◌, ◌/◌, ◌%◌, ◌^◌, ◌≤◌, ◌<◌, ◌≡◌, inl, inr, arith}
use native.Mathlib.Nat.{mul-div-mul_right, mul-div_cancel, div-add-mod', mod-lt}
use pengwin.Superblock.{Superblock}
use pengwin.Superblock.Valid.{IsValid, block_size_facts}

-- A block holds a whole number `k` of inodes.
inodes_fill_block :
    {sb : Superblock}
    → IsValid sb
    → (k : ℕ) × (sb.block_size ≡ k * sb.inode_size) × (0 < k) × (128 ≤ sb.inode_size)
inodes_fill_block {sb} v =
    let size = v.block_size-eq in
    let (_, low, _) = block_size_facts v in
    elim v.inode_size-mem [
      | inl a ↦ (8 * 2 ^ v.block_bits, rw a (omega arith), omega arith, omega arith)
      | inr (inl a) ↦ (4 * 2 ^ v.block_bits, rw a (omega arith), omega arith, omega arith)
      | inr (inr (inl a)) ↦ (2 * 2 ^ v.block_bits, rw a (omega arith), omega arith, omega arith)
      | inr (inr (inr a)) ↦ (2 ^ v.block_bits, rw a (omega arith), omega arith, omega arith)
    ]

spread : (i k z q r : ℕ) → q * k + r ≡ i → i * z ≡ q * (k * z) + r * z
spread i k z q r e = rw (← e) (grind arith)

mul-mod-mul : (i k z : ℕ) → 0 < z → i * z % (k * z) ≡ i % k * z
mul-mod-mul i k z pos =
    let whole = div-add-mod' (i * z) (k * z) in
    let part = div-add-mod' i k in
    let same = mul-div-mul_right i k pos in
    let split : i * z ≡ i / k * (k * z) + i % k * z = spread i k z (i / k) (i % k) part in
    let whole' = rw same at whole in omega arith

-- For the inode at `index` of a group of a valid file system, the block of the table and the
-- offset in it are the same by both computations, and the 128 bytes end inside the block.
pub inode_location-agree :
    (sb : Superblock) (index : ℕ)
    → IsValid sb
    → (index * sb.inode_size / sb.block_size ≡ index / (sb.block_size / sb.inode_size))
      × (index * sb.inode_size % sb.block_size
          ≡ index % (sb.block_size / sb.inode_size) * sb.inode_size)
      × (index * sb.inode_size % sb.block_size + 128 ≤ sb.block_size)
inode_location-agree sb index v =
    let (k, e, pos, low) = inodes_fill_block v in
    let z_pos : 0 < sb.inode_size = omega arith in
    let count : sb.block_size / sb.inode_size ≡ k = rw e (mul-div_cancel k z_pos) in
    let at = mul-mod-mul index k sb.inode_size z_pos in
    let below = mod-lt index pos in
    let room : (index % k + 1) * sb.inode_size ≤ k * sb.inode_size = grind arith in
    (
      rw count (rw e (mul-div-mul_right index k z_pos)),
      rw count (rw e at),
      let here : index * sb.inode_size % sb.block_size ≡ index % k * sb.inode_size = rw e at in
          grind arith,
    )
