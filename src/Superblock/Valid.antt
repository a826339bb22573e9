-- ===== src/Superblock/Valid.antt =====
-- What `parse` of `ext4-core/src/superblock.rs` guarantees of the superblock that it accepts, and
-- what it accepts.
use pengwin.Base.{
  ℕ, zero, suc, ◌*◌, ◌/◌, ◌^◌, ◌≤◌, ◌<◌, ◌≡◌, refl, ◌⊎◌, Bool, true, not, ◌||◌, ltb, ◌==◌, List,
  bit_and, ok, arith, >>=-eq-ok,
}
use pengwin.Base.Bits.{all_below, all_below_sound}
use pengwin.Superblock.{
  Superblock, parse_bytes, check_format, check_geometry, from_raw, parse_inode_size,
  is_power_of_two, unsupported_mask,
}
use pengwin.Superblock.Raw

-- The sizes that the rest of the code divides by and indexes with.
pub record IsValid (sb : Superblock) : Type 0 where
  pub block_bits : ℕ
  pub block_bits-le : block_bits ≤ 6
  pub block_size-eq : sb.block_size ≡ 1024 * 2 ^ block_bits
  pub inode_size-mem :
      (sb.inode_size ≡ 128)
      ⊎ ((sb.inode_size ≡ 256) ⊎ ((sb.inode_size ≡ 512) ⊎ (sb.inode_size ≡ 1024)))
  pub desc_size-ge : 32 ≤ sb.desc_size
  pub inodes_per_group-pos : 0 < sb.inodes_per_group
  pub blocks_per_group-pos : 0 < sb.blocks_per_group
  pub supported : bit_and sb.feature_incompat unsupported_mask ≡ 0

-- A table over all sizes up to 1024.
is_inode_size : ℕ → Bool
is_inode_size s =
    ltb s 128 || not (is_power_of_two s) || s == 128 || s == 256 || s == 512 || s == 1024

inode_size_table : all_below 1025 is_inode_size ≡ true
unfolding all_below is_inode_size
inode_size_table = refl

parse_inode_size_mem :
    (raw : List ℕ) (s : ℕ)
    → parse_inode_size raw ≡ ok s
    → (s ≡ 128) ⊎ ((s ≡ 256) ⊎ ((s ≡ 512) ⊎ (s ≡ 1024)))
unfolding parse_inode_size is_inode_size
parse_inode_size_mem raw s h =
    ground (arith, all_below_sound 1025 is_inode_size (Raw.s_inode_size raw) inode_size_table)

check_format_facts :
    (raw : List ℕ)
    → check_format raw ≡ ok tt
    → (Raw.s_log_block_size raw ≤ 6) × (bit_and (Raw.s_feature_incompat raw) unsupported_mask ≡ 0)
unfolding check_format
check_format_facts raw h = ground arith

check_geometry_facts :
    (raw : List ℕ)
    → check_geometry raw ≡ ok tt
    → (0 < Raw.s_inodes_per_group raw) × (0 < Raw.s_blocks_per_group raw)
unfolding check_geometry
check_geometry_facts raw h = ground arith

from_raw-IsValid :
    (raw : List ℕ) (inode_size : ℕ)
    → check_format raw ≡ ok tt
    → parse_inode_size raw ≡ ok inode_size
    → check_geometry raw ≡ ok tt
    → IsValid (from_raw raw inode_size)
unfolding from_raw
from_raw-IsValid raw inode_size format sized geometry =
    let (log_size, features) = check_format_facts raw format in
    let (inodes, blocks) = check_geometry_facts raw geometry in
    record {
      block_bits = Raw.s_log_block_size raw;
      block_bits-le = log_size;
      block_size-eq = refl;
      inode_size-mem = parse_inode_size_mem raw inode_size sized;
      desc_size-ge = ground arith;
      inodes_per_group-pos = inodes;
      blocks_per_group-pos = blocks;
      supported = features;
    }

-- A buffer that `parse` accepts gives a superblock whose block size is 1024 << k with k ≤ 6,
-- whose inode size is 128, 256, 512 or 1024, whose descriptor size is at least 32, whose groups
-- are not empty, and which has no unsupported feature.
pub parse_bytes-IsValid : (raw : List ℕ) {sb : Superblock} → parse_bytes raw ≡ ok sb → IsValid sb
unfolding parse_bytes
parse_bytes-IsValid raw {sb} h =
    let (_, format, h₁) = >>=-eq-ok (check_format raw) _ h in
    let (inode_size, sized, h₂) = >>=-eq-ok (parse_inode_size raw) _ h₁ in
    let (_, geometry, accepted) = >>=-eq-ok (check_geometry raw) _ h₂ in
    let e : from_raw raw inode_size ≡ sb = cc in
    rw e at (from_raw-IsValid raw inode_size format sized geometry)

two_pow_small : (k : ℕ) → k ≤ 6 → (2 ^ k ≤ 64) × (1 ≤ 2 ^ k)
two_pow_small zero h = omega arith
two_pow_small (suc zero) h = omega arith
two_pow_small (suc (suc zero)) h = omega arith
two_pow_small (suc (suc (suc zero))) h = omega arith
two_pow_small (suc (suc (suc (suc zero)))) h = omega arith
two_pow_small (suc (suc (suc (suc (suc zero))))) h = omega arith
two_pow_small (suc (suc (suc (suc (suc (suc zero)))))) h = omega arith
two_pow_small (suc (suc (suc (suc (suc (suc (suc k))))))) h = absurd (omega arith)

-- A block is a whole number of sectors, between 1 KiB and 64 KiB.
pub block_size_facts :
    {sb : Superblock}
    → IsValid sb
    → (sb.block_size / 512 * 512 ≡ sb.block_size) × (1024 ≤ sb.block_size) × (sb.block_size ≤ 65536)
block_size_facts v = omega (arith, v.block_size-eq, two_pow_small v.block_bits v.block_bits-le)
