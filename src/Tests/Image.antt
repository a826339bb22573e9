-- ===== src/Tests/Image.antt =====
-- A small image: 1 KiB blocks, one group of 32 blocks, its bitmap in block 3.
use pengwin.Base.{
  ℕ, ◌==◌, refl, inl, arith, if◌then◌else◌, List, [], ◌∷◌, replicate, Run, done, fail, abort,
}
use pengwin.Superblock.{Superblock}
use pengwin.Superblock.Valid.{IsValid}
use pengwin.GroupDesc.{GroupDesc, GroupDescTable}
use pengwin.WriteState.{WriteState}
use pengwin.Tests.Memory.{memory}

abbrev pub small_sb : Superblock
small_sb = record {
  block_size = 1024;
  blocks_count = 32;
  inodes_count = 16;
  inodes_per_group = 16;
  blocks_per_group = 32;
  first_data_block = 1;
  uuid = [];
  volume_name = [];
  desc_size = 32;
  feature_incompat = 0;
  feature_ro_compat = 0;
  inode_size = 128;
  state = 1;
}

pub small_sb-IsValid : IsValid small_sb
small_sb-IsValid = record {
  block_bits = 0;
  block_bits-le = omega arith;
  block_size-eq = refl;
  inode_size-mem = inl refl;
  desc_size-ge = omega arith;
  inodes_per_group-pos = omega arith;
  blocks_per_group-pos = omega arith;
  supported = refl;
}

abbrev pub small_desc : GroupDesc
small_desc = record {
  block_bitmap = 3;
  inode_bitmap = 4;
  inode_table = 5;
  free_blocks_count = 20;
  free_inodes_count = 10;
  itable_unused = 5;
}

abbrev pub small_gdt : GroupDescTable
small_gdt = record { groups = small_desc ∷ [] }

-- The first nine blocks and block 11 are taken, and the first ten inodes.
abbrev pub small_sectors : ℕ → List ℕ
small_sectors i =
    if i == 6
    then 0xFF ∷ 0x09 ∷ replicate 510 0
    else if i == 8
    then 0xFF ∷ 0x03 ∷ replicate 510 0
    else replicate 512 0

abbrev pub small : WriteState memory
small = record {
  dev = small_sectors;
  gdt = small_gdt;
  txn = record { sequence = 1; blocks = []; revoked = [] };
}

-- The state after a run that is done.
abbrev pub final {ℓ κ μ} : {S : Type ℓ} {E : Type κ} {A : Type μ} → Run S E A → S → S
final (done a s) default = s
final (fail e s) default = s
final abort default = default
