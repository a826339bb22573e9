-- ===== src/Superblock/Raw.antt =====
-- `RawSuperblock` of `ext4-core/src/superblock.rs`: 1024 bytes, read through its fields.
use pengwin.Base.{ℕ, List, slice, u16_le, u32_le}

abbrev pub s_inodes_count : List ℕ → ℕ
s_inodes_count raw = u32_le raw 0

abbrev pub s_blocks_count_lo : List ℕ → ℕ
s_blocks_count_lo raw = u32_le raw 4

abbrev pub s_r_blocks_count_lo : List ℕ → ℕ
s_r_blocks_count_lo raw = u32_le raw 8

abbrev pub s_free_blocks_count_lo : List ℕ → ℕ
s_free_blocks_count_lo raw = u32_le raw 12

abbrev pub s_free_inodes_count : List ℕ → ℕ
s_free_inodes_count raw = u32_le raw 16

abbrev pub s_first_data_block : List ℕ → ℕ
s_first_data_block raw = u32_le raw 20

abbrev pub s_log_block_size : List ℕ → ℕ
s_log_block_size raw = u32_le raw 24

abbrev pub s_blocks_per_group : List ℕ → ℕ
s_blocks_per_group raw = u32_le raw 32

abbrev pub s_inodes_per_group : List ℕ → ℕ
s_inodes_per_group raw = u32_le raw 40

abbrev pub s_magic : List ℕ → ℕ
s_magic raw = u16_le raw 56

abbrev pub s_state : List ℕ → ℕ
s_state raw = u16_le raw 58

abbrev pub s_rev_level : List ℕ → ℕ
s_rev_level raw = u32_le raw 64

abbrev pub s_inode_size : List ℕ → ℕ
s_inode_size raw = u16_le raw 88

abbrev pub s_feature_compat : List ℕ → ℕ
s_feature_compat raw = u32_le raw 92

abbrev pub s_feature_incompat : List ℕ → ℕ
s_feature_incompat raw = u32_le raw 96

abbrev pub s_feature_ro_compat : List ℕ → ℕ
s_feature_ro_compat raw = u32_le raw 100

abbrev pub s_desc_size : List ℕ → ℕ
s_desc_size raw = u16_le raw 254

abbrev pub s_blocks_count_hi : List ℕ → ℕ
s_blocks_count_hi raw = u32_le raw 336

abbrev pub s_r_blocks_count_hi : List ℕ → ℕ
s_r_blocks_count_hi raw = u32_le raw 340

abbrev pub s_free_blocks_count_hi : List ℕ → ℕ
s_free_blocks_count_hi raw = u32_le raw 344

abbrev pub s_uuid : List ℕ → List ℕ
s_uuid raw = slice raw 104 16

abbrev pub s_volume_name : List ℕ → List ℕ
s_volume_name raw = slice raw 120 16
