-- ===== src/Tests/Parsing.antt =====
-- A superblock with the magic number, 1 KiB blocks, 16 inodes and 32 blocks to a group.
use pengwin.Base.{ℕ, ◌≡◌, refl, List, [], ◌∷◌, replicate, splice, ok}
use pengwin.Superblock.{
  Superblock, parse_bytes, parse_inode_size, check_format, check_geometry, from_raw, until_zero,
}
use pengwin.Superblock.Valid.{IsValid, parse_bytes-IsValid}

abbrev raw_superblock : List ℕ
raw_superblock =
    splice
      (splice (splice (splice (replicate 1024 0) 32 (32 ∷ [])) 40 (16 ∷ [])) 56 (0x53 ∷ 0xEF ∷ []))
      120 (100 ∷ 97 ∷ [])

abbrev parsed : Superblock
parsed = from_raw raw_superblock 128

accepted : parse_bytes raw_superblock ≡ ok parsed
unfolding parse_bytes parse_inode_size check_format check_geometry from_raw until_zero
accepted = refl

parse_bytes-IsValid_example : IsValid parsed
parse_bytes-IsValid_example = parse_bytes-IsValid raw_superblock accepted
