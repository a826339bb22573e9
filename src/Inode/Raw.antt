-- ===== src/Inode/Raw.antt =====
-- `RawInode` of `ext4-core/src/inode.rs`: the 128 bytes of an inode as the fields they are.
pub mod Layout
use pengwin.Base.{
  ℕ, zero, suc, ◌+◌, ◌*◌, ◌/◌, ◌%◌, ◌^◌, ◌≤◌, ◌<◌, ◌≡◌, refl, ap, arith, List, [], ◌∷◌, ◌++◌,
  length, take, drop, slice, u16, u32, u16_le, u32_le, bytes_u16_le, bytes_u32_le, byte_at,
}

pub record RawInode : Type 0 where
  pub i_mode : ℕ
  pub i_uid : ℕ
  pub i_size_lo : ℕ
  pub i_atime : ℕ
  pub i_ctime : ℕ
  pub i_mtime : ℕ
  pub i_dtime : ℕ
  pub i_gid : ℕ
  pub i_links_count : ℕ
  pub i_blocks_lo : ℕ
  pub i_flags : ℕ
  pub osd1 : List ℕ
  pub i_block : List ℕ
  pub i_generation : ℕ
  pub i_file_acl_lo : ℕ
  pub i_size_hi : ℕ
  pub i_obso_faddr : ℕ
  pub osd2 : List ℕ

-- The fields of the struct, in its `repr(C)` layout.
unfoldable pub read_from : List ℕ → RawInode
read_from b = record {
  i_mode = u16_le b 0;
  i_uid = u16_le b 2;
  i_size_lo = u32_le b 4;
  i_atime = u32_le b 8;
  i_ctime = u32_le b 12;
  i_mtime = u32_le b 16;
  i_dtime = u32_le b 20;
  i_gid = u16_le b 24;
  i_links_count = u16_le b 26;
  i_blocks_lo = u32_le b 28;
  i_flags = u32_le b 32;
  osd1 = slice b 36 4;
  i_block = slice b 40 60;
  i_generation = u32_le b 100;
  i_file_acl_lo = u32_le b 104;
  i_size_hi = u32_le b 108;
  i_obso_faddr = u32_le b 112;
  osd2 = slice b 116 12;
}

-- The fields before `_osd1`, and those between `i_block` and `_osd2`.
abbrev first_bytes : RawInode → List ℕ
first_bytes r =
    bytes_u16_le r.i_mode
    ++ bytes_u16_le r.i_uid
    ++ bytes_u32_le r.i_size_lo
    ++ bytes_u32_le r.i_atime
    ++ bytes_u32_le r.i_ctime
    ++ bytes_u32_le r.i_mtime
    ++ bytes_u32_le r.i_dtime
    ++ bytes_u16_le r.i_gid
    ++ bytes_u16_le r.i_links_count
    ++ bytes_u32_le r.i_blocks_lo
    ++ bytes_u32_le r.i_flags

abbrev last_bytes : RawInode → List ℕ
last_bytes r =
    bytes_u32_le r.i_generation
    ++ bytes_u32_le r.i_file_acl_lo
    ++ bytes_u32_le r.i_size_hi
    ++ bytes_u32_le r.i_obso_faddr

unfoldable pub as_bytes : RawInode → List ℕ
as_bytes r = first_bytes r ++ (r.osd1 ++ (r.i_block ++ (last_bytes r ++ r.osd2)))

-- Every field has its width.
pub record IsRaw (r : RawInode) : Type 0 where
  pub i_mode-lt : r.i_mode < 2 ^ 16
  pub i_uid-lt : r.i_uid < 2 ^ 16
  pub i_size_lo-lt : r.i_size_lo < 2 ^ 32
  pub i_atime-lt : r.i_atime < 2 ^ 32
  pub i_ctime-lt : r.i_ctime < 2 ^ 32
  pub i_mtime-lt : r.i_mtime < 2 ^ 32
  pub i_dtime-lt : r.i_dtime < 2 ^ 32
  pub i_gid-lt : r.i_gid < 2 ^ 16
  pub i_links_count-lt : r.i_links_count < 2 ^ 16
  pub i_blocks_lo-lt : r.i_blocks_lo < 2 ^ 32
  pub i_flags-lt : r.i_flags < 2 ^ 32
  pub length-osd1 : length r.osd1 ≡ 4
  pub length-i_block : length r.i_block ≡ 60
  pub i_generation-lt : r.i_generation < 2 ^ 32
  pub i_file_acl_lo-lt : r.i_file_acl_lo < 2 ^ 32
  pub i_size_hi-lt : r.i_size_hi < 2 ^ 32
  pub i_obso_faddr-lt : r.i_obso_faddr < 2 ^ 32
  pub length-osd2 : length r.osd2 ≡ 12

-- The same as one product.
abbrev pub Widths : RawInode → Type 0
Widths r =
    (r.i_mode < 2 ^ 16)
    × (r.i_uid < 2 ^ 16)
    × (r.i_size_lo < 2 ^ 32)
    × (r.i_atime < 2 ^ 32)
    × (r.i_ctime < 2 ^ 32)
    × (r.i_mtime < 2 ^ 32)
    × (r.i_dtime < 2 ^ 32)
    × (r.i_gid < 2 ^ 16)
    × (r.i_links_count < 2 ^ 16)
    × (r.i_blocks_lo < 2 ^ 32)
    × (r.i_flags < 2 ^ 32)
    × (length r.osd1 ≡ 4)
    × (length r.i_block ≡ 60)
    × (r.i_generation < 2 ^ 32)
    × (r.i_file_acl_lo < 2 ^ 32)
    × (r.i_size_hi < 2 ^ 32)
    × (r.i_obso_faddr < 2 ^ 32)
    × (length r.osd2 ≡ 12)

pub IsRaw-from : (r : RawInode) → Widths r → IsRaw r
IsRaw-from r (a, b, c, d, e, f, g, h, i, j, k, l, m, n, o, p, q, s) = record {
  i_mode-lt = a;
  i_uid-lt = b;
  i_size_lo-lt = c;
  i_atime-lt = d;
  i_ctime-lt = e;
  i_mtime-lt = f;
  i_dtime-lt = g;
  i_gid-lt = h;
  i_links_count-lt = i;
  i_blocks_lo-lt = j;
  i_flags-lt = k;
  length-osd1 = l;
  length-i_block = m;
  i_generation-lt = n;
  i_file_acl_lo-lt = o;
  i_size_hi-lt = p;
  i_obso_faddr-lt = q;
  length-osd2 = s;
}

pub widths : (r : RawInode) → IsRaw r → Widths r
widths r w = (
  w.i_mode-lt, w.i_uid-lt, w.i_size_lo-lt, w.i_atime-lt, w.i_ctime-lt, w.i_mtime-lt, w.i_dtime-lt,
  w.i_gid-lt, w.i_links_count-lt, w.i_blocks_lo-lt, w.i_flags-lt, w.length-osd1, w.length-i_block,
  w.i_generation-lt, w.i_file_acl_lo-lt, w.i_size_hi-lt, w.i_obso_faddr-lt, w.length-osd2,
)
