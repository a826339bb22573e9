-- ===== src/Alloc/Inodes/Fresh.antt =====
-- `init_inode` of `ext4-core/src/alloc/inode_alloc.rs`: what the inode it writes parses to.
use pengwin.Base.{ℕ, ◌+◌, ◌*◌, ◌^◌, ◌<◌, ◌≡◌, ◌∙◌, ap, ◌++◌, replicate, u16, u8, ◌>>>◌, arith}
use pengwin.Inode.{Inode, parse_raw}
use pengwin.Inode.Raw.{RawInode, IsRaw, IsRaw-from, read_from, as_bytes}
use pengwin.Inode.Raw.Layout.{read_from-as_bytes}
use pengwin.Alloc.Inodes.{fresh_inode, extents_fl, extent_header}

fresh_inode-IsRaw :
    (now mode uid gid : ℕ) → now < 2 ^ 32 → mode < 2 ^ 16 → IsRaw (fresh_inode now mode uid gid)
unfolding fresh_inode
fresh_inode-IsRaw now mode uid gid lt lt' = IsRaw-from _ (ground arith)

abbrev pub fresh : (now mode uid gid : ℕ) → Inode
fresh now mode uid gid = record {
  mode = mode;
  uid = uid;
  gid = gid;
  size = 0;
  atime = now;
  mtime = now;
  ctime = now;
  links_count = 1;
  flags = extents_fl;
  block_data = extent_header ++ replicate 48 0;
}

-- The bytes that `init_inode` writes, with a mode of 16 bits and a time and owners of 32 bits,
-- read back as a live inode of that mode and those owners, of size 0, with one link, the extents
-- flag and an empty extent tree, and with all its times at the present.
pub parse_raw-fresh_inode :
    (now mode uid gid : ℕ)
    → now < 2 ^ 32
    → mode < 2 ^ 16
    → uid < 2 ^ 32
    → gid < 2 ^ 32
    → ((read_from (as_bytes (fresh_inode now mode uid gid))).i_dtime ≡ 0)
      × (parse_raw (read_from (as_bytes (fresh_inode now mode uid gid))) ≡ fresh now mode uid gid)
unfolding fresh_inode parse_raw
parse_raw-fresh_inode now mode uid gid hn hm hu hg =
    let raw = fresh_inode-IsRaw now mode uid gid hn hm in
    let same = read_from-as_bytes (fresh_inode now mode uid gid) raw in
    let m : u16 mode ≡ mode = omega arith in
    let a : u16 uid + (u8 (uid >>> 16) + 256 * u8 (uid >>> 24)) * 2 ^ 16 ≡ uid = omega arith in
    let b : u16 gid + (u8 (gid >>> 16) + 256 * u8 (gid >>> 24)) * 2 ^ 16 ≡ gid = omega arith in
    (
      ap (λ (r : RawInode). r.i_dtime) same,
      ap parse_raw same
          ∙ (λ k. record (fresh now mode uid gid) { mode = m k; uid = a k; gid = b k }),
    )
