-- ===== src/Inode/Write/Update.antt =====
-- What `update_inode` of `ext4-core/src/inode_write.rs` changes, and what a later
-- `read_inode_with_txn` sees.
use pengwin.Base.{
  byte_at-drop, ℕ, zero, suc, ◌+◌, ◌*◌, ◌^◌, ◌<◌, ◌≡◌, refl, sym, ◌∙◌, ap, inl, inr, arith, Option,
  none, some, List, [], ◌∷◌, length, take, drop, slice, splice, u16, u32, ◌>>>◌, u16_le,
  bytes_u16_le, u16_le-splice, u16_le-splice_self, length-splice, length-take, length-drop, byte_at,
  IsBytes,
}
use pengwin.Inode.{Inode, parse_raw}
use pengwin.Inode.Raw.{RawInode, IsRaw, IsRaw-from, widths, read_from}
use pengwin.Inode.Write.{InodeUpdate, when_some, apply_size, apply_uid, apply_gid, apply_update}

byte_at-take_lt : (n : ℕ) (b : List ℕ) → IsBytes b → (j : ℕ) → byte_at (take n b) j < 256
byte_at-take_lt zero b h j = omega arith
byte_at-take_lt (suc n) [] h j = omega arith
byte_at-take_lt (suc n) (x ∷ b) h zero = h zero
byte_at-take_lt (suc n) (x ∷ b) h (suc j) = byte_at-take_lt n b (λ k. h (suc k)) j

pub slice-IsBytes : (b : List ℕ) (off n : ℕ) → IsBytes b → IsBytes (slice b off n)
slice-IsBytes b off n h j =
    byte_at-take_lt n (drop off b) (λ k. rw (byte_at-drop off b k) (h (off + k))) j

u16_le-lt : (b : List ℕ) (off : ℕ) → IsBytes b → u16_le b off < 2 ^ 16
u16_le-lt b off h = omega (arith, h off, h (off + 1))

-- The bytes of an inode are fields of the right width.
pub read_from-IsRaw : (b : List ℕ) → IsBytes b → length b ≡ 128 → IsRaw (read_from b)
unfolding read_from
read_from-IsRaw b h l =
    let half = λ (off : ℕ). u16_le-lt b off h in
    record {
      i_mode-lt = half 0;
      i_uid-lt = half 2;
      i_size_lo-lt = omega (arith, half 4, half 6);
      i_atime-lt = omega (arith, half 8, half 10);
      i_ctime-lt = omega (arith, half 12, half 14);
      i_mtime-lt = omega (arith, half 16, half 18);
      i_dtime-lt = omega (arith, half 20, half 22);
      i_gid-lt = half 24;
      i_links_count-lt = half 26;
      i_blocks_lo-lt = omega (arith, half 28, half 30);
      i_flags-lt = omega (arith, half 32, half 34);
      length-osd1 = omega (arith, length-take 4 (drop 36 b), length-drop 36 b);
      length-i_block = omega (arith, length-take 60 (drop 40 b), length-drop 40 b);
      i_generation-lt = omega (arith, half 100, half 102);
      i_file_acl_lo-lt = omega (arith, half 104, half 106);
      i_size_hi-lt = omega (arith, half 108, half 110);
      i_obso_faddr-lt = omega (arith, half 112, half 114);
      length-osd2 = omega (arith, length-take 12 (drop 116 b), length-drop 116 b);
    }

-- A value that is given replaces the field.
abbrev pub given {ℓ} : {A : Type ℓ} → Option A → A → A
given none old = old
given (some v) old = v

-- The inode with the given fields.
abbrev pub updated : InodeUpdate → Inode → Inode
updated u i = record i {
  size = given u.size i.size;
  mode = given u.mode i.mode;
  uid = given u.uid i.uid;
  gid = given u.gid i.gid;
  atime = given u.atime i.atime;
  mtime = given u.mtime i.mtime;
  ctime = given u.ctime i.ctime;
  links_count = given u.links_count i.links_count;
  flags = given u.flags i.flags;
}

-- The given values have the widths of their types.
pub record IsSized (u : InodeUpdate) : Type 0 where
  pub size-lt : given u.size 0 < 2 ^ 64
  pub mode-lt : given u.mode 0 < 2 ^ 16
  pub uid-lt : given u.uid 0 < 2 ^ 32
  pub gid-lt : given u.gid 0 < 2 ^ 32
  pub atime-lt : given u.atime 0 < 2 ^ 32
  pub mtime-lt : given u.mtime 0 < 2 ^ 32
  pub ctime-lt : given u.ctime 0 < 2 ^ 32
  pub links_count-lt : given u.links_count 0 < 2 ^ 16
  pub flags-lt : given u.flags 0 < 2 ^ 32

-- A raw inode, its time of deletion and what is parsed of it.
abbrev Parses : ℕ → RawInode → Inode → Type 0
Parses d r i = IsRaw r × (parse_raw r ≡ i) × (r.i_dtime ≡ d)

-- One `if let` of `update_inode`, on a field of the parsed inode.
step :
    (o : Option ℕ) (write : ℕ → RawInode → RawInode) (put : ℕ → Inode → Inode) (get : Inode → ℕ)
    (bound d : ℕ) (r : RawInode) (i : Inode)
    → given o 0 < bound
    → put (get i) i ≡ i
    → ((v : ℕ) → v < bound → Parses d (write v r) (put v i))
    → Parses d r i
    → Parses d (when_some o write r) (put (given o (get i)) i)
step none write put get bound d r i lt same h p = (p.0, p.1 ∙ sym same, p.2)
step (some v) write put get bound d r i lt same h p = h v lt

module _ (d : ℕ) (r : RawInode) (i : Inode) (p : Parses d r i) (v : ℕ) where
  Parses-mode : v < 2 ^ 16 → Parses d (record r { i_mode = u16 v }) (record i { mode = v })
  unfolding parse_raw
  Parses-mode lt =
      let w = widths r p.0 in
      let e : u16 v ≡ v = omega arith in
      (IsRaw-from _ (ground arith), (λ k. record (p.1 k) { mode = e k }), p.2)

  Parses-links_count :
      v < 2 ^ 16 → Parses d (record r { i_links_count = u16 v }) (record i { links_count = v })
  unfolding parse_raw
  Parses-links_count lt =
      let w = widths r p.0 in
      let e : u16 v ≡ v = omega arith in
      (IsRaw-from _ (ground arith), (λ k. record (p.1 k) { links_count = e k }), p.2)

  Parses-atime : v < 2 ^ 32 → Parses d (record r { i_atime = u32 v }) (record i { atime = v })
  unfolding parse_raw
  Parses-atime lt =
      let w = widths r p.0 in
      let e : u32 v ≡ v = omega arith in
      (IsRaw-from _ (ground arith), (λ k. record (p.1 k) { atime = e k }), p.2)

  Parses-mtime : v < 2 ^ 32 → Parses d (record r { i_mtime = u32 v }) (record i { mtime = v })
  unfolding parse_raw
  Parses-mtime lt =
      let w = widths r p.0 in
      let e : u32 v ≡ v = omega arith in
      (IsRaw-from _ (ground arith), (λ k. record (p.1 k) { mtime = e k }), p.2)

  Parses-ctime : v < 2 ^ 32 → Parses d (record r { i_ctime = u32 v }) (record i { ctime = v })
  unfolding parse_raw
  Parses-ctime lt =
      let w = widths r p.0 in
      let e : u32 v ≡ v = omega arith in
      (IsRaw-from _ (ground arith), (λ k. record (p.1 k) { ctime = e k }), p.2)

  Parses-flags : v < 2 ^ 32 → Parses d (record r { i_flags = u32 v }) (record i { flags = v })
  unfolding parse_raw
  Parses-flags lt =
      let w = widths r p.0 in
      let e : u32 v ≡ v = omega arith in
      (IsRaw-from _ (ground arith), (λ k. record (p.1 k) { flags = e k }), p.2)

  Parses-size : v < 2 ^ 64 → Parses d (apply_size v r) (record i { size = v })
  unfolding parse_raw apply_size
  Parses-size lt =
      let w = widths r p.0 in
      let e : u32 v + u32 (v >>> 32) * 2 ^ 32 ≡ v = omega arith in
      (IsRaw-from _ (ground arith), (λ k. record (p.1 k) { size = e k }), p.2)

  Parses-uid : v < 2 ^ 32 → Parses d (apply_uid v r) (record i { uid = v })
  unfolding parse_raw apply_uid
  Parses-uid lt =
      let w = widths r p.0 in
      let size = p.0.length-osd2 in
      let high = u16_le-splice_self r.osd2 4 (v >>> 16) (omega arith) in
      let e : u16 v + u16_le (splice r.osd2 4 (bytes_u16_le (v >>> 16))) 4 * 2 ^ 16 ≡ v =
        omega arith in
      let other = u16_le-splice r.osd2 4 (bytes_u16_le (v >>> 16)) 6 (inr (omega arith)) in
      let g : r.i_gid + u16_le (splice r.osd2 4 (bytes_u16_le (v >>> 16))) 6 * 2 ^ 16 ≡ i.gid =
        ap (λ (t : ℕ). r.i_gid + t * 2 ^ 16) other ∙ ap (λ (t : Inode). t.gid) p.1 in
      (
        IsRaw-from _ (ground (arith, length-splice r.osd2 4 (bytes_u16_le (v >>> 16)))),
        (λ k. record (p.1 k) { uid = e k; gid = g k }),
        p.2,
      )

  Parses-gid : v < 2 ^ 32 → Parses d (apply_gid v r) (record i { gid = v })
  unfolding parse_raw apply_gid
  Parses-gid lt =
      let w = widths r p.0 in
      let size = p.0.length-osd2 in
      let high = u16_le-splice_self r.osd2 6 (v >>> 16) (omega arith) in
      let e : u16 v + u16_le (splice r.osd2 6 (bytes_u16_le (v >>> 16))) 6 * 2 ^ 16 ≡ v =
        omega arith in
      let other = u16_le-splice r.osd2 6 (bytes_u16_le (v >>> 16)) 4 (inl (omega arith)) in
      let g : r.i_uid + u16_le (splice r.osd2 6 (bytes_u16_le (v >>> 16))) 4 * 2 ^ 16 ≡ i.uid =
        ap (λ (t : ℕ). r.i_uid + t * 2 ^ 16) other ∙ ap (λ (t : Inode). t.uid) p.1 in
      (
        IsRaw-from _ (ground (arith, length-splice r.osd2 6 (bytes_u16_le (v >>> 16)))),
        (λ k. record (p.1 k) { gid = e k; uid = g k }),
        p.2,
      )

-- Parsing the fields that `update_inode` left gives the parsed inode with the given
-- values, each of the width of its type; the time of deletion stays.
pub parse_raw-apply_update :
    (u : InodeUpdate) (r : RawInode)
    → IsSized u
    → IsRaw r
    → IsRaw (apply_update u r)
      × (parse_raw (apply_update u r) ≡ updated u (parse_raw r))
      × ((apply_update u r).i_dtime ≡ r.i_dtime)
unfolding apply_update
parse_raw-apply_update u r sized raw =
    let p₁ =
      step u.size apply_size (λ v i. record i { size = v }) (λ i. i.size) _ _ r _ sized.size-lt refl
        (λ v. Parses-size r.i_dtime r _ (raw, refl, refl) v) (raw, refl, refl) in
    let p₂ =
      step u.mode _ (λ v i. record i { mode = v }) (λ i. i.mode) _ _ _ _ sized.mode-lt refl
        (λ v. Parses-mode _ _ _ p₁ v) p₁ in
    let p₃ =
      step u.atime _ (λ v i. record i { atime = v }) (λ i. i.atime) _ _ _ _ sized.atime-lt refl
        (λ v. Parses-atime _ _ _ p₂ v) p₂ in
    let p₄ =
      step u.mtime _ (λ v i. record i { mtime = v }) (λ i. i.mtime) _ _ _ _ sized.mtime-lt refl
        (λ v. Parses-mtime _ _ _ p₃ v) p₃ in
    let p₅ =
      step u.ctime _ (λ v i. record i { ctime = v }) (λ i. i.ctime) _ _ _ _ sized.ctime-lt refl
        (λ v. Parses-ctime _ _ _ p₄ v) p₄ in
    let p₆ =
      step u.links_count _ (λ v i. record i { links_count = v }) (λ i. i.links_count) _ _ _ _
        sized.links_count-lt refl (λ v. Parses-links_count _ _ _ p₅ v) p₅ in
    let p₇ =
      step u.flags _ (λ v i. record i { flags = v }) (λ i. i.flags) _ _ _ _ sized.flags-lt refl
        (λ v. Parses-flags _ _ _ p₆ v) p₆ in
    let p₈ =
      step u.uid apply_uid (λ v i. record i { uid = v }) (λ i. i.uid) _ _ _ _ sized.uid-lt refl
        (λ v. Parses-uid _ _ _ p₇ v) p₇ in
    step u.gid apply_gid (λ v i. record i { gid = v }) (λ i. i.gid) _ _ _ _ sized.gid-lt refl
      (λ v. Parses-gid _ _ _ p₈ v) p₈
