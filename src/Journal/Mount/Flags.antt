-- ===== src/Journal/Mount/Flags.antt =====
-- The flag of a clean unmount, as `ext4-core/src/journal/mount.rs` changes it and `superblock.rs`
-- reads it.
use pengwin.Base.{
  ℕ, zero, suc, ◌+◌, ◌*◌, ◌/◌, ◌^◌, ◌≤◌, ◌≡◌, Apart, refl, ◌∙◌, ap, inl, inr, arith, ltb, ◌==◌,
  ==_iff, if◌then◌else◌, List, [], ◌∷◌, length, drop, slice, splice, length-splice, u16, u16_le,
  u32_le, bytes_u16_le, u16_le-splice, u32_le-splice, u16_le-splice_self, ok, map_err,
  map_err-eq-ok, ensure-eq-ok, >>=-eq-ok, done, reads, reads-eq-done, map_fail, map_fail-eq-done,
  >>=-eq-done,
}
use mathlib.Core.Path.{subst}
use pengwin.Device.{BlockDevice, IsLawful, read_loop, read_sectors, write_sectors}
use pengwin.Device.Transfer.{read_sectors-write_sectors}
use pengwin.Superblock.{
  Superblock, check_format, parse_inode_size, check_geometry, until_zero, from_raw, parse_bytes,
  parse, block_device,
}
use pengwin.Superblock.Raw.{s_state, s_uuid, s_volume_name}
use pengwin.Journal.Mount
use pengwin.Journal.Mount.{
  MountError, invalid_buffer, patch_state, change_state, with_valid, without_valid, set_dirty_flag,
  clear_dirty_flag, unmount,
}

drop-splice :
    (d : List ℕ) (i : ℕ) (ys : List ℕ) (off : ℕ)
    → i + length ys ≤ off
    → drop off (splice d i ys) ≡ drop off d
drop-splice [] i ys off h = refl
drop-splice (x ∷ d) zero [] off h = refl
drop-splice (x ∷ d) zero (y ∷ ys) zero h = absurd (omega arith)
drop-splice (x ∷ d) zero (y ∷ ys) (suc off) h = drop-splice d zero ys off (omega arith)
drop-splice (x ∷ d) (suc i) ys zero h = absurd (omega arith)
drop-splice (x ∷ d) (suc i) ys (suc off) h = drop-splice d i ys off (omega arith)

-- A superblock with another state.
module _ (raw : List ℕ) (v : ℕ) where
  abbrev patched : List ℕ
  patched = splice raw 58 (bytes_u16_le v)

  half : (off : ℕ) → Apart off 2 58 2 → u16_le patched off ≡ u16_le raw off
  half off h = u16_le-splice raw 58 (bytes_u16_le v) off h

  word : (off : ℕ) → Apart off 4 58 2 → u32_le patched off ≡ u32_le raw off
  word off h = u32_le-splice raw 58 (bytes_u16_le v) off h

  check_format-patched : check_format patched ≡ check_format raw
  unfolding check_format
  check_format-patched =
      rw
        (
          length-splice raw 58 (bytes_u16_le v),
          half 56 (inl (omega arith)),
          word 96 (inr (omega arith)),
          word 24 (inl (omega arith)),
        )
        refl

  parse_inode_size-patched : parse_inode_size patched ≡ parse_inode_size raw
  unfolding parse_inode_size
  parse_inode_size-patched = rw (word 64 (inr (omega arith)), half 88 (inr (omega arith))) refl

  check_geometry-patched : check_geometry patched ≡ check_geometry raw
  unfolding check_geometry
  check_geometry-patched = rw (word 40 (inl (omega arith)), word 32 (inl (omega arith))) refl

  from_raw-patched :
      (inode_size : ℕ)
      → 60 ≤ length raw
      → from_raw patched inode_size ≡ record (from_raw raw inode_size) { state = u16 v }
  unfolding from_raw
  from_raw-patched inode_size size =
      let log = word 24 (inl (omega arith)) in
      let hi = word 336 (inr (omega arith)) in
      let lo = word 4 (inl (omega arith)) in
      let inodes = word 0 (inl (omega arith)) in
      let per_inodes = word 40 (inl (omega arith)) in
      let per_blocks = word 32 (inl (omega arith)) in
      let first = word 20 (inl (omega arith)) in
      let uuid' : s_uuid patched ≡ s_uuid raw =
        ap (λ (b : List ℕ). slice b 0 16) (drop-splice raw 58 (bytes_u16_le v) 104 (omega arith)) in
      let name' : s_volume_name patched ≡ s_volume_name raw =
        ap (λ (b : List ℕ). slice b 0 16) (drop-splice raw 58 (bytes_u16_le v) 120 (omega arith)) in
      let desc = half 254 (inr (omega arith)) in
      let incompat = word 96 (inr (omega arith)) in
      let ro = word 100 (inr (omega arith)) in
      let new : s_state patched ≡ u16 v = u16_le-splice_self raw 58 v (omega arith) in
      λ k. record {
        block_size = 1024 * 2 ^ log k;
        blocks_count = hi k * 2 ^ 32 + lo k;
        inodes_count = inodes k;
        inodes_per_group = per_inodes k;
        blocks_per_group = per_blocks k;
        first_data_block = first k;
        uuid = uuid' k;
        volume_name = until_zero (name' k);
        desc_size = if ltb (desc k) 32 then 32 else desc k;
        feature_incompat = incompat k;
        feature_ro_compat = ro k;
        inode_size = inode_size;
        state = new k;
      }

  parse_bytes-patched :
      {sb : Superblock}
      → 60 ≤ length raw
      → parse_bytes raw ≡ ok sb
      → (s_state raw ≡ sb.state) × (parse_bytes patched ≡ ok (record sb { state = u16 v }))
  unfolding parse_bytes
  parse_bytes-patched {sb} size h =
      let (_, e₁, h₁) = >>=-eq-ok (check_format raw) _ h in
      let (n, e₂, h₂) = >>=-eq-ok (parse_inode_size raw) _ h₁ in
      let (_, e₃, h₃) = >>=-eq-ok (check_geometry raw) _ h₂ in
      let e : from_raw raw n ≡ sb = cc in
      (
        unfold from_raw in ap (λ (s : Superblock). s.state) e,
        rw (check_format-patched, e₁, parse_inode_size-patched, e₂, check_geometry-patched, e₃)
            (ap ok (from_raw-patched n size ∙ (λ k. record (e k) { state = u16 v }))),
      )

patch_facts :
    (f : ℕ → ℕ) (bytes : List ℕ) {out : List ℕ}
    → patch_state f bytes ≡ ok out
    → (length bytes ≡ 1024) × (out ≡ splice bytes 58 (bytes_u16_le (f (s_state bytes))))
unfolding patch_state
patch_facts f bytes h =
    let (size, h₁) = ensure-eq-ok (length bytes == 1024) invalid_buffer _ h in
    ((==_iff _ _).0 size, cc)

module _ (D : BlockDevice) (lawful : IsLawful D) where
  parse-change_state :
      (f : ℕ → ℕ) (d d' : D.Dev) {sb : Superblock}
      → parse D d ≡ ok sb
      → change_state D f d ≡ done tt d'
      → parse D d' ≡ ok (record sb { state = u16 (f sb.state) })
  unfolding parse change_state patch_state
  parse-change_state f d d' {sb} h c =
      let (bytes, e₁, h₁) = >>=-eq-ok (map_err block_device (read_sectors D d 2 2)) _ h in
      let loaded = map_err-eq-ok block_device _ e₁ in
      let (bytes', d₁, r₁, c₁) =
        >>=-eq-done (reads (λ (u : D.Dev). map_err Mount.block_device (read_sectors D u 2 2))) _ d
          c in
      let (q₁, same₁) =
        reads-eq-done (λ (u : D.Dev). map_err Mount.block_device (read_sectors D u 2 2)) d r₁ in
      let loaded' = map_err-eq-ok Mount.block_device _ q₁ in
      let same : bytes' ≡ bytes = cc in
      let (written, d₂, r₂, c₂) =
        >>=-eq-done (reads (λ (u : D.Dev). patch_state f bytes')) _ d₁ c₁ in
      let (q₂, same₂) = reads-eq-done (λ (u : D.Dev). patch_state f bytes') d₁ r₂ in
      let (size, p) = patch_facts f bytes' q₂ in
      let wrote = map_fail-eq-done Mount.block_device (write_sectors D 2 written) d₂ c₂ in
      let long : length written ≡ 1024 = rw p (length-splice bytes' 58 _ ∙ size) in
      let back : read_sectors D d' 2 (length written / 512) ≡ ok written =
        read_sectors-write_sectors D lawful 2 written d₂ d' (omega arith) wrote in
      let two : length written / 512 ≡ 2 = omega arith in
      let back' : read_sectors D d' 2 2 ≡ ok written =
        subst (λ n. read_sectors D d' 2 n ≡ ok written) two back in
      let whole : length bytes ≡ 1024 = rw (← same) size in
      let (state, again) =
        parse_bytes-patched bytes (f (s_state bytes)) (omega (arith, whole)) h₁ in
      rw (parse, back', p, same, again, state) refl

  parse-flush : (d d' : D.Dev) → D.flush d ≡ done tt d' → parse D d' ≡ parse D d
  unfolding parse read_sectors read_loop
  parse-flush d d' h = rw (lawful.read-flush d d' 2 h, lawful.read-flush d d' 3 h) refl

  -- On a lawful device whose superblock parses, a successful `set_dirty_flag` leaves one that
  -- parses to the same but for the state, in which the flag of a clean unmount is masked out.
  pub parse-set_dirty_flag :
      (d d' : D.Dev) {sb : Superblock}
      → parse D d ≡ ok sb
      → set_dirty_flag D d ≡ done tt d'
      → parse D d' ≡ ok (record sb { state = u16 (without_valid sb.state) })
  unfolding set_dirty_flag
  parse-set_dirty_flag d d' h c = parse-change_state without_valid d d' h c

  -- The flag is set and the device flushed.
  parse-clear_dirty_flag :
      (d d' : D.Dev) {sb : Superblock}
      → parse D d ≡ ok sb
      → clear_dirty_flag D d ≡ done tt d'
      → parse D d' ≡ ok (record sb { state = u16 (with_valid sb.state) })
  unfolding clear_dirty_flag
  parse-clear_dirty_flag d d' h c =
      let (_, u, e, c₁) =
        >>=-eq-done (change_state D with_valid) (λ _. map_fail Mount.block_device D.flush) d c in
      let flushed = map_fail-eq-done Mount.block_device D.flush u c₁ in
      rw (parse-flush u d' flushed) (parse-change_state with_valid d u h e)

  -- On a lawful device whose superblock parses, a successful unmount leaves one that parses to the
  -- same but for the state, in which the flag of a clean unmount is set.
  pub parse-unmount :
      (d d' : D.Dev) {sb : Superblock}
      → parse D d ≡ ok sb
      → unmount D d ≡ done tt d'
      → parse D d' ≡ ok (record sb { state = u16 (with_valid sb.state) })
  unfolding unmount
  parse-unmount d d' h c =
      let (_, u, e, c₁) =
        >>=-eq-done (clear_dirty_flag D) (λ _. map_fail Mount.block_device D.flush) d c in
      rw (parse-flush u d' (map_fail-eq-done Mount.block_device D.flush u c₁))
        (parse-clear_dirty_flag d u h e)
