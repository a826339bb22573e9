-- ===== src/Inode/Write/ReadBack.antt =====
-- `update_inode` of `ext4-core/src/inode_write.rs` and `read_inode_with_txn` of `inode.rs`
-- together: an update is seen by the next read in the same transaction.
use pengwin.Base.{
  ℕ, zero, suc, ◌+◌, ◌-◌, ◌*◌, ◌/◌, ◌%◌, ◌≤◌, ◌==◌, ==_self, ◌≡◌, refl, sym, ◌∙◌, ap, inl, inr,
  true, Bool-cases, arith, some, Option-cases, List, [], ◌∷◌, length, take, drop, slice, splice,
  if◌then◌else◌, leb, leb→le, ok, err, map_err, map_err-eq-ok, ensure-eq-ok, >>=-eq-ok, done, reads,
  reads-eq-done, >>=-eq-done, u64, length-splice, length-take, length-drop, IsBytes,
}
use mathlib.Core.Path.{subst}
use pengwin.Device.{BlockDevice, IsLawful}
use pengwin.Device.Transfer.{read_sectors-IsBytes}
use pengwin.Superblock.{Superblock}
use pengwin.Superblock.Valid.{IsValid}
use pengwin.GroupDesc
use pengwin.GroupDesc.{GroupDesc}
use pengwin.Journal.Transaction.{pinned, pin_block}
use pengwin.Journal.Transaction.Pins.{IsDeduplicated, pinned-pin_block}
use pengwin.WriteState.{WriteState}
use pengwin.Inode.{
  Inode, deleted, parse_raw, parse_live, in_range, read_pinned, read_in_group, read_inode_with_txn,
}
use pengwin.Inode.Raw.{RawInode, read_from, as_bytes}
use pengwin.Inode.Raw.Layout.{read_from-as_bytes, length-as_bytes}
use pengwin.Inode.Write.{
  InodeUpdate, block_device, group_desc, apply_update, inode_location, patch_inode, current_block,
  update_at, update_inode,
}
use pengwin.Inode.Write.Location.{inode_location-agree}
use pengwin.Inode.Write.Update.{
  updated, IsSized, parse_raw-apply_update, read_from-IsRaw, slice-IsBytes,
}

take-splice {ℓ} :
    {A : Type ℓ} (n : ℕ) (xs ys : List A)
    → length ys ≡ n
    → n ≤ length xs
    → take n (splice xs 0 ys) ≡ ys
take-splice zero xs [] e h = refl
take-splice zero xs (y ∷ ys) e h = absurd (omega arith)
take-splice (suc n) xs [] e h = absurd (omega arith)
take-splice (suc n) [] (y ∷ ys) e h = absurd (omega arith)
take-splice (suc n) (x ∷ xs) (y ∷ ys) e h =
    ap (◌∷◌ y) (take-splice n xs ys (omega arith) (omega arith))

slice-splice_self {ℓ} :
    {A : Type ℓ} (off n : ℕ) (xs ys : List A)
    → length ys ≡ n
    → off + n ≤ length xs
    → slice (splice xs off ys) off n ≡ ys
slice-splice_self zero n xs ys e h = take-splice n xs ys e (omega arith)
slice-splice_self (suc off) n [] ys e h = absurd (omega arith)
slice-splice_self (suc off) n (x ∷ xs) ys e h = slice-splice_self off n xs ys e (omega arith)

-- A patched block holds the updated inode.
patch_inode_facts :
    (u : InodeUpdate) (off : ℕ) (bytes : List ℕ) {patched : List ℕ}
    → IsBytes bytes
    → IsSized u
    → patch_inode u off bytes ≡ ok patched
    → (let old = read_from (slice bytes off 128) in
        let new = read_from (slice patched off 128) in
        (leb (off + 128) (length patched) ≡ true)
        × (parse_raw new ≡ updated u (parse_raw old))
        × (new.i_dtime ≡ old.i_dtime))
unfolding patch_inode
patch_inode_facts u off bytes {patched} whole sized h =
    let old = slice bytes off 128 in
    let new = as_bytes (apply_update u (read_from old)) in
    let (inside, e) =
      ensure-eq-ok (leb (off + 128) (length bytes)) _ (ok (splice bytes off new)) h in
    let size : length old ≡ 128 =
      omega (arith, leb→le _ _ inside, length-take 128 (drop off bytes), length-drop off bytes) in
    let raw = read_from-IsRaw old (slice-IsBytes bytes off 128 whole) size in
    let (raw', parsed, dtime) = parse_raw-apply_update u (read_from old) sized raw in
    let e' : splice bytes off new ≡ patched = cc in
    let at : read_from (slice (splice bytes off new) off 128) ≡ apply_update u (read_from old) =
      ap read_from (
        slice-splice_self off 128 bytes new (length-as_bytes (apply_update u (read_from old)) raw')
          (leb→le _ _ inside))
      ∙ read_from-as_bytes (apply_update u (read_from old)) raw' in
    (rw (← e', length-splice bytes off new) inside, rw (← e', at) parsed, rw (← e', at) dtime)

-- What a live inode parses to, or that it was deleted.
parse_live_facts :
    (new old : RawInode) (i : Inode) (inode_num : ℕ)
    → parse_raw new ≡ i
    → new.i_dtime ≡ old.i_dtime
    → parse_live new inode_num ≡ (if old.i_dtime == 0 then ok i else err (deleted inode_num))
unfolding parse_live parse_raw
parse_live_facts new old i inode_num parsed dtime =
    rw dtime
      (elim (Bool-cases (old.i_dtime == 0)) [ inl live ↦ rw (live, parsed) | inr gone ↦ rw gone ])

module _ (D : BlockDevice) (sb : Superblock) where
  -- The inode's 128 bytes in its block as pinned, or else as stored, are `raw`.
  pub record IsCurrent (s : WriteState D) (inode_num : ℕ) (raw : RawInode) : Type 0 where
    pub desc : GroupDesc
    pub found : GroupDesc.get s.gdt ((inode_num - 1) / sb.inodes_per_group) ≡ ok desc
    pub block : ℕ
    pub block-eq :
        block
        ≡ u64 (
            desc.inode_table
            + (inode_num - 1) % sb.inodes_per_group / (sb.block_size / sb.inode_size))
    pub bytes : List ℕ
    pub loaded : current_block D sb block s ≡ ok bytes
    pub raw-eq :
        raw
        ≡ read_from (
            slice bytes
              ((inode_num - 1)
                % sb.inodes_per_group
                % (sb.block_size / sb.inode_size)
                * sb.inode_size)
              128)

  -- Every pinned block is a list of bytes.
  abbrev pub HasBytePins : WriteState D → Type 0
  HasBytePins s = (k : ℕ) (b : List ℕ) → pinned s.txn k ≡ some b → IsBytes b

  current_block-IsBytes :
      IsLawful D
      → (s : WriteState D) (k : ℕ) {bytes : List ℕ} → HasBytePins s
      → current_block D sb k s ≡ ok bytes
      → IsBytes bytes
  unfolding current_block
  current_block-IsBytes lawful s k {bytes} pins h = elim (Option-cases (pinned s.txn k)) [
    | inl absent ↦
        read_sectors-IsBytes D lawful s.dev _ _
          (map_err-eq-ok block_device _ (rw (current_block, absent) at h))
    | inr (b, hit) ↦
        let e : b ≡ bytes = (let h' = rw (current_block, hit) at h in cc) in
        subst IsBytes e (pins k b hit)
  ]

  update_at_facts :
      (u : InodeUpdate) (block off : ℕ) (s : WriteState D) {t : WriteState D}
      → update_at D sb u block off s ≡ done tt t
      → (bytes : List ℕ) × (patched : List ℕ) × (current_block D sb block s ≡ ok bytes)
        × (patch_inode u off bytes ≡ ok patched)
        × (t.gdt ≡ s.gdt)
        × (t.txn ≡ pin_block block patched s.txn)
  unfolding update_at
  update_at_facts u block off s {t} h =
      let (bytes, s₁, e₁, h₁) = >>=-eq-done (reads (current_block D sb block)) _ s h in
      let (loaded, same₁) = reads-eq-done (current_block D sb block) s e₁ in
      let (patched, s₂, e₂, h₂) = >>=-eq-done (reads (λ _. patch_inode u off bytes)) _ s₁ h₁ in
      let (wrote, same₂) = reads-eq-done (λ _. patch_inode u off bytes) s₁ e₂ in
      (bytes, patched, loaded, wrote, cc, cc)

  update_inode_facts :
      (u : InodeUpdate) (inode_num : ℕ) (s : WriteState D) {t : WriteState D}
      → update_inode D sb inode_num u s ≡ done tt t
      → (table : ℕ) × (off : ℕ) × (inode_location sb s.gdt inode_num ≡ ok (table, off))
        × (update_at D sb u (u64 (table + off / sb.block_size)) (off % sb.block_size) s ≡ done tt t)
  unfolding update_inode
  update_inode_facts u inode_num s {t} h =
      let (at, s₁, e₁, h₁) = >>=-eq-done (reads (λ s. inode_location sb s.gdt inode_num)) _ s h in
      let (located, same₁) =
        reads-eq-done (λ (s : WriteState D). inode_location sb s.gdt inode_num) s e₁ in
      (at.0, at.1, located, rw (← same₁) at h₁)

  inode_location_facts :
      (s : WriteState D) (inode_num : ℕ) {table off : ℕ}
      → inode_location sb s.gdt inode_num ≡ ok (table, off)
      → (desc : GroupDesc) × (in_range sb inode_num ≡ true)
        × (GroupDesc.get s.gdt ((inode_num - 1) / sb.inodes_per_group) ≡ ok desc)
        × (table ≡ desc.inode_table)
        × (off ≡ (inode_num - 1) % sb.inodes_per_group * sb.inode_size)
  unfolding inode_location
  inode_location_facts s inode_num {table} {off} h =
      let (inside, h₁) = ensure-eq-ok (in_range sb inode_num) _ _ h in
      let (desc, e, h₂) =
        >>=-eq-ok (map_err group_desc (GroupDesc.get s.gdt ((inode_num - 1) / sb.inodes_per_group)))
          _ h₁ in
      (desc, inside, map_err-eq-ok group_desc _ e, cc, cc)

  read_in_group_hit :
      (t : WriteState D) (inode_num : ℕ) (desc : GroupDesc) (bytes : List ℕ)
      → (let index = (inode_num - 1) % sb.inodes_per_group in
          let off = index % (sb.block_size / sb.inode_size) * sb.inode_size in
          pinned t.txn (u64 (desc.inode_table + index / (sb.block_size / sb.inode_size)))
            ≡ some bytes
          → leb (off + 128) (length bytes) ≡ true
          → read_in_group D t.dev sb t.gdt t.txn inode_num desc
            ≡ parse_live (read_from (slice bytes off 128)) inode_num)
  unfolding read_in_group read_pinned
  read_in_group_hit t inode_num desc bytes hit room =
      rw (read_in_group, hit) (rw (read_pinned, room) refl)

  -- Reading an inode whose block is pinned.
  read_hit :
      (t : WriteState D) (inode_num : ℕ) (desc : GroupDesc) (bytes : List ℕ)
      → in_range sb inode_num ≡ true
      → GroupDesc.get t.gdt ((inode_num - 1) / sb.inodes_per_group) ≡ ok desc
      → (let index = (inode_num - 1) % sb.inodes_per_group in
          let off = index % (sb.block_size / sb.inode_size) * sb.inode_size in
          pinned t.txn (u64 (desc.inode_table + index / (sb.block_size / sb.inode_size)))
            ≡ some bytes
          → leb (off + 128) (length bytes) ≡ true
          → read_inode_with_txn D t.dev sb t.gdt t.txn inode_num
            ≡ parse_live (read_from (slice bytes off 128)) inode_num)
  unfolding read_inode_with_txn
  read_hit t inode_num desc bytes inside found hit room =
      rw (inside, found) (read_in_group_hit t inode_num desc bytes hit room)

  module _ (lawful : IsLawful D) (valid : IsValid sb) where
    -- On a lawful device with a valid superblock, and in a transaction that pins no block twice
    -- and pins lists of bytes: after a successful `update_inode` with values of the widths of
    -- their types, `read_inode_with_txn` of the same inode gives the inode as it was in the
    -- pinned or stored block, with exactly the given fields replaced; if that inode was deleted,
    -- it reports so.
    pub read_inode_with_txn-update_inode :
        (u : InodeUpdate) (inode_num : ℕ) (s t : WriteState D)
        → IsSized u
        → IsDeduplicated s.txn.blocks
        → HasBytePins s
        → update_inode D sb inode_num u s ≡ done tt t
        → (raw : RawInode) × IsCurrent s inode_num raw
          × (read_inode_with_txn D t.dev sb t.gdt t.txn inode_num ≡ (
              if raw.i_dtime == 0 then ok (updated u (parse_raw raw)) else err (deleted inode_num)))
    read_inode_with_txn-update_inode u inode_num s t sized dedup pins h =
        let (table, off, located, h₁) = update_inode_facts u inode_num s h in
        let (desc, inside, found, table_eq, off_eq) = inode_location_facts s inode_num located in
        let index = (inode_num - 1) % sb.inodes_per_group in
        let (same_block, same_off, room) = inode_location-agree sb index valid in
        let block = u64 (table + off / sb.block_size) in
        let (bytes, patched, loaded, wrote, same_gdt, pinned_eq) =
          update_at_facts u block (off % sb.block_size) s h₁ in
        let whole = current_block-IsBytes lawful s block pins loaded in
        let (long, parsed, dtime) =
          patch_inode_facts u (off % sb.block_size) bytes whole sized wrote in
        let at : off % sb.block_size ≡ index % (sb.block_size / sb.inode_size) * sb.inode_size =
          rw off_eq same_off in
        let here : block ≡ u64 (desc.inode_table + index / (sb.block_size / sb.inode_size)) =
          rw (table_eq, off_eq, same_block) in
        let (_, pins', _) = pinned-pin_block block patched s.txn dedup in
        let hit : pinned t.txn block ≡ some patched =
          rw pinned_eq (pins' block ∙ rw (==_self block)) in
        let found' = rw (← same_gdt) at found in
        (
          read_from (slice bytes (off % sb.block_size) 128),
          record {
            desc = desc;
            found = found;
            block = block;
            block-eq = here;
            bytes = bytes;
            loaded = loaded;
            raw-eq = rw at;
          },
          read_hit t inode_num desc patched inside found' (rw here at hit) (rw at at long)
              ∙ ap (λ k. parse_live (read_from (slice patched k 128)) inode_num) (sym at)
              ∙ parse_live_facts (read_from (slice patched (off % sb.block_size) 128))
                  (read_from (slice bytes (off % sb.block_size) 128)) _ inode_num parsed dtime,
        )
