-- ===== src/Extent/Write/Truncate/Subtree.antt =====
-- `free_subtree` of `ext4-core/src/extent_write.rs` on index nodes.
use pengwin.Base.{
  ℕ, zero, suc, ◌≡◌, refl, List, ok, done, reads, reads-eq-done, map_fail, map_fail-eq-done,
  >>=-eq-done,
}
use mathlib.Core.Path.{subst}
use pengwin.Device.{BlockDevice, IsLawful}
use pengwin.Superblock.{Superblock}
use pengwin.Superblock.Valid.{IsValid}
use pengwin.Journal.Transaction
use pengwin.WriteState.{WriteState, on_txn}
use pengwin.Alloc.Blocks.{free_block}
use pengwin.Alloc.Blocks.Free.{IsFreed, free_block-IsFreed}
use pengwin.Alloc.Blocks.Twice.{freed_again}
use pengwin.Extent.{ExtentHeader, idx_child}
use pengwin.Extent.Write.{ExtentWriteError, alloc, parse_header, read_block}
use pengwin.Extent.Write.Truncate.{
  free_and_revoke, free_leaves, free_children, free_subtree, idx_in,
}

module _ (D : BlockDevice) (sb : Superblock) where
  freed :
      IsLawful D
      → IsValid sb
      → (block : ℕ) (s t : WriteState D) → free_and_revoke D sb block s ≡ done tt t
      → IsFreed D sb block s t
  unfolding free_and_revoke
  freed lawful valid block s t h =
      let (_, u, e, h₁) =
        >>=-eq-done (map_fail alloc (free_block D sb block))
          (λ _. on_txn D (Transaction.revoke_block block)) s h in
      let f =
        free_block-IsFreed D sb lawful valid block s u
          (map_fail-eq-done alloc (free_block D sb block) s e) in
      let revoked : record u { txn = Transaction.revoke_block block u.txn } ≡ t = cc in
      subst (IsFreed D sb block s) revoked (record {
        desc = f.desc;
        found = f.found;
        bitmap = f.bitmap;
        loaded = f.loaded;
        inside = f.inside;
        taken = f.taken;
        stored = f.stored;
        counted = f.counted;
      })

  -- A block cannot be freed twice in a row.
  not_twice :
      IsLawful D
      → IsValid sb
      → (block : ℕ) (s t u : WriteState D) → free_and_revoke D sb block s ≡ done tt t
      → free_and_revoke D sb block t ≡ done tt u
      → ⊥
  unfolding free_and_revoke
  not_twice lawful valid block s t u h h' =
      let (_, v, e, _) =
        >>=-eq-done (map_fail alloc (free_block D sb block))
          (λ _. on_txn D (Transaction.revoke_block block)) t h' in
      let again = freed_again D sb lawful block s t (freed lawful valid block s t h) in
      let freed_too = map_fail-eq-done alloc (free_block D sb block) t e in cc

  -- Freeing a subtree ends with freeing its root.
  free_subtree-last :
      (depth block : ℕ) (s t : WriteState D)
      → free_subtree D sb depth block s ≡ done tt t
      → (r : WriteState D) × (free_and_revoke D sb block r ≡ done tt t)
  unfolding free_subtree
  free_subtree-last zero block s t h =
      let (bytes, s₁, e₁, h₁) = >>=-eq-done (reads (read_block D sb block)) _ s h in
      let (hdr, s₂, e₂, h₂) = >>=-eq-done (reads (λ _. parse_header bytes block)) _ s₁ h₁ in
      let (_, s₃, e₃, h₃) =
        >>=-eq-done (free_leaves D sb bytes 0 hdr.eh_entries) (λ _. free_and_revoke D sb block) s₂
          h₂ in
      (s₃, h₃)
  free_subtree-last (suc depth) block s t h =
      let (bytes, s₁, e₁, h₁) = >>=-eq-done (reads (read_block D sb block)) _ s h in
      let (hdr, s₂, e₂, h₂) = >>=-eq-done (reads (λ _. parse_header bytes block)) _ s₁ h₁ in
      let (_, s₃, e₃, h₃) =
        >>=-eq-done (free_children D sb (free_subtree D sb depth) bytes 0 hdr.eh_entries)
          (λ _. free_and_revoke D sb block) s₂ h₂ in
      (s₃, h₃)

  -- The child is freed once in the recursive call and once more after it.
  free_children-none :
      IsLawful D
      → IsValid sb
      → (depth : ℕ) (node : List ℕ) (i n : ℕ) (s t : WriteState D)
      → free_children D sb (free_subtree D sb depth) node i n s ≡ done tt t
      → n ≡ 0
  unfolding free_children
  free_children-none lawful valid depth node i zero s t h = refl
  free_children-none lawful valid depth node i (suc n) s t h =
      let (idx, s₁, e₁, h₁) =
        >>=-eq-done (reads {S = WriteState D} {E = ExtentWriteError} (λ _. idx_in node i)) _ s h in
      let (_, s₂, e₂, h₂) = >>=-eq-done (free_subtree D sb depth (idx_child idx)) _ s₁ h₁ in
      let (_, s₃, e₃, h₃) = >>=-eq-done (free_and_revoke D sb (idx_child idx)) _ s₂ h₂ in
      let (r, last) = free_subtree-last depth (idx_child idx) s₁ s₂ e₂ in
      absurd (not_twice lawful valid (idx_child idx) r s₂ s₃ last e₃)

  -- On a lawful device with a valid superblock, `free_subtree` of an index node succeeds only when
  -- the node has no entries: with an entry, the child is freed by the recursive call and then
  -- again, which is a double free.
  pub free_subtree-empty :
      IsLawful D
      → IsValid sb
      → (depth block : ℕ) (s t : WriteState D) → free_subtree D sb (suc depth) block s ≡ done tt t
      → (bytes : List ℕ) × (hdr : ExtentHeader) × (read_block D sb block s ≡ ok bytes)
        × (parse_header bytes block ≡ ok hdr)
        × (hdr.eh_entries ≡ 0)
  unfolding free_subtree
  free_subtree-empty lawful valid depth block s t h =
      let (bytes, s₁, e₁, h₁) = >>=-eq-done (reads (read_block D sb block)) _ s h in
      let (hdr, s₂, e₂, h₂) = >>=-eq-done (reads (λ _. parse_header bytes block)) _ s₁ h₁ in
      let (_, s₃, e₃, h₃) =
        >>=-eq-done (free_children D sb (free_subtree D sb depth) bytes 0 hdr.eh_entries)
          (λ _. free_and_revoke D sb block) s₂ h₂ in
      let (loaded, _) = reads-eq-done (read_block D sb block) s e₁ in
      let (parsed, _) = reads-eq-done (λ _. parse_header bytes block) s₁ e₂ in
      (
        bytes,
        hdr,
        loaded,
        parsed,
        free_children-none lawful valid depth bytes 0 hdr.eh_entries s₂ s₃ e₃,
      )
