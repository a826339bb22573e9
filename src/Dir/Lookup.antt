-- ===== src/Dir/Lookup.antt =====
-- `lookup` of `ext4-core/src/dir.rs` against `read_dir`.
use pengwin.Base.{
  ℕ, zero, suc, ◌+◌, ◌≡◌, refl, sym, ◌∙◌, ap, inl, inr, none, some, List, [], ◌++◌, ok, >>=-eq-ok,
  Option-cases,
}
use mathlib.Core.List.{append_assoc, append-nil}
use pengwin.Device.{BlockDevice}
use pengwin.Superblock.{Superblock}
use pengwin.Inode.{Inode}
use pengwin.Dir.{
  DirEntry, parse_block_entries, search_block, dir_block, read_dir_loop, block_count, read_dir,
  lookup_loop, lookup,
}
use pengwin.Dir.Scan.{
  find_named, find_named-append, find_named-append_some, search_loop-entries_loop,
}

module _ (lossy : List ℕ → List ℕ) (D : BlockDevice) (dev : D.Dev) (sb : Superblock)
    (fuel : ℕ) where
  lookup_loop-read_dir_loop :
      (dir_inode : Inode) (name : List ℕ) (lblock n : ℕ) (out : List DirEntry)
      {entries : List DirEntry}
      → read_dir_loop lossy D dev sb fuel dir_inode lblock n out ≡ ok entries
      → (new : List DirEntry) × (entries ≡ out ++ new)
        × (lookup_loop lossy D dev sb fuel dir_inode name lblock n ≡ ok (find_named name new))
  unfolding read_dir_loop lookup_loop parse_block_entries search_block
  lookup_loop-read_dir_loop dir_inode name lblock zero out {entries} h =
      let e : entries ≡ out = cc in ([], e ∙ sym (append-nil out), refl)
  lookup_loop-read_dir_loop dir_inode name lblock (suc n) out {entries} h =
      let (found, e₁, h₁) = >>=-eq-ok (dir_block D dev sb fuel dir_inode lblock) _ h in
      let (entries', e₂, h₂) =
        >>=-eq-ok
          (elim found [
            | none ↦ ok out
            | some block_data ↦ parse_block_entries lossy block_data out
          ])
          _ h₁ in
      elim (Option-cases found) [
        | inl hole ↦
            let e₃ : entries' ≡ out = let e₂' = rw hole at e₂ in cc in
            let (new, p, q) = lookup_loop-read_dir_loop dir_inode name (lblock + 1) n entries' h₂ in
            (new, rw e₃ at p, rw (lookup_loop, e₁, hole) q)
        | inr (block, there) ↦
            let (new₁, p₁, q₁) =
              search_loop-entries_loop lossy name block _ 0 out
                (rw (there, parse_block_entries) at e₂) in
            let (new₂, p₂, q₂) =
              lookup_loop-read_dir_loop dir_inode name (lblock + 1) n entries' h₂ in
            (
              new₁ ++ new₂,
              p₂ ∙ ap (λ (z : List DirEntry). z ++ new₂) p₁ ∙ append_assoc out new₁ new₂,
              elim (Option-cases (find_named name new₁)) [
                | inl not_here ↦
                    rw (lookup_loop, e₁, there, search_block, q₁, not_here)
                      (q₂ ∙ ap ok (sym (find_named-append name new₁ new₂ not_here)))
                | inr (v, here) ↦
                    rw (lookup_loop, e₁, there, search_block, q₁, here)
                      (ap ok (sym (find_named-append_some name new₁ new₂ here)))
              ],
            )
      ]

  -- Where a directory can be read, `lookup` of a name gives the inode of the first entry that
  -- `read_dir` lists with this name, and no inode exactly when it lists none.
  pub lookup-read_dir :
      (dir_inode : Inode) (name : List ℕ) {entries : List DirEntry}
      → read_dir lossy D dev sb fuel dir_inode ≡ ok entries
      → lookup lossy D dev sb fuel dir_inode name ≡ ok (find_named name entries)
  unfolding read_dir lookup
  lookup-read_dir dir_inode name {entries} h =
      let (count, e, h₁) = >>=-eq-ok (block_count sb dir_inode) _ h in
      let (new, p, q) = lookup_loop-read_dir_loop dir_inode name 0 count [] h₁ in
      rw (lookup, e) (q ∙ ap (λ z. ok (find_named name z)) (sym p))
