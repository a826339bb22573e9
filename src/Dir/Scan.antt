-- ===== src/Dir/Scan.antt =====
-- The loops over the entries of one block in `ext4-core/src/dir.rs`.
use pengwin.Base.{
  ℕ, zero, suc, ◌+◌, ◌-◌, ◌≤◌, ◌<◌, ◌≡◌, refl, sym, ◌∙◌, ap, ◌≢◌, inl, inr, true, false, ltb, leb,
  leb→le, le→leb, ◌==◌, Bool-cases, if◌then◌else◌, Option, none, some, List, [], ◌∷◌, ◌++◌, length,
  arith, Outcome, ok, panic, ensure-eq-ok, assert, >>=-eq-ok, Option-cases, >>=-ne_panic,
  ensure-ne_panic, byte_at, u16_le, u32_le,
}
use mathlib.Core.List.{append_assoc, append-nil}
use pengwin.Dir.{
  DirEntry, DirError, invalid_rec_len, same_name, parse_record, parse_dirent, push_entry,
  entries_loop, parse_block_entries, is_named, search_loop,
}

-- The first entry with the name.
abbrev pub find_named : List ℕ → List DirEntry → Option ℕ
find_named name [] = none
find_named name (entry ∷ rest) =
    if same_name entry.name name then some entry.inode_num else find_named name rest

pub find_named-append :
    (name : List ℕ) (xs ys : List DirEntry)
    → find_named name xs ≡ none
    → find_named name (xs ++ ys) ≡ find_named name ys
find_named-append name [] ys h = refl
find_named-append name (x ∷ xs) ys h = elim (Bool-cases (same_name x.name name)) [
  | inl hit ↦ let h' = rw hit at h in cc
  | inr miss ↦ rw miss (find_named-append name xs ys (rw miss at h))
]

pub find_named-append_some :
    (name : List ℕ) (xs ys : List DirEntry) {v : ℕ}
    → find_named name xs ≡ some v
    → find_named name (xs ++ ys) ≡ some v
find_named-append_some name [] ys h = cc
find_named-append_some name (x ∷ xs) ys h = elim (Bool-cases (same_name x.name name)) [
  | inl hit ↦ let h' = rw hit at h in rw hit cc
  | inr miss ↦ rw miss (find_named-append_some name xs ys (rw miss at h))
]

module _ (lossy : List ℕ → List ℕ) where
  -- A record is at least its header and ends inside the buffer.
  pub parse_dirent-bounds :
      (buf : List ℕ) (offset : ℕ) {entry : DirEntry} {rec : ℕ}
      → parse_dirent lossy buf offset ≡ ok (some (entry, rec))
      → (8 ≤ rec) × (offset + rec ≤ length buf)
  unfolding parse_dirent parse_record
  parse_dirent-bounds buf offset {entry} {rec} h =
      let (_, _, h₁) = >>=-eq-ok (assert (leb offset (length buf))) _ h in
      elim (Bool-cases (ltb (length buf - offset) 8)) [
        | inl short ↦ let h₂ = rw short at h₁ in cc
        | inr long ↦
            let r = u16_le buf (offset + 4) in
            let (_, _, h₂) = >>=-eq-ok (assert (leb (offset + 8) (length buf))) _ (rw long at h₁) in
            let (wide, h₃) = ensure-eq-ok (leb 8 r) (invalid_rec_len r) _ h₂ in
            let (inside, h₄) =
              ensure-eq-ok (leb (offset + r) (length buf)) (invalid_rec_len r) _ h₃ in
            let (_, h₅) =
              ensure-eq-ok (leb (byte_at buf (offset + 6)) (r - 8)) (invalid_rec_len r) _ h₄ in
            let e : r ≡ rec = elim (Bool-cases (u32_le buf offset == 0)) [
              | inl gone ↦ let h₆ = rw gone at h₅ in cc
              | inr live ↦
                  let (_, _, h₆) =
                    >>=-eq-ok (assert (leb (offset + 8 + byte_at buf (offset + 6)) (length buf))) _
                      (rw live at h₅) in
                  cc
            ] in
            (rw (← e) (leb→le 8 r wide), rw (← e) (leb→le _ _ inside))
      ]

  -- What the scan adds, and what the search finds in it.
  abbrev Found : List ℕ → List DirEntry → List DirEntry → Outcome DirError (Option ℕ) → Type 0
  Found name out out' searched =
      (new : List DirEntry) × (out' ≡ out ++ new) × (searched ≡ ok (find_named name new))

  Found-push :
      (name : List ℕ) (entry : DirEntry) (out out' : List DirEntry)
      (rest : Outcome DirError (Option ℕ))
      → Found name (push_entry entry out) out' rest
      → Found name out out'
          (elim (is_named name entry) [ true ↦ ok (some entry.inode_num) | false ↦ rest ])
  Found-push name entry out out' rest (new, e₁, e₂) = elim (Bool-cases (entry.inode_num == 0)) [
    | inl gone ↦ (new, rw gone at e₁, rw gone e₂)
    | inr live ↦ (
      entry ∷ new,
      rw live at e₁ ∙ append_assoc out (entry ∷ []) new,
      elim (Bool-cases (same_name entry.name name)) [
        | inl hit ↦ rw (live, hit) refl
        | inr miss ↦ rw (live, miss) e₂
      ],
    )
  ]

  pub search_loop-entries_loop :
      (name block : List ℕ) (fuel pos : ℕ) (out : List DirEntry) {out' : List DirEntry}
      → entries_loop lossy block fuel pos out ≡ ok out'
      → Found name out out' (search_loop lossy name block fuel pos)
  unfolding entries_loop search_loop
  search_loop-entries_loop name block zero pos out h = cc
  search_loop-entries_loop name block (suc fuel) pos out {out'} h =
      elim (Bool-cases (ltb pos (length block))) [
        | inr over ↦
            let h' = rw (over, entries_loop) at h in
            let e₀ : out' ≡ out = cc in ([], e₀ ∙ sym (append-nil out), rw (over, search_loop) refl)
        | inl going ↦
            let (found, e, h₁) =
              >>=-eq-ok (parse_dirent lossy block pos) _ (rw (going, entries_loop) at h) in
            elim (Option-cases found) [
              | inl no_more ↦
                  let h₂ = rw no_more at h₁ in
                  let e₀ : out' ≡ out = cc in
                  ([], e₀ ∙ sym (append-nil out), rw (going, search_loop, e, no_more) refl)
              | inr (step, more) ↦
                  let h₂ = rw more at h₁ in
                  rw (going, search_loop, e, more)
                    (Found-push name step.0 out out' _ (
                      search_loop-entries_loop name block fuel (pos + step.1)
                        (push_entry step.0 out) h₂))
            ]
      ]

  -- The name of a record that passes the checks ends inside the buffer.
  name_room :
      (offset name_len r size : ℕ)
      → leb 8 r ≡ true
      → leb (offset + r) size ≡ true
      → leb name_len (r - 8) ≡ true
      → leb (offset + 8 + name_len) size ≡ true
  name_room offset name_len r size wide fits named =
      let w = leb→le 8 r wide in
      let f = leb→le (offset + r) size fits in
      let n = leb→le name_len (r - 8) named in le→leb (offset + 8 + name_len) size (omega arith)

  parse_dirent-ne_panic :
      (buf : List ℕ) (offset : ℕ) → offset ≤ length buf → parse_dirent lossy buf offset ≢ panic
  unfolding parse_dirent parse_record
  parse_dirent-ne_panic buf offset inside =
      rw (le→leb offset (length buf) inside) (elim (Bool-cases (ltb (length buf - offset) 8)) [
        | inl short ↦ rw short (λ p. cc)
        | inr long ↦
            let r = u16_le buf (offset + 4) in
            rw (long, le→leb (offset + 8) (length buf) (ground arith))
              (ensure-ne_panic (leb 8 r) (invalid_rec_len r) _ λ wide.
                ensure-ne_panic (leb (offset + r) (length buf)) (invalid_rec_len r) _ λ fits.
                  ensure-ne_panic (leb (byte_at buf (offset + 6)) (r - 8)) (invalid_rec_len r) _
                    λ named. elim (Bool-cases (u32_le buf offset == 0)) [
                      | inl gone ↦ rw gone (λ p. cc)
                      | inr live ↦
                          let room =
                            name_room offset (byte_at buf (offset + 6)) r (length buf) wide fits
                              named in
                          rw (live, room) (λ p. cc)
                    ])
      ])

  entries_loop-ne_panic :
      (block : List ℕ) (fuel pos : ℕ) (out : List DirEntry)
      → pos ≤ length block
      → length block < pos + fuel
      → entries_loop lossy block fuel pos out ≢ panic
  unfolding entries_loop
  entries_loop-ne_panic block zero pos out inside enough = absurd (omega arith)
  entries_loop-ne_panic block (suc fuel) pos out inside enough =
      elim (Bool-cases (ltb pos (length block))) [
        | inr over ↦ rw (over, entries_loop) (λ p. cc)
        | inl going ↦
            rw (going, entries_loop)
              (>>=-ne_panic (parse_dirent lossy block pos) _
                (parse_dirent-ne_panic block pos inside)
                (λ found e. elim (Option-cases found) [
                  | inl no_more ↦ rw no_more (λ p. cc)
                  | inr (step, more) ↦
                      let (wide, fits) =
                        parse_dirent-bounds block pos {entry = step.0} {rec = step.1}
                          (e ∙ ap ok more) in
                      rw more (
                        entries_loop-ne_panic block fuel (pos + step.1) (push_entry step.0 out) fits
                          (omega arith))
                ]))
      ]

  -- For every block of bytes the scan for entries ends, with the entries or with an error: it
  -- does not run on for ever, and no index or slice of a header or a name reaches outside the
  -- block. The turns are as many as the block has bytes at most, since a record is at least 8
  -- bytes long and ends inside the block.
  pub parse_block_entries-ne_panic :
      (block : List ℕ) (out : List DirEntry) → parse_block_entries lossy block out ≢ panic
  unfolding parse_block_entries
  parse_block_entries-ne_panic block out =
      entries_loop-ne_panic block (suc (length block)) 0 out (omega arith) (omega arith)
