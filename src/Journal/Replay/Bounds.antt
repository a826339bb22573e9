-- ===== src/Journal/Replay/Bounds.antt =====
-- Where the replay of `ext4-core/src/journal/replay.rs` goes on in the log.
use pengwin.Base.{
  ℕ, zero, suc, ◌+◌, ◌^◌, ◌≤◌, ◌<◌, ◌≡◌, inl, inr, arith, ◌&&◌, leb, ◌==◌, Bool-cases, u32, List,
  [], ◌++◌, length, ok, done, reads, reads-eq-done, >>=-eq-ok, >>=-eq-done,
}
use mathlib.Core.Path.{subst}
use pengwin.Device.{BlockDevice}
use pengwin.Superblock.{Superblock}
use pengwin.Journal.Format.{journal_magic}
use pengwin.Journal.Writer.{descriptor_type, commit_type, revoke_type}
use pengwin.Journal.Load.{Journal, read_block}
use pengwin.Journal.Replay.{
  header_of, tag_at, tag_data, has_flag, last_tag, tags_loop, advance_jblock,
  parse_descriptor_block, apply_writes, is_commit, Turn, stop, go_on, replay_descriptor,
  replay_block, collect_revoked_blocks,
}

-- A block of the log's ring.
abbrev pub IsInside : Journal → ℕ → Type 0
IsInside journal jblock =
    (journal.sb.first_usable_block ≤ jblock) × (jblock < journal.sb.total_blocks)

abbrev pub IsTurn : Journal → Turn → Type 0
IsTurn journal stop = Unit
IsTurn journal (go_on sequence jblock revoke_set) = IsInside journal jblock

-- A log whose first usable block lies before its end, and whose length is a `u32`.
abbrev pub IsRing : Journal → Type 0
IsRing journal =
    (journal.sb.first_usable_block < journal.sb.total_blocks) × (journal.sb.total_blocks < 2 ^ 32)

pub advance_jblock-IsInside :
    (journal : Journal) (jblock : ℕ)
    → IsRing journal
    → IsInside journal jblock
    → IsInside journal (advance_jblock journal jblock)
unfolding advance_jblock
advance_jblock-IsInside journal jblock (ring, size) (lo, hi) = ground arith

module _ (D : BlockDevice) (fs_sb : Superblock) (journal : Journal) (ring : IsRing journal) where
  -- The block behind the data of a descriptor block.
  tags_loop-IsInside :
      (dev : D.Dev) (revoke_set buf : List ℕ) (fuel offset jblock : ℕ) (pending : List (ℕ × List ℕ))
      {next : ℕ} {found : List (ℕ × List ℕ)}
      → IsInside journal jblock
      → tags_loop D fs_sb journal dev revoke_set buf fuel offset jblock pending ≡ ok (next, found)
      → IsInside journal next
  unfolding tags_loop
  tags_loop-IsInside dev revoke_set buf zero offset jblock pending inside h =
      let e : jblock ≡ _ = cc in subst (IsInside journal) e inside
  tags_loop-IsInside dev revoke_set buf (suc fuel) offset jblock pending inside h =
      let tag = tag_at buf offset in
      let further = advance_jblock-IsInside journal jblock ring inside in
      elim (Bool-cases (leb (offset + 12) (length buf))) [
        | inr over ↦
            let h₁ = rw (tags_loop, over) at h in
            let e : jblock ≡ _ = cc in subst (IsInside journal) e inside
        | inl more ↦
            let (new, e₂, h₂) =
              >>=-eq-ok (tag_data D fs_sb journal dev revoke_set jblock tag) _
                (rw (tags_loop, more) at h) in
            elim (Bool-cases (has_flag tag.t_flags last_tag)) [
              | inl last ↦
                  let h₃ = rw last at h₂ in
                  let e : advance_jblock journal jblock ≡ _ = cc in
                  subst (IsInside journal) e further
              | inr going ↦
                  tags_loop-IsInside dev revoke_set buf fuel _ (advance_jblock journal jblock)
                    (pending ++ new) further (rw going at h₂)
            ]
      ]

  parse_descriptor_block-IsInside :
      (dev : D.Dev) (revoke_set : List ℕ) (jblock : ℕ) {next : ℕ} {found : List (ℕ × List ℕ)}
      → IsInside journal jblock
      → parse_descriptor_block D fs_sb journal dev revoke_set jblock ≡ ok (next, found)
      → IsInside journal next
  unfolding parse_descriptor_block
  parse_descriptor_block-IsInside dev revoke_set jblock inside h =
      let (buf, _, h₁) = >>=-eq-ok (read_block D dev fs_sb journal jblock) _ h in
      tags_loop-IsInside dev revoke_set buf (length buf) 12 (advance_jblock journal jblock) []
        (advance_jblock-IsInside journal jblock ring inside) h₁

  IsTurn-eq : (a b : Turn) → a ≡ b → IsTurn journal a → IsTurn journal b
  IsTurn-eq a b e h = subst (IsTurn journal) e h

  replay_descriptor-IsTurn :
      (sequence jblock : ℕ) (revoke_set : List ℕ) (d d' : D.Dev) {turn : Turn}
      → IsInside journal jblock
      → replay_descriptor D fs_sb journal sequence jblock revoke_set d ≡ done turn d'
      → IsTurn journal turn
  unfolding replay_descriptor
  replay_descriptor-IsTurn sequence jblock revoke_set d d' {turn} inside h =
      let (found, d₁, e₁, h₁) =
        >>=-eq-done
          (reads (λ (u : D.Dev). parse_descriptor_block D fs_sb journal u revoke_set jblock)) _ d
          h in
      let (parsed, _) =
        reads-eq-done (λ (u : D.Dev). parse_descriptor_block D fs_sb journal u revoke_set jblock) d
          e₁ in
      let behind = parse_descriptor_block-IsInside d revoke_set jblock inside parsed in
      let (buf, d₂, e₂, h₂) =
        >>=-eq-done (reads (λ (u : D.Dev). read_block D u fs_sb journal found.0)) _ d₁ h₁ in
      elim (Bool-cases (is_commit sequence buf)) [
        | inr partial ↦ let h₃ = rw partial at h₂ in IsTurn-eq stop turn (cc) tt
        | inl committed ↦
            let (_, d₃, e₃, h₃) =
              >>=-eq-done (apply_writes D fs_sb journal found.1) _ d₂ (rw committed at h₂) in
            IsTurn-eq (go_on (u32 (sequence + 1)) (advance_jblock journal found.0) revoke_set) turn
              (cc) (advance_jblock-IsInside journal found.0 ring behind)
      ]

  -- In a log whose first usable block lies before its end and whose length fits 32 bits, from a
  -- block between the two every successful turn of the replay either stops or goes on at such a
  -- block, whatever the blocks that it read contain.
  pub replay_block-IsTurn :
      (sequence jblock : ℕ) (revoke_set buf : List ℕ) (d d' : D.Dev) {turn : Turn}
      → IsInside journal jblock
      → replay_block D fs_sb journal sequence jblock revoke_set buf d ≡ done turn d'
      → IsTurn journal turn
  unfolding replay_block
  replay_block-IsTurn sequence jblock revoke_set buf d d' {turn} inside h =
      let hdr = header_of buf in
      let next = advance_jblock-IsInside journal jblock ring inside in
      elim (Bool-cases
        (leb 12 (length buf) && hdr.h_magic == journal_magic && hdr.h_sequence == sequence)) [
          | inr other ↦ let h₁ = rw (replay_block, other) at h in IsTurn-eq stop turn (cc) tt
          | inl ours ↦ elim (Bool-cases (hdr.h_blocktype == descriptor_type)) [
            | inl descriptor ↦
                replay_descriptor-IsTurn sequence jblock revoke_set d d' inside
                  (rw (replay_block, ours, descriptor) at h)
            | inr no_descriptor ↦ elim (Bool-cases (hdr.h_blocktype == commit_type)) [
              | inl commit ↦
                  let h₁ = rw (replay_block, ours, no_descriptor, commit) at h in
                  IsTurn-eq (go_on (u32 (sequence + 1)) (advance_jblock journal jblock) revoke_set)
                    turn (cc) next
              | inr no_commit ↦ elim (Bool-cases (hdr.h_blocktype == revoke_type)) [
                | inl revoke ↦
                    let h₁ = rw (replay_block, ours, no_descriptor, no_commit, revoke) at h in
                    IsTurn-eq
                      (go_on sequence (advance_jblock journal jblock)
                        (collect_revoked_blocks buf revoke_set))
                      turn (cc) next
                | inr unknown ↦
                    let h₁ = rw (replay_block, ours, no_descriptor, no_commit, unknown) at h in
                    IsTurn-eq stop turn (cc) tt
              ]
            ]
          ]
        ]
