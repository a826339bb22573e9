-- ===== src/Journal/Writer/Checkpoint.antt =====
-- `commit` of `ext4-core/src/journal/writer.rs` ends with every pinned block in its place.
use pengwin.Base.{
  ℕ, ◌+◌, ◌*◌, ◌/◌, ◌^◌, ◌≤◌, ◌<◌, ◌==◌, ==_iff, ◌≡◌, ◌≢◌, ◌⊎◌, sym, ◌∙◌, ap, inl, inr, Bool-cases,
  ltb, ltb→lt, ltb-false, arith, some, Option-cases, List, [], ◌∷◌, length, Outcome, ok, done,
  reads, reads-eq-done, >>=-eq-done, u64,
}
use pengwin.Base.Stateful
use pengwin.Device.{BlockDevice, IsLawful, read_sectors, write_sectors}
use pengwin.Device.Transfer.{read_sectors-write_sectors, read_sectors-outside}
use pengwin.Journal.Transaction.{Transaction, find_last, pinned}
use pengwin.Journal.Transaction.Pins.{IsDeduplicated, Unpinned}
use pengwin.Journal.Format.{JournalError}
use pengwin.WriteState.{resize_exact}
use pengwin.Journal.Writer.{
  Log, write_fs_block, write_fs_blocks, write_to_journal, advance_write_head, write_data_block,
  write_data_blocks, write_descriptor_block, write_commit_block, write_revoke_block, write_revoked,
  write_log, write_pinned, commit, headed_block, tag_loop, commit_buffer, revoke_buffer,
  descriptor_type, escape,
}

-- Every pin is one block long, at an address whose sector number fits 64 bits.
abbrev pub IsSized : ℕ → List (ℕ × List ℕ) → Type 0
IsSized size [] = Unit
IsSized size ((b, v) ∷ rest) = (length v ≡ size) × (b * (size / 512) < 2 ^ 64) × IsSized size rest

blocks_apart : (a b n : ℕ) → a ≢ b → (a * n + n ≤ b * n) ⊎ (b * n + n ≤ a * n)
blocks_apart a b n ne = elim (Bool-cases (ltb a b)) [
  | inl lt ↦ let h = ltb→lt _ _ lt in inl (let e : (a + 1) * n ≤ b * n = grind arith in grind arith)
  | inr ge ↦
      let h = ltb-false _ _ ge in
      let lt : b < a = omega arith in inr (let e : (b + 1) * n ≤ a * n = grind arith in grind arith)
]

module _ (D : BlockDevice) (lawful : IsLawful D) (size : ℕ) (whole : size / 512 * 512 ≡ size)
    (small : size < 2 ^ 64) where
  write_fs_block_facts :
      (b : ℕ) (v : List ℕ) (d d' : D.Dev)
      → length v ≡ size
      → b * (size / 512) < 2 ^ 64
      → write_fs_block D size b v d ≡ done tt d'
      → write_sectors D (b * (size / 512)) v d ≡ done tt d'
  unfolding write_fs_block
  write_fs_block_facts b v d d' l fits h =
      let e : u64 (b * (size / 512)) ≡ b * (size / 512) = omega arith in
      rw (e, resize_exact v size l) at h

  read_other :
      (k : ℕ) (blocks : List (ℕ × List ℕ)) (d d' : D.Dev)
      → IsSized size blocks
      → Unpinned k blocks
      → write_fs_blocks D size blocks d ≡ done tt d'
      → read_sectors D d' (k * (size / 512)) (size / 512)
        ≡ read_sectors D d (k * (size / 512)) (size / 512)
  unfolding write_fs_blocks
  read_other k [] d d' sized un h = let e : d ≡ d' = cc in rw e
  read_other k ((b, v) ∷ rest) d d' sized un h =
      let (_, d₁, first, later) = >>=-eq-done (write_fs_block D size b v) _ d h in
      let wrote = write_fs_block_facts b v d d₁ sized.0 sized.1 first in
      let n : length v / 512 ≡ size / 512 = rw sized.0 in
      let apart = blocks_apart b k (size / 512) un.0 in
      read_other k rest d₁ d' sized.2 un.1 later
      ∙ read_sectors-outside D lawful (b * (size / 512)) v (k * (size / 512)) (size / 512) d d₁
          wrote (omega arith)

  read_pinned :
      (k : ℕ) (v : List ℕ) (blocks : List (ℕ × List ℕ)) (d d' : D.Dev)
      → IsSized size blocks
      → IsDeduplicated blocks
      → find_last k blocks ≡ some v
      → write_fs_blocks D size blocks d ≡ done tt d'
      → read_sectors D d' (k * (size / 512)) (size / 512) ≡ ok v
  unfolding write_fs_blocks find_last
  read_pinned k v [] d d' sized dedup hit h = absurd (cc)
  read_pinned k v ((b, w) ∷ rest) d d' sized dedup hit h =
      let (_, d₁, first, later) = >>=-eq-done (write_fs_block D size b w) _ d h in
      elim (Option-cases (find_last k rest)) [
        | inr (x, found) ↦
            let e : x ≡ v = (let hit' = rw found at hit in cc) in
            read_pinned k v rest d₁ d' sized.2 dedup.1 (found ∙ ap some e) later
        | inl absent ↦ elim (Bool-cases (b == k)) [
          | inl same ↦
              let e : b ≡ k = (==_iff _ _).0 same in
              let e' : w ≡ v = (let hit' = rw (absent, same) at hit in cc) in
              let wrote = write_fs_block_facts b w d d₁ sized.0 sized.1 first in
              let n : length w / 512 ≡ size / 512 = rw sized.0 in
              let stored =
                read_sectors-write_sectors D lawful (b * (size / 512)) w d d₁
                  (omega (arith, sized.0)) wrote in
              let stored' : read_sectors D d₁ (k * (size / 512)) (size / 512) ≡ ok v =
                rw (← e, ← e') (rw n at stored) in
              read_other k rest d₁ d' sized.2 (rw e at dedup.0) later ∙ stored'
          | inr other ↦ absurd (let hit' = rw (absent, other) at hit in cc)
        ]
      ]

module _ (D : BlockDevice) where
  write_to_journal-block_size :
      (bytes : List ℕ) (s t : Log D)
      → write_to_journal D bytes s ≡ done tt t
      → t.writer.block_size ≡ s.writer.block_size
  unfolding write_to_journal advance_write_head
  write_to_journal-block_size bytes s t h = ground arith

  -- A buffer computed from the state and written to the log.
  write_buffer-block_size :
      (f : Log D → Outcome JournalError (List ℕ)) (s t : Log D)
      → (Stateful.◌>>=◌ (reads f) (write_to_journal D)) s ≡ done tt t
      → t.writer.block_size ≡ s.writer.block_size
  write_buffer-block_size f s t h =
      let (buf, s₁, e₁, h₁) = >>=-eq-done (reads f) (write_to_journal D) s h in
      let (_, same) = reads-eq-done f s e₁ in
      write_to_journal-block_size buf s₁ t h₁ ∙ ap (λ (u : Log D). u.writer.block_size) (sym same)

  write_data_blocks-block_size :
      (blocks : List (ℕ × List ℕ)) (s t : Log D)
      → write_data_blocks D blocks s ≡ done tt t
      → t.writer.block_size ≡ s.writer.block_size
  unfolding write_data_blocks write_data_block
  write_data_blocks-block_size [] s t h = cc
  write_data_blocks-block_size ((b, v) ∷ rest) s t h =
      let (_, s₁, e₁, h₁) = >>=-eq-done (write_to_journal D (escape v)) _ s h in
      write_data_blocks-block_size rest s₁ t h₁ ∙ write_to_journal-block_size (escape v) s s₁ e₁

  write_descriptor_block-block_size :
      (blocks : List (ℕ × List ℕ)) (sequence : ℕ) (s t : Log D)
      → write_descriptor_block D blocks sequence s ≡ done tt t
      → t.writer.block_size ≡ s.writer.block_size
  unfolding write_descriptor_block
  write_descriptor_block-block_size blocks sequence s t h =
      let read = λ (u : Log D). headed_block u.writer descriptor_type sequence in
      let (buf, s₁, e₁, h₁) = >>=-eq-done (reads read) _ s h in
      let (_, same) = reads-eq-done read s e₁ in
      write_buffer-block_size (λ u. tag_loop u.writer 0 blocks 12 buf) s₁ t h₁
      ∙ ap (λ (u : Log D). u.writer.block_size) (sym same)

  write_log-block_size :
      (txn : Transaction) (s t : Log D)
      → write_log D txn s ≡ done tt t
      → t.writer.block_size ≡ s.writer.block_size
  unfolding write_log
  write_log-block_size txn s t h = elim (Bool-cases (length txn.blocks == 0)) [
    | inl none_pinned ↦ let h' = rw none_pinned at h in cc
    | inr some_pinned ↦
        let (_, s₁, e₁, h₁) =
          >>=-eq-done (write_descriptor_block D txn.blocks txn.sequence) _ s
            (rw some_pinned at h) in
        write_data_blocks-block_size txn.blocks s₁ t h₁
        ∙ write_descriptor_block-block_size txn.blocks txn.sequence s s₁ e₁
  ]

  write_revoked-block_size :
      (txn : Transaction) (s t : Log D)
      → write_revoked D txn s ≡ done tt t
      → t.writer.block_size ≡ s.writer.block_size
  unfolding write_revoked write_revoke_block
  write_revoked-block_size txn s t h = elim (Bool-cases (length txn.revoked == 0)) [
    | inl empty ↦ let h' = rw empty at h in cc
    | inr full ↦
        write_buffer-block_size (λ u. revoke_buffer D u.writer txn.revoked txn.sequence) s t
          (rw full at h)
  ]

  write_commit_block-block_size :
      (sequence : ℕ) (s t : Log D)
      → write_commit_block D sequence s ≡ done tt t
      → t.writer.block_size ≡ s.writer.block_size
  unfolding write_commit_block
  write_commit_block-block_size sequence s t h =
      write_buffer-block_size (λ u. commit_buffer D u.writer sequence) s t h

  write_pinned_facts :
      (blocks : List (ℕ × List ℕ)) (s t : Log D)
      → write_pinned D blocks s ≡ done tt t
      → write_fs_blocks D s.writer.block_size blocks s.dev ≡ done tt t.dev
  write_pinned_facts blocks s t h = ground arith

  -- On a lawful device whose blocks are whole sectors, a successful commit of a transaction that
  -- pins no block twice, each pin one block long and at an address that fits 64 bits of sectors,
  -- leaves every pinned block in its place: reading it gives what was pinned.
  pub commit-pinned :
      IsLawful D
      → (txn : Transaction) (s t : Log D) → s.writer.block_size / 512 * 512 ≡ s.writer.block_size
      → s.writer.block_size < 2 ^ 64
      → IsSized s.writer.block_size txn.blocks
      → IsDeduplicated txn.blocks
      → commit D txn s ≡ done tt t
      → (k : ℕ) (v : List ℕ) → pinned txn k ≡ some v
      → read_sectors D t.dev (k * (s.writer.block_size / 512)) (s.writer.block_size / 512) ≡ ok v
  unfolding commit
  commit-pinned lawful txn s t whole small sized dedup h k v hit =
      let (_, s₁, e₁, h₁) = >>=-eq-done (write_revoked D txn) _ s h in
      let (_, s₂, e₂, h₂) = >>=-eq-done (write_log D txn) _ s₁ h₁ in
      let (_, s₃, e₃, h₃) = >>=-eq-done (write_commit_block D txn.sequence) _ s₂ h₂ in
      let (_, s₄, e₄, h₄) = >>=-eq-done (write_pinned D txn.blocks) _ s₃ h₃ in
      let size : s₃.writer.block_size ≡ s.writer.block_size =
        write_commit_block-block_size txn.sequence s₂ s₃ e₃
        ∙ write_log-block_size txn s₁ s₂ e₂
        ∙ write_revoked-block_size txn s s₁ e₁ in
      let placed = rw size at (write_pinned_facts txn.blocks s₃ s₄ e₄) in
      let same : s₄.dev ≡ t.dev = cc in
      rw (← same) (
        read_pinned D lawful s.writer.block_size whole small k v txn.blocks s₃.dev s₄.dev sized
          dedup hit placed)
