-- ===== src/File/Write/Place.antt =====
-- What one block of the second phase of `write_file_data` in `ext4-core/src/file_write.rs` leaves
-- on the device and in the transaction.
use pengwin.Base.{
  ℕ, ◌+◌, ◌/◌, ◌<◌, ◌≡◌, Apart, ◌∙◌, arith, Bool, true, false, ◌&&◌, ◌==◌, List, length, replicate,
  length-replicate, length-splice, byte_at, byte_at-splice, byte_at-splice_in, Outcome, ok,
  map_err-eq-ok, done, reads, reads-eq-done, >>=-eq-done,
}
use mathlib.Core.Path.{subst}
use pengwin.Base.Stateful.{◌>>◌}
use pengwin.Device.{BlockDevice, IsLawful, read_sectors, write_sectors}
use pengwin.Device.Transfer.{read_sectors-write_sectors, length-read_sectors}
use pengwin.Superblock.{Superblock}
use pengwin.Superblock.Valid.{IsValid, block_size_facts}
use pengwin.Journal.Transaction
use pengwin.WriteState.{WriteState, start_sector, copy_at, on_dev, on_txn}
use pengwin.Extent.Write.Nodes.Entries.{copy_at-eq-ok}
use pengwin.File.Write.{FileWriteError, block_device, base_of, write_part}

module _ (D : BlockDevice) (sb : Superblock) (fuel : ℕ) where
  abbrev block_at : D.Dev → ℕ → Outcome pengwin.Device.BlockDeviceError (List ℕ)
  block_at dev phys = read_sectors D dev (start_sector sb phys) (sb.block_size / 512)

  -- The block holds the part at its offset and the transaction pins it; the bytes around the part
  -- are those that the block had, if the part does not fill the block.
  pub record IsPlaced (phys intra_off : ℕ) (part : List ℕ) (s t : WriteState D) : Type 0 where
    pub stored : List ℕ
    pub on_device : block_at t.dev phys ≡ ok stored
    pub pinned : t.txn ≡ Transaction.pin_block phys stored s.txn
    pub inside : (i : ℕ) → i < length part → byte_at stored (intra_off + i) ≡ byte_at part i
    pub around :
        ((intra_off == 0) && (length part == sb.block_size)) ≡ false
        → (old : List ℕ) × (block_at s.dev phys ≡ ok old)
          × ((j : ℕ) → Apart j 1 intra_off (length part) → byte_at stored j ≡ byte_at old j)

  base_of_facts :
      IsLawful D
      → IsValid sb
      → (whole : Bool) (phys : ℕ) (s : WriteState D) {bytes : List ℕ}
      → base_of D sb fuel whole phys s ≡ ok bytes
      → (length bytes ≡ sb.block_size) × (whole ≡ false → block_at s.dev phys ≡ ok bytes)
  unfolding base_of
  base_of_facts lawful valid true phys s {bytes} h =
      let e : replicate sb.block_size 0 ≡ bytes = cc in
      (rw (← e) (length-replicate {A = ℕ} sb.block_size 0), λ f. cc)
  base_of_facts lawful valid false phys s h =
      let loaded = map_err-eq-ok block_device _ h in
      let (aligned, _, _) = block_size_facts valid in
      (length-read_sectors D lawful s.dev _ _ loaded ∙ aligned, λ f. loaded)

  put_facts :
      (phys : ℕ) (bytes : List ℕ) (s t : WriteState D)
      → ◌>>◌
          (on_dev D block_device (write_sectors D (start_sector sb phys) bytes))
          (on_txn D {E = FileWriteError} (Transaction.pin_block phys bytes))
          s
        ≡ done tt t
      → (write_sectors D (start_sector sb phys) bytes s.dev ≡ done tt t.dev)
        × (t.txn ≡ Transaction.pin_block phys bytes s.txn)
  put_facts phys bytes s t h = ground arith

  -- On a lawful device with a valid superblock, a successful write of one part leaves the part at
  -- its offset in the block on the device, with the bytes around it as they were unless it fills
  -- the block, and pins that block in the transaction.
  pub write_part-IsPlaced :
      IsLawful D
      → IsValid sb
      → (phys intra_off : ℕ) (part : List ℕ) (s t : WriteState D)
      → write_part D sb fuel phys intra_off part s ≡ done tt t
      → IsPlaced phys intra_off part s t
  unfolding write_part
  write_part-IsPlaced lawful valid phys intra_off part s t h =
      let whole = (intra_off == 0) && (length part == sb.block_size) in
      let (block_data, s₁, e₁, h₁) = >>=-eq-done (reads (base_of D sb fuel whole phys)) _ s h in
      let (q₁, same₁) = reads-eq-done (base_of D sb fuel whole phys) s e₁ in
      let (size, held) = base_of_facts lawful valid whole phys s q₁ in
      let (stored, s₂, e₂, h₂) =
        >>=-eq-done
          (reads (λ (u : WriteState D). copy_at {E = FileWriteError} block_data intra_off part)) _
          s₁ h₁ in
      let (q₂, same₂) =
        reads-eq-done (λ (u : WriteState D). copy_at {E = FileWriteError} block_data intra_off part)
          s₁ e₂ in
      let (fits, p) = copy_at-eq-ok block_data intra_off part q₂ in
      let (wrote, pinned) = put_facts phys stored s₂ t h₂ in
      let (aligned, _, high) = block_size_facts valid in
      let long : length stored ≡ sb.block_size =
        rw p (length-splice block_data intra_off part ∙ size) in
      let back =
        read_sectors-write_sectors D lawful (start_sector sb phys) stored s₂.dev t.dev (omega arith)
          wrote in
      record {
        stored = stored;
        on_device =
            subst (λ n. read_sectors D t.dev (start_sector sb phys) (n / 512) ≡ ok stored) long
              back;
        pinned = rw (same₁ ∙ same₂) pinned;
        inside = λ i lt. rw p (byte_at-splice_in block_data intra_off part fits i lt);
        around = λ partial. (
          block_data,
          held partial,
          λ j apart. rw p (byte_at-splice block_data intra_off part j apart),
        );
      }
