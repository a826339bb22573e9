-- ===== src/Journal/Writer.antt =====
-- `JournalWriter` of `ext4-core/src/journal/writer.rs`: the log of transactions on the device.
pub mod Checkpoint
use pengwin.Base.{
  ℕ, zero, suc, ◌+◌, ◌-◌, ◌*◌, ◌/◌, ◌%◌, ◌^◌, Bool, true, false, not, ltb, leb, ◌==◌, ◌&&◌,
  if◌then◌else◌, Option, none, some, List, [], ◌∷◌, ◌++◌, length, get_elem?, replicate, splice, map,
  u8, u16, u32, u64, ◌>>>◌, bytes_u32_be, bytes_u16_be, bytes_u32_le, u32_be, bit_and, bit_xor,
  Outcome, ok, err, panic, map_err, ok_or, ensure, M, done, pure, reads, zoom,
}
use pengwin.Base.Fallible
use pengwin.Base.Stateful.{◌>>=◌, ◌>>◌}
use pengwin.Device.{BlockDevice, BlockDeviceError, read_sectors, write_sectors}
use pengwin.Journal.Transaction
use pengwin.Journal.Transaction.{Transaction}
use pengwin.Journal.Format.{
  JournalError, JournalSuperblock, journal_magic, block_out_of_range, block_device, invalid_buffer,
  is_clean, has_csum_v3,
}
use pengwin.WriteState.{resize, copy_at}

pub record JournalWriter : Type 0 where
  pub write_head : ℕ
  pub next_sequence : ℕ
  pub journal_blocks : List ℕ
  pub block_size : ℕ
  pub first_usable_block : ℕ
  pub total_journal_blocks : ℕ
  pub journal_uuid : List ℕ
  pub csum_v3 : Bool

-- From the journal's superblock and its block map.
unfoldable pub new : JournalSuperblock → List ℕ → JournalWriter
new sb blocks = record {
  write_head = if is_clean sb then sb.first_usable_block else sb.start_block;
  next_sequence = sb.start_sequence;
  journal_blocks = blocks;
  block_size = sb.block_size;
  first_usable_block = sb.first_usable_block;
  total_journal_blocks = sb.total_blocks;
  journal_uuid = sb.uuid;
  csum_v3 = has_csum_v3 sb;
}

unfoldable pub begin_transaction : JournalWriter → Transaction
begin_transaction w = Transaction.new w.next_sequence

-- `self.write_head += 1`, and back to the first usable block at the end of the log.
unfoldable pub advance_write_head : JournalWriter → JournalWriter
advance_write_head w =
    let head = u32 (w.write_head + 1) in
    if leb w.total_journal_blocks head
    then record w { write_head = w.first_usable_block }
    else record w { write_head = head }

abbrev pub descriptor_type : ℕ
descriptor_type = 1

abbrev pub commit_type : ℕ
commit_type = 2

abbrev pub revoke_type : ℕ
revoke_type = 5

abbrev pub build_block_header : ℕ → ℕ → ℕ → List ℕ
build_block_header magic blocktype sequence =
    bytes_u32_be magic ++ bytes_u32_be blocktype ++ bytes_u32_be sequence

-- `vec![0; block_size]` with the header in front.
unfoldable pub headed_block : JournalWriter → ℕ → ℕ → Outcome JournalError (List ℕ)
headed_block w blocktype sequence =
    copy_at (replicate w.block_size 0) 0 (build_block_header journal_magic blocktype sequence)

-- `JournalBlockTag` without a checksum.
abbrev pub tag_bytes : ℕ → ℕ → List ℕ
tag_bytes fs_block flags =
    bytes_u32_be (u32 fs_block)
    ++ bytes_u16_be flags
    ++ bytes_u16_be (u16 (fs_block >>> 32))
    ++ bytes_u32_be 0

-- SAME_UUID from the second tag on, and LAST_TAG.
unfoldable pub flags_of : ℕ → Bool → ℕ
flags_of i is_last = (if i == 0 then 0 else 0x1) + (if is_last then 0x8 else 0)

-- After the first tag the journal's UUID follows, if it fits.
unfoldable pub put_uuid : JournalWriter → ℕ → ℕ → List ℕ → Outcome JournalError (List ℕ × ℕ)
put_uuid w i offset buf =
    if (i == 0) && leb (offset + 16) (length buf)
    then Fallible.◌>>=◌ (copy_at buf offset w.journal_uuid) (λ b. ok (b, offset + 16))
    else ok (buf, offset)

-- The loop over the pinned blocks at index `i`.
unfoldable pub tag_loop :
    JournalWriter → ℕ → List (ℕ × List ℕ) → ℕ → List ℕ → Outcome JournalError (List ℕ)
tag_loop w i [] offset buf = ok buf
tag_loop w i ((fs_block, _) ∷ rest) offset buf =
    Fallible.◌>>◌ (ensure (leb (offset + 12) (length buf)) (block_out_of_range w.write_head)) (
      Fallible.◌>>=◌ (copy_at buf offset (tag_bytes fs_block (flags_of i (length rest == 0))))
        λ tagged.
          Fallible.◌>>=◌ (put_uuid w i (offset + 12) tagged) λ r. tag_loop w (i + 1) rest r.1 r.0)

-- A block that starts with the journal's magic number has it replaced by zeros.
unfoldable pub escape : List ℕ → List ℕ
escape bytes =
    if leb 4 (length bytes) && (u32_be bytes 0 == journal_magic)
    then splice bytes 0 (replicate 4 0)
    else bytes

-- The entries of a revoke block, as many as fit.
unfoldable pub revoke_loop : List ℕ → ℕ → List ℕ → List ℕ
revoke_loop [] off buf = buf
revoke_loop (blk ∷ rest) off buf =
    let more = revoke_loop rest (off + 4) (splice buf off (bytes_u32_be (u32 blk))) in
    if ltb (length buf) (off + 4) then buf else more

-- One bit, and one byte, of `crc32c_commit`.
unfoldable pub crc_bits : ℕ → ℕ → ℕ
crc_bits zero h = h
crc_bits (suc n) h = crc_bits n (if h % 2 == 1 then bit_xor (h / 2) 0x82F63B78 else h / 2)

unfoldable pub crc_loop : List ℕ → ℕ → ℕ
crc_loop [] h = h
crc_loop (b ∷ rest) h = crc_loop rest (crc_bits 8 (bit_xor h b))

unfoldable pub crc32c_commit : List ℕ → ℕ → ℕ
crc32c_commit uuid sequence = 0xFFFFFFFF - bit_xor (crc_loop uuid 0xFFFFFFFF) sequence

module _ (D : BlockDevice) where
  -- The device and the writer's own fields.
  pub record Log : Type 0 where
    pub dev : D.Dev
    pub writer : JournalWriter

  abbrev Writing : Type 0 → Type 0
  Writing A = M Log JournalError A

  abbrev on_device {ℓ} : {A : Type ℓ} → M D.Dev BlockDeviceError A → M Log JournalError A
  on_device = zoom (λ s. s.dev) (λ d s. record s { dev = d }) block_device

  abbrev on_writer : (JournalWriter → JournalWriter) → Writing (Unit {0})
  on_writer f s = done tt (record s { writer = f s.writer })

  unfoldable pub write_to_journal : List ℕ → Writing (Unit {0})
  write_to_journal bytes = do
    w ← reads (λ s. ok s.writer)
    phys ←
        reads
          (λ s. ok_or (block_out_of_range w.write_head) (get_elem? w.journal_blocks w.write_head))
    on_device (write_sectors D (u64 (phys * (w.block_size / 512))) (resize bytes w.block_size))
    on_writer advance_write_head

  unfoldable pub write_descriptor_block : List (ℕ × List ℕ) → ℕ → Writing (Unit {0})
  write_descriptor_block blocks sequence = do
    buf ← reads (λ s. headed_block s.writer descriptor_type sequence)
    tagged ← reads (λ s. tag_loop s.writer 0 blocks 12 buf)
    write_to_journal tagged

  unfoldable pub write_data_block : List ℕ → Writing (Unit {0})
  write_data_block bytes = write_to_journal (escape bytes)

  unfoldable pub write_data_blocks : List (ℕ × List ℕ) → Writing (Unit {0})
  write_data_blocks [] = pure tt
  write_data_blocks ((_, bytes) ∷ rest) = do write_data_block bytes; write_data_blocks rest

  unfoldable pub commit_buffer : JournalWriter → ℕ → Outcome JournalError (List ℕ)
  commit_buffer w sequence = Fallible.◌>>=◌ (headed_block w commit_type sequence) λ buf.
      if w.csum_v3
      then copy_at buf 12 (bytes_u32_le (crc32c_commit w.journal_uuid sequence))
      else ok buf

  unfoldable pub write_commit_block : ℕ → Writing (Unit {0})
  write_commit_block sequence = do
    buf ← reads (λ s. commit_buffer s.writer sequence)
    write_to_journal buf

  unfoldable pub revoke_buffer : JournalWriter → List ℕ → ℕ → Outcome JournalError (List ℕ)
  revoke_buffer w revoked sequence = Fallible.◌>>=◌ (headed_block w revoke_type sequence) λ buf.
      Fallible.◌>>=◌ (copy_at buf 12 (bytes_u32_be (u32 (length revoked))))
        λ counted. ok (revoke_loop revoked 16 counted)

  unfoldable pub write_revoke_block : List ℕ → ℕ → Writing (Unit {0})
  write_revoke_block revoked sequence = do
    buf ← reads (λ s. revoke_buffer s.writer revoked sequence)
    write_to_journal buf

  unfoldable pub write_fs_block : ℕ → ℕ → List ℕ → M D.Dev BlockDeviceError (Unit {0})
  write_fs_block block_size fs_block bytes =
      write_sectors D (u64 (fs_block * (block_size / 512))) (resize bytes block_size)

  -- The pinned blocks written to their places.
  unfoldable pub write_fs_blocks : ℕ → List (ℕ × List ℕ) → M D.Dev BlockDeviceError (Unit {0})
  write_fs_blocks block_size [] = pure tt
  write_fs_blocks block_size ((fs_block, bytes) ∷ rest) = do
    write_fs_block block_size fs_block bytes
    write_fs_blocks block_size rest

  abbrev pub write_pinned : List (ℕ × List ℕ) → Writing (Unit {0})
  write_pinned blocks s = on_device (write_fs_blocks s.writer.block_size blocks) s

  unfoldable pub write_revoked : Transaction → Writing (Unit {0})
  write_revoked txn =
      if length txn.revoked == 0 then pure tt else write_revoke_block txn.revoked txn.sequence

  unfoldable pub write_log : Transaction → Writing (Unit {0})
  write_log txn =
      if length txn.blocks == 0
      then pure tt
      else do write_descriptor_block txn.blocks txn.sequence; write_data_blocks txn.blocks

  unfoldable pub commit : Transaction → Writing (Unit {0})
  commit txn = do
    write_revoked txn
    write_log txn
    write_commit_block txn.sequence
    write_pinned txn.blocks
    on_writer (λ w. record w { next_sequence = u32 (w.next_sequence + 1) })

  -- The fields `s_start` and `s_sequence` of the journal's superblock.
  unfoldable pub patch_tail : JournalWriter → List ℕ → Outcome JournalError (List ℕ)
  patch_tail w bytes = Fallible.◌>>◌ (ensure (leb 1024 (length bytes)) invalid_buffer) (
      ok (
        splice (splice bytes 28 (bytes_u32_be w.first_usable_block)) 24
          (bytes_u32_be w.next_sequence)))

  unfoldable pub advance_journal_tail : Writing (Unit {0})
  advance_journal_tail = do
    w ← reads (λ s. ok s.writer)
    phys ← reads (λ s. ok_or (block_out_of_range 0) (get_elem? w.journal_blocks 0))
    let sectors_per_block = w.block_size / 512
    let start_sector = u64 (phys * sectors_per_block)
    bytes ← reads (λ s. map_err block_device (read_sectors D s.dev start_sector sectors_per_block))
    patched ← reads (λ s. patch_tail w bytes)
    on_device (write_sectors D start_sector patched)

  unfoldable pub checkpoint : List (ℕ × List ℕ) → Writing (Unit {0})
  checkpoint txn_blocks = do write_pinned txn_blocks; on_device D.flush; advance_journal_tail

  unfoldable pub flush_pending : Writing (Unit {0})
  flush_pending = pure tt
