-- ===== src/Tests/Journaling.antt =====
-- A transaction of one block and one revoked block, committed to a journal of five blocks.
use pengwin.Base.{◌≡◌, refl, arith, [], ◌∷◌, replicate, done, ok, false}
use pengwin.Device.{read_sectors, write_loop, write_sectors}
use pengwin.Journal.Transaction.{Transaction, find_last}
use pengwin.WriteState.{resize, copy_at}
use pengwin.Journal.Writer.{
  Log, advance_write_head, headed_block, flags_of, put_uuid, tag_loop, escape, revoke_loop,
  write_to_journal, write_descriptor_block, write_data_block, write_data_blocks, commit_buffer,
  write_commit_block, revoke_buffer, write_revoke_block, write_fs_block, write_fs_blocks,
  write_revoked, write_log, commit,
}
use pengwin.Journal.Writer.Checkpoint.{commit-pinned}
use pengwin.Tests.Memory.{memory, memory-IsLawful, write_memory, is_sector, all_bytes}
use pengwin.Tests.Image.{small_sectors, final}

abbrev small_log : Log memory
small_log = record {
  dev = small_sectors;
  writer = record {
    write_head = 1;
    next_sequence = 7;
    journal_blocks = 10 ∷ 11 ∷ 12 ∷ 13 ∷ 14 ∷ [];
    block_size = 1024;
    first_usable_block = 1;
    total_journal_blocks = 5;
    journal_uuid = replicate 16 9;
    csum_v3 = false;
  };
}

abbrev small_txn : Transaction
small_txn = record { sequence = 7; blocks = (5, replicate 1024 3) ∷ []; revoked = 6 ∷ [] }

abbrev committed : Log memory
committed = final (commit memory small_txn small_log) small_log

commit_small : commit memory small_txn small_log ≡ done tt committed
unfolding write_loop write_sectors write_memory is_sector all_bytes resize copy_at
    advance_write_head headed_block flags_of put_uuid tag_loop escape revoke_loop write_to_journal
    write_descriptor_block write_data_block write_data_blocks commit_buffer write_commit_block
    revoke_buffer write_revoke_block write_fs_block write_fs_blocks write_revoked write_log commit
commit_small = refl

commit-pinned_example : read_sectors memory committed.dev 10 2 ≡ ok (replicate 1024 3)
unfolding find_last
commit-pinned_example =
    commit-pinned memory memory-IsLawful small_txn small_log committed refl (omega arith)
      (refl, omega arith, tt) (tt, tt) commit_small 5 (replicate 1024 3) refl
