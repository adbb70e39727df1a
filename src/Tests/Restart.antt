-- ===== src/Tests/Restart.antt =====
-- The theorems on syncs and initialisations at concrete states, and runs of the functions.
use fkfs.Base.{◌≡◌, refl, arith, subst, true, false, ◌∷◌, replicate}
use fkfs.Base.Memory.{read_from, overwrite}
use fkfs.Crc.{table_at, crc16_nibble, crc16_byte, crc16_update}
use fkfs.Exec.{ok, ◌>>=◌, ◌>>◌}
use fkfs.Exec.Ends.{Ends}
use fkfs.Layout.{encode_header, decode_header, encode_files}
use fkfs.Platform.{Reliable}
use fkfs.Fs.{Fs}
use fkfs.Fs.Blocks.{write_block, read_block}
use fkfs.Fs.Headers.{
  header_bytes, header_crc, header_crc_update, header_buffer, put_header, header_write,
}
use fkfs.Fs.Init.{initialize}
use fkfs.Fs.Sync.{fsync, sync_dirty, flush}
use fkfs.Fs.Invariant.{IsFs}
use fkfs.Fs.Invariant.Durable.{Current, Durable, fsync-Durable}
use fkfs.Fs.Invariant.Durable.OnCard.{Older}
use fkfs.Fs.Invariant.Flush.{Flushed, flush-Flushed}
use fkfs.Fs.Invariant.NewCard.{NewFs}
use fkfs.Fs.Invariant.Wipe.{initialize-NewFs}
use fkfs.Fs.Invariant.Recovery.{Recovered, initialize-Recovered}
use fkfs.Fs.Invariant.Restart.{Restarted, fsync-initialize}
use fkfs.Tests.Card.{Card, card, content, card-IsDisk}
use fkfs.Tests.Core.{fresh}

-- A buffer that is to be written to block 8000.
abbrev dirty : Fs Card
dirty = record fresh {
  cached_block_dirty = true;
  cached_block_number = 8000;
  buffer = 1 ∷ replicate 511 2;
  header = record fresh.header { block = 8000; offset = 30; generation = 4 };
}

dirty-IsFs : IsFs dirty
dirty-IsFs = omega arith

dirty-Current : Current card content card-IsDisk dirty
unfolding header_bytes decode_header read_from
dirty-Current v = omega arith

fsync-Durable_example :
    Ends (λ _ b. Durable card content card-IsDisk dirty b) (λ _. ¬ Reliable card) (fsync card dirty)
fsync-Durable_example =
    fsync-Durable card content card-IsDisk dirty dirty-IsFs dirty-Current (omega arith)
      (omega arith) refl

abbrev synced : Fs Card
unfolding fsync sync_dirty write_block header_write header_buffer put_header read_block ◌>>=◌ ◌>>◌
    header_crc_update header_crc crc16_update crc16_byte crc16_nibble table_at
synced = (fsync card dirty).1

sync_runs : fsync card dirty ≡ (ok tt, synced)
unfolding fsync sync_dirty write_block header_write header_buffer put_header read_block ◌>>=◌ ◌>>◌
    header_crc_update header_crc crc16_update crc16_byte crc16_nibble table_at overwrite read_from
    encode_header encode_files
sync_runs = refl

fsync-initialize_example :
    Ends
      (λ _ c. Restarted card content card-IsDisk dirty (record fresh { sd = synced.sd }) c)
      (λ _. ¬ Reliable card)
      (initialize card false (record fresh { sd = synced.sd }))
fsync-initialize_example =
    fsync-initialize card content card-IsDisk dirty synced (record fresh { sd = synced.sd })
      dirty-IsFs dirty-Current (omega arith) (omega arith) refl sync_runs refl (λ j. refl)

synced-Durable : Durable card content card-IsDisk dirty synced
synced-Durable =
    subst (Ends (λ _ b. Durable card content card-IsDisk dirty b) (λ _. ¬ Reliable card)) sync_runs
      fsync-Durable_example

initialize-Recovered_example :
    Ends
      (λ _ c.
        Recovered card content card-IsDisk synced.header_index synced.header
          (record fresh { sd = synced.sd })
          c)
      (λ _. ¬ Reliable card)
      (initialize card false (record fresh { sd = synced.sd }))
initialize-Recovered_example =
    initialize-Recovered card content card-IsDisk synced.header_index synced.header
      (omega (arith, synced-Durable.slot)) (record fresh { sd = synced.sd }) refl
      synced-Durable.holds synced-Durable.picked

dirty-Older : Older card content card-IsDisk dirty
unfolding header_bytes decode_header read_from
dirty-Older v = omega arith

flush-Flushed_example :
    Ends
      (λ _ b. Flushed card content card-IsDisk 7 dirty b)
      (λ _. ¬ Reliable card)
      (flush card dirty)
flush-Flushed_example =
    flush-Flushed card content card-IsDisk dirty dirty-IsFs (omega arith) dirty-Older (omega arith)
      (omega arith)

initialize-NewFs_example :
    Ends
      (λ _ b. NewFs card content card-IsDisk dirty b)
      (λ _. ¬ Reliable card)
      (initialize card true dirty)
initialize-NewFs_example = initialize-NewFs card content card-IsDisk true dirty dirty-IsFs refl
