-- ===== src/Tests/Survival.antt =====
-- An append, its sync, an initialisation later, and an iteration from the entry on.
use fkfs.Base.{◌≡◌, ◌≢◌, refl, arith, subst, false}
use fkfs.Base.Memory.{read_from, overwrite}
use fkfs.Crc.{table_at, crc16_nibble, crc16_byte, crc16_update}
use fkfs.Exec.{ok, ◌>>=◌, ◌>>◌}
use fkfs.Exec.Ends.{Ends}
use fkfs.Layout.{encode_header, decode_header, encode_files}
use fkfs.Platform.{Reliable}
use fkfs.Fs.{Fs}
use fkfs.Fs.Blocks.{write_block, read_block, load_block}
use fkfs.Fs.Headers.{
  header_bytes, header_crc, header_crc_valid, header_crc_update, header_buffer, put_header,
  header_write,
}
use fkfs.Fs.Init.{initialize}
use fkfs.Fs.Sync.{fsync, sync_dirty}
use fkfs.Fs.Invariant.Durable.{Current}
use fkfs.Fs.Invariant.Restart.{Restarted, fsync-initialize}
use fkfs.Fs.Iterator.{file_iterate}
use fkfs.Fs.Iterator.ReadBack.{Points}
use fkfs.Fs.Iterator.Survival.{at_stored, restart-iterate}
use fkfs.Tests.Card.{Card, card, content, card-IsDisk}
use fkfs.Tests.Core.{fresh, three}
use fkfs.Tests.ReadBack.{placed, appended, appended-Stored}
use fkfs.Tests.Scanned.{scanned, unlimited}

appended-Current : Current card content card-IsDisk appended
unfolding header_bytes decode_header read_from
appended-Current v = omega arith

abbrev synced : Fs Card
unfolding fsync sync_dirty write_block header_write header_buffer put_header read_block ◌>>=◌ ◌>>◌
    header_crc_update header_crc crc16_update crc16_byte crc16_nibble table_at
synced = (fsync card appended).1

sync_runs : fsync card appended ≡ (ok tt, synced)
unfolding fsync sync_dirty write_block header_write header_buffer put_header read_block ◌>>=◌ ◌>>◌
    header_crc_update header_crc crc16_update crc16_byte crc16_nibble table_at overwrite read_from
    encode_header encode_files
sync_runs = refl

-- A new state on the same card.
abbrev powered_on : Fs Card
powered_on = record fresh { sd = synced.sd }

abbrev restarted : Fs Card
unfolding initialize
restarted = (initialize card false powered_on).1

restart_runs : initialize card false powered_on ≡ (ok tt, restarted)
unfolding initialize ◌>>◌ load_block overwrite header_crc_valid decode_header header_bytes read_from
    synced encode_header encode_files
restart_runs = refl

restarted-Restarted : Restarted card content card-IsDisk appended powered_on restarted
restarted-Restarted =
    subst
      (Ends (λ _ c. Restarted card content card-IsDisk appended powered_on c)
        (λ _. ¬ Reliable card))
      restart_runs
      (fsync-initialize card content card-IsDisk appended synced powered_on appended-Stored.is_fs
        appended-Current (omega arith) (omega arith) refl sync_runs refl (λ j. refl))

powered_on_elsewhere : powered_on.cached_block_number ≢ appended.header.block
powered_on_elsewhere e = absurd (omega (arith, e))

restart-iterate_example :
    Ends
      (λ _ x. Points card three x)
      (λ _. ¬ Reliable card)
      (file_iterate card 1 unlimited (
        restarted,
        at_stored card content card-IsDisk 0 three placed appended appended-Stored powered_on
            restarted restarted-Restarted scanned.1,
      ))
restart-iterate_example =
    restart-iterate card content card-IsDisk 0 three placed appended appended-Stored powered_on
      restarted restarted-Restarted scanned.1 unlimited (omega arith) (omega arith)
      powered_on_elsewhere 0
