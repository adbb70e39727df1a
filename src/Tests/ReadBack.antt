-- ===== src/Tests/ReadBack.antt =====
-- An append, and an iteration from the new entry on.
use fkfs.Base.{true, replicate, ◌∷◌, ◌≡◌, refl, arith, subst}
use fkfs.Base.Memory.{overwrite, read_from}
use fkfs.Crc.{table_at, crc16_nibble, crc16_byte, crc16_update}
use fkfs.Exec.{ok, ◌>>=◌, ◌>>◌}
use fkfs.Exec.Ends.{Ends}
use fkfs.Layout.{encode_entry, decode_entry}
use fkfs.Fs.{Fs, store, put_file, file_at, settings_at}
use fkfs.Fs.Blocks.{block_ensure}
use fkfs.Fs.Init.{zero_file}
use fkfs.Fs.Check.{
  block_check, entry_at, bytes_at, block_crc, check_entry, available_loop, block_available_offset,
  outranked, next_offset,
}
use fkfs.Fs.Append.{
  file_append, file_allocate_block, make_room, search_block, search_cached, write_entry, sync_file,
  allocate_loop,
}
use fkfs.Fs.Invariant.{IsFs}
use fkfs.Fs.Invariant.Append.{NotDone, file_append-Ends}
use fkfs.Fs.Invariant.Append.InBlock.{Stored}
use fkfs.Fs.Iterator.{file_iterate}
use fkfs.Fs.Iterator.ReadBack.{Points, at_entry, append-iterate}
use fkfs.Tests.Card.{Card, card, card-ReadsBlocks}
use fkfs.Tests.Core.{fresh, three, block}
use fkfs.Tests.Scanned.{scanned, unlimited}

-- Block 8000 is in the cache, and empty.
abbrev pub placed : Fs Card
placed = record fresh { cached_block_number = 8000; header = record fresh.header { block = 8000 } }

placed-IsFs : IsFs placed
placed-IsFs = omega arith

abbrev pub appended : Fs Card
appended = record placed {
  cached_block_dirty = true;
  buffer = block;
  header = record placed.header {
    offset = 10;
    files =
        record zero_file { end_block = 8000; end_offset = 10; size = 3 } ∷ replicate 3 zero_file;
  };
}

append_runs : file_append card 0 3 three placed ≡ (ok tt, appended)
unfolding file_append ◌>>=◌ file_at ◌>>◌ file_allocate_block make_room search_block block_ensure
    settings_at block_available_offset block_check entry_at decode_entry read_from write_entry store
    encode_entry sync_file overwrite crc16_byte crc16_nibble crc16_update table_at allocate_loop
    search_cached available_loop block_crc bytes_at check_entry outranked next_offset put_file
append_runs = refl

pub appended-Stored : Stored card 0 three placed appended
appended-Stored =
    subst (Ends (λ _ b. Stored card 0 three placed b) (λ b. NotDone card 0 three placed b))
      append_runs
      (file_append-Ends card card-ReadsBlocks 0 3 three placed placed-IsFs (omega arith)
        (omega arith) (omega arith) (omega arith))

append-iterate_example :
    Ends
      (λ _ x. Points card three x)
      (λ _. ⊥)
      (file_iterate card 1 unlimited
        (appended, at_entry card 0 three placed appended appended-Stored scanned.1))
append-iterate_example =
    append-iterate card 0 three placed appended appended-Stored scanned.1 (omega arith)
      (omega arith) refl 0 unlimited
