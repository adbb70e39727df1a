-- ===== src/Tests/Scanned.antt =====
-- The iteration over a file at a concrete state, and runs of it.
use fkfs.Base.{
  replicate, ℕ, ◌≡◌, ◌⊎◌, refl, ap, arith, false, not, ◌&&◌, List, [], ◌∙◌, ◌≤◌, length,
}
use fkfs.Base.Memory.{read_from, read_from-outside}
use fkfs.Crc.{table_at, crc16_nibble, crc16_byte, crc16_update}
use fkfs.Exec.{Result, ok, failed, ◌>>◌}
use fkfs.Exec.Ends.{Ends}
use fkfs.Layout.{Entry, File, decode_entry, encode_entry}
use fkfs.Fs.{Fs}
use fkfs.Fs.Blocks.{block_ensure}
use fkfs.Fs.Check.{bad_size, block_check, check_entry, entry_at, bytes_at, block_crc}
use fkfs.Fs.Check.Room.{block_check-plain}
use fkfs.Fs.Init.{zero_file}
use fkfs.Fs.Iterator.{
  iterator_create, count_call, Iter, Config, State, iterator_done, iterator_valid, file_iterate,
}
use fkfs.Fs.Iterator.Delivery.{NothingBehind, Delivered, Stopped, by_token}
use fkfs.Fs.Iterator.Scan.{file_iterate-Ends}
use fkfs.Fs.Iterator.Wrapped.{create-iterate_wrapped}
use fkfs.Fs.Truncate.{file_truncate, file_truncate_at}
use fkfs.Fs.Truncate.Recount.{CutOff, file_truncate_at-CutOff}
use fkfs.Fs.Truncate.Emptied.{truncate-iterate}
use fkfs.Tests.Card.{Card, card, content, card-IsDisk}
use fkfs.Tests.Core.{fresh, block}

abbrev zero_entry : Entry
zero_entry = record { file = 0; size = 0; available = 0; crc = 0 }

zeros : decode_entry (read_from (λ _. 0) [] 0 7) ≡ zero_entry
unfolding decode_entry read_from
zeros = refl

behind_the_buffer :
    (fs : Fs Card) (offset : ℕ)
    → length fs.buffer ≡ 512
    → 512 ≤ offset
    → entry_at card fs.sd fs.buffer offset ≡ zero_entry
unfolding entry_at bytes_at
behind_the_buffer fs offset whole far =
    ap (λ bytes. decode_entry bytes) (read_from-outside 0 fs.buffer offset 7 (omega (arith, whole)))
    ∙ zeros

zero-bad_size : (file : File) (bytes : List ℕ) → check_entry zero_entry file bytes ≡ bad_size
unfolding check_entry
zero-bad_size file bytes = refl

card-NothingBehind : NothingBehind card
card-NothingBehind = record { no_entry = behind }
  where
    behind :
        (fs : Fs Card) (offset : ℕ)
        → length fs.buffer ≡ 512
        → 512 ≤ offset
        → block_check card fs fs.buffer offset ≡ bad_size
    behind fs offset whole far =
        block_check-plain card fs fs.buffer offset
        ∙ rw (behind_the_buffer fs offset whole far) (zero-bad_size _ _)

-- A state with an entry of file 0 in the block that is in the cache.
abbrev pub scanned : State card
scanned = (
  record fresh {
    buffer = block;
    cached_block_number = 5;
    number_of_blocks = 10000;
    header = record fresh.header { block = 6 };
  },
  record {
    token = record { file = 0; block = 5; offset = 0; last_block = 6; last_offset = 0; size = 3 };
    pointer = 0;
    size = 0;
    iterated = 0;
  },
)

abbrev pub unlimited : Config
unlimited = record { max_blocks = 0; max_time = 0; manual_next = false }

file_iterate-Ends_example :
    Ends
      (λ _ s'. Delivered card content unlimited scanned s')
      (λ s'.
        ((iterator_valid scanned.0 scanned.1 && not (iterator_done scanned.1) ≡ false)
          ⊎ Stopped card content unlimited scanned s')
        × (s'.0.header ≡ scanned.0.header))
      (file_iterate card 1400 unlimited scanned)
file_iterate-Ends_example =
    file_iterate-Ends card content card-IsDisk unlimited card-NothingBehind 1400 1 scanned refl
      (by_token refl refl (omega arith) (omega arith)) (omega arith)

abbrev outcome : Result (Unit {0}) × State card → Result (Unit {0}) × ℕ × ℕ × ℕ
outcome (r, s) = (r, s.1.size, s.1.pointer, s.1.token.offset)

-- The data of the entry stands behind its head, and the token moves to the byte behind it.
iterate_runs : outcome (file_iterate card 2 unlimited scanned) ≡ (ok tt, 3, 7, 10)
unfolding file_iterate ◌>>◌ block_ensure block_check entry_at decode_entry read_from block_crc
    crc16_update crc16_byte crc16_nibble encode_entry table_at
iterate_runs = refl

abbrev wrapped_file : File
wrapped_file = record zero_file { start_block = 9990; end_block = 8000 }

-- A state in which file 0 has gone on at the card's first block.
abbrev wrapped : Fs Card
wrapped = record fresh { header = record fresh.header { files = replicate 4 wrapped_file } }

create-iterate_wrapped_example :
    (made : Iter) × (iterator_create 0 scanned.1 wrapped ≡ (ok made, wrapped))
    × ((fuel : ℕ) (config : Config)
        → file_iterate card fuel config (wrapped, made) ≡ (failed, (count_call card wrapped, made)))
create-iterate_wrapped_example =
    create-iterate_wrapped card 0 wrapped_file wrapped scanned.1 refl (omega arith)

truncate-iterate_example :
    (made : Iter) × (after : Fs Card) × (file_truncate 0 wrapped ≡ (ok tt, after))
    × (iterator_create 0 scanned.1 after ≡ (ok made, after))
    × ((fuel : ℕ) (config : Config)
        → file_iterate card fuel config (after, made) ≡ (failed, (count_call card after, made)))
truncate-iterate_example = truncate-iterate card 0 wrapped_file wrapped scanned.1 refl

-- A state with files that have entries in two blocks.
abbrev filled : Fs Card
filled = record scanned.0 {
  header = record scanned.0.header {
    files = replicate 4 (record zero_file { start_block = 5; end_block = 6 });
  };
}

file_truncate_at-CutOff_example :
    Ends
      (λ _ b.
        CutOff card content card-IsDisk card-NothingBehind 7601 scanned.1 scanned.1
          (record zero_file { start_block = 5; end_block = 6 })
          filled
          b)
      (λ _. ⊥)
      (file_truncate_at card 7601 458752 scanned.1 scanned.1 filled)
file_truncate_at-CutOff_example =
    file_truncate_at-CutOff card content card-IsDisk card-NothingBehind 7601 458752 scanned.1
      scanned.1 (record zero_file { start_block = 5; end_block = 6 }) filled refl refl (omega arith)
      (omega arith) (omega arith) (omega arith) (omega arith)
