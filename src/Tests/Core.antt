-- ===== src/Tests/Core.antt =====
-- The theorems on the core at concrete inputs, and runs of the functions.
use fkfs.Base.{ℕ, ◌≡◌, ◌≢◌, refl, arith, true, false, List, [], ◌∷◌, replicate}
use fkfs.Base.Memory.{read_from}
use fkfs.Crc.{table_at, crc16_nibble, crc16_byte, crc16_update}
use fkfs.Exec.Ends.{Ends}
use fkfs.Layout.{encode_entry, decode_entry}
use fkfs.Fs.{Fs}
use fkfs.Fs.Init.{create, zero_header, zero_file, number_of_files}
use fkfs.Fs.Init.Count.{IsNamed, number_of_files_lem}
use fkfs.Layout.{byte}
use fkfs.Fs.Check.{good, bad_crc, check_entry, block_check, entry_at, bytes_at, block_crc}
use fkfs.Fs.Append.{file_append}
use fkfs.Fs.Append.Guards.{file_append-refused}
use fkfs.Exec.{failed}
use fkfs.Base.{inr}
use fkfs.Fs.Invariant.{IsFs}
use fkfs.Fs.Truncate.{file_truncate}
use fkfs.Fs.Truncate.Stale.{block_check-truncate_self, block_check-truncate_ne}
use fkfs.Crc.Injective.{crc16_update-injective}
use fkfs.Crc.Bitwise.{bitwise, crc16_update-bitwise}
use fkfs.Fs.Check.{block_available_offset, bad_size, outranked, next_offset}
use fkfs.Fs.Check.Room.{Finds, block_available_offset_lem}
use fkfs.Fs.Append.{file_allocate_block}
use fkfs.Fs.Sync.{fsync}
use fkfs.Fs.Invariant.Sync.{Synced, fsync-Ends}
use fkfs.Fs.Invariant.Allocate.{Kept, Allocated}
use fkfs.Fs.Invariant.Allocate.Loop.{file_allocate_block-Ends}
use fkfs.Base.{some}
use fkfs.Tests.Card.{Card, card, card-ReadsBlocks, blank}

-- The check value of this checksum, CRC-16 with start 0, for the text 123456789.
crc_check_value :
    crc16_update 0 (0x31 ∷ 0x32 ∷ 0x33 ∷ 0x34 ∷ 0x35 ∷ 0x36 ∷ 0x37 ∷ 0x38 ∷ 0x39 ∷ []) ≡ 0xBB3D
unfolding crc16_update crc16_byte crc16_nibble table_at
crc_check_value = refl

abbrev pub fresh : Fs Card
fresh = record {
  header_index = 0;
  cached_block_dirty = false;
  cached_block_number = 0;
  number_of_blocks = 0;
  header = zero_header;
  sd = blank;
  buffer = replicate 512 0;
  files = replicate 4 (record { sync = 0; priority = 0 });
  statistics = record {
    block_reads = 0;
    block_writes = 0;
    iterate_calls = 0;
    iterate_time = 0;
    write_time = 0;
    read_time = 0;
  };
}

create_runs : create card blank ≡ fresh
unfolding create
create_runs = refl

pub fresh-IsFs : IsFs fresh
fresh-IsFs = omega arith

abbrev pub three : List ℕ
three = 7 ∷ 8 ∷ 9 ∷ []

-- A block that starts with an entry of file 0.
abbrev pub block : List ℕ
block = 0 ∷ 3 ∷ 0 ∷ 3 ∷ 0 ∷ 1 ∷ 7 ∷ 7 ∷ 8 ∷ 9 ∷ replicate 502 0

block_is_good : block_check card fresh block 0 ≡ good
unfolding block_check entry_at bytes_at decode_entry read_from block_crc crc16_update crc16_byte
    crc16_nibble table_at encode_entry
block_is_good = refl

entry_is_own : (entry_at card fresh.sd block 0).file ≡ 0
unfolding entry_at bytes_at decode_entry read_from
entry_is_own = refl

entry_is_not_other : (entry_at card fresh.sd block 0).file ≢ 1
unfolding entry_at bytes_at decode_entry read_from
entry_is_not_other e = absurd (omega (arith, e))

block_check-truncate_self_example : block_check card (file_truncate 0 fresh).1 block 0 ≡ bad_crc
block_check-truncate_self_example =
    block_check-truncate_self card fresh 0 block 0 (omega arith) (omega arith) entry_is_own
      block_is_good

block_check-truncate_ne_example :
    block_check card (file_truncate 1 fresh).1 block 0 ≡ block_check card fresh block 0
block_check-truncate_ne_example =
    block_check-truncate_ne card fresh 1 block 0 (omega arith) entry_is_not_other

block_available_offset_lem_example :
    Finds card fresh block 0 20 0 (block_available_offset card fresh 0 20 block 0)
block_available_offset_lem_example =
    block_available_offset_lem card fresh block 0 20 0 (omega arith)

-- The search passes over the entry, and finds the zeros behind it.
search_runs :
    block_available_offset card fresh 0 20 block 0
    ≡ some (true, record { offset = 10; status = bad_size })
unfolding block_available_offset block_check entry_at bytes_at decode_entry read_from block_crc
    crc16_update crc16_byte crc16_nibble table_at encode_entry outranked next_offset check_entry
search_runs = refl

file_allocate_block-Ends_example :
    Ends
      (λ _ b. Allocated card 0 20 fresh b)
      (λ b. Kept fresh b)
      (file_allocate_block card 0 20 fresh)
file_allocate_block-Ends_example =
    file_allocate_block-Ends card card-ReadsBlocks 0 20 fresh fresh-IsFs (omega arith) (omega arith)
      (omega arith)

fsync-Ends_example : Ends (λ _ b. Synced fresh b) (λ b. Synced fresh b) (fsync card fresh)
fsync-Ends_example = fsync-Ends card fresh fresh-IsFs

crc16_update-injective_example : ◌≡◌ {A = ℕ} 5 5
crc16_update-injective_example = crc16_update-injective 5 5 three (omega arith) (omega arith) refl

crc16_update-bitwise_example : crc16_update 0xFFFF three ≡ bitwise 0xFFFF three
crc16_update-bitwise_example = crc16_update-bitwise 0xFFFF three (omega arith) (omega arith)

-- The state with the same name for each file.
abbrev all_named : Fs Card
all_named = record fresh {
  header = record fresh.header { files = replicate 4 (record zero_file { name = 97 ∷ [] }) };
}

first-IsNamed : IsNamed (record zero_file { name = 97 ∷ [] })
unfolding byte
first-IsNamed e = absurd (omega (arith, e))

number_of_files_lem_example : number_of_files all_named ≡ 0
number_of_files_lem_example =
    number_of_files_lem all_named all_named.header.files [] refl
      (first-IsNamed, (first-IsNamed, (first-IsNamed, (first-IsNamed, tt)))) tt

file_append-refused_example : file_append card 0 600 (replicate 600 1) fresh ≡ (failed, fresh)
file_append-refused_example =
    file_append-refused card 0 600 (replicate 600 1) fresh (omega arith)
      (inr (omega arith, omega arith))

-- The required size wraps to 3, so the guard lets this append through.
