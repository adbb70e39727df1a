-- ===== src/Fs/Append.antt =====
-- fkfs.cpp: `fkfs_file_allocate_block` and `fkfs_file_append`.
pub mod Written
pub mod Guards
use fkfs.Base.{
  ℕ, zero, suc, ◌+◌, ◌%◌, ◌^◌, Bool, true, false, not, ◌||◌, none, some, Option, List, ◌==◌, ltb,
  leb, if◌then◌else◌, length, take,
}
use fkfs.Exec.{
  Exec, ok, fault, out_of_fuel, pure, fail, raise, require, in_bounds, modify, gets, ◌>>=◌, ◌>>◌,
}
use fkfs.Layout.{Entry, encode_entry, sizeof_entry, block_size}
use fkfs.Platform.{Platform}
use fkfs.Fs.{
  Fs, file_at, settings_at, put_file, store, first_block, seek_blocks_max, uint32_max, add32, sub32,
}
use fkfs.Fs.Blocks.{block_ensure}
use fkfs.Fs.Check.{Search, block_crc, block_available_offset}
use fkfs.Fs.Sync.{fsync}

-- The block behind a block, at the end of the card the first one.
unfoldable pub next_block : ℕ → ℕ → ℕ
next_block number_of_blocks block =
    let next = add32 block 1 in
    if next == sub32 number_of_blocks 2 || next == uint32_max then first_block else next

module _ {D : Type 0} (p : Platform D) where
  -- The block is left: what is cached is flushed, and the header stands at the next block's start.
  unfoldable pub leave_block : Exec (Fs D) (Unit {0})
  unfolding next_block
  leave_block = do
    fsync p
    modify (λ fs. record fs {
      header = record fs.header {
        block = next_block fs.number_of_blocks fs.header.block;
        offset = 0;
      };
    })

  -- The test at the loop's head, with the offset and the number of visited blocks after it.
  unfoldable pub make_room : ℕ → ℕ → ℕ → Exec (Fs D) (ℕ × ℕ)
  unfolding leave_block
  make_room required new_offset visited = elim (ltb block_size (required + new_offset)) [
    | true ↦ do leave_block; pure (0, (visited + 1) % 2 ^ 16)
    | false ↦ pure (new_offset, visited)
  ]

  abbrev pub answer : Option (Bool × Search) → Exec (Fs D) (Bool × Search)
  answer none = raise out_of_fuel
  answer (some found) = pure found

  -- The search of the cached block, with the file's own priority.
  unfoldable pub search_cached : ℕ → ℕ → ℕ → Exec (Fs D) (Bool × Search)
  search_cached own required offset fs =
      answer (block_available_offset p fs own required fs.buffer offset) fs

  -- The rest of the round: the block is loaded and searched.
  unfoldable pub search_block : ℕ → ℕ → ℕ → Exec (Fs D) (Bool × Search)
  unfolding search_cached
  search_block number required new_offset = do
    block ← gets (λ fs. fs.header.block)
    block_ensure p block
    settings ← settings_at number
    search_cached settings.priority required new_offset

  abbrev pub at_offset : ℕ → Fs D → Fs D
  at_offset offset fs = record fs { header = record fs.header { offset = offset } }

  -- Behind a round that found nothing the offset is the block's size.
  unfoldable pub allocate_loop : ℕ → ℕ → ℕ → ℕ → ℕ → Exec (Fs D) (Unit {0})
  allocate_loop zero number required new_offset visited = raise out_of_fuel
  allocate_loop (suc fuel) number required new_offset visited =
      make_room required new_offset visited >>= λ (offset, visited').
      search_block number required offset >>= λ (found, search). elim found [
        | true ↦ modify (at_offset search.offset)
        | false ↦ elim (ltb visited' seek_blocks_max) [
          | true ↦ allocate_loop fuel number required block_size visited'
          | false ↦ fail
        ]
      ]

  -- One round in the present block and one in each of `seek_blocks_max` more.
  unfoldable pub file_allocate_block : ℕ → ℕ → Exec (Fs D) (Unit {0})
  unfolding allocate_loop
  file_allocate_block number required = do
    offset ← gets (λ fs. fs.header.offset)
    allocate_loop (seek_blocks_max + 1) number required offset 0

  -- The new entry goes into the buffer, and the file and the header behind it.
  unfoldable pub write_entry : ℕ → ℕ → ℕ → List ℕ → Exec (Fs D) (Unit {0})
  write_entry number required size bytes = do
    file ← file_at number
    offset ← gets (λ fs. fs.header.offset)
    let plain : Entry = record { file = number; size = size; available = size; crc = 0 }
    let entry = record plain { crc = block_crc file plain bytes }
    store offset (encode_entry entry)
    store (offset + sizeof_entry) bytes
    modify (λ fs. record fs {
      cached_block_dirty = true;
      header = record fs.header { offset = (offset + required) % 2 ^ 16 };
    })
    modify (λ fs.
        put_file number
          (record file {
            end_block = fs.header.block;
            end_offset = fs.header.offset;
            size = add32 file.size size;
          })
          fs)

  abbrev pub sync_unless : Bool → Exec (Fs D) (Unit {0})
  sync_unless true = pure tt
  sync_unless false = fsync p

  unfoldable pub sync_file : ℕ → Exec (Fs D) (Unit {0})
  sync_file number = do settings ← settings_at number; sync_unless (settings.sync == 0)

  -- `size` is a `uint16_t`, and `required` is cut to one. `bytes` is what `data` points to.
  unfoldable pub file_append : ℕ → ℕ → List ℕ → Exec (Fs D) (Unit {0})
  file_append number size bytes = do
    file ← file_at number
    let required = (sizeof_entry + size) % 2 ^ 16
    require (not (size == 0 || ltb block_size required))
    file_allocate_block number required
    in_bounds (leb size (length bytes))
    write_entry number required size (take size bytes)
    sync_file number
