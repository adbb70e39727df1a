-- ===== src/Fs/Check.antt =====
-- fkfs.cpp: the entries of a block, `fkfs_block_crc`, `fkfs_block_check` and
-- `fkfs_block_available_offset`.
pub mod Room
use fkfs.Base.{
  ℕ, zero, suc, ◌+◌, ◌%◌, ◌^◌, Bool, true, false, ◌&&◌, ◌||◌, Option, none, some, List, get_or, ltb,
  leb, ◌==◌, if◌then◌else◌, take,
}
use fkfs.Base.Memory.{read_from}
use fkfs.Crc.{crc16_update}
use fkfs.Layout.{
  Entry, File, encode_entry, decode_entry, sizeof_entry, entry_size_minus_crc, block_size,
  files_max,
}
use fkfs.Platform.{Platform}
use fkfs.Fs.{Fs, blank_file, blank_settings}

-- FKFS_OFFSET_SEARCH_STATUS_*
pub data Status : Type 0 where
  good bad_size bad_crc priority eob : Status

-- fkfs_offset_search_t
pub record Search : Type 0 where
  pub offset : ℕ
  pub status : Status

unfoldable pub block_crc : File → Entry → List ℕ → ℕ
block_crc file entry bytes =
    crc16_update (crc16_update file.version (take entry_size_minus_crc (encode_entry entry))) bytes

-- The tests of `fkfs_block_check` on an entry, its file in the header and the bytes behind it.
unfoldable pub check_entry : Entry → File → List ℕ → Status
check_entry entry file bytes =
    if leb files_max entry.file
    then bad_size
    else if entry.size == 0
        || leb block_size entry.size
        || entry.available == 0
        || leb block_size entry.available
    then bad_size
    else if entry.crc == block_crc file entry bytes
    then good
    else bad_crc

-- `search->offset += occupied`, with `occupied` a `uint16_t`
unfoldable pub next_offset : ℕ → Entry → ℕ
next_offset offset entry = (offset + (sizeof_entry + entry.available) % 2 ^ 16) % 2 ^ 16

module _ {D : Type 0} where
  -- `blockPriority > priority` and `entry->available >= required`: the entry may be overwritten.
  unfoldable pub outranked : Fs D → ℕ → ℕ → Entry → Bool
  outranked fs own required entry =
      ltb own (get_or fs.files entry.file blank_settings).priority && leb required entry.available

module _ {D : Type 0} (p : Platform D) where
  -- The bytes at `buffer + offset`, with the platform in state `d`.
  unfoldable pub bytes_at : D → List ℕ → ℕ → ℕ → List ℕ
  bytes_at d buffer offset count = read_from (p.past d) buffer offset count

  -- (fkfs_entry_t * )(buffer + offset)
  unfoldable pub entry_at : D → List ℕ → ℕ → Entry
  unfolding bytes_at
  entry_at d buffer offset = decode_entry (bytes_at d buffer offset sizeof_entry)

  -- Behind the first guard of `check_entry` the file's number is in range, so the default of
  -- `get_or` is not taken.
  unfoldable pub block_check : Fs D → List ℕ → ℕ → Status
  unfolding check_entry
  block_check fs buffer offset =
      let entry = entry_at fs.sd buffer offset in
      check_entry entry (get_or fs.header.files entry.file blank_file)
        (bytes_at fs.sd buffer (offset + sizeof_entry) entry.size)

  -- The loop; `none` when the fuel runs out.
  unfoldable pub available_loop : Fs D → ℕ → ℕ → List ℕ → ℕ → ℕ → Option (Bool × Search)
  available_loop fs own required buffer zero offset = none
  available_loop fs own required buffer (suc fuel) offset =
      let entry = entry_at fs.sd buffer offset in
      let next = next_offset offset entry in
      let rest = available_loop fs own required buffer fuel next in
      elim (block_check fs buffer offset) [
        | bad_size ↦ some (true, record { offset = offset; status = bad_size })
        | bad_crc ↦ some (true, record { offset = offset; status = bad_crc })
        | _ ↦ elim (outranked fs own required entry) [
          | true ↦ some (true, record { offset = offset; status = priority })
          | false ↦ elim (ltb (next + required) block_size) [
            | true ↦ rest
            | false ↦ some (false, record { offset = next; status = eob })
          ]
        ]
      ]

  -- Each round moves on by eight bytes at least, so a block's size is fuel enough.
  unfoldable pub block_available_offset : Fs D → ℕ → ℕ → List ℕ → ℕ → Option (Bool × Search)
  unfolding available_loop
  block_available_offset fs own required buffer offset =
      available_loop fs own required buffer block_size offset
