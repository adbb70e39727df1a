-- ===== src/Fs/Headers.antt =====
-- fkfs.cpp: the header's checksum, and `fkfs_header_write`.
pub mod Slots
use fkfs.Base.{ℕ, ◌+◌, ◌*◌, Bool, true, false, List, ◌==◌, leb, take, drop, replicate}
use fkfs.Base.Memory.{overwrite}
use fkfs.Exec.{Exec, ok, failed, in_bounds, ◌>>=◌, ◌>>◌, modify}
use fkfs.Crc.{crc16_update}
use fkfs.Layout.{
  Header, encode_header, decode_header, sizeof_header, header_size_minus_crc, block_size,
}
use fkfs.Platform.{Platform}
use fkfs.Fs.{Fs}
use fkfs.Fs.Blocks.{read_block, write_block}

-- `(uint8_t *)&headers[i]`, for a slot of the block
unfoldable pub header_bytes : List ℕ → ℕ → List ℕ
header_bytes block i = take sizeof_header (drop (sizeof_header * i) block)

unfoldable pub header_crc : List ℕ → ℕ
header_crc bytes = crc16_update 31337 (take header_size_minus_crc bytes)

unfoldable pub header_crc_valid : List ℕ → Bool
unfolding header_crc
header_crc_valid bytes = (decode_header bytes).crc == header_crc bytes

-- The bytes in front of the checksum do not depend on it.
unfoldable pub header_crc_update : Header → Header
unfolding header_crc
header_crc_update h = record h { crc = header_crc (encode_header h) }

module _ {D : Type 0} (p : Platform D) where
  unfoldable pub header_buffer : Bool → Exec (Fs D) (List ℕ)
  header_buffer wipe fs =
      let zeros : List ℕ = replicate block_size 0 in
      elim wipe [
        | true ↦ (ok zeros, fs)
        | false ↦
            let (status, bytes, fs') = read_block p 0 zeros fs in
            (elim status [ true ↦ ok bytes | false ↦ failed ], fs')
      ]

  -- The header goes into its slot of the block, and the block to the card.
  unfoldable pub put_header : List ℕ → Exec (Fs D) (Unit {0})
  put_header bytes = do
    modify (λ fs. record fs { header = header_crc_update fs.header })
    λ fs.
        let at = sizeof_header * fs.header_index in
        (in_bounds (leb (at + sizeof_header) block_size)
            >> write_block p 0 (overwrite at (encode_header fs.header) bytes))
          fs

  unfoldable pub header_write : Bool → Exec (Fs D) (Unit {0})
  unfolding header_buffer put_header
  header_write wipe = do bytes ← header_buffer wipe; put_header bytes
