-- ===== src/Layout.antt =====
-- The packed structs of fkfs.h and the bytes that they are on the card and in memory. The fields are
-- little-endian, as on the processors that the code is built for.
mod Bytes
pub mod RoundTrip
pub mod Fits
unfoldable pub use Bytes.{byte, le16, le32, u8, u16, u32}
use fkfs.Base.{ℕ, zero, suc, ◌+◌, ◌*◌, ◌-◌, List, [], ◌∷◌, ◌++◌, take, drop}

-- SD_RAW_BLOCK_SIZE, FKFS_FILES_MAX, FKFS_FILE_NAME_MAX
abbrev pub block_size : ℕ
block_size = 512

abbrev pub files_max : ℕ
files_max = 4

abbrev pub file_name_max : ℕ
file_name_max = 12

pub record File : Type 0 where
  pub name : List ℕ
  pub version : ℕ
  pub start_block : ℕ
  pub start_offset : ℕ
  pub end_block : ℕ
  pub end_offset : ℕ
  pub size : ℕ

pub record Header : Type 0 where
  pub version : ℕ
  pub generation : ℕ
  pub block : ℕ
  pub offset : ℕ
  pub time : ℕ
  pub files : List File
  pub crc : ℕ

pub record Entry : Type 0 where
  pub file : ℕ
  pub size : ℕ
  pub available : ℕ
  pub crc : ℕ

-- sizeof(fkfs_file_t), sizeof(fkfs_header_t), sizeof(fkfs_entry_t)
abbrev pub sizeof_file : ℕ
sizeof_file = 30

abbrev pub sizeof_header : ℕ
sizeof_header = 137

abbrev pub sizeof_entry : ℕ
sizeof_entry = 7

-- FKFS_ENTRY_SIZE_MINUS_CRC, FKFS_HEADER_SIZE_MINUS_CRC, FKFS_MAXIMUM_BLOCK_SIZE
abbrev pub entry_size_minus_crc : ℕ
entry_size_minus_crc = 5

abbrev pub header_size_minus_crc : ℕ
header_size_minus_crc = 135

abbrev pub maximum_block_size : ℕ
maximum_block_size = block_size - sizeof_entry

unfoldable pub encode_entry : Entry → List ℕ
unfolding u8 u16
encode_entry e = u8 e.file ++ u16 e.size ++ u16 e.available ++ u16 e.crc

unfoldable pub decode_entry : List ℕ → Entry
unfolding byte le16
decode_entry bytes = record {
  file = byte bytes 0;
  size = le16 bytes 1;
  available = le16 bytes 3;
  crc = le16 bytes 5;
}

unfoldable pub encode_file : File → List ℕ
unfolding u16 u32
encode_file f =
    f.name
    ++ (u16 f.version
        ++ (u32 f.start_block
            ++ (u16 f.start_offset ++ (u32 f.end_block ++ (u16 f.end_offset ++ u32 f.size)))))

unfoldable pub decode_file : List ℕ → File
unfolding le16 le32
decode_file bytes =
    let rest = drop file_name_max bytes in
    record {
      name = take file_name_max bytes;
      version = le16 rest 0;
      start_block = le32 rest 2;
      start_offset = le16 rest 6;
      end_block = le32 rest 8;
      end_offset = le16 rest 12;
      size = le32 rest 14;
    }

unfoldable pub encode_files : List File → List ℕ
unfolding encode_file
encode_files [] = []
encode_files (f ∷ fs) = encode_file f ++ encode_files fs

unfoldable pub decode_files : ℕ → List ℕ → List File
unfolding decode_file
decode_files zero bytes = []
decode_files (suc n) bytes = decode_file bytes ∷ decode_files n (drop sizeof_file bytes)

unfoldable pub encode_header : Header → List ℕ
unfolding u8 u16 u32
encode_header h =
    u8 h.version
    ++ (u32 h.generation
        ++ (u32 h.block ++ (u16 h.offset ++ (u32 h.time ++ (encode_files h.files ++ u16 h.crc)))))

unfoldable pub decode_header : List ℕ → Header
unfolding byte le16 le32
decode_header bytes =
    let rest = drop 15 bytes in
    record {
      version = byte bytes 0;
      generation = le32 bytes 1;
      block = le32 bytes 5;
      offset = le16 bytes 9;
      time = le32 bytes 11;
      files = decode_files files_max rest;
      crc = le16 (drop (files_max * sizeof_file) rest) 0;
    }
