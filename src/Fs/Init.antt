-- ===== src/Fs/Init.antt =====
-- fkfs.cpp: `fkfs_create`, `fkfs_initialize_file`, `fkfs_number_of_files`, `fkfs_get_file` and
-- `fkfs_initialize`.
pub mod Count
use fkfs.Base.{
  ℕ, zero, suc, ◌+◌, ◌*◌, ◌%◌, ◌^◌, Bool, true, false, not, ◌&&◌, ◌||◌, List, [], ◌∷◌, ◌==◌, ltb,
  if◌then◌else◌, replicate,
}
use fkfs.Base.Memory.{overwrite}
use fkfs.Exec.{Exec, ok, pure, modify, ◌>>=◌, ◌>>◌}
use fkfs.Layout.{
  File, Header, encode_header, decode_header, sizeof_header, block_size, files_max, file_name_max,
  byte,
}
use fkfs.Platform.{Platform}
use fkfs.Fs.{
  Fs, Statistics, blank_file, blank_settings, file_at, settings_at, put_file, store, first_block,
}
use fkfs.Fs.Blocks.{load_block}
use fkfs.Fs.Headers.{header_bytes, header_crc_valid, header_write}
use fkfs.Base.{set}

-- strncpy(dest, src, n): the characters of `src` up to its end, and zeros from there.
unfoldable pub strncpy : ℕ → List ℕ → List ℕ
strncpy zero src = []
strncpy (suc n) [] = 0 ∷ strncpy n []
strncpy (suc n) (c ∷ cs) = if c == 0 then replicate (suc n) 0 else c ∷ strncpy n cs

abbrev pub zero_statistics : Statistics
zero_statistics = record {
  block_reads = 0;
  block_writes = 0;
  iterate_calls = 0;
  iterate_time = 0;
  write_time = 0;
  read_time = 0;
}

abbrev pub zero_file : File
zero_file = record blank_file { name = replicate file_name_max 0 }

abbrev pub zero_header : Header
zero_header = record {
  version = 0;
  generation = 0;
  block = 0;
  offset = 0;
  time = 0;
  files = replicate files_max zero_file;
  crc = 0;
}

-- fkfs_file_info_t
pub record FileInfo : Type 0 where
  pub size : ℕ
  pub sync : ℕ
  pub priority : ℕ
  pub version : ℕ
  pub name : List ℕ

-- The loop of `fkfs_number_of_files`.
unfoldable pub count_named : ℕ → List File → ℕ
count_named counter [] = 0
count_named counter (f ∷ fs) = if byte f.name 0 == 0 then counter else count_named (counter + 1) fs

module _ {D : Type 0} where
  unfoldable pub number_of_files : Fs D → ℕ
  unfolding count_named
  number_of_files fs = count_named 0 fs.header.files

  unfoldable pub get_file : ℕ → Exec (Fs D) FileInfo
  unfolding strncpy
  get_file number = do
    settings ← settings_at number
    file ← file_at number
    pure (record {
      size = file.size;
      sync = settings.sync;
      priority = settings.priority;
      version = file.version;
      name = strncpy file_name_max file.name;
    })

  unfoldable pub statistics_zero : Fs D → Fs D
  statistics_zero fs = record fs { statistics = zero_statistics }

-- Which of the two headers of a block is used.
unfoldable pub pick_slot : List ℕ → ℕ
pick_slot block =
    if not (header_crc_valid (header_bytes block 1))
    then 0
    else if not (header_crc_valid (header_bytes block 0))
    then 1
    else if ltb (decode_header (header_bytes block 1)).generation
        (decode_header (header_bytes block 0)).generation
    then 0
    else 1

-- The names that `fkfs_initialize_file` has set go into the header that was read.
unfoldable pub copy_names : List File → List File → List File
unfolding strncpy
copy_names (f ∷ fs) (own ∷ owns) =
    record f { name = strncpy file_name_max own.name } ∷ copy_names fs owns
copy_names fs owns = fs

unfoldable pub is_new_card : List ℕ → Bool
is_new_card block =
    not (header_crc_valid (header_bytes block 0)) && not (header_crc_valid (header_bytes block 1))

module _ {D : Type 0} (p : Platform D) where
  -- memzero(fs, sizeof(fkfs_t)), on memory that holds `d` in the place of the card's struct.
  unfoldable pub create : D → Fs D
  create d = record {
    header_index = 0;
    cached_block_dirty = false;
    cached_block_number = 0;
    number_of_blocks = 0;
    header = zero_header;
    sd = p.sd_zero d;
    buffer = replicate block_size 0;
    files = replicate files_max blank_settings;
    statistics = zero_statistics;
  }

  abbrev draw : ℕ → Exec (Fs D) ℕ
  draw n fs = let (r, d) = p.random n fs.sd in (ok r, record fs { sd = d })

  unfoldable pub initialize_file : ℕ → ℕ → ℕ → List ℕ → Exec (Fs D) (Unit {0})
  unfolding strncpy
  initialize_file number priority sync name = do
    own ← settings_at number
    modify (λ fs. record fs {
      files = set fs.files number (record { sync = sync; priority = priority });
    })
    file ← file_at number
    version ← draw 65535
    modify (
        put_file number (record file {
          name = strncpy file_name_max name;
          version = version % 2 ^ 16;
          start_block = first_block;
          start_offset = 0;
          end_offset = 0;
        }))

  -- The loop over the files of a new file system.
  unfoldable pub wipe_files : ℕ → List File → D → List File × D
  wipe_files block [] d = ([], d)
  wipe_files block (f ∷ fs) d =
      let (r, d') = p.random 65535 d in
      let (rest, d'') = wipe_files block fs d' in
      (
        record f {
          version = r % 2 ^ 16;
          size = 0;
          start_block = block;
          start_offset = 0;
          end_block = block;
          end_offset = 0;
        }
            ∷ rest,
        d'',
      )

  -- memcpy(&headers[fs->headerIndex], &fs->header, sizeof(fkfs_header_t)), `headers` in `fs->buffer`
  unfoldable pub copy_header : Exec (Fs D) (Unit {0})
  copy_header fs = store (sizeof_header * fs.header_index) (encode_header fs.header) fs

  unfoldable pub new_filesystem : Exec (Fs D) (Unit {0})
  unfolding wipe_files copy_header
  new_filesystem = do
    modify (λ fs. record fs { header = record fs.header { block = first_block; generation = 0 } })
    modify (λ fs.
        let (files, d) = wipe_files fs.header.block fs.header.files fs.sd in
        record fs { sd = d; header = record fs.header { files = files } })
    copy_header
    header_write p true
    modify (λ fs. record fs { header = record fs.header { generation = 1 }; header_index = 1 })
    copy_header
    header_write p false

  unfoldable pub old_filesystem : Exec (Fs D) (Unit {0})
  unfolding pick_slot copy_names
  old_filesystem fs =
      let slot = pick_slot fs.buffer in
      let found = decode_header (header_bytes fs.buffer slot) in
      let header = record found { files = copy_names found.files fs.header.files } in
      (
        ok tt,
        record fs {
          header_index = slot;
          header = header;
          buffer = overwrite (sizeof_header * slot) (encode_header header) fs.buffer;
        },
      )

  -- `sizeof(SD_RAW_BLOCK_SIZE)` is the size of a `uint16_t`: two bytes are cleared.
  unfoldable pub initialize : Bool → Exec (Fs D) (Unit {0})
  unfolding new_filesystem old_filesystem is_new_card statistics_zero
  initialize wipe = do
    modify (λ fs.
        let (blocks, d) = p.card_size fs.sd in record fs { sd = d; number_of_blocks = blocks })
    modify (λ fs. record fs { buffer = overwrite 0 (0 ∷ 0 ∷ []) fs.buffer })
    modify statistics_zero
    load_block p 0
    λ fs. elim (wipe || is_new_card fs.buffer) [
      | true ↦ new_filesystem fs
      | false ↦ old_filesystem fs
    ]
