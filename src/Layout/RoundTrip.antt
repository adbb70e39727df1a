-- ===== src/Layout/RoundTrip.antt =====
-- Encoding and decoding of the packed structs of fkfs.h.
use fkfs.Base.{
  ℕ, zero, suc, ◌+◌, ◌*◌, ◌/◌, ◌%◌, ◌^◌, ◌<◌, ◌≡◌, refl, arith, List, [], ◌∷◌, ◌++◌, length, take,
  length-append, subst, set, get_or,
}
use mathlib.Core.List.{append_assoc}
use fkfs.Base.Slices.{take_run, drop_run}
use fkfs.Layout.{
  File, Header, Entry, encode_entry, decode_entry, encode_file, decode_file, encode_files,
  decode_files, encode_header, decode_header, u16,
}

-- The fields of a struct fit their types.
pub record EntryFits (e : Entry) : Type 0 where
  pub file : e.file < 2 ^ 8
  pub size : e.size < 2 ^ 16
  pub available : e.available < 2 ^ 16
  pub crc : e.crc < 2 ^ 16

pub record FileFits (f : File) : Type 0 where
  pub name : length f.name ≡ 12
  pub version : f.version < 2 ^ 16
  pub start_block : f.start_block < 2 ^ 32
  pub start_offset : f.start_offset < 2 ^ 16
  pub end_block : f.end_block < 2 ^ 32
  pub end_offset : f.end_offset < 2 ^ 16
  pub size : f.size < 2 ^ 32

abbrev pub FilesFit : List File → Type 0
FilesFit [] = Unit
FilesFit (f ∷ fs) = FileFits f × FilesFit fs

pub record HeaderFits (h : Header) : Type 0 where
  pub version : h.version < 2 ^ 8
  pub generation : h.generation < 2 ^ 32
  pub block : h.block < 2 ^ 32
  pub offset : h.offset < 2 ^ 16
  pub time : h.time < 2 ^ 32
  pub count : length h.files ≡ 4
  pub files : FilesFit h.files
  pub crc : h.crc < 2 ^ 16

join8 : (n : ℕ) → n < 2 ^ 8 → n % 256 ≡ n
join8 n h = omega arith

join16 : (n : ℕ) → n < 2 ^ 16 → n % 256 + 256 * (n / 256 % 256) ≡ n
join16 n h = omega arith

join32 :
    (n : ℕ)
    → n < 2 ^ 32
    → n % 256 + 256 * (n / 256 % 256) + 65536 * (n / 65536 % 256) + 16777216 * (n / 16777216 % 256)
      ≡ n
join32 n h = omega arith

-- Reading back an entry header gives the entry.
pub decode_entry-encode_entry : (e : Entry) → EntryFits e → decode_entry (encode_entry e) ≡ e
unfolding decode_entry encode_entry
decode_entry-encode_entry e h =
    rw (
      join8 e.file h.file,
      join16 e.size h.size,
      join16 e.available h.available,
      join16 e.crc h.crc,
    )

pub length-encode_entry : (e : Entry) → length (encode_entry e) ≡ 7
unfolding encode_entry
length-encode_entry e = refl

pub length-encode_file : (f : File) → FileFits f → length (encode_file f) ≡ 30
unfolding encode_file
length-encode_file f h = omega (arith, length-append {0} f.name _)

decode_file-encode_file :
    (f : File) (rest : List ℕ) → FileFits f → decode_file (encode_file f ++ rest) ≡ f
unfolding encode_file decode_file
decode_file-encode_file f rest h = rw (
  append_assoc,
  take_run 12 f.name _ h.name,
  drop_run 12 f.name _ h.name,
  join16 f.version h.version,
  join32 f.start_block h.start_block,
  join16 f.start_offset h.start_offset,
  join32 f.end_block h.end_block,
  join16 f.end_offset h.end_offset,
  join32 f.size h.size,
)

pub length-encode_files : (fs : List File) → FilesFit fs → length (encode_files fs) ≡ length fs * 30
unfolding encode_files
length-encode_files [] h = refl
length-encode_files (f ∷ fs) (hf, hs) = omega (
  arith,
  length-append {0} (encode_file f) (encode_files fs),
  length-encode_file f hf,
  length-encode_files fs hs,
)

decode_files-encode_files :
    (fs : List File) (rest : List ℕ)
    → FilesFit fs
    → decode_files (length fs) (encode_files fs ++ rest) ≡ fs
unfolding encode_files decode_files
decode_files-encode_files [] rest h = refl
decode_files-encode_files (f ∷ fs) rest (hf, hs) = rw (
  append_assoc,
  decode_file-encode_file f (encode_files fs ++ rest) hf,
  drop_run 30 (encode_file f) (encode_files fs ++ rest) (length-encode_file f hf),
  decode_files-encode_files fs rest hs,
)

pub length-encode_header : (h : Header) → HeaderFits h → length (encode_header h) ≡ 137
unfolding encode_header
length-encode_header h fits = omega (
  arith,
  length-append {0} (encode_files h.files) _,
  length-encode_files h.files fits.files,
  fits.count,
)

-- A header whose fields fit their types is read back from its bytes, whatever bytes follow.
pub decode_header-encode_header :
    (h : Header) (rest : List ℕ) → HeaderFits h → decode_header (encode_header h ++ rest) ≡ h
unfolding encode_header decode_header
decode_header-encode_header h rest fits = rw (
  append_assoc,
  files_eq,
  drop_run 120 (encode_files h.files) _ long,
  join8 h.version fits.version,
  join32 h.generation fits.generation,
  join32 h.block fits.block,
  join16 h.offset fits.offset,
  join32 h.time fits.time,
  join16 h.crc fits.crc,
)
  where
    long : length (encode_files h.files) ≡ 120
    long = omega (arith, length-encode_files h.files fits.files, fits.count)

    files_eq : decode_files 4 (encode_files h.files ++ (u16 h.crc ++ rest)) ≡ h.files
    files_eq =
        subst (λ (n : ℕ). decode_files n (encode_files h.files ++ (u16 h.crc ++ rest)) ≡ h.files)
          fits.count (decode_files-encode_files h.files _ fits.files)

-- The files of a header after one of them is replaced by one that fits.
pub FilesFit-set :
    (fs : List File) (i : ℕ) (f : File) → FilesFit fs → FileFits f → FilesFit (set fs i f)
FilesFit-set [] i f h k = h
FilesFit-set (x ∷ xs) zero f h k = (k, h.1)
FilesFit-set (x ∷ xs) (suc i) f h k = (h.0, FilesFit-set xs i f h.1 k)

pub FilesFit-at :
    (fs : List File) (i : ℕ) (d : File) → FilesFit fs → i < length fs → FileFits (get_or fs i d)
FilesFit-at [] i d h lt = absurd (omega arith)
FilesFit-at (x ∷ xs) zero d h lt = h.0
FilesFit-at (x ∷ xs) (suc i) d h lt = FilesFit-at xs i d h.1 (omega arith)

-- The bytes in front of the checksum do not depend on it.
pub take-encode_header_crc :
    (h : Header) (c : ℕ)
    → HeaderFits h
    → take 135 (encode_header (record h { crc = c })) ≡ take 135 (encode_header h)
unfolding encode_header
take-encode_header_crc h c fits = rw (files_alone c, files_alone h.crc) refl
  where
    files_alone : (c : ℕ) → take 120 (encode_files h.files ++ u16 c) ≡ encode_files h.files
    files_alone c =
        take_run 120 (encode_files h.files) (u16 c)
          (omega (arith, length-encode_files h.files fits.files, fits.count))
