-- ===== src/Layout/Fits.antt =====
-- Headers that are decoded from bytes: their fields fit their types.
use fkfs.Base.{ℕ, zero, suc, ◌+◌, ◌<◌, ◌^◌, ◌≡◌, refl, ap, arith, List, [], ◌∷◌, length, take, drop}
use fkfs.Layout.{File, Header, byte, le16, le32, decode_file, decode_files, decode_header}

abbrev pub IsBytes : List ℕ → Type 0
IsBytes bytes = (i : ℕ) → byte bytes i < 256

pub drop-IsBytes : (n : ℕ) (bytes : List ℕ) → IsBytes bytes → IsBytes (drop n bytes)
unfolding byte
drop-IsBytes zero bytes h = h
drop-IsBytes (suc n) [] h = h
drop-IsBytes (suc n) (x ∷ xs) h = drop-IsBytes n xs (λ i. h (suc i))

pub take-IsBytes : (n : ℕ) (bytes : List ℕ) → IsBytes bytes → IsBytes (take n bytes)
unfolding byte
take-IsBytes zero bytes h i = omega arith
take-IsBytes (suc n) [] h i = h i
take-IsBytes (suc n) (x ∷ xs) h zero = h zero
take-IsBytes (suc n) (x ∷ xs) h (suc i) = take-IsBytes n xs (λ j. h (suc j)) i

le16-lt : (bytes : List ℕ) (i : ℕ) → IsBytes bytes → le16 bytes i < 2 ^ 16
unfolding le16
le16-lt bytes i h = omega (arith, h i, h (i + 1))

le32-lt : (bytes : List ℕ) (i : ℕ) → IsBytes bytes → le32 bytes i < 2 ^ 32
unfolding le32
le32-lt bytes i h = omega (arith, h i, h (i + 1), h (i + 2), h (i + 3))

-- The numbers of a file of the header fit their types.
pub record NumbersFit (f : File) : Type 0 where
  pub version : f.version < 2 ^ 16
  pub start_block : f.start_block < 2 ^ 32
  pub start_offset : f.start_offset < 2 ^ 16
  pub end_block : f.end_block < 2 ^ 32
  pub end_offset : f.end_offset < 2 ^ 16
  pub size : f.size < 2 ^ 32

abbrev pub AllNumbersFit : List File → Type 0
AllNumbersFit [] = Unit {0}
AllNumbersFit (f ∷ fs) = NumbersFit f × AllNumbersFit fs

decode_file-NumbersFit : (bytes : List ℕ) → IsBytes bytes → NumbersFit (decode_file bytes)
unfolding decode_file
decode_file-NumbersFit bytes h =
    let k = drop-IsBytes 12 bytes h in
    record {
      version = le16-lt (drop 12 bytes) 0 k;
      start_block = le32-lt (drop 12 bytes) 2 k;
      start_offset = le16-lt (drop 12 bytes) 6 k;
      end_block = le32-lt (drop 12 bytes) 8 k;
      end_offset = le16-lt (drop 12 bytes) 12 k;
      size = le32-lt (drop 12 bytes) 14 k;
    }

decode_files-AllNumbersFit :
    (n : ℕ) (bytes : List ℕ) → IsBytes bytes → AllNumbersFit (decode_files n bytes)
unfolding decode_files
decode_files-AllNumbersFit zero bytes h = tt
decode_files-AllNumbersFit (suc n) bytes h = (
  decode_file-NumbersFit bytes h,
  decode_files-AllNumbersFit n (drop 30 bytes) (drop-IsBytes 30 bytes h),
)

length-decode_files : (n : ℕ) (bytes : List ℕ) → length (decode_files n bytes) ≡ n
unfolding decode_files
length-decode_files zero bytes = refl
length-decode_files (suc n) bytes = ap suc (length-decode_files n (drop 30 bytes))

-- All of the header but the names of its files.
pub record Decoded (h : Header) : Type 0 where
  pub version : h.version < 2 ^ 8
  pub generation : h.generation < 2 ^ 32
  pub block : h.block < 2 ^ 32
  pub offset : h.offset < 2 ^ 16
  pub time : h.time < 2 ^ 32
  pub count : length h.files ≡ 4
  pub files : AllNumbersFit h.files
  pub crc : h.crc < 2 ^ 16

pub decode_header-Decoded : (bytes : List ℕ) → IsBytes bytes → Decoded (decode_header bytes)
unfolding decode_header
decode_header-Decoded bytes h =
    let k = drop-IsBytes 15 bytes h in
    record {
      version = omega (arith, h 0);
      generation = le32-lt bytes 1 h;
      block = le32-lt bytes 5 h;
      offset = le16-lt bytes 9 h;
      time = le32-lt bytes 11 h;
      count = length-decode_files 4 (drop 15 bytes);
      files = decode_files-AllNumbersFit 4 (drop 15 bytes) k;
      crc = le16-lt (drop 120 (drop 15 bytes)) 0 (drop-IsBytes 120 (drop 15 bytes) k);
    }
