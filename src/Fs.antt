-- ===== src/Fs.antt =====
-- The state of fkfs.cpp, `fkfs_t`, and access to its arrays.
use fkfs.Base.{
  ℕ, ◌+◌, ◌-◌, ◌%◌, ◌^◌, Bool, Option, none, some, List, length, get_elem?, set, [], leb,
}
pub mod Blocks
pub mod Headers
pub mod Check
pub mod Sync
pub mod Init
pub mod Append
pub mod Truncate
pub mod Iterator
pub mod Invariant
use fkfs.Base.Memory.{overwrite}
use fkfs.Exec.{Exec, pure, raise, out_of_bounds, modify, in_bounds, ◌>>=◌, ◌>>◌}
use fkfs.Layout.{File, Header, block_size}

-- fkfs_file_runtime_settings_t
pub record Settings : Type 0 where
  pub sync : ℕ
  pub priority : ℕ

-- fkfs_statistics_t
pub record Statistics : Type 0 where
  pub block_reads : ℕ
  pub block_writes : ℕ
  pub iterate_calls : ℕ
  pub iterate_time : ℕ
  pub write_time : ℕ
  pub read_time : ℕ

-- fkfs_t; `sd` holds all that the platform changes.
pub record Fs (D : Type 0) : Type 0 where
  pub header_index : ℕ
  pub cached_block_dirty : Bool
  pub cached_block_number : ℕ
  pub number_of_blocks : ℕ
  pub header : Header
  pub sd : D
  pub buffer : List ℕ
  pub files : List Settings
  pub statistics : Statistics

-- FKFS_FIRST_BLOCK, FKFS_SEEK_BLOCKS_MAX, FKFS_TESTING_LAST_BLOCK (UINT32_MAX)
abbrev pub first_block : ℕ
first_block = 8000

abbrev pub seek_blocks_max : ℕ
seek_blocks_max = 5

abbrev pub uint32_max : ℕ
uint32_max = 4294967295

-- a - b and a + b on uint32_t
abbrev pub add32 : ℕ → ℕ → ℕ
add32 a b = (a + b) % 2 ^ 32

abbrev pub sub32 : ℕ → ℕ → ℕ
sub32 a b = (a + 2 ^ 32 - b) % 2 ^ 32

abbrev pub blank_file : File
blank_file = record {
  name = [];
  version = 0;
  start_block = 0;
  start_offset = 0;
  end_block = 0;
  end_offset = 0;
  size = 0;
}

abbrev pub blank_settings : Settings
blank_settings = record { sync = 0; priority = 0 }

abbrev pub from_option : {S A : Type 0} → Option A → Exec S A
from_option none = raise out_of_bounds
from_option (some a) = pure a

module _ {D : Type 0} where
  -- &fs->header.files[number], fs->files[number]
  unfoldable pub file_at : ℕ → Exec (Fs D) File
  file_at number fs = from_option (get_elem? fs.header.files number) fs

  unfoldable pub settings_at : ℕ → Exec (Fs D) Settings
  settings_at number fs = from_option (get_elem? fs.files number) fs

  -- An assignment to a file of the header; `number` is one that `file_at` has let through.
  unfoldable pub put_file : ℕ → File → Fs D → Fs D
  put_file number file fs = record fs {
    header = record fs.header { files = set fs.header.files number file };
  }

  -- memcpy(fs->buffer + offset, bytes, length bytes)
  unfoldable pub store : ℕ → List ℕ → Exec (Fs D) (Unit {0})
  unfolding ◌>>=◌ ◌>>◌
  store offset bytes =
      in_bounds (leb (offset + length bytes) block_size)
      >> modify (λ fs. record fs { buffer = overwrite offset bytes fs.buffer })
