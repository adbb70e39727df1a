-- ===== src/Fs/Truncate.antt =====
-- fkfs.cpp: `fkfs_file_truncate`, `fkfs_file_truncate_all`, `calculate_file_size` and
-- `fkfs_file_truncate_at`.
pub mod Stale
pub mod Emptied
pub mod Entries
pub mod Summing
pub mod Recount
use fkfs.Base.{ℕ, zero, suc, ◌+◌, ◌%◌, ◌^◌, false}
use fkfs.Exec.{Exec, ok, failed, fault, out_of_fuel, modify, ◌>>=◌, ◌>>◌}
use fkfs.Platform.{Platform}
use fkfs.Layout.{File}
use fkfs.Fs.{Fs, file_at, put_file, add32}
use fkfs.Fs.Iterator.{Config, Iter, iterator_create, file_iterate}

-- The version is one more, so the checksums of what was written fail; the file starts anew in the
-- block that the header stands in.
unfoldable pub truncated : ℕ → File → File
truncated block file = record file {
  version = (file.version + 1) % 2 ^ 16;
  start_block = block;
  end_block = block;
  start_offset = 0;
  end_offset = 0;
  size = 0;
}

module _ {D : Type 0} where
  unfoldable pub file_truncate : ℕ → Exec (Fs D) (Unit {0})
  unfolding truncated
  file_truncate number = do
    file ← file_at number
    modify (λ fs. put_file number (truncated fs.header.block file) fs)

  unfoldable pub file_truncate_all : Exec (Fs D) (Unit {0})
  unfolding file_truncate
  file_truncate_all = do file_truncate 0; file_truncate 1; file_truncate 2; file_truncate 3

module _ {D : Type 0} (p : Platform D) where
  abbrev pub add_size : ℕ → ℕ → Exec (Fs D) (Unit {0})
  add_size number count = do
    file ← file_at number
    modify (put_file number (record file { size = add32 file.size count }))

  abbrev pub sum_config : Config
  sum_config = record { max_blocks = 10; max_time = 0; manual_next = false }

  -- `while (fkfs_file_iterate(fs, &config, &iter)) file->size += iter.size;`, with fuel for the loop
  -- and for each call.
  unfoldable pub sum_loop : ℕ → ℕ → ℕ → Iter → Exec (Fs D) (Unit {0})
  sum_loop fuel number zero iter fs = (fault out_of_fuel, fs)
  sum_loop fuel number (suc calls) iter fs =
      let (r, (fs', iter')) = file_iterate p fuel sum_config (fs, iter) in
      elim r [
        | ok _ ↦ (add_size number iter'.size >>= λ _. sum_loop fuel number calls iter') fs'
        | failed ↦ (ok tt, fs')
        | fault e ↦ (fault e, fs')
      ]

  -- The iterator of the function is not initialised: `garbage` is what it holds.
  unfoldable pub calculate_file_size : ℕ → ℕ → Iter → ℕ → Exec (Fs D) (Unit {0})
  unfolding sum_loop
  calculate_file_size fuel calls garbage number = do
    file ← file_at number
    modify (put_file number (record file { size = 0 }))
    iter ← iterator_create number garbage
    sum_loop fuel number calls iter

  unfoldable pub file_truncate_at : ℕ → ℕ → Iter → Iter → Exec (Fs D) (Unit {0})
  unfolding calculate_file_size
  file_truncate_at fuel calls garbage iter = do
    file ← file_at iter.token.file
    modify (put_file iter.token.file (record file { start_block = iter.token.last_block }))
    calculate_file_size fuel calls garbage iter.token.file
