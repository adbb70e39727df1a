-- ===== src/Fs/Append/Guards.antt =====
-- `fkfs_file_append` on sizes that no block has room for.
use fkfs.Base.{
  ℕ, ◌⊎◌, not, ◌||◌, ltb, ◌==◌, get_elem?-some, ◌+◌, ◌%◌, ◌<◌, ◌^◌, ◌≡◌, false, refl, arith, List,
  length,
}
use fkfs.Exec.{failed, ◌>>=◌, ◌>>◌}
use fkfs.Platform.{Platform}
use fkfs.Fs.{Fs, file_at, blank_file}
use fkfs.Fs.Append.{file_append}

module _ {D : Type 0} (p : Platform D) where
  -- An append of no bytes, or of 506 to 65528, to a file of the header fails at once, and changes
  -- nothing.
  pub file_append-refused :
      (number size : ℕ) (bytes : List ℕ) (fs : Fs D)
      → number < length fs.header.files
      → (size ≡ 0) ⊎ ((505 < size) × (size < 65529))
      → file_append p number size bytes fs ≡ (failed, fs)
  unfolding file_append file_at ◌>>=◌ ◌>>◌
  file_append-refused number size bytes fs lt h =
      let guard : not (size == 0 || ltb 512 ((7 + size) % 2 ^ 16)) ≡ false = ground (arith, h) in
      rw (get_elem?-some fs.header.files number blank_file lt, guard) refl
