-- ===== src/Fs/Truncate/Stale.antt =====
-- `fkfs_file_truncate`, and how `fkfs_block_check` judges entries after it.
use fkfs.Base.{
  ℕ, ◌+◌, ◌^◌, ◌<◌, ◌≡◌, ◌≢◌, refl, ap, sym, ◌∙◌, arith, List, length, get_or, get_elem?, set,
  get_or-set_self, get_or-set_ne, get_elem?-some, subst, take, some,
}
use fkfs.Crc.{crc16_update}
use fkfs.Crc.Injective.{crc16_update-injective, crc16_update-lt}
use fkfs.Exec.{ok, ◌>>=◌}
use fkfs.Layout.{File, Entry, encode_entry}
use fkfs.Platform.{Platform}
use fkfs.Fs.{Fs, file_at, put_file, blank_file}
use fkfs.Fs.Check.{good, bad_crc, block_crc, check_entry, block_check, entry_at, bytes_at}
use fkfs.Fs.Check.Room.{block_check-plain}
use fkfs.Fs.Truncate.{truncated, file_truncate}

-- Versions that differ give checksums that differ, for every entry and all data.
pub block_crc-version :
    (f g : File) (entry : Entry) (bytes : List ℕ)
    → f.version < 2 ^ 16
    → g.version < 2 ^ 16
    → block_crc f entry bytes ≡ block_crc g entry bytes
    → f.version ≡ g.version
unfolding block_crc
block_crc-version f g entry bytes hf hg e =
    let head : List ℕ = take 5 (encode_entry entry) in
    crc16_update-injective f.version g.version head hf hg (
      crc16_update-injective (crc16_update f.version head) (crc16_update g.version head) bytes
        (crc16_update-lt f.version head hf) (crc16_update-lt g.version head hg) e)

-- An entry that is good for one version of its file fails for any other.
pub check_entry-version :
    (entry : Entry) (f g : File) (bytes : List ℕ)
    → f.version < 2 ^ 16
    → g.version < 2 ^ 16
    → f.version ≢ g.version
    → check_entry entry f bytes ≡ good
    → check_entry entry g bytes ≡ bad_crc
unfolding check_entry
check_entry-version entry f g bytes hf hg ne was =
    ground (arith, block_crc-version f g entry bytes hf hg)

version-truncated : (block : ℕ) (f : File) → (truncated block f).version < 2 ^ 16
unfolding truncated
version-truncated block f = omega arith

version_moves :
    (block : ℕ) (f : File) → f.version < 2 ^ 16 → f.version ≢ (truncated block f).version
unfolding truncated
version_moves block f h e = omega arith

module _ {D : Type 0} (p : Platform D) (fs : Fs D) (number : ℕ) where
  -- What the call leaves behind.
  pub file_truncate_lem :
      (file : File)
      → get_elem? fs.header.files number ≡ some file
      → file_truncate number fs ≡ (ok tt, put_file number (truncated fs.header.block file) fs)
  unfolding file_truncate file_at ◌>>=◌
  file_truncate_lem file e = rw e

  block_check-put_file :
      (file : File) (buffer : List ℕ) (offset : ℕ)
      → block_check p (put_file number file fs) buffer offset
        ≡ check_entry
            (entry_at p fs.sd buffer offset)
            (get_or
              (set fs.header.files number file)
              (entry_at p fs.sd buffer offset).file
              blank_file)
            (bytes_at p fs.sd buffer (offset + 7) (entry_at p fs.sd buffer offset).size)
  unfolding block_check put_file
  block_check-put_file file buffer offset = refl

  -- An entry of the file that is good has a wrong checksum after the file is truncated, wherever in a
  -- buffer it stands. The file is in the header, and its version fits 16 bits.
  pub block_check-truncate_self :
      (buffer : List ℕ) (offset : ℕ)
      → number < length fs.header.files
      → (get_or fs.header.files number blank_file).version < 2 ^ 16
      → (entry_at p fs.sd buffer offset).file ≡ number
      → block_check p fs buffer offset ≡ good
      → block_check p (file_truncate number fs).1 buffer offset ≡ bad_crc
  block_check-truncate_self buffer offset h v own was =
      let old : File = get_or fs.header.files number blank_file in
      let entry : Entry = entry_at p fs.sd buffer offset in
      let bytes : List ℕ = bytes_at p fs.sd buffer (offset + 7) entry.size in
      let was_old : check_entry entry old bytes ≡ good =
        subst (λ (n : ℕ). check_entry entry (get_or fs.header.files n blank_file) bytes ≡ good) own
          (sym (block_check-plain p fs buffer offset) ∙ was) in
      let new : File = truncated fs.header.block old in
      let found : get_or (set fs.header.files number new) entry.file blank_file ≡ new =
        ap (λ (n : ℕ). get_or (set fs.header.files number new) n blank_file) own
        ∙ get_or-set_self fs.header.files number new blank_file h in
      rw
        (
          file_truncate_lem old (get_elem?-some fs.header.files number blank_file h),
          block_check-put_file new buffer offset,
          found,
        )
        (check_entry-version entry old new bytes v (version-truncated fs.header.block old)
          (version_moves fs.header.block old v) was_old)

  -- An entry of another file is judged after the truncation of a file of the header as before.
  pub block_check-truncate_ne :
      (buffer : List ℕ) (offset : ℕ)
      → number < length fs.header.files
      → (entry_at p fs.sd buffer offset).file ≢ number
      → block_check p (file_truncate number fs).1 buffer offset ≡ block_check p fs buffer offset
  block_check-truncate_ne buffer offset h ne =
      let old : File = get_or fs.header.files number blank_file in
      rw
        (
          file_truncate_lem old (get_elem?-some fs.header.files number blank_file h),
          block_check-put_file (truncated fs.header.block old) buffer offset,
          get_or-set_ne fs.header.files number (entry_at p fs.sd buffer offset).file
              (truncated fs.header.block old) blank_file (λ e. ne (sym e)),
        )
        (unfold block_check in refl)
