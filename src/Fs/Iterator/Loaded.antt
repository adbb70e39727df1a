-- ===== src/Fs/Iterator/Loaded.antt =====
-- An entry that was stored, in a state that has its block in the buffer and the header that an
-- initialisation has found.
use fkfs.Base.{ℕ, zero, suc, ◌+◌, ◌≡◌, refl, sym, subst, ap, ◌∙◌, List, [], ◌∷◌, length, get_or}
use fkfs.Layout.{Entry, File, Header}
use fkfs.Platform.{Platform, IsDisk}
use fkfs.Fs.{Fs, blank_file}
use fkfs.Fs.Check.{good, block_check, check_entry, block_crc, entry_at, bytes_at}
use fkfs.Fs.Check.Room.{block_check-plain}
use fkfs.Fs.Init.{copy_names}
use fkfs.Fs.Append.Written.{entry_for}
use fkfs.Fs.Invariant.Append.InBlock.{Stored, file_of}
use fkfs.Fs.Invariant.Restart.{Restarted}
use fkfs.Fs.Iterator.{Iter}
use fkfs.Fs.Iterator.ReadBack.{entry-later, checked-later, later}

check_entry-version :
    (e : Entry) (f g : File) (bytes : List ℕ)
    → f.version ≡ g.version
    → check_entry e f bytes ≡ check_entry e g bytes
unfolding check_entry block_crc
check_entry-version e f g bytes same = rw same refl

-- A file as it was, but for its name.
pub record Renamed (f g : File) : Type 0 where
  pub version : g.version ≡ f.version
  pub end_block : g.end_block ≡ f.end_block
  pub end_offset : g.end_offset ≡ f.end_offset

same_file : (f : File) → Renamed f f
same_file f = record { version = refl; end_block = refl; end_offset = refl }

copy_names-Renamed :
    (fs owns : List File) (n : ℕ)
    → Renamed (get_or fs n blank_file) (get_or (copy_names fs owns) n blank_file)
unfolding copy_names
copy_names-Renamed [] owns n = same_file blank_file
copy_names-Renamed (f ∷ fs) [] n = same_file (get_or (f ∷ fs) n blank_file)
copy_names-Renamed (f ∷ fs) (own ∷ owns) zero = record {
  version = refl;
  end_block = refl;
  end_offset = refl;
}
copy_names-Renamed (f ∷ fs) (own ∷ owns) (suc n) = copy_names-Renamed fs owns n

module _ {D : Type 0} (p : Platform D) (content : D → ℕ → List ℕ) (disk : IsDisk p content)
    (number : ℕ) (bytes : List ℕ) (before fs : Fs D) (s : Stored p number bytes before fs)
    (fresh c : Fs D) (r : Restarted p content disk fs fresh c) (iter : Iter) where
  abbrev entry : Entry
  entry = entry_for number (file_of p number before) (length bytes) bytes

  pub renamed : (n : ℕ) → Renamed (file_of p n fs) (file_of p n c)
  renamed n =
      subst (λ fs'. Renamed (file_of p n fs) (get_or fs' n blank_file)) (sym r.files)
        (copy_names-Renamed fs.header.files fresh.header.files n)

  -- The entry in a state that has the block in the buffer and the new header.
  pub loaded-entry :
      (b : Fs D) → b.buffer ≡ fs.buffer → entry_at p b.sd b.buffer s.found.offset ≡ entry
  loaded-entry b same =
      ap (λ x. entry_at p b.sd x s.found.offset) same
      ∙ entry-later p number bytes before fs s iter b.sd

  pub loaded-checked :
      (b : Fs D)
      → b.buffer ≡ fs.buffer
      → b.header ≡ c.header
      → block_check p b b.buffer s.found.offset ≡ good
  loaded-checked b same header =
      let e = entry_at p b.sd fs.buffer s.found.offset in
      block_check-plain p b b.buffer s.found.offset
      ∙ ap
          (λ (x : List ℕ).
            check_entry (entry_at p b.sd x s.found.offset)
              (get_or b.header.files (entry_at p b.sd x s.found.offset).file blank_file)
              (bytes_at p b.sd x (s.found.offset + 7) (entry_at p b.sd x s.found.offset).size))
          same
      ∙ ap
          (λ (x : Header).
            check_entry e (get_or x.files e.file blank_file)
              (bytes_at p b.sd fs.buffer (s.found.offset + 7) e.size))
          header
      ∙ check_entry-version e (file_of p e.file c) (file_of p e.file fs)
          (bytes_at p b.sd fs.buffer (s.found.offset + 7) e.size) (renamed e.file).version
      ∙ sym (
          block_check-plain p (later p number bytes before fs s iter b.sd) fs.buffer s.found.offset)
      ∙ checked-later p number bytes before fs s iter b.sd
