-- ===== src/Fs/Truncate/Emptied.antt =====
-- A truncated file under a new iterator.
use fkfs.Base.{
  Bool, ◌&&◌, not, get_elem?-lt, ℕ, ◌≡◌, true, false, refl, arith, some, get_elem?,
  get_elem?-set_self,
}
use fkfs.Exec.{ok, failed, ◌>>=◌}
use fkfs.Layout.{File}
use fkfs.Platform.{Platform}
use fkfs.Fs.{Fs, file_at, put_file}
use fkfs.Fs.Iterator.{
  Config, Iter, token_of, iterator_create, iterator_done, iterator_valid, file_iterate, count_call,
}
use fkfs.Fs.Iterator.Wrapped.{iterate-refused}
use fkfs.Fs.Truncate.{truncated, file_truncate}

done_at_end :
    (number block : ℕ) (file : File) (iter : Iter)
    → iterator_done (record iter { token = token_of number (truncated block file) block 0 }) ≡ true
unfolding iterator_done truncated
done_at_end number block file iter = ground arith

done_not : (valid done : Bool) → done ≡ true → (valid && not done) ≡ false
done_not valid done h = ground (arith, h)

module _ {D : Type 0} (p : Platform D) where
  -- A truncation does not fault, and a new iterator over the truncated file is at its end: every call
  -- to iterate over it fails at once, whatever the limits. The file is in the header.
  pub truncate-iterate :
      (number : ℕ) (file : File) (fs : Fs D) (iter : Iter)
      → get_elem? fs.header.files number ≡ some file
      → (made : Iter) × (after : Fs D) × (file_truncate number fs ≡ (ok tt, after))
        × (iterator_create number iter after ≡ (ok made, after))
        × ((fuel : ℕ) (config : Config)
            → file_iterate p fuel config (after, made) ≡ (failed, (count_call p after, made)))
  unfolding file_truncate iterator_create file_at put_file ◌>>=◌
  truncate-iterate number file fs iter at =
      let made = record iter {
        token = token_of number (truncated fs.header.block file) fs.header.block 0;
      } in
      let after : Fs D = put_file number (truncated fs.header.block file) fs in
      (
        made,
        after,
        rw at refl,
        rw
            (get_elem?-set_self fs.header.files number (truncated fs.header.block file)
              (get_elem?-lt fs.header.files number at))
            refl,
        λ fuel config. iterate-refused p fuel config after made (
            done_not (iterator_valid (count_call p after) made) _
              (done_at_end number fs.header.block file iter)),
      )
