-- ===== src/Fs/Iterator/Wrapped.antt =====
-- `fkfs_file_iterate` over a file that ends in front of its start, behind the end of the card.
use fkfs.Base.{◌&&◌, not, ap, ℕ, ◌<◌, ◌≡◌, false, refl, arith, some, get_elem?}
use fkfs.Exec.{ok, failed, ◌>>=◌, ◌>>◌}
use fkfs.Layout.{File}
use fkfs.Platform.{Platform}
use fkfs.Fs.{Fs, file_at}
use fkfs.Fs.Iterator.{
  Config, Iter, token_of, iterator_create, iterator_valid, iterator_done, file_iterate, count_call,
}

wrapped-invalid :
    {D : Type 0} (fs : Fs D) (iter : Iter)
    → iter.token.last_block < iter.token.block
    → iterator_valid fs iter ≡ false
unfolding iterator_valid
wrapped-invalid fs iter h = ground arith

module _ {D : Type 0} (p : Platform D) where
  pub iterate-refused :
      (fuel : ℕ) (config : Config) (fs : Fs D) (iter : Iter)
      → (iterator_valid (count_call p fs) iter && not (iterator_done iter)) ≡ false
      → file_iterate p fuel config (fs, iter) ≡ (failed, (count_call p fs, iter))
  unfolding file_iterate ◌>>=◌ ◌>>◌
  iterate-refused fuel config fs iter h = rw h refl

  -- The iterator that is created for a file of the header that ends in a block in front of the one that
  -- it starts in is refused by every call to iterate, whatever the limits.
  pub create-iterate_wrapped :
      (number : ℕ) (file : File) (fs : Fs D) (iter : Iter)
      → get_elem? fs.header.files number ≡ some file
      → file.end_block < file.start_block
      → (made : Iter) × (iterator_create number iter fs ≡ (ok made, fs))
        × ((fuel : ℕ) (config : Config)
            → file_iterate p fuel config (fs, made) ≡ (failed, (count_call p fs, made)))
  unfolding iterator_create file_at ◌>>=◌
  create-iterate_wrapped number file fs iter at wrapped =
      let made = record iter { token = token_of number file file.start_block file.start_offset } in
      (
        made,
        rw at refl,
        λ fuel config. iterate-refused fuel config fs made (
            ap (λ b. b && not (iterator_done made))
              (wrapped-invalid (count_call p fs) made wrapped)),
      )
