-- ===== src/Fs/Truncate/Entries.antt =====
-- `calculate_file_size`: the entries that are counted, and the size in the file.
use fkfs.Base.{
  ℕ, zero, suc, ◌+◌, ◌≡◌, refl, ap, ◌∙◌, List, [], ◌∷◌, some, get_elem?, set, get_elem?-set_self,
  get_elem?-lt,
}
use fkfs.Exec.{ok, failed, ◌>>=◌}
use fkfs.Exec.Ends.{Ends}
use fkfs.Layout.{File, Header}
use fkfs.Platform.{Platform}
use fkfs.Fs.{Fs, file_at, put_file, add32}
use fkfs.Fs.Iterator.{Iter, file_iterate}
use fkfs.Fs.Iterator.Delivery.{Delivered}
use fkfs.Fs.Truncate.{sum_config, add_size}

pub set-set : {A : Type 0} (xs : List A) (i : ℕ) (a b : A) → set (set xs i a) i b ≡ set xs i b
set-set [] i a b = refl
set-set (x ∷ xs) zero a b = refl
set-set (x ∷ xs) (suc i) a b = ap (λ t. x ∷ t) (set-set xs i a b)

-- The header with a file of another size.
abbrev pub sized : Header → ℕ → File → ℕ → Header
sized header number file size = record header {
  files = set header.files number (record file { size = size });
}

module _ {D : Type 0} (p : Platform D) (header : Header) (number : ℕ) (file : File)
    (found : get_elem? header.files number ≡ some file) where
  pub sized_again :
      (fs : Fs D) (size other : ℕ)
      → fs.header ≡ sized header number file size
      → (put_file number (record file { size = other }) fs).header ≡ sized header number file other
  unfolding put_file
  sized_again fs size other e =
      ap (λ (x : Header). record x { files = set x.files number (record file { size = other }) }) e
      ∙ ap (λ xs. record header { files = xs })
          (set-set header.files number (record file { size = size }) (record file { size = other }))

  pub at_number :
      (fs : Fs D) (size : ℕ)
      → fs.header ≡ sized header number file size
      → get_elem? fs.header.files number ≡ some (record file { size = size })
  at_number fs size e =
      ap (λ (x : Header). get_elem? x.files number) e
      ∙ get_elem?-set_self header.files number (record file { size = size })
          (get_elem?-lt header.files number found)

  -- The file's size with the count on it.
  abbrev pub resized : ℕ → Fs D → Fs D
  resized size fs = put_file number (record file { size = size }) fs

  pub add_size-resized :
      (count size : ℕ) (fs : Fs D)
      → fs.header ≡ sized header number file size
      → Ends (λ _ b. b ≡ resized (add32 size count) fs) (λ _. ⊥) (add_size p number count fs)
  unfolding file_at ◌>>=◌ put_file
  add_size-resized count size fs is = rw (at_number fs size is) refl

-- What the sizes of entries come to.
unfoldable pub total : List ℕ → ℕ
total [] = 0
total (size ∷ sizes) = size + total sizes

module _ {D : Type 0} (p : Platform D) (content : D → ℕ → List ℕ) (fuel number : ℕ)
    (file : File) where
  -- The sizes of the entries that an iterator delivers one after the other, up to the call that ends the
  -- iteration. Between two calls nothing changes but the size in the file.
  pub data Entries : Fs D → Iter → List ℕ → Type 0 where
    over :
        {fs : Fs D} {iter : Iter}
        → (file_iterate p fuel (sum_config p) (fs, iter)).0 ≡ failed
        → Entries fs iter []
    entry :
        {fs fs' : Fs D} {iter iter' : Iter} (size : ℕ) {sizes : List ℕ}
        → file_iterate p fuel (sum_config p) (fs, iter) ≡ (ok tt, (fs', iter'))
        → Delivered p content (sum_config p) (fs, iter) (fs', iter')
        → Entries (put_file number (record file { size = size }) fs') iter' sizes
        → Entries fs iter (iter'.size ∷ sizes)
