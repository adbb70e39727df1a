-- ===== src/Fs/Truncate/Recount.antt =====
-- `calculate_file_size` and `fkfs_file_truncate_at`: the size of the file that is cut off.
use fkfs.Base.{
  ◌-◌, ◌%◌, ◌^◌, ℕ, ◌+◌, ◌*◌, ◌<◌, ◌≤◌, ◌≡◌, refl, subst, ap, ◌∙◌, arith, List, length, some,
  get_elem?, get_elem?-set_self, get_elem?-lt,
}
use native.Mathlib.Nat.{zero-add}
use fkfs.Exec.{◌>>=◌, ◌>>◌}
use fkfs.Exec.Ends.{Ends, Ends-mono}
use fkfs.Layout.{File}
use fkfs.Platform.{Platform, IsDisk}
use fkfs.Fs.{Fs, file_at, put_file, sub32}
use fkfs.Fs.Iterator.{Iter, token_of, iterator_create}
use fkfs.Fs.Iterator.Delivery.{NothingBehind}
use fkfs.Fs.Truncate.{sum_loop, calculate_file_size, file_truncate_at}
use fkfs.Fs.Truncate.Entries.{set-set, sized, total, Entries}
use fkfs.Fs.Truncate.Summing.{Recounted, sum_loop-Recounted}

module _ {D : Type 0} (p : Platform D) (content : D → ℕ → List ℕ) (disk : IsDisk p content)
    (behind : NothingBehind p) where
  -- The iterator that starts the count.
  abbrev from_start : Iter → ℕ → File → Iter
  from_start garbage number file = record garbage {
    token = token_of number (record file { size = 0 }) file.start_block file.start_offset;
  }

  -- The size in the file is the sum, modulo 2 ^ 32, of the sizes of the entries that an iteration from
  -- the file's start delivers.
  record Summed (fuel number : ℕ) (garbage : Iter) (file : File) (fs b : Fs D) : Type 0 where
    sizes : List ℕ
    entries :
        Entries p content fuel number file
          (put_file number (record file { size = 0 }) fs)
          (from_start garbage number file)
          sizes
    is : b.header ≡ sized fs.header number file (total sizes % 2 ^ 32)

  calculate_file_size-Summed :
      (fuel calls number : ℕ) (garbage : Iter) (file : File) (fs : Fs D)
      (found : get_elem? fs.header.files number ≡ some file)
      → length fs.buffer ≡ 512
      → file.end_block < sub32 fs.number_of_blocks 2
      → file.end_block < 2 ^ 32 - 1
      → file.start_offset < 2 ^ 16
      → 7600 < fuel
      → (file.end_block + 1) * 65536 ≤ calls
      → Ends
          (λ _ b. Summed fuel number garbage file fs b)
          (λ _. ⊥)
          (calculate_file_size p fuel calls garbage number fs)
  unfolding calculate_file_size file_at put_file iterator_create ◌>>=◌ ◌>>◌
  calculate_file_size-Summed fuel calls number garbage file fs found whole end small low fed
        enough =
      let zeroed : File = record file { size = 0 } in
      let made : Iter = from_start garbage number file in
      let start : Fs D = put_file number zeroed fs in
      let again : get_elem? start.header.files number ≡ some zeroed =
        get_elem?-set_self fs.header.files number zeroed
          (get_elem?-lt fs.header.files number found) in
      rw (found, again)
        (Ends-mono
          (λ _ b. Recounted p content disk behind fs.header number file found fuel 0 start made b)
          (λ _ b. Summed fuel number garbage file fs b) (λ _. ⊥) (λ _. ⊥)
          (sum_loop p fuel number calls made start)
          (sum_loop-Recounted p content disk behind fs.header number file found fuel fed calls 0
            start made
            (record {
              is = refl;
              no_wrap = omega arith;
              whole = whole;
              within = record { end = end; small = small; offset = low };
              some_left = omega (arith, enough);
              enough = omega (arith, enough);
            }))
          (λ _ b r. record {
            sizes = r.sizes;
            entries = r.entries;
            is =
                r.is
                ∙ ap (λ n. sized fs.header number file (n % 2 ^ 32)) (zero-add (total r.sizes));
          })
          (λ _ u. u))

  -- The file with its new start, before its size is counted.
  abbrev pub cut_off : Iter → File → File
  cut_off iter file = record file { start_block = iter.token.last_block }

  -- The file of the token starts in the token's last block. Its size is the sum, modulo 2 ^ 32, of the
  -- sizes of the entries that an iteration from there delivers, and nothing else of the header has
  -- changed.
  pub record CutOff (fuel : ℕ) (garbage iter : Iter) (file : File) (fs b : Fs D) : Type 0 where
    pub sizes : List ℕ
    pub entries :
        Entries p content fuel iter.token.file
          (cut_off iter file)
          (put_file iter.token.file (record (cut_off iter file) { size = 0 }) fs)
          (from_start garbage iter.token.file (cut_off iter file))
          sizes
    pub is : b.header ≡ sized fs.header iter.token.file (cut_off iter file) (total sizes % 2 ^ 32)

  -- Over a card that keeps its blocks, with nothing behind the buffer that is taken for an entry, a
  -- truncation up to an iterator ends and succeeds, whether the card fails or not. The token's file
  -- then starts in the token's last block, its size is the sum, modulo 2 ^ 32, of the sizes of the
  -- entries that an iteration from that start delivers, one after the other, and nothing else of the
  -- header has changed. The buffer is a block, the file ends in front of the card's end, and the
  -- fuel is that of an iteration over ten blocks and, for the calls, 65536 for each block up to the
  -- file's last.
  pub file_truncate_at-CutOff :
      (fuel calls : ℕ) (garbage iter : Iter) (file : File) (fs : Fs D)
      → get_elem? fs.header.files iter.token.file ≡ some file
      → length fs.buffer ≡ 512
      → file.end_block < sub32 fs.number_of_blocks 2
      → file.end_block < 2 ^ 32 - 1
      → file.start_offset < 2 ^ 16
      → 7600 < fuel
      → (file.end_block + 1) * 65536 ≤ calls
      → Ends
          (λ _ b. CutOff fuel garbage iter file fs b)
          (λ _. ⊥)
          (file_truncate_at p fuel calls garbage iter fs)
  unfolding file_truncate_at file_at put_file ◌>>=◌ ◌>>◌
  file_truncate_at-CutOff fuel calls garbage iter file fs found whole end small low fed enough =
      let number = iter.token.file in
      let cut : File = cut_off iter file in
      let start : Fs D = put_file number cut fs in
      let again : get_elem? start.header.files number ≡ some cut =
        get_elem?-set_self fs.header.files number cut (get_elem?-lt fs.header.files number found) in
      rw found (
        Ends-mono (λ _ b. Summed fuel number garbage cut start b)
          (λ _ b. CutOff fuel garbage iter file fs b) (λ _. ⊥) (λ _. ⊥)
          (calculate_file_size p fuel calls garbage number start)
          (calculate_file_size-Summed fuel calls number garbage cut start again whole end small low
            fed enough)
          (λ _ b r. record {
            sizes = r.sizes;
            entries =
                subst
                  (λ (xs : List File).
                    Entries p content fuel number cut
                      (record fs { header = record fs.header { files = xs } })
                      (from_start garbage number cut) r.sizes)
                  (set-set fs.header.files number cut (record cut { size = 0 })) r.entries;
            is =
                r.is
                ∙ ap (λ xs. record fs.header { files = xs })
                    (set-set fs.header.files number cut
                      (record cut { size = total r.sizes % 2 ^ 32 }));
          })
          (λ _ u. u))
