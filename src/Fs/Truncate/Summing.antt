-- ===== src/Fs/Truncate/Summing.antt =====
-- `calculate_file_size`: the loop over the entries of a file.
use fkfs.Base.{
  ◌%◌, ◌^◌, ℕ, zero, suc, ◌+◌, ◌*◌, ◌<◌, ◌≤◌, ◌≡◌, ◌⊎◌, refl, sym, subst, ap, ◌∙◌, arith, List, [],
  ◌∷◌, length, some, get_elem?, not, ◌&&◌, false,
}
use fkfs.Exec.{Result, ok, failed, fault, ◌>>=◌}
use fkfs.Exec.Ends.{Ends, Ends-bind_sure, Ends-mono}
use fkfs.Layout.{File, Header}
use fkfs.Platform.{Platform, IsDisk}
use fkfs.Fs.{Fs, put_file, add32, sub32}
use fkfs.Fs.Iterator.{Iter, State, iterator_valid, iterator_done, file_iterate}
use fkfs.Fs.Iterator.Delivery.{NothingBehind, Delivered, Stopped, Within, by_limit}
use fkfs.Fs.Iterator.Scan.{file_iterate-Ends}
use fkfs.Fs.Truncate.{sum_config, add_size, sum_loop}
use fkfs.Fs.Truncate.Entries.{sized, sized_again, total, Entries, add_size-resized}

module _ {D : Type 0} (p : Platform D) (content : D → ℕ → List ℕ) (disk : IsDisk p content)
    (behind : NothingBehind p) (header : Header) (number : ℕ) (file : File)
    (found : get_elem? header.files number ≡ some file) where
  -- The calls are enough for the places in front of the token's end.
  pub record Counting (calls size : ℕ) (fs : Fs D) (iter : Iter) : Type 0 where
    pub is : fs.header ≡ sized header number file size
    pub no_wrap : size < 2 ^ 32
    pub whole : length fs.buffer ≡ 512
    pub within : Within p content (sum_config p) (fs, iter)
    pub some_left : 0 < calls
    pub enough :
        (iter.token.last_block + 1) * 65536 ≤ iter.token.block * 65536 + iter.token.offset + calls

  -- The sizes of the entries that were left are added to the size.
  pub record Recounted (fuel size : ℕ) (fs : Fs D) (iter : Iter) (b : Fs D) : Type 0 where
    pub sizes : List ℕ
    pub entries : Entries p content fuel number file fs iter sizes
    pub is : b.header ≡ sized header number file ((size + total sizes) % 2 ^ 32)

  Delivered-Counting :
      (calls size : ℕ) (fs fs' : Fs D) (iter iter' : Iter)
      → Counting (suc calls) size fs iter
      → fs'.header ≡ fs.header
      → Delivered p content (sum_config p) (fs, iter) (fs', iter')
      → Counting calls
          (add32 size iter'.size)
          (put_file number (record file { size = add32 size iter'.size }) fs')
          iter'
  unfolding put_file
  Delivered-Counting calls size fs fs' iter iter' c same d =
      let (a, further) = d.ahead c.within refl in
      record {
        is = sized_again p header number file found fs' size (add32 size iter'.size) (same ∙ c.is);
        no_wrap = omega arith;
        whole = d.whole;
        within = record {
          end =
              subst (λ n. iter'.token.last_block < sub32 n 2) (sym d.same_size)
                (omega (arith, d.last, c.within.end));
          small = omega (arith, d.last, c.within.small);
          offset = omega (arith, a.low);
        };
        some_left = omega (arith, c.enough, further, a.inside, a.low, d.last);
        enough = omega (arith, c.enough, further, d.last);
      }

  Recounted-entry :
      (fuel size : ℕ) (fs fs' b : Fs D) (iter iter' : Iter)
      → file_iterate p fuel (sum_config p) (fs, iter) ≡ (ok tt, (fs', iter'))
      → Delivered p content (sum_config p) (fs, iter) (fs', iter')
      → Recounted fuel
          (add32 size iter'.size)
          (put_file number (record file { size = add32 size iter'.size }) fs')
          iter'
          b
      → Recounted fuel size fs iter b
  unfolding total
  Recounted-entry fuel size fs fs' b iter iter' e d r = record {
    sizes = iter'.size ∷ r.sizes;
    entries = Entries.entry (add32 size iter'.size) e d r.entries;
    is = r.is ∙ ap (λ n. sized header number file n) (wrapped size iter'.size (total r.sizes));
  }
    where
      wrapped : (a n m : ℕ) → (add32 a n + m) % 2 ^ 32 ≡ (a + (n + m)) % 2 ^ 32
      wrapped a n m = omega arith

  pub sum_loop-Recounted :
      (fuel : ℕ)
      → 7600 < fuel
      → (calls size : ℕ) (fs : Fs D) (iter : Iter) → Counting calls size fs iter
      → Ends (λ _ b. Recounted fuel size fs iter b) (λ _. ⊥) (sum_loop p fuel number calls iter fs)
  unfolding sum_loop total
  sum_loop-Recounted fuel fed zero size fs iter c = absurd (omega (arith, c.some_left))
  sum_loop-Recounted fuel fed (suc calls) size fs iter c =
      by_call (λ n fs' iter' k. sum_loop-Recounted fuel fed calls n fs' iter' k)
        (file_iterate p fuel (sum_config p) (fs, iter)) refl
        (file_iterate-Ends p content disk (sum_config p) behind fuel 10 (fs, iter) c.whole
          (by_limit (omega arith) (omega arith) (omega arith) refl) (omega (arith, fed)))
    where
      by_call :
          ((n : ℕ) (fs' : Fs D) (iter' : Iter)
            → Counting calls n fs' iter'
            → Ends
                (λ _ b. Recounted fuel n fs' iter' b)
                (λ _. ⊥)
                (sum_loop p fuel number calls iter' fs'))
          → (r : Result (Unit {0}) × State p) → file_iterate p fuel (sum_config p) (fs, iter) ≡ r
          → Ends
              (λ _ s'. Delivered p content (sum_config p) (fs, iter) s')
              (λ s'.
                ((iterator_valid fs iter && not (iterator_done iter) ≡ false)
                  ⊎ Stopped p content (sum_config p) (fs, iter) s')
                × (s'.0.header ≡ fs.header))
              r
          → Ends
              (λ _ b. Recounted fuel size fs iter b)
              (λ _. ⊥)
              (elim r.0 as (λ (x : Result (Unit {0})). Result (Unit {0}) × Fs D) [
                | ok _ ↦
                    (add_size p number r.1.1.size >>= λ _. sum_loop p fuel number calls r.1.1) r.1.0
                | failed ↦ (ok tt, r.1.0)
                | fault e ↦ (fault e, r.1.0)
              ])
      by_call rest (ok tt, (fs', iter')) e d =
          let n : ℕ = add32 size iter'.size in
          let next : Fs D = put_file number (record file { size = n }) fs' in
          Ends-bind_sure (λ _ b. b ≡ next) (λ _ b. Recounted fuel size fs iter b) (λ _. ⊥)
            (add_size p number iter'.size) (λ _. sum_loop p fuel number calls iter') fs'
            (add_size-resized p header number file found iter'.size size fs' (d.kept ∙ c.is))
            λ _ b is.
              subst
                (λ (x : Fs D).
                  Ends (λ _ b. Recounted fuel size fs iter b) (λ _. ⊥)
                    (sum_loop p fuel number calls iter' x))
                (sym is)
                (Ends-mono (λ _ b. Recounted fuel n next iter' b)
                  (λ _ b. Recounted fuel size fs iter b) (λ _. ⊥) (λ _. ⊥)
                  (sum_loop p fuel number calls iter' next)
                  (rest n next iter' (Delivered-Counting calls size fs fs' iter iter' c d.kept d))
                  (λ _ b r. Recounted-entry fuel size fs fs' b iter iter' e d r) (λ _ u. u))
      by_call rest (failed, (fs', iter')) e d = record {
        sizes = [];
        entries = Entries.over (ap (λ r. r.0) e);
        is = d.1 ∙ c.is ∙ ap (λ n. sized header number file n) (omega (arith, c.no_wrap));
      }
      by_call rest (fault x, s') e d = absurd d
