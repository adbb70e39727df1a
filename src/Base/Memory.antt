-- ===== src/Base/Memory.antt =====
-- Reads and writes of runs of bytes in a buffer, `memcpy` and pointer reads.
use Prim.Native.Nat.{ℕ, zero, suc, ◌+◌, ◌-◌, ◌≤◌, ◌<◌}
use mathlib.Core.Path.{◌≡◌, refl, ap, ap₂, sym, subst, ◌∙◌}
use mathlib.Core.Logic.{◌⊎◌}
use mathlib.Core.List.{List, [], ◌∷◌, ◌++◌}
use native.Mathlib.Omega.{arith}
use native.Mathlib.Nat.{add-zero, zero-add, suc-add}
use fkfs.Base.Lists.{length, get_or}

module _ {ℓ} {A : Type ℓ} where
  -- memcpy(buffer + offset, source, length source); what would fall behind the end is dropped.
  unfoldable pub overwrite : ℕ → List A → List A → List A
  overwrite zero [] xs = xs
  overwrite zero (b ∷ bs) [] = []
  overwrite zero (b ∷ bs) (x ∷ xs) = b ∷ overwrite zero bs xs
  overwrite (suc o) bs [] = []
  overwrite (suc o) bs (x ∷ xs) = x ∷ overwrite o bs xs

  pub length-overwrite : (o : ℕ) (bs xs : List A) → length (overwrite o bs xs) ≡ length xs
  unfolding overwrite
  length-overwrite zero [] xs = refl
  length-overwrite zero (b ∷ bs) [] = refl
  length-overwrite zero (b ∷ bs) (x ∷ xs) = ap suc (length-overwrite zero bs xs)
  length-overwrite (suc o) bs [] = refl
  length-overwrite (suc o) bs (x ∷ xs) = ap suc (length-overwrite o bs xs)

  -- The byte at an index after a write, in the run and outside it.
  pub get_or-overwrite_in :
      (o : ℕ) (bs xs : List A) (i : ℕ) (d : A)
      → o ≤ i
      → i < o + length bs
      → o + length bs ≤ length xs
      → get_or (overwrite o bs xs) i d ≡ get_or bs (i - o) d
  unfolding overwrite
  get_or-overwrite_in zero [] xs i d lo hi fits = absurd (omega arith)
  get_or-overwrite_in zero (b ∷ bs) [] i d lo hi fits = absurd (omega arith)
  get_or-overwrite_in zero (b ∷ bs) (x ∷ xs) zero d lo hi fits = refl
  get_or-overwrite_in zero (b ∷ bs) (x ∷ xs) (suc i) d lo hi fits =
      get_or-overwrite_in zero bs xs i d (omega arith) (omega arith) (omega arith)
      ∙ ap (λ (t : ℕ). get_or (b ∷ bs) t d) {x = suc (i - 0)} {y = suc i - 0} (omega arith)
  get_or-overwrite_in (suc o) bs [] i d lo hi fits = absurd (omega arith)
  get_or-overwrite_in (suc o) bs (x ∷ xs) zero d lo hi fits = absurd (omega arith)
  get_or-overwrite_in (suc o) bs (x ∷ xs) (suc i) d lo hi fits =
      get_or-overwrite_in o bs xs i d (omega arith) (omega arith) (omega arith)
      ∙ ap (λ (t : ℕ). get_or bs t d) {x = i - o} {y = suc i - suc o} (omega arith)

  pub get_or-overwrite_out :
      (o : ℕ) (bs xs : List A) (i : ℕ) (d : A)
      → (i < o) ⊎ (o + length bs ≤ i)
      → get_or (overwrite o bs xs) i d ≡ get_or xs i d
  unfolding overwrite
  get_or-overwrite_out zero [] xs i d h = refl
  get_or-overwrite_out zero (b ∷ bs) [] i d h = refl
  get_or-overwrite_out zero (b ∷ bs) (x ∷ xs) zero d h = absurd (omega arith)
  get_or-overwrite_out zero (b ∷ bs) (x ∷ xs) (suc i) d h =
      get_or-overwrite_out zero bs xs i d (omega arith)
  get_or-overwrite_out (suc o) bs [] i d h = refl
  get_or-overwrite_out (suc o) bs (x ∷ xs) zero d h = refl
  get_or-overwrite_out (suc o) bs (x ∷ xs) (suc i) d h =
      get_or-overwrite_out o bs xs i d (omega arith)

  -- `count` bytes from a pointer into the buffer; `past i` is what memory holds at an index behind
  -- its end.
  unfoldable pub read_from : (ℕ → A) → List A → ℕ → ℕ → List A
  read_from past xs i zero = []
  read_from past xs i (suc n) = get_or xs i (past i) ∷ read_from past xs (i + 1) n

  pub length-read_from : (past : ℕ → A) (xs : List A) (i n : ℕ) → length (read_from past xs i n) ≡ n
  unfolding read_from
  length-read_from past xs i zero = refl
  length-read_from past xs i (suc n) = ap suc (length-read_from past xs (i + 1) n)

  -- Two buffers that agree on a run read alike there.
  pub read_from-cong :
      (past : ℕ → A) (xs ys : List A) (i n : ℕ)
      → ((j : ℕ) → i ≤ j → j < i + n → get_or xs j (past j) ≡ get_or ys j (past j))
      → read_from past xs i n ≡ read_from past ys i n
  unfolding read_from
  read_from-cong past xs ys i zero h = refl
  read_from-cong past xs ys i (suc n) h =
      ap₂ (λ a t. a ∷ t) (h i (omega arith) (omega arith))
        (read_from-cong past xs ys (i + 1) n (λ j lo hi. h j (omega arith) (omega arith)))

  -- A write does not change what is read beside it.
  pub read_from-overwrite_out :
      (past : ℕ → A) (o : ℕ) (bs xs : List A) (i n : ℕ)
      → (i + n ≤ o) ⊎ (o + length bs ≤ i)
      → read_from past (overwrite o bs xs) i n ≡ read_from past xs i n
  read_from-overwrite_out past o bs xs i n h =
      read_from-cong past (overwrite o bs xs) xs i n
        (λ j lo hi. get_or-overwrite_out o bs xs j (past j) (omega arith))

  read_from-shift :
      (past : ℕ → A) (bs xs : List A) (i : ℕ)
      → ((j : ℕ) → j < length bs → get_or xs (i + j) (past (i + j)) ≡ get_or bs j (past (i + j)))
      → read_from past xs i (length bs) ≡ bs
  unfolding read_from
  read_from-shift past [] xs i h = refl
  read_from-shift past (b ∷ bs) xs i h =
      ap₂ (λ a t. a ∷ t) (rw add-zero at (h 0 (omega arith)))
        (read_from-shift past bs xs (i + 1) (λ j lt.
          subst (λ (t : ℕ). get_or xs t (past t) ≡ get_or bs j (past t)) (omega arith)
            (h (suc j) (omega arith))))

  -- A list is read from its start as it stands.
  pub read_from-all :
      (past : ℕ → A) (xs : List A) (n : ℕ) → length xs ≡ n → read_from past xs 0 n ≡ xs
  read_from-all past xs n e =
      subst (λ (m : ℕ). read_from past xs 0 m ≡ xs) e
        (read_from-shift past xs xs 0 (λ j lt. rw zero-add refl))

  -- What was written is read back.
  pub read_from-overwrite_self :
      (past : ℕ → A) (o : ℕ) (bs xs : List A)
      → o + length bs ≤ length xs
      → read_from past (overwrite o bs xs) o (length bs) ≡ bs
  read_from-overwrite_self past o bs xs h = read_from-shift past bs (overwrite o bs xs) o (λ j lt.
      get_or-overwrite_in o bs xs (o + j) (past (o + j)) (omega arith) (omega arith) h
      ∙ ap (λ (t : ℕ). get_or bs t (past (o + j))) (omega arith))

  -- A longer run is a run and the next one.
  pub read_from-append :
      (past : ℕ → A) (xs : List A) (i m n : ℕ)
      → read_from past xs i (m + n) ≡ read_from past xs i m ++ read_from past xs (i + m) n
  unfolding read_from
  read_from-append past xs i zero n = rw (zero-add, add-zero) refl
  read_from-append past xs i (suc m) n = rw suc-add (
      ap (λ t. get_or xs i (past i) ∷ t)
        (read_from-append past xs (i + 1) m n
          ∙ ap (λ (t : ℕ). read_from past xs (i + 1) m ++ read_from past xs t n) {x = i + 1 + m}
              {y = i + suc m} (omega arith)))

  -- Inside of the buffer a read does not depend on the memory behind it.
  pub get_or-inside :
      (xs : List A) (i : ℕ) (c d : A) → i < length xs → get_or xs i c ≡ get_or xs i d
  get_or-inside [] i c d h = absurd (omega arith)
  get_or-inside (x ∷ xs) zero c d h = refl
  get_or-inside (x ∷ xs) (suc i) c d h = get_or-inside xs i c d (omega arith)

  pub read_from-inside :
      (past past' : ℕ → A) (xs : List A) (i n : ℕ)
      → i + n ≤ length xs
      → read_from past xs i n ≡ read_from past' xs i n
  unfolding read_from
  read_from-inside past past' xs i zero h = refl
  read_from-inside past past' xs i (suc n) h =
      ap₂ (λ a t. a ∷ t) (get_or-inside xs i (past i) (past' i) (omega arith))
        (read_from-inside past past' xs (i + 1) n (omega arith))

  -- Behind the buffer a read delivers what memory holds there.
  get_or-outside : (xs : List A) (i : ℕ) (d : A) → length xs ≤ i → get_or xs i d ≡ d
  get_or-outside [] i d h = refl
  get_or-outside (x ∷ xs) zero d h = absurd (omega arith)
  get_or-outside (x ∷ xs) (suc i) d h = get_or-outside xs i d (omega arith)

  pub read_from-outside :
      (a : A) (xs : List A) (i n : ℕ)
      → length xs ≤ i
      → read_from (λ _. a) xs i n ≡ read_from (λ _. a) [] 0 n
  unfolding read_from
  read_from-outside a xs i zero h = refl
  read_from-outside a xs i (suc n) h =
      ap₂ (λ c t. c ∷ t) (get_or-outside xs i a h)
        (read_from-outside a xs (i + 1) n (omega arith)
          ∙ sym (read_from-outside a [] 1 n (omega arith)))
