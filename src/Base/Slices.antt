-- ===== src/Base/Slices.antt =====
-- A run of a buffer as a list of its own, `take n (drop o xs)`, behind a write to the buffer.
use Prim.Native.Nat.{ℕ, zero, suc, ◌+◌, ◌≤◌}
use mathlib.Core.Path.{◌≡◌, refl, ap}
use mathlib.Core.List.{List, [], ◌∷◌, ◌++◌}
use native.Mathlib.Omega.{arith}
use fkfs.Base.Lists.{length, take, drop}
use fkfs.Base.Memory.{overwrite}

module _ {ℓ} {A : Type ℓ} where
  pub take_run : (n : ℕ) (xs ys : List A) → length xs ≡ n → take n (xs ++ ys) ≡ xs
  take_run zero [] ys h = refl
  take_run zero (x ∷ xs) ys h = absurd (omega arith)
  take_run (suc n) [] ys h = absurd (omega arith)
  take_run (suc n) (x ∷ xs) ys h = ap (λ t. x ∷ t) (take_run n xs ys (omega arith))

  pub drop_run : (n : ℕ) (xs ys : List A) → length xs ≡ n → drop n (xs ++ ys) ≡ ys
  drop_run zero [] ys h = refl
  drop_run zero (x ∷ xs) ys h = absurd (omega arith)
  drop_run (suc n) [] ys h = absurd (omega arith)
  drop_run (suc n) (x ∷ xs) ys h = drop_run n xs ys (omega arith)

  -- The run that was written.
  pub slice-overwrite_self :
      (o n : ℕ) (bs xs : List A)
      → length bs ≡ n
      → o + n ≤ length xs
      → take n (drop o (overwrite o bs xs)) ≡ bs
  unfolding overwrite
  slice-overwrite_self zero zero [] xs e h = refl
  slice-overwrite_self zero zero (b ∷ bs) xs e h = absurd (omega arith)
  slice-overwrite_self zero (suc n) [] xs e h = absurd (omega arith)
  slice-overwrite_self zero (suc n) (b ∷ bs) [] e h = absurd (omega arith)
  slice-overwrite_self zero (suc n) (b ∷ bs) (x ∷ xs) e h =
      ap (λ t. b ∷ t) (slice-overwrite_self zero n bs xs (omega arith) (omega arith))
  slice-overwrite_self (suc o) zero [] xs e h = refl
  slice-overwrite_self (suc o) zero (b ∷ bs) xs e h = absurd (omega arith)
  slice-overwrite_self (suc o) (suc n) bs [] e h = absurd (omega arith)
  slice-overwrite_self (suc o) (suc n) bs (x ∷ xs) e h =
      slice-overwrite_self o (suc n) bs xs e (omega arith)

  -- What stands before it, and behind it.
  pub take-overwrite : (n o : ℕ) (bs xs : List A) → n ≤ o → take n (overwrite o bs xs) ≡ take n xs
  unfolding overwrite
  take-overwrite zero o bs xs h = refl
  take-overwrite (suc n) zero bs xs h = absurd (omega arith)
  take-overwrite (suc n) (suc o) bs [] h = refl
  take-overwrite (suc n) (suc o) bs (x ∷ xs) h =
      ap (λ t. x ∷ t) (take-overwrite n o bs xs (omega arith))

  pub drop-overwrite :
      (n o : ℕ) (bs xs : List A) → o + length bs ≤ n → drop n (overwrite o bs xs) ≡ drop n xs
  unfolding overwrite
  drop-overwrite n zero [] xs h = refl
  drop-overwrite zero zero (b ∷ bs) xs h = absurd (omega arith)
  drop-overwrite (suc n) zero (b ∷ bs) [] h = refl
  drop-overwrite (suc n) zero (b ∷ bs) (x ∷ xs) h = drop-overwrite n zero bs xs (omega arith)
  drop-overwrite zero (suc o) bs xs h = absurd (omega arith)
  drop-overwrite (suc n) (suc o) bs [] h = refl
  drop-overwrite (suc n) (suc o) bs (x ∷ xs) h = drop-overwrite n o bs xs (omega arith)

  -- A run that is written at an index, read together with what stands before it.
  pub take-overwrite_end :
      (o : ℕ) (bs xs : List A)
      → o + length bs ≤ length xs
      → take (o + length bs) (overwrite o bs xs) ≡ take o xs ++ bs
  unfolding overwrite
  take-overwrite_end o bs xs h = from_parts o (length bs) bs xs (o + length bs) refl h refl
    where
      from_parts :
          (o m : ℕ) (bs xs : List A) (n : ℕ)
          → n ≡ o + m
          → o + m ≤ length xs
          → m ≡ length bs
          → take n (overwrite o bs xs) ≡ take o xs ++ bs
      from_parts zero m [] xs zero e h f = refl
      from_parts zero m [] xs (suc n) e h f = absurd (omega arith)
      from_parts zero m (b ∷ bs) xs zero e h f = absurd (omega arith)
      from_parts zero zero (b ∷ bs) xs (suc n) e h f = absurd (omega arith)
      from_parts zero (suc m) (b ∷ bs) [] (suc n) e h f = absurd (omega arith)
      from_parts zero (suc m) (b ∷ bs) (x ∷ xs) (suc n) e h f =
          ap (λ t. b ∷ t) (from_parts zero m bs xs n (omega arith) (omega arith) (omega arith))
      from_parts (suc o) m bs xs zero e h f = absurd (omega arith)
      from_parts (suc o) m bs [] (suc n) e h f = absurd (omega arith)
      from_parts (suc o) m bs (x ∷ xs) (suc n) e h f =
          ap (λ t. x ∷ t) (from_parts o m bs xs n (omega arith) (omega arith) f)

  pub take_more : (m k : ℕ) (xs : List A) → take m xs ++ take k (drop m xs) ≡ take (m + k) xs
  take_more m k xs = sum_of m k xs (m + k) refl
    where
      sum_of :
          (m k : ℕ) (xs : List A) (n : ℕ) → n ≡ m + k → take m xs ++ take k (drop m xs) ≡ take n xs
      sum_of zero k xs n e = ap (λ (t : ℕ). take t xs) {x = k} {y = n} (omega arith)
      sum_of (suc m) k xs zero e = absurd (omega arith)
      sum_of (suc m) zero [] (suc n) e = refl
      sum_of (suc m) (suc k) [] (suc n) e = refl
      sum_of (suc m) k (x ∷ xs) (suc n) e = ap (λ t. x ∷ t) (sum_of m k xs n (omega arith))
