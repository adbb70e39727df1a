-- ===== src/Exec/Ends.antt =====
-- Total correctness of an action: it does not fault, and a condition holds where it succeeds and
-- another where it fails.
use fkfs.Base.{Bool, true, false, ◌≡◌, refl}
use fkfs.Exec.{Exec, Result, ok, failed, fault, continue, pure, modify, gets, ◌>>=◌, ◌>>◌}

abbrev pub Ends : {S A : Type 0} → (A → S → Type 0) → (S → Type 0) → Result A × S → Type 0
Ends Q E (ok a, s) = Q a s
Ends Q E (failed, s) = E s
Ends Q E (fault e, s) = ⊥

module _ {S A B : Type 0} where
  continue-Ends :
      (Q : A → S → Type 0) (R : B → S → Type 0) (E : S → Type 0) (r : Result A × S)
      (f : A → Exec S B)
      → Ends Q E r
      → ((a : A) (s : S) → Q a s → Ends R E (f a s))
      → Ends R E (continue r.0 r.1 f)
  continue-Ends Q R E (ok a, s) f h k = k a s h
  continue-Ends Q R E (failed, s) f h k = h
  continue-Ends Q R E (fault e, s) f h k = absurd h

  pub Ends-bind :
      (Q : A → S → Type 0) (R : B → S → Type 0) (E : S → Type 0) (m : Exec S A) (f : A → Exec S B)
      (s : S)
      → Ends Q E (m s)
      → ((a : A) (s' : S) → Q a s' → Ends R E (f a s'))
      → Ends R E ((m >>= f) s)
  unfolding ◌>>=◌
  Ends-bind Q R E m f s h k = continue-Ends Q R E (m s) f h k

module _ {S B : Type 0} where
  pub Ends-then :
      (Q : Unit {0} → S → Type 0) (R : B → S → Type 0) (E : S → Type 0) (m : Exec S (Unit {0}))
      (k : Exec S B) (s : S)
      → Ends Q E (m s)
      → ((s' : S) → Q tt s' → Ends R E (k s'))
      → Ends R E ((m >> k) s)
  unfolding ◌>>◌
  Ends-then Q R E m k s h next = Ends-bind Q R E m (λ _. k) s h (λ _ s' q. next s' q)

  -- A test that has passed.
  pub Ends-skip :
      (R : B → S → Type 0) (E : S → Type 0) (k : Exec S B) (s : S)
      → Ends R E (k s)
      → Ends R E ((pure tt >> k) s)
  unfolding ◌>>◌ ◌>>=◌
  Ends-skip R E k s h = h

module _ {S B : Type 0} where
  -- Steps that only change or read the state.
  pub Ends-modify :
      (R : B → S → Type 0) (E : S → Type 0) (f : S → S) (k : Exec S B) (s : S)
      → Ends R E (k (f s))
      → Ends R E ((modify f >> k) s)
  unfolding ◌>>◌ ◌>>=◌
  Ends-modify R E f k s h = h

module _ {S A B : Type 0} where
  pub Ends-gets :
      (R : B → S → Type 0) (E : S → Type 0) (f : S → A) (k : A → Exec S B) (s : S)
      → Ends R E (k (f s) s)
      → Ends R E ((gets f >>= k) s)
  unfolding ◌>>=◌
  Ends-gets R E f k s h = h

module _ {S A : Type 0} where
  Ends-weaken :
      (Q : A → S → Type 0) (E : S → Type 0) (r : Result A × S) → Ends Q (λ _. ⊥) r → Ends Q E r
  Ends-weaken Q E (ok a, s) h = h
  Ends-weaken Q E (failed, s) h = absurd h
  Ends-weaken Q E (fault e, s) h = absurd h

-- Behind an action that does not fail.
module _ {S A B : Type 0} where
  pub Ends-bind_sure :
      (Q : A → S → Type 0) (R : B → S → Type 0) (E : S → Type 0) (m : Exec S A) (f : A → Exec S B)
      (s : S)
      → Ends Q (λ _. ⊥) (m s)
      → ((a : A) (s' : S) → Q a s' → Ends R E (f a s'))
      → Ends R E ((m >>= f) s)
  Ends-bind_sure Q R E m f s h k = Ends-bind Q R E m f s (Ends-weaken Q E (m s) h) k

module _ {S B : Type 0} where
  pub Ends-then_sure :
      (Q : Unit {0} → S → Type 0) (R : B → S → Type 0) (E : S → Type 0) (m : Exec S (Unit {0}))
      (k : Exec S B) (s : S)
      → Ends Q (λ _. ⊥) (m s)
      → ((s' : S) → Q tt s' → Ends R E (k s'))
      → Ends R E ((m >> k) s)
  unfolding ◌>>◌
  Ends-then_sure Q R E m k s h next = Ends-bind_sure Q R E m (λ _. k) s h (λ _ s' q. next s' q)

module _ {S A : Type 0} where
  pub Ends-mono :
      (Q R : A → S → Type 0) (E F : S → Type 0) (r : Result A × S)
      → Ends Q E r
      → ((a : A) (s : S) → Q a s → R a s)
      → ((s : S) → E s → F s)
      → Ends R F r
  Ends-mono Q R E F (ok a, s) h q e = q a s h
  Ends-mono Q R E F (failed, s) h q e = e s h
  Ends-mono Q R E F (fault x, s) h q e = absurd h

  -- A test between two actions.
  pub Ends-cases :
      (Q : A → S → Type 0) (E : S → Type 0) (b : Bool) (m k : Exec S A) (s : S)
      → (b ≡ true → Ends Q E (m s))
      → (b ≡ false → Ends Q E (k s))
      → Ends Q E ((elim b as (λ (x : Bool). Exec S A) [ true ↦ m | false ↦ k ]) s)
  Ends-cases Q E true m k s h other = h refl
  Ends-cases Q E false m k s h other = other refl

  -- A test between two outcomes.
  pub Ends-choose :
      (Q : A → S → Type 0) (E : S → Type 0) (b : Bool) (r r' : Result A × S)
      → (b ≡ true → Ends Q E r)
      → (b ≡ false → Ends Q E r')
      → Ends Q E (elim b as (λ (x : Bool). Result A × S) [ true ↦ r | false ↦ r' ])
  Ends-choose Q E true r r' h other = h refl
  Ends-choose Q E false r r' h other = other refl

  -- What an action keeps, beside what it ends with.
  pub Ends-also :
      (Q : A → S → Type 0) (E J : S → Type 0) (r : Result A × S)
      → Ends Q E r
      → J r.1
      → Ends (λ a s. Q a s × J s) (λ s. E s × J s) r
  Ends-also Q E J (ok a, s) h j = (h, j)
  Ends-also Q E J (failed, s) h j = (h, j)
  Ends-also Q E J (fault x, s) h j = absurd h

  -- Two things that are known of one action.
  pub Ends-both :
      (Q R : A → S → Type 0) (E F : S → Type 0) (r : Result A × S)
      → Ends Q E r
      → Ends R F r
      → Ends (λ a s. Q a s × R a s) (λ s. E s × F s) r
  Ends-both Q R E F (ok a, s) h k = (h, k)
  Ends-both Q R E F (failed, s) h k = (h, k)
  Ends-both Q R E F (fault x, s) h k = absurd h
