-- ===== src/Exec/Keeps.antt =====
-- What an action keeps on every path, however it ends.
use fkfs.Base.{Bool, true, false}
use fkfs.Exec.{Exec, Result, ok, failed, fault, continue, require, in_bounds, ◌>>=◌, ◌>>◌}

abbrev pub Keeps : {S A : Type 0} → (S → Type 0) → Exec S A → Type 0
Keeps {S} J m = (s : S) → J s → J (m s).1

module _ {S A B : Type 0} where
  continue-Keeps :
      (J : S → Type 0) (r : Result A × S) (f : A → Exec S B)
      → J r.1
      → ((a : A) → Keeps J (f a))
      → J (continue r.0 r.1 f).1
  continue-Keeps J (ok a, s) f h k = k a s h
  continue-Keeps J (failed, s) f h k = h
  continue-Keeps J (fault e, s) f h k = h

  pub Keeps-bind :
      (J : S → Type 0) (m : Exec S A) (f : A → Exec S B)
      → Keeps J m
      → ((a : A) → Keeps J (f a))
      → Keeps J (m >>= f)
  unfolding ◌>>=◌
  Keeps-bind J m f h k s j = continue-Keeps J (m s) f (h s j) k

module _ {S B : Type 0} where
  pub Keeps-then :
      (J : S → Type 0) (m : Exec S (Unit {0})) (k : Exec S B)
      → Keeps J m
      → Keeps J k
      → Keeps J (m >> k)
  unfolding ◌>>◌
  Keeps-then J m k h next = Keeps-bind J m (λ _. k) h (λ _. next)

  -- A test between two actions.
  pub Keeps-cases :
      (J : S → Type 0) (b : Bool) (m k : Exec S B)
      → Keeps J m
      → Keeps J k
      → Keeps J (elim b as (λ (x : Bool). Exec S B) [ true ↦ m | false ↦ k ])
  Keeps-cases J true m k h other = h
  Keeps-cases J false m k h other = other

module _ {S : Type 0} where
  pub Keeps-require : (J : S → Type 0) (b : Bool) → Keeps J (require b)
  Keeps-require J true s h = h
  Keeps-require J false s h = h

  pub Keeps-in_bounds : (J : S → Type 0) (b : Bool) → Keeps J (in_bounds b)
  Keeps-in_bounds J true s h = h
  Keeps-in_bounds J false s h = h

module _ {S A : Type 0} where
  -- A test between two outcomes.
  pub Keeps-choose :
      (J : S → Type 0) (b : Bool) (r r' : Result A × S)
      → J r.1
      → J r'.1
      → J (elim b as (λ (x : Bool). Result A × S) [ true ↦ r | false ↦ r' ]).1
  Keeps-choose J true r r' h other = h
  Keeps-choose J false r r' h other = other

-- An action whose result has a property, beside what it keeps.
abbrev pub Gives : {S A : Type 0} → (A → Type 0) → (S → Type 0) → Result A × S → Type 0
Gives Q J (ok a, s) = Q a × J s
Gives Q J (failed, s) = J s
Gives Q J (fault e, s) = J s

module _ {S A B : Type 0} where
  continue-Gives :
      (Q : A → Type 0) (J : S → Type 0) (r : Result A × S) (f : A → Exec S B)
      → Gives Q J r
      → ((a : A) → Q a → Keeps J (f a))
      → J (continue r.0 r.1 f).1
  continue-Gives Q J (ok a, s) f (q, h) k = k a q s h
  continue-Gives Q J (failed, s) f h k = h
  continue-Gives Q J (fault e, s) f h k = h

  pub Keeps-bind_given :
      (Q : A → Type 0) (J : S → Type 0) (m : Exec S A) (f : A → Exec S B)
      → ((s : S) → J s → Gives Q J (m s))
      → ((a : A) → Q a → Keeps J (f a))
      → Keeps J (m >>= f)
  unfolding ◌>>=◌
  Keeps-bind_given Q J m f h k s j = continue-Gives Q J (m s) f (h s j) k
