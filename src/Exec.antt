-- ===== src/Exec.antt =====
-- A C function that works on an object through a pointer and reports success: the object comes back
-- on every path. `failed` is `return false`. A fault is no return: an access outside of an array,
-- which C leaves undefined, a shift by a negative number, or a loop of the model that ran out of fuel.
pub mod Ends
pub mod Keeps
use fkfs.Base.{Bool, true, false}

pub data Fault : Type 0 where
  out_of_bounds out_of_fuel bad_shift : Fault

pub data Result (A : Type 0) : Type 0 where
  ok : A → Result A
  failed : Result A
  fault : Fault → Result A

abbrev pub Exec : Type 0 → Type 0 → Type 0
Exec S A = S → Result A × S

module _ {S A : Type 0} where
  abbrev pub pure : A → Exec S A
  pure a s = (ok a, s)

  abbrev pub fail : Exec S A
  fail s = (failed, s)

  abbrev pub raise : Fault → Exec S A
  raise e s = (fault e, s)

  abbrev pub gets : (S → A) → Exec S A
  gets f s = (ok (f s), s)

abbrev pub modify : {S : Type 0} → (S → S) → Exec S (Unit {0})
modify f s = (ok tt, f s)

module _ {S A B : Type 0} where
  abbrev pub continue : Result A → S → (A → Exec S B) → Result B × S
  continue (ok a) s f = f a s
  continue failed s f = (failed, s)
  continue (fault e) s f = (fault e, s)

infixl 5 ◌>>=◌ ◌>>◌
unfoldable pub ◌>>=◌ : {S A B : Type 0} → Exec S A → (A → Exec S B) → Exec S B
◌>>=◌ m f s = let (r, s') = m s in continue r s' f

unfoldable pub ◌>>◌ : {S B : Type 0} → Exec S (Unit {0}) → Exec S B → Exec S B
unfolding ◌>>=◌
m >> k = m >>= λ _. k

-- `if (!ok) return false;`
abbrev pub require : {S : Type 0} → Bool → Exec S (Unit {0})
require true = pure tt
require false = fail

-- An access that C defines only if the test holds.
abbrev pub in_bounds : {S : Type 0} → Bool → Exec S (Unit {0})
in_bounds true = pure tt
in_bounds false = raise out_of_bounds
