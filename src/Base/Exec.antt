-- ===== src/Base/Exec.antt =====
-- A Python method as an action: the object comes back changed, also after a raise, since what was
-- written stays written.
pub mod Steps
use turn_vector_benchmark.Base.{Bool, true, false, Result, ok, err, Error}

abbrev pub Exec : Type 0 → Type 0 → Type 0
Exec S A = S → Result A × S

module _ {S A : Type 0} where
  abbrev pub pure : A → Exec S A
  pure a s = (ok a, s)

  abbrev pub raise : Error → Exec S A
  raise e s = (err e, s)

  abbrev pub gets : (S → A) → Exec S A
  gets f s = (ok (f s), s)

  abbrev pub lift : Result A → Exec S A
  lift r s = (r, s)

abbrev pub modify : {S : Type 0} → (S → S) → Exec S (Unit {0})
modify f s = (ok tt, f s)

-- `if bad: raise e`
abbrev pub raise_when : {S : Type 0} → Bool → Error → Exec S (Unit {0})
raise_when true e s = (err e, s)
raise_when false e s = (ok tt, s)

infixl 5 ◌>>=◌ ◌>>◌
abbrev pub ◌>>=◌ : {S A B : Type 0} → Exec S A → (A → Exec S B) → Exec S B
◌>>=◌ m f s = let (r, s') = m s in elim r [ ok a ↦ f a s' | err e ↦ (err e, s') ]

abbrev pub ◌>>◌ : {S B : Type 0} → Exec S (Unit {0}) → Exec S B → Exec S B
m >> k = m >>= λ _. k
