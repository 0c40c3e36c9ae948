-- ===== src/Base/Exec/Steps.antt =====
-- Reasoning on the steps of an action: what they keep, and what those of a returned chain returned.
use turn_vector_benchmark.Base.{◌≡◌, refl, Bool, true, false, Result, ok, err, contract_error}
use turn_vector_benchmark.Base.Exec.{Exec, raise_when, ◌>>=◌}

-- A property of the state that an action keeps, whether it returns or raises.
pub record Keeps {S A : Type 0} (P : S → Type 0) (m : Exec S A) : Type 0 where
  pub kept : (s : S) → P s → P (m s).1

pub Keeps-then :
    {S A B : Type 0} {P : S → Type 0} (m : Exec S A) (f : A → Exec S B)
    → Keeps P m
    → ((a : A) → Keeps P (f a))
    → Keeps P (m >>= f)
Keeps-then {S} {A} {B} {P} m f h k = record { kept = λ s p. rest (m s) (h.kept s p) }
  where
    rest : (out : Result A × S) → P out.1 → P (((λ _. out) >>= f) out.1).1
    rest (ok a, s) p = (k a).kept s p
    rest (err e, s) p = p

pub raise_keeps :
    {S : Type 0} (P : S → Type 0) (b : Bool) (s : S) → P s → P (raise_when b contract_error s).1
raise_keeps P true s h = h
raise_keeps P false s h = h

-- The steps of a chain that has returned.
pub exec-inverse :
    {S A B : Type 0} (m : Exec S A) (f : A → Exec S B) (s : S) (b : B)
    → ((m >>= f) s).0 ≡ ok b
    → (a : A) × ((m s).0 ≡ ok a) × ((f a (m s).1).0 ≡ ok b) × (((m >>= f) s).1 ≡ (f a (m s).1).1)
exec-inverse {S} {A} {B} m f s b h = split (m s) h
  where
    split :
        (out : Result A × S)
        → (((λ _. out) >>= f) s).0 ≡ ok b
        → (a : A) × (out.0 ≡ ok a)
          × ((f a out.1).0 ≡ ok b)
          × ((((λ _. out) >>= f) s).1 ≡ (f a out.1).1)
    split (ok a, s') k = (a, refl, k, refl)
    split (err e, s') k = cc
