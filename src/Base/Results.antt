-- ===== src/Base/Results.antt =====
-- The exceptions that the modelled code raises, and results that may carry one.
use mathlib.Core.Path.{◌≡◌, refl}
use mathlib.Core.Bool.{Bool, true, false}
use mathlib.Core.Logic.{◌⊎◌, inl, inr}

-- `ContractError`, `ConformanceError`, `DataPlaneEnvironmentError`, `CompilerInternalError`, `LifecycleRemoteError` and Python's
-- `KeyError`, `TypeError`, `ValueError`, `ZeroDivisionError`, `MemoryError`; messages are left out.
-- The classes of the exceptions; `remote_error` is `LifecycleRemoteError`, a kind of `ContractError`.
pub data Error : Type 0 where
  contract_error conformance_error internal_error remote_error : Error
  key_error type_error value_error zero_division memory_error environment_error recursion_error :
      Error

pub data Result {ℓ} (V : Type ℓ) : Type ℓ where
  err : Error → Result V
  ok : V → Result V

-- `if bad: raise e`
abbrev pub raise_if : Bool → Error → Result (Unit {0})
raise_if true e = err e
raise_if false e = ok tt

-- The first exception ends a chain.
infixl 5 ◌>>=◌
abbrev pub ◌>>=◌ {ℓ κ} : {V : Type ℓ} {W : Type κ} → Result V → (V → Result W) → Result W
err why >>= next = err why
ok v >>= next = next v

abbrev pub is_ok {ℓ} : {A : Type ℓ} → Result A → Bool
is_ok (ok _) = true
is_ok (err _) = false

pub Result-cases {ℓ} :
    {A : Type ℓ} (r : Result A) → ((a : A) × (r ≡ ok a)) ⊎ ((e : Error) × (r ≡ err e))
Result-cases (ok a) = inl (a, refl)
Result-cases (err e) = inr (e, refl)

infixl 5 ◌>>◌
abbrev pub ◌>>◌ {κ} : {W : Type κ} → Result (Unit {0}) → Result W → Result W
first >> second = first >>= (λ done. second)

-- The parts of a chain that has returned.
pub >>=-eq-ok {ℓ κ} :
    {V : Type ℓ} {W : Type κ} (first : Result V) (next : V → Result W) {w : W}
    → (first >>= next) ≡ ok w
    → (v : V) × (first ≡ ok v) × (next v ≡ ok w)
>>=-eq-ok (err why) next returned = cc
>>=-eq-ok (ok v) next returned = (v, refl, returned)

pub ok-injective {ℓ} : {A : Type ℓ} (a b : A) → ok a ≡ ok b → a ≡ b
ok-injective a b h = cc
