-- ===== src/Runner/Outcomes.antt =====
-- What an action may do: return with a property of the value and the state, or raise an exception that
-- the runner catches or that the driver brings about.
use turn_vector_benchmark.Base.{
  ◌≡◌, refl, inl, inr, ◌⊎◌, Result, ok, err, Error, contract_error, conformance_error, ok-injective,
  arith, subst,
}
use turn_vector_benchmark.Base.Exec.{Exec, ◌>>=◌}

-- The exceptions that `_run_scenario` catches.
abbrev pub IsReported : Error → Type 0
IsReported e = (e ≡ contract_error) ⊎ (e ≡ conformance_error)

-- Or those that the driver brings about.
abbrev pub IsRaised : (Error → Type 0) → Error → Type 0
IsRaised X e = IsReported e ⊎ X e

pub record Reports {ℓ} (X : Error → Type 0) {A : Type ℓ} (r : Result A) : Type ℓ where
  pub reported : (e : Error) → r ≡ err e → IsRaised X e

pub record Ends (X : Error → Type 0) {S A : Type 0} (Q : A → S → Type 0) (out : Result A × S)
    : Type 0 where
  pub reported : (e : Error) → out.0 ≡ err e → IsRaised X e
  pub returned : (a : A) → out.0 ≡ ok a → Q a out.1

module _ {X : Error → Type 0} {S A : Type 0} {Q : A → S → Type 0} where
  pub Ends-ok : {a : A} {s : S} → Q a s → Ends X Q (ok a, s)
  Ends-ok {a} {s} q = record {
    reported = λ e h. cc;
    returned = λ b h. subst (λ t. Q t s) (ok-injective a b h) q;
  }

  pub Ends-contract : {s : S} → Ends X Q (err contract_error, s)
  Ends-contract = record { reported = λ e h. inl (inl (ground arith)); returned = λ b h. cc }

  pub Ends-conformance : {s : S} → Ends X Q (err conformance_error, s)
  Ends-conformance = record { reported = λ e h. inl (inr (ground arith)); returned = λ b h. cc }

  pub Ends-err : {e : Error} {s : S} → IsRaised X e → Ends X Q (err e, s)
  Ends-err p = record { reported = λ e h. subst (IsRaised X) (cc) p; returned = λ b h. cc }

-- A step of a chain: the rest is reached if it returns, and its exception is an admitted one.
pub with_step :
    {X : Error → Type 0} {S A B : Type 0} {Q : B → S → Type 0} (r : Result A) (s : S)
    {rest : A → Result B × S}
    → Reports X r
    → ((a : A) → r ≡ ok a → Ends X Q (rest a))
    → Ends X Q (elim r [ ok a ↦ rest a | err e ↦ (err e, s) ])
with_step (ok a) s p h = h a refl
with_step (err e) s p h = Ends-err (p.reported e refl)

-- A step with a property of what it leaves, and the rest of the chain.
pub with_rest :
    {X : Error → Type 0} {S A B : Type 0} {P : A → S → Type 0} {Q : B → S → Type 0} (m : Exec S A)
    (f : A → Exec S B) (s : S)
    → Ends X P (m s)
    → ((a : A) (s' : S) → P a s' → Ends X Q (f a s'))
    → Ends X Q ((m >>= f) s)
with_rest {X} {S} {A} {B} {P} {Q} m f s p h = split (m s) p
  where
    split :
        (out : Result A × S)
        → Ends X P out
        → Ends X Q (elim out.0 [ ok a ↦ f a out.1 | err e ↦ (err e, out.1) ])
    split (ok a, s') q = h a s' (q.returned a refl)
    split (err e, s') q = Ends-err (q.reported e refl)

-- The same outcome with a weaker property.
pub with_end :
    {X : Error → Type 0} {S A : Type 0} {P Q : A → S → Type 0} {out : Result A × S}
    → Ends X P out
    → ((a : A) (s : S) → P a s → Q a s)
    → Ends X Q out
with_end {out = out} p h = record {
  reported = p.reported;
  returned = λ a e. h a out.1 (p.returned a e);
}
