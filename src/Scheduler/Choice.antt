-- ===== src/Scheduler/Choice.antt =====
-- The choice of `SchedulerOracle.schedule` in turnvector_benchmark/core.py: the filters, the keys and
-- Python's `min` by key, over the ledgers of the moment.
pub mod Keyed
pub mod Least
use turn_vector_benchmark.Base.{
  ℕ, zero, suc, String, not, Option, none, some, List, [], ◌∷◌, map, is_empty, keep_if,
  if◌then◌else◌, Result, ok, err, type_error, zero_division, ◌>>=◌,
}
use turn_vector_benchmark.Base.Order.{Ord, min_by, pair_ord, text_ord}
use turn_vector_benchmark.Base.Dict.{Dict, lookup, or_key_error}
use turn_vector_benchmark.Base.Int.{ℤ, int_ord}
use turn_vector_benchmark.Base.Fraction.{Fraction, reduced, fraction_ord}
use turn_vector_benchmark.Scheduler.{Candidate, eligible, latest_safe_start_us, is_urgent}

pub data DecisionClass : Type 0 where
  urgent normal no_plan : DecisionClass

-- The elements with their keys, and the first of the least.
abbrev pub keyed : {A K : Type 0} → (A → Result K) → List A → Result (List (K × A))
keyed key [] = ok []
keyed key (x ∷ xs) = do k ← key x; rest ← keyed key xs; ok ((k, x) ∷ rest)

-- `d[k]` at each key, with the key
abbrev pub entry {ℓ} : {V : Type ℓ} → Dict V → String → Result V
entry d k = or_key_error (lookup k d)

abbrev pub swapped : {A B : Type 0} → List (A × B) → List (B × A)
swapped [] = []
swapped ((a, b) ∷ l) = (b, a) ∷ swapped l

-- `{k: d[k] for k in ks}`
unfoldable pub values_at : {V : Type 0} → Dict V → List String → Result (Dict V)
values_at d ks = do l ← keyed (entry d) ks; ok (swapped l)

abbrev pub least_of : Fraction → List (Fraction × String) → Fraction
least_of otherwise [] = otherwise
least_of otherwise (e ∷ l) = (min_by (λ (p : Fraction × String). p.0) e l).0

-- `min(d[k] for k in ks)`, or `otherwise` when there is no key.
unfoldable pub least_ledger : Fraction → Dict Fraction → List String → Result Fraction
unfolding min_by
least_ledger otherwise d ks = do l ← keyed (entry d) ks; ok (least_of otherwise l)

unfoldable pub select : {A K : Type 0} ⦃o : Ord K⦄ → (A → Result K) → List A → Result (Option A)
unfolding min_by
select key [] = ok none
select {A} {K} key (x ∷ xs) = do
  k ← key x
  rest ← keyed key xs
  ok (some (min_by (λ (p : K × A). p.0) (k, x) rest).1)

abbrev pub UrgentKey : Type 0
UrgentKey = ℤ × (Fraction × String)

abbrev pub NormalKey : Type 0
NormalKey = Fraction × (String × String)

-- A candidate with no obligation has no latest start, and `None` does not compare.
abbrev pub urgent_key : Dict Fraction → Candidate → Result UrgentKey
urgent_key d c = elim (latest_safe_start_us c) [
  | none ↦ err type_error
  | some l ↦ (do f ← entry d c.model_id; ok (l, (f, c.candidate_id)))
]

abbrev pub normal_key : Dict Fraction → Candidate → Result NormalKey
normal_key d c = do f ← entry d c.model_id; ok (f, (c.model_id, c.candidate_id))

unfoldable pub choose :
    ℕ → List Candidate → Dict Fraction → Result (Option Candidate × DecisionClass)
choose now candidates d =
    let ready = keep_if eligible candidates in
    let due = keep_if (λ c. is_urgent c now) ready in
    if not (is_empty due)
    then (do s ← select (urgent_key d) due; ok (s, urgent))
    else if not (is_empty ready)
    then (do s ← select (normal_key d) ready; ok (s, normal))
    else ok (none, no_plan)

-- `Fraction(n, d)`
abbrev pub fraction : ℕ → ℕ → Result Fraction
fraction n zero = err zero_division
fraction n (suc d) = ok (reduced n (suc d))
