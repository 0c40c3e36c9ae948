-- ===== src/Scheduler/Oracle/Receipt.antt =====
-- `accept_receipt` of `SchedulerOracle`: the pending plan is charged, and nothing else is accepted.
use turn_vector_benchmark.Base.{
  ℕ, zero, suc, ◌<◌, String, ◌≡◌, refl, none, some, inl, inr, arith, Bool-cases, ok, if◌then◌else◌,
  str_eq,
}
use text.Mathlib.TextPositions.{eq_refl}
use turn_vector_benchmark.Base.Dict.{Dict, lookup, insert, lookup-insert}
use turn_vector_benchmark.Base.Fraction.{Fraction, reduced, ◌⊕◌}
use turn_vector_benchmark.Scheduler.{Candidate}
use turn_vector_benchmark.Scheduler.Choice.{least_ledger, fraction}
use turn_vector_benchmark.Scheduler.Choice.Keyed.{AllHeld, least_ledger_total}
use turn_vector_benchmark.Scheduler.Oracle.{Oracle, accept_receipt}
use turn_vector_benchmark.Scheduler.Oracle.Sync.{IsValid}

pub fraction_ok : (n w : ℕ) → 0 < w → fraction n w ≡ ok (reduced n w)
fraction_ok n zero h = absurd (omega arith)
fraction_ok n (suc w) h = refl

module _ (c : Candidate) (us : ℕ) (o : Oracle) where
  -- The ledgers after the charge.
  abbrev pub charged : Fraction → ℕ → Dict Fraction
  charged f w = insert c.model_id (f ⊕ reduced us w) o.ledgers

  receipt_returns :
      (w : ℕ) (f l : Fraction)
      → o.pending ≡ some c
      → lookup c.model_id o.weights ≡ some w
      → lookup c.model_id o.ledgers ≡ some f
      → fraction us w ≡ ok (reduced us w)
      → least_ledger o.baseline (charged f w) o.runnable ≡ ok l
      → accept_receipt c.candidate_id c.model_id us o
        ≡ (ok (charged f w), record o { ledgers = charged f w; pending = none; baseline = l })
  unfolding accept_receipt
  receipt_returns w f l p hw hf q e = ground (arith, eq_refl c.candidate_id, eq_refl c.model_id)

  -- A receipt that has been accepted.
  pub record Settled : Type 0 where
    pub weight : ℕ
    pub before : Fraction
    pub lowest : Fraction
    pub weight_held : lookup c.model_id o.weights ≡ some weight
    pub before_held : lookup c.model_id o.ledgers ≡ some before
    pub lowest_least : least_ledger o.baseline (charged before weight) o.runnable ≡ ok lowest
    pub returned : accept_receipt c.candidate_id c.model_id us o ≡ (
      ok (charged before weight),
      record o { ledgers = charged before weight; pending = none; baseline = lowest },
    )
    pub still_valid :
        IsValid (record o { ledgers = charged before weight; pending = none; baseline = lowest })

  charged_held :
      (f : Fraction) (w : ℕ)
      → IsValid o
      → (k : String) (v : ℕ) → lookup k o.weights ≡ some v
      → (g : Fraction) × (lookup k (charged f w) ≡ some g)
  charged_held f w valid k v h =
      let (g, e) = valid.held k v h in
      let at = lookup-insert c.model_id k (f ⊕ reduced us w) o.ledgers in
      elim (Bool-cases (str_eq c.model_id k)) [
        | inl same ↦ (f ⊕ reduced us w, rw at (rw same))
        | inr other ↦ (g, rw at (rw other e))
      ]

  pub receipt_total : IsValid o → o.pending ≡ some c → Settled
  receipt_total valid p =
      let (w, hw) = valid.planned c p in
      let (f, hf) = valid.held c.model_id w hw in
      let tracked : AllHeld (charged f w) o.runnable =
        λ k m. let (v, h) = valid.known k m in charged_held f w valid k v h in
      let (l, e) = least_ledger_total o.baseline (charged f w) o.runnable tracked in
      record {
        weight = w;
        before = f;
        lowest = l;
        weight_held = hw;
        before_held = hf;
        lowest_least = e;
        returned =
            receipt_returns w f l p hw hf (fraction_ok us w (valid.positive c.model_id w hw)) e;
        still_valid = record {
          positive = valid.positive;
          held = charged_held f w valid;
          known = valid.known;
          planned = λ c' q. ground arith;
        };
      }

-- The receipt of the pending plan is accepted: its model's ledger grows by exactly the reported
-- service over the model's weight, every other ledger stays, no plan is pending any more, and the
-- oracle is well-formed.
pub receipt_charges :
    (c : Candidate) (us : ℕ) (o : Oracle)
    → IsValid o
    → o.pending ≡ some c
    → (w : ℕ) × (f : Fraction) × (o' : Oracle) × (lookup c.model_id o.weights ≡ some w)
      × (lookup c.model_id o.ledgers ≡ some f)
      × (accept_receipt c.candidate_id c.model_id us o ≡ (ok o'.ledgers, o'))
      × ((k : String)
          → lookup k o'.ledgers
            ≡ (if str_eq c.model_id k then some (f ⊕ reduced us w) else lookup k o.ledgers))
      × (o'.pending ≡ none)
      × IsValid o'
receipt_charges c us o valid p =
    let s = receipt_total c us o valid p in
    (
      s.weight,
      s.before,
      record o { ledgers = charged c us o s.before s.weight; pending = none; baseline = s.lowest },
      s.weight_held,
      s.before_held,
      s.returned,
      (λ k. lookup-insert c.model_id k (s.before ⊕ reduced us s.weight) o.ledgers),
      refl,
      s.still_valid,
    )
