-- ===== src/Scheduler/Oracle.antt =====
-- `SchedulerOracle` of turnvector_benchmark/core.py. A method is an action on the oracle; a missing
-- key raises `key_error`, and a set is kept in ascending order.
pub mod Sync
pub mod Schedule
pub mod Receipt
pub mod Fairness
pub mod Turns
use turn_vector_benchmark.Base.{
  ℕ, zero, String, Bool, not, ◌&&◌, Option, none, some, List, [], ◌∷◌, map, str_eq, is_some,
  keep_if, err, contract_error,
}
use turn_vector_benchmark.Base.Dict.{Dict, lookup, insert, or_key_error}
use turn_vector_benchmark.Base.Sets.{contains, set_of}
use turn_vector_benchmark.Base.Exec.{Exec, pure, gets, lift, modify, raise_when, ◌>>=◌, ◌>>◌}
use turn_vector_benchmark.Base.Fraction.{Fraction, whole, ◌⊕◌}
use turn_vector_benchmark.Scheduler.{ModelConfig, Candidate, eligible}
use turn_vector_benchmark.Scheduler.Choice.{
  DecisionClass, values_at, least_ledger, choose, fraction,
}

pub record Oracle : Type 0 where
  pub weights : Dict ℕ
  pub ledgers : Dict Fraction
  pub runnable : List String
  pub baseline : Fraction
  pub pending : Option Candidate

-- The triple that `schedule` returns.
pub record Decision : Type 0 where
  pub selected : Option Candidate
  pub decision_class : DecisionClass
  pub runnable_ledgers : Dict Fraction

-- `{model.model_id: model.weight for model in models}`; a repeated key keeps its last value.
abbrev pub collect {ℓ} : {V : Type ℓ} → (ModelConfig → V) → List ModelConfig → Dict V → Dict V
collect f [] d = d
collect f (m ∷ ms) d = collect f ms (insert m.model_id (f m) d)

-- `SchedulerOracle(models)`
unfoldable pub new_oracle : List ModelConfig → Oracle
new_oracle models = record {
  weights = collect (λ m. m.weight) models [];
  ledgers = collect (λ m. whole zero) models [];
  runnable = [];
  baseline = whole zero;
  pending = none;
}

-- `for k in ks: d[k] = v`
unfoldable pub assign_all {ℓ} : {V : Type ℓ} → V → List String → Dict V → Dict V
assign_all v [] d = d
assign_all v (k ∷ ks) d = assign_all v ks (insert k v d)

unfoldable pub runnable_models : List Candidate → List String
runnable_models cs = set_of (map (λ (c : Candidate). c.model_id) (keep_if eligible cs))

unfoldable pub sync_runnable : List Candidate → Exec Oracle (Dict Fraction)
sync_runnable candidates = do
  o ← gets (λ o. o)
  let current = runnable_models candidates
  let continuing = keep_if (λ m. contains m o.runnable) current
  alignment ← lift (least_ledger o.baseline o.ledgers continuing)
  let joining = keep_if (λ m. not (contains m o.runnable)) current
  modify (λ s. record s { ledgers = assign_all alignment joining s.ledgers; runnable = current })
  s ← gets (λ s. s)
  lowest ← lift (least_ledger s.baseline s.ledgers current)
  modify (λ s. record s { baseline = lowest })
  lift (values_at s.ledgers current)

unfoldable pub schedule : ℕ → List Candidate → Exec Oracle Decision
schedule now candidates = do
  o ← gets (λ o. o)
  raise_when (is_some o.pending) contract_error
  ledgers ← sync_runnable candidates
  s ← gets (λ s. s)
  chosen ← lift (choose now candidates s.ledgers)
  modify (λ s. record s { pending = chosen.0 })
  pure (record { selected = chosen.0; decision_class = chosen.1; runnable_ledgers = ledgers })

-- `pending.candidate_id != candidate_id or pending.model_id != model_id`
abbrev pub mismatched : Candidate → String → String → Bool
mismatched c candidate_id model_id =
    not (str_eq c.candidate_id candidate_id && str_eq c.model_id model_id)

unfoldable pub settle : Candidate → String → String → ℕ → Exec Oracle (Dict Fraction)
settle plan candidate_id model_id actual_engine_service_us = do
  raise_when (mismatched plan candidate_id model_id) contract_error
  o ← gets (λ o. o)
  before ← lift (or_key_error (lookup model_id o.ledgers))
  weight ← lift (or_key_error (lookup model_id o.weights))
  charge ← lift (fraction actual_engine_service_us weight)
  modify (λ s. record s { ledgers = insert model_id (before ⊕ charge) s.ledgers; pending = none })
  s ← gets (λ s. s)
  lowest ← lift (least_ledger s.baseline s.ledgers s.runnable)
  modify (λ s. record s { baseline = lowest })
  gets (λ s. s.ledgers)

unfoldable pub accept_receipt : String → String → ℕ → Exec Oracle (Dict Fraction)
unfolding settle
accept_receipt candidate_id model_id actual_engine_service_us o = elim o.pending [
  | none ↦ (err contract_error, o)
  | some plan ↦ settle plan candidate_id model_id actual_engine_service_us o
]

unfoldable pub clear_no_plan : Exec Oracle (Unit {0})
clear_no_plan o = raise_when (is_some o.pending) contract_error o
