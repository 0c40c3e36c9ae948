-- ===== src/Runner/Metrics.antt =====
-- The metrics of a repetition: the end of `_run_repetition` and `_plan_hash` in
-- turnvector_benchmark/runner.py.
pub mod Total
use turn_vector_benchmark.Base.{
  ℕ, ◌+◌, ◌-◌, ◌*◌, ◌==◌, String, true, false, Option, none, some, List, [], ◌∷◌, if◌then◌else◌,
  Result, ok, err, value_error, ◌>>=◌,
}
use turn_vector_benchmark.Base.Order.{lte}
use turn_vector_benchmark.Base.Dict.{Dict, lookup, insert, or_key_error, keys}
use turn_vector_benchmark.Base.Sets.{set_of}
use turn_vector_benchmark.Base.Fraction.{Fraction, denominator, reduced, fraction_ord}
use turn_vector_benchmark.Scheduler.{ModelConfig, Scenario}
use turn_vector_benchmark.Scheduler.Choice.{DecisionClass, fraction}
use turn_vector_benchmark.Runner.Ledgers.{fraction_text, fraction_map}
use turn_vector_benchmark.Runner.Records.{ReceiptRecord, TraceRecord, Progress}

-- What the hash of a plan trace depends on.
pub record PlanIdentity : Type 0 where
  pub sequence : ℕ
  pub candidate_id : Option String
  pub decision_class : DecisionClass
  pub runnable_ledgers_us : Dict String
  pub receipt_ledgers_us : Option (Dict String)

abbrev pub observed_receipt : Option ReceiptRecord → Option (Dict String)
observed_receipt none = none
observed_receipt (some r) = some r.observed_receipt_ledgers_us

abbrev pub plan_identity : TraceRecord → PlanIdentity
plan_identity r = record {
  sequence = r.sequence;
  candidate_id = r.observed_candidate_id;
  decision_class = r.decision_class;
  runnable_ledgers_us = r.observed_runnable_ledgers_us;
  receipt_ledgers_us = observed_receipt r.receipt;
}

-- The records are kept newest first, and the identities are listed oldest first.
abbrev pub plan_identities : List TraceRecord → List PlanIdentity → List PlanIdentity
plan_identities [] out = out
plan_identities (r ∷ rs) out = plan_identities rs (plan_identity r ∷ out)

pub record Metrics : Type 0 where
  pub turns : ℕ
  pub selection_count : Dict ℕ
  pub engine_service_us : Dict ℕ
  pub engine_service_share : Dict String
  pub normalized_engine_service_us : Dict String
  pub normalized_service_spread_us : String
  pub urgent_selection_count : ℕ
  pub normal_selection_count : ℕ
  pub no_plan_count : ℕ
  pub max_runnable_wait_turns : Dict ℕ
  pub max_consecutive_turns : Dict ℕ
  pub plan_trace_sha256 : String

-- `sum(d.values())`
abbrev pub total : Dict ℕ → ℕ
total [] = 0
total ((k, n) ∷ d) = n + total d

abbrev pub share : ℕ → ℕ → String
share total_service service = elim (total_service == 0) [
  | true ↦ "0/1"
  | false ↦ fraction_text (reduced service total_service)
]

abbrev pub shares_of : Dict ℕ → ℕ → List String → Dict String
shares_of d total_service [] = []
shares_of d total_service (k ∷ ks) = elim (lookup k d) [
  | none ↦ shares_of d total_service ks
  | some n ↦ (k, share total_service n) ∷ shares_of d total_service ks
]

-- In the order of `sorted(engine_service_us.items())`, whose keys are distinct.
unfoldable pub shares : Dict ℕ → Dict String
shares d = shares_of d (total d) (set_of (keys d))

unfoldable pub normalized : List ModelConfig → Dict ℕ → Dict Fraction → Result (Dict Fraction)
normalized [] services d = ok d
normalized (m ∷ ms) services d = do
  service ← or_key_error (lookup m.model_id services)
  f ← fraction service m.weight
  normalized ms services (insert m.model_id f d)

abbrev pub highest : Fraction → Dict Fraction → Fraction
highest f [] = f
highest f ((k, g) ∷ d) = highest (if lte g f then f else g) d

abbrev pub lowest : Fraction → Dict Fraction → Fraction
lowest f [] = f
lowest f ((k, g) ∷ d) = lowest (if lte f g then f else g) d

-- f - g, where g is not above f
abbrev pub difference : Fraction → Fraction → Fraction
difference f g =
    reduced (f.numerator * denominator g - g.numerator * denominator f)
      (denominator f * denominator g)

-- `max` of no value raises a `ValueError`.
unfoldable pub spread : Dict Fraction → Result Fraction
spread [] = err value_error
spread ((k, f) ∷ d) = ok (difference (highest f d) (lowest f d))

-- `digest` is the SHA-256 of the identities' canonical JSON.
abbrev pub metrics_of :
    {D : Type 0} → (List PlanIdentity → String) → Progress D → Dict Fraction → Fraction → Metrics
metrics_of digest p services width = record {
  turns = p.sequence;
  selection_count = p.selection_count;
  engine_service_us = p.engine_service_us;
  engine_service_share = shares p.engine_service_us;
  normalized_engine_service_us = fraction_map services;
  normalized_service_spread_us = fraction_text width;
  urgent_selection_count = p.urgent_selections;
  normal_selection_count = p.normal_selections;
  no_plan_count = p.no_plan_count;
  max_runnable_wait_turns = p.max_wait;
  max_consecutive_turns = p.max_consecutive;
  plan_trace_sha256 = digest (plan_identities p.records []);
}

unfoldable pub metrics :
    {D : Type 0} → (List PlanIdentity → String) → Scenario → Progress D → Result Metrics
metrics digest s p = do
  services ← normalized s.models p.engine_service_us []
  width ← spread services
  ok (metrics_of digest p services width)
