-- ===== src/Claims.antt =====
-- The decision of turnvector_benchmark/controller.py whether a run may be claimed: the status over the
-- lanes, the fixture taint, and `resolve_claimable`; the fixtures known are those of
-- owner_lifecycle_fixture.py.
pub mod Decision
pub mod Provenance
mod Tests
use turn_vector_benchmark.Base.{
  ℕ, String, Bool, true, false, not, ◌&&◌, ◌||◌, Option, none, some, List, [], ◌∷◌, is_empty,
  str_eq, if◌then◌else◌, Result, ok, err, raise_if, contract_error, ◌>>=◌, ◌>>◌,
}
use turn_vector_benchmark.Base.Order.{lte, text_ord}
use turn_vector_benchmark.Base.Sets.{contains, add}

abbrev pub clean : String
clean = "clean"

abbrev pub fixture_tainted : String
fixture_tainted = "fixture_tainted"

abbrev pub known_fixture_ids : List String
known_fixture_ids = "owner-lifecycle-device-executor-v1" ∷ []

-- The order in which `_status_for_results` looks for a status.
abbrev pub failing_statuses : List String
failing_statuses =
    "infrastructure_failed" ∷ "contract_failed" ∷ "gate_failed" ∷ "environment_unavailable"
    ∷ "unsupported" ∷ []

abbrev pub first_present : List String → List String → String
first_present [] statuses = "passed"
first_present (s ∷ ss) statuses = if contains s statuses then s else first_present ss statuses

-- `_status_for_results`, of the lanes' statuses
unfoldable pub status_for_results : List String → String
status_for_results statuses = first_present failing_statuses statuses

-- `previous is not None and previous >= fixture_id`
abbrev pub out_of_order : Option String → String → Bool
out_of_order none i = false
out_of_order (some p) i = lte i p

-- The loop of `validate_fixture_taint_state`: what has been seen, and the last one.
unfoldable pub check_ids :
    List String → List String → Option String → List String → Result (List String)
check_ids known seen previous [] = ok seen
check_ids known seen previous (i ∷ ids) = do
  raise_if (not (contains i known)) contract_error
  raise_if (contains i seen) contract_error
  raise_if (out_of_order previous i) contract_error
  check_ids known (add i seen) (some i) ids

unfoldable pub validate_fixture_taint_state : String → List String → Result String
validate_fixture_taint_state taint ids = do
  raise_if (not (str_eq taint clean || str_eq taint fixture_tainted)) contract_error
  seen ← check_ids known_fixture_ids [] none ids
  raise_if (str_eq taint clean && not (is_empty seen)) contract_error
  raise_if (str_eq taint fixture_tainted && is_empty seen) contract_error
  ok taint

-- The keyword arguments of `resolve_full_implementation_status`
pub record Run : Type 0 where
  pub run_fixture_taint : String
  pub fixture_subject : Bool
  pub all_required_selected : Bool
  pub aggregate_status : String
  pub evidence_valid : Bool
  pub source_matches : Bool
  pub fixture_ids : List String

abbrev pub implementation_passed : Run → Bool
implementation_passed r =
    not (str_eq r.run_fixture_taint fixture_tainted)
    && not r.fixture_subject
    && r.all_required_selected
    && str_eq r.aggregate_status "passed"
    && r.evidence_valid
    && r.source_matches

-- The returns of `resolve_full_implementation_status`
abbrev pub full_status : Run → String
full_status r =
    if str_eq r.run_fixture_taint fixture_tainted || r.fixture_subject
    then "not_claimable_fixture"
    else if not r.all_required_selected
    then "not_evaluated"
    else if implementation_passed r
    then "passed"
    else "failed"

unfoldable pub resolve_full_implementation_status : Run → Result String
resolve_full_implementation_status r = do
  checked ← validate_fixture_taint_state r.run_fixture_taint r.fixture_ids
  ok (full_status r)

unfoldable pub resolve_claimable : Run → Result Bool
resolve_claimable r = do status ← resolve_full_implementation_status r; ok (str_eq status "passed")
