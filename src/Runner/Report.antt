-- ===== src/Runner/Report.antt =====
-- `_run_scenario` of turnvector_benchmark/runner.py: the repetitions of a scenario, what they raised and
-- the status of the scenario.
pub mod Status
use turn_vector_benchmark.Base.{
  ℕ, zero, suc, ◌==◌, String, Bool, true, false, not, ◌&&◌, ◌||◌, Option, none, some, List, [], ◌∷◌,
  ◌++◌, any, is_empty, length, if◌then◌else◌, ok, err, contract_error, conformance_error,
}
use turn_vector_benchmark.Base.Sets.{set_of}
use turn_vector_benchmark.Base.Exec.{Exec, pure, ◌>>=◌}
use turn_vector_benchmark.Scheduler.{Scenario}
use turn_vector_benchmark.Runner.Driver.{Driver}
use turn_vector_benchmark.Runner.Metrics.{PlanIdentity, Metrics}
use turn_vector_benchmark.Runner.Repetition.{Runner, run_repetition}

pub data RepetitionStatus : Type 0 where
  passed : Metrics → RepetitionStatus
  conformance_failed contract_failed : RepetitionStatus

pub data ErrorClass : Type 0 where
  conformance contract : ErrorClass

-- The repetition is `none` where the code writes "all".
pub record ErrorReport : Type 0 where
  pub repetition : Option ℕ
  pub class : ErrorClass

pub data ScenarioStatus : Type 0 where
  scenario_passed scenario_nonconforming scenario_broken : ScenarioStatus

pub record ScenarioReport : Type 0 where
  pub scenario_id : String
  pub description : String
  pub status : ScenarioStatus
  pub exact_selection : Bool
  pub exact_receipt_accounting : Bool
  pub deterministic_replay : Bool
  pub repetitions : List (ℕ × RepetitionStatus)
  pub errors : List ErrorReport

abbrev pub is_contract : ErrorReport → Bool
is_contract e = elim e.class [ contract ↦ true | conformance ↦ false ]

abbrev pub has_passed : ScenarioStatus → Bool
has_passed scenario_passed = true
has_passed _ = false

-- The hashes of the repetitions that have passed.
abbrev pub hashes : List (ℕ × RepetitionStatus) → List String
hashes [] = []
hashes ((i, passed m) ∷ l) = m.plan_trace_sha256 ∷ hashes l
hashes ((i, _) ∷ l) = hashes l

unfoldable pub determinism_passed : ℕ → List String → Bool
determinism_passed repetitions hs = (length hs == repetitions) && (length (set_of hs) == 1)

abbrev pub replay_errors : List ErrorReport
replay_errors = record { repetition = none; class = conformance } ∷ []

unfoldable pub all_errors : Bool → List ErrorReport → List ErrorReport
all_errors deterministic errors =
    if not deterministic && not (any is_contract errors) then errors ++ replay_errors else errors

unfoldable pub scenario_status : List ErrorReport → ScenarioStatus
scenario_status errors =
    if any is_contract errors
    then scenario_broken
    else if is_empty errors
    then scenario_passed
    else scenario_nonconforming

unfoldable pub scenario_report :
    Scenario → List (ℕ × RepetitionStatus) → List ErrorReport → ScenarioReport
unfolding determinism_passed all_errors scenario_status
scenario_report s repetitions errors =
    let deterministic = determinism_passed s.repetitions (hashes repetitions) in
    let all = all_errors deterministic errors in
    let status = scenario_status all in
    record {
      scenario_id = s.scenario_id;
      description = s.description;
      status = status;
      exact_selection = has_passed status;
      exact_receipt_accounting = has_passed status;
      deterministic_replay = deterministic;
      repetitions = repetitions;
      errors = all;
    }

module _ {D : Type 0} (driver : Driver D) (digest : List PlanIdentity → String) where
  abbrev pub Collected : Type 0
  Collected = List (ℕ × RepetitionStatus) × List ErrorReport

  -- A repetition whose `ConformanceError` or `ContractError` is caught.
  unfoldable pub attempt : Scenario → ℕ → Exec Runner (RepetitionStatus × List ErrorReport)
  attempt s i r =
      let (outcome, r') = run_repetition driver digest s i r in
      elim outcome [
        | ok m ↦ (ok (passed m, []), r')
        | err conformance_error ↦
            (ok (conformance_failed, record { repetition = some i; class = conformance } ∷ []), r')
        | err contract_error ↦
            (ok (contract_failed, record { repetition = some i; class = contract } ∷ []), r')
        | err e ↦ (err e, r')
      ]

  -- `for repetition in range(scenario.repetitions)`, from one on and with a number of them left.
  unfoldable pub run_repetitions : Scenario → ℕ → ℕ → Exec Runner Collected
  run_repetitions s zero i = pure ([], [])
  run_repetitions s (suc left) i = do
    done ← attempt s i
    rest ← run_repetitions s left (suc i)
    pure ((i, done.0) ∷ rest.0, done.1 ++ rest.1)

  unfoldable pub run_scenario : Scenario → Exec Runner ScenarioReport
  run_scenario s = do
    done ← run_repetitions s s.repetitions 0
    pure (scenario_report s done.0 done.1)
