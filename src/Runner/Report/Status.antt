-- ===== src/Runner/Report/Status.antt =====
-- The status that `_run_scenario` reports, from what the repetitions did.
use turn_vector_benchmark.Base.{
  ℕ, String, ◌≡◌, Bool, true, false, ◌&&◌, List, [], ◌∷◌, any, all, is_empty, length, if◌then◌else◌,
  Error, Result, ok, str_eq,
}
use turn_vector_benchmark.Scheduler.{Scenario}
use turn_vector_benchmark.Scheduler.Scenarios.Accepted.{IsScenario}
use turn_vector_benchmark.Runner.Driver.{Driver, Escapes}
use turn_vector_benchmark.Runner.Metrics.{PlanIdentity}
use turn_vector_benchmark.Runner.Repetition.{Runner}
use turn_vector_benchmark.Runner.Report.{
  RepetitionStatus, passed, contract_failed, ErrorReport, is_contract, ScenarioStatus,
  scenario_passed, scenario_nonconforming, scenario_broken, hashes,
}

abbrev pub is_passed : ℕ × RepetitionStatus → Bool
is_passed (i, passed m) = true
is_passed (i, _) = false

abbrev pub is_contract_failed : ℕ × RepetitionStatus → Bool
is_contract_failed (i, contract_failed) = true
is_contract_failed (i, _) = false

-- A non-empty list of one text.
abbrev pub all_same : List String → Bool
all_same [] = false
all_same (h ∷ hs) = all (str_eq h) hs

-- The replay is deterministic if every repetition has passed with the same hash.
abbrev pub is_deterministic : List (ℕ × RepetitionStatus) → Bool
is_deterministic reps = all is_passed reps && all_same (hashes reps)

-- The errors that belong to the repetitions.
pub record IsCollected (n : ℕ) (reps : List (ℕ × RepetitionStatus)) (errors : List ErrorReport)
    : Type 0 where
  pub count : length reps ≡ n
  pub contracts : any is_contract errors ≡ any is_contract_failed reps
  pub none_failed : is_empty errors ≡ all is_passed reps

-- What the status should be.
abbrev pub expected_status : List (ℕ × RepetitionStatus) → ScenarioStatus
expected_status reps =
    if any is_contract_failed reps
    then scenario_broken
    else if is_deterministic reps
    then scenario_passed
    else scenario_nonconforming

module _ {D : Type 0} (driver : Driver D) (digest : List PlanIdentity → String) (s : Scenario)
    (fits : IsScenario s) (calm : (e : Error) → ¬ Escapes driver e) where
  -- One repetition, with the errors that it adds.
  record Attempted (out : Result (RepetitionStatus × List ErrorReport) × Runner) (i : ℕ)
      : Type 0 where
    pub status : RepetitionStatus
    pub errors : List ErrorReport
    pub after : Runner
    pub returned : out ≡ (ok (status, errors), after)
    pub collected : IsCollected 1 ((i, status) ∷ []) errors

  record Repeated (out : Result (List (ℕ × RepetitionStatus) × List ErrorReport) × Runner) (n : ℕ)
      : Type 0 where
    pub statuses : List (ℕ × RepetitionStatus)
    pub errors : List ErrorReport
    pub after : Runner
    pub returned : out ≡ (ok (statuses, errors), after)
    pub collected : IsCollected n statuses errors
