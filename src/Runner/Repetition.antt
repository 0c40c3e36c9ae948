-- ===== src/Runner/Repetition.antt =====
-- `_run_repetition` and `_plan_hash` of turnvector_benchmark/runner.py: the turns of a scenario with one
-- driver process, and the metrics at the end.
pub mod Accounted
pub mod Exchanges
use turn_vector_benchmark.Base.{
  ℕ, zero, suc, ◌+◌, ◌-◌, ◌*◌, ◌==◌, String, Bool, true, false, Option, none, some, List, [], ◌∷◌,
  ◌++◌, map, str_eq, any, if◌then◌else◌, ◌&&◌, Result, ok, err, contract_error, value_error,
}
use turn_vector_benchmark.Base.Order.{lte}
use turn_vector_benchmark.Base.Dict.{Dict, lookup, insert, or_key_error}
use turn_vector_benchmark.Base.Exec.{Exec, pure, gets, lift, modify, ◌>>=◌, ◌>>◌}
use turn_vector_benchmark.Base.Fraction.{Fraction, denominator, reduced, fraction_ord}
use turn_vector_benchmark.Scheduler.{ModelConfig, Segment, Scenario}
use turn_vector_benchmark.Scheduler.Choice.{DecisionClass}
use turn_vector_benchmark.Scheduler.Oracle.{collect, new_oracle}
use turn_vector_benchmark.Runner.Ledgers.{fraction_text, fraction_map}
use turn_vector_benchmark.Runner.Messages.{Identity}
use turn_vector_benchmark.Runner.Driver.{
  Driver, started, not_started, malformed_command, leave, handshake, initialize, finish_driver,
}
use turn_vector_benchmark.Runner.Turn.{with_driver, run_turn}
use turn_vector_benchmark.Runner.Records.{TraceRecord, Progress}
use turn_vector_benchmark.Runner.Metrics.{PlanIdentity, plan_identities, Metrics, metrics}

-- What the runner keeps over the repetitions; the trace is kept newest first.
pub record Runner : Type 0 where
  pub trace : List TraceRecord
  pub driver_identities : List Identity

abbrev pub same_identity : Identity → Identity → Bool
same_identity a b = str_eq a.0 b.0 && str_eq a.1 b.1

-- `if identity not in self.driver_identities: self.driver_identities.append(identity)`
abbrev pub note_identity : Identity → Runner → Runner
note_identity i r =
    if any (same_identity i) r.driver_identities
    then r
    else record r { driver_identities = r.driver_identities ++ (i ∷ []) }

-- `{model.model_id: 0 for model in scenario.models}`
abbrev pub zero_counts : List ModelConfig → Dict ℕ
zero_counts models = collect (λ m. 0) models []

unfoldable pub start_progress : {D : Type 0} → Scenario → D → Progress D
start_progress s d = record {
  driver = d;
  oracle = new_oracle s.models;
  sequence = 0;
  now_us = s.clock_start_us;
  records = [];
  selection_count = zero_counts s.models;
  engine_service_us = zero_counts s.models;
  current_wait = zero_counts s.models;
  max_wait = zero_counts s.models;
  max_consecutive = zero_counts s.models;
  last_model = none;
  consecutive = 0;
  urgent_selections = 0;
  normal_selections = 0;
  no_plan_count = 0;
}

module _ {D : Type 0} (driver : Driver D) where
  -- `for segment_turn in range(segment.turns)`, from a turn on and with a number of turns left.
  unfoldable pub run_turns : Scenario → ℕ → ℕ → Segment → ℕ → ℕ → Exec (Progress D) (Unit {0})
  run_turns s repetition segment_index segment zero turn = pure tt
  run_turns s repetition segment_index segment (suc left) turn = do
    run_turn driver s repetition segment_index segment turn
    run_turns s repetition segment_index segment left (suc turn)

  -- `for segment_index, segment in enumerate(scenario.segments)`
  unfoldable pub run_segments : Scenario → ℕ → ℕ → List Segment → Exec (Progress D) (Unit {0})
  run_segments s repetition segment_index [] = pure tt
  run_segments s repetition segment_index (segment ∷ segments) = do
    run_turns s repetition segment_index segment segment.turns 0
    run_segments s repetition (suc segment_index) segments

  module _ (digest : List PlanIdentity → String) where
    -- The turns, the end of the driver and the metrics.
    unfoldable pub run_session : Scenario → ℕ → Exec (Progress D) Metrics
    run_session s repetition = do
      run_segments s repetition 0 s.segments
      with_driver (finish_driver driver)
      p ← gets (λ p. p)
      lift (metrics digest s p)

    -- The session with a driver that has been started.
    unfoldable pub run_driver : Scenario → ℕ → D → Exec Runner Metrics
    run_driver s repetition d r =
        let (greeted, d') = handshake driver d in
        elim greeted [
          | err e ↦ (leave driver d' (err e), r)
          | ok identity ↦
              let known = note_identity identity r in
              let (initialized, d'') = initialize driver s repetition d' in
              elim initialized [
                | err e ↦ (leave driver d'' (err e), known)
                | ok _ ↦
                    let (outcome, p) = run_session s repetition (start_progress s d'') in
                    (
                      leave driver p.driver outcome,
                      record known { trace = p.records ++ known.trace },
                    )
              ]
        ]

    unfoldable pub run_repetition : Scenario → ℕ → Exec Runner Metrics
    run_repetition s repetition r = elim (driver.launch s.scenario_id repetition) [
      | not_started ↦ (err contract_error, r)
      | malformed_command ↦ (err value_error, r)
      | started d ↦ run_driver s repetition d r
    ]
