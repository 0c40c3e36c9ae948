-- ===== src/Runner/Turn.antt =====
-- One turn of `_run_repetition` in turnvector_benchmark/runner.py.
pub mod Counters
pub mod History
pub mod Plan
pub mod Ready
pub mod Complete
pub mod Run
use turn_vector_benchmark.Base.{
  ℕ, suc, ◌+◌, max, String, Bool, true, false, not, ◌&&◌, Option, none, some, List, [], ◌∷◌, map,
  keep_if, str_eq, Result, ok, err, key_error, contract_error, conformance_error, value_error,
}
use turn_vector_benchmark.Base.Dict.{Dict, lookup, insert, or_key_error, keys}
use turn_vector_benchmark.Base.Sets.{contains}
use turn_vector_benchmark.Base.Exec.{Exec, pure, gets, lift, modify, raise_when, ◌>>=◌, ◌>>◌}
use turn_vector_benchmark.Base.Fraction.{Fraction}
use turn_vector_benchmark.Scheduler.{
  ResourceMode, CandidateTemplate, Candidate, at_time, Segment, Scenario,
}
use turn_vector_benchmark.Scheduler.Choice.{DecisionClass, urgent, normal, no_plan}
use turn_vector_benchmark.Scheduler.Oracle.{
  Oracle, Decision, runnable_models, schedule, accept_receipt, clear_no_plan,
}
use turn_vector_benchmark.Runner.Ledgers.{fraction_map, same_dict}
use turn_vector_benchmark.Runner.Messages.{
  schedule_message, receipt_message, plan_response, receipt_response,
}
use turn_vector_benchmark.Runner.Driver.{Driver, request}
use turn_vector_benchmark.Runner.Records.{
  Failure, Progress, ReceiptRecord, RecordStatus, TraceRecord, actual_by_id, amend, candidate_id_of,
  candidate_mismatch, count_if, failed, is_passed_over, is_urgent_class, longest_waits, passed,
  receipt_mismatch, row, runnable_mismatch, same_id, update, waits,
}

module _ {D : Type 0} where
  abbrev pub with_driver : {A : Type 0} → Exec D A → Exec (Progress D) A
  with_driver m p = let (r, d) = m p.driver in (r, record p { driver = d })

  abbrev pub with_oracle : {A : Type 0} → Exec Oracle A → Exec (Progress D) A
  with_oracle m p = let (r, o) = m p.oracle in (r, record p { oracle = o })

  -- `record["status"] = status` of the turn's record
  abbrev pub mark : RecordStatus → Exec (Progress D) (Unit {0})
  mark status =
      modify (λ p. record p { records = amend (λ r. record r { status = some status }) p.records })

  -- `if bad: record["status"] = "failed"; ...; raise ConformanceError(...)`
  unfoldable pub fail_when : Bool → Failure → Exec (Progress D) (Unit {0})
  fail_when true failure = do mark (failed failure); raise_when true conformance_error
  fail_when false failure = pure tt

  unfoldable pub count_waits : List Candidate → Option Candidate → Exec (Progress D) (Unit {0})
  count_waits candidates selected = do
    p ← gets (λ p. p)
    let eligible_models = runnable_models candidates
    let current = waits eligible_models selected p.current_wait
    longest ← lift (longest_waits eligible_models selected current p.max_wait)
    modify (λ p. record p { current_wait = current; max_wait = longest })

  abbrev pub count_class : DecisionClass → Progress D → Progress D
  count_class decision_class p = record p {
    urgent_selections = count_if (is_urgent_class decision_class) p.urgent_selections;
    normal_selections = count_if (not (is_urgent_class decision_class)) p.normal_selections;
  }

  -- The counters of a selection, and the service that the scenario lets it take.
  unfoldable pub count_selection :
      DecisionClass → Candidate → List CandidateTemplate → Exec (Progress D) ℕ
  count_selection decision_class c templates = do
    modify (count_class decision_class)
    p ← gets (λ p. p)
    selection ← lift (update suc c.model_id p.selection_count)
    modify (λ p. record p { selection_count = selection })
    actual_service ← lift (or_key_error (lookup c.candidate_id (actual_by_id templates [])))
    service ← lift (update (λ n. n + actual_service) c.model_id p.engine_service_us)
    let in_row = row c.model_id p.last_model p.consecutive
    modify (λ p. record p {
      engine_service_us = service;
      last_model = some c.model_id;
      consecutive = in_row;
    })
    longest ← lift (update (λ n. max n in_row) c.model_id p.max_consecutive)
    modify (λ p. record p { max_consecutive = longest })
    pure actual_service

  module _ (driver : Driver D) where
    -- The driver is told the service of the selected candidate, and its ledgers are compared.
    unfoldable pub compare_receipt : Candidate → ℕ → Dict Fraction → Exec (Progress D) (Unit {0})
    compare_receipt c actual_service ledgers = do
      raise_when (not (driver.writes ledgers)) value_error
      p ← gets (λ p. p)
      response ← with_driver (request driver (receipt_message p.sequence c actual_service))
      let expected = fraction_map ledgers
      observed ← lift (receipt_response driver.reading p.sequence (keys expected) response)
      let receipt : ReceiptRecord = record {
        actual_engine_service_us = actual_service;
        expected_receipt_ledgers_us = expected;
        observed_receipt_ledgers_us = observed;
      }
      modify
          (λ p. record p { records = amend (λ r. record r { receipt = some receipt }) p.records })
      fail_when (not (same_dict observed expected)) receipt_mismatch
      mark passed

    unfoldable pub settle_turn : Candidate → ℕ → Exec (Progress D) (Unit {0})
    settle_turn c actual_service = do
      ledgers ← with_oracle (accept_receipt c.candidate_id c.model_id actual_service)
      compare_receipt c actual_service ledgers

    -- The driver is asked for the plan of the turn, and its answer is compared with the oracle's.
    unfoldable pub compare_plan :
        Scenario → ℕ → ℕ → ℕ → Segment → List Candidate → Decision → Exec (Progress D) Decision
    compare_plan s repetition segment_index segment_turn segment candidates decision = do
      p ← gets (λ p. p)
      let message = schedule_message p.sequence p.now_us segment.resource_mode candidates
      response ← with_driver (request driver message)
      let expected = fraction_map decision.runnable_ledgers
      observed ← lift (
          plan_response driver.reading (driver.writes decision.runnable_ledgers) p.sequence
            (keys expected) response)
      let turn_record : TraceRecord = record {
        scenario_id = s.scenario_id;
        repetition = repetition;
        segment = segment_index;
        segment_turn = segment_turn;
        sequence = p.sequence;
        now_us = p.now_us;
        resource_mode = segment.resource_mode;
        candidates = candidates;
        decision_class = decision.decision_class;
        expected_candidate_id = candidate_id_of decision.selected;
        observed_candidate_id = observed.0;
        expected_runnable_ledgers_us = expected;
        observed_runnable_ledgers_us = observed.1;
        receipt = none;
        status = none;
      }
      modify (λ p. record p { records = turn_record ∷ p.records })
      fail_when (not (same_dict observed.1 expected)) runnable_mismatch
      fail_when (not (same_id observed.0 (candidate_id_of decision.selected))) candidate_mismatch
      pure decision

    unfoldable pub plan_turn :
        Scenario → ℕ → ℕ → ℕ → Segment → List Candidate → Exec (Progress D) Decision
    plan_turn s repetition segment_index segment_turn segment candidates = do
      modify (λ p. record p { sequence = suc p.sequence })
      now_us ← gets (λ p. p.now_us)
      decision ← with_oracle (schedule now_us candidates)
      compare_plan s repetition segment_index segment_turn segment candidates decision

    abbrev pub finish_turn : Segment → Decision → Exec (Progress D) (Unit {0})
    finish_turn segment decision = elim decision.selected [
      | none ↦ (do
        modify (λ p. record p { no_plan_count = suc p.no_plan_count })
        with_oracle clear_no_plan
        mark passed)
      | some c ↦ (do
        actual_service ← count_selection decision.decision_class c segment.candidates
        settle_turn c actual_service)
    ]

    -- The turn from the agreed plan on.
    unfoldable pub complete_turn :
        Segment → List Candidate → Decision → Exec (Progress D) (Unit {0})
    complete_turn segment candidates decision = do
      count_waits candidates decision.selected
      finish_turn segment decision
      modify (λ p. record p { now_us = p.now_us + segment.clock_step_us })

    unfoldable pub run_turn : Scenario → ℕ → ℕ → Segment → ℕ → Exec (Progress D) (Unit {0})
    run_turn s repetition segment_index segment segment_turn = do
      now_us ← gets (λ p. p.now_us)
      let candidates = map (λ t. at_time t now_us) segment.candidates
      decision ← plan_turn s repetition segment_index segment_turn segment candidates
      complete_turn segment candidates decision
