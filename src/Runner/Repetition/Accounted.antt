-- ===== src/Runner/Repetition/Accounted.antt =====
-- What `_run_repetition` of turnvector_benchmark/runner.py does with a scenario that `load_scenario`
-- admits, whatever the driver does.
use turn_vector_benchmark.Base.{
  ℕ, zero, suc, ◌+◌, ◌<◌, String, ◌≡◌, refl, List, [], ◌∷◌, ◌++◌, inr, All, arith, length, ◌∙◌,
}
use turn_vector_benchmark.Base.Dict.{Dict, insert}
use turn_vector_benchmark.Base.Exec.{gets, lift, ◌>>=◌, ◌>>◌}
use turn_vector_benchmark.Scheduler.{ModelConfig, Segment, Scenario}
use turn_vector_benchmark.Scheduler.Oracle.{Oracle, new_oracle, collect}
use turn_vector_benchmark.Scheduler.Oracle.Turns.{new_oracle-IsValid}
use turn_vector_benchmark.Scheduler.Scenarios.{model_ids, total_turns}
use turn_vector_benchmark.Scheduler.Scenarios.Accepted.{IsModel, IsSegment, IsScenario}
use turn_vector_benchmark.Runner.Outcomes.{
  Ends, Ends-err, Ends-ok, Ends-contract, with_step, with_rest, with_end,
}
use turn_vector_benchmark.Runner.Driver.{
  Driver, Launch, started, not_started, malformed_command, malformed, Escapes, handshake,
  initialize, finish_driver,
}
use turn_vector_benchmark.Runner.Messages.{Identity}
use turn_vector_benchmark.Runner.Metrics.{PlanIdentity, Metrics, total, metrics}
use turn_vector_benchmark.Runner.Metrics.Total.{metrics_total}
use turn_vector_benchmark.Runner.Turn.{run_turn, with_driver}
use turn_vector_benchmark.Runner.Records.{TraceRecord, Progress}
use turn_vector_benchmark.Runner.Turn.Counters.{keys-Found, collect-Found}
use turn_vector_benchmark.Runner.Turn.Ready.{IsReady}
use turn_vector_benchmark.Runner.Turn.Run.{IsPlayed, turn-Next}
use turn_vector_benchmark.Runner.Turn.History.{History, opening, repeat, all_turns}
use turn_vector_benchmark.Runner.Repetition.Exchanges.{
  finish_driver-Reports, leave-Ends, with_leave, handshake-Ends, initialize-Ends,
}
use turn_vector_benchmark.Runner.Repetition.{
  Runner, note_identity, zero_counts, start_progress, run_turns, run_segments, run_session,
  run_driver, run_repetition,
}

-- Ready after a number of turns, which make a list of played turns longer.
abbrev After :
    {D : Type 0}
    → List ModelConfig
    → Scenario
    → (List Segment → List Segment)
    → Progress D
    → ℕ
    → Unit {0}
    → Progress D
    → Type 0
After ms s f p n _ p' =
    IsReady ms p'
    × (p'.sequence ≡ p.sequence + n)
    × ((l : List Segment) → IsPlayed s l p → IsPlayed s (f l) p')

module _ {D : Type 0} (driver : Driver D) (ms : List ModelConfig) (s : Scenario) (i : ℕ) where
  turns-After :
      (j : ℕ) (segment : Segment) (left k : ℕ) (p : Progress D)
      → IsSegment (model_ids ms) segment
      → IsReady ms p
      → Ends
          (Escapes driver)
          (After ms s (repeat left segment) p left)
          (run_turns driver s i j segment left k p)
  unfolding run_turns
  turns-After j segment zero k p fits ready = Ends-ok (ready, omega arith, λ l h. h)
  turns-After j segment (suc left) k p fits ready =
      with_rest (run_turn driver s i j segment k) (λ _. run_turns driver s i j segment left (suc k))
        p (turn-Next driver ms segment fits.candidates s i j k p ready)
        λ _ q (ready', one, step).
          with_end (turns-After j segment left (suc k) q fits ready')
            λ _ r (done, rest, steps). (done, omega (arith, one, rest), λ l h. steps _ (step l h))

  segments-After :
      (j : ℕ) (segments : List Segment) (p : Progress D)
      → All (IsSegment (model_ids ms)) segments
      → IsReady ms p
      → Ends
          (Escapes driver)
          (After ms s (all_turns segments) p (total_turns segments))
          (run_segments driver s i j segments p)
  unfolding run_segments
  segments-After j [] p fits ready = Ends-ok (ready, omega arith, λ l h. h)
  segments-After j (segment ∷ segments) p fits ready =
      with_rest (run_turns driver s i j segment segment.turns 0)
        (λ _. run_segments driver s i (suc j) segments) p
        (turns-After j segment segment.turns 0 p fits.0 ready)
        λ _ q (ready', one, step).
          with_end (segments-After (suc j) segments q fits.1 ready')
            λ _ r (done, rest, steps). (done, omega (arith, one, rest), λ l h. steps _ (step l h))

-- The metrics count every turn of the scenario once: by an urgent plan, by another plan or by none; and
-- every selection is counted for one model.
pub record IsAccounted (s : Scenario) (m : Metrics) : Type 0 where
  pub turns : m.turns ≡ total_turns s.segments
  pub counted : m.urgent_selection_count + m.normal_selection_count + m.no_plan_count ≡ m.turns
  pub selected : total m.selection_count ≡ m.urgent_selection_count + m.normal_selection_count

-- The metrics of a session, and the records that it leaves.
pub record HasPassed {D : Type 0} (s : Scenario) (m : Metrics) (p : Progress D) : Type 0 where
  pub accounted : IsAccounted s m
  pub traced : length p.records ≡ total_turns s.segments
  pub history : IsPlayed s (all_turns s.segments []) p

-- A repetition that has passed, with one record for each of its turns: they are the history of the turns
-- of the scenario.
pub record IsRepeated (s : Scenario) (before : Runner) (m : Metrics) (r : Runner) : Type 0 where
  pub accounted : IsAccounted s m
  pub records : List TraceRecord
  pub extended : r.trace ≡ records ++ before.trace
  pub traced : length records ≡ total_turns s.segments
  pub now_us : ℕ
  pub oracle : Oracle
  pub history : History s (all_turns s.segments []) records now_us oracle

positive_weights : (ms : List ModelConfig) → All IsModel ms → All (λ m. 0 < m.weight) ms
positive_weights [] h = tt
positive_weights (m ∷ ms) h = (omega (arith, h.0.positive), positive_weights ms h.1)

insert_zero : (k : String) (d : Dict ℕ) → total d ≡ 0 → total (insert k 0 d) ≡ 0
unfolding insert
insert_zero k [] h = refl
insert_zero k ((j, n) ∷ d) h = ground (arith, insert_zero k d)

collect_zero :
    (ms : List ModelConfig) (d : Dict ℕ) → total d ≡ 0 → total (collect (λ m. 0) ms d) ≡ 0
collect_zero [] d h = h
collect_zero (m ∷ ms) d h = collect_zero ms (insert m.model_id 0 d) (insert_zero m.model_id d h)

total-zero_counts : (ms : List ModelConfig) → total (zero_counts ms) ≡ 0
total-zero_counts ms = collect_zero ms [] refl

start-IsReady :
    {D : Type 0} (s : Scenario) (d : D) → IsScenario s → IsReady s.models (start_progress s d)
unfolding start_progress new_oracle
start-IsReady s d fits = record {
  valid = new_oracle-IsValid s.models (positive_weights s.models fits.models);
  idle = refl;
  weights = refl;
  selections = λ k h. collect-Found (λ m. 0) s.models k h;
  services = λ k h. collect-Found (λ m. 0) s.models k h;
  streaks = λ k h. collect-Found (λ m. 0) s.models k h;
  waits = λ k m. keys-Found k (zero_counts s.models) m;
  counted = omega arith;
  selected = total-zero_counts s.models;
  traced = refl;
}

start-IsPlayed : {D : Type 0} (s : Scenario) (d : D) → IsPlayed s [] (start_progress s d)
unfolding start_progress
start-IsPlayed s d = opening

note_identity-trace : (i : Identity) (r : Runner) → (note_identity i r).trace ≡ r.trace
note_identity-trace i r = ground arith

from_start :
    {D : Type 0} (s : Scenario) (d : D) (p : Progress D)
    → p.sequence ≡ (start_progress s d).sequence + total_turns s.segments
    → p.sequence ≡ total_turns s.segments
unfolding start_progress
from_start s d p h = omega (arith, h)

module _ {D : Type 0} (driver : Driver D) where
  module _ (digest : List PlanIdentity → String) (s : Scenario) (fits : IsScenario s) (i : ℕ) where
    session_passes :
        (d : D)
        → Ends (Escapes driver) (HasPassed s) (run_session driver digest s i (start_progress s d))
    unfolding run_session
    session_passes d =
        with_rest (run_segments driver s i 0 s.segments)
          (λ _.
            with_driver (finish_driver driver)
            >> (gets (λ p. p) >>= λ p. lift (metrics digest s p)))
          (start_progress s d)
          (segments-After driver s.models s i 0 s.segments (start_progress s d) fits.segments
            (start-IsReady s d fits))
          λ _ p (ready, reached, play).
            with_step (finish_driver driver p.driver).0 _ (finish_driver-Reports driver p.driver)
              λ _ _.
                let q : Progress D = record p { driver = (finish_driver driver p.driver).1 } in
                let (_, _, e) =
                  metrics_total digest s q fits.some_models fits.models ready.services in
                let all_turns : p.sequence ≡ total_turns s.segments = from_start s d p reached in
                rw e (
                  Ends-ok (record {
                    accounted = record {
                      turns = all_turns;
                      counted = ready.counted;
                      selected = ready.selected;
                    };
                    traced = ready.traced ∙ all_turns;
                    history = play [] (start-IsPlayed s d);
                  }))

    driver_repeats :
        (d : D) (r : Runner)
        → Ends (Escapes driver) (IsRepeated s r) (run_driver driver digest s i d r)
    unfolding run_driver
    driver_repeats d r =
        let d' = (handshake driver d).1 in
        with_leave driver d' (handshake driver d).0 _
          (record { reported = (handshake-Ends driver d).reported })
          λ identity _.
            let d'' = (initialize driver s i d').1 in
            with_leave driver d'' (initialize driver s i d').0 _
              (record { reported = (initialize-Ends driver s i d').reported })
              λ _ _.
                let p = start_progress s d'' in
                let passed = session_passes d'' in
                leave-Ends driver (run_session driver digest s i p).1.driver
                  (run_session driver digest s i p).0 _
                  (record {
                    reported = passed.reported;
                    returned = λ m e.
                        let h = passed.returned m e in
                        record {
                          accounted = h.accounted;
                          records = (run_session driver digest s i p).1.records;
                          extended = rw (note_identity-trace identity r) refl;
                          traced = h.traced;
                          now_us = (run_session driver digest s i p).1.now_us;
                          oracle = (run_session driver digest s i p).1.oracle;
                          history = h.history;
                        };
                  })

    pub run_repetition-Ends :
        (r : Runner) → Ends (Escapes driver) (IsRepeated s r) (run_repetition driver digest s i r)
    unfolding run_repetition
    run_repetition-Ends r = launch (driver.launch s.scenario_id i) refl
      where
        launch :
            (l : Launch D)
            → driver.launch s.scenario_id i ≡ l
            → Ends (Escapes driver) (IsRepeated s r) (run_repetition driver digest s i r)
        launch not_started e = rw (e, run_repetition) Ends-contract
        launch malformed_command e =
            rw (e, run_repetition) (Ends-err (inr (malformed s.scenario_id i e)))
        launch (started d) e = rw (e, run_repetition) (driver_repeats d r)
