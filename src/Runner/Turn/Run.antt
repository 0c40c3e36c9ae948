-- ===== src/Runner/Turn/Run.antt =====
-- A whole turn of `_run_repetition`: it passes with the state ready for the next turn, or raises one of
-- the exceptions that `_run_scenario` catches or that the driver brings about.
use turn_vector_benchmark.Base.{
  ℕ, suc, ◌+◌, String, ◌≡◌, refl, Bool, not, none, some, List, ◌∷◌, map, inl, inr, arith, All,
  Option-cases, ap, ◌∙◌,
}
use turn_vector_benchmark.Base.Dict.{Dict, insert}
use turn_vector_benchmark.Base.Exec.{modify}
use turn_vector_benchmark.Scheduler.{ModelConfig, Candidate, at_time, Segment, Scenario}
use turn_vector_benchmark.Scheduler.Oracle.{Oracle, Decision, runnable_models}
use turn_vector_benchmark.Scheduler.Oracle.Sync.{AreKnown}
use turn_vector_benchmark.Scheduler.Scenarios.{model_ids}
use turn_vector_benchmark.Scheduler.Scenarios.Accepted.{IsCandidate}
use turn_vector_benchmark.Runner.Outcomes.{Ends, Ends-ok, with_rest}
use turn_vector_benchmark.Runner.Driver.{Driver, Escapes}
use turn_vector_benchmark.Runner.Turn.{complete_turn, plan_turn, run_turn, settle_turn}
use turn_vector_benchmark.Runner.Records.{
  ReceiptRecord, TraceRecord, Progress, count_if, is_urgent_class,
}
use turn_vector_benchmark.Runner.Turn.Counters.{
  Tracks, Found-insert, collect-Found, total-insert, waits_counted,
}
use turn_vector_benchmark.Runner.Turn.History.{IsPlanned, History, unplanned, served}
use turn_vector_benchmark.Runner.Turn.Plan.{Planned, planned, plan-Planned}
use turn_vector_benchmark.Runner.Turn.Ready.{IsReady, offered_known}
use turn_vector_benchmark.Runner.Turn.Complete.{
  passed_record, settled_record, count_waits-returns, counted_selection, count_selection-returns,
  settle_settles, waited, complete-no_plan, complete-plan,
}

-- The records so far are the history of the turns so far.
abbrev pub IsPlayed : {D : Type 0} → Scenario → List Segment → Progress D → Type 0
IsPlayed s l p = History s l p.records p.now_us p.oracle

-- What a passed turn leaves.
abbrev pub Next :
    {D : Type 0}
    → List ModelConfig
    → Scenario
    → Segment
    → Progress D
    → Unit {0}
    → Progress D
    → Type 0
Next ms s segment p _ p' =
    IsReady ms p'
    × (p'.sequence ≡ suc p.sequence)
    × ((l : List Segment) → IsPlayed s l p → IsPlayed s (segment ∷ l) p')

count_if_both : (b : Bool) (x y : ℕ) → count_if b x + count_if (not b) y ≡ suc (x + y)
count_if_both b x y = ground arith

-- The record of a turn tells of its plan whatever its receipt and status.
passed-IsPlanned :
    {now : ℕ} {cs : List Candidate} {o o' : Oracle} {d : Decision} (r : TraceRecord)
    → IsPlanned now cs o d o' r
    → IsPlanned now cs o d o' (passed_record r)
passed-IsPlanned r a = record {
  scheduled = a.scheduled;
  time = a.time;
  candidates = a.candidates;
  decision_class = a.decision_class;
  expected = a.expected;
  expected_ledgers = a.expected_ledgers;
  candidate = a.candidate;
  ledgers = a.ledgers;
}

settled-IsPlanned :
    {now : ℕ} {cs : List Candidate} {o o' : Oracle} {d : Decision} (r : TraceRecord)
    (x : ReceiptRecord)
    → IsPlanned now cs o d o' r
    → IsPlanned now cs o d o' (settled_record x r)
settled-IsPlanned r x a = record {
  scheduled = a.scheduled;
  time = a.time;
  candidates = a.candidates;
  decision_class = a.decision_class;
  expected = a.expected;
  expected_ledgers = a.expected_ledgers;
  candidate = a.candidate;
  ledgers = a.ledgers;
}

module _ {D : Type 0} (driver : Driver D) (ms : List ModelConfig) (segment : Segment)
    (ts_ok : All (IsCandidate (model_ids ms)) segment.candidates) (s : Scenario) (now : ℕ) where
  abbrev pub cs : List Candidate
  cs = map (λ t. at_time t now) segment.candidates

  -- The counters track every model after an update of one.
  Tracks-insert :
      (d : Dict ℕ) (k : String) (n : ℕ)
      → Tracks (model_ids ms) d
      → Tracks (model_ids ms) (insert k n d)
  Tracks-insert d k n t j h = Found-insert j k n d (t j h)

  idle_turn :
      (p p' : Progress D) (d : Decision)
      → cs ≡ map (λ t. at_time t p.now_us) segment.candidates
      → IsReady ms p
      → Planned p cs d p'
      → d.selected ≡ none
      → Ends (Escapes driver) (Next ms s segment p) (complete_turn driver segment cs d p')
  idle_turn p p' d at_now ready plan e =
      let (l, h, held) =
        waits_counted (runnable_models cs) d.selected p.current_wait p.max_wait ready.waits in
      let q = planned p plan in
      rw plan.reached (
        rw
          (complete-no_plan driver segment cs d q l e (plan.pending ∙ e)
            (count_waits-returns cs d.selected q l h))
          (Ends-ok (
            record {
              valid = plan.valid;
              idle = plan.pending ∙ e;
              weights = plan.weights ∙ ready.weights;
              selections = ready.selections;
              services = ready.services;
              streaks = ready.streaks;
              waits = held;
              counted = omega (arith, ready.counted);
              selected = ready.selected;
              traced = ap suc ready.traced;
            },
            refl,
            λ l h.
                unplanned segment cs d plan.oracle (passed_record plan.turn) h at_now
                  (passed-IsPlanned plan.turn plan.asked) e plan.no_receipt refl,
          )))

  serve_turn :
      (p p' : Progress D) (d : Decision) (c : Candidate)
      → cs ≡ map (λ t. at_time t p.now_us) segment.candidates
      → IsReady ms p
      → Planned p cs d p'
      → d.selected ≡ some c
      → Ends (Escapes driver) (Next ms s segment p) (complete_turn driver segment cs d p')
  serve_turn p p' d c at_now ready plan e =
      let (l, h, held) =
        waits_counted (runnable_models cs) d.selected p.current_wait p.max_wait ready.waits in
      let q = planned p plan in
      let (known, (u, hu)) = offered_known ms segment.candidates now c ts_ok (plan.offered c e) in
      let (a, ha) = ready.selections c.model_id known in
      let (b, hb) = ready.services c.model_id known in
      let (m, hm) = ready.streaks c.model_id known in
      let q' = waited driver segment cs d l q in
      let counted = counted_selection d.decision_class c a u b m q' in
      rw plan.reached (
        rw
          (complete-plan driver segment cs d q l c u counted e
            (count_waits-returns cs d.selected q l h)
            (count_selection-returns d.decision_class c segment.candidates q' a u b m ha hu hb hm))
          (with_rest (settle_turn driver c u)
            (λ _. modify (λ p. record p { now_us = p.now_us + segment.clock_step_us })) counted
            (settle_settles driver c u counted plan.valid (plan.pending ∙ e))
            λ _ s x. rw x.reached (
              Ends-ok (
                record {
                  valid = x.valid;
                  idle = x.idle;
                  weights = x.weights ∙ plan.weights ∙ ready.weights;
                  selections = Tracks-insert p.selection_count c.model_id (suc a) ready.selections;
                  services = Tracks-insert p.engine_service_us c.model_id (b + u) ready.services;
                  streaks = Tracks-insert p.max_consecutive c.model_id _ ready.streaks;
                  waits = held;
                  counted = omega (
                    arith,
                    ready.counted,
                    count_if_both (is_urgent_class d.decision_class) p.urgent_selections
                        p.normal_selections,
                  );
                  selected = omega (
                    arith,
                    ready.selected,
                    total-insert c.model_id a (suc a) p.selection_count ha,
                    count_if_both (is_urgent_class d.decision_class) p.urgent_selections
                        p.normal_selections,
                  );
                  traced = ap suc ready.traced;
                },
                refl,
                λ l h.
                    served segment cs d c u plan.oracle x.oracle
                      (settled_record x.receipt plan.turn) x.receipt h at_now
                      (settled-IsPlanned plan.turn x.receipt plan.asked) e hu x.settled refl refl,
              ))))

-- A turn from a ready state, on candidates that the scenario admits.
module _ {D : Type 0} (driver : Driver D) (ms : List ModelConfig) (segment : Segment)
    (ts_ok : All (IsCandidate (model_ids ms)) segment.candidates) where
  offered_weighed :
      (p : Progress D)
      → IsReady ms p
      → AreKnown p.oracle (map (λ t. at_time t p.now_us) segment.candidates)
  offered_weighed p ready c m =
      let (h, _) = offered_known ms segment.candidates p.now_us c ts_ok m in
      let (w, f) = collect-Found (λ (m : ModelConfig). m.weight) ms c.model_id h in
      (w, rw ready.weights f)

  pub turn-Next :
      (s : Scenario) (i j k : ℕ) (p : Progress D)
      → IsReady ms p
      → Ends (Escapes driver) (Next ms s segment p) (run_turn driver s i j segment k p)
  unfolding run_turn
  turn-Next s i j k p ready =
      let cs = map (λ t. at_time t p.now_us) segment.candidates in
      with_rest (plan_turn driver s i j k segment cs) (complete_turn driver segment cs) p
        (plan-Planned driver s i j k segment cs p ready.valid (offered_weighed p ready) ready.idle)
        λ d p' plan. elim (Option-cases d.selected) [
          | inl e ↦ idle_turn driver ms segment ts_ok s p.now_us p p' d refl ready plan e
          | inr (c, e) ↦ serve_turn driver ms segment ts_ok s p.now_us p p' d c refl ready plan e
        ]
