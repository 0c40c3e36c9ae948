-- ===== src/Runner/Turn/Complete.antt =====
-- The turn from its plan on: the receipt, and the state that a passed turn leaves.
use turn_vector_benchmark.Base.{
  ℕ, suc, ◌+◌, max, ◌≡◌, refl, not, Option, none, some, List, [], ◌∷◌, inl, inr, arith, Bool-cases,
  ok,
}
use turn_vector_benchmark.Base.Dict.{Dict, lookup, insert, keys}
use turn_vector_benchmark.Base.Fraction.{Fraction}
use turn_vector_benchmark.Base.Exec.{modify, ◌>>=◌}
use turn_vector_benchmark.Scheduler.{CandidateTemplate, Candidate, Segment}
use turn_vector_benchmark.Scheduler.Choice.{DecisionClass}
use turn_vector_benchmark.Scheduler.Oracle.{
  Oracle, Decision, runnable_models, accept_receipt, clear_no_plan,
}
use turn_vector_benchmark.Scheduler.Oracle.Sync.{IsValid}
use turn_vector_benchmark.Scheduler.Oracle.Receipt.{receipt_total}
use turn_vector_benchmark.Runner.Outcomes.{Ends, Ends-err, Ends-ok, Ends-conformance, with_step}
use turn_vector_benchmark.Runner.Ledgers.{fraction_map, same_dict}
use turn_vector_benchmark.Runner.Messages.{receipt_message, receipt_response}
use turn_vector_benchmark.Runner.Messages.Reported.{receipt-Reports}
use turn_vector_benchmark.Runner.Driver.{Driver, Escapes, unwritable, request}
use turn_vector_benchmark.Runner.Turn.{
  fail_when, count_waits, count_selection, compare_receipt, settle_turn, complete_turn,
}
use turn_vector_benchmark.Runner.Turn.History.{IsSettled}
use turn_vector_benchmark.Runner.Records.{
  ReceiptRecord, TraceRecord, passed, Progress, amend, row, count_if, is_urgent_class, actual_by_id,
  waits, longest_waits,
}
use turn_vector_benchmark.Runner.Turn.Plan.{request-Reports}

-- The record of a turn that has passed.
abbrev pub passed_record : TraceRecord → TraceRecord
passed_record r = record r { status = some passed }

abbrev pub settled_record : ReceiptRecord → TraceRecord → TraceRecord
settled_record x r = record r { receipt = some x; status = some passed }

module _ {D : Type 0} where
  pub count_waits-returns :
      (cs : List Candidate) (sel : Option Candidate) (p : Progress D) (l : Dict ℕ)
      → longest_waits
          (runnable_models cs)
          sel
          (waits (runnable_models cs) sel p.current_wait)
          p.max_wait
        ≡ ok l
      → count_waits cs sel p ≡ (
        ok tt,
        record p { current_wait = waits (runnable_models cs) sel p.current_wait; max_wait = l },
      )
  unfolding count_waits
  count_waits-returns cs sel p l e = ground arith

  -- The state after the counters of a selection.
  abbrev pub counted_selection : DecisionClass → Candidate → ℕ → ℕ → ℕ → ℕ → Progress D → Progress D
  counted_selection k c a u b m p = record p {
    urgent_selections = count_if (is_urgent_class k) p.urgent_selections;
    normal_selections = count_if (not (is_urgent_class k)) p.normal_selections;
    selection_count = insert c.model_id (suc a) p.selection_count;
    engine_service_us = insert c.model_id (b + u) p.engine_service_us;
    last_model = some c.model_id;
    consecutive = row c.model_id p.last_model p.consecutive;
    max_consecutive =
        insert c.model_id (max m (row c.model_id p.last_model p.consecutive)) p.max_consecutive;
  }

  pub count_selection-returns :
      (k : DecisionClass) (c : Candidate) (ts : List CandidateTemplate) (p : Progress D)
      (a u b m : ℕ)
      → lookup c.model_id p.selection_count ≡ some a
      → lookup c.candidate_id (actual_by_id ts []) ≡ some u
      → lookup c.model_id p.engine_service_us ≡ some b
      → lookup c.model_id p.max_consecutive ≡ some m
      → count_selection k c ts p ≡ (ok u, counted_selection k c a u b m p)
  unfolding count_selection
  count_selection-returns k c ts p a u b m ha hu hb hm = ground arith

-- What an accepted receipt leaves.
pub record Settling {D : Type 0} (c : Candidate) (us : ℕ) (p p' : Progress D) : Type 0 where
  pub driver : D
  pub oracle : Oracle
  pub receipt : ReceiptRecord
  pub reached : p' ≡ record p {
    driver = driver;
    oracle = oracle;
    records = amend (settled_record receipt) p.records;
  }
  pub valid : IsValid oracle
  pub idle : oracle.pending ≡ none
  pub weights : oracle.weights ≡ p.oracle.weights
  pub settled : IsSettled c us p.oracle oracle receipt

amend_twice :
    (f g : TraceRecord → TraceRecord) (rs : List TraceRecord)
    → amend f (amend g rs) ≡ amend (λ r. f (g r)) rs
amend_twice f g [] = refl
amend_twice f g (r ∷ rs) = refl

module _ {D : Type 0} (driver : Driver D) (c : Candidate) (us : ℕ) where
  settle_turn-accept :
      (p : Progress D) (ledgers : Dict Fraction) (o : Oracle)
      → accept_receipt c.candidate_id c.model_id us p.oracle ≡ (ok ledgers, o)
      → settle_turn driver c us p ≡ compare_receipt driver c us ledgers (record p { oracle = o })
  unfolding settle_turn
  settle_turn-accept p ledgers o e = ground arith

  compare_settles :
      (p : Progress D) (ledgers : Dict Fraction) (o : Oracle)
      → accept_receipt c.candidate_id c.model_id us p.oracle ≡ (ok ledgers, o)
      → IsValid o
      → o.pending ≡ none
      → o.weights ≡ p.oracle.weights
      → Ends
          (Escapes driver)
          (λ _. Settling c us p)
          (compare_receipt driver c us ledgers (record p { oracle = o }))
  unfolding compare_receipt fail_when
  compare_settles p ledgers o accepted valid idle weights =
      let message = receipt_message p.sequence c us in
      let models = keys (fraction_map ledgers) in
      elim (Bool-cases (driver.writes ledgers)) [
        | inr long ↦ rw long (Ends-err (inr (unwritable ledgers long)))
        | inl written ↦ rw written (
            with_step (request driver message p.driver).0 _
              (request-Reports driver message p.driver)
              λ response _.
                with_step (receipt_response driver.reading p.sequence models response) _
                  (receipt-Reports driver p.sequence models response)
                  λ observed _. elim (Bool-cases (same_dict observed (fraction_map ledgers))) [
                    | inr other ↦ rw other Ends-conformance
                    | inl same ↦ rw same (
                        Ends-ok (record {
                          driver = (request driver message p.driver).1;
                          oracle = o;
                          receipt = record {
                            actual_engine_service_us = us;
                            expected_receipt_ledgers_us = fraction_map ledgers;
                            observed_receipt_ledgers_us = observed;
                          };
                          reached = rw (amend_twice _ _ p.records) refl;
                          valid = valid;
                          idle = idle;
                          weights = weights;
                          settled = record {
                            ledgers = ledgers;
                            accepted = accepted;
                            service = refl;
                            expected = refl;
                            agreed = same;
                          };
                        }))
                  ])
      ]

  pub settle_settles :
      (p : Progress D)
      → IsValid p.oracle
      → p.oracle.pending ≡ some c
      → Ends (Escapes driver) (λ _. Settling c us p) (settle_turn driver c us p)
  settle_settles p valid pending =
      let t = receipt_total c us p.oracle valid pending in
      rw (settle_turn-accept p _ _ t.returned)
        (compare_settles p _ _ t.returned t.still_valid refl refl)

module _ {D : Type 0} (driver : Driver D) (segment : Segment) (cs : List Candidate)
    (d : Decision) where
  abbrev pub waited : Dict ℕ → Progress D → Progress D
  waited l p = record p {
    current_wait = waits (runnable_models cs) d.selected p.current_wait;
    max_wait = l;
  }

  -- The end of a turn without a plan.
  pub complete-no_plan :
      (p : Progress D) (l : Dict ℕ)
      → d.selected ≡ none
      → p.oracle.pending ≡ none
      → count_waits cs d.selected p ≡ (ok tt, waited l p)
      → complete_turn driver segment cs d p ≡ (
        ok tt,
        record (waited l p) {
          no_plan_count = suc p.no_plan_count;
          records = amend passed_record p.records;
          now_us = p.now_us + segment.clock_step_us;
        },
      )
  unfolding complete_turn clear_no_plan
  complete-no_plan p l none_selected idle e = ground arith

  -- The end of a turn with a plan, up to its receipt.
  pub complete-plan :
      (p : Progress D) (l : Dict ℕ) (c : Candidate) (u : ℕ) (q : Progress D)
      → d.selected ≡ some c
      → count_waits cs d.selected p ≡ (ok tt, waited l p)
      → count_selection d.decision_class c segment.candidates (waited l p) ≡ (ok u, q)
      → complete_turn driver segment cs d p
        ≡ (settle_turn driver c u >>= λ _.
              modify (λ p. record p { now_us = p.now_us + segment.clock_step_us }))
            q
  unfolding complete_turn
  complete-plan p l c u q e h k = ground arith
