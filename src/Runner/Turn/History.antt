-- ===== src/Runner/Turn/History.antt =====
-- The turns of a repetition as the oracle plays them: an account of a trace that has no driver and no
-- runner in it.
use turn_vector_benchmark.Base.{ℕ, zero, suc, ◌+◌, ◌≡◌, true, none, some, List, [], ◌∷◌, map, ok}
use turn_vector_benchmark.Base.Dict.{Dict, lookup}
use turn_vector_benchmark.Base.Fraction.{Fraction}
use turn_vector_benchmark.Scheduler.{Candidate, at_time, Segment, Scenario}
use turn_vector_benchmark.Scheduler.Oracle.{Oracle, Decision, new_oracle, schedule, accept_receipt}
use turn_vector_benchmark.Runner.Ledgers.{fraction_map, same_dict}
use turn_vector_benchmark.Runner.Records.{
  ReceiptRecord, TraceRecord, passed, same_id, candidate_id_of, actual_by_id,
}

-- The oracle decides on the candidates of the time, and the driver named its candidate and its ledgers.
pub record IsPlanned (now : ℕ) (cs : List Candidate) (o : Oracle) (d : Decision) (o' : Oracle)
    (r : TraceRecord) : Type 0 where
  pub scheduled : schedule now cs o ≡ (ok d, o')
  pub time : r.now_us ≡ now
  pub candidates : r.candidates ≡ cs
  pub decision_class : r.decision_class ≡ d.decision_class
  pub expected : r.expected_candidate_id ≡ candidate_id_of d.selected
  pub expected_ledgers : r.expected_runnable_ledgers_us ≡ fraction_map d.runnable_ledgers
  pub candidate : same_id r.observed_candidate_id (candidate_id_of d.selected) ≡ true
  pub ledgers : same_dict r.observed_runnable_ledgers_us (fraction_map d.runnable_ledgers) ≡ true

-- The oracle accepts the receipt of a service, and the driver's ledgers afterwards are the oracle's.
pub record IsSettled (c : Candidate) (us : ℕ) (o o' : Oracle) (x : ReceiptRecord) : Type 0 where
  pub ledgers : Dict Fraction
  pub accepted : accept_receipt c.candidate_id c.model_id us o ≡ (ok ledgers, o')
  pub service : x.actual_engine_service_us ≡ us
  pub expected : x.expected_receipt_ledgers_us ≡ fraction_map ledgers
  pub agreed : same_dict x.observed_receipt_ledgers_us (fraction_map ledgers) ≡ true

-- What was played, newest first: the segment and the record of each turn, with the time and the oracle
-- after them.
pub data History (s : Scenario) : List Segment → List TraceRecord → ℕ → Oracle → Type 0 where
  opening : History s [] [] s.clock_start_us (new_oracle s.models)
  unplanned :
      {segments : List Segment} {rs : List TraceRecord} {now : ℕ} {o : Oracle} (segment : Segment)
      (cs : List Candidate) (d : Decision) (o' : Oracle) (r : TraceRecord)
      → History s segments rs now o
      → cs ≡ map (λ t. at_time t now) segment.candidates
      → IsPlanned now cs o d o' r
      → d.selected ≡ none
      → r.receipt ≡ none
      → r.status ≡ some passed
      → History s (segment ∷ segments) (r ∷ rs) (now + segment.clock_step_us) o'
  served :
      {segments : List Segment} {rs : List TraceRecord} {now : ℕ} {o : Oracle} (segment : Segment)
      (cs : List Candidate) (d : Decision) (c : Candidate) (us : ℕ) (o' o'' : Oracle)
      (r : TraceRecord) (x : ReceiptRecord)
      → History s segments rs now o
      → cs ≡ map (λ t. at_time t now) segment.candidates
      → IsPlanned now cs o d o' r
      → d.selected ≡ some c
      → lookup c.candidate_id (actual_by_id segment.candidates []) ≡ some us
      → IsSettled c us o' o'' x
      → r.receipt ≡ some x
      → r.status ≡ some passed
      → History s (segment ∷ segments) (r ∷ rs) (now + segment.clock_step_us) o''

-- A segment as often as it has turns, and the turns of all segments, newest first.
abbrev pub repeat : ℕ → Segment → List Segment → List Segment
repeat zero segment l = l
repeat (suc n) segment l = repeat n segment (segment ∷ l)

abbrev pub all_turns : List Segment → List Segment → List Segment
all_turns [] l = l
all_turns (segment ∷ segments) l = all_turns segments (repeat segment.turns segment l)
