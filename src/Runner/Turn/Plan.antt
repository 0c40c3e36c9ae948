-- ===== src/Runner/Turn/Plan.antt =====
-- The plan of a turn: what is true when the driver's answer has been found to be the oracle's.
use turn_vector_benchmark.Base.{
  ℕ, suc, ◌≡◌, refl, subst, none, some, List, ◌∷◌, inl, inr, arith, In, Bool-cases, ok,
}
use turn_vector_benchmark.Base.Dict.{keys}
use turn_vector_benchmark.Lifecycle.{Json}
use turn_vector_benchmark.Scheduler.{Candidate, Segment, Scenario}
use turn_vector_benchmark.Scheduler.Oracle.{Oracle, Decision, schedule}
use turn_vector_benchmark.Scheduler.Choice.Least.{IsChoice}
use turn_vector_benchmark.Scheduler.Oracle.Sync.{IsValid, AreKnown, aligned}
use turn_vector_benchmark.Scheduler.Oracle.Schedule.{schedule_total, IsChoice-In}
use turn_vector_benchmark.Runner.Outcomes.{Ends, Reports, Ends-ok, Ends-conformance, with_step}
use turn_vector_benchmark.Runner.Ledgers.{fraction_map, same_dict}
use turn_vector_benchmark.Runner.Messages.{plan_response, schedule_message}
use turn_vector_benchmark.Runner.Messages.Reported.{plan-Reports}
use turn_vector_benchmark.Runner.Driver.{
  Driver, Escapes, Reply, value, no_reply, overlong_integer, overnested, overlong, nested,
  unwritable, reply_object, request,
}
use turn_vector_benchmark.Runner.Turn.{fail_when, plan_turn, compare_plan}
use turn_vector_benchmark.Runner.Turn.History.{IsPlanned}
use turn_vector_benchmark.Runner.Records.{TraceRecord, Progress, candidate_id_of, same_id}

module _ {D : Type 0} (driver : Driver D) where
  reply-Reports :
      (message : Json) (d : D) (r : Reply)
      → (driver.answer message d).0 ≡ r
      → Reports (Escapes driver) (reply_object r)
  reply-Reports message d (value v) h = record { reported = λ e g. inl (ground arith) }
  reply-Reports message d no_reply h = record { reported = λ e g. inl (ground arith) }
  reply-Reports message d overlong_integer h = record {
    reported = λ e g. inr (subst (Escapes driver) (cc) (overlong message d h));
  }
  reply-Reports message d overnested h = record {
    reported = λ e g. inr (subst (Escapes driver) (cc) (nested message d h));
  }

  pub request-Reports :
      (message : Json) (d : D) → Reports (Escapes driver) (request driver message d).0
  unfolding request
  request-Reports message d = reply-Reports message d (driver.answer message d).0 refl

pub record Planned {D : Type 0} (p : Progress D) (cs : List Candidate) (d : Decision)
    (p' : Progress D) : Type 0 where
  pub driver : D
  pub oracle : Oracle
  pub turn : TraceRecord
  pub reached : p' ≡ record p {
    driver = driver;
    oracle = oracle;
    sequence = suc p.sequence;
    records = turn ∷ p.records;
  }
  pub valid : IsValid oracle
  pub pending : oracle.pending ≡ d.selected
  pub weights : oracle.weights ≡ p.oracle.weights
  pub offered : (c : Candidate) → d.selected ≡ some c → In c cs
  pub asked : IsPlanned p.now_us cs p.oracle d oracle turn
  pub no_receipt : turn.receipt ≡ none

abbrev pub planned :
    {D : Type 0} (p : Progress D) {cs : List Candidate} {d : Decision} {p' : Progress D}
    → Planned p cs d p'
    → Progress D
planned p plan = record p {
  driver = plan.driver;
  oracle = plan.oracle;
  sequence = suc p.sequence;
  records = plan.turn ∷ p.records;
}

module _ {D : Type 0} (driver : Driver D) (s : Scenario) (i j k : ℕ) (segment : Segment)
    (cs : List Candidate) where
  plan_turn-schedule :
      (p : Progress D) (d : Decision) (o : Oracle)
      → schedule p.now_us cs p.oracle ≡ (ok d, o)
      → plan_turn driver s i j k segment cs p
        ≡ compare_plan driver s i j k segment cs d
            (record p { sequence = suc p.sequence; oracle = o })
  unfolding plan_turn
  plan_turn-schedule p d o e = ground arith

  compare-Planned :
      (p : Progress D) (d : Decision) (o : Oracle)
      → schedule p.now_us cs p.oracle ≡ (ok d, o)
      → IsValid o
      → o.pending ≡ d.selected
      → o.weights ≡ p.oracle.weights
      → ((c : Candidate) → d.selected ≡ some c → In c cs)
      → Ends (Escapes driver) (Planned p cs) (
          compare_plan driver s i j k segment cs d
            (record p { sequence = suc p.sequence; oracle = o }))
  unfolding compare_plan fail_when
  compare-Planned p d o scheduled valid pending weights offered =
      let message = schedule_message (suc p.sequence) p.now_us segment.resource_mode cs in
      let models = keys (fraction_map d.runnable_ledgers) in
      with_step (request driver message p.driver).0 _ (request-Reports driver message p.driver)
        λ response _.
          with_step
            (plan_response driver.reading (driver.writes d.runnable_ledgers) (suc p.sequence) models
              response)
            _
            (plan-Reports driver (driver.writes d.runnable_ledgers) (suc p.sequence) models response
              (unwritable d.runnable_ledgers))
            λ observed _.
              elim (Bool-cases (same_dict observed.1 (fraction_map d.runnable_ledgers))) [
                | inr other ↦ rw other Ends-conformance
                | inl same ↦ elim (Bool-cases (same_id observed.0 (candidate_id_of d.selected))) [
                  | inr other ↦ rw (same, other) Ends-conformance
                  | inl named ↦
                      rw (same, named)
                        (Ends-ok (record {
                          driver = (request driver message p.driver).1;
                          oracle = o;
                          turn = _;
                          reached = refl;
                          valid = valid;
                          pending = pending;
                          weights = weights;
                          offered = offered;
                          asked = record {
                            scheduled = scheduled;
                            time = refl;
                            candidates = refl;
                            decision_class = refl;
                            expected = refl;
                            expected_ledgers = refl;
                            candidate = named;
                            ledgers = same;
                          };
                          no_receipt = refl;
                        }))
                ]
              ]

  -- On a ready oracle the turn's plan is compared, and it raises only what is caught or what the driver
  -- brings about.
  pub plan-Planned :
      (p : Progress D)
      → IsValid p.oracle
      → AreKnown p.oracle cs
      → p.oracle.pending ≡ none
      → Ends (Escapes driver) (Planned p cs) (plan_turn driver s i j k segment cs p)
  plan-Planned p valid known idle =
      let t = schedule_total p.now_us cs p.oracle valid known idle in
      rw (plan_turn-schedule p _ _ t.returned) (
        compare-Planned p _ _ t.returned t.still_valid refl refl λ c e.
          IsChoice-In p.now_us cs (aligned cs p.oracle t.sync.alignment) c t.chosen.1 (
            subst (λ x. IsChoice p.now_us cs (aligned cs p.oracle t.sync.alignment) (x, t.chosen.1))
              e t.choice))
