-- ===== src/Scheduler/Scenarios/Accepted.antt =====
-- What the reading of a scenario lets through.
use turn_vector_benchmark.Base.{
  ℕ, ◌≤◌, String, ◌≡◌, refl, true, false, List, [], ◌∷◌, arith, is_empty, All, Result, ok, raise_if,
  contract_error, Bool, subst, not, ltb, >>=-eq-ok, ok-injective, ◌>>=◌, ◌>>◌,
}
use turn_vector_benchmark.Base.Dict.{Dict}
use turn_vector_benchmark.Base.Sets.{contains, all_distinct}
use turn_vector_benchmark.Lifecycle.{Json}
use turn_vector_benchmark.Lifecycle.Contracts.{parse_all, get}
use turn_vector_benchmark.Scheduler.{ModelConfig, CandidateTemplate, Segment, Scenario}
use turn_vector_benchmark.Scheduler.Scenarios.{
  FileText, parse_model, parse_candidate, parse_segment, parse_models, parse_segments,
  load_scenario, optional_offset, model_keys, candidate_keys, segment_keys, scenario_keys,
  is_schema, load_json, total_turns, model_ids, template_ids, template_models,
}
use turn_vector_benchmark.Scheduler.Fields.{
  integer_value, identifier_value, object_value, strict_keys, array_value, string_value,
  boolean_value, member, resource_modes, execution_phases, service_classes, largest,
  scenario_schema,
}

pub record IsCandidate (ids : List String) (t : CandidateTemplate) : Type 0 where
  pub known : contains t.model_id ids ≡ true
  pub served : 1 ≤ t.actual_engine_service_us
  pub bounded : t.actual_engine_service_us ≤ t.engine_service_bound_us

pub record IsSegment (ids : List String) (s : Segment) : Type 0 where
  pub some_turns : 1 ≤ s.turns
  pub few_turns : s.turns ≤ 10000
  pub candidates : All (IsCandidate ids) s.candidates
  pub distinct_ids : all_distinct (template_ids s.candidates) ≡ true
  pub distinct_models : all_distinct (template_models s.candidates) ≡ true

pub record IsModel (m : ModelConfig) : Type 0 where
  pub positive : 1 ≤ m.weight
  pub light : m.weight ≤ 1000000

pub record IsScenario (s : Scenario) : Type 0 where
  pub repeated : 2 ≤ s.repetitions
  pub few_repetitions : s.repetitions ≤ 10
  pub some_models : is_empty s.models ≡ false
  pub models : All IsModel s.models
  pub distinct_models : all_distinct (model_ids s.models) ≡ true
  pub some_segments : is_empty s.segments ≡ false
  pub segments : All (IsSegment (model_ids s.models)) s.segments
  pub few_turns : total_turns s.segments ≤ 10000

-- A property of what a chain returns, if it returns.
pub record Holds {ℓ κ} {A : Type ℓ} (Q : A → Type κ) (r : Result A) : Type (ℓ ⊔ κ) where
  pub at : (a : A) → r ≡ ok a → Q a

module _ {ℓ κ μ} {A : Type ℓ} {B : Type κ} {Q : B → Type μ} {f : A → Result B} where
  -- A step that the property does not look at.
  pub pass : (m : Result A) → ((a : A) → Holds Q (f a)) → Holds Q (m >>= f)
  pass m h = record { at = λ b e. let (a, _, rest) = >>=-eq-ok m f e in (h a).at b rest }

  -- A step with a property of its own, of which the rest makes use.
  pub with_step :
      {P : A → Type 0} (m : Result A)
      → Holds P m
      → ((a : A) → P a → Holds Q (f a))
      → Holds Q (m >>= f)
  with_step m p h = record {
    at = λ b e. let (a, found, rest) = >>=-eq-ok m f e in (h a (p.at a found)).at b rest;
  }

module _ {ℓ κ} {A : Type ℓ} {Q : A → Type κ} where
  -- A check that has passed.
  pub check :
      (b : Bool) {r : Result A} → (b ≡ false → Holds Q r) → Holds Q (raise_if b contract_error >> r)
  check true h = record { at = λ a e. cc }
  check false h = h refl

  pub give : {a : A} → Q a → Holds Q (ok a)
  give {a} q = record { at = λ b e. subst Q (ok-injective a b e) q }

All-Holds :
    {A : Type 0} {P : A → Type 0} (parse : Json → Result A)
    → ((v : Json) → Holds P (parse v))
    → (vs : List Json) → Holds (All P) (parse_all parse vs)
All-Holds parse h [] = give tt
All-Holds parse h (v ∷ vs) =
    with_step (parse v) (h v)
      λ a p. with_step (parse_all parse vs) (All-Holds parse h vs) λ l q. give (p, q)

integer-Holds :
    (low high : ℕ) (v : Json) → Holds (λ n. (low ≤ n) × (n ≤ high)) (integer_value low high v)
unfolding integer_value
integer-Holds low high v = record { at = λ n e. ground arith }

IsModel-holds : (v : Json) → Holds IsModel (parse_model v)
unfolding parse_model
IsModel-holds v = pass (object_value v) λ d. pass (strict_keys model_keys d) λ _.
    pass (get d "model_id") λ v. pass (identifier_value v) λ m. pass (get d "weight") λ v.
      with_step (integer_value 1 1000000 v) (integer-Holds _ _ v)
        λ w p. give (record { positive = p.0; light = p.1 })

IsCandidate-holds : (ids : List String) (v : Json) → Holds (IsCandidate ids) (parse_candidate ids v)
unfolding parse_candidate
IsCandidate-holds ids v = pass (object_value v) λ d. pass (strict_keys candidate_keys d) λ _.
    pass (get d "model_id") λ v. pass (identifier_value v) λ m.
      check (not (contains m ids)) λ known. pass (get d "execution_phase") λ v.
        pass (string_value v) λ s. pass (member execution_phases s) λ _.
          pass (get d "service_class") λ v. pass (string_value v) λ s.
            pass (member service_classes s) λ _. pass (get d "engine_service_bound_us") λ v.
              with_step (integer_value 1 largest v) (integer-Holds _ _ v) λ bound p.
                pass (get d "actual_engine_service_us") λ v.
                  with_step (integer_value 1 largest v) (integer-Holds _ _ v) λ actual q.
                    check (ltb bound actual) λ le. pass (get d "timing_obligation_offset_us") λ v.
                      pass (optional_offset v) λ _. pass (get d "candidate_id") λ v.
                        pass (identifier_value v) λ _. pass (get d "runtime_overhead_bound_us") λ v.
                          pass (integer_value 0 largest v) λ _.
                            pass (get d "capability_authorized") λ v. pass (boolean_value v) λ _.
                              pass (get d "resource_safe") λ v. pass (boolean_value v) λ _.
                                pass (get d "timing_feasible") λ v. pass (boolean_value v) λ _.
                                  pass (get d "output_reserved") λ v. pass (boolean_value v) λ _.
                                    give (record {
                                      known = ground arith;
                                      served = q.0;
                                      bounded = ground arith;
                                    })

IsSegment-holds : (ids : List String) (v : Json) → Holds (IsSegment ids) (parse_segment ids v)
unfolding parse_segment
IsSegment-holds ids v = pass (object_value v) λ d. pass (strict_keys segment_keys d) λ _.
    pass (get d "resource_mode") λ v. pass (string_value v) λ s. pass (member resource_modes s) λ _.
      pass (get d "candidates") λ v. pass (array_value v) λ vs.
        with_step (parse_all (parse_candidate ids) vs)
          (All-Holds (parse_candidate ids) (IsCandidate-holds ids) vs)
          λ cs held. check (not (all_distinct (template_ids cs))) λ p.
            check (not (all_distinct (template_models cs))) λ q. pass (get d "turns") λ v.
              with_step (integer_value 1 10000 v) (integer-Holds _ _ v) λ turns n.
                pass (get d "clock_step_us") λ v. pass (integer_value 0 largest v) λ _.
                  give (record {
                    some_turns = n.0;
                    few_turns = n.1;
                    candidates = held;
                    distinct_ids = ground arith;
                    distinct_models = ground arith;
                  })

models_hold :
    (d : Dict Json)
    → Holds
        (λ ms. (is_empty ms ≡ false) × All IsModel ms × (all_distinct (model_ids ms) ≡ true))
        (parse_models d)
unfolding parse_models
models_hold d = pass (get d "models") λ v. pass (array_value v) λ vs.
    with_step (parse_all parse_model vs) (All-Holds parse_model IsModel-holds vs) λ ms held.
      check (is_empty ms)
        λ p. check (not (all_distinct (model_ids ms))) λ q. give (p, held, ground arith)

segments_hold :
    (ms : List ModelConfig) (d : Dict Json)
    → Holds
        (λ ss. (is_empty ss ≡ false) × All (IsSegment (model_ids ms)) ss × (total_turns ss ≤ 10000))
        (parse_segments ms d)
unfolding parse_segments
segments_hold ms d = pass (get d "segments") λ v. pass (array_value v) λ vs.
    with_step (parse_all (parse_segment (model_ids ms)) vs)
      (All-Holds (parse_segment (model_ids ms)) (IsSegment-holds (model_ids ms)) vs)
      λ ss held.
        check (is_empty ss)
          λ p. check (ltb 10000 (total_turns ss)) λ q. give (p, held, ground arith)

IsScenario-holds :
    (read : String → FileText) (resolve : String → String) (path : String)
    → Holds IsScenario (load_scenario read resolve path)
unfolding load_scenario
IsScenario-holds read resolve path = pass (load_json read resolve path) λ raw.
    pass (object_value raw) λ d. pass (strict_keys scenario_keys d) λ _.
      pass (get d "schema_version") λ v. check (not (is_schema scenario_schema v)) λ _.
        with_step (parse_models d) (models_hold d) λ ms held.
          with_step (parse_segments ms d) (segments_hold ms d) λ ss cut. pass (get d "id") λ v.
            pass (identifier_value v) λ _. pass (get d "description") λ v.
              pass (string_value v) λ _. pass (get d "repetitions") λ v.
                with_step (integer_value 2 10 v) (integer-Holds _ _ v) λ n p.
                  pass (get d "clock_start_us") λ v. pass (integer_value 0 largest v) λ _.
                    give (record {
                      repeated = p.0;
                      few_repetitions = p.1;
                      some_models = held.0;
                      models = held.1;
                      distinct_models = held.2;
                      some_segments = cut.0;
                      segments = cut.1;
                      few_turns = cut.2;
                    })

-- A scenario that `load_scenario` returns has 2 to 10 repetitions; at least one model, all of distinct
-- ids, with weights from 1 to 1000000; and at least one segment, of 1 to 10000 turns each and at most
-- 10000 in all, whose candidates have distinct ids and distinct models, each of a model of the scenario,
-- with an actual service from 1 to the bound.
pub load_scenario-IsScenario :
    (read : String → FileText) (resolve : String → String) (path : String) (s : Scenario)
    → load_scenario read resolve path ≡ ok s
    → IsScenario s
load_scenario-IsScenario read resolve path s loaded =
    (IsScenario-holds read resolve path).at s loaded
