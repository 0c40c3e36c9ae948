-- ===== src/Scheduler/Scenarios/Suites.antt =====
-- What the reading of a suite lets through.
use turn_vector_benchmark.Base.{
  String, ◌≡◌, refl, ◌∙◌, true, false, List, [], ◌∷◌, arith, is_empty, map, All, ok, not,
}
use turn_vector_benchmark.Base.Sets.{all_distinct}
use turn_vector_benchmark.Lifecycle.{Json}
use turn_vector_benchmark.Lifecycle.Contracts.{get}
use turn_vector_benchmark.Scheduler.{Scenario}
use turn_vector_benchmark.Scheduler.Fields.{
  object_value, array_value, string_value, strict_keys, identifier_value, suite_schema,
}
use turn_vector_benchmark.Scheduler.Scenarios.{
  FileText, Suite, load_json, load_scenario, load_all, load_suite, suite_keys, is_schema,
}
use turn_vector_benchmark.Scheduler.Scenarios.Accepted.{
  IsScenario, load_scenario-IsScenario, Holds, pass, with_step, check, give,
}

module _ (read : String → FileText) (resolve : String → String) where
  -- The file of a scenario of the suite, and what is known of the scenario.
  pub record IsLoaded (beside : String → String) (s : Scenario) : Type 0 where
    pub relative : String
    pub loaded : load_scenario read resolve (beside relative) ≡ ok s
    pub valid : IsScenario s

  pub record IsSuite (beside : String → String → String) (path : String) (suite : Suite)
      : Type 0 where
    pub some_scenarios : is_empty suite.scenarios ≡ false
    pub scenarios : All (IsLoaded (beside path)) suite.scenarios
    pub distinct : all_distinct (map (λ (s : Scenario). s.scenario_id) suite.scenarios) ≡ true
    pub resolved : suite.source_path ≡ resolve path

  IsLoaded-holds :
      (beside : String → String) (relative : String)
      → Holds (IsLoaded beside) (load_scenario read resolve (beside relative))
  IsLoaded-holds beside relative = record {
    at = λ s e. record {
      relative = relative;
      loaded = e;
      valid = load_scenario-IsScenario read resolve (beside relative) s e;
    };
  }

  every_part_holds :
      (beside : String → String) (vs : List Json)
      → Holds
          (λ ss. All (IsLoaded beside) ss × (is_empty ss ≡ is_empty vs))
          (load_all read resolve beside vs)
  every_part_holds beside [] = give (tt, refl)
  every_part_holds beside (v ∷ vs) = pass (string_value v) λ relative.
      with_step (load_scenario read resolve (beside relative)) (IsLoaded-holds beside relative)
        λ s p.
          with_step (load_all read resolve beside vs) (every_part_holds beside vs)
            λ ss q. give ((p, q.0), refl)

  IsSuite-holds :
      (beside : String → String → String) (path : String)
      → Holds (IsSuite beside path) (load_suite read resolve beside path)
  unfolding load_suite
  IsSuite-holds beside path = pass (load_json read resolve path) λ raw. pass (object_value raw) λ d.
      pass (strict_keys suite_keys d) λ _. pass (get d "schema_version") λ v.
        check (not (is_schema suite_schema v)) λ _. pass (get d "scenarios") λ v.
          pass (array_value v) λ vs. check (is_empty vs) λ p.
            with_step (load_all read resolve (beside path) vs) (every_part_holds (beside path) vs)
              λ ss q. check (not (all_distinct (map (λ (s : Scenario). s.scenario_id) ss))) λ r.
                pass (get d "id") λ v. pass (identifier_value v) λ _.
                  pass (get d "description") λ v. pass (string_value v) λ _. give (record {
                    some_scenarios = q.1 ∙ p;
                    scenarios = q.0;
                    distinct = ground arith;
                    resolved = refl;
                  })

-- A suite that `load_suite` returns has at least one scenario; each of them is the one that
-- `load_scenario` returns for a path beside the suite's, and so satisfies the bounds of a scenario; the
-- ids of the scenarios are distinct, and the suite's path is resolved.
pub load_suite-IsSuite :
    (read : String → FileText) (resolve : String → String) (beside : String → String → String)
    → (path : String) (suite : Suite) → load_suite read resolve beside path ≡ ok suite
    → IsSuite read resolve beside path suite
load_suite-IsSuite read resolve beside path suite loaded =
    (IsSuite-holds read resolve beside path).at suite loaded
