-- ===== src/Scheduler/Scenarios/Tests.antt =====
-- A scenario and a suite as JSON values, what is read of them, and the theorems at these inputs.
use turn_vector_benchmark.Base.{str_eq, false, String, ◌≡◌, refl, true, none, List, [], ◌∷◌, ok}
use turn_vector_benchmark.Base.Dict.{lookup}
use turn_vector_benchmark.Base.Sets.{all_distinct}
use turn_vector_benchmark.Lifecycle.{Json, null, bool, str, arr, obj}
use turn_vector_benchmark.Scheduler.{Scenario, prefill, standard, normal}
use turn_vector_benchmark.Scheduler.Scenarios.{
  FileText, json_text, parse_model, parse_candidate, parse_segment, parse_models, parse_segments,
  load_json, load_scenario,
}
use turn_vector_benchmark.Scheduler.Fields.{identifier_value, integer_value}
use turn_vector_benchmark.Scheduler.Scenarios.Accepted.{IsScenario, load_scenario-IsScenario}
use turn_vector_benchmark.Runner.Messages.{fields_of, items_of, natural}
use turn_vector_benchmark.Scheduler.Scenarios.{Suite, load_suite}
use turn_vector_benchmark.Scheduler.Scenarios.Suites.{IsSuite, load_suite-IsSuite}

abbrev pub dict : List (String × Json) → Json
dict d = obj (fields_of d)

abbrev pub array : List Json → Json
array vs = arr (items_of vs)

abbrev candidate_json : Json
candidate_json = dict (
    ("candidate_id", str "a1")
    ∷ ("model_id", str "alpha")
    ∷ ("execution_phase", str "prefill")
    ∷ ("service_class", str "standard")
    ∷ ("engine_service_bound_us", natural 10)
    ∷ ("runtime_overhead_bound_us", natural 1)
    ∷ ("actual_engine_service_us", natural 9)
    ∷ ("timing_obligation_offset_us", null)
    ∷ ("capability_authorized", bool true)
    ∷ ("resource_safe", bool true)
    ∷ ("timing_feasible", bool true)
    ∷ ("output_reserved", bool true)
    ∷ [])

abbrev scenario_json : Json
scenario_json = dict (
    ("schema_version", str "turnvector.benchmark.scenario.v1")
    ∷ ("id", str "small")
    ∷ ("description", str "one model at work")
    ∷ ("repetitions", natural 2)
    ∷ ("clock_start_us", natural 5)
    ∷ (
      "models",
      array (
          dict (("model_id", str "alpha") ∷ ("weight", natural 2) ∷ [])
          ∷ dict (("model_id", str "beta") ∷ ("weight", natural 3) ∷ [])
          ∷ []),
    )
    ∷ (
      "segments",
      array (
          dict (
            ("turns", natural 2)
            ∷ ("clock_step_us", natural 7)
            ∷ ("resource_mode", str "normal")
            ∷ ("candidates", array (candidate_json ∷ []))
            ∷ [])
          ∷ []),
    )
    ∷ [])

abbrev suite_json : Json
suite_json = dict (
    ("schema_version", str "turnvector.benchmark.suite.v1")
    ∷ ("id", str "one")
    ∷ ("description", str "one scenario")
    ∷ ("scenarios", array (str "small.json" ∷ []))
    ∷ [])

abbrev pub read : String → FileText
read path = elim (str_eq path "suite.json") [
  | true ↦ json_text suite_json
  | false ↦ json_text scenario_json
]

abbrev pub resolve : String → String
resolve path = path

abbrev pub small : Scenario
small = record {
  scenario_id = "small";
  description = "one model at work";
  repetitions = 2;
  clock_start_us = 5;
  models =
      record { model_id = "alpha"; weight = 2 } ∷ record { model_id = "beta"; weight = 3 } ∷ [];
  segments =
      record {
        turns = 2;
        clock_step_us = 7;
        resource_mode = normal;
        candidates =
            record {
              candidate_id = "a1";
              model_id = "alpha";
              execution_phase = prefill;
              service_class = standard;
              engine_service_bound_us = 10;
              runtime_overhead_bound_us = 1;
              actual_engine_service_us = 9;
              timing_obligation_offset_us = none;
              capability_authorized = true;
              resource_safe = true;
              timing_feasible = true;
              output_reserved = true;
            }
            ∷ [];
      }
      ∷ [];
  source_path = "small.json";
}

pub small-loaded : load_scenario read resolve "small.json" ≡ ok small
unfolding load_scenario load_json parse_models parse_segments parse_segment parse_candidate
    parse_model identifier_value integer_value lookup all_distinct
small-loaded = refl

load_scenario-IsScenario_example : IsScenario small
load_scenario-IsScenario_example =
    load_scenario-IsScenario read resolve "small.json" small small-loaded

-- A path beside the suite's, which stands in the root.
abbrev beside : String → String → String
beside path relative = relative

abbrev one : Suite
one = record {
  suite_id = "one";
  description = "one scenario";
  scenarios = small ∷ [];
  source_path = "suite.json";
}

one-loaded : load_suite read resolve beside "suite.json" ≡ ok one
unfolding load_suite load_scenario load_json parse_models parse_segments parse_segment
    parse_candidate parse_model identifier_value integer_value lookup all_distinct
one-loaded = refl

load_suite-IsSuite_example : IsSuite read resolve beside "suite.json" one
load_suite-IsSuite_example = load_suite-IsSuite read resolve beside "suite.json" one one-loaded
