-- ===== src/Scheduler/Scenarios.antt =====
-- The reading of scenarios and suites in turnvector_benchmark/core.py: from the value that `json.loads`
-- returned to the scenario, every check in the order of the code. A member of one of the fixed sets of
-- names is read as a constructor.
pub mod Accepted
pub mod Suites
pub mod Tests
use turn_vector_benchmark.Base.{
  ℕ, ◌+◌, ltb, String, Bool, true, false, not, ◌||◌, Option, none, some, List, [], ◌∷◌, map, any,
  is_empty, str_eq, Result, ok, err, raise_if, contract_error, value_error, recursion_error, ◌>>=◌,
  ◌>>◌,
}
use turn_vector_benchmark.Base.Order.{codes}
use turn_vector_benchmark.Base.Dict.{Dict, keys}
use turn_vector_benchmark.Base.Sets.{contains, all_distinct}
use turn_vector_benchmark.Base.Int.{ℤ, pos}
use turn_vector_benchmark.Lifecycle.{Json, null, bool, int, str, arr, obj, items, entries}
use turn_vector_benchmark.Lifecycle.Contracts.{get, is_identifier, parse_all}
use turn_vector_benchmark.Scheduler.{
  ExecutionPhase, prefill, decode, embedding, residency, ServiceClass, interactive, standard,
  background, ResourceMode, normal, guarded, stop_admission, critical, ModelConfig,
  CandidateTemplate, Segment, Scenario,
}
use turn_vector_benchmark.Scheduler.Fields.{
  array_value, boolean_value, execution_phases, identifier_value, integer_value, largest, member,
  object_value, resource_modes, scenario_schema, service_classes, strict_keys, string_value,
  suite_schema,
}

abbrev pub model_keys : List String
model_keys = "model_id" ∷ "weight" ∷ []

unfoldable pub parse_model : Json → Result ModelConfig
parse_model value = do
  d ← object_value value
  strict_keys model_keys d
  v ← get d "model_id"
  model_id ← identifier_value v
  v ← get d "weight"
  weight ← integer_value 1 1000000 v
  ok (record { model_id = model_id; weight = weight })

abbrev pub optional_offset : Json → Result (Option ℕ)
optional_offset null = ok none
optional_offset value = do n ← integer_value 0 largest value; ok (some n)

abbrev pub candidate_keys : List String
candidate_keys =
    "candidate_id" ∷ "model_id" ∷ "execution_phase" ∷ "service_class" ∷ "engine_service_bound_us"
    ∷ "runtime_overhead_bound_us" ∷ "actual_engine_service_us" ∷ "timing_obligation_offset_us"
    ∷ "capability_authorized" ∷ "resource_safe" ∷ "timing_feasible" ∷ "output_reserved" ∷ []

unfoldable pub parse_candidate : List String → Json → Result CandidateTemplate
parse_candidate model_ids value = do
  d ← object_value value
  strict_keys candidate_keys d
  v ← get d "model_id"
  model_id ← identifier_value v
  raise_if (not (contains model_id model_ids)) contract_error
  v ← get d "execution_phase"
  s ← string_value v
  execution_phase ← member execution_phases s
  v ← get d "service_class"
  s ← string_value v
  service_class ← member service_classes s
  v ← get d "engine_service_bound_us"
  bound ← integer_value 1 largest v
  v ← get d "actual_engine_service_us"
  actual ← integer_value 1 largest v
  raise_if (ltb bound actual) contract_error
  v ← get d "timing_obligation_offset_us"
  offset ← optional_offset v
  v ← get d "candidate_id"
  candidate_id ← identifier_value v
  v ← get d "runtime_overhead_bound_us"
  overhead ← integer_value 0 largest v
  v ← get d "capability_authorized"
  capability_authorized ← boolean_value v
  v ← get d "resource_safe"
  resource_safe ← boolean_value v
  v ← get d "timing_feasible"
  timing_feasible ← boolean_value v
  v ← get d "output_reserved"
  output_reserved ← boolean_value v
  ok (record {
    candidate_id = candidate_id;
    model_id = model_id;
    execution_phase = execution_phase;
    service_class = service_class;
    engine_service_bound_us = bound;
    runtime_overhead_bound_us = overhead;
    actual_engine_service_us = actual;
    timing_obligation_offset_us = offset;
    capability_authorized = capability_authorized;
    resource_safe = resource_safe;
    timing_feasible = timing_feasible;
    output_reserved = output_reserved;
  })

abbrev pub template_ids : List CandidateTemplate → List String
template_ids = map (λ (t : CandidateTemplate). t.candidate_id)

abbrev pub template_models : List CandidateTemplate → List String
template_models = map (λ (t : CandidateTemplate). t.model_id)

abbrev pub segment_keys : List String
segment_keys = "turns" ∷ "clock_step_us" ∷ "resource_mode" ∷ "candidates" ∷ []

unfoldable pub parse_segment : List String → Json → Result Segment
parse_segment model_ids value = do
  d ← object_value value
  strict_keys segment_keys d
  v ← get d "resource_mode"
  s ← string_value v
  resource_mode ← member resource_modes s
  v ← get d "candidates"
  vs ← array_value v
  candidates ← parse_all (parse_candidate model_ids) vs
  raise_if (not (all_distinct (template_ids candidates))) contract_error
  raise_if (not (all_distinct (template_models candidates))) contract_error
  v ← get d "turns"
  turns ← integer_value 1 10000 v
  v ← get d "clock_step_us"
  clock_step_us ← integer_value 0 largest v
  ok (record {
    turns = turns;
    clock_step_us = clock_step_us;
    resource_mode = resource_mode;
    candidates = candidates;
  })

abbrev pub is_schema : String → Json → Bool
is_schema schema (str s) = str_eq s schema
is_schema schema _ = false

abbrev pub total_turns : List Segment → ℕ
total_turns [] = 0
total_turns (s ∷ ss) = s.turns + total_turns ss

abbrev pub model_ids : List ModelConfig → List String
model_ids = map (λ (m : ModelConfig). m.model_id)

abbrev pub scenario_keys : List String
scenario_keys =
    "schema_version" ∷ "id" ∷ "description" ∷ "repetitions" ∷ "clock_start_us" ∷ "models"
    ∷ "segments" ∷ []

abbrev pub suite_keys : List String
suite_keys = "schema_version" ∷ "id" ∷ "description" ∷ "scenarios" ∷ []

pub record Suite : Type 0 where
  pub suite_id : String
  pub description : String
  pub scenarios : List Scenario
  pub source_path : String

-- The models and the segments of a scenario.
unfoldable pub parse_models : Dict Json → Result (List ModelConfig)
parse_models d = do
  v ← get d "models"
  vs ← array_value v
  models ← parse_all parse_model vs
  raise_if (is_empty models) contract_error
  raise_if (not (all_distinct (model_ids models))) contract_error
  ok models

unfoldable pub parse_segments : List ModelConfig → Dict Json → Result (List Segment)
parse_segments models d = do
  v ← get d "segments"
  vs ← array_value v
  segments ← parse_all (parse_segment (model_ids models)) vs
  raise_if (is_empty segments) contract_error
  raise_if (ltb 10000 (total_turns segments)) contract_error
  ok segments

-- A file through `read_text` and `json.loads`: a value; an error of the system or no JSON; text that is no
-- UTF-8 or an integer of too many digits; values nested too deep.
pub data FileText : Type 0 where
  json_text : Json → FileText
  unreadable undecodable too_nested : FileText

-- `read` is the file at a path; `resolve` is `Path.resolve`.
module _ (read : String → FileText) (resolve : String → String) where
  unfoldable pub load_json : String → Result Json
  load_json path = elim (read path) [
    | json_text raw ↦ ok raw
    | unreadable ↦ err contract_error
    | undecodable ↦ err value_error
    | too_nested ↦ err recursion_error
  ]

  unfoldable pub load_scenario : String → Result Scenario
  load_scenario path = do
    raw ← load_json path
    d ← object_value raw
    strict_keys scenario_keys d
    v ← get d "schema_version"
    raise_if (not (is_schema scenario_schema v)) contract_error
    models ← parse_models d
    segments ← parse_segments models d
    v ← get d "id"
    scenario_id ← identifier_value v
    v ← get d "description"
    description ← string_value v
    v ← get d "repetitions"
    repetitions ← integer_value 2 10 v
    v ← get d "clock_start_us"
    clock_start_us ← integer_value 0 largest v
    ok (record {
      scenario_id = scenario_id;
      description = description;
      repetitions = repetitions;
      clock_start_us = clock_start_us;
      models = models;
      segments = segments;
      source_path = resolve path;
    })

  -- The scenarios that a suite names, each path beside the suite's own, by `beside`.
  abbrev pub load_all : (String → String) → List Json → Result (List Scenario)
  load_all beside [] = ok []
  load_all beside (v ∷ vs) = do
    relative ← string_value v
    scenario ← load_scenario (beside relative)
    rest ← load_all beside vs
    ok (scenario ∷ rest)

  -- `beside path relative` is `(path.parent / relative).resolve()`.
  unfoldable pub load_suite : (String → String → String) → String → Result Suite
  load_suite beside path = do
    raw ← load_json path
    d ← object_value raw
    strict_keys suite_keys d
    v ← get d "schema_version"
    raise_if (not (is_schema suite_schema v)) contract_error
    v ← get d "scenarios"
    vs ← array_value v
    raise_if (is_empty vs) contract_error
    scenarios ← load_all (beside path) vs
    raise_if (not (all_distinct (map (λ (s : Scenario). s.scenario_id) scenarios))) contract_error
    v ← get d "id"
    suite_id ← identifier_value v
    v ← get d "description"
    description ← string_value v
    ok (record {
      suite_id = suite_id;
      description = description;
      scenarios = scenarios;
      source_path = resolve path;
    })
