-- ===== src/Runner/Messages.antt =====
-- What the runner sends to the driver (turnvector_benchmark/runner.py, `as_message` of
-- turnvector_benchmark/core.py), and what it accepts as the answers.
pub mod Reported
use turn_vector_benchmark.Base.{
  ℕ, ◌==◌, String, Bool, true, false, not, ◌||◌, Option, none, some, List, [], ◌∷◌, map, str_eq,
  Result, ok, err, raise_if, contract_error, value_error, ◌>>=◌, ◌>>◌,
}
use turn_vector_benchmark.Base.Dict.{Dict}
use turn_vector_benchmark.Base.Int.{ℤ, pos, negsuc}
use turn_vector_benchmark.Lifecycle.{
  Json, null, bool, int, float, str, arr, obj, Items, no_items, item, Fields, no_fields, field,
}
use turn_vector_benchmark.Lifecycle.Contracts.{get}
use turn_vector_benchmark.Scheduler.{
  ExecutionPhase, prefill, decode, embedding, residency, ServiceClass, interactive, standard,
  background, ResourceMode, normal, guarded, stop_admission, critical, ModelConfig, Candidate,
  Scenario,
}
use turn_vector_benchmark.Scheduler.Fields.{string_value}
use turn_vector_benchmark.Runner.Ledgers.{Reading, require_response, ledger_response}

abbrev pub driver_protocol : String
driver_protocol = "turnvector.benchmark.driver.v1"

abbrev pub fields_of : Dict Json → Fields
fields_of [] = no_fields
fields_of ((k, v) ∷ d) = field k v (fields_of d)

abbrev pub items_of : List Json → Items
items_of [] = no_items
items_of (v ∷ vs) = item v (items_of vs)

abbrev pub natural : ℕ → Json
natural n = int (pos n)

abbrev pub optional : Option ℕ → Json
optional none = null
optional (some n) = natural n

abbrev pub phase_name : ExecutionPhase → String
phase_name prefill = "prefill"
phase_name decode = "decode"
phase_name embedding = "embedding"
phase_name residency = "residency"

abbrev pub class_name : ServiceClass → String
class_name interactive = "interactive"
class_name standard = "standard"
class_name background = "background"

abbrev pub mode_name : ResourceMode → String
mode_name normal = "normal"
mode_name guarded = "guarded"
mode_name stop_admission = "stop_admission"
mode_name critical = "critical"

unfoldable pub model_message : ModelConfig → Json
model_message m = obj (fields_of (("model_id", str m.model_id) ∷ ("weight", natural m.weight) ∷ []))

unfoldable pub candidate_message : Candidate → Json
candidate_message c = obj (
    fields_of (
      ("candidate_id", str c.candidate_id)
      ∷ ("model_id", str c.model_id)
      ∷ ("execution_phase", str (phase_name c.execution_phase))
      ∷ ("service_class", str (class_name c.service_class))
      ∷ ("engine_service_bound_us", natural c.engine_service_bound_us)
      ∷ ("runtime_overhead_bound_us", natural c.runtime_overhead_bound_us)
      ∷ ("timing_obligation_us", optional c.timing_obligation_us)
      ∷ ("capability_authorized", bool c.capability_authorized)
      ∷ ("resource_safe", bool c.resource_safe)
      ∷ ("timing_feasible", bool c.timing_feasible)
      ∷ ("output_reserved", bool c.output_reserved)
      ∷ []))

abbrev pub hello_message : Json
hello_message =
    obj (fields_of (("kind", str "hello") ∷ ("protocol_version", str driver_protocol) ∷ []))

abbrev pub initialize_message : Scenario → ℕ → Json
initialize_message s repetition = obj (
    fields_of (
      ("kind", str "initialize")
      ∷ ("scenario_id", str s.scenario_id)
      ∷ ("repetition", natural repetition)
      ∷ ("models", arr (items_of (map model_message s.models)))
      ∷ []))

abbrev pub schedule_message : ℕ → ℕ → ResourceMode → List Candidate → Json
schedule_message sequence now_us mode candidates = obj (
    fields_of (
      ("kind", str "schedule")
      ∷ ("sequence", natural sequence)
      ∷ ("now_us", natural now_us)
      ∷ ("resource_mode", str (mode_name mode))
      ∷ ("candidates", arr (items_of (map candidate_message candidates)))
      ∷ []))

abbrev pub receipt_message : ℕ → Candidate → ℕ → Json
receipt_message sequence c actual_engine_service_us = obj (
    fields_of (
      ("kind", str "receipt")
      ∷ ("sequence", natural sequence)
      ∷ ("candidate_id", str c.candidate_id)
      ∷ ("model_id", str c.model_id)
      ∷ ("actual_engine_service_us", natural actual_engine_service_us)
      ∷ []))

abbrev pub shutdown : Json
shutdown = obj (fields_of (("kind", str "shutdown") ∷ []))

-- `value == text` and `value == number` of what was read: Python's `True` is 1, and 1.0 is 1 too.
abbrev pub is_named : String → Json → Bool
is_named text (str s) = str_eq s text
is_named text _ = false

abbrev pub is_integer : ℕ → ℤ → Bool
is_integer n (pos m) = m == n
is_integer n (negsuc m) = false

abbrev pub equals_number : ℕ → Json → Bool
equals_number n (int i) = is_integer n i
equals_number n (bool true) = n == 1
equals_number n (bool false) = n == 0
equals_number n (float _ _ (some i)) = is_integer n i
equals_number n _ = false

abbrev pub optional_text : Json → Result (Option String)
optional_text null = ok none
optional_text (str s) = ok (some s)
optional_text _ = err contract_error

-- `{driver_name, driver_version}` of a driver
abbrev pub Identity : Type 0
Identity = String × String

unfoldable pub hello_response : Dict Json → Result Identity
hello_response response = do
  require_response ("kind" ∷ "protocol_version" ∷ "driver_name" ∷ "driver_version" ∷ []) response
  kind ← get response "kind"
  version ← get response "protocol_version"
  raise_if (not (is_named "hello_ack" kind) || not (is_named driver_protocol version))
      contract_error
  v ← get response "driver_name"
  driver_name ← string_value v
  v ← get response "driver_version"
  driver_version ← string_value v
  ok (driver_name, driver_version)

-- The ledgers of an initialize response.
unfoldable pub initialize_response :
    (String → Reading) → Scenario → List String → Dict Json → Result (Dict String)
initialize_response reading s expected_models response = do
  require_response ("kind" ∷ "scenario_id" ∷ "model_ledgers_us" ∷ []) response
  kind ← get response "kind"
  scenario_id ← get response "scenario_id"
  raise_if (not (is_named "initialized" kind) || not (is_named s.scenario_id scenario_id))
      contract_error
  v ← get response "model_ledgers_us"
  ledger_response reading v expected_models

-- The candidate and the ledgers of a plan response.
-- `written` says whether the ledgers that are expected can be written as texts.
unfoldable pub plan_response :
    (String → Reading) → Bool → ℕ → List String → Dict Json → Result (Option String × Dict String)
plan_response reading written sequence expected_models response = do
  require_response ("kind" ∷ "sequence" ∷ "candidate_id" ∷ "runnable_ledgers_us" ∷ []) response
  kind ← get response "kind"
  n ← get response "sequence"
  raise_if (not (is_named "plan" kind) || not (equals_number sequence n)) contract_error
  c ← get response "candidate_id"
  observed_id ← optional_text c
  raise_if (not written) value_error
  v ← get response "runnable_ledgers_us"
  observed_runnable ← ledger_response reading v expected_models
  ok (observed_id, observed_runnable)

-- The ledgers of a receipt response.
unfoldable pub receipt_response :
    (String → Reading) → ℕ → List String → Dict Json → Result (Dict String)
receipt_response reading sequence expected_models response = do
  require_response ("kind" ∷ "sequence" ∷ "model_ledgers_us" ∷ []) response
  kind ← get response "kind"
  n ← get response "sequence"
  raise_if (not (is_named "receipt_accepted" kind) || not (equals_number sequence n)) contract_error
  v ← get response "model_ledgers_us"
  ledger_response reading v expected_models
