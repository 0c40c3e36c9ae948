-- ===== src/Scheduler/Fields.antt =====
-- The values of the fields of scenarios and suites in turnvector_benchmark/core.py and of the messages of
-- the runner, and their bounds.
use turn_vector_benchmark.Base.{
  ℕ, ltb, String, Bool, true, false, not, ◌||◌, List, [], ◌∷◌, any, str_eq, Result, ok, err,
  raise_if, contract_error, ◌>>◌,
}
use turn_vector_benchmark.Base.Order.{codes}
use turn_vector_benchmark.Base.Dict.{Dict, keys}
use turn_vector_benchmark.Base.Sets.{contains}
use turn_vector_benchmark.Base.Int.{pos}
use turn_vector_benchmark.Lifecycle.{Json, bool, int, str, arr, obj, items, entries}
use turn_vector_benchmark.Lifecycle.Contracts.{is_identifier}
use turn_vector_benchmark.Scheduler.{
  ExecutionPhase, prefill, decode, embedding, residency, ServiceClass, interactive, standard,
  background, ResourceMode, normal, guarded, stop_admission, critical,
}

abbrev pub scenario_schema : String
scenario_schema = "turnvector.benchmark.scenario.v1"

abbrev pub suite_schema : String
suite_schema = "turnvector.benchmark.suite.v1"

-- 2 ** 63 - 1
abbrev pub largest : ℕ
largest = 9223372036854775807

abbrev pub object_value : Json → Result (Dict Json)
object_value (obj fs) = ok (entries fs)
object_value _ = err contract_error

abbrev pub array_value : Json → Result (List Json)
array_value (arr vs) = ok (items vs)
array_value _ = err contract_error

-- Every caller passes an empty set of optional keys.
abbrev pub strict_keys : List String → Dict Json → Result (Unit {0})
strict_keys required d = do
  raise_if (any (λ k. not (contains k (keys d))) required) contract_error
  raise_if (any (λ k. not (contains k required)) (keys d)) contract_error

unfoldable pub identifier_value : Json → Result String
identifier_value (str s) = do raise_if (not (is_identifier (codes s))) contract_error; ok s
identifier_value _ = err contract_error

abbrev pub string_value : Json → Result String
string_value (str s) = do raise_if (str_eq s "") contract_error; ok s
string_value _ = err contract_error

-- No caller passes a negative minimum.
unfoldable pub integer_value : ℕ → ℕ → Json → Result ℕ
integer_value minimum maximum (int (pos n)) = do
  raise_if (ltb n minimum || ltb maximum n) contract_error
  ok n
integer_value minimum maximum _ = err contract_error

abbrev pub boolean_value : Json → Result Bool
boolean_value (bool b) = ok b
boolean_value _ = err contract_error

-- The value that a text names in a list of names, or a `ContractError`.
abbrev pub member {ℓ} : {A : Type ℓ} → List (String × A) → String → Result A
member [] s = err contract_error
member ((name, a) ∷ l) s = elim (str_eq s name) [ true ↦ ok a | false ↦ member l s ]

abbrev pub resource_modes : List (String × ResourceMode)
resource_modes =
    ("normal", normal)
    ∷ ("guarded", guarded)
    ∷ ("stop_admission", stop_admission)
    ∷ ("critical", critical)
    ∷ []

abbrev pub execution_phases : List (String × ExecutionPhase)
execution_phases =
    ("prefill", prefill)
    ∷ ("decode", decode)
    ∷ ("embedding", embedding)
    ∷ ("residency", residency)
    ∷ []

abbrev pub service_classes : List (String × ServiceClass)
service_classes =
    ("interactive", interactive) ∷ ("standard", standard) ∷ ("background", background) ∷ []
