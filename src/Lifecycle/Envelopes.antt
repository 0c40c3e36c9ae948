-- ===== src/Lifecycle/Envelopes.antt =====
-- `validate_lifecycle_request` and `validate_lifecycle_response` of
-- turnvector_benchmark/cross_engine/lifecycle.py.
use turn_vector_benchmark.Base.{
  String, Bool, true, false, not, ◌||◌, [], ◌∷◌, Result, ok, raise_if, contract_error, ◌>>=◌, ◌>>◌,
}
use turn_vector_benchmark.Base.Dict.{Dict}
use turn_vector_benchmark.Base.Sets.{contains}
use turn_vector_benchmark.Lifecycle.{Json, null}
use turn_vector_benchmark.Lifecycle.Contracts.{get, strict_object, bounded_string, identifier}
use turn_vector_benchmark.Lifecycle.Messages.{
  lifecycle_protocol_version, request_fields, response_fields, registered_error_codes, is_text,
}
use turn_vector_benchmark.Lifecycle.Payloads.{validate_request_payload, validate_response_payload}

-- What the checks of the envelopes let through.
pub record Request : Type 0 where
  pub kind : String
  pub request_id : String
  pub payload : Dict Json

pub data Outcome : Type 0 where
  succeeded : Dict Json → Outcome
  failed : String → String → Outcome

pub record Response : Type 0 where
  pub kind : String
  pub request_id : String
  pub outcome : Outcome

unfoldable pub validate_lifecycle_request : Json → Result Request
validate_lifecycle_request value = do
  o ← strict_object request_fields [] value
  v ← get o "kind"
  kind ← identifier v
  v ← get o "protocol_version"
  raise_if (not (is_text v lifecycle_protocol_version)) contract_error
  v ← get o "request_id"
  request_id ← identifier v
  v ← get o "payload"
  payload ← validate_request_payload kind v
  ok (record { kind = kind; request_id = request_id; payload = payload })

abbrev pub is_null : Json → Bool
is_null null = true
is_null _ = false

unfoldable pub validate_error : Json → Result Outcome
validate_error value = do
  d ← strict_object ("code" ∷ "message" ∷ []) [] value
  v ← get d "code"
  code ← identifier v
  raise_if (not (contains code registered_error_codes)) contract_error
  v ← get d "message"
  message ← bounded_string 1024 false v
  ok (failed code message)

unfoldable pub validate_outcome : String → Dict Json → Result Outcome
validate_outcome kind o = do
  status ← get o "status"
  raise_if (not (is_text status "ok" || is_text status "error")) contract_error
  error ← get o "error"
  payload ← get o "payload"
  elim (is_text status "ok") [
    | true ↦ (do
      raise_if (not (is_null error)) contract_error
      d ← validate_response_payload kind payload
      ok (succeeded d))
    | false ↦ (do raise_if (not (is_null payload)) contract_error; validate_error error)
  ]

unfoldable pub validate_lifecycle_response : Json → Result Response
validate_lifecycle_response value = do
  o ← strict_object response_fields [] value
  v ← get o "kind"
  kind ← identifier v
  v ← get o "protocol_version"
  raise_if (not (is_text v lifecycle_protocol_version)) contract_error
  v ← get o "request_id"
  request_id ← identifier v
  outcome ← validate_outcome kind o
  ok (record { kind = kind; request_id = request_id; outcome = outcome })
