-- ===== src/Lifecycle/Tests.antt =====
-- A session with an adapter, message by message, and the theorem at it.
use turn_vector_benchmark.Base.{
  String, ◌≡◌, refl, true, ◌||◌, ◌&&◌, some, [], ◌∷◌, ok, err, contract_error,
}
use turn_vector_benchmark.Base.Dict.{Dict, lookup}
use turn_vector_benchmark.Base.Sets.{contains, add, all_distinct}
use turn_vector_benchmark.Lifecycle.{
  Json, null, int, str, arr, obj, no_items, item, no_fields, field, Fields, entries,
}
use turn_vector_benchmark.Lifecycle.Contracts.{
  get, integer, strict_object, bounded_string, identifier, unique_strings, bounded_array,
}
use turn_vector_benchmark.Lifecycle.Messages.{exit_records}
use turn_vector_benchmark.Lifecycle.Strict.{strict_object-keys, stopped_leaves_nothing}
use turn_vector_benchmark.Lifecycle.Machine.Methods.{accept_raises}
use turn_vector_benchmark.Base.Int.{pos}
use turn_vector_benchmark.Lifecycle.Payloads.{validate_request_payload, validate_response_payload}
use turn_vector_benchmark.Lifecycle.Envelopes.{
  Request, validate_lifecycle_request, validate_lifecycle_response, validate_outcome,
}
use turn_vector_benchmark.Lifecycle.Machine.{
  Machine, new_machine, spawned, negotiated, prepared, transition, expected_response,
  accept_response, echoed_fields, compare_fields, conclude,
}
use turn_vector_benchmark.Lifecycle.Machine.Session.{
  not_sent, accepted, Session, start, next, follow, Session-follows,
}

abbrev version : Json
version = str "turnvector.benchmark.cross-engine-lifecycle.v1"

abbrev message : String → Json → Json
message kind payload = obj (
    field "kind" (str kind) (
      field "protocol_version" version
        (field "request_id" (str "r1") (field "payload" payload no_fields))))

abbrev hello : Json
hello = message "hello" (obj (field "requested_adapter_protocol" version no_fields))

abbrev hello_request : Request
hello_request = record {
  kind = "hello";
  request_id = "r1";
  payload = ("requested_adapter_protocol", version) ∷ [];
}

abbrev capabilities : Json
capabilities = arr (item (str "reset") no_items)

abbrev hello_ack : Json
hello_ack = obj (
    field "kind" (str "hello_ack") (
      field "protocol_version" version (
        field "request_id" (str "r1") (
          field "status" (str "ok") (
            field "payload"
              (obj (
                field "adapter_protocol" version (
                  field "adapter_id" (str "mlx") (
                    field "adapter_version" (str "1.0") (
                      field "target_family" (str "llm")
                        (field "lifecycle_capabilities" capabilities no_fields))))))
              (field "error" null no_fields))))))

abbrev asked : Machine
asked = record { state = spawned; request_ids = "r1" ∷ []; response_ids = [] }

abbrev greeted : Machine
greeted = record { state = negotiated; request_ids = "r1" ∷ []; response_ids = "r1" ∷ [] }

hello_validated : validate_lifecycle_request hello ≡ ok hello_request
unfolding validate_lifecycle_request strict_object bounded_string identifier
    validate_request_payload lookup
hello_validated = refl

hello_expected : expected_response hello new_machine ≡ (ok ("hello_ack", negotiated), asked)
unfolding validate_lifecycle_request strict_object bounded_string identifier
    validate_request_payload lookup expected_response transition add
hello_expected = refl

abbrev ack_payload : Dict Json
ack_payload =
    ("adapter_protocol", version)
    ∷ ("adapter_id", str "mlx")
    ∷ ("adapter_version", str "1.0")
    ∷ ("target_family", str "llm")
    ∷ ("lifecycle_capabilities", capabilities)
    ∷ []

hello_accepted :
    accept_response hello_request hello_ack "hello_ack" negotiated asked ≡ (ok ack_payload, greeted)
unfolding validate_lifecycle_response strict_object bounded_string identifier
    validate_response_payload validate_outcome unique_strings bounded_array all_distinct lookup
    accept_response conclude compare_fields echoed_fields add
hello_accepted = refl

-- The same request id again is refused.
hello_refused : expected_response hello greeted ≡ (err contract_error, greeted)
unfolding validate_lifecycle_request strict_object bounded_string identifier
    validate_request_payload lookup expected_response transition add
hello_refused = refl

greeting : Session ("hello" ∷ []) ("r1" ∷ []) greeted
greeting =
    next
      (next start (
        accepted hello hello_request ("hello_ack", negotiated) asked hello_ack ack_payload greeted
          hello_validated hello_expected hello_accepted))
      (not_sent hello contract_error greeted hello_refused)

Session-follows_example :
    (follow ("hello" ∷ []) spawned ≡ some negotiated) × (all_distinct ("r1" ∷ []) ≡ true)
Session-follows_example = Session-follows ("hello" ∷ []) ("r1" ∷ []) greeted greeting

-- An answer of another kind than the awaited one.
mistaken :
    accept_response hello_request hello_ack "prepared" prepared asked ≡ (err contract_error, asked)
unfolding strict_object bounded_string identifier lookup accept_response
mistaken = refl

accept_raises_example : (spawned ≡ spawned) × (asked.request_ids ≡ asked.request_ids)
accept_raises_example =
    accept_raises hello_request hello_ack "prepared" prepared asked contract_error asked mistaken

abbrev hello_fields : Dict Json
hello_fields =
    ("kind", str "hello")
    ∷ ("protocol_version", version)
    ∷ ("request_id", str "r1")
    ∷ ("payload", obj (field "requested_adapter_protocol" version no_fields))
    ∷ []

-- One of the fields is required, the other optional.
abbrev port_fields : Fields
port_fields = field "id" (str "a") (field "port" (int (pos 7)) no_fields)

strict_object-keys_example : true ≡ (
    contains "port" ("id" ∷ [])
    || (contains "port" ("port" ∷ []) && contains "port" ("id" ∷ "port" ∷ [])))
unfolding strict_object
strict_object-keys_example =
    strict_object-keys ("id" ∷ []) ("port" ∷ []) port_fields (entries port_fields) "port" refl

abbrev stopped_fields : Dict Json
stopped_fields =
    ("process_group_leader_pid", int (pos 7))
    ∷ ("exit_records", arr no_items)
    ∷ ("surviving_process_ids", arr no_items)
    ∷ ("surviving_listeners", arr no_items)
    ∷ []

abbrev stopped_payload : Json
stopped_payload = obj (
    field "process_group_leader_pid" (int (pos 7)) (
      field "exit_records" (arr no_items) (
        field "surviving_process_ids" (arr no_items)
          (field "surviving_listeners" (arr no_items) no_fields))))

stopped_leaves_nothing_example :
    (get stopped_fields "surviving_process_ids" ≡ ok (arr no_items))
    × (get stopped_fields "surviving_listeners" ≡ ok (arr no_items))
unfolding validate_response_payload strict_object integer exit_records bounded_array lookup
stopped_leaves_nothing_example = stopped_leaves_nothing stopped_payload stopped_fields refl
