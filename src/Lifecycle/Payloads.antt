-- ===== src/Lifecycle/Payloads.antt =====
-- `_validate_request_payload` and `_validate_response_payload` of
-- turnvector_benchmark/cross_engine/lifecycle.py.
use turn_vector_benchmark.Base.{
  ℕ, ltb, ◌==◌, String, Bool, true, false, not, ◌&&◌, ◌||◌, List, [], ◌∷◌, is_empty, str_eq, none,
  some, Result, ok, err, raise_if, contract_error, ◌>>=◌, ◌>>◌,
}
use turn_vector_benchmark.Base.Order.{codes}
use turn_vector_benchmark.Base.Dict.{Dict, lookup}
use turn_vector_benchmark.Base.Int.{ℤ, pos}
use turn_vector_benchmark.Lifecycle.{Json, obj}
use turn_vector_benchmark.Lifecycle.Contracts.{
  max_text_bytes, max_array_items, i64_max, get, strict_object, bounded_string, identifier,
  environment_name, sha256_digest, integer, boolean, bounded_array, unique_strings, canonical_size,
}
use turn_vector_benchmark.Lifecycle.Messages.{
  lifecycle_protocol_version, request_payload_fields, response_payload_fields, check, check_each,
  is_text, bounded_json, argv, process_records, exit_records,
}

abbrev pub is_parent : List ℕ → Bool
is_parent (a ∷ b ∷ []) = (a == 46) && (b == 46)
is_parent _ = false

-- `".." in Path(text).parts`: the text after the part read so far, which is kept reversed.
abbrev pub has_parent : List ℕ → List ℕ → Bool
has_parent part [] = is_parent part
has_parent part (c ∷ cs) = elim (c == 47) [
  | true ↦ is_parent part || has_parent [] cs
  | false ↦ has_parent (c ∷ part) cs
]

-- `Path(text).is_absolute()`
abbrev pub is_absolute : List ℕ → Bool
is_absolute [] = false
is_absolute (c ∷ cs) = c == 47

abbrev pub is_object : Json → Bool
is_object (obj fs) = true
is_object _ = false

abbrev pub one : ℤ
one = pos 1

-- One validator for each kind of request.
abbrev pub check_hello : Dict Json → Result (Unit {0})
check_hello d = do
  v ← get d "requested_adapter_protocol"
  raise_if (not (is_text v lifecycle_protocol_version)) contract_error

abbrev pub check_prepare_session : Dict Json → Result (Unit {0})
check_prepare_session d = do
  check_each identifier d ("run_id" ∷ "session_id" ∷ [])
  v ← get d "state_root"
  state_root ← bounded_string max_text_bytes false v
  raise_if (not (is_absolute (codes state_root)) || has_parent [] (codes state_root)) contract_error
  check_each sha256_digest d ("target_sha256" ∷ "config_sha256" ∷ "model_sha256" ∷ [])
  check_each identifier d ("reset_policy" ∷ [])

abbrev pub check_start_target : Dict Json → Result (Unit {0})
check_start_target d = do
  v ← get d "argv"
  check (argv v)
  config ← get d "config"
  raise_if (not (is_object config)) contract_error
  bounded_json config 0
  size ← canonical_size config
  raise_if (ltb 16384 size) contract_error
  v ← get d "environment_names"
  check (unique_strings 256 environment_name v)
  v ← get d "readiness_deadline_ms"
  check (integer one (pos 86400000) v)

abbrev pub check_describe_endpoint : Dict Json → Result (Unit {0})
check_describe_endpoint d = check_each identifier d ("target_id" ∷ "session_id" ∷ [])

abbrev pub check_reset_state : Dict Json → Result (Unit {0})
check_reset_state d = do
  v ← get d "reset_ordinal"
  check (integer one i64_max v)
  check_each identifier d ("reset_policy" ∷ [])
  check_each sha256_digest d ("expected_prior_inventory_sha256" ∷ [])

abbrev pub check_stop_target : Dict Json → Result (Unit {0})
check_stop_target d = do
  check_each identifier d ("reason" ∷ [])
  v ← get d "deadline_ms"
  check (integer one i64_max v)
  v ← get d "expected_process_group_leader_pid"
  check (integer one i64_max v)

abbrev pub check_session : Dict Json → Result (Unit {0})
check_session d = check_each identifier d ("session_id" ∷ [])

-- The chain of tests on the kind.
abbrev pub check_request_kind : String → Dict Json → Result (Unit {0})
check_request_kind kind d = elim (str_eq kind "hello") [
  | true ↦ check_hello d
  | false ↦ elim (str_eq kind "prepare_session") [
    | true ↦ check_prepare_session d
    | false ↦ elim (str_eq kind "start_target") [
      | true ↦ check_start_target d
      | false ↦ elim (str_eq kind "describe_endpoint") [
        | true ↦ check_describe_endpoint d
        | false ↦ elim (str_eq kind "reset_state") [
          | true ↦ check_reset_state d
          | false ↦ elim (str_eq kind "stop_target") [
            | true ↦ check_stop_target d
            | false ↦ elim (str_eq kind "shutdown") [ true ↦ check_session d | false ↦ ok tt ]
          ]
        ]
      ]
    ]
  ]
]

unfoldable pub validate_request_payload : String → Json → Result (Dict Json)
validate_request_payload kind value = elim (lookup kind request_payload_fields) [
  | none ↦ err contract_error
  | some required ↦ (do d ← strict_object required [] value; check_request_kind kind d; ok d)
]

-- One validator for each kind of response.
abbrev pub check_hello_ack : Dict Json → Result (Unit {0})
check_hello_ack d = do
  v ← get d "adapter_protocol"
  raise_if (not (is_text v lifecycle_protocol_version)) contract_error
  check_each identifier d ("adapter_id" ∷ "adapter_version" ∷ "target_family" ∷ [])
  v ← get d "lifecycle_capabilities"
  check (unique_strings 32 identifier v)

abbrev pub check_prepared : Dict Json → Result (Unit {0})
check_prepared d = do
  check_each identifier d ("run_id" ∷ "session_id" ∷ [])
  check_each sha256_digest d
      ("target_sha256" ∷ "config_sha256" ∷ "model_sha256" ∷ "initial_state_inventory_sha256" ∷ [])
  check_each identifier d ("reset_policy" ∷ [])

abbrev pub check_target_started : Dict Json → Result (Unit {0})
check_target_started d = do
  v ← get d "process_group_leader_pid"
  check (integer one i64_max v)
  v ← get d "child_processes"
  process_records v
  v ← get d "started_at_ns"
  check (integer (pos 0) i64_max v)

abbrev pub check_endpoint_ready : Dict Json → Result (Unit {0})
check_endpoint_ready d = do
  check_each identifier d ("target_id" ∷ "session_id" ∷ [])
  endpoint ← get d "endpoint"
  raise_if (not (is_object endpoint)) contract_error
  size ← canonical_size endpoint
  raise_if (ltb 16384 size) contract_error
  v ← get d "listener_owner"
  owner ← strict_object ("pid" ∷ "address" ∷ "port" ∷ []) [] v
  v ← get owner "pid"
  check (integer one i64_max v)
  v ← get owner "address"
  check (bounded_string 64 false v)
  v ← get owner "port"
  check (integer one (pos 65535) v)

abbrev pub check_state_reset : Dict Json → Result (Unit {0})
check_state_reset d = do
  v ← get d "reset_ordinal"
  check (integer one i64_max v)
  check_each identifier d ("reset_policy" ∷ [])
  v ← get d "pre_processes"
  process_records v
  v ← get d "post_processes"
  process_records v
  check_each sha256_digest d ("prior_inventory_sha256" ∷ "current_inventory_sha256" ∷ [])

abbrev pub check_target_stopped : Dict Json → Result (Unit {0})
check_target_stopped d = do
  v ← get d "process_group_leader_pid"
  check (integer one i64_max v)
  v ← get d "exit_records"
  exit_records v
  v ← get d "surviving_process_ids"
  pids ← bounded_array max_array_items true v
  raise_if (not (is_empty pids)) contract_error
  v ← get d "surviving_listeners"
  listeners ← bounded_array max_array_items true v
  raise_if (not (is_empty listeners)) contract_error

abbrev pub check_shutdown_ack : Dict Json → Result (Unit {0})
check_shutdown_ack d = do
  check_each identifier d ("session_id" ∷ [])
  v ← get d "diagnostic_count"
  check (integer (pos 0) (pos 1024) v)
  v ← get d "no_live_children"
  b ← boolean v
  raise_if (not b) contract_error

abbrev pub check_response_kind : String → Dict Json → Result (Unit {0})
check_response_kind kind d = elim (str_eq kind "hello_ack") [
  | true ↦ check_hello_ack d
  | false ↦ elim (str_eq kind "prepared") [
    | true ↦ check_prepared d
    | false ↦ elim (str_eq kind "target_started") [
      | true ↦ check_target_started d
      | false ↦ elim (str_eq kind "endpoint_ready") [
        | true ↦ check_endpoint_ready d
        | false ↦ elim (str_eq kind "state_reset") [
          | true ↦ check_state_reset d
          | false ↦ elim (str_eq kind "target_stopped") [
            | true ↦ check_target_stopped d
            | false ↦ elim (str_eq kind "shutdown_ack") [
              | true ↦ check_shutdown_ack d
              | false ↦ ok tt
            ]
          ]
        ]
      ]
    ]
  ]
]

unfoldable pub validate_response_payload : String → Json → Result (Dict Json)
validate_response_payload kind value = elim (lookup kind response_payload_fields) [
  | none ↦ err contract_error
  | some required ↦ (do d ← strict_object required [] value; check_response_kind kind d; ok d)
]
