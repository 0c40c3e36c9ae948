-- ===== src/Lifecycle/Messages.antt =====
-- The requests and responses of turnvector_benchmark/cross_engine/lifecycle.py and their checks.
use turn_vector_benchmark.Base.{
  ℕ, ◌+◌, ltb, ◌==◌, String, Bool, true, false, not, ◌&&◌, ◌||◌, List, [], ◌∷◌, length, str_eq,
  Result, ok, err, raise_if, contract_error, ◌>>=◌, ◌>>◌,
}
use turn_vector_benchmark.Base.Dict.{Dict}
use turn_vector_benchmark.Base.Int.{ℤ, pos, negsuc}
use turn_vector_benchmark.Lifecycle.{
  Json, null, bool, int, float, str, arr, obj, Items, no_items, item, Fields, no_fields, field,
  items, entries,
}
use turn_vector_benchmark.Lifecycle.Contracts.{
  max_array_items, i64_max, get, strict_object, bounded_string, sha256_digest, integer,
  bounded_array, parse_all,
}

abbrev pub lifecycle_protocol_version : String
lifecycle_protocol_version = "turnvector.benchmark.cross-engine-lifecycle.v1"

abbrev pub request_fields : List String
request_fields = "kind" ∷ "protocol_version" ∷ "request_id" ∷ "payload" ∷ []

abbrev pub response_fields : List String
response_fields = "kind" ∷ "protocol_version" ∷ "request_id" ∷ "status" ∷ "payload" ∷ "error" ∷ []

abbrev pub registered_error_codes : List String
registered_error_codes =
    "invalid_request" ∷ "invalid_state" ∷ "unsupported" ∷ "prepare_failed" ∷ "start_failed"
    ∷ "endpoint_unavailable" ∷ "reset_failed" ∷ "stop_failed" ∷ "shutdown_failed" ∷ "internal_error"
    ∷ []

abbrev pub request_payload_fields : Dict (List String)
request_payload_fields =
    ("hello", "requested_adapter_protocol" ∷ [])
    ∷ (
      "prepare_session",
      "run_id" ∷ "session_id" ∷ "state_root" ∷ "target_sha256" ∷ "config_sha256" ∷ "model_sha256"
          ∷ "reset_policy" ∷ [],
    )
    ∷ ("start_target", "argv" ∷ "config" ∷ "environment_names" ∷ "readiness_deadline_ms" ∷ [])
    ∷ ("describe_endpoint", "target_id" ∷ "session_id" ∷ [])
    ∷ ("reset_state", "reset_ordinal" ∷ "reset_policy" ∷ "expected_prior_inventory_sha256" ∷ [])
    ∷ ("stop_target", "reason" ∷ "deadline_ms" ∷ "expected_process_group_leader_pid" ∷ [])
    ∷ ("shutdown", "session_id" ∷ [])
    ∷ []

abbrev pub response_payload_fields : Dict (List String)
response_payload_fields =
    (
      "hello_ack",
      "adapter_protocol" ∷ "adapter_id" ∷ "adapter_version" ∷ "target_family"
          ∷ "lifecycle_capabilities" ∷ [],
    )
    ∷ (
      "prepared",
      "run_id" ∷ "session_id" ∷ "target_sha256" ∷ "config_sha256" ∷ "model_sha256" ∷ "reset_policy"
          ∷ "initial_state_inventory_sha256" ∷ [],
    )
    ∷ ("target_started", "process_group_leader_pid" ∷ "child_processes" ∷ "started_at_ns" ∷ [])
    ∷ ("endpoint_ready", "target_id" ∷ "session_id" ∷ "endpoint" ∷ "listener_owner" ∷ [])
    ∷ (
      "state_reset",
      "reset_ordinal" ∷ "reset_policy" ∷ "pre_processes" ∷ "post_processes"
          ∷ "prior_inventory_sha256" ∷ "current_inventory_sha256" ∷ [],
    )
    ∷ (
      "target_stopped",
      "process_group_leader_pid" ∷ "exit_records" ∷ "surviving_process_ids" ∷ "surviving_listeners"
          ∷ [],
    )
    ∷ ("shutdown_ack", "session_id" ∷ "diagnostic_count" ∷ "no_live_children" ∷ [])
    ∷ []

-- A check whose result is dropped.
abbrev pub check {ℓ} : {A : Type ℓ} → Result A → Result (Unit {0})
check (ok a) = ok tt
check (err e) = err e

-- One check at each of several fields.
abbrev pub check_each : (Json → Result String) → Dict Json → List String → Result (Unit {0})
check_each parse d [] = ok tt
check_each parse d (k ∷ ks) = do v ← get d k; s ← parse v; check_each parse d ks

-- `value == text`
abbrev pub is_text : Json → String → Bool
is_text (str s) t = str_eq s t
is_text _ t = false

-- `_bounded_json`, at a depth
unfoldable mutual
  pub bounded_json : Json → ℕ → Result (Unit {0})
  bounded_json null depth = raise_if (ltb 16 depth) contract_error
  bounded_json (bool b) depth = raise_if (ltb 16 depth) contract_error
  bounded_json (int n) depth = raise_if (ltb 16 depth) contract_error
  bounded_json (float finite n _) depth = do
    raise_if (ltb 16 depth) contract_error
    raise_if (not finite) contract_error
  bounded_json (str s) depth = do
    raise_if (ltb 16 depth) contract_error
    check (bounded_string 16384 true (str s))
  bounded_json (arr vs) depth = do
    raise_if (ltb 16 depth) contract_error
    raise_if (ltb max_array_items (length (items vs))) contract_error
    bounded_items vs (depth + 1)
  bounded_json (obj fs) depth = do
    raise_if (ltb 16 depth) contract_error
    raise_if (ltb max_array_items (length (entries fs))) contract_error
    bounded_fields fs (depth + 1)

  pub bounded_items : Items → ℕ → Result (Unit {0})
  bounded_items no_items depth = ok tt
  bounded_items (item v vs) depth = do bounded_json v depth; bounded_items vs depth

  pub bounded_fields : Fields → ℕ → Result (Unit {0})
  bounded_fields no_fields depth = ok tt
  bounded_fields (field k v fs) depth = do
    check (bounded_string 128 false (str k))
    bounded_json v depth
    bounded_fields fs depth

unfoldable pub argv : Json → Result (List String)
argv value = do raw ← bounded_array 256 false value; parse_all (bounded_string 4096 false) raw

-- `len(pids) != len(set(pids))`
abbrev pub has_int : ℤ → List ℤ → Bool
has_int v [] = false
has_int (pos m) (pos n ∷ ns) = (m == n) || has_int (pos m) ns
has_int (negsuc m) (negsuc n ∷ ns) = (m == n) || has_int (negsuc m) ns
has_int (pos m) (negsuc n ∷ ns) = has_int (pos m) ns
has_int (negsuc m) (pos n ∷ ns) = has_int (negsuc m) ns

abbrev pub distinct_ints : List ℤ → Bool
distinct_ints [] = true
distinct_ints (n ∷ ns) = not (has_int n ns) && distinct_ints ns

abbrev pub process_record : Json → Result ℤ
process_record raw = do
  d ← strict_object ("pid" ∷ "executable" ∷ "executable_sha256" ∷ []) [] raw
  v ← get d "pid"
  pid ← integer (pos 1) (pos 2147483647) v
  v ← get d "executable"
  s ← bounded_string 4096 false v
  v ← get d "executable_sha256"
  s ← sha256_digest v
  ok pid

unfoldable pub process_records : Json → Result (Unit {0})
process_records value = do
  raw ← bounded_array 1024 true value
  pids ← parse_all process_record raw
  raise_if (not (distinct_ints pids)) contract_error

abbrev pub exit_record : Json → Result ℤ
exit_record raw = do
  d ← strict_object ("pid" ∷ "returncode" ∷ []) [] raw
  v ← get d "pid"
  pid ← integer (pos 1) i64_max v
  v ← get d "returncode"
  n ← integer (negsuc 2147483647) (pos 2147483647) v
  ok pid

unfoldable pub exit_records : Json → Result (Unit {0})
exit_records value = do
  raw ← bounded_array 1024 true value
  pids ← parse_all exit_record raw
  raise_if (not (distinct_ints pids)) contract_error
