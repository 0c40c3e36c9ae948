-- ===== src/Lifecycle/Client/Tests.antt =====
-- A client whose adapter ends before its answer, and the theorem at this input.
use turn_vector_benchmark.Base.{
  ℕ, ◌+◌, String, Bool, ◌≡◌, refl, true, false, Option, none, [], ◌∷◌, ◌⊎◌, err, contract_error,
  remote_error, inl,
}
use turn_vector_benchmark.Base.Dict.{lookup}
use turn_vector_benchmark.Base.Sets.{add}
use turn_vector_benchmark.Lifecycle.{Json, str, obj, no_fields, field}
use turn_vector_benchmark.Lifecycle.Contracts.{
  strict_object, bounded_string, identifier, canonical_size,
}
use turn_vector_benchmark.Lifecycle.Payloads.{validate_request_payload}
use turn_vector_benchmark.Lifecycle.Envelopes.{validate_lifecycle_request}
use turn_vector_benchmark.Lifecycle.Machine.{new_machine, spawned, transition, expected_response}
use turn_vector_benchmark.Lifecycle.Client.{
  Adapter, LifecycleClient, await_line, complete_request, prepare_request, write_request,
  send_request,
}
use turn_vector_benchmark.Lifecycle.Client.Closed.{request_fails_closed}

-- The count of lines that have been written.
abbrev silent : Adapter ℕ
silent = record {
  write = λ line n. (true, n + 1);
  read = λ n. (none, n);
  overflowed = λ n. false;
  wait = λ n. (none, n);
  poll = λ n. none;
}

abbrev number : ℕ → String
number n = "request-000001"

abbrev fresh_client : LifecycleClient ℕ
fresh_client = record { process = 0; machine = new_machine; sequence = 0; failed = false }

abbrev hello_payload : Json
hello_payload = obj (
    field "requested_adapter_protocol" (str "turnvector.benchmark.cross-engine-lifecycle.v1")
      no_fields)

abbrev broken_client : LifecycleClient ℕ
broken_client = record {
  process = 1;
  machine = record { state = spawned; request_ids = "request-000001" ∷ []; response_ids = [] };
  sequence = 1;
  failed = true;
}

unanswered :
    send_request silent 1048576 number "hello" hello_payload none true fresh_client
    ≡ (err contract_error, broken_client)
unfolding send_request prepare_request write_request complete_request await_line
    validate_lifecycle_request strict_object bounded_string identifier validate_request_payload
    lookup expected_response transition add canonical_size
unanswered = refl

request_fails_closed_example :
    (broken_client.process ≡ fresh_client.process)
    ⊎ (((contract_error ≡ remote_error) × (broken_client.failed ≡ false))
        ⊎ ((later_kind : String) (later : Json) (later_id : Option String) (later_valid : Bool)
            → send_request silent 1048576 number later_kind later later_id later_valid broken_client
              ≡ (err contract_error, broken_client)))
request_fails_closed_example =
    request_fails_closed silent 1048576 number "hello" hello_payload none true fresh_client
      broken_client contract_error (inl refl) unanswered
