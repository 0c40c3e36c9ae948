-- ===== src/Lifecycle/Machine.antt =====
-- `LifecycleStateMachine` of turnvector_benchmark/cross_engine/lifecycle.py. Its two methods are actions
-- on the machine; a request that a caller holds is the one that the check of requests let through.
pub mod Methods
pub mod Session
use turn_vector_benchmark.Base.{
  ℕ, ◌==◌, String, Bool, true, false, not, Option, none, some, is_some, List, [], ◌∷◌, str_eq,
  if◌then◌else◌, Result, ok, err, raise_if, contract_error, remote_error,
}
use turn_vector_benchmark.Base.Dict.{Dict}
use turn_vector_benchmark.Base.Sets.{contains, add}
use turn_vector_benchmark.Base.Int.{ℤ, pos, negsuc}
use turn_vector_benchmark.Base.Exec.{Exec, pure, raise, lift, gets, modify, raise_when, ◌>>=◌, ◌>>◌}
use turn_vector_benchmark.Lifecycle.{Json, null, bool, int, float, str, arr, obj}
use turn_vector_benchmark.Lifecycle.Contracts.{get, strict_object, identifier}
use turn_vector_benchmark.Lifecycle.Messages.{response_fields}
use turn_vector_benchmark.Lifecycle.Envelopes.{
  Request, Outcome, succeeded, failed, Response, validate_lifecycle_request,
  validate_lifecycle_response,
}

pub data LifecycleState : Type 0 where
  spawned negotiated prepared started ready stopped terminated : LifecycleState

-- `TRANSITIONS`: the kind of the response and the state after it.
unfoldable pub transition : LifecycleState → String → Option (String × LifecycleState)
transition spawned kind = if str_eq kind "hello" then some ("hello_ack", negotiated) else none
transition negotiated kind =
    if str_eq kind "prepare_session" then some ("prepared", prepared) else none
transition prepared kind =
    if str_eq kind "start_target" then some ("target_started", started) else none
transition started kind =
    if str_eq kind "describe_endpoint"
    then some ("endpoint_ready", ready)
    else if str_eq kind "stop_target"
    then some ("target_stopped", stopped)
    else none
transition ready kind =
    if str_eq kind "reset_state"
    then some ("state_reset", ready)
    else if str_eq kind "stop_target"
    then some ("target_stopped", stopped)
    else none
transition stopped kind = if str_eq kind "shutdown" then some ("shutdown_ack", terminated) else none
transition terminated kind = none

pub record Machine : Type 0 where
  pub state : LifecycleState
  pub request_ids : List String
  pub response_ids : List String

abbrev pub new_machine : Machine
new_machine = record { state = spawned; request_ids = []; response_ids = [] }

-- A missing entry of the table.
abbrev pub permitted : Option (String × LifecycleState) → Result (String × LifecycleState)
permitted none = err contract_error
permitted (some t) = ok t

unfoldable pub expected_response : Json → Exec Machine (String × LifecycleState)
expected_response request = do
  validated ← lift (validate_lifecycle_request request)
  m ← gets (λ m. m)
  raise_when (contains validated.request_id m.request_ids) contract_error
  next ← lift (permitted (transition m.state validated.kind))
  modify (λ m. record m { request_ids = add validated.request_id m.request_ids })
  pure next

-- The fields that a response repeats, under the request's name and its own.
unfoldable pub echoed_fields : String → List (String × String)
echoed_fields kind = elim (str_eq kind "hello") [
  | true ↦ ("requested_adapter_protocol", "adapter_protocol") ∷ []
  | false ↦ elim (str_eq kind "prepare_session") [
    | true ↦
        ("run_id", "run_id")
        ∷ ("session_id", "session_id")
        ∷ ("target_sha256", "target_sha256")
        ∷ ("config_sha256", "config_sha256")
        ∷ ("model_sha256", "model_sha256")
        ∷ ("reset_policy", "reset_policy")
        ∷ []
    | false ↦ elim (str_eq kind "describe_endpoint") [
      | true ↦ ("target_id", "target_id") ∷ ("session_id", "session_id") ∷ []
      | false ↦ elim (str_eq kind "reset_state") [
        | true ↦
            ("reset_ordinal", "reset_ordinal")
            ∷ ("reset_policy", "reset_policy")
            ∷ ("expected_prior_inventory_sha256", "prior_inventory_sha256")
            ∷ []
        | false ↦ elim (str_eq kind "stop_target") [
          | true ↦ ("expected_process_group_leader_pid", "process_group_leader_pid") ∷ []
          | false ↦ elim (str_eq kind "shutdown") [
            | true ↦ ("session_id", "session_id") ∷ []
            | false ↦ []
          ]
        ]
      ]
    ]
  ]
]

-- `==` of two echoed values. The checks of the messages leave only texts and integers there.
abbrev pub same_value : Json → Json → Bool
same_value (str s) (str t) = str_eq s t
same_value (int (pos m)) (int (pos n)) = m == n
same_value (int (negsuc m)) (int (negsuc n)) = m == n
same_value _ _ = false

unfoldable pub compare_fields :
    List (String × String) → Dict Json → Dict Json → Exec Machine (Unit {0})
compare_fields [] request response = pure tt
compare_fields ((request_field, response_field) ∷ fields) request response = do
  asked ← lift (get request request_field)
  echoed ← lift (get response response_field)
  raise_when (not (same_value asked echoed)) contract_error
  compare_fields fields request response

-- The end of `accept_response`: what the response says.
unfoldable pub conclude : Request → Outcome → LifecycleState → Exec Machine (Dict Json)
conclude request (failed code message) next_state = raise remote_error
conclude request (succeeded payload) next_state = do
  compare_fields (echoed_fields request.kind) request.payload payload
  modify (λ m. record m { state = next_state })
  pure payload

unfoldable pub accept_response : Request → Json → String → LifecycleState → Exec Machine (Dict Json)
accept_response request response expected_kind next_state = do
  envelope ← lift (strict_object response_fields [] response)
  v ← lift (get envelope "kind")
  observed_kind ← lift (identifier v)
  raise_when (not (str_eq observed_kind expected_kind)) contract_error
  validated ← lift (validate_lifecycle_response response)
  m ← gets (λ m. m)
  raise_when (not (contains validated.request_id m.request_ids)) contract_error
  raise_when (contains validated.request_id m.response_ids) contract_error
  raise_when (not (str_eq validated.request_id request.request_id)) contract_error
  raise_when (not (str_eq validated.kind expected_kind)) contract_error
  modify (λ m. record m { response_ids = add validated.request_id m.response_ids })
  conclude request validated.outcome next_state
