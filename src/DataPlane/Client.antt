-- ===== src/DataPlane/Client.antt =====
-- `DataPlaneClient` of turnvector_benchmark/data_plane.py: the negotiation, the submission and the
-- cancellation of a request.
pub mod Negotiated
use Prim.Native.String.{len}
use turn_vector_benchmark.Base.{
  ℕ, zero, suc, ◌+◌, ltb, leb, ◌==◌, String, Bool, true, false, not, ◌&&◌, ◌||◌, List, [], ◌∷◌, any,
  is_empty, str_eq, ok, err, contract_error, if◌then◌else◌,
}
use turn_vector_benchmark.Base.Order.{codes}
use turn_vector_benchmark.Base.Sets.{contains}
use turn_vector_benchmark.Base.Exec.{Exec, pure, raise, gets, modify, raise_when, ◌>>=◌, ◌>>◌}
use turn_vector_benchmark.Lifecycle.Contracts.{is_sha256}
use turn_vector_benchmark.DataPlane.{
  FrameLimits, HelloAck, RequestAccepted, CancellationAccepted, DirectResponse, request_accepted,
  cancellation_accepted, error, Event, hello_ack, direct_response, status_update, output_frame,
  Command, client_hello, submit_request, cancel_request, Wire, Descriptor,
}

abbrev pub protocol_family : String
protocol_family = "turnvector.data-plane"

pub record Client (S : Type 0) : Type 0 where
  pub wire : S
  pub connected : Bool
  pub command_id : ℕ
  pub max_frame_bytes : ℕ
  pub server_write_timeouts_ms : ℕ × ℕ

-- Natural numbers that are equal to `sorted(set(values))`.
abbrev pub is_ascending : List ℕ → Bool
is_ascending [] = true
is_ascending (a ∷ []) = true
is_ascending (a ∷ b ∷ l) = ltb a b && is_ascending (b ∷ l)

abbrev pub is_within : ℕ → ℕ → Bool
is_within n maximum = ltb 0 n && leb n maximum

abbrev pub is_selected : Descriptor → HelloAck → Bool
is_selected descriptor a =
    str_eq a.family protocol_family
    && (a.major == 1)
    && (a.selected_minor == 1)
    && str_eq a.selected_descriptor_sha256 descriptor.descriptor_sha256

abbrev pub are_offered : Descriptor → FrameLimits → Bool
are_offered descriptor limits =
    is_within limits.max_frame_bytes descriptor.max_frame_bytes
    && is_within limits.max_outstanding_commands descriptor.max_outstanding_commands
    && is_within limits.max_command_bytes descriptor.max_command_bytes

abbrev pub are_bounded : Descriptor → HelloAck → Bool
are_bounded descriptor a =
    is_within a.no_progress_write_timeout_ms descriptor.max_server_write_timeout_ms
    && is_within a.maximum_completion_write_timeout_ms descriptor.max_server_write_timeout_ms

abbrev pub service_names : List String
service_names = "interactive" ∷ "standard" ∷ "background" ∷ []

module _ {S : Type 0} (wire : Wire S) (descriptor : Descriptor) where
  abbrev pub on_wire : {A : Type 0} → Exec S A → Exec (Client S) A
  on_wire m c = let (r, s) = m c.wire in (r, record c { wire = s })

  unfoldable pub close : Client S → Client S
  close c = if c.connected then record c { wire = wire.close c.wire; connected = false } else c

  unfoldable pub send : Command → Exec (Client S) (Unit {0})
  send command = do
    c ← gets (λ c. c)
    raise_when (not c.connected) contract_error
    let size = wire.size command
    raise_when ((size == 0) || ltb c.max_frame_bytes size || ltb descriptor.max_command_bytes size)
        contract_error
    on_wire (wire.send command)

  unfoldable pub receive : Exec (Client S) Event
  receive = do
    c ← gets (λ c. c)
    raise_when (not c.connected) contract_error
    on_wire (wire.receive c.max_frame_bytes)

  -- The checks of the answer to the hello.
  unfoldable pub accept_hello : Event → Exec (Client S) HelloAck
  accept_hello (hello_ack a) = do
    raise_when (not (is_selected descriptor a)) contract_error
    raise_when
        (not (is_ascending a.effective_capability_ids)
          || any (λ value. value == 0) a.effective_capability_ids)
        contract_error
    raise_when (not (are_offered descriptor a.effective_limits)) contract_error
    raise_when (not (len a.daemon_instance_id == 32)) contract_error
    raise_when (not (len a.installation_policy_identity == 64)) contract_error
    raise_when (not (are_bounded descriptor a)) contract_error
    modify (λ c. record c {
      max_frame_bytes = a.effective_limits.max_frame_bytes;
      server_write_timeouts_ms =
          (a.no_progress_write_timeout_ms, a.maximum_completion_write_timeout_ms);
    })
    pure a
  accept_hello _ = raise contract_error

  unfoldable pub negotiate : Exec (Client S) HelloAck
  negotiate = do send client_hello; response ← receive; accept_hello response

  -- `__enter__`
  unfoldable pub enter : Exec (Client S) HelloAck
  enter = do on_wire wire.connect; modify (λ c. record c { connected = true }); negotiate

  unfoldable pub next_command : Exec (Client S) ℕ
  next_command = do
    modify (λ c. record c { command_id = suc c.command_id })
    n ← gets (λ c. c.command_id)
    raise_when (leb 18446744073709551616 n) contract_error
    pure n

  -- The checks of the direct response to a submission.
  unfoldable pub accept_submit : ℕ → String → Event → Exec (Client S) RequestAccepted
  accept_submit command_id model_revision (direct_response n (request_accepted a)) = do
    raise_when (not (n == command_id)) contract_error
    raise_when
        (not (len a.request_id == 32)
          || not (str_eq a.frozen_model_revision model_revision)
          || not (a.status_version == 1)
          || not (str_eq a.state "accepted")
          || a.reservation_created
          || a.backend_handle_created)
        contract_error
    pure a
  accept_submit command_id model_revision _ = raise contract_error

  unfoldable pub submit : String → List ℕ → ℕ → ℕ → String → Exec (Client S) RequestAccepted
  submit model_revision input_token_ids max_output_tokens sampling_seed service_class = do
    raise_when (not (contains service_class service_names)) contract_error
    raise_when (is_empty input_token_ids || any (λ t. leb 4294967296 t) input_token_ids)
        contract_error
    command_id ← next_command
    raise_when (not (is_sha256 (codes model_revision))) contract_error
    raise_when (not (is_within max_output_tokens 4294967295)) contract_error
    raise_when (not (is_within sampling_seed 18446744073709551615)) contract_error
    send (
        submit_request command_id model_revision input_token_ids max_output_tokens sampling_seed
          service_class)
    response ← receive
    accept_submit command_id model_revision response

  -- The answer to a cancellation, and the other frames that came before it, newest first.
  unfoldable pub await_cancel :
      ℕ → ℕ → String → List Event → Exec (Client S) (CancellationAccepted × List Event)
  await_cancel zero command_id request_id intervening = raise contract_error
  await_cancel (suc left) command_id request_id intervening = do
    response ← receive
    elim response [
      | direct_response n (cancellation_accepted a) ↦ (do
        raise_when (not (n == command_id)) contract_error
        raise_when (not (str_eq a.request_id request_id) || (a.event_sequence == 0)) contract_error
        pure (a, intervening))
      | direct_response n _ ↦ raise contract_error
      | event ↦ await_cancel left command_id request_id (event ∷ intervening)
    ]

  unfoldable pub cancel : String → Exec (Client S) (CancellationAccepted × List Event)
  cancel request_id = do
    raise_when (not (len request_id == 32)) contract_error
    command_id ← next_command
    send (cancel_request command_id request_id)
    await_cancel 10000 command_id request_id []
