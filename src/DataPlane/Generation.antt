-- ===== src/DataPlane/Generation.antt =====
-- `_append_event` and `run_generation` of turnvector_benchmark/data_plane.py, for a request without a start
-- barrier. Lists that the code appends to are kept newest first.
pub mod Order
pub mod Contiguous
pub mod Stream
use Prim.Native.String.{len}
use turn_vector_benchmark.Base.{
  ℕ, zero, suc, ◌+◌, ◌*◌, ◌%◌, ltb, leb, ◌==◌, String, Bool, true, false, not, ◌&&◌, ◌||◌, Option,
  none, some, List, [], ◌∷◌, ◌++◌, is_empty, length, str_eq, Result, ok, err, contract_error,
}
use turn_vector_benchmark.Base.Exec.{Exec, pure, raise, gets, modify, raise_when, ◌>>=◌, ◌>>◌}
use turn_vector_benchmark.DataPlane.{
  RequestAccepted, CancellationAccepted, StatusUpdate, OutputFrame, Event, hello_ack,
  direct_response, status_update, output_frame, Wire, Descriptor,
}
use turn_vector_benchmark.DataPlane.Client.{Client, close, receive, enter, submit, cancel}

pub record Received : Type 0 where
  pub states : List String
  pub outputs : List OutputFrame
  pub status_versions : List ℕ

abbrev pub is_newer : ℕ → List ℕ → Bool
is_newer version [] = true
is_newer version (last ∷ _) = ltb last version

-- Where the next output begins.
abbrev pub expected_sequence : List OutputFrame → ℕ
expected_sequence [] = 0
expected_sequence (last ∷ _) = last.output_sequence + length last.token_ids

abbrev pub agree : Bool → Bool → Bool
agree true b = b
agree false b = not b

unfoldable pub append_status : StatusUpdate → Exec Received Bool
append_status u = do
  r ← gets (λ r. r)
  raise_when (leb u.status_version 1 || not (is_newer u.status_version r.status_versions))
      contract_error
  modify (λ r. record r {
    states = u.state ∷ r.states;
    status_versions = u.status_version ∷ r.status_versions;
  })
  raise_when
      (str_eq u.state "materialized" && not (u.reservation_created && u.backend_handle_created))
      contract_error
  raise_when (not (agree u.terminal (str_eq u.state "terminal"))) contract_error
  pure u.terminal

unfoldable pub append_output : OutputFrame → Exec Received Bool
append_output o = do
  r ← gets (λ r. r)
  raise_when (is_empty o.token_ids) contract_error
  raise_when (not (o.output_sequence == expected_sequence r.outputs)) contract_error
  raise_when (not (len o.publication_id == 32)) contract_error
  modify (λ r. record r { outputs = o ∷ r.outputs })
  pure false

-- Whether the event ends the request. A hello has no request id.
unfoldable pub append_event : String → Event → Exec Received Bool
append_event request_id (direct_response n response) = pure false
append_event request_id (status_update u) = do
  raise_when (not (str_eq u.request_id request_id)) contract_error
  append_status u
append_event request_id (output_frame o) = do
  raise_when (not (str_eq o.request_id request_id)) contract_error
  append_output o
append_event request_id (hello_ack a) = raise contract_error

abbrev pub input_tokens : ℕ → ℕ → ℕ → List ℕ
input_tokens seed index zero = []
input_tokens seed index (suc left) =
    ((seed + index * 17) % 32000 + 1) ∷ input_tokens seed (suc index) left

pub data ClientEvent : Type 0 where
  no_event disconnect backpressure_timeout cancel_before_receipt cancel_after_receipt : ClientEvent

abbrev pub is_cancel_after : ClientEvent → Bool
is_cancel_after cancel_after_receipt = true
is_cancel_after _ = false

-- The client and the local variables of `run_generation`.
pub record Following (S : Type 0) : Type 0 where
  pub client : Client S
  pub received : Received
  pub terminal : Bool
  pub cancellation : Option CancellationAccepted
  pub disconnected : Bool

pub record Generated : Type 0 where
  pub request_id : String
  pub lifecycle : List String
  pub outputs : List OutputFrame
  pub accepted : RequestAccepted
  pub cancellation : Option CancellationAccepted
  pub terminal_status_observed : Bool
  pub connection_disconnected : Bool
  pub generated_token_ids : List ℕ

abbrev pub has_outputs : Received → Bool
has_outputs r = not (is_empty r.outputs)

abbrev pub is_none : Option CancellationAccepted → Bool
is_none none = true
is_none (some _) = false

-- `[token for item in outputs for token in item["token_ids"]]`, of outputs that are newest first
unfoldable pub generated_tokens : List OutputFrame → List ℕ
generated_tokens [] = []
generated_tokens (o ∷ os) = generated_tokens os ++ o.token_ids

module _ {S : Type 0} where
  abbrev pub on_client : {A : Type 0} → Exec (Client S) A → Exec (Following S) A
  on_client m f = let (r, c) = m f.client in (r, record f { client = c })

  abbrev pub on_received : {A : Type 0} → Exec Received A → Exec (Following S) A
  on_received m f = let (r, x) = m f.received in (r, record f { received = x })

  -- `terminal |= _append_event(event, ...)`
  unfoldable pub follow_event : String → Event → Exec (Following S) (Unit {0})
  follow_event request_id event = do
    ended ← on_received (append_event request_id event)
    modify (λ f. record f { terminal = f.terminal || ended })

  -- Events that are newest first.
  unfoldable pub follow_all : String → List Event → Exec (Following S) (Unit {0})
  follow_all request_id [] = pure tt
  follow_all request_id (event ∷ events) = do
    follow_all request_id events
    follow_event request_id event

  module _ (wire : Wire S) (descriptor : Descriptor) where
    unfoldable pub follow_cancel : String → Exec (Following S) (Unit {0})
    follow_cancel request_id = do
      done ← on_client (cancel wire descriptor request_id)
      modify (λ f. record f { cancellation = some done.0 })
      follow_all request_id done.1

    -- `if cancel_after_output and outputs and cancellation is None`
    unfoldable pub cancel_if_due : Bool → String → Exec (Following S) (Unit {0})
    cancel_if_due cancel_after_output request_id f =
        elim (cancel_after_output && has_outputs f.received && is_none f.cancellation) [
          | true ↦ follow_cancel request_id f
          | false ↦ (ok tt, f)
        ]

    -- `for _ in range(100_000)`, with a number of rounds left.
    unfoldable pub follow_frames : ℕ → Bool → String → Exec (Following S) (Unit {0})
    follow_frames zero cancel_after_output request_id f = (ok tt, f)
    follow_frames (suc left) cancel_after_output request_id f = elim f.terminal [
      | true ↦ (ok tt, f)
      | false ↦
          (on_client (receive wire descriptor) >>= λ event.
          follow_event request_id event
          >> cancel_if_due cancel_after_output request_id
          >> follow_frames left cancel_after_output request_id)
            f
    ]

    unfoldable pub before_receipt : ClientEvent → String → Exec (Following S) (Unit {0})
    before_receipt cancel_before_receipt request_id = follow_cancel request_id
    before_receipt _ request_id = pure tt

    -- `if not terminal: raise ContractError(...)`
    abbrev pub require_terminal : Exec (Following S) (Unit {0})
    require_terminal f = raise_when (not f.terminal) contract_error f

    -- The frames of a request that stays connected.
    unfoldable pub follow_request : ClientEvent → String → Exec (Following S) (Unit {0})
    follow_request client_event request_id = do
      before_receipt client_event request_id
      follow_frames 100000 (is_cancel_after client_event) request_id
      require_terminal

    unfoldable pub serve_request : ClientEvent → String → Exec (Following S) (Unit {0})
    serve_request disconnect request_id =
        modify (λ f. record f { client = close wire descriptor f.client; disconnected = true })
    serve_request backpressure_timeout request_id = do
      f ← gets (λ f. f)
      raise_when (not f.client.connected) contract_error
      on_client (λ c.
          let (r, s) = wire.stall c.server_write_timeouts_ms c.wire in (r, record c { wire = s }))
      modify (λ f. record f { disconnected = true })
    serve_request client_event request_id = follow_request client_event request_id

    abbrev pub new_following : S → Following S
    new_following s = record {
      client = record {
        wire = s;
        connected = false;
        command_id = 0;
        max_frame_bytes = descriptor.max_frame_bytes;
        server_write_timeouts_ms = (0, 0);
      };
      received = record { states = "accepted" ∷ []; outputs = []; status_versions = [] };
      terminal = false;
      cancellation = none;
      disconnected = false;
    }

    abbrev pub generated : RequestAccepted → Following S → Generated
    generated accepted f = record {
      request_id = accepted.request_id;
      lifecycle = f.received.states;
      outputs = f.received.outputs;
      accepted = accepted;
      cancellation = f.cancellation;
      terminal_status_observed = f.terminal;
      connection_disconnected = f.disconnected;
      generated_token_ids = generated_tokens f.received.outputs;
    }

    module _ (model_revision service_class : String) (input_token_count max_output_tokens seed : ℕ)
        (client_event : ClientEvent) where
      unfoldable pub generate : Exec (Following S) Generated
      generate = do
        greeting ← on_client (enter wire descriptor)
        let tokens = input_tokens seed 0 input_token_count
        accepted ←
            on_client
              (submit wire descriptor model_revision tokens max_output_tokens seed service_class)
        serve_request client_event accepted.request_id
        gets (generated accepted)

      -- `finally: client.close()`
      unfoldable pub run_generation : Exec S Generated
      run_generation s =
          let (result, f) = generate (new_following s) in
          (result, (close wire descriptor f.client).wire)
