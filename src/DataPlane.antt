-- ===== src/DataPlane.antt =====
-- turnvector_benchmark/data_plane.py: the client of the data plane and the generation that it follows.
-- A frame is what the code reads of a normalised server frame; the times of its arrival are left out.
pub mod Client
pub mod Generation
mod Tests
use turn_vector_benchmark.Base.{ℕ, String, Bool, List, Result}

pub record FrameLimits : Type 0 where
  pub max_frame_bytes : ℕ
  pub max_outstanding_commands : ℕ
  pub max_command_bytes : ℕ

pub record HelloAck : Type 0 where
  pub family : String
  pub major : ℕ
  pub selected_minor : ℕ
  pub selected_descriptor_sha256 : String
  pub effective_capability_ids : List ℕ
  pub effective_limits : FrameLimits
  pub daemon_instance_id : String
  pub installation_policy_identity : String
  pub no_progress_write_timeout_ms : ℕ
  pub maximum_completion_write_timeout_ms : ℕ

pub record RequestAccepted : Type 0 where
  pub request_id : String
  pub frozen_model_revision : String
  pub status_version : ℕ
  pub state : String
  pub reservation_created : Bool
  pub backend_handle_created : Bool

pub record CancellationAccepted : Type 0 where
  pub request_id : String
  pub event_sequence : ℕ

pub data DirectResponse : Type 0 where
  request_accepted : RequestAccepted → DirectResponse
  cancellation_accepted : CancellationAccepted → DirectResponse
  error : DirectResponse

pub record StatusUpdate : Type 0 where
  pub request_id : String
  pub status_version : ℕ
  pub state : String
  pub terminal : Bool
  pub reservation_created : Bool
  pub backend_handle_created : Bool

pub record OutputFrame : Type 0 where
  pub request_id : String
  pub output_sequence : ℕ
  pub token_ids : List ℕ
  pub output_capacity_reserved : Bool
  pub publication_id : String

pub data Event : Type 0 where
  hello_ack : HelloAck → Event
  direct_response : ℕ → DirectResponse → Event
  status_update : StatusUpdate → Event
  output_frame : OutputFrame → Event

-- What the client sends.
pub data Command : Type 0 where
  client_hello : Command
  submit_request : ℕ → String → List ℕ → ℕ → ℕ → String → Command
  cancel_request : ℕ → String → Command

-- The connection: connecting, sending a frame of a size and receiving one within a bound, waiting until a
-- stalled connection is closed, and closing. What they raise, a `ContractError` or a
-- `DataPlaneEnvironmentError`, is an error.
pub record Wire (S : Type 0) : Type 0 where
  pub connect : S → Result (Unit {0}) × S
  pub size : Command → ℕ
  pub send : Command → S → Result (Unit {0}) × S
  pub receive : ℕ → S → Result Event × S
  pub stall : ℕ × ℕ → S → Result (Unit {0}) × S
  pub close : S → S

pub record Descriptor : Type 0 where
  pub descriptor_sha256 : String
  pub max_frame_bytes : ℕ
  pub max_outstanding_commands : ℕ
  pub max_command_bytes : ℕ
  pub max_server_write_timeout_ms : ℕ
