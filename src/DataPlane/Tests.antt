-- ===== src/DataPlane/Tests.antt =====
-- A generation with a server that follows a script, and the theorems at these inputs.
use turn_vector_benchmark.Base.{
  String, ◌≡◌, refl, true, false, none, List, [], ◌∷◌, Result, ok, err, contract_error, arith,
}
use turn_vector_benchmark.DataPlane.{
  HelloAck, RequestAccepted, request_accepted, StatusUpdate, OutputFrame, Event, hello_ack,
  direct_response, status_update, output_frame, Wire, Descriptor,
}
use turn_vector_benchmark.DataPlane.Client.{Client, close, send, receive, accept_hello, negotiate}
use turn_vector_benchmark.DataPlane.Client.Negotiated.{IsNegotiated, negotiate-IsNegotiated}
use turn_vector_benchmark.DataPlane.Generation.{
  Received, no_event, Generated, follow_request, new_following,
}
use turn_vector_benchmark.DataPlane.Generation.Stream.{
  Stream, ended, status, output, Delivers, silent, frame, at, arrived, follow_request-Stream,
}

abbrev digest : String
digest = "0123456789abcdef0123456789abcdef0123456789abcdef0123456789abcdef"

abbrev request_text : String
request_text = "0123456789abcdef0123456789abcdef"

abbrev descriptor : Descriptor
descriptor = record {
  descriptor_sha256 = digest;
  max_frame_bytes = 65536;
  max_outstanding_commands = 4;
  max_command_bytes = 4096;
  max_server_write_timeout_ms = 5000;
}

abbrev greeting : HelloAck
greeting = record {
  family = "turnvector.data-plane";
  major = 1;
  selected_minor = 1;
  selected_descriptor_sha256 = digest;
  effective_capability_ids = 1 ∷ 4 ∷ [];
  effective_limits = record {
    max_frame_bytes = 1024;
    max_outstanding_commands = 2;
    max_command_bytes = 4096;
  };
  daemon_instance_id = request_text;
  installation_policy_identity = digest;
  no_progress_write_timeout_ms = 100;
  maximum_completion_write_timeout_ms = 5000;
}

abbrev accepted : RequestAccepted
accepted = record {
  request_id = request_text;
  frozen_model_revision = digest;
  status_version = 1;
  state = "accepted";
  reservation_created = false;
  backend_handle_created = false;
}

abbrev materialized : StatusUpdate
materialized = record {
  request_id = request_text;
  status_version = 2;
  state = "materialized";
  terminal = false;
  reservation_created = true;
  backend_handle_created = true;
}

abbrev finished : StatusUpdate
finished = record materialized { status_version = 3; state = "terminal"; terminal = true }

abbrev first : OutputFrame
first = record {
  request_id = request_text;
  output_sequence = 0;
  token_ids = 11 ∷ 12 ∷ [];
  output_capacity_reserved = true;
  publication_id = request_text;
}

abbrev second : OutputFrame
second = record first { output_sequence = 2; token_ids = 13 ∷ [] }

abbrev frames : List Event
frames =
    status_update materialized
    ∷ output_frame first
    ∷ output_frame second
    ∷ status_update finished
    ∷ []

-- A connection that gives its frames from a list.
abbrev next_frame : List Event → Result Event × List Event
next_frame [] = (err contract_error, [])
next_frame (e ∷ es) = (ok e, es)

abbrev wire : Wire (List Event)
wire = record {
  connect = λ s. (ok tt, s);
  size = λ command. 100;
  send = λ command s. (ok tt, s);
  receive = λ bound s. next_frame s;
  stall = λ timeouts s. (ok tt, s);
  close = λ s. s;
}

abbrev script : List Event
script = hello_ack greeting ∷ direct_response 1 (request_accepted accepted) ∷ frames

abbrev good_generation : Generated
good_generation = record {
  request_id = request_text;
  lifecycle = "terminal" ∷ "materialized" ∷ "accepted" ∷ [];
  outputs = second ∷ first ∷ [];
  accepted = accepted;
  cancellation = none;
  terminal_status_observed = true;
  connection_disconnected = false;
  generated_token_ids = 11 ∷ 12 ∷ 13 ∷ [];
}

abbrev connected : List Event → Client (List Event)
connected s = record {
  wire = s;
  connected = true;
  command_id = 1;
  max_frame_bytes = 1024;
  server_write_timeouts_ms = (100, 5000);
}

abbrev nothing : Received
nothing = record { states = "accepted" ∷ []; outputs = []; status_versions = [] }

abbrev everything : Received
everything = record {
  states = "terminal" ∷ "materialized" ∷ "accepted" ∷ [];
  outputs = second ∷ first ∷ [];
  status_versions = 3 ∷ 2 ∷ [];
}

frames-Stream : Stream request_text nothing frames everything
frames-Stream =
    status materialized
      (record { own = refl; above = omega arith; newer = refl; backed = refl; flagged = refl }) refl
      (output first (record { own = refl; tokens = refl; next = refl; published = refl })
        (output second (record { own = refl; tokens = refl; next = refl; published = refl })
          (ended finished _
            (record {
              own = refl;
              above = omega arith;
              newer = refl;
              backed = refl;
              flagged = refl;
            })
            refl)))

frames-Delivers : Delivers wire descriptor request_text (connected frames) frames (connected [])
unfolding receive
frames-Delivers = frame (status_update materialized) refl (
    frame (output_frame first) refl
      (frame (output_frame second) refl (frame (status_update finished) refl (silent _))))

follow_request-Stream_example :
    follow_request wire descriptor no_event request_text (
      at wire descriptor request_text
        (new_following wire descriptor frames)
        (connected frames)
        nothing)
    ≡ (
      ok tt,
      arrived wire descriptor request_text
          (new_following wire descriptor frames)
          (connected [])
          everything,
    )
follow_request-Stream_example =
    follow_request-Stream wire descriptor request_text (new_following wire descriptor frames)
      (connected frames) (connected []) nothing everything frames frames-Stream frames-Delivers
      (omega arith)

greeted : (negotiate wire descriptor (connected script)).0 ≡ ok greeting
unfolding negotiate send receive accept_hello
greeted = refl

negotiate-IsNegotiated_example :
    IsNegotiated descriptor greeting (negotiate wire descriptor (connected script)).1
negotiate-IsNegotiated_example =
    negotiate-IsNegotiated wire descriptor (connected script) greeting greeted
