-- ===== src/DataPlane/Client/Negotiated.antt =====
-- What a negotiation that has returned has agreed on.
use turn_vector_benchmark.Base.{
  ℕ, ◌≤◌, ◌≡◌, sym, ◌∙◌, true, false, not, ◌||◌, any, arith, ok, str_eq, subst, ◌==◌,
}
use turn_vector_benchmark.Base.Exec.{◌>>=◌}
use turn_vector_benchmark.Base.Exec.Steps.{exec-inverse}
use turn_vector_benchmark.DataPlane.{
  HelloAck, Event, hello_ack, direct_response, status_update, output_frame, client_hello, Wire,
  Descriptor,
}
use turn_vector_benchmark.DataPlane.Client.{
  Client, is_ascending, is_selected, are_offered, are_bounded, send, receive, accept_hello,
  negotiate,
}

abbrev pub IsWithin : ℕ → ℕ → Type 0
IsWithin n maximum = (1 ≤ n) × (n ≤ maximum)

-- The limits of the connection are positive and at most those that the client has offered, and the
-- capabilities are ascending and not zero.
pub record IsNegotiated {S : Type 0} (descriptor : Descriptor) (a : HelloAck) (c : Client S)
    : Type 0 where
  pub frame_bytes : IsWithin c.max_frame_bytes descriptor.max_frame_bytes
  pub commands :
      IsWithin a.effective_limits.max_outstanding_commands descriptor.max_outstanding_commands
  pub command_bytes : IsWithin a.effective_limits.max_command_bytes descriptor.max_command_bytes
  pub no_progress : IsWithin c.server_write_timeouts_ms.0 descriptor.max_server_write_timeout_ms
  pub completion : IsWithin c.server_write_timeouts_ms.1 descriptor.max_server_write_timeout_ms
  pub ascending : is_ascending a.effective_capability_ids ≡ true
  pub nonzero : any (λ value. value == 0) a.effective_capability_ids ≡ false
  pub descriptor_agreed : str_eq a.selected_descriptor_sha256 descriptor.descriptor_sha256 ≡ true

module _ {S : Type 0} (wire : Wire S) (descriptor : Descriptor) where
  -- The checks that a hello passes.
  hello_checked :
      (b : HelloAck) (c : Client S) (a : HelloAck)
      → (accept_hello wire descriptor (hello_ack b) c).0 ≡ ok a
      → (is_selected descriptor b ≡ true)
        × ((not (is_ascending b.effective_capability_ids)
              || any (λ value. value == 0) b.effective_capability_ids)
            ≡ false)
        × (are_offered descriptor b.effective_limits ≡ true)
        × (are_bounded descriptor b ≡ true)
        × (b ≡ a)
        × ((accept_hello wire descriptor (hello_ack b) c).1 ≡ record c {
          max_frame_bytes = b.effective_limits.max_frame_bytes;
          server_write_timeouts_ms =
              (b.no_progress_write_timeout_ms, b.maximum_completion_write_timeout_ms);
        })
  unfolding accept_hello
  hello_checked b c a h =
      (ground arith, ground arith, ground arith, ground arith, ground arith, ground arith)

  accepted_hello :
      (event : Event) (c : Client S) (a : HelloAck)
      → (accept_hello wire descriptor event c).0 ≡ ok a
      → IsNegotiated descriptor a (accept_hello wire descriptor event c).1
  unfolding accept_hello
  accepted_hello (direct_response n x) c a h = cc
  accepted_hello (status_update u) c a h = cc
  accepted_hello (output_frame o) c a h = cc
  accepted_hello (hello_ack b) c a h =
      let (selected, capable, offered, bounded, same, state) = hello_checked b c a h in
      subst (IsNegotiated descriptor a) (sym state) (
        rw (← same) (record {
          frame_bytes = ground arith;
          commands = ground arith;
          command_bytes = ground arith;
          no_progress = ground arith;
          completion = ground arith;
          ascending = ground arith;
          nonzero = ground arith;
          descriptor_agreed = ground arith;
        }))

-- After a negotiation that has returned, the frame bound and the write timeouts of the client are
-- positive and at most what its descriptor allows, as are the other limits of the server, its
-- capabilities are ascending and nonzero, and it selected the client's descriptor.
pub negotiate-IsNegotiated :
    {S : Type 0} (wire : Wire S) (descriptor : Descriptor) (c : Client S) (a : HelloAck)
    → (negotiate wire descriptor c).0 ≡ ok a
    → IsNegotiated descriptor a (negotiate wire descriptor c).1
unfolding negotiate
negotiate-IsNegotiated wire descriptor c a h =
    let rest = receive wire descriptor >>= accept_hello wire descriptor in
    let (_, _, h1, s1) = exec-inverse (send wire descriptor client_hello) (λ _. rest) c a h in
    let c1 = (send wire descriptor client_hello c).1 in
    let (e, _, h2, s2) =
      exec-inverse (receive wire descriptor) (accept_hello wire descriptor) c1 a h1 in
    let c2 = (receive wire descriptor c1).1 in
    subst (IsNegotiated descriptor a) (sym (s1 ∙ s2)) (accepted_hello wire descriptor e c2 a h2)
