-- ===== src/DataPlane/Generation/Contiguous.antt =====
-- What `run_generation` returns: the outputs of one request, without gap or overlap.
use turn_vector_benchmark.Base.{
  ℕ, zero, suc, String, ◌≡◌, refl, Bool, true, false, ◌⊎◌, All, arith, ok,
}
use turn_vector_benchmark.Base.Exec.{Exec, ◌>>=◌}
use turn_vector_benchmark.DataPlane.Generation.Order.{IsContiguous, IsReceived}
use turn_vector_benchmark.DataPlane.{Wire, Descriptor}
use turn_vector_benchmark.DataPlane.Client.{Client, receive}
use turn_vector_benchmark.DataPlane.Generation.{
  Following, Generated, generated_tokens, on_client, follow_event, cancel_if_due, follow_frames,
}

module _ {S : Type 0} (request_id : String) where
  -- What has been received is in order.
  abbrev InOrder : Following S → Type 0
  InOrder f = IsReceived request_id f.received

  module _ (wire : Wire S) (descriptor : Descriptor) where
    -- A round of the loop.
    abbrev pub follow_round : ℕ → Bool → Exec (Following S) (Unit {0})
    follow_round left b = on_client (receive wire descriptor) >>= λ event.
        follow_event request_id event >>= λ _. cancel_if_due wire descriptor b request_id >>= λ _.
        follow_frames wire descriptor left b request_id

    pub follow_step :
        (left : ℕ) (b : Bool) (f : Following S)
        → f.terminal ≡ false
        → follow_frames wire descriptor (suc left) b request_id f ≡ follow_round left b f
    unfolding follow_frames
    follow_step left b f going = ground arith

    pub follow_stop :
        (left : ℕ) (b : Bool) (f : Following S)
        → f.terminal ≡ true
        → follow_frames wire descriptor left b request_id f ≡ (ok tt, f)
    unfolding follow_frames
    follow_stop zero b f ended = refl
    follow_stop (suc left) b f ended = ground arith

-- What is returned of a generation: its outputs are its own, each with tokens and beginning where those
-- before it end, and it has ended or has been left by the client.
pub record IsGenerated (g : Generated) : Type 0 where
  pub contiguous : IsContiguous g.outputs
  pub own : All (λ o. o.request_id ≡ g.request_id) g.outputs
  pub tokens : g.generated_token_ids ≡ generated_tokens g.outputs
  pub ended : (g.terminal_status_observed ≡ true) ⊎ (g.connection_disconnected ≡ true)
