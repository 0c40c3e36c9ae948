-- ===== src/DataPlane/Generation/Stream.antt =====
-- A server that does what it should: `run_generation` follows a well-formed stream of frames to its end.
use Prim.Native.String.{len}
use turn_vector_benchmark.Base.{
  ℕ, zero, suc, ◌≤◌, ◌<◌, String, ◌≡◌, refl, true, false, not, ◌&&◌, List, [], ◌∷◌, arith, is_empty,
  length, str_eq, ok, ◌∙◌,
}
use turn_vector_benchmark.DataPlane.{
  StatusUpdate, OutputFrame, Event, status_update, output_frame, Wire, Descriptor,
}
use turn_vector_benchmark.DataPlane.Client.{Client, receive}
use turn_vector_benchmark.DataPlane.Generation.{
  Received, expected_sequence, is_newer, append_status, append_output, append_event, no_event,
  Following, follow_event, cancel_if_due, follow_frames, before_receipt, follow_request,
}
use turn_vector_benchmark.DataPlane.Generation.Contiguous.{follow_stop}

abbrev pub after_status : StatusUpdate → Received → Received
after_status u r = record r {
  states = u.state ∷ r.states;
  status_versions = u.status_version ∷ r.status_versions;
}

abbrev pub after_output : OutputFrame → Received → Received
after_output o r = record r { outputs = o ∷ r.outputs }

-- A status update that may come next.
pub record IsStatus (request_id : String) (r : Received) (u : StatusUpdate) : Type 0 where
  pub own : str_eq u.request_id request_id ≡ true
  pub above : 1 < u.status_version
  pub newer : is_newer u.status_version r.status_versions ≡ true
  pub backed :
      (str_eq u.state "materialized" && not (u.reservation_created && u.backend_handle_created))
      ≡ false
  pub flagged : str_eq u.state "terminal" ≡ u.terminal

-- An output that may come next.
pub record IsOutput (request_id : String) (r : Received) (o : OutputFrame) : Type 0 where
  pub own : str_eq o.request_id request_id ≡ true
  pub tokens : is_empty o.token_ids ≡ false
  pub next : o.output_sequence ≡ expected_sequence r.outputs
  pub published : len o.publication_id ≡ 32

-- Statuses and outputs up to a terminal status, and what has been received after them.
pub data Stream (request_id : String) : Received → List Event → Received → Type 0 where
  ended :
      (u : StatusUpdate) (r : Received)
      → IsStatus request_id r u
      → u.terminal ≡ true
      → Stream request_id r (status_update u ∷ []) (after_status u r)
  status :
      (u : StatusUpdate) {r r' : Received} {es : List Event}
      → IsStatus request_id r u
      → u.terminal ≡ false
      → Stream request_id (after_status u r) es r'
      → Stream request_id r (status_update u ∷ es) r'
  output :
      (o : OutputFrame) {r r' : Received} {es : List Event}
      → IsOutput request_id r o
      → Stream request_id (after_output o r) es r'
      → Stream request_id r (output_frame o ∷ es) r'

append-IsStatus :
    (request_id : String) (r : Received) (u : StatusUpdate)
    → IsStatus request_id r u
    → append_event request_id (status_update u) r ≡ (ok u.terminal, after_status u r)
unfolding append_event append_status
append-IsStatus request_id r u h = ground (arith, h.own, h.above, h.newer, h.backed, h.flagged)

append-IsOutput :
    (request_id : String) (r : Received) (o : OutputFrame)
    → IsOutput request_id r o
    → append_event request_id (output_frame o) r ≡ (ok false, after_output o r)
unfolding append_event append_output
append-IsOutput request_id r o h = ground (arith, h.own, h.tokens, h.next, h.published)

module _ {S : Type 0} (wire : Wire S) (descriptor : Descriptor) (request_id : String) where
  -- The frames that the connection delivers, one after the other.
  pub data Delivers : Client S → List Event → Client S → Type 0 where
    silent : (c : Client S) → Delivers c [] c
    frame :
        (e : Event) {c c' c'' : Client S} {es : List Event}
        → receive wire descriptor c ≡ (ok e, c')
        → Delivers c' es c''
        → Delivers c (e ∷ es) c''

  abbrev pub at : Following S → Client S → Received → Following S
  at f c r = record f { client = c; received = r; terminal = false }

  abbrev pub arrived : Following S → Client S → Received → Following S
  arrived f c r = record f { client = c; received = r; terminal = true }

  -- One round of the loop.
  round_on :
      (left : ℕ) (f : Following S) (c c' : Client S) (r r' : Received) (e : Event)
      → receive wire descriptor c ≡ (ok e, c')
      → append_event request_id e r ≡ (ok false, r')
      → follow_frames wire descriptor (suc left) false request_id (at f c r)
        ≡ follow_frames wire descriptor left false request_id (at f c' r')
  unfolding follow_frames follow_event cancel_if_due
  round_on left f c c' r r' e p q = ground arith

  round_last :
      (left : ℕ) (f : Following S) (c c' : Client S) (r r' : Received) (e : Event)
      → receive wire descriptor c ≡ (ok e, c')
      → append_event request_id e r ≡ (ok true, r')
      → follow_frames wire descriptor (suc left) false request_id (at f c r)
        ≡ follow_frames wire descriptor left false request_id (arrived f c' r')
  unfolding follow_frames follow_event cancel_if_due
  round_last left f c c' r r' e p q = ground arith

  -- As many rounds as frames are enough.
  follow-Stream :
      (left : ℕ) (f : Following S) (c c' : Client S) (r r' : Received) (es : List Event)
      → Stream request_id r es r'
      → Delivers c es c'
      → length es ≤ left
      → follow_frames wire descriptor left false request_id (at f c r) ≡ (ok tt, arrived f c' r')
  follow-Stream zero f c c' r r' es (ended u _ h t) d enough = absurd (omega (arith, enough))
  follow-Stream zero f c c' r r' es (status u h t rest) d enough = absurd (omega (arith, enough))
  follow-Stream zero f c c' r r' es (output o h rest) d enough = absurd (omega (arith, enough))
  follow-Stream (suc left) f c c' r r' es (ended u _ h t) (frame e p (silent _)) enough =
      round_last left f c _ r _ e p (rw (append-IsStatus request_id r u h) (rw t refl))
      ∙ follow_stop request_id wire descriptor left false (arrived f _ _) refl
  follow-Stream (suc left) f c c' r r' es (status u h t rest) (frame e p d) enough =
      round_on left f c _ r _ e p (rw (append-IsStatus request_id r u h) (rw t refl))
      ∙ follow-Stream left f _ c' (after_status u r) r' _ rest d (omega (arith, enough))
  follow-Stream (suc left) f c c' r r' es (output o h rest) (frame e p d) enough =
      round_on left f c _ r _ e p (append-IsOutput request_id r o h)
      ∙ follow-Stream left f _ c' (after_output o r) r' _ rest d (omega (arith, enough))

-- If the connection delivers a well-formed stream of at most 100000 frames, a request without client
-- events is followed to its terminal status, with the frames of the stream received and the connection
-- after the last of them.
pub follow_request-Stream :
    {S : Type 0} (wire : Wire S) (descriptor : Descriptor) (request_id : String) (f : Following S)
    (c c' : Client S) (r r' : Received) (es : List Event)
    → Stream request_id r es r'
    → Delivers wire descriptor request_id c es c'
    → length es ≤ 100000
    → follow_request wire descriptor no_event request_id (at wire descriptor request_id f c r)
      ≡ (ok tt, arrived wire descriptor request_id f c' r')
unfolding follow_request before_receipt
follow_request-Stream wire descriptor request_id f c c' r r' es stream delivered enough =
    ground (
      arith,
      follow-Stream wire descriptor request_id 100000 f c c' r r' es stream delivered enough,
    )
