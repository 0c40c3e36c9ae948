-- ===== src/DataPlane/Generation/Order.antt =====
-- What has been received stays in order: `_append_event` of turnvector_benchmark/data_plane.py.
use Prim.Native.String.{len}
use turn_vector_benchmark.Base.{
  ℕ, ◌<◌, leb, ◌==◌, String, ◌≡◌, refl, true, false, not, ◌||◌, List, [], ◌∷◌, inl, inr, ◌⊎◌, All,
  arith, eq_iff, length, length-append, is_empty, str_eq, Bool-cases, ◌∙◌,
}
use turn_vector_benchmark.DataPlane.{
  StatusUpdate, OutputFrame, Event, hello_ack, direct_response, status_update, output_frame,
}
use turn_vector_benchmark.DataPlane.Generation.{
  Received, expected_sequence, is_newer, append_status, append_output, append_event,
  generated_tokens,
}

-- Newest first: each output has tokens and begins where those before it end.
abbrev pub IsContiguous : List OutputFrame → Type 0
IsContiguous [] = Unit
IsContiguous (o ∷ os) =
    (o.output_sequence ≡ length (generated_tokens os))
    × (is_empty o.token_ids ≡ false)
    × IsContiguous os

-- Newest first: the versions of the status fall, down to 2 at least.
abbrev pub IsFalling : List ℕ → Type 0
IsFalling [] = Unit
IsFalling (v ∷ vs) = (1 < v) × (is_newer v vs ≡ true) × IsFalling vs

pub record IsReceived (request_id : String) (r : Received) : Type 0 where
  pub contiguous : IsContiguous r.outputs
  pub own : All (λ o. o.request_id ≡ request_id) r.outputs
  pub versions : IsFalling r.status_versions

expected_sequence-generated_tokens :
    (os : List OutputFrame) → IsContiguous os → expected_sequence os ≡ length (generated_tokens os)
unfolding generated_tokens
expected_sequence-generated_tokens [] h = refl
expected_sequence-generated_tokens (o ∷ os) h =
    omega (arith, h.0, length-append (generated_tokens os) o.token_ids)

append_status-keeps :
    (u : StatusUpdate) (r : Received)
    → ((append_status u r).1 ≡ r)
      ⊎ (((append_status u r).1 ≡ record r {
        states = u.state ∷ r.states;
        status_versions = u.status_version ∷ r.status_versions;
      })
          × (1 < u.status_version)
          × (is_newer u.status_version r.status_versions ≡ true))
unfolding append_status
append_status-keeps u r =
    elim (Bool-cases
      (leb u.status_version 1 || not (is_newer u.status_version r.status_versions))) [
        | inl stale ↦ inl (ground arith)
        | inr fresh ↦ inr (ground arith, ground arith, ground arith)
      ]

append_output-keeps :
    (o : OutputFrame) (r : Received)
    → ((append_output o r).1 ≡ r)
      ⊎ (((append_output o r).1 ≡ record r { outputs = o ∷ r.outputs })
          × (is_empty o.token_ids ≡ false)
          × (o.output_sequence ≡ expected_sequence r.outputs))
unfolding append_output
append_output-keeps o r = elim (Bool-cases (is_empty o.token_ids)) [
  | inl none_there ↦ inl (ground arith)
  | inr tokens ↦ elim (Bool-cases (o.output_sequence == expected_sequence r.outputs)) [
    | inr gap ↦ inl (ground arith)
    | inl next ↦ elim (Bool-cases (len o.publication_id == 32)) [
      | inr bad ↦ inl (ground arith)
      | inl good ↦ inr (ground arith, tokens, ground arith)
    ]
  ]
]

-- An event keeps what has been received in order, also when it is refused.
pub append_event-IsReceived :
    (request_id : String) (event : Event) (r : Received)
    → IsReceived request_id r
    → IsReceived request_id (append_event request_id event r).1
unfolding append_event
append_event-IsReceived request_id (direct_response n response) r h = h
append_event-IsReceived request_id (hello_ack a) r h = h
append_event-IsReceived request_id (status_update u) r h =
    elim (Bool-cases (str_eq u.request_id request_id)) [
      | inr other ↦ rw other h
      | inl own ↦ rw own (elim (append_status-keeps u r) [
        | inl same ↦ rw same h
        | inr (e, above, newer) ↦ rw e (record {
          contiguous = h.contiguous;
          own = h.own;
          versions = (above, newer, h.versions);
        })
      ])
    ]
append_event-IsReceived request_id (output_frame o) r h =
    elim (Bool-cases (str_eq o.request_id request_id)) [
      | inr other ↦ rw other h
      | inl own ↦ rw own (elim (append_output-keeps o r) [
        | inl same ↦ rw same h
        | inr (e, tokens, next) ↦ rw e (record {
          contiguous = (
            next ∙ expected_sequence-generated_tokens r.outputs h.contiguous,
            tokens,
            h.contiguous,
          );
          own = (ground (arith, eq_iff o.request_id request_id), h.own);
          versions = h.versions;
        })
      ])
    ]
