-- ===== src/Lifecycle/Machine/Methods.antt =====
-- What the two methods of the machine do where they return and where they raise.
use turn_vector_benchmark.Base.{
  String, ◌≡◌, refl, true, false, some, List, [], ◌∷◌, inl, inr, arith, Result-cases, eq_iff, Error,
  ok, err,
}
use turn_vector_benchmark.Base.Dict.{Dict}
use turn_vector_benchmark.Base.Sets.{contains, add}
use turn_vector_benchmark.Lifecycle.{Json}
use turn_vector_benchmark.Lifecycle.Envelopes.{
  Request, Outcome, succeeded, failed, Response, validate_lifecycle_request,
  validate_lifecycle_response,
}
use turn_vector_benchmark.Lifecycle.Machine.{
  LifecycleState, transition, Machine, expected_response, echoed_fields, compare_fields, conclude,
  accept_response,
}

-- A request that `expected_response` let through.
pub record Expected (v : Json) (m : Machine) (t : String × LifecycleState) (m' : Machine)
    : Type 0 where
  pub request : Request
  pub validated : validate_lifecycle_request v ≡ ok request
  pub fresh : contains request.request_id m.request_ids ≡ false
  pub permits : transition m.state request.kind ≡ some t
  pub after : m' ≡ record m { request_ids = add request.request_id m.request_ids }

pub request_let_through :
    (v : Json) (m : Machine) (t : String × LifecycleState) (m' : Machine)
    → expected_response v m ≡ (ok t, m')
    → Expected v m t m'
unfolding expected_response
request_let_through v m t m' h = elim (Result-cases (validate_lifecycle_request v)) [
  | inr (e, q) ↦ absurd (ground arith)
  | inl (r, q) ↦ record {
    request = r;
    validated = q;
    fresh = ground arith;
    permits = ground arith;
    after = ground arith;
  }
]

pub expected_raises :
    (v : Json) (m : Machine) (e : Error) (m' : Machine)
    → expected_response v m ≡ (err e, m')
    → m' ≡ m
unfolding expected_response
expected_raises v m e m' h = ground arith

compare_keeps :
    (fs : List (String × String)) (p q : Dict Json) (m : Machine) → (compare_fields fs p q m).1 ≡ m
unfolding compare_fields
compare_keeps [] p q m = refl
compare_keeps ((a, b) ∷ fs) p q m = ground (arith, compare_keeps fs p q m)

conclude_ok :
    (r : Request) (o : Outcome) (next : LifecycleState) (m : Machine) (d : Dict Json) (m' : Machine)
    → conclude r o next m ≡ (ok d, m')
    → m' ≡ record m { state = next }
unfolding conclude
conclude_ok r (failed code message) next m d m' h = absurd (ground arith)
conclude_ok r (succeeded p) next m d m' h =
    ground (arith, compare_keeps (echoed_fields r.kind) r.payload p m)

conclude_err :
    (r : Request) (o : Outcome) (next : LifecycleState) (m : Machine) (e : Error) (m' : Machine)
    → conclude r o next m ≡ (err e, m')
    → m' ≡ m
unfolding conclude
conclude_err r (failed code message) next m e m' h = ground arith
conclude_err r (succeeded p) next m e m' h =
    ground (arith, compare_keeps (echoed_fields r.kind) r.payload p m)

-- A response that `accept_response` let through.
pub record Accepted (r : Request) (next : LifecycleState) (m m' : Machine) : Type 0 where
  pub asked : contains r.request_id m.request_ids ≡ true
  pub unanswered : contains r.request_id m.response_ids ≡ false
  pub after : m' ≡ record m { state = next; response_ids = add r.request_id m.response_ids }

-- The machine that has noted a response.
abbrev answered : Machine → Response → Machine
answered m w = record m { response_ids = add w.request_id m.response_ids }

pub accept-Accepted :
    (r : Request) (v : Json) (k : String) (next : LifecycleState) (m : Machine) (d : Dict Json)
    (m' : Machine)
    → accept_response r v k next m ≡ (ok d, m')
    → Accepted r next m m'
unfolding accept_response
accept-Accepted r v k next m d m' h = elim (Result-cases (validate_lifecycle_response v)) [
  | inr (e, q) ↦ absurd (ground arith)
  | inl (w, q) ↦ record {
    asked = ground (arith, eq_iff w.request_id r.request_id);
    unanswered = ground (arith, eq_iff w.request_id r.request_id);
    after =
        ground (
          arith,
          eq_iff w.request_id r.request_id,
          conclude_ok r w.outcome next (answered m w) d m',
        );
  }
]

-- A call of `accept_response` that raises, also on an error that the adapter reports, changes neither
-- the state nor the ids of the requests.
pub accept_raises :
    (r : Request) (v : Json) (k : String) (next : LifecycleState) (m : Machine) (e : Error)
    (m' : Machine)
    → accept_response r v k next m ≡ (err e, m')
    → (m'.state ≡ m.state) × (m'.request_ids ≡ m.request_ids)
unfolding accept_response
accept_raises r v k next m e m' h = elim (Result-cases (validate_lifecycle_response v)) [
  | inr (e', q) ↦ (ground arith, ground arith)
  | inl (w, q) ↦ (
    ground (arith, conclude_err r w.outcome next (answered m w) e m'),
    ground (arith, conclude_err r w.outcome next (answered m w) e m'),
  )
]
