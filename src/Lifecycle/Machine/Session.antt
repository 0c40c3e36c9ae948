-- ===== src/Lifecycle/Machine/Session.antt =====
-- A session: exchanges one after the other, whatever the adapter answers.
use turn_vector_benchmark.Base.{
  String, ◌≡◌, refl, sym, ap, ◌∙◌, subst, true, not, Option, none, some, List, [], ◌∷◌, ◌++◌, inl,
  inr, arith, Option-cases, some_injective, str_eq, Error, ok, err, ok-injective, ◌||◌, ◌&&◌,
}
use turn_vector_benchmark.Base.Dict.{Dict}
use turn_vector_benchmark.Base.Sets.{contains, all_distinct, contains-add}
use turn_vector_benchmark.Lifecycle.{Json}
use turn_vector_benchmark.Lifecycle.Envelopes.{Request, validate_lifecycle_request}
use turn_vector_benchmark.Lifecycle.Machine.{
  LifecycleState, spawned, transition, Machine, new_machine, expected_response, accept_response,
}
use turn_vector_benchmark.Lifecycle.Machine.Methods.{
  Expected, request_let_through, expected_raises, Accepted, accept-Accepted, accept_raises,
}

-- The path of the transition table along the kinds of the accepted requests.
abbrev pub follow : List String → LifecycleState → Option LifecycleState
follow [] state = some state
follow (kind ∷ kinds) state = elim (transition state kind) [
  | none ↦ none
  | some t ↦ follow kinds t.1
]

abbrev pub appended : List String → Option String → List String
appended kinds none = kinds
appended kinds (some kind) = kinds ++ kind ∷ []

-- An exchange adds the kind and the id of its request if its response is accepted, the id alone if it
-- was only sent, and nothing if it was not sent.
pub data Exchange (m : Machine) : Option String → List String → Machine → Type 0 where
  not_sent :
      (v : Json) (e : Error) (m' : Machine)
      → expected_response v m ≡ (err e, m')
      → Exchange m none [] m'
  unanswered :
      (v : Json) (r : Request) (t : String × LifecycleState) (m' : Machine)
      → validate_lifecycle_request v ≡ ok r
      → expected_response v m ≡ (ok t, m')
      → Exchange m none (r.request_id ∷ []) m'
  not_accepted :
      (v : Json) (r : Request) (t : String × LifecycleState) (m' : Machine) (answer : Json)
      (e : Error) (m'' : Machine)
      → validate_lifecycle_request v ≡ ok r
      → expected_response v m ≡ (ok t, m')
      → accept_response r answer t.0 t.1 m' ≡ (err e, m'')
      → Exchange m none (r.request_id ∷ []) m''
  accepted :
      (v : Json) (r : Request) (t : String × LifecycleState) (m' : Machine) (answer : Json)
      (d : Dict Json) (m'' : Machine)
      → validate_lifecycle_request v ≡ ok r
      → expected_response v m ≡ (ok t, m')
      → accept_response r answer t.0 t.1 m' ≡ (ok d, m'')
      → Exchange m (some r.kind) (r.request_id ∷ []) m''

-- The kinds accepted, in their order, and the ids sent, the latest first.
pub data Session : List String → List String → Machine → Type 0 where
  start : Session [] [] new_machine
  next :
      {kinds ids : List String} {more : Option String} {sent : List String} {m m' : Machine}
      → Session kinds ids m
      → Exchange m more sent m'
      → Session (appended kinds more) (sent ++ ids) m'

pub record IsFollowed (kinds ids : List String) (m : Machine) : Type 0 where
  pub followed : follow kinds spawned ≡ some m.state
  pub noted : (k : String) → contains k ids ≡ contains k m.request_ids
  pub distinct : all_distinct ids ≡ true

follow-append :
    (kinds more : List String) (s t : LifecycleState)
    → follow kinds s ≡ some t
    → follow (kinds ++ more) s ≡ follow more t
follow-append [] more s t h = ap (λ u. follow more u) (some_injective h)
follow-append (kind ∷ kinds) more s t h = elim (Option-cases (transition s kind)) [
  | inl missing ↦ absurd (ground arith)
  | inr (u, found) ↦ rw (found, follow) (follow-append kinds more u.1 t (ground arith))
]

sent-IsFollowed :
    {kinds ids : List String} {m m' : Machine} (v : Json) (r : Request)
    (t : String × LifecycleState)
    → IsFollowed kinds ids m
    → validate_lifecycle_request v ≡ ok r
    → Expected v m t m'
    → IsFollowed kinds (r.request_id ∷ ids) m' × (transition m.state r.kind ≡ some t)
unfolding all_distinct
sent-IsFollowed {ids = ids} {m = m} {m' = m'} v r t f q x =
    let same : x.request ≡ r = ok-injective x.request r (sym x.validated ∙ q) in
    (
      record {
        followed = f.followed ∙ ap (λ n. some n.state) (sym x.after);
        noted = λ k.
            ap (λ b. str_eq r.request_id k || b) (f.noted k)
            ∙ ap (λ (n : Request). str_eq n.request_id k || contains k m.request_ids) (sym same)
            ∙ sym (contains-add k x.request.request_id m.request_ids)
            ∙ ap (λ (n : Machine). contains k n.request_ids) (sym x.after);
        distinct =
            ap (λ b. not b && all_distinct ids)
              (f.noted r.request_id
                ∙ ap (λ (n : Request). contains n.request_id m.request_ids) (sym same)
                ∙ x.fresh)
            ∙ f.distinct;
      },
      subst (λ (n : Request). transition m.state n.kind ≡ some t) same x.permits,
    )

-- A step that changes neither the state nor the ids of the requests.
kept-IsFollowed :
    {kinds ids : List String} {m m' : Machine}
    → IsFollowed kinds ids m
    → m'.state ≡ m.state
    → m'.request_ids ≡ m.request_ids
    → IsFollowed kinds ids m'
kept-IsFollowed f state requests = record {
  followed = f.followed ∙ ap (λ s. some s) (sym state);
  noted = λ k. f.noted k ∙ ap (λ rs. contains k rs) (sym requests);
  distinct = f.distinct;
}

follow-one :
    (kind : String) (s : LifecycleState) (t : String × LifecycleState)
    → transition s kind ≡ some t
    → follow (kind ∷ []) s ≡ some t.1
follow-one kind s t h = rw (h, follow) refl

answered-IsFollowed :
    {kinds ids : List String} {m' m'' : Machine} (m : Machine) (r : Request)
    (t : String × LifecycleState)
    → IsFollowed kinds ids m'
    → m'.state ≡ m.state
    → transition m.state r.kind ≡ some t
    → Accepted r t.1 m' m''
    → IsFollowed (kinds ++ r.kind ∷ []) ids m''
answered-IsFollowed {kinds = kinds} {m' = m'} m r t f state permits a = record {
  followed =
      follow-append kinds (r.kind ∷ []) spawned m'.state f.followed
      ∙ follow-one r.kind m'.state t (ap (λ s. transition s r.kind) state ∙ permits)
      ∙ ap (λ (n : Machine). some n.state) (sym a.after);
  noted = λ k. f.noted k ∙ ap (λ (n : Machine). contains k n.request_ids) (sym a.after);
  distinct = f.distinct;
}

Exchange-IsFollowed :
    {kinds ids : List String} {more : Option String} {sent : List String} {m m' : Machine}
    → IsFollowed kinds ids m
    → Exchange m more sent m'
    → IsFollowed (appended kinds more) (sent ++ ids) m'
Exchange-IsFollowed {m = m} f (not_sent v e m' h) =
    let same = expected_raises v m e m' h in
    kept-IsFollowed f (ap (λ (n : Machine). n.state) same)
      (ap (λ (n : Machine). n.request_ids) same)
Exchange-IsFollowed {m = m} f (unanswered v r t m' q h) =
    (sent-IsFollowed v r t f q (request_let_through v m t m' h)).0
Exchange-IsFollowed {m = m} f (not_accepted v r t m' answer e m'' q h a) =
    let kept = accept_raises r answer t.0 t.1 m' e m'' a in
    kept-IsFollowed (sent-IsFollowed v r t f q (request_let_through v m t m' h)).0 kept.0 kept.1
Exchange-IsFollowed {m = m} f (accepted v r t m' answer d m'' q h a) =
    let x = request_let_through v m t m' h in
    let (g, permits) = sent-IsFollowed v r t f q x in
    answered-IsFollowed m r t g (ap (λ (n : Machine). n.state) x.after) permits
      (accept-Accepted r answer t.0 t.1 m' d m'' a)

Session-IsFollowed :
    {kinds ids : List String} {m : Machine} → Session kinds ids m → IsFollowed kinds ids m
unfolding all_distinct
Session-IsFollowed start = record { followed = refl; noted = λ k. refl; distinct = refl }
Session-IsFollowed (next s x) = Exchange-IsFollowed (Session-IsFollowed s) x

-- In any session, whatever fails in between: the state is where the table of transitions leads from
-- `SPAWNED` along the requests that were accepted, and no request id was sent twice.
pub Session-follows :
    (kinds ids : List String) (m : Machine)
    → Session kinds ids m
    → (follow kinds spawned ≡ some m.state) × (all_distinct ids ≡ true)
Session-follows kinds ids m s = let f = Session-IsFollowed s in (f.followed, f.distinct)
