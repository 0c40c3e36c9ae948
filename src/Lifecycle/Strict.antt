-- ===== src/Lifecycle/Strict.antt =====
-- What the checks of the messages guarantee to those who read them.
use turn_vector_benchmark.Base.{
  ℕ, String, ◌≡◌, refl, ap, ◌∙◌, subst, Bool, true, false, not, List, [], ◌∷◌, any, ◌||◌, ◌&&◌,
  is_empty, inl, inr, arith, Bool-cases, eq_iff, ok, raise_if, >>=-eq-ok, ok-injective,
  contract_error,
}
use turn_vector_benchmark.Base.Dict.{Dict, keys, lookup}
use turn_vector_benchmark.Base.Sets.{contains}
use turn_vector_benchmark.Lifecycle.{
  Json, null, bool, int, float, str, arr, obj, no_items, item, entries, Fields,
}
use turn_vector_benchmark.Lifecycle.Contracts.{
  get, strict_object, integer, i64_max, max_array_items, bounded_array,
}
use turn_vector_benchmark.Lifecycle.Messages.{exit_records, check}
use turn_vector_benchmark.Lifecycle.Payloads.{validate_response_payload, check_target_stopped, one}

allowed :
    (p : String → Bool) (ks : List String) (k : String)
    → any (λ j. not (p j)) ks ≡ false
    → contains k ks ≡ true
    → p k ≡ true
allowed p [] k h m = cc
allowed p (j ∷ ks) k h m = ground (arith, eq_iff j k, allowed p ks k)

either_key :
    (k r o : Bool) → (k ≡ true → (r || o) ≡ true) → (r ≡ true → k ≡ true) → k ≡ (r || (o && k))
either_key true true o f g = refl
either_key true false o f g = ground (arith, f refl)
either_key false true o f g = g refl
either_key false false true f g = refl
either_key false false false f g = refl

-- The keys that are there, and the keys that may be.
abbrev IsStrict : List String → List String → Dict Json → Type 0
IsStrict required optional d =
    (any (λ k. not (contains k (keys d))) required ≡ false)
    × (any (λ k. not (contains k required || contains k optional)) (keys d) ≡ false)

-- The object comes back as it is.
strict_object-entries :
    (required optional : List String) (fs : Fields) (d : Dict Json)
    → strict_object required optional (obj fs) ≡ ok d
    → entries fs ≡ d
unfolding strict_object
strict_object-entries required optional fs d h = ground arith

strict_object-inverse :
    (required optional : List String) (value : Json) (d : Dict Json)
    → strict_object required optional value ≡ ok d
    → IsStrict required optional d
unfolding strict_object
strict_object-inverse required optional (obj fs) d h =
    elim (Bool-cases (any (λ k. not (contains k (keys (entries fs)))) required)) [
      | inl missing ↦ absurd (ground arith)
      | inr complete ↦
          elim (Bool-cases
            (any (λ k. not (contains k required || contains k optional)) (keys (entries fs)))) [
              | inl unknown ↦ absurd (ground arith)
              | inr closed ↦
                  (let same : entries fs ≡ d = ground arith in
                    subst (IsStrict required optional) same (complete, closed))
            ]
    ]
strict_object-inverse required optional null d h = absurd (ground arith)
strict_object-inverse required optional (bool b) d h = absurd (ground arith)
strict_object-inverse required optional (int n) d h = absurd (ground arith)
strict_object-inverse required optional (float b n i) d h = absurd (ground arith)
strict_object-inverse required optional (str s) d h = absurd (ground arith)
strict_object-inverse required optional (arr vs) d h = absurd (ground arith)

-- What `strict_object` returns has a key exactly if the key is required, or is optional and was given.
pub strict_object-keys :
    (required optional : List String) (fs : Fields) (d : Dict Json) (k : String)
    → strict_object required optional (obj fs) ≡ ok d
    → contains k (keys d)
      ≡ (contains k required || (contains k optional && contains k (keys (entries fs))))
strict_object-keys required optional fs d k h =
    let (missing, unknown) = strict_object-inverse required optional (obj fs) d h in
    let same : entries fs ≡ d = strict_object-entries required optional fs d h in
    rw same (
      either_key (contains k (keys d)) (contains k required) (contains k optional)
        (allowed (λ j. contains j required || contains j optional) (keys d) k unknown)
        (allowed (λ j. contains j (keys d)) required k missing))

empty_array :
    (v : Json) (n : ℕ) (vs : List Json)
    → bounded_array n true v ≡ ok vs
    → is_empty vs ≡ true
    → v ≡ arr no_items
unfolding bounded_array
empty_array (arr no_items) n vs h e = refl
empty_array (arr (item v vs')) n vs h e = absurd (ground arith)
empty_array null n vs h e = absurd (ground arith)
empty_array (bool b) n vs h e = absurd (ground arith)
empty_array (int m) n vs h e = absurd (ground arith)
empty_array (float b m i) n vs h e = absurd (ground arith)
empty_array (str s) n vs h e = absurd (ground arith)
empty_array (obj fs) n vs h e = absurd (ground arith)

-- A payload that passed `check_target_stopped` reports no survivor.
target_stopped_empty :
    (d : Dict Json)
    → check_target_stopped d ≡ ok tt
    → (get d "surviving_process_ids" ≡ ok (arr no_items))
      × (get d "surviving_listeners" ≡ ok (arr no_items))
target_stopped_empty d h =
    let (leader, e1, h1) = >>=-eq-ok (get d "process_group_leader_pid") _ h in
    let (u1, e2, h2) = >>=-eq-ok (check (integer one i64_max leader)) _ h1 in
    let (records, e3, h3) = >>=-eq-ok (get d "exit_records") _ h2 in
    let (u2, e4, h4) = >>=-eq-ok (exit_records records) _ h3 in
    let (v, e5, h5) = >>=-eq-ok (get d "surviving_process_ids") _ h4 in
    let (pids, e6, h6) = >>=-eq-ok (bounded_array max_array_items true v) _ h5 in
    let (u3, e7, h7) = >>=-eq-ok (raise_if (not (is_empty pids)) contract_error) _ h6 in
    let (w, e8, h8) = >>=-eq-ok (get d "surviving_listeners") _ h7 in
    let (listeners, e9, h9) = >>=-eq-ok (bounded_array max_array_items true w) _ h8 in
    (
      e5 ∙ ap (λ t. ok t) (empty_array v max_array_items pids e6 (ground arith)),
      e8 ∙ ap (λ t. ok t) (empty_array w max_array_items listeners e9 (ground arith)),
    )

-- A response that reports a stopped target and passes the checks names no surviving process and no
-- surviving listener.
pub stopped_leaves_nothing :
    (value : Json) (d : Dict Json)
    → validate_response_payload "target_stopped" value ≡ ok d
    → (get d "surviving_process_ids" ≡ ok (arr no_items))
      × (get d "surviving_listeners" ≡ ok (arr no_items))
unfolding validate_response_payload lookup
stopped_leaves_nothing value d h =
    let (o, e, h1) =
      >>=-eq-ok
        (strict_object
          ("process_group_leader_pid" ∷ "exit_records" ∷ "surviving_process_ids"
            ∷ "surviving_listeners" ∷ [])
          [] value)
        _ h in
    let (u, e2, h2) = >>=-eq-ok (check_target_stopped o) _ h1 in
    target_stopped_empty d (subst (λ t. check_target_stopped t ≡ ok tt) (ok-injective o d h2) e2)
