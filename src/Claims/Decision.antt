-- ===== src/Claims/Decision.antt =====
-- When a run may be claimed.
use turn_vector_benchmark.Base.{
  String, ◌≡◌, refl, sym, ◌∙◌, ◌↔◌, Bool, true, false, not, ◌&&◌, ◌||◌, Option, none, some, List,
  [], ◌∷◌, is_empty, inl, inr, arith, Result-cases, str_eq, eq_iff, if◌then◌else◌, Error,
  ok-injective, ok, err,
}
use turn_vector_benchmark.Base.Sets.{add}
use turn_vector_benchmark.Claims.{
  clean, fixture_tainted, known_fixture_ids, check_ids, validate_fixture_taint_state, Run,
  full_status, resolve_full_implementation_status, resolve_claimable,
}

pub add_not_empty : (i : String) (s : List String) → is_empty (add i s) ≡ false
unfolding add
add_not_empty i [] = refl
add_not_empty i (j ∷ s) = ground arith

check_ids_seen :
    (known seen : List String) (p : Option String) (ids s : List String)
    → is_empty seen ≡ false
    → check_ids known seen p ids ≡ ok s
    → is_empty s ≡ false
unfolding check_ids
check_ids_seen known seen p [] s h e = ground arith
check_ids_seen known seen p (i ∷ ids) s h e =
    ground (arith, add_not_empty i seen, check_ids_seen known (add i seen) (some i) ids s)

-- The loop has seen nothing only if there was nothing.
check_ids_empty :
    (known : List String) (ids s : List String)
    → check_ids known [] none ids ≡ ok s
    → is_empty s ≡ is_empty ids
unfolding check_ids
check_ids_empty known [] s e = ground arith
check_ids_empty known (i ∷ ids) s e =
    ground (arith, add_not_empty i [], check_ids_seen known (add i []) (some i) ids s)

validate_clean : (ids : List String) → ids ≡ [] → validate_fixture_taint_state clean ids ≡ ok clean
unfolding validate_fixture_taint_state check_ids
validate_clean ids h = rw h refl

clean_has_none :
    (taint : String) (ids : List String) (t : String)
    → validate_fixture_taint_state taint ids ≡ ok t
    → str_eq taint fixture_tainted ≡ false
    → (taint ≡ clean) × (is_empty ids ≡ true)
unfolding validate_fixture_taint_state
clean_has_none taint ids t h not_tainted =
    elim (Result-cases (check_ids known_fixture_ids [] none ids)) [
      | inr (e, q) ↦ absurd (ground arith)
      | inl (s, q) ↦ (
        ground (arith, eq_iff taint clean),
        ground (arith, check_ids_empty known_fixture_ids ids s, eq_iff taint clean),
      )
    ]

nothing : (ids : List String) → is_empty ids ≡ true → ids ≡ []
nothing [] h = refl
nothing (i ∷ ids) h = absurd (ground arith)

-- The tests that come before `passed`.
passed_last :
    (tainted subject selected passed evidence source : Bool)
    → str_eq
        (if tainted || subject
          then "not_claimable_fixture"
          else if not selected
          then "not_evaluated"
          else if (not tainted && not subject && selected && passed && evidence && source)
          then "passed"
          else "failed")
        "passed"
      ≡ true
    → (tainted ≡ false)
      × (subject ≡ false)
      × (selected ≡ true)
      × (passed ≡ true)
      × (evidence ≡ true)
      × (source ≡ true)
passed_last false false true true true true h = (refl, refl, refl, refl, refl, refl)
passed_last true subject selected passed evidence source h = cc
passed_last false true selected passed evidence source h = cc
passed_last false false false passed evidence source h = cc
passed_last false false true false evidence source h = cc
passed_last false false true true false source h = cc
passed_last false false true true true false h = cc

resolved_status :
    (r : Run) (t : String)
    → validate_fixture_taint_state r.run_fixture_taint r.fixture_ids ≡ ok t
    → resolve_full_implementation_status r ≡ ok (full_status r)
unfolding resolve_full_implementation_status
resolved_status r t q = rw q refl

unresolved :
    (r : Run) (e : Error)
    → validate_fixture_taint_state r.run_fixture_taint r.fixture_ids ≡ err e
    → resolve_claimable r ≡ err e
unfolding resolve_claimable resolve_full_implementation_status
unresolved r e q = rw q refl

resolved_claimable :
    (r : Run)
    → resolve_full_implementation_status r ≡ ok (full_status r)
    → resolve_claimable r ≡ ok (str_eq (full_status r) "passed")
unfolding resolve_claimable
resolved_claimable r q = rw q refl

resolved_passed :
    (r : Run)
    → resolve_claimable r ≡ ok true
    → (t : String) × (validate_fixture_taint_state r.run_fixture_taint r.fixture_ids ≡ ok t)
      × (str_eq (full_status r) "passed" ≡ true)
resolved_passed r h =
    elim (Result-cases (validate_fixture_taint_state r.run_fixture_taint r.fixture_ids)) [
      | inr (e, q) ↦ absurd (ground (arith, unresolved r e q))
      | inl (t, q) ↦ (
        t,
        q,
        ok-injective (str_eq (full_status r) "passed") true
            (sym (resolved_claimable r (resolved_status r t q)) ∙ h),
      )
    ]

-- Nothing taints the run, and everything that is required holds.
abbrev pub IsSound : Run → Type 0
IsSound r =
    (r.run_fixture_taint ≡ clean)
    × (r.fixture_ids ≡ [])
    × (r.fixture_subject ≡ false)
    × (r.all_required_selected ≡ true)
    × (r.aggregate_status ≡ "passed")
    × (r.evidence_valid ≡ true)
    × (r.source_matches ≡ true)

claimable-IsSound : (r : Run) → resolve_claimable r ≡ ok true → IsSound r
claimable-IsSound r h =
    let (t, checked, is_passed) = resolved_passed r h in
    let (untainted, subject, selected, passed, evidence, source) =
      passed_last (str_eq r.run_fixture_taint fixture_tainted) r.fixture_subject
        r.all_required_selected (str_eq r.aggregate_status "passed") r.evidence_valid
        r.source_matches is_passed in
    let (taint, ids) = clean_has_none r.run_fixture_taint r.fixture_ids t checked untainted in
    (
      taint,
      nothing r.fixture_ids ids,
      subject,
      selected,
      (eq_iff r.aggregate_status "passed").0 passed,
      evidence,
      source,
    )

IsSound-claimable : (r : Run) → IsSound r → resolve_claimable r ≡ ok true
unfolding resolve_claimable resolve_full_implementation_status
IsSound-claimable r (taint, ids, subject, selected, passed, evidence, source) = rw taint (
    rw (validate_clean r.fixture_ids ids)
      (rw subject (rw selected (rw passed (rw evidence (rw source refl))))))

-- A run is claimable exactly if it is clean with no fixture id, its subject is no fixture, every
-- required lane was selected, the aggregate status is `passed`, the evidence is valid and the source
-- matches; any taint, or an inconsistent taint state, excludes it.
pub claimable_exactly : (r : Run) → (resolve_claimable r ≡ ok true) ↔ IsSound r
claimable_exactly r = (claimable-IsSound r, IsSound-claimable r)
