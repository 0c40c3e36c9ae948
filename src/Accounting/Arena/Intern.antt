-- ===== src/Accounting/Arena/Intern.antt =====
-- `visit_case_id`: an identifier is charged once.
use turn_vector_benchmark.Base.{
  ℕ, String, ◌≡◌, refl, ap, ◌∙◌, Bool, true, false, Option, none, some, List, inl, inr, arith,
  Bool-cases, Result-cases, Error, Result, ok, err,
}
use turn_vector_benchmark.Base.Sets.{contains, add, contains-add}
use text.Mathlib.TextPositions.{eq_refl}
use turn_vector_benchmark.Base.Int.{pos}
use turn_vector_benchmark.Accounting.{intern_entry_charge}
use turn_vector_benchmark.Accounting.Arena.{Modeled, modeled_allocate, object, visit_case_id}

visit_hit :
    (case_id : String) (ids : List String) (s : Modeled)
    → contains case_id ids ≡ true
    → visit_case_id case_id ids s ≡ (ok ((true, false), ids), s)
unfolding visit_case_id
visit_hit case_id ids s h = rw h refl

contains-added : (k : String) (ids : List String) → contains k (add k ids) ≡ true
contains-added k ids = contains-add k k ids ∙ ground (arith, eq_refl k)

module _ (case_id : String) (ids : List String) (s : Modeled)
    (absent : contains case_id ids ≡ false) where
  visit_uncharged :
      (e : Error) → intern_entry_charge case_id ≡ err e → (visit_case_id case_id ids s).0 ≡ err e
  unfolding visit_case_id
  visit_uncharged e h = rw absent (rw h refl)

  visit_failed :
      (n : ℕ) (e : Error) (s' : Modeled)
      → intern_entry_charge case_id ≡ ok n
      → modeled_allocate (pos n) "derived-case-id-intern-miss" object s ≡ (err e, s')
      → (visit_case_id case_id ids s).0 ≡ err e
  unfolding visit_case_id
  visit_failed n e s' h failed = ground arith

  visit_refused :
      (n : ℕ) (s' : Modeled)
      → intern_entry_charge case_id ≡ ok n
      → modeled_allocate (pos n) "derived-case-id-intern-miss" object s ≡ (ok none, s')
      → visit_case_id case_id ids s ≡ (ok ((false, false), ids), s')
  unfolding visit_case_id
  visit_refused n s' h refused = ground arith

  visit_creates :
      (n : ℕ) (s' : Modeled)
      → intern_entry_charge case_id ≡ ok n
      → modeled_allocate (pos n) "derived-case-id-intern-miss" object s ≡ (ok (some tt), s')
      → visit_case_id case_id ids s ≡ (ok ((true, true), add case_id ids), s')
  unfolding visit_case_id
  visit_creates n s' h done = ground arith

visited :
    (case_id : String) (ids ids' : List String) (s s' : Modeled) (created : Bool)
    → visit_case_id case_id ids s ≡ (ok ((true, created), ids'), s')
    → contains case_id ids' ≡ true
visited case_id ids ids' s s' created h = elim (Bool-cases (contains case_id ids)) [
  | inl there ↦ ground (arith, visit_hit case_id ids s there)
  | inr absent ↦ elim (Result-cases (intern_entry_charge case_id)) [
    | inr (e, q) ↦ absurd (ground (arith, visit_uncharged case_id ids s absent e q))
    | inl (n, q) ↦
        visited_absent n absent q
          (modeled_allocate (pos n) "derived-case-id-intern-miss" object s).0 refl
  ]
]
  where
    left : ℕ → Modeled
    left n = (modeled_allocate (pos n) "derived-case-id-intern-miss" object s).1

    visited_absent :
        (n : ℕ)
        → contains case_id ids ≡ false
        → intern_entry_charge case_id ≡ ok n
        → (r : Result (Option (Unit {0})))
        → (modeled_allocate (pos n) "derived-case-id-intern-miss" object s).0 ≡ r
        → contains case_id ids' ≡ true
    visited_absent n absent q (err e) p =
        absurd (
          ground
            (arith, visit_failed case_id ids s absent n e (left n) q (ap (λ t. (t, left n)) p)))
    visited_absent n absent q (ok none) p =
        absurd (
          ground (arith, visit_refused case_id ids s absent n (left n) q (ap (λ t. (t, left n)) p)))
    visited_absent n absent q (ok (some u)) p = ground (
      arith,
      contains-added case_id ids,
      visit_creates case_id ids s absent n (left n) q (ap (λ t. (t, left n)) p),
    )

-- Once a visit has admitted an identifier, a second visit is a hit: it charges nothing and creates
-- nothing.
pub visit_twice :
    (case_id : String) (ids ids' : List String) (s s' : Modeled) (created : Bool)
    → visit_case_id case_id ids s ≡ (ok ((true, created), ids'), s')
    → visit_case_id case_id ids' s' ≡ (ok ((true, false), ids'), s')
visit_twice case_id ids ids' s s' created h =
    visit_hit case_id ids' s' (visited case_id ids ids' s s' created h)
