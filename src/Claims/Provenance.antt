-- ===== src/Claims/Provenance.antt =====
-- turnvector_benchmark/fixture_provenance.py: where a lane's execution comes from, and the monitor of
-- the lanes that have started.
use Prim.Native.String.{count}
use turn_vector_benchmark.Base.{
  ◌≤◌, ltb, String, ◌≡◌, refl, sym, subst, ◌↔◌, ◌⊎◌, inl, inr, arith, Bool, true, false, not, ◌||◌,
  Option, none, some, is_some, is_empty, List, str_eq, eq_iff, Bool-cases, Result, ok, err,
  raise_if, contract_error, ◌>>◌,
}
use turn_vector_benchmark.Base.Order.{codes}
use turn_vector_benchmark.Base.Sets.{contains, add}
use turn_vector_benchmark.Lifecycle.Contracts.{is_identifier}

abbrev pub production_subject : String
production_subject = "production_subject"

abbrev pub benchmark_fixture : String
benchmark_fixture = "benchmark_fixture"

unfoldable pub validate_fixture_id : Option String → Result (Unit {0})
validate_fixture_id none = err contract_error
validate_fixture_id (some i) = do
  raise_if (str_eq i "") contract_error
  raise_if (not (is_identifier (codes i))) contract_error
  raise_if (ltb 128 (count i)) contract_error

pub record ExecutionProvenance : Type 0 where
  pub value : String
  pub fixture_id : Option String

unfoldable pub post_init : ExecutionProvenance → Result (Unit {0})
post_init p = do
  raise_if (not (str_eq p.value production_subject || str_eq p.value benchmark_fixture))
      contract_error
  elim (str_eq p.value benchmark_fixture) [
    | true ↦ validate_fixture_id p.fixture_id
    | false ↦ raise_if (is_some p.fixture_id) contract_error
  ]

-- A fixture id that the grammar admits.
abbrev pub IsFixtureId : Option String → Type 0
IsFixtureId f = (i : String) × (f ≡ some i) × (is_identifier (codes i) ≡ true) × (count i ≤ 128)

-- `CaseStartMonitor`, by the set of its lanes
abbrev pub CaseStartMonitor : Type 0
CaseStartMonitor = List String

unfoldable pub mark_case_started : String → CaseStartMonitor → CaseStartMonitor
mark_case_started lane_id started = add lane_id started

unfoldable pub has_started : String → CaseStartMonitor → Bool
has_started lane_id started = contains lane_id started

unfoldable pub first_case_started : CaseStartMonitor → Bool
first_case_started started = not (is_empty started)

validate-IsFixtureId : (f : Option String) → validate_fixture_id f ≡ ok tt → IsFixtureId f
unfolding validate_fixture_id
validate-IsFixtureId none h = absurd (ground arith)
validate-IsFixtureId (some i) h = (i, refl, ground arith, ground arith)

empty_excluded : (i : String) → is_identifier (codes i) ≡ true → str_eq i "" ≡ false
empty_excluded i h = elim (Bool-cases (str_eq i "")) [
  | inr other ↦ other
  | inl same ↦
      (let e : i ≡ "" = (eq_iff i "").0 same in
        subst (λ t. is_identifier (codes t) ≡ true → str_eq t "" ≡ false) (sym e) (λ bad. sym bad)
          h)
]

IsFixtureId-validate : (f : Option String) → IsFixtureId f → validate_fixture_id f ≡ ok tt
unfolding validate_fixture_id
IsFixtureId-validate f (i, e, named, short) = rw e (ground (arith, empty_excluded i named))

-- A provenance is admitted exactly if it is that of the production subject without a fixture id, or
-- that of a benchmark fixture with an admissible one.
pub provenance_exactly :
    (p : ExecutionProvenance)
    → (post_init p ≡ ok tt) ↔ (
        ((p.value ≡ production_subject) × (p.fixture_id ≡ none))
        ⊎ ((p.value ≡ benchmark_fixture) × IsFixtureId p.fixture_id))
unfolding post_init
provenance_exactly p = (there, back)
  where
    there :
        post_init p ≡ ok tt
        → ((p.value ≡ production_subject) × (p.fixture_id ≡ none))
          ⊎ ((p.value ≡ benchmark_fixture) × IsFixtureId p.fixture_id)
    there h = elim (Bool-cases (str_eq p.value benchmark_fixture)) [
      | inl fixture ↦ inr (
        (eq_iff p.value benchmark_fixture).0 fixture,
        validate-IsFixtureId p.fixture_id (ground arith),
      )
      | inr other ↦ inl (ground (arith, eq_iff p.value production_subject), ground arith)
    ]

    back :
        ((p.value ≡ production_subject) × (p.fixture_id ≡ none))
          ⊎ ((p.value ≡ benchmark_fixture) × IsFixtureId p.fixture_id)
        → post_init p ≡ ok tt
    back (inl (v, f)) = rw v (rw f refl)
    back (inr (v, f)) = rw v (IsFixtureId-validate p.fixture_id f)
