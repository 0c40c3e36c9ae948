-- ===== src/Accounting/Fault/Shot.antt =====
-- The fault injector over a sequence of modelled allocations, whose callers catch what it raises.
use turn_vector_benchmark.Base.{
  ℕ, ◌+◌, ◌≤◌, ◌<◌, ◌==◌, String, ◌≡◌, refl, true, false, none, some, List, [], ◌∷◌, length, All,
  inl, inr, arith, Bool-cases, str_eq, Result, ok, err, memory_error, if◌then◌else◌,
}
use turn_vector_benchmark.Base.Int.{pos}
use turn_vector_benchmark.Limits.{u64_max}
use turn_vector_benchmark.Limits.Arithmetic.{checked_add-ok}
use turn_vector_benchmark.Accounting.Fault.{FaultInjector, new_injector, before_modeled_allocation}

abbrev pub attempts : List String → FaultInjector → List (Result ℕ)
attempts [] f = []
attempts (label ∷ labels) f =
    (before_modeled_allocation label f).0 ∷ attempts labels (before_modeled_allocation label f).1

-- After `k` attempts: each returns its ordinal, but for the one whose ordinal is `t`.
abbrev pub expected : ℕ → ℕ → List String → List (Result ℕ)
expected t k [] = []
expected t k (label ∷ labels) =
    (if t == (k + 1) then err memory_error else ok (k + 1)) ∷ expected t (k + 1) labels

-- The injector after `k` attempts, before and after its fault.
abbrev waiting : ℕ → ℕ → FaultInjector
waiting t k = record { target_ordinal = some t; ordinal = k; fired = false }

abbrev spent : ℕ → FaultInjector
spent k = record { target_ordinal = none; ordinal = k; fired = true }

module _ (k : ℕ) (label : String) (named : str_eq label "" ≡ false) (small : k + 1 ≤ u64_max) where
  spent_step : before_modeled_allocation label (spent k) ≡ (ok (k + 1), spent (k + 1))
  unfolding before_modeled_allocation
  spent_step = ground (arith, checked_add-ok k 1)

  waiting_step :
      (t : ℕ)
      → (t == (k + 1)) ≡ false
      → before_modeled_allocation label (waiting t k) ≡ (ok (k + 1), waiting t (k + 1))
  unfolding before_modeled_allocation
  waiting_step t miss = ground (arith, checked_add-ok k 1)

  firing_step :
      (t : ℕ)
      → (t == (k + 1)) ≡ true
      → before_modeled_allocation label (waiting t k) ≡ (err memory_error, spent (k + 1))
  unfolding before_modeled_allocation
  firing_step t hit = ground (arith, checked_add-ok k 1)

abbrev pub Named : String → Type 0
Named label = str_eq label "" ≡ false

cons_equal : {A : Type 0} {x y : A} {xs ys : List A} → x ≡ y → xs ≡ ys → x ∷ xs ≡ y ∷ ys
cons_equal p q = cc

past-test : (t k : ℕ) → t ≤ k → (t == (k + 1)) ≡ false
past-test t k h = ground arith

attempts-spent :
    (t k : ℕ) (labels : List String)
    → t ≤ k
    → All Named labels
    → k + length labels ≤ u64_max
    → attempts labels (spent k) ≡ expected t k labels
attempts-spent t k [] fired named small = refl
attempts-spent t k (label ∷ labels) fired named small =
    let step = spent_step k label named.0 (omega arith) in
    rw step (
      rw (past-test t k fired)
        (cons_equal refl (attempts-spent t (k + 1) labels (omega arith) named.1 (omega arith))))

attempts-waiting :
    (t k : ℕ) (labels : List String)
    → k < t
    → All Named labels
    → k + length labels ≤ u64_max
    → attempts labels (waiting t k) ≡ expected t k labels
attempts-waiting t k [] waits named small = refl
attempts-waiting t k (label ∷ labels) waits named small = elim (Bool-cases (t == (k + 1))) [
  | inl hit ↦
      (let step = firing_step k label named.0 (omega arith) t hit in
        rw step (
          rw hit (
            cons_equal refl
              (attempts-spent t (k + 1) labels (ground arith) named.1 (omega arith)))))
  | inr miss ↦
      (let step = waiting_step k label named.0 (omega arith) t miss in
        rw step (
          rw miss (
            cons_equal refl
              (attempts-waiting t (k + 1) labels (ground arith) named.1 (omega arith)))))
]

new_injector-waiting :
    (t : ℕ) (f : FaultInjector) → new_injector (some (pos t)) ≡ ok f → (0 < t) × (f ≡ waiting t 0)
unfolding new_injector
new_injector-waiting t f h = (ground arith, ground arith)

-- A fresh injector with the target `t` fails exactly the allocation of that ordinal, once, of at
-- most 2 ^ 64 - 1 attempts, each with a label that is not empty; every other attempt returns its ordinal.
pub faults_once :
    (t : ℕ) (f : FaultInjector) (labels : List String)
    → new_injector (some (pos t)) ≡ ok f
    → All Named labels
    → length labels ≤ u64_max
    → attempts labels f ≡ expected t 0 labels
faults_once t f labels fresh named small =
    let (positive, start) = new_injector-waiting t f fresh in
    rw start (attempts-waiting t 0 labels positive named (omega arith))
