-- ===== src/Accounting/Counts.antt =====
-- `Accounting.increment` and the charges that are sums and products.
use turn_vector_benchmark.Base.{
  ℕ, ◌+◌, ◌≤◌, String, ◌≡◌, ap, ◌∙◌, none, some, inl, inr, arith, Option-cases, Result-cases,
  if◌then◌else◌, str_eq, ok,
}
use turn_vector_benchmark.Base.Dict.{lookup, insert, lookup-insert}
use turn_vector_benchmark.Base.Int.{ℤ, pos}
use turn_vector_benchmark.Limits.{u64_max, checked_add}
use turn_vector_benchmark.Limits.Arithmetic.{checked_arithmetic-Exact}
use turn_vector_benchmark.Accounting.{Counters, increment}

-- An increment that has returned.
pub record Incremented (a : Counters) (name : String) (amount : ℤ) (a' : Counters) : Type 0 where
  pub before : ℕ
  pub more : ℕ
  pub held : lookup name a ≡ some before
  pub natural : amount ≡ pos more
  pub fits : before + more ≤ u64_max
  pub after :
      (k : String) → lookup k a' ≡ (if str_eq name k then some (before + more) else lookup k a)

module _ (a : Counters) (name : String) (amount : ℤ) (a' : Counters)
    (h : increment a name amount ≡ ok a') where
  increment_known : (lookup name a ≡ none) → ⊥
  unfolding increment
  increment_known missing = ground arith

  increment_sum :
      (n m : ℕ) → lookup name a ≡ some n → checked_add (pos n) amount ≡ ok m → a' ≡ insert name m a
  unfolding increment
  increment_sum n m held sum = ground arith

  increment_checked :
      (n : ℕ) → lookup name a ≡ some n → (m : ℕ) × (checked_add (pos n) amount ≡ ok m)
  unfolding increment
  increment_checked n held = elim (Result-cases (checked_add (pos n) amount)) [
    | inl found ↦ found
    | inr (e, failed) ↦ absurd (ground arith)
  ]

-- `increment` returns only if the counter exists, the amount is not negative and the sum fits in 64
-- bits; then that counter holds the sum and every other counter what it held.
pub increment-Incremented :
    (a : Counters) (name : String) (amount : ℤ) (a' : Counters)
    → increment a name amount ≡ ok a'
    → Incremented a name amount a'
increment-Incremented a name amount a' h = elim (Option-cases (lookup name a)) [
  | inl missing ↦ absurd (increment_known a name amount a' h missing)
  | inr (n, held) ↦
      (let (m, sum) = increment_checked a name amount a' h n held in
        let (l, r, p, q, hl, hr, e, fits) = (checked_arithmetic-Exact (pos n) amount m).0.0 sum in
        let total : m ≡ n + r = ground arith in
        record {
          before = n;
          more = r;
          held = held;
          natural = q;
          fits = ground arith;
          after = λ k.
              ap (λ t. lookup k t) (increment_sum a name amount a' h n m held sum)
              ∙ lookup-insert name k m a
              ∙ ap (λ t. if str_eq name k then some t else lookup k a) total;
        })
]
