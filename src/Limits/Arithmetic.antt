-- ===== src/Limits/Arithmetic.antt =====
-- What the checked 64-bit operations return.
use turn_vector_benchmark.Base.{
  ℕ, zero, suc, ◌+◌, ◌*◌, ◌/◌, ◌≤◌, ◌<◌, ◌≡◌, refl, ◌↔◌, ◌⊎◌, inl, inr, arith, Result, Error, ap,
  subst, ok, err, contract_error,
}
use native.Mathlib.Nat
use turn_vector_benchmark.Base.Int.{ℤ, pos, negsuc}
use turn_vector_benchmark.Limits.{u64_max, checked_nonnegative_u64, checked_add, checked_mul}

-- The operands and the result of an operation that has returned.
abbrev pub Exact : (ℕ → ℕ → ℕ) → ℤ → ℤ → ℕ → Type 0
Exact op left right n =
    (l : ℕ) × (r : ℕ) × (left ≡ pos l)
    × (right ≡ pos r)
    × (l ≤ u64_max)
    × (r ≤ u64_max)
    × (n ≡ op l r)
    × (n ≤ u64_max)

pub checked_add-ok : (l r : ℕ) → l + r ≤ u64_max → checked_add (pos l) (pos r) ≡ ok (l + r)
unfolding checked_add checked_nonnegative_u64
checked_add-ok l r h = ground arith

checked_add-Exact :
    (left right : ℤ) (n : ℕ) → checked_add left right ≡ ok n → Exact ◌+◌ left right n
unfolding checked_add checked_nonnegative_u64
checked_add-Exact (pos l) (pos r) n h =
    (l, r, refl, refl, ground arith, ground arith, ground arith, ground arith)
checked_add-Exact (pos l) (negsuc r) n h = absurd (ground arith)
checked_add-Exact (negsuc l) right n h = absurd (ground arith)

checked_add-err : (left right : ℤ) (e : Error) → checked_add left right ≡ err e → e ≡ contract_error
unfolding checked_add checked_nonnegative_u64
checked_add-err (pos l) (pos r) e h = ground arith
checked_add-err (pos l) (negsuc r) e h = ground arith
checked_add-err (negsuc l) right e h = ground arith

product_small : (l r : ℕ) → 0 < r → l ≤ u64_max / r → l * r ≤ u64_max
product_small l r h q = (Nat.le-div_iff_mul-le h).0 q

small_product : (l r : ℕ) → 0 < r → l * r ≤ u64_max → l ≤ u64_max / r
small_product l r h q = (Nat.le-div_iff_mul-le h).1 q

checked_mul-ok :
    (l r : ℕ)
    → l ≤ u64_max
    → r ≤ u64_max
    → l * r ≤ u64_max
    → checked_mul (pos l) (pos r) ≡ ok (l * r)
unfolding checked_mul checked_nonnegative_u64
checked_mul-ok zero r hl hr h = ground arith
checked_mul-ok (suc l) zero hl hr h = ground arith
checked_mul-ok (suc l) (suc r) hl hr h = ground (arith, small_product (suc l) (suc r))

checked_mul-Exact :
    (left right : ℤ) (n : ℕ) → checked_mul left right ≡ ok n → Exact ◌*◌ left right n
unfolding checked_mul checked_nonnegative_u64
checked_mul-Exact (pos zero) (pos r) n h =
    (0, r, refl, refl, ground arith, ground arith, ground arith, ground arith)
checked_mul-Exact (pos (suc l)) (pos zero) n h =
    (suc l, 0, refl, refl, ground arith, ground arith, ground arith, ground arith)
checked_mul-Exact (pos (suc l)) (pos (suc r)) n h = (
  suc l,
  suc r,
  refl,
  refl,
  ground arith,
  ground arith,
  ground arith,
  ground (arith, product_small (suc l) (suc r)),
)
checked_mul-Exact (pos l) (negsuc r) n h = absurd (ground arith)
checked_mul-Exact (negsuc l) right n h = absurd (ground arith)

checked_mul-err : (left right : ℤ) (e : Error) → checked_mul left right ≡ err e → e ≡ contract_error
unfolding checked_mul checked_nonnegative_u64
checked_mul-err (pos l) (pos r) e h = ground arith
checked_mul-err (pos l) (negsuc r) e h = ground arith
checked_mul-err (negsuc l) right e h = ground arith

-- The two ways to end.
abbrev pub Ends : Result ℕ → Type 0
Ends r = ((n : ℕ) × (r ≡ ok n)) ⊎ (r ≡ err contract_error)

Ends-err : (r : Result ℕ) → ((e : Error) → r ≡ err e → e ≡ contract_error) → Ends r
Ends-err (ok n) h = inl (n, refl)
Ends-err (err e) h = inr (ap (λ t. err t) (h e refl))

Exact-add : (left right : ℤ) (n : ℕ) → Exact ◌+◌ left right n → checked_add left right ≡ ok n
Exact-add left right n (l, r, p, q, hl, hr, e, h) =
    rw p (rw q (rw e (checked_add-ok l r (subst (λ t. t ≤ u64_max) e h))))

Exact-mul : (left right : ℤ) (n : ℕ) → Exact ◌*◌ left right n → checked_mul left right ≡ ok n
Exact-mul left right n (l, r, p, q, hl, hr, e, h) =
    rw p (rw q (rw e (checked_mul-ok l r hl hr (subst (λ t. t ≤ u64_max) e h))))

-- The checked addition and the checked multiplication, whose overflow test is a division, return
-- precisely the results that fit in 64 bits, of operands that are not negative and fit too; otherwise
-- they raise a `ContractError`.
pub checked_arithmetic-Exact :
    (left right : ℤ) (n : ℕ)
    → ((checked_add left right ≡ ok n) ↔ Exact ◌+◌ left right n)
      × ((checked_mul left right ≡ ok n) ↔ Exact ◌*◌ left right n)
      × Ends (checked_add left right)
      × Ends (checked_mul left right)
checked_arithmetic-Exact left right n = (
  (checked_add-Exact left right n, Exact-add left right n),
  (checked_mul-Exact left right n, Exact-mul left right n),
  Ends-err (checked_add left right) (checked_add-err left right),
  Ends-err (checked_mul left right) (checked_mul-err left right),
)
