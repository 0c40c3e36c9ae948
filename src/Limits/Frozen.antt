-- ===== src/Limits/Frozen.antt =====
-- Which limit vectors `CompileLimits` accepts.
use turn_vector_benchmark.Base.{
  ℕ, ◌≤◌, String, ◌≡◌, refl, ◌↔◌, Bool, true, false, not, ◌&&◌, [], ◌∷◌, any, arith, leb, ok,
  raise_if, type_error, >>=-eq-ok, Bool-cases, inl, inr,
}
use turn_vector_benchmark.Base.Dict.{Dict, keys}
use turn_vector_benchmark.Base.Sets.{contains}
use turn_vector_benchmark.Base.Int.{ℤ, pos, negsuc}
use turn_vector_benchmark.Limits.{
  u64_max, CompileLimits, attribute, limit_fields, checked_u64, check_fields, construct,
}

-- Every field, given or by default, holds a positive integer that is at most its default.
abbrev pub AreWithin : Dict ℕ → CompileLimits → Type 0
AreWithin [] l = Unit
AreWithin ((name, default) ∷ fields) l =
    ((v : ℕ) × (attribute l (name, default) ≡ pos v) × (1 ≤ v) × (v ≤ default)) × AreWithin fields l

abbrev are_small : Dict ℕ → Bool
are_small [] = true
are_small ((name, default) ∷ fields) = leb default u64_max && are_small fields

-- The step of the loop at one field.
check_field :
    (name : String) (default : ℕ) (fields : Dict ℕ) (l : CompileLimits) (v : ℤ)
    → attribute l (name, default) ≡ v
    → check_fields ((name, default) ∷ fields) l ≡ ok tt
    → ((n : ℕ) × (attribute l (name, default) ≡ pos n) × (1 ≤ n) × (n ≤ default))
      × (check_fields fields l ≡ ok tt)
unfolding check_fields checked_u64
check_field name default fields l (pos n) found h =
    ((n, found, ground arith, ground arith), ground arith)
check_field name default fields l (negsuc n) found h = absurd (ground arith)

check_field_back :
    (name : String) (default n : ℕ) (fields : Dict ℕ) (l : CompileLimits)
    → default ≤ u64_max
    → attribute l (name, default) ≡ pos n
    → 1 ≤ n
    → n ≤ default
    → check_fields fields l ≡ ok tt
    → check_fields ((name, default) ∷ fields) l ≡ ok tt
unfolding check_fields checked_u64
check_field_back name default n fields l small found low high rest = ground arith

check_fields-AreWithin :
    (fields : Dict ℕ) (l : CompileLimits) → check_fields fields l ≡ ok tt → AreWithin fields l
check_fields-AreWithin [] l h = tt
check_fields-AreWithin ((name, default) ∷ fields) l h =
    let (field, rest) = check_field name default fields l _ refl h in
    (field, check_fields-AreWithin fields l rest)

AreWithin-check_fields :
    (fields : Dict ℕ) (l : CompileLimits)
    → are_small fields ≡ true
    → AreWithin fields l
    → check_fields fields l ≡ ok tt
unfolding check_fields
AreWithin-check_fields [] l small h = refl
AreWithin-check_fields ((name, default) ∷ fields) l small ((n, found, low, high), h) =
    check_field_back name default n fields l (ground arith) found low high
      (AreWithin-check_fields fields l (ground arith) h)

-- An argument that names no field.
abbrev pub has_unknown : CompileLimits → Bool
has_unknown l = any (λ k. not (contains k (keys limit_fields))) (keys l)

construct_within :
    (l : CompileLimits)
    → construct l ≡ ok l
    → (has_unknown l ≡ false) × (check_fields limit_fields l ≡ ok tt)
unfolding construct
construct_within l h = elim (Bool-cases (has_unknown l)) [
  | inl unknown ↦ absurd (ground (arith, unknown))
  | inr known ↦
      (let (t, e, r) = >>=-eq-ok (raise_if (has_unknown l) type_error) _ h in
        let (u, e', r') = >>=-eq-ok (check_fields limit_fields l) (λ u. ok l) r in (known, e'))
]

within_construct :
    (l : CompileLimits)
    → has_unknown l ≡ false
    → check_fields limit_fields l ≡ ok tt
    → construct l ≡ ok l
unfolding construct
within_construct l known h = rw (known, h) refl

-- `CompileLimits(...)` accepts its arguments exactly if each names a field and every one of the 68
-- fields, with its default where no argument is given, is at least 1 and at most its frozen default.
pub construct-AreWithin :
    (l : CompileLimits)
    → (construct l ≡ ok l) ↔ ((has_unknown l ≡ false) × AreWithin limit_fields l)
construct-AreWithin l = (
  (λ h.
      let (known, checked) = construct_within l h in
      (known, check_fields-AreWithin limit_fields l checked)),
  λ h. within_construct l h.0 (AreWithin-check_fields limit_fields l refl h.1),
)
