-- ===== src/Limits/Tests.antt =====
-- The frozen limits and the arithmetic on small inputs, and the theorems at concrete inputs.
use turn_vector_benchmark.Base.{
  ◌+◌, ◌*◌, ◌≡◌, refl, ◌↔◌, true, false, [], ◌∷◌, ok, err, contract_error,
}
use turn_vector_benchmark.Base.Dict.{lookup}
use turn_vector_benchmark.Base.Int.{pos}
use turn_vector_benchmark.Limits.{
  CompileLimits, limit_fields, construct, check_fields, checked_u64, frozen, is_frozen,
  equals_fields, checked_add, checked_mul, checked_nonnegative_u64,
}
use turn_vector_benchmark.Limits.Arithmetic.{Exact, Ends, checked_arithmetic-Exact}
use turn_vector_benchmark.Limits.Frozen.{AreWithin, has_unknown, construct-AreWithin}

-- One limit is smaller, the others are left out.
abbrev smaller_limits : CompileLimits
smaller_limits = ("catalog_record_count_max", pos 3) ∷ []

accepts_the_frozen_limits : frozen ≡ ok []
unfolding frozen construct check_fields checked_u64 lookup
accepts_the_frozen_limits = refl

accepts_smaller_limits : construct smaller_limits ≡ ok smaller_limits
unfolding construct check_fields checked_u64 lookup
accepts_smaller_limits = refl

refuses_larger_limits : construct (("t_max", pos 9) ∷ []) ≡ err contract_error
unfolding construct check_fields checked_u64 lookup
refuses_larger_limits = refl

equals_frozen : is_frozen [] ≡ true
unfolding is_frozen equals_fields lookup
equals_frozen = refl

differs_from_frozen : is_frozen smaller_limits ≡ false
unfolding is_frozen equals_fields lookup
differs_from_frozen = refl

overflowing : checked_mul (pos 4294967296) (pos 4294967296) ≡ err contract_error
unfolding checked_mul checked_nonnegative_u64
overflowing = refl

checked_arithmetic-Exact_example :
    ((checked_add (pos 6) (pos 7) ≡ ok 13) ↔ Exact ◌+◌ (pos 6) (pos 7) 13)
    × ((checked_mul (pos 6) (pos 7) ≡ ok 13) ↔ Exact ◌*◌ (pos 6) (pos 7) 13)
    × Ends (checked_add (pos 6) (pos 7))
    × Ends (checked_mul (pos 6) (pos 7))
checked_arithmetic-Exact_example = checked_arithmetic-Exact (pos 6) (pos 7) 13

construct-AreWithin_example :
    (construct smaller_limits ≡ ok smaller_limits)
    ↔ ((has_unknown smaller_limits ≡ false) × AreWithin limit_fields smaller_limits)
construct-AreWithin_example = construct-AreWithin smaller_limits
