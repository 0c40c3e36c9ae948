-- ===== src/Accounting/Fault.antt =====
-- `_FaultInjector` of turnvector_benchmark/authority/compiler_accounting.py.
pub mod Shot
use turn_vector_benchmark.Base.{
  ℕ, ◌==◌, ltb, String, Bool, true, false, not, ◌&&◌, Option, none, some, str_eq, Result, ok, err,
  internal_error, memory_error, if◌then◌else◌,
}
use turn_vector_benchmark.Base.Int.{ℤ, pos, negsuc}
use turn_vector_benchmark.Base.Exec.{Exec, lift, gets, modify, raise_when, ◌>>=◌, ◌>>◌}
use turn_vector_benchmark.Limits.{checked_add}

pub record FaultInjector : Type 0 where
  pub target_ordinal : Option ℕ
  pub ordinal : ℕ
  pub fired : Bool

unfoldable pub new_injector : Option ℤ → Result FaultInjector
new_injector none = ok (record { target_ordinal = none; ordinal = 0; fired = false })
new_injector (some (negsuc n)) = err internal_error
new_injector (some (pos n)) =
    if ltb n 1
    then err internal_error
    else ok (record { target_ordinal = some n; ordinal = 0; fired = false })

abbrev pub is_target : Option ℕ → ℕ → Bool
is_target none n = false
is_target (some t) n = t == n

unfoldable pub before_modeled_allocation : String → Exec FaultInjector ℕ
before_modeled_allocation label = do
  raise_when (str_eq label "") internal_error
  f ← gets (λ f. f)
  next ← lift (checked_add (pos f.ordinal) (pos 1))
  modify (λ g. record g { ordinal = next })
  g ← gets (λ g. g)
  let hit = not g.fired && is_target g.target_ordinal g.ordinal
  modify (λ g. record g {
    fired = elim hit [ true ↦ true | false ↦ g.fired ];
    target_ordinal = elim hit [ true ↦ none | false ↦ g.target_ordinal ];
  })
  raise_when hit memory_error
  gets (λ g. g.ordinal)
