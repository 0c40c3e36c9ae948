-- ===== src/Accounting/Arena.antt =====
-- `RetainedArena` and `SharedHashBuffer`: the logical charges.
pub mod Balance
pub mod Run
pub mod Intern
use Prim.Native.String.{len}
use turn_vector_benchmark.Base.{
  ℕ, ◌-◌, max, ltb, String, Bool, true, false, Option, none, some, List, [], ◌∷◌, Result, ok, err,
  internal_error, if◌then◌else◌,
}
use turn_vector_benchmark.Base.Sets.{contains, add}
use turn_vector_benchmark.Base.Int.{ℤ, pos}
use turn_vector_benchmark.Base.Exec.{Exec, pure, lift, gets, modify, raise_when, ◌>>=◌, ◌>>◌}
use turn_vector_benchmark.Limits.{checked_nonnegative_u64, checked_add}
use turn_vector_benchmark.Accounting.{intern_entry_charge}
use turn_vector_benchmark.Accounting.Fault.{FaultInjector, before_modeled_allocation}

pub record RetainedArena : Type 0 where
  pub maximum : ℕ
  pub used : ℕ
  pub high_water : ℕ
  pub last_candidate : ℕ

unfoldable pub new_arena : ℤ → Result RetainedArena
new_arena maximum = elim (checked_nonnegative_u64 maximum) [
  | ok n ↦ ok (record { maximum = n; used = 0; high_water = 0; last_candidate = 0 })
  | err e ↦ err e
]

unfoldable pub candidate : ℤ → Exec RetainedArena ℕ
candidate amount = do
  n ← lift (checked_nonnegative_u64 amount)
  a ← gets (λ a. a)
  lift (checked_add (pos a.used) (pos n))

-- The arena with a candidate noted, and its state when the candidate exceeds the maximum and when it
-- does not.
abbrev pub noted : ℕ → RetainedArena → RetainedArena
noted n a = record a { last_candidate = n }

abbrev pub exceeded : ℕ → RetainedArena → RetainedArena
exceeded n a = record a { high_water = max a.high_water n }

abbrev pub committed : ℕ → RetainedArena → RetainedArena
committed n a = record a { used = n; high_water = max a.high_water n }

unfoldable pub reserve : ℤ → Exec RetainedArena Bool
reserve amount = do
  n ← candidate amount
  modify (noted n)
  a ← gets (λ a. a)
  elim (ltb a.maximum n) [
    | true ↦ (do modify (exceeded n); pure false)
    | false ↦ (do modify (committed n); pure true)
  ]

unfoldable pub release : ℤ → Exec RetainedArena (Unit {0})
release amount = do
  n ← lift (checked_nonnegative_u64 amount)
  a ← gets (λ a. a)
  raise_when (ltb a.used n) internal_error
  modify (λ a. record a { used = a.used - n })

-- The arena, and the injector that its caller passes, if any.
pub record Modeled : Type 0 where
  pub arena : RetainedArena
  pub injector : Option FaultInjector

abbrev pub on_arena : {A : Type 0} → Exec RetainedArena A → Exec Modeled A
on_arena m s = let (r, a) = m s.arena in (r, record s { arena = a })

-- `if fault_injector is not None: fault_injector.before_modeled_allocation(label)`
unfoldable pub inject : String → Exec Modeled (Unit {0})
inject label s = elim s.injector [
  | none ↦ (ok tt, s)
  | some f ↦
      (let (r, g) = before_modeled_allocation label f in
        (elim r [ ok n ↦ ok tt | err e ↦ err e ], record s { injector = some g }))
]

-- The allocator is a callable that returns or raises.
unfoldable pub modeled_allocate : {T : Type 0} → ℤ → String → Result T → Exec Modeled (Option T)
modeled_allocate amount label allocator = do
  n ← on_arena (candidate amount)
  on_arena (modify (noted n))
  a ← gets (λ s. s.arena)
  elim (ltb a.maximum n) [
    | true ↦ (do on_arena (modify (exceeded n)); pure none)
    | false ↦ (do
      inject label
      value ← lift allocator
      on_arena (modify (committed n))
      pure (some value))
  ]

-- `object`, whose constructor does not fail.
abbrev pub object : Result (Unit {0})
object = ok tt

unfoldable pub retain_s8_hash_state : Exec Modeled (Option (Unit {0}))
retain_s8_hash_state = modeled_allocate (pos 256) "s8-sha256-state" object

-- The pair and the interned identifiers after the visit; the set belongs to the caller.
unfoldable pub visit_case_id : String → List String → Exec Modeled ((Bool × Bool) × List String)
visit_case_id case_id interned =
    if contains case_id interned then pure ((true, false), interned) else (do
      charge ← lift (intern_entry_charge case_id)
      marker ← modeled_allocate (pos charge) "derived-case-id-intern-miss" object
      elim marker [
        | none ↦ pure ((false, false), interned)
        | some m ↦ pure ((true, true), add case_id interned)
      ])

-- `SharedHashBuffer`: the bytes are never read here, so that only its liveness counts.
pub record SharedHashBuffer : Type 0 where
  pub logically_live : Bool

unfoldable pub allocate_phase_a : Exec Modeled (Option SharedHashBuffer)
allocate_phase_a = do
  value ← modeled_allocate (pos 65536) "shared-hash-buffer" object
  elim value [ none ↦ pure none | some v ↦ pure (some (record { logically_live = true })) ]

-- A method of the buffer, given the arena: both are changed.
unfoldable pub logical_release : Exec (SharedHashBuffer × RetainedArena) (Unit {0})
logical_release (b, a) = elim b.logically_live [
  | false ↦ (err internal_error, (b, a))
  | true ↦
      (let (r, a') = release (pos 65536) a in
        elim r [
          | ok u ↦ (ok tt, (record { logically_live = false }, a'))
          | err e ↦ (err e, (b, a'))
        ])
]

unfoldable pub logical_reserve_phase_d : Exec (SharedHashBuffer × RetainedArena) Bool
logical_reserve_phase_d (b, a) = elim b.logically_live [
  | true ↦ (err internal_error, (b, a))
  | false ↦
      (let (r, a') = reserve (pos 65536) a in
        elim r [
          | ok admitted ↦ (ok admitted, (record { logically_live = admitted }, a'))
          | err e ↦ (err e, (b, a'))
        ])
]
