-- ===== src/Accounting/Arena/Run.antt =====
-- Any sequence of reservations, modelled allocations and releases on one arena.
use turn_vector_benchmark.Base.{
  ℕ, ◌+◌, ◌-◌, ◌≤◌, ltb, String, ◌≡◌, refl, sym, ap, ◌∙◌, subst, ◌⊎◌, inl, inr, arith, Bool-cases,
  Error, Result, ok, err, contract_error, internal_error,
}
use turn_vector_benchmark.Base.Int.{ℤ, pos, negsuc, pos_part}
use turn_vector_benchmark.Limits.{u64_max, checked_nonnegative_u64}
use turn_vector_benchmark.Accounting.Arena.{
  RetainedArena, new_arena, reserve, release, Modeled, modeled_allocate,
}
use turn_vector_benchmark.Accounting.Arena.Balance.{
  IsWithin, Charged, charge, admitted, reserve-Charged, modeled_allocate-Charged,
}

-- `taken` is the sum of what the operations charged, `given` that of the releases that returned; an
-- operation that raises is a step too, and the state that it leaves is the next one's.
pub data Run (T : Type 0) (start : Modeled) : ℕ → ℕ → Modeled → Type 0 where
  nothing : Run T start 0 0 start
  allocated :
      {taken given : ℕ} {s : Modeled} (amount : ℤ) (label : String) (allocator : Result T)
      → Run T start taken given s
      → Run T start
          (taken + charge (modeled_allocate amount label allocator s).0 (pos_part amount))
          given
          (modeled_allocate amount label allocator s).1
  reserved :
      {taken given : ℕ} {s : Modeled} (amount : ℤ)
      → Run T start taken given s
      → Run T start
          (taken + admitted (reserve amount s.arena).0 (pos_part amount))
          given
          (record s { arena = (reserve amount s.arena).1 })
  released :
      {taken given : ℕ} {s : Modeled} (n : ℕ) (a : RetainedArena)
      → Run T start taken given s
      → release (pos n) s.arena ≡ (ok tt, a)
      → Run T start taken (given + n) (record s { arena = a })
  not_released :
      {taken given : ℕ} {s : Modeled} (amount : ℤ) (e : Error) (a : RetainedArena)
      → Run T start taken given s
      → release amount s.arena ≡ (err e, a)
      → Run T start taken given (record s { arena = a })

-- A release gives back the amount, or raises and changes nothing.
release_cases :
    (amount : ℤ) (a : RetainedArena)
    → ((release amount a ≡ (ok tt, record a { used = a.used - pos_part amount }))
        × (pos_part amount ≤ a.used))
      ⊎ ((e : Error) × (release amount a ≡ (err e, a)))
unfolding release checked_nonnegative_u64
release_cases (pos n) a = elim (Bool-cases (ltb u64_max n)) [
  | inl big ↦ inr (contract_error, ground arith)
  | inr small ↦ elim (Bool-cases (ltb a.used n)) [
    | inl more ↦ inr (internal_error, ground arith)
    | inr enough ↦ inl (ground arith, ground arith)
  ]
]
release_cases (negsuc n) a = inr (contract_error, refl)

-- The books of a run.
pub record IsBalanced (maximum taken given : ℕ) (a : RetainedArena) : Type 0 where
  pub balance : a.used + given ≡ taken
  pub bound : a.maximum ≡ maximum
  pub within : IsWithin a

Charged-IsBalanced :
    {maximum taken given n : ℕ} {a a' : RetainedArena}
    → IsBalanced maximum taken given a
    → Charged n a a'
    → IsBalanced maximum (taken + n) given a'
Charged-IsBalanced b c = record {
  balance = omega (arith, b.balance, c.used_grows);
  bound = c.same_maximum ∙ b.bound;
  within = c.within;
}

released-IsBalanced :
    {maximum taken given : ℕ} {a : RetainedArena} (n : ℕ) (a' : RetainedArena)
    → IsBalanced maximum taken given a
    → release (pos n) a ≡ (ok tt, a')
    → IsBalanced maximum taken (given + n) a'
released-IsBalanced {a = a} n a' b h = elim (release_cases (pos n) a) [
  | inr (e, q) ↦ absurd (ground arith)
  | inl (q, small) ↦ subst (IsBalanced _ _ _) (ap (λ t. t.1) (sym q ∙ h)) (record {
    balance = omega (arith, b.balance, small);
    bound = b.bound;
    within = record {
      used_small = omega (arith, b.within.used_small);
      high = omega (arith, b.within.high);
    };
  })
]

not_released-IsBalanced :
    {maximum taken given : ℕ} {a : RetainedArena} (amount : ℤ) (e : Error) (a' : RetainedArena)
    → IsBalanced maximum taken given a
    → release amount a ≡ (err e, a')
    → IsBalanced maximum taken given a'
not_released-IsBalanced {a = a} amount e a' b h = elim (release_cases amount a) [
  | inl (q, small) ↦ absurd (ground arith)
  | inr (e', q) ↦ subst (IsBalanced _ _ _) (ap (λ t. t.1) (sym q ∙ h)) b
]

Run-IsBalanced :
    {T : Type 0} {start s : Modeled} {taken given : ℕ}
    → IsBalanced start.arena.maximum 0 0 start.arena
    → Run T start taken given s
    → IsBalanced start.arena.maximum taken given s.arena
Run-IsBalanced b nothing = b
Run-IsBalanced b (allocated {s = s} amount label allocator r) =
    let before = Run-IsBalanced b r in
    Charged-IsBalanced before (modeled_allocate-Charged amount label allocator s before.within)
Run-IsBalanced b (reserved {s = s} amount r) =
    let before = Run-IsBalanced b r in
    Charged-IsBalanced before (reserve-Charged amount s.arena before.within)
Run-IsBalanced b (released n a r h) = released-IsBalanced n a (Run-IsBalanced b r) h
Run-IsBalanced b (not_released amount e a r h) =
    not_released-IsBalanced amount e a (Run-IsBalanced b r) h

fresh-IsBalanced :
    (maximum : ℤ) (a : RetainedArena) → new_arena maximum ≡ ok a → IsBalanced a.maximum 0 0 a
unfolding new_arena checked_nonnegative_u64
fresh-IsBalanced (pos n) a h = record {
  balance = ground arith;
  bound = refl;
  within = record { used_small = ground arith; high = ground arith };
}
fresh-IsBalanced (negsuc n) a h = absurd (ground arith)

-- From a new arena, after any operations, also ones that raise: what is retained and what was given
-- back sum to what was charged, what is retained is at most the maximum, and the high-water mark is
-- not below it.
pub Run-balances :
    {T : Type 0} (maximum : ℤ) (start s : Modeled) (taken given : ℕ)
    → new_arena maximum ≡ ok start.arena
    → Run T start taken given s
    → (s.arena.used + given ≡ taken)
      × (s.arena.used ≤ start.arena.maximum)
      × (s.arena.used ≤ s.arena.high_water)
Run-balances maximum start s taken given fresh run =
    let b = Run-IsBalanced (fresh-IsBalanced maximum start.arena fresh) run in
    (b.balance, subst (λ t. s.arena.used ≤ t) b.bound b.within.used_small, b.within.high)
