-- ===== src/Accounting/Arena/Balance.antt =====
-- Runs of `RetainedArena`: what is retained is what was taken less what was given back.
use turn_vector_benchmark.Base.{
  ℕ, ◌+◌, ◌≤◌, ltb, String, ◌≡◌, refl, ap, Bool, true, false, Option, none, some, ◌⊎◌, inl, inr,
  arith, Bool-cases, Option-cases, Result-cases, Error, Result, ok, err, contract_error,
}
use turn_vector_benchmark.Base.Int.{ℤ, pos, negsuc, pos_part}
use turn_vector_benchmark.Limits.{checked_nonnegative_u64, checked_add}
use turn_vector_benchmark.Accounting.Arena.{
  RetainedArena, candidate, noted, exceeded, committed, reserve, Modeled, inject, modeled_allocate,
}

pub record IsWithin (a : RetainedArena) : Type 0 where
  pub used_small : a.used ≤ a.maximum
  pub high : a.used ≤ a.high_water

-- What an operation that asks for `n` may leave of the charge.
abbrev pub charge {ℓ} : {T : Type ℓ} → Result (Option T) → ℕ → ℕ
charge (ok (some v)) n = n
charge (ok none) n = 0
charge (err e) n = 0

abbrev pub admitted : Result Bool → ℕ → ℕ
admitted (ok true) n = n
admitted (ok false) n = 0
admitted (err e) n = 0

-- The arena after an operation that has charged `n`.
pub record Charged (n : ℕ) (a a' : RetainedArena) : Type 0 where
  pub used_grows : a'.used ≡ a.used + n
  pub same_maximum : a'.maximum ≡ a.maximum
  pub within : IsWithin a'

candidate_cases :
    (amount : ℤ) (a : RetainedArena)
    → (candidate amount a ≡ (err contract_error, a))
      ⊎ ((candidate amount a ≡ (ok (a.used + pos_part amount), a))
          × (amount ≡ pos (pos_part amount)))
unfolding candidate checked_nonnegative_u64 checked_add
candidate_cases (negsuc n) a = inl refl
candidate_cases (pos n) a = ground arith

-- What `reserve` makes of a candidate, on each branch.
reserve_refused :
    (amount : ℤ) (a : RetainedArena)
    → candidate amount a ≡ (err contract_error, a)
    → reserve amount a ≡ (err contract_error, a)
unfolding reserve
reserve_refused amount a h = ground arith

reserve_over :
    (amount : ℤ) (n : ℕ) (a : RetainedArena)
    → candidate amount a ≡ (ok n, a)
    → ltb a.maximum n ≡ true
    → reserve amount a ≡ (ok false, exceeded n (noted n a))
unfolding reserve
reserve_over amount n a h over = ground arith

reserve_fits :
    (amount : ℤ) (n : ℕ) (a : RetainedArena)
    → candidate amount a ≡ (ok n, a)
    → ltb a.maximum n ≡ false
    → reserve amount a ≡ (ok true, committed n (noted n a))
unfolding reserve
reserve_fits amount n a h fits = ground arith

unchanged-Charged : (a : RetainedArena) → IsWithin a → Charged 0 a a
unchanged-Charged a w = record { used_grows = omega arith; same_maximum = refl; within = w }

exceeded-Charged : (n : ℕ) (a : RetainedArena) → IsWithin a → Charged 0 a (exceeded n (noted n a))
exceeded-Charged n a w = record {
  used_grows = omega arith;
  same_maximum = refl;
  within = record { used_small = w.used_small; high = omega (arith, w.high) };
}

committed-Charged :
    (n : ℕ) (a : RetainedArena)
    → ltb a.maximum (a.used + n) ≡ false
    → Charged n a (committed (a.used + n) (noted (a.used + n) a))
committed-Charged n a fits = record {
  used_grows = refl;
  same_maximum = refl;
  within = record { used_small = ground arith; high = omega arith };
}

-- `reserve` charges the amount where it returns true, and nothing where it returns false or raises.
pub reserve-Charged :
    (amount : ℤ) (a : RetainedArena)
    → IsWithin a
    → Charged (admitted (reserve amount a).0 (pos_part amount)) a (reserve amount a).1
reserve-Charged amount a w = elim (candidate_cases amount a) [
  | inl h ↦ rw (reserve_refused amount a h, admitted) (unchanged-Charged a w)
  | inr (h, p) ↦ elim (Bool-cases (ltb a.maximum (a.used + pos_part amount))) [
    | inl over ↦
        rw (reserve_over amount (a.used + pos_part amount) a h over, admitted)
          (exceeded-Charged (a.used + pos_part amount) a w)
    | inr fits ↦
        rw (reserve_fits amount (a.used + pos_part amount) a h fits, admitted)
          (committed-Charged (pos_part amount) a fits)
  ]
]

module _ {T : Type 0} (amount : ℤ) (label : String) (allocator : Result T) (s : Modeled) where
  abbrev asked : ℕ → Modeled
  asked n = record s { arena = noted n s.arena }

  -- What `modeled_allocate` makes of a candidate, on each branch.
  allocate_refused :
      candidate amount s.arena ≡ (err contract_error, s.arena)
      → modeled_allocate amount label allocator s ≡ (err contract_error, s)
  unfolding modeled_allocate
  allocate_refused h = ground arith

  allocate_over :
      (n : ℕ)
      → candidate amount s.arena ≡ (ok n, s.arena)
      → ltb s.arena.maximum n ≡ true
      → modeled_allocate amount label allocator s
        ≡ (ok none, record s { arena = exceeded n (noted n s.arena) })
  unfolding modeled_allocate
  allocate_over n h over = ground arith

  allocate_injected :
      (n : ℕ) (e : Error) (s' : Modeled)
      → candidate amount s.arena ≡ (ok n, s.arena)
      → ltb s.arena.maximum n ≡ false
      → inject label (asked n) ≡ (err e, s')
      → modeled_allocate amount label allocator s ≡ (err e, s')
  unfolding modeled_allocate
  allocate_injected n e s' h fits fault = ground arith

  allocate_failed :
      (n : ℕ) (e : Error) (s' : Modeled)
      → candidate amount s.arena ≡ (ok n, s.arena)
      → ltb s.arena.maximum n ≡ false
      → inject label (asked n) ≡ (ok tt, s')
      → allocator ≡ err e
      → modeled_allocate amount label allocator s ≡ (err e, s')
  unfolding modeled_allocate
  allocate_failed n e s' h fits sound native = ground arith

  allocate_done :
      (n : ℕ) (v : T) (s' : Modeled)
      → candidate amount s.arena ≡ (ok n, s.arena)
      → ltb s.arena.maximum n ≡ false
      → inject label (asked n) ≡ (ok tt, s')
      → allocator ≡ ok v
      → modeled_allocate amount label allocator s
        ≡ (ok (some v), record s' { arena = committed n s'.arena })
  unfolding modeled_allocate
  allocate_done n v s' h fits sound native = ground arith

inject-arena : (label : String) (s : Modeled) → (inject label s).1.arena ≡ s.arena
unfolding inject
inject-arena label s = elim (Option-cases s.injector) [ inl p ↦ rw p refl | inr (f, p) ↦ rw p refl ]

noted-Charged : (n : ℕ) (a a' : RetainedArena) → IsWithin a → a' ≡ noted n a → Charged 0 a a'
noted-Charged n a a' w e = rw e (record {
  used_grows = omega arith;
  same_maximum = refl;
  within = record { used_small = w.used_small; high = w.high };
})

grown-Charged :
    (n : ℕ) (a a' : RetainedArena)
    → ltb a.maximum (a.used + n) ≡ false
    → a' ≡ noted (a.used + n) a
    → Charged n a (committed (a.used + n) a')
grown-Charged n a a' fits e = rw e (committed-Charged n a fits)

-- `modeled_allocate` charges the amount exactly where it returns the allocated value: a maximum that
-- would be exceeded, an injected fault and an allocator that raises charge nothing.
pub modeled_allocate-Charged :
    {T : Type 0} (amount : ℤ) (label : String) (allocator : Result T) (s : Modeled)
    → IsWithin s.arena
    → Charged
        (charge (modeled_allocate amount label allocator s).0 (pos_part amount))
        s.arena
        (modeled_allocate amount label allocator s).1.arena
modeled_allocate-Charged amount label allocator s w = elim (candidate_cases amount s.arena) [
  | inl h ↦ rw (allocate_refused amount label allocator s h, charge) (unchanged-Charged s.arena w)
  | inr (h, p) ↦ elim (Bool-cases (ltb s.arena.maximum n)) [
    | inl over ↦
        rw (allocate_over amount label allocator s n h over, charge) (exceeded-Charged n s.arena w)
    | inr fits ↦ elim (Result-cases (inject label at).0) [
      | inr (e, fault) ↦
          rw
            (
              allocate_injected amount label allocator s n e (inject label at).1 h fits
                  (pair fault),
              charge,
            )
            (noted-Charged n s.arena (inject label at).1.arena w (inject-arena label at))
      | inl (u, sound) ↦ elim (Result-cases allocator) [
        | inr (e, native) ↦
            rw
              (
                allocate_failed amount label allocator s n e (inject label at).1 h fits (pair sound)
                    native,
                charge,
              )
              (noted-Charged n s.arena (inject label at).1.arena w (inject-arena label at))
        | inl (v, native) ↦
            rw
              (
                allocate_done amount label allocator s n v (inject label at).1 h fits (pair sound)
                    native,
                charge,
              )
              (grown-Charged (pos_part amount) s.arena (inject label at).1.arena fits
                (inject-arena label at))
      ]
    ]
  ]
]
  where
    n : ℕ
    n = s.arena.used + pos_part amount

    at : Modeled
    at = record s { arena = noted n s.arena }

    pair :
        {r : Result (Unit {0})}
        → (inject label at).0 ≡ r
        → inject label at ≡ (r, (inject label at).1)
    pair e = ap (λ t. (t, (inject label at).1)) e
