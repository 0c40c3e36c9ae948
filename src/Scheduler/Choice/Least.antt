-- ===== src/Scheduler/Choice/Least.antt =====
-- The candidate that `choose` returns is the least by its key among those that it may choose from.
use turn_vector_benchmark.Base.{
  ℕ, ◌≡◌, refl, sym, subst, true, false, Option, none, some, List, [], ◌∷◌, ◌≢◌, arith, In,
  is_empty-keep_if, is_empty, keep_if, Result, ok, err, ◌>>=◌,
}
use turn_vector_benchmark.Base.Order.{Ord, lte, min_by, min_by-In, min_by-le, pair_ord, text_ord}
use turn_vector_benchmark.Base.Int.{int_ord}
use turn_vector_benchmark.Base.Fraction.{Fraction, fraction_ord}
use turn_vector_benchmark.Base.Dict.{Dict}
use turn_vector_benchmark.Scheduler.Choice.Keyed.{keyed-In, keyed-In_back}
use turn_vector_benchmark.Scheduler.{Candidate, eligible, is_urgent}
use turn_vector_benchmark.Scheduler.Choice.{
  DecisionClass, urgent, normal, no_plan, keyed, select, urgent_key, normal_key, choose,
}

-- What `select` returns is one of the elements, and no other has a smaller key.
module _ {A K : Type 0} ⦃o : Ord K⦄ (key : A → Result K) where
  abbrev pub IsLeast : List A → A → Type 0
  IsLeast xs a =
      In a xs
      × ((other : A) (k k' : K) → In other xs → key a ≡ ok k → key other ≡ ok k' → lte k k' ≡ true)

  select_ok :
      (r : Result K) (s : Result (List (K × A))) (x : A) (a : A)
      → (do k ← r; rest ← s; ok (some (min_by (λ (p : K × A). p.0) (k, x) rest).1)) ≡ ok (some a)
      → (k : K) × (rest : List (K × A)) × (r ≡ ok k)
        × (s ≡ ok rest)
        × (a ≡ (min_by (λ (p : K × A). p.0) (k, x) rest).1)
  select_ok (ok k) (ok rest) x a e = (k, rest, refl, refl, ground arith)
  select_ok (ok k) (err _) x a e = cc
  select_ok (err _) s x a e = cc

  pub select-IsLeast : (xs : List A) (a : A) → select key xs ≡ ok (some a) → IsLeast xs a
  unfolding select
  select-IsLeast [] a e = cc
  select-IsLeast (x ∷ xs) a e =
      let (j, rest, found, tail, chosen) = select_ok (key x) (keyed key xs) x a e in
      let pairs = (j, x) ∷ rest in
      let listed : keyed key (x ∷ xs) ≡ ok pairs = ground arith in
      let best = min_by (λ (p : K × A). p.0) (j, x) rest in
      let back =
        keyed-In_back key (x ∷ xs) pairs listed best (min_by-In (λ (p : K × A). p.0) (j, x) rest) in
      (
        subst (λ b. In b (x ∷ xs)) (sym chosen) back.0,
        λ other k k' m h h'.
            let e' : k ≡ best.0 = ground (arith, back.1) in
            rw e' (
              min_by-le (λ (p : K × A). p.0) (j, x) rest (k', other)
                (keyed-In key (x ∷ xs) pairs listed other k' m h')),
      )

  pub select-ne-none : (xs : List A) → is_empty xs ≡ false → select key xs ≢ ok none
  unfolding select
  select-ne-none [] p e = cc
  select-ne-none (x ∷ xs) p e = ground arith

-- What `choose` may return: an urgent candidate that is least among the urgent ones; an eligible
-- one that is least if none is urgent; nothing if none is eligible.
abbrev pub IsChoice : ℕ → List Candidate → Dict Fraction → Option Candidate × DecisionClass → Type 0
IsChoice now cs d (some c, urgent) =
    IsLeast (urgent_key d) (keep_if (λ c'. is_urgent c' now) (keep_if eligible cs)) c
IsChoice now cs d (some c, normal) =
    IsLeast (normal_key d) (keep_if eligible cs) c
    × ((other : Candidate) → In other (keep_if eligible cs) → is_urgent other now ≡ false)
IsChoice now cs d (none, no_plan) = (c : Candidate) → In c cs → eligible c ≡ false
IsChoice now cs d _ = ⊥

pub choose-IsChoice :
    (now : ℕ) (cs : List Candidate) (d : Dict Fraction) (r : Option Candidate × DecisionClass)
    → choose now cs d ≡ ok r
    → IsChoice now cs d r
unfolding choose
choose-IsChoice now cs d (some c, urgent) h =
    select-IsLeast (urgent_key d) (keep_if (λ c'. is_urgent c' now) (keep_if eligible cs)) c
      (ground arith)
choose-IsChoice now cs d (some c, normal) h = (
  select-IsLeast (normal_key d) (keep_if eligible cs) c (ground arith),
  λ c' m. is_empty-keep_if (λ c'. is_urgent c' now) c' (keep_if eligible cs) (ground arith) m,
)
choose-IsChoice now cs d (some c, no_plan) h = ground arith
choose-IsChoice now cs d (none, urgent) h =
    ground (
      arith,
      select-ne-none (urgent_key d) (keep_if (λ c'. is_urgent c' now) (keep_if eligible cs)),
    )
choose-IsChoice now cs d (none, normal) h =
    ground (arith, select-ne-none (normal_key d) (keep_if eligible cs))
choose-IsChoice now cs d (none, no_plan) h = λ c m. is_empty-keep_if eligible c cs (ground arith) m
