-- ===== src/Scheduler/Choice/Keyed.antt =====
-- The list of the elements with their keys, and the least ledger of a set of models.
use turn_vector_benchmark.Base.{
  String, ◌≡◌, refl, sym, ap, subst, ◌∙◌, some, List, [], ◌∷◌, ◌⊎◌, inl, inr, arith, In, true,
  Result, ok, err, ◌>>=◌, ok-injective, >>=-eq-ok,
}
use turn_vector_benchmark.Base.Order.{lte, min_by, min_by-In, min_by-le}
use turn_vector_benchmark.Base.Fraction.{Fraction, ◌≼◌, fraction_ord}
use turn_vector_benchmark.Base.Dict.{Dict, lookup}
use turn_vector_benchmark.Scheduler.Choice.{
  keyed, entry, least_of, least_ledger, swapped, values_at,
}

module _ {A K : Type 0} (key : A → Result K) where
  -- The parts of a keyed list that has been built.
  cons_ok :
      (r : Result K) (s : Result (List (K × A))) (x : A) (l : List (K × A))
      → (do k ← r; rest ← s; ok ((k, x) ∷ rest)) ≡ ok l
      → (k : K) × (rest : List (K × A)) × (r ≡ ok k) × (s ≡ ok rest) × (l ≡ (k, x) ∷ rest)
  cons_ok (ok k) (ok rest) x l e = (k, rest, refl, refl, sym (ok-injective _ _ e))
  cons_ok (ok k) (err _) x l e = cc
  cons_ok (err _) s x l e = cc

  -- Every element stands in the keyed list with its key,
  pub keyed-In :
      (xs : List A) (l : List (K × A))
      → keyed key xs ≡ ok l
      → (a : A) (k : K) → In a xs
      → key a ≡ ok k
      → In {A = K × A} (k, a) l
  keyed-In [] l e a k m h = absurd m
  keyed-In (x ∷ xs) l e a k (inl p) h =
      let (j, rest, found, _, whole) = cons_ok (key x) (keyed key xs) x l e in
      subst (In {A = K × A} (k, a)) (sym whole) (inl (ground (arith, ok-injective k j)))
  keyed-In (x ∷ xs) l e a k (inr m) h =
      let (_, rest, _, tail, whole) = cons_ok (key x) (keyed key xs) x l e in
      subst (In {A = K × A} (k, a)) (sym whole) (inr (keyed-In xs rest tail a k m h))

  -- and nothing else does.
  pub keyed-In_back :
      (xs : List A) (l : List (K × A))
      → keyed key xs ≡ ok l
      → (p : K × A) → In p l
      → In p.1 xs × (key p.1 ≡ ok p.0)
  keyed-In_back [] l e p m = absurd (subst (In p) (sym (ok-injective _ _ e)) m)
  keyed-In_back (x ∷ xs) l e p m =
      let (j, rest, found, tail, whole) = cons_ok (key x) (keyed key xs) x l e in
      elim (subst (In p) whole m) [
        | inl q ↦ (inl (ap (λ (t : K × A). t.1) q), rw q found)
        | inr n ↦ let (n', h) = keyed-In_back xs rest tail p n in (inr n', h)
      ]

  pub keyed_total :
      (xs : List A)
      → ((x : A) → In x xs → (k : K) × (key x ≡ ok k))
      → (l : List (K × A)) × (keyed key xs ≡ ok l)
  keyed_total [] h = ([], refl)
  keyed_total (x ∷ xs) h =
      let (k, found) = h x (inl refl) in
      let (l, rest) = keyed_total xs (λ y m. h y (inr m)) in ((k, x) ∷ l, rw (found, rest))

-- Every model of the set has a ledger.
abbrev pub AllHeld : Dict Fraction → List String → Type 0
AllHeld d ks = (k : String) → In k ks → (f : Fraction) × (lookup k d ≡ some f)

entry-some :
    (d : Dict Fraction) (k : String) (f : Fraction) → lookup k d ≡ some f → entry d k ≡ ok f
entry-some d k f h = rw h

some-entry :
    (d : Dict Fraction) (k : String) (f : Fraction) → entry d k ≡ ok f → lookup k d ≡ some f
some-entry d k f h = ground arith

pub keyed_held :
    (d : Dict Fraction) (ks : List String)
    → AllHeld d ks
    → (l : List (Fraction × String)) × (keyed (entry d) ks ≡ ok l)
keyed_held d ks h = keyed_total (entry d) ks (λ k m. let (f, e) = h k m in (f, entry-some d k f e))

pub least_ledger_total :
    (otherwise : Fraction) (d : Dict Fraction) (ks : List String)
    → AllHeld d ks
    → (f : Fraction) × (least_ledger otherwise d ks ≡ ok f)
unfolding least_ledger
least_ledger_total otherwise d ks h = let (l, e) = keyed_held d ks h in (least_of otherwise l, rw e)

pub values_at_total :
    (d : Dict Fraction) (ks : List String)
    → AllHeld d ks
    → (shown : Dict Fraction) × (values_at d ks ≡ ok shown)
unfolding values_at
values_at_total d ks h = let (l, e) = keyed_held d ks h in (swapped l, rw e)

lte→≼ : (f g : Fraction) → lte f g ≡ true → f ≼ g
lte→≼ f g h = ground arith

least_of-le :
    (otherwise : Fraction) (l : List (Fraction × String)) (v : Fraction) (k : String)
    → In {A = Fraction × String} (v, k) l
    → least_of otherwise l ≼ v
least_of-le otherwise [] v k m = absurd m
least_of-le otherwise (e ∷ l) v k m =
    lte→≼ (least_of otherwise (e ∷ l)) v (min_by-le (λ (p : Fraction × String). p.0) e l (v, k) m)

pub least_ledger-le :
    (otherwise : Fraction) (d : Dict Fraction) (ks : List String) (f v : Fraction) (k : String)
    → least_ledger otherwise d ks ≡ ok f
    → In k ks
    → lookup k d ≡ some v
    → f ≼ v
unfolding least_ledger
least_ledger-le otherwise d ks f v k e m h =
    let (l, listed, last) = >>=-eq-ok (keyed (entry d) ks) (λ l. ok (least_of otherwise l)) e in
    subst (λ g. g ≼ v) (ok-injective (least_of otherwise l) f last)
      (least_of-le otherwise l v k (keyed-In (entry d) ks l listed k v m (entry-some d k v h)))

-- The least ledger is that of some model of the set, or the value for an empty set.
pub least_ledger-held :
    (otherwise : Fraction) (d : Dict Fraction) (ks : List String) (f : Fraction)
    → least_ledger otherwise d ks ≡ ok f
    → ((ks ≡ []) × (f ≡ otherwise)) ⊎ ((k : String) × In k ks × (lookup k d ≡ some f))
unfolding least_ledger
least_ledger-held otherwise d [] f e = inl (refl, ground arith)
least_ledger-held otherwise d (k ∷ ks) f e =
    let (l, listed, last) =
      >>=-eq-ok (keyed (entry d) (k ∷ ks)) (λ l. ok (least_of otherwise l)) e in
    let (v, rest, _, _, whole) = cons_ok (entry d) (entry d k) (keyed (entry d) ks) k l listed in
    let best = min_by (λ (p : Fraction × String). p.0) (v, k) rest in
    let listed' : keyed (entry d) (k ∷ ks) ≡ ok ((v, k) ∷ rest) = listed ∙ ap ok whole in
    let (m, h) =
      keyed-In_back (entry d) (k ∷ ks) ((v, k) ∷ rest) listed' best
        (min_by-In (λ (p : Fraction × String). p.0) (v, k) rest) in
    let chosen : f ≡ best.0 =
      sym (ok-injective _ f (subst (λ l'. ok (least_of otherwise l') ≡ ok f) whole last)) in
    inr (best.1, m, some-entry d best.1 f (h ∙ ap ok (sym chosen)))
