-- ===== src/Base/Order.antt =====
-- Python's `<` on numbers, texts and tuples as one interface: a comparison with its laws.
use Prim.Native.Nat.{ℕ, compare, Ordering}
use Prim.Native.Nat.Ordering.{lt, eq, gt}
use Prim.Native.Char.{code}
use Prim.Native.String.{String}
use turn_vector_benchmark.Base.{
  ◌≡◌, refl, Bool, true, false, List, [], ◌∷◌, inl, inr, arith, if◌then◌else◌, Bool-cases, In,
}

abbrev pub opposite : Ordering → Ordering
opposite lt = gt
opposite eq = eq
opposite gt = lt

-- Tuples compare by their first difference.
abbrev pub first_difference : Ordering → Ordering → Ordering
first_difference lt _ = lt
first_difference eq second = second
first_difference gt _ = gt

-- A total preorder: values that compare `eq` are interchangeable in every comparison.
pub record IsTotal {ℓ} {A : Type ℓ} (cmp : A → A → Ordering) : Type ℓ where
  pub flip : (a b : A) → cmp b a ≡ opposite (cmp a b)
  pub lt_trans : (a b c : A) → cmp a b ≡ lt → cmp b c ≡ lt → cmp a c ≡ lt
  pub eq_left : (a b c : A) → cmp a b ≡ eq → cmp a c ≡ cmp b c

pub record Ord {ℓ} (A : Type ℓ) : Type ℓ where
  pub cmp : A → A → Ordering
  pub total : IsTotal cmp
  pub open total use *

abbrev pub lte {ℓ} : {A : Type ℓ} ⦃o : Ord A⦄ → A → A → Bool
lte ⦃o⦄ a b = elim (o.cmp a b) [ gt ↦ false | _ ↦ true ]

pub compare-IsTotal : IsTotal compare
compare-IsTotal = ground arith

instance abbrev pub nat_ord : Ord ℕ
nat_ord = record { cmp = compare; total = compare-IsTotal }

module _ {ℓ κ} {A : Type ℓ} {B : Type κ} ⦃a : Ord A⦄ ⦃b : Ord B⦄ where
  abbrev pub lex : A × B → A × B → Ordering
  lex x y = first_difference (a.cmp x.0 y.0) (b.cmp x.1 y.1)

  pub lex-IsTotal : IsTotal {A = A × B} lex
  lex-IsTotal = record {
    flip = λ x y. ground (arith, a.flip x.0 y.0, b.flip x.1 y.1);
    lt_trans = λ x y z. ground (
      arith,
      a.flip x.0 y.0,
      a.flip y.0 z.0,
      a.flip x.0 z.0,
      a.lt_trans x.0 y.0 z.0,
      a.eq_left x.0 y.0 z.0,
      a.eq_left y.0 z.0 x.0,
      a.eq_left z.0 y.0 x.0,
      b.lt_trans x.1 y.1 z.1,
    );
    eq_left = λ x y z. ground (arith, a.eq_left x.0 y.0 z.0, b.eq_left x.1 y.1 z.1);
  }

  instance abbrev pub pair_ord : Ord (A × B)
  pair_ord = record { cmp = lex; total = lex-IsTotal }

module _ {ℓ} {A : Type ℓ} ⦃o : Ord A⦄ where
  pub lte_total : (a b : A) → lte a b ≡ false → lte b a ≡ true
  lte_total a b h = ground (arith, o.flip a b)

  pub lte_refl : (a : A) → lte a a ≡ true
  lte_refl a = ground (arith, o.flip a a)

  pub lte_trans : (a b c : A) → lte a b ≡ true → lte b c ≡ true → lte a c ≡ true
  lte_trans a b c h k = ground (
    arith,
    o.flip a b,
    o.flip b c,
    o.flip a c,
    o.lt_trans a b c,
    o.eq_left a b c,
    o.eq_left c b a,
  )

-- Sequences compare by their first difference, and a proper prefix is the smaller one.
module _ {ℓ} {A : Type ℓ} ⦃o : Ord A⦄ where
  abbrev pub sequence_cmp : List A → List A → Ordering
  sequence_cmp [] [] = eq
  sequence_cmp [] (y ∷ ys) = lt
  sequence_cmp (x ∷ xs) [] = gt
  sequence_cmp (x ∷ xs) (y ∷ ys) = first_difference (o.cmp x y) (sequence_cmp xs ys)

  sequence-flip : (xs ys : List A) → sequence_cmp ys xs ≡ opposite (sequence_cmp xs ys)
  sequence-flip [] [] = refl
  sequence-flip [] (y ∷ ys) = refl
  sequence-flip (x ∷ xs) [] = refl
  sequence-flip (x ∷ xs) (y ∷ ys) = ground (arith, o.flip x y, sequence-flip xs ys)

  sequence-lt_trans :
      (xs ys zs : List A)
      → sequence_cmp xs ys ≡ lt
      → sequence_cmp ys zs ≡ lt
      → sequence_cmp xs zs ≡ lt
  sequence-lt_trans [] [] zs h k = k
  sequence-lt_trans [] (y ∷ ys) [] h k = cc
  sequence-lt_trans [] (y ∷ ys) (z ∷ zs) h k = refl
  sequence-lt_trans (x ∷ xs) [] zs h k = cc
  sequence-lt_trans (x ∷ xs) (y ∷ ys) [] h k = cc
  sequence-lt_trans (x ∷ xs) (y ∷ ys) (z ∷ zs) h k = ground (
    arith,
    o.flip x y,
    o.flip y z,
    o.flip x z,
    o.lt_trans x y z,
    o.eq_left x y z,
    o.eq_left y z x,
    o.eq_left z y x,
    sequence-lt_trans xs ys zs,
  )

  sequence-eq_left :
      (xs ys zs : List A) → sequence_cmp xs ys ≡ eq → sequence_cmp xs zs ≡ sequence_cmp ys zs
  sequence-eq_left [] [] zs h = refl
  sequence-eq_left [] (y ∷ ys) zs h = cc
  sequence-eq_left (x ∷ xs) [] zs h = cc
  sequence-eq_left (x ∷ xs) (y ∷ ys) [] h = refl
  sequence-eq_left (x ∷ xs) (y ∷ ys) (z ∷ zs) h =
      ground (arith, o.eq_left x y z, sequence-eq_left xs ys zs)

  pub sequence-IsTotal : IsTotal {A = List A} sequence_cmp
  sequence-IsTotal = record {
    flip = sequence-flip;
    lt_trans = sequence-lt_trans;
    eq_left = sequence-eq_left;
  }

  instance abbrev pub list_ord : Ord (List A)
  list_ord = record { cmp = sequence_cmp; total = sequence-IsTotal }

-- The code points of a text.
abbrev pub codes : String → List ℕ
codes String.[] = []
codes (String.◌∷◌ c s) = code c ∷ codes s

abbrev pub text_cmp : String → String → Ordering
text_cmp s t = sequence_cmp (codes s) (codes t)

pub text-IsTotal : IsTotal text_cmp
text-IsTotal = record {
  flip = λ s t. sequence-IsTotal.flip (codes s) (codes t);
  lt_trans = λ s t u. sequence-IsTotal.lt_trans (codes s) (codes t) (codes u);
  eq_left = λ s t u. sequence-IsTotal.eq_left (codes s) (codes t) (codes u);
}

instance abbrev pub text_ord : Ord String
text_ord = record { cmp = text_cmp; total = text-IsTotal }

-- Python's `min(xs, key=...)` over a non-empty sequence keeps the first of the least.
module _ {κ} {A : Type 0} {K : Type κ} ⦃o : Ord K⦄ (key : A → K) where
  unfoldable pub min_by : A → List A → A
  min_by best [] = best
  min_by best (x ∷ xs) = min_by (if lte (key best) (key x) then best else x) xs

  min_by-le_first : (best : A) (xs : List A) → lte (key (min_by best xs)) (key best) ≡ true
  unfolding min_by
  min_by-le_first best [] = lte_refl (key best)
  min_by-le_first best (x ∷ xs) = elim (Bool-cases (lte (key best) (key x))) [
    | inl keep ↦ rw keep (min_by-le_first best xs)
    | inr drop ↦ rw drop (
        lte_trans (key (min_by x xs)) (key x) (key best) (min_by-le_first x xs)
          (lte_total (key best) (key x) drop))
  ]

  pub min_by-In : (best : A) (xs : List A) → In (min_by best xs) (best ∷ xs)
  unfolding min_by
  min_by-In best [] = inl refl
  min_by-In best (x ∷ xs) = grind (arith, min_by-In (if lte (key best) (key x) then best else x) xs)

  -- No element is before the one that is chosen.
  pub min_by-le :
      (best : A) (xs : List A) (a : A)
      → In a (best ∷ xs)
      → lte (key (min_by best xs)) (key a) ≡ true
  unfolding min_by
  min_by-le best [] a (inl e) = rw e (lte_refl (key best))
  min_by-le best [] a (inr h) = absurd h
  min_by-le best (x ∷ xs) a (inl e) = rw e (min_by-le_first best (x ∷ xs))
  min_by-le best (x ∷ xs) a (inr (inl e)) = elim (Bool-cases (lte (key best) (key x))) [
    | inl keep ↦
        rw (e, keep)
          (lte_trans (key (min_by best xs)) (key best) (key x) (min_by-le_first best xs) keep)
    | inr drop ↦ rw (e, drop) (min_by-le_first x xs)
  ]
  min_by-le best (x ∷ xs) a (inr (inr m)) =
      min_by-le (if lte (key best) (key x) then best else x) xs a (inr m)
