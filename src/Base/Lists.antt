-- ===== src/Base/Lists.antt =====
-- Lists measured by native numbers, and predicates on lists by recursion.
use Prim.Native.Nat.{ℕ, suc, ◌+◌}
use mathlib.Core.Path.{◌≡◌, refl, ap}
use mathlib.Core.Bool.{Bool, true, false, ◌&&◌, ◌||◌}
use mathlib.Core.Logic.{◌⊎◌, inl, inr}
use mathlib.Core.List.{List, [], ◌∷◌, ◌++◌, map}
use native.Mathlib.Omega.{arith}
use turn_vector_benchmark.Base.Tests.{if◌then◌else◌}

module _ {ℓ} {A : Type ℓ} where
  abbrev pub length : List A → ℕ
  length [] = 0
  length (x ∷ xs) = suc (length xs)

  pub length-append : (xs ys : List A) → length (xs ++ ys) ≡ length xs + length ys
  length-append [] ys = omega arith
  length-append (x ∷ xs) ys = omega (arith, length-append xs ys)

  -- `[x for x in xs if p(x)]`
  abbrev pub keep_if : (A → Bool) → List A → List A
  keep_if p [] = []
  keep_if p (x ∷ xs) = let rest = keep_if p xs in if p x then x ∷ rest else rest

  -- `any(...)` and `all(...)`
  abbrev pub any : (A → Bool) → List A → Bool
  any p [] = false
  any p (x ∷ xs) = p x || any p xs

  abbrev pub all : (A → Bool) → List A → Bool
  all p [] = true
  all p (x ∷ xs) = p x && all p xs

  -- `not xs`
  abbrev pub is_empty : List A → Bool
  is_empty [] = true
  is_empty (x ∷ xs) = false

-- Membership as a sum, which tactics split.
abbrev pub In : {A : Type 0} → A → List A → Type 0
In a [] = ⊥
In a (x ∷ xs) = (a ≡ x) ⊎ In a xs

abbrev pub All {ℓ κ} : {A : Type ℓ} → (A → Type κ) → List A → Type κ
All P [] = Unit
All P (x ∷ xs) = P x × All P xs

pub In-keep_if :
    {A : Type 0} (p : A → Bool) (a : A) (xs : List A) → In a xs → p a ≡ true → In a (keep_if p xs)
In-keep_if p a [] m h = absurd m
In-keep_if p a (x ∷ xs) (inl e) h = let h' : p x ≡ true = rw e at h in rw h' (inl e)
In-keep_if p a (x ∷ xs) (inr m) h = ground (arith, In-keep_if p a xs m)

pub In-keep_if_back :
    {A : Type 0} (p : A → Bool) (a : A) (xs : List A) → In a (keep_if p xs) → In a xs × (p a ≡ true)
In-keep_if_back p a [] m = absurd m
In-keep_if_back p a (x ∷ xs) m = ground (arith, In-keep_if_back p a xs)

pub is_empty-keep_if :
    {A : Type 0} (p : A → Bool) (a : A) (xs : List A)
    → is_empty (keep_if p xs) ≡ true
    → In a xs
    → p a ≡ false
is_empty-keep_if p a [] h m = absurd m
is_empty-keep_if p a (x ∷ xs) h (inl e) = ground arith
is_empty-keep_if p a (x ∷ xs) h (inr m) = ground (arith, is_empty-keep_if p a xs)

pub In-map_back :
    {A B : Type 0} (f : A → B) (b : B) (xs : List A)
    → In b (map f xs)
    → (a : A) × In a xs × (b ≡ f a)
In-map_back f b [] m = absurd m
In-map_back f b (x ∷ xs) (inl e) = (x, inl refl, e)
In-map_back f b (x ∷ xs) (inr m) = let (a, m', e) = In-map_back f b xs m in (a, inr m', e)

pub In-map : {A B : Type 0} (f : A → B) (a : A) (xs : List A) → In a xs → In (f a) (map f xs)
In-map f a [] m = absurd m
In-map f a (x ∷ xs) (inl e) = inl (ap f e)
In-map f a (x ∷ xs) (inr m) = inr (In-map f a xs m)
