-- ===== src/Base/Fraction.antt =====
-- Python's `fractions.Fraction` at non-negative values: exact, in lowest terms.
use Prim.Native.Nat.{compare, Ordering}
use native.Mathlib.Nat
use turn_vector_benchmark.Base.{ℕ, suc, ◌+◌, ◌-◌, ◌*◌, ◌/◌, ◌≤◌, ◌<◌, ◌≡◌, sym, ap, ◌∙◌, arith}
use mathlib.Core.Path.{ap₂}
use turn_vector_benchmark.Base.Gcd.{gcd, gcd-dvd}
use turn_vector_benchmark.Base.Order.{IsTotal, Ord}

-- The denominator is `suc below`, so that it is positive.
pub record Fraction : Type 0 where
  pub numerator : ℕ
  pub below : ℕ

abbrev pub denominator : Fraction → ℕ
denominator f = suc f.below

-- `Fraction(n, d)` at a positive `d`.
unfoldable pub reduced : ℕ → ℕ → Fraction
reduced n d = record { numerator = n / gcd n d; below = d / gcd n d - 1 }

unfoldable pub whole : ℕ → Fraction
whole n = record { numerator = n; below = 0 }

infixl 65 ◌⊕◌
unfoldable pub ◌⊕◌ : Fraction → Fraction → Fraction
unfolding reduced
f ⊕ g =
    reduced (f.numerator * denominator g + g.numerator * denominator f)
      (denominator f * denominator g)

abbrev pub cmp_fraction : Fraction → Fraction → Ordering
cmp_fraction f g = compare (f.numerator * denominator g) (g.numerator * denominator f)

infix 50 ◌≼◌
abbrev pub ◌≼◌ : Fraction → Fraction → Type 0
f ≼ g = f.numerator * denominator g ≤ g.numerator * denominator f

cross_lt : (a b c d e f : ℕ) → 0 < d → 0 < b → 0 < f → a * d < c * b → c * f < e * d → a * f < e * b
cross_lt a b c d e f pd pb pf h k =
    Nat.lt_of_mul-lt-mul_right d
      (omega (arith, Nat.mul-lt-mul_of_pos_right h pf, Nat.mul-lt-mul_of_pos_right k pb))

compare-scale : (k x y : ℕ) → compare (x * suc k) (y * suc k) ≡ compare x y
compare-scale k x y = ground (
  arith,
  λ (h : x < y). Nat.mul-lt-mul_of_pos_right {k = suc k} h (omega arith),
  λ (h : y < x). Nat.mul-lt-mul_of_pos_right {k = suc k} h (omega arith),
)

cross_eq :
    (a b c d e f : ℕ)
    → a * suc d ≡ c * suc b
    → compare (a * f) (e * suc b) ≡ compare (c * f) (e * suc d)
cross_eq a b c d e f h =
    sym (compare-scale d (a * f) (e * suc b))
    ∙ ap₂ compare left right
    ∙ compare-scale b (c * f) (e * suc d)
  where
    left : a * f * suc d ≡ c * f * suc b
    left = omega (arith, ap (λ (t : ℕ). t * f) h)

    right : e * suc b * suc d ≡ e * suc d * suc b
    right = omega arith

cross :
    (f g : Fraction)
    → f.numerator * denominator g < g.numerator * denominator f
    → cmp_fraction f g ≡ Ordering.lt
cross f g h = ground arith

pub cmp_fraction-IsTotal : IsTotal cmp_fraction
cmp_fraction-IsTotal = record {
  flip = λ f g. ground arith;
  lt_trans = λ f g h p q. cross f h (
      cross_lt f.numerator (denominator f) g.numerator (denominator g) h.numerator (denominator h)
        (omega arith) (omega arith) (omega arith) (ground arith) (ground arith));
  eq_left = λ f g h p.
      cross_eq f.numerator f.below g.numerator g.below h.numerator (denominator h) (ground arith);
}

instance abbrev pub fraction_ord : Ord Fraction
fraction_ord = record { cmp = cmp_fraction; total = cmp_fraction-IsTotal }

pub ≼_trans : (f g h : Fraction) → f ≼ g → g ≼ h → f ≼ h
≼_trans f g h p q =
    Nat.le_of_mul-le-mul_right {k = denominator g}
      (omega
        (arith, Nat.mul-le-mul_right (denominator h) p, Nat.mul-le-mul_right (denominator f) q))
      (omega arith)

cross_scale : (q r g n d : ℕ) → q * g ≡ n → r * g ≡ d → q * d ≡ n * r
cross_scale q r g n d p s = omega (arith, ap (λ (t : ℕ). q * t) s, ap (λ (t : ℕ). t * r) p)

-- Reduction keeps the value.
pub reduced-value : (n d : ℕ) → 0 < d → (reduced n d).numerator * d ≡ n * denominator (reduced n d)
unfolding reduced
reduced-value n d h = rw whole_below (omega (arith, scaled))
  where
    g : ℕ
    g = gcd n d

    above : n / g * g ≡ n
    above = Nat.div-mul_cancel g (gcd-dvd n d).0

    under : d / g * g ≡ d
    under = Nat.div-mul_cancel g (gcd-dvd n d).1

    positive : 0 < d / g
    positive = ground (arith, under, Nat.zero-mul g)

    whole_below : suc (d / g - 1) ≡ d / g
    whole_below = omega (arith, positive)

    scaled : n / g * d ≡ n * (d / g)
    scaled = cross_scale (n / g) (d / g) g n d above under

reduced-mono : (n d m e : ℕ) → 0 < d → 0 < e → n * e ≤ m * d → reduced n d ≼ reduced m e
reduced-mono n d m e pd pe h =
    Nat.le_of_mul-le-mul_right {k = d * e}
      (omega (
        arith,
        ap (λ (t : ℕ). t * (denominator (reduced m e) * e)) (reduced-value n d pd),
        ap (λ (t : ℕ). t * (denominator (reduced n d) * d)) (reduced-value m e pe),
        Nat.mul-le-mul_right (denominator (reduced n d) * denominator (reduced m e)) h,
      ))
      (Nat.mul-pos pd pe)

-- Adding keeps the order, and never makes a value smaller.
⊕-mono_left : (f g h : Fraction) → f ≼ g → f ⊕ h ≼ g ⊕ h
unfolding ◌⊕◌
⊕-mono_left f g h p =
    reduced-mono (f.numerator * denominator h + h.numerator * denominator f)
      (denominator f * denominator h) (g.numerator * denominator h + h.numerator * denominator g)
      (denominator g * denominator h) (Nat.mul-pos (omega arith) (omega arith))
      (Nat.mul-pos (omega arith) (omega arith))
      (omega (arith, Nat.mul-le-mul_right (denominator h * denominator h) p))

pub ≼-⊕ : (f h : Fraction) → f ≼ f ⊕ h
unfolding ◌⊕◌
≼-⊕ f h =
    Nat.le_of_mul-le-mul_right {k = denominator f * denominator h}
      (omega (arith, ap (λ (t : ℕ). t * denominator f) value))
      (Nat.mul-pos (omega arith) (omega arith))
  where
    value :
        (f ⊕ h).numerator * (denominator f * denominator h)
        ≡ (f.numerator * denominator h + h.numerator * denominator f) * denominator (f ⊕ h)
    value = reduced-value _ _ (Nat.mul-pos (omega arith) (omega arith))

⊕_comm : (f g : Fraction) → f ⊕ g ≡ g ⊕ f
unfolding ◌⊕◌
⊕_comm f g = ap₂ reduced (omega arith) (omega arith)

pub ⊕-mono : (f g h k : Fraction) → f ≼ g → h ≼ k → f ⊕ h ≼ g ⊕ k
⊕-mono f g h k p q =
    ≼_trans (f ⊕ h) (g ⊕ h) (g ⊕ k) (⊕-mono_left f g h p)
      (rw (⊕_comm g h, ⊕_comm g k) (⊕-mono_left h k g q))

pub ≼_refl : (f : Fraction) → f ≼ f
≼_refl f = omega arith
