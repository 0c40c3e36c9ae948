-- ===== src/Base/Gcd.antt =====
-- Euclid's loop: `math.gcd`, by which Python keeps a `Fraction` in lowest terms.
use Prim.Native.Nat.{◌∣◌}
use native.Mathlib.Nat
use turn_vector_benchmark.Base.{ℕ, zero, suc, ◌%◌, ◌<◌, arith}

gcd_rounds : ℕ → ℕ → ℕ → ℕ
gcd_rounds zero x y = x
gcd_rounds (suc fuel) x zero = x
gcd_rounds (suc fuel) x (suc z) = gcd_rounds fuel (suc z) (x % suc z)

-- The second argument falls in every round, so `suc b` rounds are enough.
unfoldable pub gcd : ℕ → ℕ → ℕ
unfolding gcd_rounds
gcd x y = gcd_rounds (suc y) x y

gcd_rounds-dvd : (fuel x y : ℕ) → y < fuel → (gcd_rounds fuel x y ∣ x) × (gcd_rounds fuel x y ∣ y)
unfolding gcd_rounds
gcd_rounds-dvd zero x y enough = absurd (omega arith)
gcd_rounds-dvd (suc fuel) x zero enough = (Nat.dvd_refl x, Nat.dvd-zero x)
gcd_rounds-dvd (suc fuel) x (suc z) enough =
    let round = gcd_rounds-dvd fuel (suc z) (x % suc z) (omega arith) in
    ((Nat.dvd-mod_iff _ round.0).0 round.1, round.0)

pub gcd-dvd : (x y : ℕ) → (gcd x y ∣ x) × (gcd x y ∣ y)
unfolding gcd
gcd-dvd x y = gcd_rounds-dvd (suc y) x y (omega arith)
