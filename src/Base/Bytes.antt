-- ===== src/Base/Bytes.antt =====
-- A `bytearray` as a list of numbers: Python's slices of it, and `struct`'s big-endian unsigned words.
use native.Mathlib.Nat
use turn_vector_benchmark.Base.{
  ℕ, zero, suc, ◌+◌, ◌*◌, ◌/◌, ◌%◌, ◌^◌, ◌≤◌, ◌<◌, ◌≡◌, refl, ap, subst, List, [], ◌∷◌, ◌++◌, arith,
  length, length-append, ◌⊎◌, inr,
}

module _ {A : Type 0} where
  -- `b[k:k + n]`
  abbrev pub slice : ℕ → ℕ → List A → List A
  slice k zero b = []
  slice k (suc n) [] = []
  slice zero (suc n) (x ∷ b) = x ∷ slice zero n b
  slice (suc k) (suc n) (x ∷ b) = slice k (suc n) b

  -- `b[k:k + len(xs)] = xs`, within the bounds of b
  abbrev pub overwrite : ℕ → List A → List A → List A
  overwrite k [] b = b
  overwrite k (x ∷ xs) [] = []
  overwrite zero (x ∷ xs) (y ∷ b) = x ∷ overwrite zero xs b
  overwrite (suc k) (x ∷ xs) (y ∷ b) = y ∷ overwrite k (x ∷ xs) b

  pub length-overwrite : (k : ℕ) (xs b : List A) → length (overwrite k xs b) ≡ length b
  length-overwrite k [] b = refl
  length-overwrite k (x ∷ xs) [] = refl
  length-overwrite zero (x ∷ xs) (y ∷ b) = ap (λ t. suc t) (length-overwrite zero xs b)
  length-overwrite (suc k) (x ∷ xs) (y ∷ b) = ap (λ t. suc t) (length-overwrite k (x ∷ xs) b)

  cons_equal : {x : A} {xs ys : List A} → xs ≡ ys → x ∷ xs ≡ x ∷ ys
  cons_equal q = cc

  -- What was written is read back.
  pub slice-overwrite :
      (k : ℕ) (xs b : List A)
      → k + length xs ≤ length b
      → slice k (length xs) (overwrite k xs b) ≡ xs
  slice-overwrite k [] b h = refl
  slice-overwrite k (x ∷ xs) [] h = absurd (omega arith)
  slice-overwrite zero (x ∷ xs) (y ∷ b) h = cons_equal (slice-overwrite zero xs b (omega arith))
  slice-overwrite (suc k) (x ∷ xs) (y ∷ b) h = slice-overwrite k (x ∷ xs) b (omega arith)

  -- What lies before or behind is untouched.
  pub slice-overwrite_apart :
      (k : ℕ) (xs b : List A) (j n : ℕ)
      → (j + n ≤ k) ⊎ (k + length xs ≤ j)
      → slice j n (overwrite k xs b) ≡ slice j n b
  slice-overwrite_apart k xs b j zero h = refl
  slice-overwrite_apart k [] b j (suc n) h = refl
  slice-overwrite_apart k (x ∷ xs) [] j (suc n) h = refl
  slice-overwrite_apart zero (x ∷ xs) (y ∷ b) zero (suc n) h = absurd (omega arith)
  slice-overwrite_apart zero (x ∷ xs) (y ∷ b) (suc j) (suc n) h =
      slice-overwrite_apart zero xs b j (suc n) (inr (omega arith))
  slice-overwrite_apart (suc k) (x ∷ xs) (y ∷ b) zero (suc n) h =
      cons_equal (slice-overwrite_apart k (x ∷ xs) b zero n (omega arith))
  slice-overwrite_apart (suc k) (x ∷ xs) (y ∷ b) (suc j) (suc n) h =
      slice-overwrite_apart k (x ∷ xs) b j (suc n) (omega arith)

abbrev pub zeros : ℕ → List ℕ
zeros zero = []
zeros (suc n) = 0 ∷ zeros n

pub length-zeros : (n : ℕ) → length (zeros n) ≡ n
length-zeros zero = refl
length-zeros (suc n) = ap (λ t. suc t) (length-zeros n)

-- A part of what was cleared.
pub slice-cleared :
    (k n m : ℕ) (b : List ℕ)
    → k + n ≤ m
    → m ≤ length b
    → slice k n (overwrite 0 (zeros m) b) ≡ zeros n
slice-cleared k zero m b h fits = refl
slice-cleared k (suc n) zero b h fits = absurd (omega arith)
slice-cleared k (suc n) (suc m) [] h fits = absurd (omega arith)
slice-cleared zero (suc n) (suc m) (y ∷ b) h fits =
    cons_equal (slice-cleared zero n m b (omega arith) (omega arith))
slice-cleared (suc k) (suc n) (suc m) (y ∷ b) h fits =
    slice-cleared k (suc n) m b (omega arith) (omega arith)

-- `int.from_bytes(b, "big")`, from what stands before
abbrev pub from_big_endian : ℕ → List ℕ → ℕ
from_big_endian acc [] = acc
from_big_endian acc (x ∷ b) = from_big_endian (acc * 256 + x) b

-- The last `n` bytes of `v`, the highest first.
abbrev pub big_endian : ℕ → ℕ → List ℕ
big_endian zero v = []
big_endian (suc n) v = big_endian n (v / 256) ++ (v % 256) ∷ []

pub length-big_endian : (n v : ℕ) → length (big_endian n v) ≡ n
length-big_endian zero v = refl
length-big_endian (suc n) v =
    omega (
      arith,
      length-append (big_endian n (v / 256)) ((v % 256) ∷ []),
      length-big_endian n (v / 256),
    )

from_big_endian-append :
    (acc : ℕ) (xs ys : List ℕ)
    → from_big_endian acc (xs ++ ys) ≡ from_big_endian (from_big_endian acc xs) ys
from_big_endian-append acc [] ys = refl
from_big_endian-append acc (x ∷ xs) ys = from_big_endian-append (acc * 256 + x) xs ys

power_suc : (n v : ℕ) → v < 256 ^ suc n → v / 256 < 256 ^ n
power_suc n v h =
    (Nat.div-lt_iff_lt-mul {k = 256} (omega arith)).1 (subst (λ t. v < t) (Nat.pow-suc 256 n) h)

pub from_big_endian-big_endian : (n v : ℕ) → v < 256 ^ n → from_big_endian 0 (big_endian n v) ≡ v
from_big_endian-big_endian zero v h = omega arith
from_big_endian-big_endian (suc n) v h =
    let back = from_big_endian-big_endian n (v / 256) (power_suc n v h) in
    rw (from_big_endian-append 0 (big_endian n (v / 256)) ((v % 256) ∷ [])) (rw back (omega arith))
