-- ===== src/Base/Int.antt =====
-- Python's signed integers over the native numbers: what the code subtracts and compares.
use Prim.Native.Nat.{compare, Ordering}
use turn_vector_benchmark.Base.{ℕ, suc, ◌+◌, ◌-◌, ◌≤◌, Bool, arith, ltb, leb, if◌then◌else◌}
use turn_vector_benchmark.Base.Order.{IsTotal, Ord}

-- `negsuc n` is -(n + 1).
pub data ℤ : Type 0 where
  pos : ℕ → ℤ
  negsuc : ℕ → ℤ

abbrev pub pos_part : ℤ → ℕ
pos_part (pos n) = n
pos_part (negsuc n) = 0

abbrev pub neg_part : ℤ → ℕ
neg_part (pos n) = 0
neg_part (negsuc n) = suc n

-- a - b of two naturals.
abbrev pub sub_ℕ : ℕ → ℕ → ℤ
sub_ℕ a b = if leb b a then pos (a - b) else negsuc (b - a - 1)

infix 50 ◌≤ℤ◌
abbrev pub ◌≤ℤ◌ : ℤ → ℤ → Type 0
a ≤ℤ b = pos_part a + neg_part b ≤ pos_part b + neg_part a

abbrev pub ltb_ℤ : ℤ → ℤ → Bool
ltb_ℤ a b = ltb (pos_part a + neg_part b) (pos_part b + neg_part a)

abbrev pub leb_ℤ : ℤ → ℤ → Bool
leb_ℤ a b = leb (pos_part a + neg_part b) (pos_part b + neg_part a)

abbrev pub cmp_ℤ : ℤ → ℤ → Ordering
cmp_ℤ a b = compare (pos_part a + neg_part b) (pos_part b + neg_part a)

pub cmp_ℤ-IsTotal : IsTotal cmp_ℤ
cmp_ℤ-IsTotal = ground arith

instance abbrev pub int_ord : Ord ℤ
int_ord = record { cmp = cmp_ℤ; total = cmp_ℤ-IsTotal }
