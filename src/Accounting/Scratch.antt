-- ===== src/Accounting/Scratch.antt =====
-- `PhaseBScratch` of turnvector_benchmark/authority/compiler_accounting.py: one slab of bytes with
-- 64-bit words in its live region.
pub mod Words
use turn_vector_benchmark.Base.{
  ℕ, ◌+◌, ◌*◌, ltb, ◌==◌, ◌||◌, Bool, true, false, not, Option, none, some, List, length, Result,
  ok, err, internal_error, if◌then◌else◌,
}
use turn_vector_benchmark.Base.Bytes.{slice, overwrite, zeros, big_endian, from_big_endian}
use turn_vector_benchmark.Base.Int.{ℤ, pos, negsuc}
use turn_vector_benchmark.Base.Exec.{Exec, pure, raise, lift, gets, modify, raise_when, ◌>>=◌, ◌>>◌}
use turn_vector_benchmark.Limits.{checked_nonnegative_u64, checked_add}
use turn_vector_benchmark.Accounting.Arena.{Modeled, modeled_allocate}

abbrev pub w_b : ℕ
w_b = 2712

abbrev pub sweep_counter_count : ℕ
sweep_counter_count = 339

abbrev pub judge_mapping_count : ℕ
judge_mapping_count = 46

abbrev pub gate_mapping_count : ℕ
gate_mapping_count = 58

pub record PhaseBScratch : Type 0 where
  pub slab : List ℕ
  pub scratch_used : ℕ

unfoldable pub new_scratch : List ℕ → Result PhaseBScratch
new_scratch slab =
    if not (length slab == w_b)
    then err internal_error
    else ok (record { slab = slab; scratch_used = 0 })

unfoldable pub allocate : Exec Modeled (Option PhaseBScratch)
allocate = do
  value ← modeled_allocate (pos w_b) "phase-b-scratch-slab" (ok (zeros w_b))
  elim value [ none ↦ pure none | some slab ↦ (do s ← lift (new_scratch slab); pure (some s)) ]

unfoldable pub carve : ℤ → Exec PhaseBScratch (Unit {0})
carve byte_count = do
  n ← lift (checked_nonnegative_u64 byte_count)
  s ← gets (λ s. s)
  candidate ← lift (checked_add (pos s.scratch_used) (pos n))
  raise_when (ltb w_b candidate) internal_error
  modify (λ s. record s { scratch_used = candidate })

unfoldable pub release_region : Exec PhaseBScratch (Unit {0})
release_region = modify (λ s. record s { scratch_used = 0 })

-- `for index in range(n): self._slab[index] = 0`
abbrev pub clear_first : ℕ → PhaseBScratch → PhaseBScratch
clear_first n s = record s { slab = overwrite 0 (zeros n) s.slab }

unfoldable pub clear_counter_block : Exec PhaseBScratch (Unit {0})
clear_counter_block = do
  release_region
  carve (pos (sweep_counter_count * 8))
  modify (clear_first w_b)

unfoldable pub clear_mapping_table : ℤ → Exec PhaseBScratch (Unit {0})
clear_mapping_table (negsuc n) = raise internal_error
clear_mapping_table (pos n) = do
  raise_when (not ((n == judge_mapping_count) || (n == gate_mapping_count))) internal_error
  release_region
  carve (pos (n * 8))
  modify (clear_first (n * 8))

unfoldable pub check_index : ℤ → Exec PhaseBScratch ℕ
check_index (negsuc i) = raise internal_error
check_index (pos i) = do
  s ← gets (λ s. s)
  raise_when (ltb s.scratch_used ((i + 1) * 8)) internal_error
  pure i

unfoldable pub get_u64 : ℤ → Exec PhaseBScratch ℕ
get_u64 index = do
  i ← check_index index
  s ← gets (λ s. s)
  pure (from_big_endian 0 (slice (i * 8) 8 s.slab))

unfoldable pub set_u64 : ℤ → ℤ → Exec PhaseBScratch (Unit {0})
set_u64 index value = do
  i ← check_index index
  v ← lift (checked_nonnegative_u64 value)
  modify (λ s. record s { slab = overwrite (i * 8) (big_endian 8 v) s.slab })
