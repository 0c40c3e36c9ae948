-- ===== src/Accounting/Scratch/Words.antt =====
-- The words of the scratch slab: a word that was set is read back, and no other word changes.
use turn_vector_benchmark.Base.{
  ℕ, ◌+◌, ◌*◌, ◌≤◌, ltb, ◌≡◌, ◌≢◌, refl, sym, ap, ◌∙◌, subst, true, length, inl, inr, arith,
  Bool-cases, ◌==◌, ok, err, internal_error, if◌then◌else◌,
}
use turn_vector_benchmark.Base.Bytes.{
  slice, overwrite, zeros, big_endian, from_big_endian, length-overwrite, slice-overwrite,
  slice-overwrite_apart, slice-cleared, length-big_endian, from_big_endian-big_endian,
}
use turn_vector_benchmark.Base.Int.{pos}
use turn_vector_benchmark.Limits.{u64_max, checked_nonnegative_u64, checked_add}
use turn_vector_benchmark.Accounting.Scratch.{
  PhaseBScratch, w_b, sweep_counter_count, check_index, get_u64, set_u64, carve, release_region,
  clear_counter_block, clear_first,
}

pub record IsSlab (s : PhaseBScratch) : Type 0 where
  pub whole : length s.slab ≡ w_b
  pub live : s.scratch_used ≤ w_b

-- A word of the live region.
abbrev pub IsLive : PhaseBScratch → ℕ → Type 0
IsLive s i = (i + 1) * 8 ≤ s.scratch_used

get_live :
    (s : PhaseBScratch) (i : ℕ)
    → IsLive s i
    → get_u64 (pos i) s ≡ (ok (from_big_endian 0 (slice (i * 8) 8 s.slab)), s)
unfolding get_u64 check_index
get_live s i h = ground arith

abbrev written : PhaseBScratch → ℕ → ℕ → PhaseBScratch
written s i v = record s { slab = overwrite (i * 8) (big_endian 8 v) s.slab }

set_live :
    (s : PhaseBScratch) (i v : ℕ)
    → IsLive s i
    → v ≤ u64_max
    → set_u64 (pos i) (pos v) s ≡ (ok tt, written s i v)
unfolding set_u64 check_index checked_nonnegative_u64
set_live s i v h small = ground arith

read_back :
    (s : PhaseBScratch) (i v : ℕ)
    → IsSlab s
    → IsLive s i
    → v ≤ u64_max
    → from_big_endian 0 (slice (i * 8) 8 (written s i v).slab) ≡ v
read_back s i v w h small =
    let size = length-big_endian 8 v in
    let same =
      slice-overwrite (i * 8) (big_endian 8 v) s.slab (omega (arith, size, w.whole, w.live)) in
    ap (λ t. from_big_endian 0 t) same ∙ from_big_endian-big_endian 8 v (omega arith)

apart :
    (s : PhaseBScratch) (i j v : ℕ)
    → i ≢ j
    → slice (j * 8) 8 (written s i v).slab ≡ slice (j * 8) 8 s.slab
apart s i j v h =
    slice-overwrite_apart (i * 8) (big_endian 8 v) s.slab (j * 8) 8
      (omega (arith, length-big_endian 8 v, h))

not_live :
    (s : PhaseBScratch) (i : ℕ)
    → ltb s.scratch_used ((i + 1) * 8) ≡ true
    → get_u64 (pos i) s ≡ (err internal_error, s)
unfolding get_u64 check_index
not_live s i h = ground arith

equal_numbers : (i j : ℕ) → (i == j) ≡ true → i ≡ j
equal_numbers i j h = ground arith

-- What a word reads as, in a slab that agrees there.
get_same :
    (s s' : PhaseBScratch) (j : ℕ)
    → s'.scratch_used ≡ s.scratch_used
    → slice (j * 8) 8 s'.slab ≡ slice (j * 8) 8 s.slab
    → (get_u64 (pos j) s').0 ≡ (get_u64 (pos j) s).0
get_same s s' j used agree = elim (Bool-cases (ltb s.scratch_used ((j + 1) * 8))) [
  | inl dead ↦
      ap (λ t. t.0) (not_live s' j (rw used dead)) ∙ sym (ap (λ t. t.0) (not_live s j dead))
  | inr live ↦
      ap (λ t. t.0) (get_live s' j (ground arith))
      ∙ ap (λ t. ok (from_big_endian 0 t)) agree
      ∙ sym (ap (λ t. t.0) (get_live s j (ground arith)))
]

-- In a well-formed scratch, a word of the live region can be set to any 64-bit value; then it reads as
-- that value, every other word reads as before, and the scratch stays well-formed.
pub set-get_u64 :
    (s : PhaseBScratch) (i v : ℕ)
    → IsSlab s
    → IsLive s i
    → v ≤ u64_max
    → (s' : PhaseBScratch) × (set_u64 (pos i) (pos v) s ≡ (ok tt, s'))
      × ((j : ℕ) → (get_u64 (pos j) s').0 ≡ (if i == j then ok v else (get_u64 (pos j) s).0))
      × IsSlab s'
set-get_u64 s i v w h small = (
  written s i v,
  set_live s i v h small,
  read,
  record { whole = length-overwrite (i * 8) (big_endian 8 v) s.slab ∙ w.whole; live = w.live },
)
  where
    own : (get_u64 (pos i) (written s i v)).0 ≡ ok v
    own = ap (λ t. t.0) (get_live (written s i v) i h) ∙ ap (λ t. ok t) (read_back s i v w h small)

    read :
        (j : ℕ)
        → (get_u64 (pos j) (written s i v)).0 ≡ (if i == j then ok v else (get_u64 (pos j) s).0)
    read j = elim (Bool-cases (i == j)) [
      | inl same ↦
          rw same
            (subst (λ t. (get_u64 (pos t) (written s i v)).0 ≡ ok v) (equal_numbers i j same) own)
      | inr other ↦ rw other (get_same s (written s i v) j refl (apart s i j v (ground arith)))
    ]

abbrev cleared : PhaseBScratch → PhaseBScratch
cleared s = clear_first w_b (record s { scratch_used = 2712 })

clear_counter_block_returns : (s : PhaseBScratch) → clear_counter_block s ≡ (ok tt, cleared s)
unfolding clear_counter_block release_region carve checked_nonnegative_u64 checked_add
clear_counter_block_returns s = refl

cleared-IsSlab : (s : PhaseBScratch) → IsSlab s → IsSlab (cleared s)
cleared-IsSlab s w = record {
  whole = length-overwrite 0 (zeros w_b) s.slab ∙ w.whole;
  live = omega arith;
}

-- After `clear_counter_block`, from any state of a well-formed scratch, each of the 339 counters reads
-- as zero, and no word past them can be read.
pub cleared_counters :
    (s : PhaseBScratch)
    → IsSlab s
    → (s' : PhaseBScratch) × (clear_counter_block s ≡ (ok tt, s'))
      × ((i : ℕ)
          → (get_u64 (pos i) s').0
            ≡ (if ltb i sweep_counter_count then ok 0 else err internal_error))
      × IsSlab s'
cleared_counters s w = (cleared s, clear_counter_block_returns s, read, cleared-IsSlab s w)
  where
    read :
        (i : ℕ)
        → (get_u64 (pos i) (cleared s)).0
          ≡ (if ltb i sweep_counter_count then ok 0 else err internal_error)
    read i = elim (Bool-cases (ltb i sweep_counter_count)) [
      | inl counter ↦ rw counter (
          ap (λ t. t.0) (get_live (cleared s) i (ground arith))
          ∙ ap (λ t. ok (from_big_endian 0 t))
              (slice-cleared (i * 8) 8 w_b s.slab (ground arith) (omega (arith, w.whole))))
      | inr past ↦ rw past (ap (λ t. t.0) (not_live (cleared s) i (ground arith)))
    ]
