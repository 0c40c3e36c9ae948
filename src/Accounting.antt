-- ===== src/Accounting.antt =====
-- turnvector_benchmark/authority/compiler_accounting.py: the counters and the charges. A text's UTF-8 bytes stand for themselves in the text, since every `String` encodes.
pub mod Counts
pub mod Fault
pub mod Arena
pub mod Scratch
pub mod Sink
mod Tests
use Prim.Native.String.{len}
use turn_vector_benchmark.Base.{
  ℕ, ◌==◌, ltb, String, Bool, true, false, not, ◌&&◌, Option, none, some, List, [], ◌∷◌, str_eq,
  is_some, Result, ok, err, internal_error, memory_error, ◌>>=◌,
}
use turn_vector_benchmark.Base.Dict.{Dict, lookup, insert}
use turn_vector_benchmark.Base.Int.{ℤ, pos, negsuc, ltb_ℤ}
use turn_vector_benchmark.Limits.{checked_nonnegative_u64, checked_add, checked_mul}

-- The counters of `Accounting`, by their fields' names; each is an int that the checks made natural.
abbrev pub Counters : Type 0
Counters = Dict ℕ

abbrev pub fresh_counters : Counters
fresh_counters =
    ("authority_file_count", 0)
    ∷ ("authority_byte_count", 0)
    ∷ ("section_count", 0)
    ∷ ("section_byte_count", 0)
    ∷ ("serialized_input_byte_count", 0)
    ∷ ("catalog_record_count", 0)
    ∷ ("entity_count", 0)
    ∷ ("relation_record_count", 0)
    ∷ ("endpoint_reference_count", 0)
    ∷ ("path_count", 0)
    ∷ ("logical_arena_byte_count", 0)
    ∷ ("output_byte_count_attempted", 0)
    ∷ []

abbrev pub known_counter : Counters → String → Result ℕ
known_counter a name = elim (lookup name a) [ none ↦ err internal_error | some n ↦ ok n ]

unfoldable pub with_value : Counters → String → ℤ → Result Counters
with_value a name value = do
  old ← known_counter a name
  n ← checked_nonnegative_u64 value
  ok (insert name n a)

unfoldable pub increment : Counters → String → ℤ → Result Counters
increment a name amount = do
  old ← known_counter a name
  value ← checked_add (pos old) amount
  ok (insert name value a)

unfoldable pub derived_record_charge : ℤ → Result ℕ
derived_record_charge endpoint_arity = do
  endpoints ← checked_mul (pos 8) endpoint_arity
  checked_add (pos 8) (pos endpoints)

unfoldable pub intern_entry_charge : String → Result ℕ
intern_entry_charge identifier = checked_add (pos 16) (pos (len identifier))

unfoldable pub enforcement_path_charge : String → Result ℕ
enforcement_path_charge path_id = checked_add (pos 48) (pos (len path_id))

unfoldable pub sort_index_charge : ℤ → Result ℕ
sort_index_charge record_count = checked_mul (pos 16) record_count
