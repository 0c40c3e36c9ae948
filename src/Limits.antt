-- ===== src/Limits.antt =====
-- turnvector_benchmark/compile_limits.py: the 68 frozen limits, their check at construction, and the
-- checked 64-bit arithmetic. An argument is an `int`, of either sign; Python's `sys.maxsize` is a
-- parameter.
pub mod Arithmetic
pub mod Frozen
mod Tests
use turn_vector_benchmark.Base.{
  ℕ, ◌+◌, ◌*◌, ◌/◌, String, Bool, true, false, ◌&&◌, ◌||◌, List, [], ◌∷◌, ltb, ◌==◌, if◌then◌else◌,
  Result, ok, err, raise_if, ◌>>=◌, ◌>>◌, contract_error, type_error, Option, some, none, any, not,
}
use turn_vector_benchmark.Base.Dict.{Dict, lookup, keys}
use turn_vector_benchmark.Base.Sets.{contains}
use turn_vector_benchmark.Base.Int.{ℤ, pos, negsuc, ltb_ℤ}

abbrev pub u64_max : ℕ
u64_max = 18446744073709551615

unfoldable pub checked_u64 : ℤ → Result ℕ
checked_u64 (negsuc n) = err contract_error
checked_u64 (pos n) =
    if ltb n 1 then err contract_error else if ltb u64_max n then err contract_error else ok n

unfoldable pub checked_nonnegative_u64 : ℤ → Result ℕ
checked_nonnegative_u64 (negsuc n) = err contract_error
checked_nonnegative_u64 (pos n) = if ltb u64_max n then err contract_error else ok n

unfoldable pub checked_add : ℤ → ℤ → Result ℕ
checked_add left right = do
  l ← checked_nonnegative_u64 left
  r ← checked_nonnegative_u64 right
  if ltb u64_max (l + r) then err contract_error else ok (l + r)

unfoldable pub checked_mul : ℤ → ℤ → Result ℕ
checked_mul left right = do
  l ← checked_nonnegative_u64 left
  r ← checked_nonnegative_u64 right
  if (l == 0) || (r == 0)
      then ok 0
      else if ltb (u64_max / r) l
      then err contract_error
      else ok (l * r)

unfoldable pub platform_size : ℕ → ℤ → Result ℕ
platform_size maxsize value = do
  n ← checked_nonnegative_u64 value
  if ltb maxsize n then err contract_error else ok n

abbrev pub output_streaming_chunk_max : String × ℕ
output_streaming_chunk_max = ("output_streaming_chunk_max", 65536)

abbrev pub coverage_plan_or_failure_max : String × ℕ
coverage_plan_or_failure_max = ("coverage_plan_or_failure_max", 33554432)

-- The fields of `CompileLimits` with their defaults.
abbrev pub limit_fields : Dict ℕ
limit_fields =
    ("authority_file_count_max", 256)
    ∷ ("authority_file_bytes_max", 4194304)
    ∷ ("authority_total_bytes_max", 67108864)
    ∷ ("authority_section_count_max", 1024)
    ∷ ("authority_section_bytes_total_max", 33554432)
    ∷ ("serialized_input_bytes_total_max", 16777216)
    ∷ ("catalog_record_count_max", 512)
    ∷ ("case_plan_count_max", 4096)
    ∷ ("obligation_count_max", 256)
    ∷ ("judge_count_max", 256)
    ∷ ("evidence_bundle_count_max", 64)
    ∷ ("evidence_source_count_max", 256)
    ∷ ("gate_count_max", 256)
    ∷ ("negative_test_class_count_max", 256)
    ∷ ("path_count_max", 32768)
    ∷ ("paths_per_obligation_max", 1024)
    ∷ ("evidence_members_per_bundle_or_path_max", 16)
    ∷ ("context_artifacts_per_lane_max", 2)
    ∷ ("post_gate_outputs_per_lane_max", 2)
    ∷ ("paths_per_case_max", 32)
    ∷ ("paths_per_gate_max", 512)
    ∷ ("judge_negative_tests_per_path_max", 1)
    ∷ ("aggregate_negative_tests_per_gate_max", 1)
    ∷ ("plumbing_negative_tests_per_gate_max", 1)
    ∷ ("authority_hash_buffer_max", 65536)
    ∷ ("largest_single_serialized_parser_input_max", 4194304)
    ∷ ("logical_retained_index_arena_max", 33554432)
    ∷ output_streaming_chunk_max
    ∷ coverage_plan_or_failure_max
    ∷ ("per_receipt_max", 65536)
    ∷ ("custody_domain_record_max", 32768)
    ∷ ("custody_registry_genesis_max", 32768)
    ∷ ("custody_registry_binding_event_max", 16384)
    ∷ ("compile_chronology_genesis_max", 32768)
    ∷ ("compile_chronology_event_max", 16384)
    ∷ ("custody_event_staging_file_max", 16384)
    ∷ ("attempt_object_staging_directory_max", 33619968)
    ∷ ("interruption_quarantine_max", 33619968)
    ∷ ("t_max", 8)
    ∷ ("execution_closure_record_count_max", 4096)
    ∷ ("execution_closure_file_bytes_max", 83886080)
    ∷ ("execution_closure_path_bytes_max", 4096)
    ∷ ("execution_closure_path_bytes_total_max", 16777216)
    ∷ ("execution_closure_symlink_target_bytes_max", 4096)
    ∷ ("execution_closure_symlink_target_bytes_total_max", 16777216)
    ∷ ("execution_closure_loaded_image_count_max", 512)
    ∷ ("execution_closure_loaded_image_path_bytes_max", 4096)
    ∷ ("execution_closure_loaded_image_path_bytes_total_max", 2097152)
    ∷ ("canonical_directory_entry_count_max", 4096)
    ∷ ("canonical_directory_name_bytes_max", 4194304)
    ∷ ("canonical_directory_sort_index_bytes_max", 65536)
    ∷ ("repository_control_entry_count_max", 32768)
    ∷ ("repository_control_path_bytes_max", 4096)
    ∷ ("repository_control_path_bytes_total_max", 134217728)
    ∷ ("repository_control_file_bytes_max", 4194304)
    ∷ ("repository_control_file_bytes_total_max", 33554432)
    ∷ ("repository_control_config_bytes_total_max", 1048576)
    ∷ ("repository_control_ignore_file_count_max", 256)
    ∷ ("repository_control_ignore_file_bytes_max", 1048576)
    ∷ ("repository_control_ignore_bytes_total_max", 4194304)
    ∷ ("repository_control_git_path_record_count_max", 32768)
    ∷ ("repository_control_git_output_bytes_max", 134217728)
    ∷ ("repository_control_git_output_bytes_other_max", 4194304)
    ∷ ("repository_control_git_stderr_bytes_max", 1048576)
    ∷ ("repository_control_git_timeout_seconds", 60)
    ∷ ("authority_child_stdout_bytes_max", 33652736)
    ∷ ("authority_child_stderr_bytes_max", 1048576)
    ∷ ("authority_child_timeout_seconds", 600)
    ∷ []

-- An instance, as the arguments by name that it was made with.
abbrev pub CompileLimits : Type 0
CompileLimits = Dict ℤ

-- A field that has no argument holds its default.
abbrev pub or_default : ℕ → Option ℤ → ℤ
or_default default none = pos default
or_default default (some v) = v

-- `getattr(self, name)` of a field with its default
abbrev pub attribute : CompileLimits → String × ℕ → ℤ
attribute l (name, default) = or_default default (lookup name l)

-- The loop of `__post_init__`
unfoldable pub check_fields : Dict ℕ → CompileLimits → Result (Unit {0})
check_fields [] l = ok tt
check_fields ((name, default) ∷ fields) l = do
  let value = attribute l (name, default)
  checked ← checked_u64 value
  raise_if (ltb_ℤ (pos default) value) contract_error
  check_fields fields l

-- `CompileLimits(...)`, which refuses an argument that is no field.
unfoldable pub construct : CompileLimits → Result CompileLimits
construct l = do
  raise_if (any (λ k. not (contains k (keys limit_fields))) (keys l)) type_error
  check_fields limit_fields l
  ok l

-- `CompileLimits.frozen()`
unfoldable pub frozen : Result CompileLimits
unfolding construct
frozen = construct []

abbrev is_int : ℤ → ℕ → Bool
is_int (pos n) d = n == d
is_int (negsuc n) d = false

unfoldable pub equals_fields : Dict ℕ → CompileLimits → Bool
equals_fields [] l = true
equals_fields ((name, default) ∷ fields) l =
    is_int (attribute l (name, default)) default && equals_fields fields l

unfoldable pub is_frozen : CompileLimits → Bool
unfolding equals_fields
is_frozen l = equals_fields limit_fields l
