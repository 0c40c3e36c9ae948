-- ===== src/Accounting/Tests.antt =====
-- The theorems of the accounting at concrete inputs.
use turn_vector_benchmark.Base.{
  ℕ, ◌+◌, ◌≤◌, ◌≡◌, refl, ◌↔◌, true, false, none, some, List, [], ◌∷◌, length, All, arith, ok, err,
  internal_error, if◌then◌else◌, ltb, ◌==◌,
}
use turn_vector_benchmark.Base.Bytes.{zeros, length-zeros}
use turn_vector_benchmark.Base.Dict.{lookup, insert}
use turn_vector_benchmark.Base.Sets.{add}
use turn_vector_benchmark.Base.Int.{pos}
use turn_vector_benchmark.Limits.{
  checked_nonnegative_u64, checked_add, platform_size, CompileLimits,
}
use turn_vector_benchmark.Accounting.{Counters, fresh_counters, increment, intern_entry_charge}
use turn_vector_benchmark.Accounting.Counts.{Incremented, increment-Incremented}
use turn_vector_benchmark.Accounting.Fault.{FaultInjector, new_injector}
use turn_vector_benchmark.Accounting.Fault.Shot.{attempts, expected, faults_once}
use turn_vector_benchmark.Accounting.Arena.{
  new_arena, Modeled, modeled_allocate, reserve, release, candidate, inject, visit_case_id,
}
use turn_vector_benchmark.Accounting.Arena.Run.{
  Run, nothing, allocated, reserved, released, Run-balances,
}
use turn_vector_benchmark.Accounting.Arena.Intern.{visit_twice}
use turn_vector_benchmark.Accounting.Scratch.{
  PhaseBScratch, w_b, sweep_counter_count, get_u64, set_u64, clear_counter_block,
}
use turn_vector_benchmark.Accounting.Scratch.Words.{IsSlab, set-get_u64, cleared_counters}
use turn_vector_benchmark.Accounting.Sink.{OutputSink, new_sink}
use turn_vector_benchmark.Accounting.Sink.Chunks.{build, joined, Admits, sink_builds}

abbrev small_arena : Modeled
small_arena = record {
  arena = record { maximum = 100; used = 0; high_water = 0; last_candidate = 0 };
  injector = none;
}

abbrev after_allocation : Modeled
after_allocation = record {
  arena = record { maximum = 100; used = 30; high_water = 30; last_candidate = 30 };
  injector = none;
}

abbrev after_refusal : Modeled
after_refusal = record {
  arena = record { maximum = 100; used = 30; high_water = 110; last_candidate = 110 };
  injector = none;
}

abbrev after_release : Modeled
after_release = record {
  arena = record { maximum = 100; used = 20; high_water = 110; last_candidate = 110 };
  injector = none;
}

-- 30 allocated, 80 refused, 10 given back.
small-Run : Run (Unit {0}) small_arena 30 10 after_release
unfolding modeled_allocate reserve release candidate inject checked_nonnegative_u64 checked_add
small-Run =
    released 10 after_release.arena (reserved (pos 80) (allocated (pos 30) "slab" (ok tt) nothing))
      refl

Run-balances_example : (20 + 10 ≡ 30) × (20 ≤ 100) × (20 ≤ 110)
unfolding new_arena checked_nonnegative_u64
Run-balances_example = Run-balances (pos 100) small_arena after_release 30 10 refl small-Run

abbrev second_fails : FaultInjector
second_fails = record { target_ordinal = some 2; ordinal = 0; fired = false }

faults_once_example :
    attempts ("a" ∷ "b" ∷ "c" ∷ []) second_fails ≡ expected 2 0 ("a" ∷ "b" ∷ "c" ∷ [])
unfolding new_injector
faults_once_example =
    faults_once 2 second_fails ("a" ∷ "b" ∷ "c" ∷ []) refl (refl, (refl, (refl, tt))) (omega arith)

abbrev first_visit : Modeled
first_visit = record {
  arena = record { maximum = 100; used = 19; high_water = 19; last_candidate = 19 };
  injector = none;
}

visit_twice_example :
    visit_case_id "abc" ("abc" ∷ []) first_visit ≡ (ok ((true, false), "abc" ∷ []), first_visit)
unfolding visit_case_id modeled_allocate candidate inject checked_nonnegative_u64 checked_add
    intern_entry_charge add
visit_twice_example = visit_twice "abc" [] ("abc" ∷ []) small_arena first_visit true refl

abbrev two_words : PhaseBScratch
two_words = record { slab = zeros w_b; scratch_used = 16 }

two_words-IsSlab : IsSlab two_words
two_words-IsSlab = record { whole = length-zeros w_b; live = omega arith }

set-get_u64_example :
    (s' : PhaseBScratch) × (set_u64 (pos 1) (pos 258) two_words ≡ (ok tt, s'))
    × ((j : ℕ)
        → (get_u64 (pos j) s').0 ≡ (if 1 == j then ok 258 else (get_u64 (pos j) two_words).0))
    × IsSlab s'
set-get_u64_example = set-get_u64 two_words 1 258 two_words-IsSlab (omega arith) (omega arith)

cleared_counters_example :
    (s' : PhaseBScratch) × (clear_counter_block two_words ≡ (ok tt, s'))
    × ((i : ℕ)
        → (get_u64 (pos i) s').0 ≡ (if ltb i sweep_counter_count then ok 0 else err internal_error))
    × IsSlab s'
cleared_counters_example = cleared_counters two_words two_words-IsSlab

abbrev frozen_limits : CompileLimits
frozen_limits = []

abbrev three_bytes : OutputSink
three_bytes = record { buffer = zeros 3; chunk_max = pos 65536; offset = 0 }

sink_builds_example :
    ((build ((7 ∷ []) ∷ (8 ∷ 9 ∷ []) ∷ []) three_bytes).0 ≡ ok (7 ∷ 8 ∷ 9 ∷ [])) ↔ (
      All (Admits (pos 65536)) ((7 ∷ []) ∷ (8 ∷ 9 ∷ []) ∷ [])
      × (pos (length {A = ℕ} (7 ∷ 8 ∷ 9 ∷ [])) ≡ pos 3)
      × ◌≡◌ {A = List ℕ} (7 ∷ 8 ∷ 9 ∷ []) (joined ((7 ∷ []) ∷ (8 ∷ 9 ∷ []) ∷ [])))
unfolding new_sink checked_nonnegative_u64 platform_size lookup
sink_builds_example =
    sink_builds 9223372036854775807 (pos 3) frozen_limits none none three_bytes
      ((7 ∷ []) ∷ (8 ∷ 9 ∷ []) ∷ []) (7 ∷ 8 ∷ 9 ∷ []) refl

abbrev one_file : Counters
one_file = insert "authority_file_count" 1 fresh_counters

increment-Incremented_example : Incremented fresh_counters "authority_file_count" (pos 1) one_file
unfolding increment checked_add checked_nonnegative_u64 lookup
increment-Incremented_example =
    increment-Incremented fresh_counters "authority_file_count" (pos 1) one_file refl
