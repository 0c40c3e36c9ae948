-- ===== src/Claims/Tests.antt =====
-- The decision at concrete runs.
use turn_vector_benchmark.Base.{◌≡◌, refl, ◌↔◌, true, false, [], ◌∷◌, ok, err, contract_error}
use turn_vector_benchmark.Base.Sets.{add}
use turn_vector_benchmark.Claims.{
  Run, resolve_claimable, resolve_full_implementation_status, validate_fixture_taint_state,
  check_ids, status_for_results,
}
use turn_vector_benchmark.Base.{some, none, ◌⊎◌}
use turn_vector_benchmark.Claims.Provenance.{
  ExecutionProvenance, post_init, production_subject, benchmark_fixture, IsFixtureId,
  provenance_exactly,
}
use turn_vector_benchmark.Claims.Decision.{IsSound, claimable_exactly}

abbrev clean_run : Run
clean_run = record {
  run_fixture_taint = "clean";
  fixture_subject = false;
  all_required_selected = true;
  aggregate_status = "passed";
  evidence_valid = true;
  source_matches = true;
  fixture_ids = [];
}

tainted :
    resolve_full_implementation_status (record clean_run {
      run_fixture_taint = "fixture_tainted";
      fixture_ids = "owner-lifecycle-device-executor-v1" ∷ [];
    })
    ≡ ok "not_claimable_fixture"
unfolding resolve_full_implementation_status validate_fixture_taint_state check_ids add
tainted = refl

inconsistent :
    resolve_claimable (record clean_run { fixture_ids = "owner-lifecycle-device-executor-v1" ∷ [] })
    ≡ err contract_error
unfolding resolve_claimable resolve_full_implementation_status validate_fixture_taint_state
    check_ids add
inconsistent = refl

worst_first : status_for_results ("passed" ∷ "unsupported" ∷ "gate_failed" ∷ []) ≡ "gate_failed"
unfolding status_for_results
worst_first = refl

claimable_exactly_example : (resolve_claimable clean_run ≡ ok true) ↔ IsSound clean_run
claimable_exactly_example = claimable_exactly clean_run

abbrev fixture : ExecutionProvenance
fixture = record {
  value = "benchmark_fixture";
  fixture_id = some "owner-lifecycle-device-executor-v1";
}

provenance_exactly_example : (post_init fixture ≡ ok tt) ↔ (
    ((fixture.value ≡ production_subject) × (fixture.fixture_id ≡ none))
    ⊎ ((fixture.value ≡ benchmark_fixture) × IsFixtureId fixture.fixture_id))
provenance_exactly_example = provenance_exactly fixture
