-- ===== src/Runner/Tests.antt =====
-- A repetition with drivers that follow a script, and the theorems at these inputs.
use turn_vector_benchmark.Base.{
  ℕ, zero, suc, true, false, String, ◌≡◌, refl, some, List, [], ◌∷◌, err, conformance_error,
}
use turn_vector_benchmark.Base.Dict.{lookup, insert}
use turn_vector_benchmark.Base.Sets.{set_of, add}
use turn_vector_benchmark.Base.Int.{pos}
use turn_vector_benchmark.Base.Gcd.{gcd}
use turn_vector_benchmark.Base.Order.{min_by}
use turn_vector_benchmark.Base.Fraction.{whole, reduced, ◌⊕◌}
use turn_vector_benchmark.Lifecycle.{Json, str}
use turn_vector_benchmark.Scheduler.{at_time, eligible, is_urgent, latest_safe_start_us}
use turn_vector_benchmark.Scheduler.Choice.{choose, values_at, select, least_ledger}
use turn_vector_benchmark.Scheduler.Oracle.{
  new_oracle, schedule, accept_receipt, settle, sync_runnable, assign_all, runnable_models,
  clear_no_plan,
}
use turn_vector_benchmark.Scheduler.Scenarios.Tests.{dict, small}
use turn_vector_benchmark.Runner.Ledgers.{
  readable, oversized, fraction_text, fraction_map, same_dict, require_response, is_canonical,
  ledger_response,
}
use turn_vector_benchmark.Runner.Messages.{
  natural, model_message, candidate_message, hello_response, initialize_response, plan_response,
  receipt_response,
}
use turn_vector_benchmark.Runner.Driver.{
  Driver, started, Reply, value, no_reply, request, finish_driver, handshake, initialize,
}
use turn_vector_benchmark.Runner.Turn.{
  fail_when, count_waits, count_selection, compare_plan, compare_receipt, settle_turn, plan_turn,
  complete_turn, run_turn,
}
use turn_vector_benchmark.Runner.Records.{waits, longest_waits}
use turn_vector_benchmark.Runner.Metrics.{
  PlanIdentity, Metrics, shares, normalized, spread, metrics,
}
use turn_vector_benchmark.Runner.Repetition.{
  Runner, start_progress, run_turns, run_segments, run_session, run_driver, run_repetition,
}

-- A driver that gives its answers from a list, and starts and exits well.
abbrev nth : List Json → ℕ → Reply
nth [] n = no_reply
nth (v ∷ vs) zero = value v
nth (v ∷ vs) (suc n) = nth vs n

abbrev scripted : List Json → Driver ℕ
scripted script = record {
  launch = λ scenario_id repetition. started 0;
  answer = λ message n. (nth script n, suc n);
  reading = λ ledger. readable;
  writes = λ ledgers. true;
  close_fails = λ n. false;
  exit_code = λ n. some (pos 0);
  exit_fails = λ n. false;
}

abbrev greeting : Json
greeting = dict (
    ("kind", str "hello_ack")
    ∷ ("protocol_version", str "turnvector.benchmark.driver.v1")
    ∷ ("driver_name", str "reference")
    ∷ ("driver_version", str "1")
    ∷ [])

abbrev both : String → String → Json
both a b = dict (("alpha", str a) ∷ ("beta", str b) ∷ [])

abbrev initialized : Json
initialized = dict (
    ("kind", str "initialized")
    ∷ ("scenario_id", str "small")
    ∷ ("model_ledgers_us", both "0/1" "0/1")
    ∷ [])

abbrev plan : ℕ → String → String → Json
plan n candidate_id ledger = dict (
    ("kind", str "plan")
    ∷ ("sequence", natural n)
    ∷ ("candidate_id", str candidate_id)
    ∷ ("runnable_ledgers_us", dict (("alpha", str ledger) ∷ []))
    ∷ [])

abbrev accepted : ℕ → String → Json
accepted n ledger = dict (
    ("kind", str "receipt_accepted")
    ∷ ("sequence", natural n)
    ∷ ("model_ledgers_us", both ledger "0/1")
    ∷ [])

abbrev good_script : List Json
good_script =
    greeting
    ∷ initialized
    ∷ plan 1 "a1" "0/1"
    ∷ accepted 1 "9/2"
    ∷ plan 2 "a1" "9/2"
    ∷ accepted 2 "9/1"
    ∷ dict (("kind", str "shutdown_ack") ∷ [])
    ∷ []

abbrev good : Driver ℕ
good = scripted good_script

-- The second plan names another candidate.
abbrev wrong : Driver ℕ
wrong =
    scripted
      (greeting ∷ initialized ∷ plan 1 "a1" "0/1" ∷ accepted 1 "9/2" ∷ plan 2 "a2" "9/2" ∷ [])

abbrev digest : List PlanIdentity → String
digest ps = "0"

abbrev empty_runner : Runner
empty_runner = record { trace = []; driver_identities = [] }

abbrev good_metrics : Metrics
good_metrics = record {
  turns = 2;
  selection_count = ("alpha", 2) ∷ ("beta", 0) ∷ [];
  engine_service_us = ("alpha", 18) ∷ ("beta", 0) ∷ [];
  engine_service_share = ("alpha", "1/1") ∷ ("beta", "0/1") ∷ [];
  normalized_engine_service_us = ("alpha", "9/1") ∷ ("beta", "0/1") ∷ [];
  normalized_service_spread_us = "9/1";
  urgent_selection_count = 0;
  normal_selection_count = 2;
  no_plan_count = 0;
  max_runnable_wait_turns = ("alpha", 0) ∷ ("beta", 0) ∷ [];
  max_consecutive_turns = ("alpha", 2) ∷ ("beta", 0) ∷ [];
  plan_trace_sha256 = "0";
}

wrong_run : (run_repetition wrong digest small 0 empty_runner).0 ≡ err conformance_error
unfolding run_repetition run_driver handshake initialize finish_driver request hello_response
    initialize_response plan_response receipt_response require_response ledger_response is_canonical
    same_dict fraction_map fraction_text run_session start_progress run_segments run_turns run_turn
    plan_turn compare_plan complete_turn settle_turn compare_receipt count_waits count_selection
    fail_when waits longest_waits model_message candidate_message metrics normalized spread shares
    new_oracle schedule choose sync_runnable least_ledger select runnable_models assign_all set_of
    add insert lookup values_at eligible is_urgent latest_safe_start_us min_by whole accept_receipt
    settle ◌⊕◌ reduced gcd at_time clear_no_plan
wrong_run = refl

-- The good driver on a system that writes none of its ledgers.
abbrev unwritten : Driver ℕ
unwritten = record good { reading = λ ledger. oversized }
