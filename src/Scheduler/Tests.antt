-- ===== src/Scheduler/Tests.antt =====
-- Runs of the oracle on small inputs, and the theorems at concrete inputs.
use turn_vector_benchmark.Base.{
  ℕ, ◌<◌, String, ◌≡◌, refl, sym, ap, subst, true, none, some, List, [], ◌∷◌, inl, inr, arith,
  str_eq, if◌then◌else◌, All, ok,
}
use turn_vector_benchmark.Base.Fraction.{Fraction, reduced, ◌≼◌, ≼_refl}
use turn_vector_benchmark.Scheduler.{ModelConfig, Candidate, prefill, standard, eligible, is_urgent}
use turn_vector_benchmark.Scheduler.Choice.{urgent, normal, choose, values_at, select, least_ledger}
use turn_vector_benchmark.Scheduler.Oracle.{
  Oracle, Decision, new_oracle, schedule, accept_receipt, sync_runnable, assign_all,
  runnable_models,
}
use turn_vector_benchmark.Scheduler.Choice.Least.{IsChoice}
use turn_vector_benchmark.Scheduler.Oracle.Sync.{IsValid, AreKnown}
use turn_vector_benchmark.Scheduler.Oracle.Schedule.{schedule_total, schedule-IsChoice}
use turn_vector_benchmark.Scheduler.Oracle.Receipt.{receipt_charges}
use turn_vector_benchmark.Scheduler.Oracle.Turns.{
  CalmRun, start, next, served, new_oracle-IsValid, calm_run_fair,
}
use turn_vector_benchmark.Base.Sets.{set_of}
use turn_vector_benchmark.Base.Dict.{lookup, insert}
use turn_vector_benchmark.Base.Fraction.{whole, ◌⊕◌}
use turn_vector_benchmark.Base.Gcd.{gcd}
use turn_vector_benchmark.Base.Order.{min_by}

abbrev two_models : List ModelConfig
two_models =
    record { model_id = "alpha"; weight = 2 } ∷ record { model_id = "beta"; weight = 3 } ∷ []

abbrev alpha : Candidate
alpha = record {
  candidate_id = "a1";
  model_id = "alpha";
  execution_phase = prefill;
  service_class = standard;
  engine_service_bound_us = 10;
  runtime_overhead_bound_us = 1;
  timing_obligation_us = none;
  capability_authorized = true;
  resource_safe = true;
  timing_feasible = true;
  output_reserved = true;
}

abbrev beta : Candidate
beta = record alpha { candidate_id = "b1"; model_id = "beta"; timing_obligation_us = some 100 }

abbrev offered : List Candidate
offered = beta ∷ alpha ∷ []

abbrev planned : Oracle
planned = (schedule 5 offered (new_oracle two_models)).1

abbrev first_turn : Oracle
first_turn = (accept_receipt "a1" "alpha" 9 planned).1

first :
    (schedule 5 offered (new_oracle two_models)).0
    ≡ ok (record {
      selected = some alpha;
      decision_class = normal;
      runnable_ledgers = ("alpha", whole 0) ∷ ("beta", whole 0) ∷ [];
    })
unfolding schedule new_oracle choose sync_runnable least_ledger select runnable_models assign_all
    set_of insert lookup values_at eligible is_urgent min_by whole
first = refl

abbrev second_turn : Oracle
second_turn = (schedule 90 offered first_turn).1

second :
    (schedule 90 offered first_turn).0
    ≡ ok (record {
      selected = some beta;
      decision_class = urgent;
      runnable_ledgers = ("alpha", record { numerator = 9; below = 1 }) ∷ ("beta", whole 0) ∷ [];
    })
unfolding schedule new_oracle choose sync_runnable least_ledger select runnable_models assign_all
    set_of insert lookup values_at eligible is_urgent min_by whole accept_receipt ◌⊕◌ gcd
second = refl

two_models-positive : All (λ (m : ModelConfig). 0 < m.weight) two_models
two_models-positive = (omega arith, (omega arith, tt))

two_models-IsValid : IsValid (new_oracle two_models)
two_models-IsValid = new_oracle-IsValid two_models two_models-positive

offered-known : AreKnown (new_oracle two_models) offered
unfolding new_oracle insert lookup
offered-known c (inl p) = (3, rw p refl)
offered-known c (inr (inl p)) = (2, rw p refl)
offered-known c (inr (inr m)) = absurd m

idle_at_start : (new_oracle two_models).pending ≡ none
unfolding new_oracle
idle_at_start = refl

schedule-IsChoice_example :
    (d : Decision) × (o' : Oracle) × (schedule 5 offered (new_oracle two_models) ≡ (ok d, o'))
    × IsChoice 5 offered o'.ledgers (d.selected, d.decision_class)
    × (o'.pending ≡ d.selected)
    × IsValid o'
schedule-IsChoice_example =
    schedule-IsChoice 5 offered (new_oracle two_models) two_models-IsValid offered-known
      idle_at_start

planned-IsValid : IsValid planned
planned-IsValid =
    subst IsValid
      (ap (λ t. t.1)
        (sym
          (schedule_total 5 offered (new_oracle two_models) two_models-IsValid offered-known
            idle_at_start).returned))
      (schedule_total 5 offered (new_oracle two_models) two_models-IsValid offered-known
        idle_at_start).still_valid

planned-pending : planned.pending ≡ some alpha
unfolding schedule new_oracle choose sync_runnable least_ledger select runnable_models assign_all
    set_of insert lookup values_at eligible is_urgent min_by whole
planned-pending = refl

receipt_charges_example :
    (w : ℕ) × (f : Fraction) × (o' : Oracle) × (lookup "alpha" planned.weights ≡ some w)
    × (lookup "alpha" planned.ledgers ≡ some f)
    × (accept_receipt "a1" "alpha" 9 planned ≡ (ok o'.ledgers, o'))
    × ((k : String)
        → lookup k o'.ledgers
          ≡ (if str_eq "alpha" k then some (f ⊕ reduced 9 w) else lookup k planned.ledgers))
    × (o'.pending ≡ none)
    × IsValid o'
receipt_charges_example = receipt_charges alpha 9 planned planned-IsValid planned-pending

first_run : CalmRun (reduced 9 2) (new_oracle two_models) first_turn
unfolding schedule new_oracle choose sync_runnable least_ledger select runnable_models assign_all
    set_of insert lookup values_at eligible is_urgent min_by whole accept_receipt ◌⊕◌ gcd
first_run = next start (
    served 5 offered
      (record {
        selected = some alpha;
        decision_class = normal;
        runnable_ledgers = ("alpha", whole 0) ∷ ("beta", whole 0) ∷ [];
      })
      planned alpha 9 2 (("alpha", record { numerator = 9; below = 1 }) ∷ ("beta", whole 0) ∷ [])
      first_turn offered-known refl refl refl refl (≼_refl (reduced 9 2)) refl)

calm_run_fair_example : record { numerator = 9; below = 1 } ≼ whole 0 ⊕ reduced 9 2
unfolding schedule new_oracle choose sync_runnable least_ledger select runnable_models assign_all
    set_of insert lookup values_at eligible is_urgent min_by whole accept_receipt ◌⊕◌ gcd
calm_run_fair_example =
    calm_run_fair two_models (reduced 9 2) first_turn two_models-positive first_run "alpha" "beta"
      (record { numerator = 9; below = 1 }) (whole 0) (inl refl) (inr (inl refl)) refl refl
