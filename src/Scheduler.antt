-- ===== src/Scheduler.antt =====
-- turnvector_benchmark/core.py: the scenario data, and when a candidate may run and is urgent.
-- `_integer` admits no negative number, so times are naturals; only the latest safe start may be
-- negative.
pub mod Choice
pub mod Oracle
pub mod Fields
pub mod Scenarios
mod Tests
use turn_vector_benchmark.Base.{
  ℕ, ◌+◌, String, Bool, false, ◌&&◌, Option, none, some, List, [], ◌∷◌,
}
use turn_vector_benchmark.Base.Dict.{Dict}
use turn_vector_benchmark.Base.Int.{ℤ, pos, sub_ℕ, leb_ℤ}

pub data ExecutionPhase : Type 0 where
  prefill decode embedding residency : ExecutionPhase

pub data ServiceClass : Type 0 where
  interactive standard background : ServiceClass

pub data ResourceMode : Type 0 where
  normal guarded stop_admission critical : ResourceMode

pub record ModelConfig : Type 0 where
  pub model_id : String
  pub weight : ℕ

pub record CandidateTemplate : Type 0 where
  pub candidate_id : String
  pub model_id : String
  pub execution_phase : ExecutionPhase
  pub service_class : ServiceClass
  pub engine_service_bound_us : ℕ
  pub runtime_overhead_bound_us : ℕ
  pub actual_engine_service_us : ℕ
  pub timing_obligation_offset_us : Option ℕ
  pub capability_authorized : Bool
  pub resource_safe : Bool
  pub timing_feasible : Bool
  pub output_reserved : Bool

pub record Candidate : Type 0 where
  pub candidate_id : String
  pub model_id : String
  pub execution_phase : ExecutionPhase
  pub service_class : ServiceClass
  pub engine_service_bound_us : ℕ
  pub runtime_overhead_bound_us : ℕ
  pub timing_obligation_us : Option ℕ
  pub capability_authorized : Bool
  pub resource_safe : Bool
  pub timing_feasible : Bool
  pub output_reserved : Bool

-- `timing_obligation_us` of `at_time`
abbrev pub after : ℕ → Option ℕ → Option ℕ
after now none = none
after now (some offset) = some (now + offset)

unfoldable pub at_time : CandidateTemplate → ℕ → Candidate
at_time t now = record {
  candidate_id = t.candidate_id;
  model_id = t.model_id;
  execution_phase = t.execution_phase;
  service_class = t.service_class;
  engine_service_bound_us = t.engine_service_bound_us;
  runtime_overhead_bound_us = t.runtime_overhead_bound_us;
  timing_obligation_us = after now t.timing_obligation_offset_us;
  capability_authorized = t.capability_authorized;
  resource_safe = t.resource_safe;
  timing_feasible = t.timing_feasible;
  output_reserved = t.output_reserved;
}

unfoldable pub eligible : Candidate → Bool
eligible c = c.capability_authorized && c.resource_safe && c.timing_feasible && c.output_reserved

unfoldable pub latest_safe_start_us : Candidate → Option ℤ
latest_safe_start_us c = elim c.timing_obligation_us [
  | none ↦ none
  | some t ↦ some (sub_ℕ t (c.engine_service_bound_us + c.runtime_overhead_bound_us))
]

unfoldable pub is_urgent : Candidate → ℕ → Bool
unfolding eligible latest_safe_start_us
is_urgent c now =
    eligible c && elim (latest_safe_start_us c) [ none ↦ false | some l ↦ leb_ℤ l (pos now) ]

pub record Segment : Type 0 where
  pub turns : ℕ
  pub clock_step_us : ℕ
  pub resource_mode : ResourceMode
  pub candidates : List CandidateTemplate

pub record Scenario : Type 0 where
  pub scenario_id : String
  pub description : String
  pub repetitions : ℕ
  pub clock_start_us : ℕ
  pub models : List ModelConfig
  pub segments : List Segment
  pub source_path : String
