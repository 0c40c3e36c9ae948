-- ===== src/Runner/Records.antt =====
-- What `_run_repetition` of turnvector_benchmark/runner.py keeps over the turns, and the helpers that
-- bring it up to date.
use turn_vector_benchmark.Base.{
  ℕ, suc, max, String, Bool, true, false, not, ◌&&◌, Option, none, some, List, [], ◌∷◌, str_eq,
  Result, ok, err, key_error,
}
use turn_vector_benchmark.Base.Dict.{Dict, lookup, insert}
use turn_vector_benchmark.Base.Sets.{contains}
use turn_vector_benchmark.Scheduler.{ResourceMode, CandidateTemplate, Candidate}
use turn_vector_benchmark.Scheduler.Choice.{DecisionClass, urgent}
use turn_vector_benchmark.Scheduler.Oracle.{Oracle}

pub data Failure : Type 0 where
  runnable_mismatch candidate_mismatch receipt_mismatch : Failure

pub data RecordStatus : Type 0 where
  passed : RecordStatus
  failed : Failure → RecordStatus

pub record ReceiptRecord : Type 0 where
  pub actual_engine_service_us : ℕ
  pub expected_receipt_ledgers_us : Dict String
  pub observed_receipt_ledgers_us : Dict String

pub record TraceRecord : Type 0 where
  pub scenario_id : String
  pub repetition : ℕ
  pub segment : ℕ
  pub segment_turn : ℕ
  pub sequence : ℕ
  pub now_us : ℕ
  pub resource_mode : ResourceMode
  pub candidates : List Candidate
  pub decision_class : DecisionClass
  pub expected_candidate_id : Option String
  pub observed_candidate_id : Option String
  pub expected_runnable_ledgers_us : Dict String
  pub observed_runnable_ledgers_us : Dict String
  pub receipt : Option ReceiptRecord
  pub status : Option RecordStatus

-- The local variables of `_run_repetition` and its driver; the records are kept newest first.
pub record Progress (D : Type 0) : Type 0 where
  pub driver : D
  pub oracle : Oracle
  pub sequence : ℕ
  pub now_us : ℕ
  pub records : List TraceRecord
  pub selection_count : Dict ℕ
  pub engine_service_us : Dict ℕ
  pub current_wait : Dict ℕ
  pub max_wait : Dict ℕ
  pub max_consecutive : Dict ℕ
  pub last_model : Option String
  pub consecutive : ℕ
  pub urgent_selections : ℕ
  pub normal_selections : ℕ
  pub no_plan_count : ℕ

-- `d[k] = f(d[k])`
abbrev pub update : (ℕ → ℕ) → String → Dict ℕ → Result (Dict ℕ)
update f k d = elim (lookup k d) [ none ↦ err key_error | some n ↦ ok (insert k (f n) d) ]

abbrev pub candidate_id_of : Option Candidate → Option String
candidate_id_of none = none
candidate_id_of (some c) = some c.candidate_id

abbrev pub same_id : Option String → Option String → Bool
same_id none none = true
same_id (some a) (some b) = str_eq a b
same_id _ _ = false

-- A model waits if it is eligible and was not selected.
abbrev pub is_passed_over : List String → Option Candidate → String → Bool
is_passed_over eligible_models none k = contains k eligible_models
is_passed_over eligible_models (some c) k = contains k eligible_models && not (str_eq k c.model_id)

unfoldable pub waits : List String → Option Candidate → Dict ℕ → Dict ℕ
waits eligible_models selected [] = []
waits eligible_models selected ((k, n) ∷ d) =
    (k, elim (is_passed_over eligible_models selected k) [ true ↦ suc n | false ↦ 0 ])
    ∷ waits eligible_models selected d

-- The longest waits, from the waits after the turn.
unfoldable pub longest_waits : List String → Option Candidate → Dict ℕ → Dict ℕ → Result (Dict ℕ)
longest_waits eligible_models selected [] longest = ok longest
longest_waits eligible_models selected ((k, n) ∷ d) longest =
    elim (is_passed_over eligible_models selected k) [
      | true ↦ elim (update (max n) k longest) [
        | err e ↦ err e
        | ok longer ↦ longest_waits eligible_models selected d longer
      ]
      | false ↦ longest_waits eligible_models selected d longest
    ]

-- `actual_by_id[candidate_id]`: a later template of the same id would count.
abbrev pub actual_by_id : List CandidateTemplate → Dict ℕ → Dict ℕ
actual_by_id [] d = d
actual_by_id (t ∷ ts) d = actual_by_id ts (insert t.candidate_id t.actual_engine_service_us d)

abbrev pub amend : (TraceRecord → TraceRecord) → List TraceRecord → List TraceRecord
amend f [] = []
amend f (r ∷ rs) = f r ∷ rs

-- How many selections in a row the model has had with this one.
abbrev pub row : String → Option String → ℕ → ℕ
row model_id none n = 1
row model_id (some last) n = elim (str_eq last model_id) [ true ↦ suc n | false ↦ 1 ]

abbrev pub is_urgent_class : DecisionClass → Bool
is_urgent_class urgent = true
is_urgent_class _ = false

-- `if b: n += 1`
abbrev pub count_if : Bool → ℕ → ℕ
count_if true n = suc n
count_if false n = n
