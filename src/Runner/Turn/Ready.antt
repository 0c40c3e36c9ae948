-- ===== src/Runner/Turn/Ready.antt =====
-- The state of a repetition between two turns, and the candidates of a turn.
use turn_vector_benchmark.Base.{
  ℕ, ◌+◌, String, ◌≡◌, true, none, List, [], ◌∷◌, map, inl, inr, ◌⊎◌, In, All, length, subst, sym,
  ap, ◌∙◌, In-map_back,
}
use turn_vector_benchmark.Base.Dict.{Dict, insert}
use turn_vector_benchmark.Base.Sets.{contains}
use turn_vector_benchmark.Scheduler.{ModelConfig, CandidateTemplate, Candidate, at_time}
use turn_vector_benchmark.Scheduler.Oracle.{collect}
use turn_vector_benchmark.Scheduler.Oracle.Sync.{IsValid}
use turn_vector_benchmark.Scheduler.Scenarios.{model_ids}
use turn_vector_benchmark.Scheduler.Scenarios.Accepted.{IsCandidate}
use turn_vector_benchmark.Runner.Metrics.{total}
use turn_vector_benchmark.Runner.Records.{Progress, actual_by_id}
use turn_vector_benchmark.Runner.Turn.Counters.{Found, Found-new, Found-insert, Tracks, WaitsHeld}

pub record IsReady {D : Type 0} (ms : List ModelConfig) (p : Progress D) : Type 0 where
  pub valid : IsValid p.oracle
  pub idle : p.oracle.pending ≡ none
  pub weights : p.oracle.weights ≡ collect (λ m. m.weight) ms []
  pub selections : Tracks (model_ids ms) p.selection_count
  pub services : Tracks (model_ids ms) p.engine_service_us
  pub streaks : Tracks (model_ids ms) p.max_consecutive
  pub waits : WaitsHeld p.current_wait p.max_wait
  pub counted : p.urgent_selections + p.normal_selections + p.no_plan_count ≡ p.sequence
  pub selected : total p.selection_count ≡ p.urgent_selections + p.normal_selections
  pub traced : length p.records ≡ p.sequence

actual-Found :
    (k : String) (ts : List CandidateTemplate) (d : Dict ℕ)
    → ((t : CandidateTemplate) × In t ts × (k ≡ t.candidate_id)) ⊎ Found k d
    → Found k (actual_by_id ts d)
actual-Found k [] d (inl (t, m, e)) = absurd m
actual-Found k [] d (inr h) = h
actual-Found k (t ∷ ts) d (inr h) =
    actual-Found k ts (insert t.candidate_id t.actual_engine_service_us d)
      (inr (Found-insert k t.candidate_id t.actual_engine_service_us d h))
actual-Found k (t ∷ ts) d (inl (u, inr m, e)) =
    actual-Found k ts (insert t.candidate_id t.actual_engine_service_us d) (inl (u, m, e))
actual-Found k (t ∷ ts) d (inl (u, inl same, e)) =
    actual-Found k ts (insert t.candidate_id t.actual_engine_service_us d) (
      inr (
        subst (λ j. Found j (insert t.candidate_id t.actual_engine_service_us d))
          (sym (e ∙ ap (λ (x : CandidateTemplate). x.candidate_id) same))
          (Found-new t.candidate_id t.actual_engine_service_us d)))

All-In : {A : Type 0} (P : A → Type 0) (a : A) (xs : List A) → All P xs → In a xs → P a
All-In P a [] all m = absurd m
All-In P a (x ∷ xs) all (inl e) = subst P (sym e) all.0
All-In P a (x ∷ xs) all (inr m) = All-In P a xs all.1 m

-- A candidate of a turn has a model of the scenario and a service.
pub offered_known :
    (ms : List ModelConfig) (ts : List CandidateTemplate) (now : ℕ) (c : Candidate)
    → All (IsCandidate (model_ids ms)) ts
    → In c (map (λ t. at_time t now) ts)
    → (contains c.model_id (model_ids ms) ≡ true) × Found c.candidate_id (actual_by_id ts [])
unfolding at_time
offered_known ms ts now c all m =
    let (t, n, e) = In-map_back (λ t. at_time t now) c ts m in
    let ok_t = All-In (IsCandidate (model_ids ms)) t ts all n in
    (
      rw (ap (λ (x : Candidate). x.model_id) e) ok_t.known,
      actual-Found c.candidate_id ts [] (inl (t, n, ap (λ (x : Candidate). x.candidate_id) e)),
    )
