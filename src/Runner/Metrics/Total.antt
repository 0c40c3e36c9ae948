-- ===== src/Runner/Metrics/Total.antt =====
-- The metrics of a repetition are computed without an exception.
use text.Mathlib.TextPositions.{eq_refl}
use turn_vector_benchmark.Base.{
  ℕ, String, ◌≡◌, refl, false, List, [], ◌∷◌, All, arith, is_empty, ok,
}
use turn_vector_benchmark.Base.Dict.{Dict, insert}
use turn_vector_benchmark.Base.Fraction.{Fraction, reduced}
use turn_vector_benchmark.Scheduler.{ModelConfig, Scenario}
use turn_vector_benchmark.Scheduler.Oracle.Receipt.{fraction_ok}
use turn_vector_benchmark.Scheduler.Scenarios.{model_ids}
use turn_vector_benchmark.Scheduler.Scenarios.Accepted.{IsModel}
use turn_vector_benchmark.Runner.Records.{Progress}
use turn_vector_benchmark.Runner.Turn.Counters.{Tracks}
use turn_vector_benchmark.Runner.Metrics.{PlanIdentity, normalized, spread, metrics, metrics_of}

insert_some : (k : String) (f : Fraction) (d : Dict Fraction) → is_empty (insert k f d) ≡ false
unfolding insert
insert_some k f [] = refl
insert_some k f ((j, g) ∷ d) = ground arith

normalized_total :
    (ms : List ModelConfig) (services : Dict ℕ) (d : Dict Fraction)
    → All IsModel ms
    → Tracks (model_ids ms) services
    → is_empty d ≡ false
    → (r : Dict Fraction) × (normalized ms services d ≡ ok r) × (is_empty r ≡ false)
unfolding normalized
normalized_total [] services d weighed tracked h = (d, refl, h)
normalized_total (m ∷ ms) services d weighed tracked h =
    let (n, found) = tracked m.model_id (ground (arith, eq_refl m.model_id)) in
    let f = reduced n m.weight in
    let (r, e, some_value) =
      normalized_total ms services (insert m.model_id f d) weighed.1
        (λ k c. tracked k (ground arith)) (insert_some m.model_id f d) in
    (r, rw found (rw (fraction_ok n m.weight weighed.0.positive) e), some_value)

spread_total : (d : Dict Fraction) → is_empty d ≡ false → (f : Fraction) × (spread d ≡ ok f)
unfolding spread
spread_total [] h = cc
spread_total ((k, f) ∷ d) h = (_, refl)

normalized_first :
    (ms : List ModelConfig) (services : Dict ℕ)
    → is_empty ms ≡ false
    → All IsModel ms
    → Tracks (model_ids ms) services
    → (r : Dict Fraction) × (normalized ms services [] ≡ ok r) × (is_empty r ≡ false)
unfolding normalized
normalized_first [] services h weighed tracked = cc
normalized_first (m ∷ ms) services h weighed tracked =
    let (n, found) = tracked m.model_id (ground (arith, eq_refl m.model_id)) in
    let f = reduced n m.weight in
    let (r, e, some_value) =
      normalized_total ms services (insert m.model_id f []) weighed.1
        (λ k c. tracked k (ground arith)) (insert_some m.model_id f []) in
    (r, rw found (rw (fraction_ok n m.weight weighed.0.positive) e), some_value)

pub metrics_total :
    {D : Type 0} (digest : List PlanIdentity → String) (s : Scenario) (p : Progress D)
    → is_empty s.models ≡ false
    → All IsModel s.models
    → Tracks (model_ids s.models) p.engine_service_us
    → (services : Dict Fraction) × (width : Fraction) × (metrics digest s p
        ≡ ok (metrics_of digest p services width))
unfolding metrics
metrics_total digest s p some_models weighed tracked =
    let (r, e, some_value) =
      normalized_first s.models p.engine_service_us some_models weighed tracked in
    let (f, h) = spread_total r some_value in (r, f, rw e (rw h refl))
