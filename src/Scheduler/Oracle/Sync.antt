-- ===== src/Scheduler/Oracle/Sync.antt =====
-- What `_sync_runnable` does to a well-formed oracle.
use turn_vector_benchmark.Base.{
  ℕ, ◌<◌, String, ◌≡◌, refl, sym, ap, ◌∙◌, true, not, some, List, [], ◌∷◌, map, inl, inr, arith,
  eq_iff, In, In-keep_if, In-keep_if_back, In-map, In-map_back, keep_if, if◌then◌else◌, Bool-cases,
  ok,
}
use turn_vector_benchmark.Base.Dict.{Dict, lookup, insert, lookup-insert}
use turn_vector_benchmark.Base.Sets.{contains, set_of, contains→In, In→contains, contains-set_of}
use turn_vector_benchmark.Base.Fraction.{Fraction}
use turn_vector_benchmark.Scheduler.{Candidate, eligible}
use turn_vector_benchmark.Scheduler.Choice.{values_at, least_ledger}
use turn_vector_benchmark.Scheduler.Choice.Keyed.{AllHeld, least_ledger_total, values_at_total}
use turn_vector_benchmark.Scheduler.Oracle.{Oracle, assign_all, runnable_models, sync_runnable}

-- The models of the candidates and the models with a ledger are those of the scenario.
pub record IsValid (o : Oracle) : Type 0 where
  pub positive : (k : String) (w : ℕ) → lookup k o.weights ≡ some w → 0 < w
  pub held :
      (k : String) (w : ℕ)
      → lookup k o.weights ≡ some w
      → (f : Fraction) × (lookup k o.ledgers ≡ some f)
  pub known : (k : String) → In k o.runnable → (w : ℕ) × (lookup k o.weights ≡ some w)
  pub planned :
      (c : Candidate) → o.pending ≡ some c → (w : ℕ) × (lookup c.model_id o.weights ≡ some w)

abbrev pub AreKnown : Oracle → List Candidate → Type 0
AreKnown o cs = (c : Candidate) → In c cs → (w : ℕ) × (lookup c.model_id o.weights ≡ some w)

pub lookup-assign_all :
    (j : String) (v : Fraction) (ks : List String) (d : Dict Fraction)
    → lookup j (assign_all v ks d) ≡ (if contains j ks then some v else lookup j d)
unfolding assign_all
lookup-assign_all j v [] d = refl
lookup-assign_all j v (k ∷ ks) d =
    ground (arith, eq_iff k j, lookup-assign_all j v ks (insert k v d), lookup-insert k j v d)

-- A model is runnable exactly if an eligible candidate is of that model.
pub In-runnable_models :
    (cs : List Candidate) (c : Candidate)
    → In c cs
    → eligible c ≡ true
    → In c.model_id (runnable_models cs)
unfolding runnable_models
In-runnable_models cs c m e = contains→In c.model_id (set_of models) (
    rw contains-set_of (
      In→contains c.model_id models (
        In-map (λ (c : Candidate). c.model_id) c (keep_if eligible cs)
          (In-keep_if eligible c cs m e))))
  where
    models : List String
    models = map (λ (c : Candidate). c.model_id) (keep_if eligible cs)

pub In-runnable_models_back :
    (cs : List Candidate) (k : String)
    → In k (runnable_models cs)
    → (c : Candidate) × In c cs × (eligible c ≡ true) × (k ≡ c.model_id)
unfolding runnable_models
In-runnable_models_back cs k m =
    let models = map (λ (c : Candidate). c.model_id) (keep_if eligible cs) in
    let inside =
      contains→In k models (sym (contains-set_of k models) ∙ In→contains k (set_of models) m) in
    let (c, n, e) = In-map_back (λ (c : Candidate). c.model_id) k (keep_if eligible cs) inside in
    let (n', h) = In-keep_if_back eligible c cs n in (c, n', h, e)

module _ (cs : List Candidate) (o : Oracle) where
  abbrev pub current : List String
  current = runnable_models cs

  abbrev pub continuing : List String
  continuing = keep_if (λ k. contains k o.runnable) current

  abbrev pub joining : List String
  joining = keep_if (λ k. not (contains k o.runnable)) current

  abbrev pub aligned : Fraction → Dict Fraction
  aligned alignment = assign_all alignment joining o.ledgers

  abbrev pub synced : Fraction → Fraction → Oracle
  synced alignment lowest = record o {
    ledgers = aligned alignment;
    runnable = current;
    baseline = lowest;
  }

  -- A call that has returned, with the values that it passed through.
  pub record Synced : Type 0 where
    pub alignment : Fraction
    pub lowest : Fraction
    pub shown : Dict Fraction
    pub alignment_least : least_ledger o.baseline o.ledgers continuing ≡ ok alignment
    pub lowest_least : least_ledger o.baseline (aligned alignment) current ≡ ok lowest
    pub shown_values : values_at (aligned alignment) current ≡ ok shown
    pub returned : sync_runnable cs o ≡ (ok shown, synced alignment lowest)

  pub sync_returns :
      (a l : Fraction) (d : Dict Fraction)
      → least_ledger o.baseline o.ledgers continuing ≡ ok a
      → least_ledger o.baseline (aligned a) current ≡ ok l
      → values_at (aligned a) current ≡ ok d
      → sync_runnable cs o ≡ (ok d, synced a l)
  unfolding sync_runnable
  sync_returns a l d p q r = rw p (rw q (rw r))

  module _ (valid : IsValid o) (known : AreKnown o cs) where
    continuing_held : AllHeld o.ledgers continuing
    continuing_held k m =
        let (w, e) =
          valid.known k (
            contains→In k o.runnable
              (In-keep_if_back (λ k. contains k o.runnable) k current m).1) in
        valid.held k w e

    pub current_known : (k : String) → In k current → (w : ℕ) × (lookup k o.weights ≡ some w)
    current_known k m =
        let (c, n, _, e) = In-runnable_models_back cs k m in
        let (w, h) = known c n in (w, ap (λ j. lookup j o.weights) e ∙ h)

    pub aligned_held :
        (a : Fraction) (k : String) (w : ℕ)
        → lookup k o.weights ≡ some w
        → (f : Fraction) × (lookup k (aligned a) ≡ some f)
    aligned_held a k w h =
        let (f, e) = valid.held k w h in
        let at = lookup-assign_all k a joining o.ledgers in
        elim (Bool-cases (contains k joining)) [
          | inl new ↦ (a, rw at (rw new))
          | inr old ↦ (f, rw at (rw old e))
        ]

    current_held : (a : Fraction) → AllHeld (aligned a) current
    current_held a k m = let (w, h) = current_known k m in aligned_held a k w h

    pub sync_total : Synced
    sync_total =
        let (a, p) = least_ledger_total o.baseline o.ledgers continuing continuing_held in
        let (l, q) = least_ledger_total o.baseline (aligned a) current (current_held a) in
        let (d, r) = values_at_total (aligned a) current (current_held a) in
        record {
          alignment = a;
          lowest = l;
          shown = d;
          alignment_least = p;
          lowest_least = q;
          shown_values = r;
          returned = sync_returns a l d p q r;
        }
