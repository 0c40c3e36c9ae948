-- ===== src/Scheduler/Oracle/Turns.antt =====
-- Turns of the oracle, as the runner drives it: `schedule`, then the receipt of what was selected.
use turn_vector_benchmark.Base.{
  ℕ, zero, ◌<◌, String, ◌≡◌, refl, sym, ap, ◌∙◌, subst, true, none, some, List, [], ◌∷◌, inl, inr,
  arith, In, In-keep_if, In-keep_if_back, Bool-cases, All, Result, ok, ok-injective, some_injective,
  none-ne-some, str_eq,
}
use turn_vector_benchmark.Base.Order.{lte, pair_ord, text_ord}
use turn_vector_benchmark.Base.Dict.{Dict, lookup, insert, lookup-insert, lookup-nil}
use turn_vector_benchmark.Base.Fraction.{Fraction, whole, reduced, ◌≼◌, ◌⊕◌, fraction_ord}
use turn_vector_benchmark.Scheduler.{ModelConfig, Candidate, eligible}
use turn_vector_benchmark.Scheduler.Choice.{normal, NormalKey}
use turn_vector_benchmark.Scheduler.Choice.Least.{IsChoice}
use turn_vector_benchmark.Scheduler.Oracle.{
  Oracle, Decision, new_oracle, collect, schedule, accept_receipt,
}
use turn_vector_benchmark.Scheduler.Oracle.Sync.{
  IsValid, AreKnown, current, In-runnable_models, In-runnable_models_back,
}
use turn_vector_benchmark.Scheduler.Oracle.Schedule.{schedule_total}
use turn_vector_benchmark.Scheduler.Oracle.Receipt.{Settled, charged, receipt_total}
use turn_vector_benchmark.Scheduler.Oracle.Fairness.{IsFair, sync-IsFair, settle-IsFair}

-- A turn in which no candidate is urgent, and whose charge is at most `bound`.
pub data CalmTurn (bound : Fraction) (o : Oracle) : Oracle → Type 0 where
  idle :
      (now : ℕ) (cs : List Candidate) (d : Decision) (o' : Oracle)
      → AreKnown o cs
      → schedule now cs o ≡ (ok d, o')
      → d.selected ≡ none
      → CalmTurn bound o o'
  served :
      (now : ℕ) (cs : List Candidate) (d : Decision) (o' : Oracle) (c : Candidate) (us w : ℕ)
      (ledgers : Dict Fraction) (o'' : Oracle)
      → AreKnown o cs
      → schedule now cs o ≡ (ok d, o')
      → d.selected ≡ some c
      → d.decision_class ≡ normal
      → lookup c.model_id o.weights ≡ some w
      → reduced us w ≼ bound
      → accept_receipt c.candidate_id c.model_id us o' ≡ (ok ledgers, o'')
      → CalmTurn bound o o''

pub data CalmRun (bound : Fraction) (o : Oracle) : Oracle → Type 0 where
  start : CalmRun bound o o
  next : {o' o'' : Oracle} → CalmRun bound o o' → CalmTurn bound o' o'' → CalmRun bound o o''

-- Between two turns.
pub record IsReady (bound : Fraction) (o : Oracle) : Type 0 where
  pub valid : IsValid o
  pub idle : o.pending ≡ none
  pub fair : IsFair bound o

normal_first : (k k' : NormalKey) → lte k k' ≡ true → k.0 ≼ k'.0
normal_first k k' h = ground arith

-- A normal choice has a least ledger among the runnable models.
choice_least :
    (now : ℕ) (cs : List Candidate) (d : Dict Fraction) (o : Oracle) (c : Candidate) (f : Fraction)
    → IsChoice now cs d (some c, normal)
    → lookup c.model_id d ≡ some f
    → (k : String) (g : Fraction) → In k (current cs o)
    → lookup k d ≡ some g
    → f ≼ g
choice_least now cs d o c f choice h k g m hk =
    let (c', n, e, same) = In-runnable_models_back cs k m in
    normal_first (f, (c.model_id, c.candidate_id)) (g, (c'.model_id, c'.candidate_id))
      (choice.0.1 c' (f, (c.model_id, c.candidate_id)) (g, (c'.model_id, c'.candidate_id))
        (In-keep_if eligible c' cs n e) (rw h) (rw (ap (λ j. lookup j d) (sym same) ∙ hk)))

-- The choice of a served turn, seen from the state that `schedule` left.
scheduled_choice :
    (d : Decision) (o' : Oracle) (r : Result Decision × Oracle) (e : Decision) (s : Oracle)
    → r ≡ (ok d, o')
    → r ≡ (ok e, s)
    → (d ≡ e) × (o' ≡ s)
scheduled_choice d o' r e s p q =
    (ok-injective d e (ap (λ t. t.0) (sym p ∙ q)), ap (λ t. t.1) (sym p ∙ q))

-- What `schedule` leaves, whatever it decides.
pub record IsPlanned (bound : Fraction) (o : Oracle) (now : ℕ) (cs : List Candidate) (d : Decision)
    (o' : Oracle) : Type 0 where
  pub valid : IsValid o'
  pub fair : IsFair bound o'
  pub plan : o'.pending ≡ d.selected
  pub choice : IsChoice now cs o'.ledgers (d.selected, d.decision_class)
  pub runnable : o'.runnable ≡ current cs o
  pub weights : o'.weights ≡ o.weights

schedule-IsPlanned :
    (bound : Fraction) (o : Oracle) (now : ℕ) (cs : List Candidate) (d : Decision) (o' : Oracle)
    → IsReady bound o
    → AreKnown o cs
    → schedule now cs o ≡ (ok d, o')
    → IsPlanned bound o now cs d o'
schedule-IsPlanned bound o now cs d o' ready known run =
    let s = schedule_total now cs o ready.valid known ready.idle in
    let (same_d, same_o) = scheduled_choice d o' (schedule now cs o) _ _ run s.returned in
    rw (same_d, same_o)
      (record {
        valid = s.still_valid;
        fair = sync-IsFair bound cs o s.sync ready.fair s.chosen.0;
        plan = refl;
        choice = s.choice;
        runnable = refl;
        weights = refl;
      })

-- A served normal turn ends ready, by its plan and its receipt.
settle-IsReady :
    (bound : Fraction) (o : Oracle) (now : ℕ) (cs : List Candidate) (o' : Oracle) (c : Candidate)
    (us : ℕ)
    → IsValid o'
    → IsFair bound o'
    → o'.runnable ≡ current cs o
    → IsChoice now cs o'.ledgers (some c, normal)
    → (s : Settled c us o') → reduced us s.weight ≼ bound
    → IsReady bound (record o' {
      ledgers = charged c us o' s.before s.weight;
      pending = none;
      baseline = s.lowest;
    })
settle-IsReady bound o now cs o' c us valid fair runnable choice s small =
    let (ready_in, e) = In-keep_if_back eligible c cs choice.0.0 in
    record {
      valid = s.still_valid;
      idle = refl;
      fair =
          settle-IsFair bound c us o' s fair
            (subst (In c.model_id) (sym runnable) (In-runnable_models cs c ready_in e))
            (λ k g m hk.
              choice_least now cs o'.ledgers o c s.before choice s.before_held k g
                (subst (In k) runnable m) hk)
            small;
    }

CalmTurn-IsReady :
    (bound : Fraction) {o o' : Oracle} → IsReady bound o → CalmTurn bound o o' → IsReady bound o'
CalmTurn-IsReady bound {o} ready (idle now cs d o' known run none_selected) =
    let p = schedule-IsPlanned bound o now cs d o' ready known run in
    record { valid = p.valid; idle = p.plan ∙ none_selected; fair = p.fair }
CalmTurn-IsReady bound {o} ready
      (served now cs d o' c us w ledgers o'' known run selected calm hw small receipt) =
    let p = schedule-IsPlanned bound o now cs d o' ready known run in
    let s = receipt_total c us o' p.valid (p.plan ∙ selected) in
    let choice =
      subst (λ t. IsChoice now cs o'.ledgers (some c, t)) calm
        (subst (λ t. IsChoice now cs o'.ledgers (t, d.decision_class)) selected p.choice) in
    let weight : s.weight ≡ w =
      some_injective (sym s.weight_held ∙ ap (λ ws. lookup c.model_id ws) p.weights ∙ hw) in
    rw (ap (λ t. t.1) (sym receipt ∙ s.returned))
      (settle-IsReady bound o now cs o' c us p.valid p.fair p.runnable choice s (rw weight small))

CalmRun-IsReady :
    (bound : Fraction) {o o' : Oracle} → IsReady bound o → CalmRun bound o o' → IsReady bound o'
CalmRun-IsReady bound ready start = ready
CalmRun-IsReady bound ready (next r t) = CalmTurn-IsReady bound (CalmRun-IsReady bound ready r) t

-- Each weight that is held is positive, and its model has a ledger.
abbrev Paired : Dict ℕ → Dict Fraction → Type 0
Paired ws fs =
    (k : String) (w : ℕ)
    → lookup k ws ≡ some w
    → (0 < w) × ((f : Fraction) × (lookup k fs ≡ some f))

collect-Paired :
    (ms : List ModelConfig) (ws : Dict ℕ) (fs : Dict Fraction)
    → All (λ m. 0 < m.weight) ms
    → Paired ws fs
    → Paired (collect (λ m. m.weight) ms ws) (collect (λ m. whole zero) ms fs)
collect-Paired [] ws fs positive paired = paired
collect-Paired (m ∷ ms) ws fs positive paired =
    collect-Paired ms (insert m.model_id m.weight ws) (insert m.model_id (whole zero) fs) positive.1
      λ k w h.
        let at = lookup-insert m.model_id k (whole zero) fs in
        let found = sym (lookup-insert m.model_id k m.weight ws) ∙ h in
        elim (Bool-cases (str_eq m.model_id k)) [
          | inl same ↦ (
            let e : m.weight ≡ w = ground arith in rw e at positive.0,
            (whole zero, rw at (rw same)),
          )
          | inr other ↦ let (p, (f, e)) = paired k w (ground arith) in (p, (f, rw at (rw other e)))
        ]

-- The oracle of models with positive weights is well-formed.
pub new_oracle-IsValid :
    (ms : List ModelConfig) → All (λ m. 0 < m.weight) ms → IsValid (new_oracle ms)
unfolding new_oracle
new_oracle-IsValid ms positive =
    let paired =
      collect-Paired ms [] [] positive (λ k w h. absurd (none-ne-some (sym (lookup-nil k) ∙ h))) in
    record {
      positive = λ k w h. (paired k w h).0;
      held = λ k w h. (paired k w h).1;
      known = λ k m. absurd m;
      planned = λ c h. absurd (none-ne-some h);
    }

new_oracle-IsFair : (bound : Fraction) (ms : List ModelConfig) → IsFair bound (new_oracle ms)
unfolding new_oracle
new_oracle-IsFair bound ms = record { within = λ i j f g mi. absurd mi }

-- However many turns have passed since the start, none urgent and each charging at most `bound` (its
-- service over its model's weight), the ledgers of any two models that are runnable are within
-- `bound` of each other.
pub calm_run_fair :
    (ms : List ModelConfig) (bound : Fraction) (o : Oracle)
    → All (λ m. 0 < m.weight) ms
    → CalmRun bound (new_oracle ms) o
    → (i j : String) (f g : Fraction) → In i o.runnable
    → In j o.runnable
    → lookup i o.ledgers ≡ some f
    → lookup j o.ledgers ≡ some g
    → f ≼ g ⊕ bound
calm_run_fair ms bound o positive run =
    (CalmRun-IsReady bound
      (record {
        valid = new_oracle-IsValid ms positive;
        idle = unfold new_oracle in refl;
        fair = new_oracle-IsFair bound ms;
      })
      run).fair.within
