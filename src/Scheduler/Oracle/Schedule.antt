-- ===== src/Scheduler/Oracle/Schedule.antt =====
-- `schedule` of `SchedulerOracle`: it returns on a well-formed oracle with no pending plan, and it
-- selects what the policy asks for.
use turn_vector_benchmark.Base.{
  ℕ, String, ◌≡◌, refl, subst, true, Option, none, some, List, [], ◌∷◌, inl, inr, arith, In,
  In-keep_if_back, keep_if, is_empty, Bool-cases, Option-cases, Result, ok,
}
use turn_vector_benchmark.Base.Order.{Ord, min_by, pair_ord, text_ord}
use turn_vector_benchmark.Base.Int.{ℤ, int_ord}
use turn_vector_benchmark.Base.Dict.{Dict, lookup}
use turn_vector_benchmark.Base.Fraction.{Fraction, fraction_ord}
use turn_vector_benchmark.Scheduler.{Candidate, eligible, is_urgent, latest_safe_start_us}
use turn_vector_benchmark.Scheduler.Choice.{
  DecisionClass, urgent, normal, no_plan, select, choose, urgent_key, normal_key,
}
use turn_vector_benchmark.Scheduler.Choice.Keyed.{keyed_total}
use turn_vector_benchmark.Scheduler.Choice.Least.{IsChoice, choose-IsChoice}
use turn_vector_benchmark.Scheduler.Oracle.{Oracle, Decision, schedule}
use turn_vector_benchmark.Scheduler.Oracle.Sync.{
  IsValid, AreKnown, Synced, synced, aligned, aligned_held, current_known, sync_total,
}

select_total :
    {A K : Type 0} ⦃o : Ord K⦄ (key : A → Result K) (xs : List A)
    → ((x : A) → In x xs → (k : K) × (key x ≡ ok k))
    → (a : Option A) × (select key xs ≡ ok a)
unfolding select
select_total key [] h = (none, refl)
select_total {A} {K} key (x ∷ xs) h =
    let (k, found) = h x (inl refl) in
    let (l, rest) = keyed_total key xs (λ y m. h y (inr m)) in
    (some (min_by (λ (p : K × A). p.0) (k, x) l).1, rw found (rw rest))

latest_of_urgent :
    (c : Candidate) (now : ℕ) → is_urgent c now ≡ true → (l : ℤ) × (latest_safe_start_us c ≡ some l)
unfolding is_urgent
latest_of_urgent c now u = elim (Option-cases (latest_safe_start_us c)) [
  | inl e ↦ absurd (ground arith)
  | inr (l, e) ↦ (l, e)
]

urgent_key_total :
    (d : Dict Fraction) (now : ℕ) (c : Candidate) (f : Fraction)
    → is_urgent c now ≡ true
    → lookup c.model_id d ≡ some f
    → (k : ℤ × (Fraction × String)) × (urgent_key d c ≡ ok k)
urgent_key_total d now c f u h =
    let (l, e) = latest_of_urgent c now u in ((l, (f, c.candidate_id)), rw (e, urgent_key) (rw h))

-- Every candidate that may be chosen has a ledger.
abbrev pub CandidatesHeld : Dict Fraction → List Candidate → Type 0
CandidatesHeld d cs = (c : Candidate) → In c cs → (f : Fraction) × (lookup c.model_id d ≡ some f)

pub choose_total :
    (now : ℕ) (cs : List Candidate) (d : Dict Fraction)
    → CandidatesHeld d cs
    → (r : Option Candidate × DecisionClass) × (choose now cs d ≡ ok r)
unfolding choose
choose_total now cs d h = elim (Bool-cases (is_empty due)) [
  | inr some_due ↦ ((some_chosen.0, urgent), rw some_due (rw some_chosen.1))
  | inl none_due ↦ elim (Bool-cases (is_empty ready)) [
    | inr some_ready ↦ ((ready_chosen.0, normal), rw none_due (rw some_ready (rw ready_chosen.1)))
    | inl none_ready ↦ ((none, no_plan), rw none_due (rw none_ready))
  ]
]
  where
    ready : List Candidate
    ready = keep_if eligible cs

    due : List Candidate
    due = keep_if (λ c. is_urgent c now) ready

    ready_in : (c : Candidate) → In c ready → In c cs
    ready_in c m = (In-keep_if_back eligible c cs m).0

    some_chosen : (a : Option Candidate) × (select (urgent_key d) due ≡ ok a)
    some_chosen = select_total (urgent_key d) due λ c m.
        let (n, u) = In-keep_if_back (λ c. is_urgent c now) c ready m in
        let (f, e) = h c (ready_in c n) in urgent_key_total d now c f u e

    ready_chosen : (a : Option Candidate) × (select (normal_key d) ready ≡ ok a)
    ready_chosen =
        select_total (normal_key d) ready
          λ c m. let (f, e) = h c (ready_in c m) in ((f, (c.model_id, c.candidate_id)), rw e)

schedule_returns :
    (now : ℕ) (cs : List Candidate) (o : Oracle) (s : Synced cs o)
    (r : Option Candidate × DecisionClass)
    → o.pending ≡ none
    → choose now cs (aligned cs o s.alignment) ≡ ok r
    → schedule now cs o ≡ (
      ok (record { selected = r.0; decision_class = r.1; runnable_ledgers = s.shown }),
      record (synced cs o s.alignment s.lowest) { pending = r.0 },
    )
unfolding schedule
schedule_returns now cs o s r idle e = ground arith

pub IsChoice-In :
    (now : ℕ) (cs : List Candidate) (d : Dict Fraction) (c : Candidate) (k : DecisionClass)
    → IsChoice now cs d (some c, k)
    → In c cs
IsChoice-In now cs d c urgent h =
    (In-keep_if_back eligible c cs
      (In-keep_if_back (λ c'. is_urgent c' now) c (keep_if eligible cs) h.0).0).0
IsChoice-In now cs d c normal h = (In-keep_if_back eligible c cs h.0.0).0
IsChoice-In now cs d c no_plan h = absurd h

module _ (now : ℕ) (cs : List Candidate) (o : Oracle) (valid : IsValid o)
    (known : AreKnown o cs) where
  -- A call that has returned: its synchronisation, its choice and the oracle that it leaves.
  pub record Scheduled : Type 0 where
    pub sync : Synced cs o
    pub chosen : Option Candidate × DecisionClass
    pub choice : IsChoice now cs (aligned cs o sync.alignment) chosen
    pub returned : schedule now cs o ≡ (
      ok (record { selected = chosen.0; decision_class = chosen.1; runnable_ledgers = sync.shown }),
      record (synced cs o sync.alignment sync.lowest) { pending = chosen.0 },
    )
    pub still_valid :
        IsValid (record (synced cs o sync.alignment sync.lowest) { pending = chosen.0 })

  pub schedule_total : o.pending ≡ none → Scheduled
  schedule_total idle =
      let s = sync_total cs o valid known in
      let held : CandidatesHeld (aligned cs o s.alignment) cs =
        λ c m. let (w, e) = known c m in aligned_held cs o valid known s.alignment c.model_id w e in
      let (r, e) = choose_total now cs (aligned cs o s.alignment) held in
      let choice = choose-IsChoice now cs (aligned cs o s.alignment) r e in
      record {
        sync = s;
        chosen = r;
        choice = choice;
        returned = schedule_returns now cs o s r idle e;
        still_valid = record {
          positive = valid.positive;
          held = aligned_held cs o valid known s.alignment;
          known = current_known cs o valid known;
          planned = λ c p. known c (
              IsChoice-In now cs (aligned cs o s.alignment) c r.1
                (subst (λ t. IsChoice now cs (aligned cs o s.alignment) (t, r.1)) p choice));
        };
      }

-- On a well-formed oracle with no pending plan, and candidates of known models, `schedule` returns:
-- the urgent candidate of least (latest start, ledger, candidate id) if one is urgent, else the
-- eligible one of least (ledger, model id, candidate id), else no plan; the plan is pending after it,
-- and the oracle is well-formed.
pub schedule-IsChoice :
    (now : ℕ) (cs : List Candidate) (o : Oracle)
    → IsValid o
    → AreKnown o cs
    → o.pending ≡ none
    → (d : Decision) × (o' : Oracle) × (schedule now cs o ≡ (ok d, o'))
      × IsChoice now cs o'.ledgers (d.selected, d.decision_class)
      × (o'.pending ≡ d.selected)
      × IsValid o'
schedule-IsChoice now cs o valid known idle =
    let s = schedule_total now cs o valid known idle in
    (
      record {
        selected = s.chosen.0;
        decision_class = s.chosen.1;
        runnable_ledgers = s.sync.shown;
      },
      record (synced cs o s.sync.alignment s.sync.lowest) { pending = s.chosen.0 },
      s.returned,
      s.choice,
      refl,
      s.still_valid,
    )
