-- ===== src/Scheduler/Oracle/Fairness.antt =====
-- Fair service: while no turn is urgent, the ledgers of the runnable models stay within the largest
-- charge of one turn.
use turn_vector_benchmark.Base.{
  ℕ, String, ◌≡◌, sym, ◌∙◌, subst, ◌⊎◌, not, Option, none, some, List, inl, inr, arith, In,
  In-keep_if, In-keep_if_back, Bool-cases, str_eq,
}
use turn_vector_benchmark.Base.Dict.{lookup, lookup-insert}
use turn_vector_benchmark.Base.Sets.{contains, contains→In, In→contains, contains-keep_if}
use turn_vector_benchmark.Base.Fraction.{Fraction, reduced, ◌⊕◌, ◌≼◌, ≼_trans, ≼-⊕, ≼_refl, ⊕-mono}
use turn_vector_benchmark.Scheduler.{Candidate}
use turn_vector_benchmark.Scheduler.Choice.Keyed.{least_ledger-le, least_ledger-held}
use turn_vector_benchmark.Scheduler.Oracle.{Oracle}
use turn_vector_benchmark.Scheduler.Oracle.Receipt.{Settled, charged}
use turn_vector_benchmark.Scheduler.Oracle.Sync.{
  Synced, synced, aligned, current, continuing, joining, lookup-assign_all,
}

-- Any two runnable models are within `bound` of each other.
pub record IsFair (bound : Fraction) (o : Oracle) : Type 0 where
  pub within :
      (i j : String) (f g : Fraction)
      → In i o.runnable
      → In j o.runnable
      → lookup i o.ledgers ≡ some f
      → lookup j o.ledgers ≡ some g
      → f ≼ g ⊕ bound

module _ (bound : Fraction) (cs : List Candidate) (o : Oracle) (s : Synced cs o) where
  -- A runnable model has its own ledger if it was runnable before, and else the alignment.
  abbrev Goes : String → Fraction → Type 0
  Goes k f =
      (In k (continuing cs o) × In k o.runnable × (lookup k o.ledgers ≡ some f)) ⊎ (f ≡ s.alignment)

  continuing_member :
      (k : String) (f : Fraction)
      → In k (current cs o)
      → lookup k (aligned cs o s.alignment) ≡ some f
      → Goes k f
  continuing_member k f m h =
      let found = sym (lookup-assign_all k s.alignment (joining cs o) o.ledgers) ∙ h in
      let joins = contains-keep_if (λ k. not (contains k o.runnable)) k (current cs o) in
      elim (Bool-cases (contains k o.runnable)) [
        | inl old ↦ inl (
          In-keep_if (λ k. contains k o.runnable) k (current cs o) m old,
          contains→In k o.runnable old,
          ground (arith, joins),
        )
        | inr new ↦ inr (ground (arith, joins, In→contains k (current cs o) m))
      ]

  Goes-within :
      (i j : String) (f g : Fraction) → IsFair bound o → Goes i f → Goes j g → f ≼ g ⊕ bound
  Goes-within i j f g fair (inl (_, mi, hi)) (inl (_, mj, hj)) = fair.within i j f g mi mj hi hj
  Goes-within i j f g fair (inl (ci, mi, hi)) (inr e) =
      elim (least_ledger-held o.baseline o.ledgers (continuing cs o) s.alignment
        s.alignment_least) [
          | inl (empty, _) ↦ absurd (subst (In i) empty ci)
          | inr (k, ck, hk) ↦
              let (_, mk) = In-keep_if_back (λ k. contains k o.runnable) k (current cs o) ck in
              rw e (fair.within i k f s.alignment mi (contains→In k o.runnable mk) hi hk)
        ]
  Goes-within i j f g fair (inr e) (inl (cj, _, hj)) =
      ≼_trans f g (g ⊕ bound)
        (rw e (
          least_ledger-le o.baseline o.ledgers (continuing cs o) s.alignment g j s.alignment_least
            cj hj))
        (≼-⊕ g bound)
  Goes-within i j f g fair (inr e) (inr e') = rw (e, e') (≼-⊕ s.alignment bound)

  pub sync-IsFair :
      IsFair bound o
      → (p : Option Candidate)
      → IsFair bound (record (synced cs o s.alignment s.lowest) { pending = p })
  sync-IsFair fair p = record {
    within = λ i j f g mi mj hi hj.
        Goes-within i j f g fair (continuing_member i f mi hi) (continuing_member j g mj hj);
  }

-- The charge of a model that is least among the runnable ones.
module _ (bound : Fraction) (c : Candidate) (us : ℕ) (o : Oracle) (s : Settled c us o) where
  pub settle-IsFair :
      IsFair bound o
      → In c.model_id o.runnable
      → ((k : String) (g : Fraction) → In k o.runnable → lookup k o.ledgers ≡ some g → s.before ≼ g)
      → reduced us s.weight ≼ bound
      → IsFair bound (record o {
        ledgers = charged c us o s.before s.weight;
        pending = none;
        baseline = s.lowest;
      })
  settle-IsFair fair own least small = record {
    within = λ i j f g mi mj hi hj. elim (charged_cases i f hi) [
      | inl ei ↦ elim (charged_cases j g hj) [
        | inl ej ↦ rw (ei, ej) (≼-⊕ after bound)
        | inr hj' ↦ rw ei (⊕-mono s.before g (reduced us s.weight) bound (least j g mj hj') small)
      ]
      | inr hi' ↦ elim (charged_cases j g hj) [
        | inl ej ↦ rw ej (
            ≼_trans f (s.before ⊕ bound) (after ⊕ bound)
              (fair.within i c.model_id f s.before mi own hi' s.before_held)
              (⊕-mono s.before after bound bound (≼-⊕ s.before (reduced us s.weight))
                (≼_refl bound)))
        | inr hj' ↦ fair.within i j f g mi mj hi' hj'
      ]
    ];
  }
    where
      after : Fraction
      after = s.before ⊕ reduced us s.weight

      charged_cases :
          (k : String) (f : Fraction)
          → lookup k (charged c us o s.before s.weight) ≡ some f
          → (f ≡ after) ⊎ (lookup k o.ledgers ≡ some f)
      charged_cases k f h =
          let found = sym (lookup-insert c.model_id k after o.ledgers) ∙ h in
          elim (Bool-cases (str_eq c.model_id k)) [
            | inl same ↦ inl (ground arith)
            | inr other ↦ inr (ground arith)
          ]
