-- ===== src/Runner/Turn/Counters.antt =====
-- The counters of `_run_repetition`: no key is missing, and the sums of what they count.
use turn_vector_benchmark.Base.{
  ℕ, ◌+◌, max, String, ◌≡◌, refl, true, Option, some, List, [], ◌∷◌, inl, inr, ◌⊎◌, arith, eq_iff,
  str_eq, In, Bool-cases, ok,
}
use text.Mathlib.TextPositions.{eq_refl}
use turn_vector_benchmark.Base.Dict.{Dict, lookup, insert, lookup-insert, keys}
use turn_vector_benchmark.Base.Sets.{contains}
use turn_vector_benchmark.Scheduler.{ModelConfig, Candidate}
use turn_vector_benchmark.Scheduler.Oracle.{collect}
use turn_vector_benchmark.Scheduler.Scenarios.{model_ids}
use turn_vector_benchmark.Runner.Records.{update, waits, longest_waits, is_passed_over}
use turn_vector_benchmark.Runner.Metrics.{total}

abbrev pub Found {ℓ} : {V : Type ℓ} → String → Dict V → Type ℓ
Found {V = V} k d = (v : V) × (lookup k d ≡ some v)

-- Every one of the models has an entry.
abbrev pub Tracks : List String → Dict ℕ → Type 0
Tracks ids d = (k : String) → contains k ids ≡ true → Found k d

pub Found-insert {ℓ} :
    {V : Type ℓ} (k j : String) (v : V) (d : Dict V) → Found k d → Found k (insert j v d)
Found-insert k j v d (w, h) =
    let at = lookup-insert j k v d in
    elim (Bool-cases (str_eq j k)) [
      | inl same ↦ (v, rw at (rw same))
      | inr other ↦ (w, rw at (rw other h))
    ]

pub Found-new {ℓ} : {V : Type ℓ} (k : String) (v : V) (d : Dict V) → Found k (insert k v d)
Found-new k v d = (v, rw (lookup-insert k k v d) (rw (eq_refl k) refl))

collect-Found_or {ℓ} :
    {V : Type ℓ} (f : ModelConfig → V) (ms : List ModelConfig) (d : Dict V) (k : String)
    → (contains k (model_ids ms) ≡ true) ⊎ Found k d
    → Found k (collect f ms d)
collect-Found_or f [] d k (inl h) = absurd cc
collect-Found_or f [] d k (inr h) = h
collect-Found_or f (m ∷ ms) d k (inr h) =
    collect-Found_or f ms (insert m.model_id (f m) d) k (inr (Found-insert k m.model_id (f m) d h))
collect-Found_or f (m ∷ ms) d k (inl h) = elim (Bool-cases (str_eq m.model_id k)) [
  | inl same ↦
      collect-Found_or f ms (insert m.model_id (f m) d) k
        (inr (f m, rw (lookup-insert m.model_id k (f m) d) (rw same refl)))
  | inr other ↦ collect-Found_or f ms (insert m.model_id (f m) d) k (inl (rw other at h))
]

pub collect-Found {ℓ} :
    {V : Type ℓ} (f : ModelConfig → V) (ms : List ModelConfig) (k : String)
    → contains k (model_ids ms) ≡ true
    → Found k (collect f ms [])
collect-Found f ms k h = collect-Found_or f ms [] k (inl h)

pub keys-Found : (k : String) (d : Dict ℕ) → In k (keys d) → Found k d
unfolding lookup
keys-Found k [] m = absurd m
keys-Found k ((j, v) ∷ d) m = elim (Bool-cases (str_eq j k)) [
  | inl same ↦ (v, rw same refl)
  | inr other ↦ elim m [
    | inl e ↦ absurd (ground (arith, eq_iff j k))
    | inr n ↦ let (w, h) = keys-Found k d n in (w, rw other h)
  ]
]

pub total-insert :
    (k : String) (n m : ℕ) (d : Dict ℕ)
    → lookup k d ≡ some n
    → total (insert k m d) + n ≡ total d + m
unfolding lookup insert
total-insert k n m [] h = cc
total-insert k n m ((j, v) ∷ d) h = ground (arith, eq_iff j k, total-insert k n m d)

pub update_found :
    (f : ℕ → ℕ) (k : String) (n : ℕ) (d : Dict ℕ)
    → lookup k d ≡ some n
    → update f k d ≡ ok (insert k (f n) d)
update_found f k n d h = rw (h, update) refl

keys-waits :
    (es : List String) (sel : Option Candidate) (d : Dict ℕ) → keys (waits es sel d) ≡ keys d
unfolding waits
keys-waits es sel [] = refl
keys-waits es sel ((k, n) ∷ d) = rw (keys-waits es sel d) refl

-- Every model that has a wait has a longest wait.
abbrev pub WaitsHeld : Dict ℕ → Dict ℕ → Type 0
WaitsHeld current longest = (k : String) → In k (keys current) → Found k longest

longest_waits_total :
    (es : List String) (sel : Option Candidate) (d longest : Dict ℕ)
    → WaitsHeld d longest
    → (l : Dict ℕ) × (longest_waits es sel d longest ≡ ok l)
      × ((k : String) → Found k longest → Found k l)
unfolding longest_waits
longest_waits_total es sel [] longest held = (longest, refl, λ k h. h)
longest_waits_total es sel ((k, n) ∷ d) longest held = elim (Bool-cases (is_passed_over es sel k)) [
  | inr stays ↦
      let (l, e, keep) = longest_waits_total es sel d longest (λ j m. held j (inr m)) in
      (l, ground arith, keep)
  | inl waiting ↦
      let (v, h) = held k (inl refl) in
      let longer = insert k (max n v) longest in
      let grow : (j : String) → Found j longest → Found j longer =
        λ j f. Found-insert j k (max n v) longest f in
      let (l, e, keep) = longest_waits_total es sel d longer (λ j m. grow j (held j (inr m))) in
      (l, ground arith, λ j f. keep j (grow j f))
]

-- The waits of a turn are counted, and every model keeps its longest wait.
pub waits_counted :
    (es : List String) (sel : Option Candidate) (current longest : Dict ℕ)
    → WaitsHeld current longest
    → (l : Dict ℕ) × (longest_waits es sel (waits es sel current) longest ≡ ok l)
      × WaitsHeld (waits es sel current) l
waits_counted es sel current longest held =
    let same = keys-waits es sel current in
    let held' : WaitsHeld (waits es sel current) longest = rw same held in
    let (l, e, keep) = longest_waits_total es sel (waits es sel current) longest held' in
    (l, e, λ k m. keep k (held' k m))
