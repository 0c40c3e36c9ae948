-- ===== src/Runner/Messages/Reported.antt =====
-- The checks of the driver's answers raise nothing but what `_run_scenario` catches and what a ledger of
-- too many digits brings about: a field that they read is present.
use turn_vector_benchmark.Base.{
  ℕ, String, ◌≡◌, refl, Bool, subst, true, false, not, ◌||◌, List, [], ◌∷◌, inl, inr, arith, eq_iff,
  all, Result, ok, err, raise_if, contract_error, value_error, ◌>>=◌, ◌>>◌, Bool-cases, str_eq,
  some,
}
use turn_vector_benchmark.Base.Order.{codes}
use turn_vector_benchmark.Base.Dict.{Dict, lookup, keys}
use turn_vector_benchmark.Base.Sets.{contains}
use turn_vector_benchmark.Lifecycle.{Json, null, bool, int, float, str, arr, obj, entries}
use turn_vector_benchmark.Lifecycle.Contracts.{get}
use turn_vector_benchmark.Scheduler.{Scenario}
use turn_vector_benchmark.Scheduler.Fields.{string_value}
use turn_vector_benchmark.Runner.Outcomes.{Reports}
use turn_vector_benchmark.Runner.Driver.{Driver, Escapes, large}
use turn_vector_benchmark.Runner.Ledgers.{
  Reading, refused, oversized, readable, check_canonical, same_set, require_response, ledger_values,
  ledger_response, is_canonical,
}
use turn_vector_benchmark.Runner.Messages.{
  driver_protocol, is_named, equals_number, optional_text, hello_response, initialize_response,
  plan_response, receipt_response,
}

module _ {D : Type 0} (driver : Driver D) where
  module _ {ℓ} {A : Type ℓ} where
    returns : (a : A) → Reports (Escapes driver) (ok a)
    returns a = record { reported = λ e h. cc }

    raises : Reports (Escapes driver) {A = A} (err contract_error)
    raises = record { reported = λ e h. inl (inl cc) }

    after_step :
        {B : Type ℓ} {f : A → Result B} (r : Result A)
        → Reports (Escapes driver) r
        → ((a : A) → r ≡ ok a → Reports (Escapes driver) (f a))
        → Reports (Escapes driver) (r >>= f)
    after_step (ok a) p h = h a refl
    after_step (err e) p h = record { reported = λ x g. p.reported x (ground arith) }

  after_check :
      {A : Type 0} (b : Bool) {r : Result A}
      → Reports (Escapes driver) r
      → Reports (Escapes driver) (raise_if b contract_error >> r)
  after_check true h = raises
  after_check false h = h

  contains-lookup :
      (k : String) (d : Dict Json) → contains k (keys d) ≡ true → (v : Json) × (lookup k d ≡ some v)
  unfolding lookup
  contains-lookup k [] h = cc
  contains-lookup k ((j, v) ∷ d) h = elim (Bool-cases (str_eq j k)) [
    | inl same ↦ (v, rw same refl)
    | inr other ↦ let (w, e) = contains-lookup k d (rw other at h) in (w, rw other e)
  ]

  all_contained :
      (k : String) (ks js : List String)
      → all (λ k. contains k js) ks ≡ true
      → contains k ks ≡ true
      → contains k js ≡ true
  all_contained k [] js h m = cc
  all_contained k (i ∷ ks) js h m = ground (arith, eq_iff i k, all_contained k ks js)

  -- A field that a response must have is there.
  field_present :
      (required : List String) (response : Dict Json)
      → require_response required response ≡ ok tt
      → (k : String) → contains k required ≡ true
      → Reports (Escapes driver) (get response k)
  unfolding require_response
  field_present required response h k m =
      let (v, e) =
        contains-lookup k response (all_contained k required (keys response) (ground arith) m) in
      rw e (returns v)

  require-Reports :
      (required : List String) (response : Dict Json)
      → Reports (Escapes driver) (require_response required response)
  unfolding require_response
  require-Reports required response =
      elim (same_set required (keys response))
        as (λ b. Reports (Escapes driver) (raise_if (not b) contract_error)) [
          | true ↦ returns tt
          | false ↦ raises
        ]

  text-Reports : (v : Json) → Reports (Escapes driver) (string_value v)
  text-Reports v = record { reported = λ e h. inl (ground arith) }

  optional-Reports : (v : Json) → Reports (Escapes driver) (optional_text v)
  optional-Reports v = record { reported = λ e h. inl (ground arith) }

  canonical-Reports :
      (ledger : String) (r : Reading)
      → driver.reading ledger ≡ r
      → Reports (Escapes driver) (check_canonical r ledger)
  canonical-Reports ledger refused h = raises
  canonical-Reports ledger oversized h = record {
    reported = λ e g. inr (subst (Escapes driver) (cc) (large ledger h));
  }
  canonical-Reports ledger readable h =
      elim (is_canonical (codes ledger))
        as (λ b. Reports (Escapes driver) (raise_if (not b) contract_error)) [
          | true ↦ returns tt
          | false ↦ raises
        ]

  ledger_values_report : (d : Dict Json) → Reports (Escapes driver) (ledger_values driver.reading d)
  ledger_values_report [] = returns []
  ledger_values_report ((k, str s) ∷ d) =
      after_step (check_canonical (driver.reading s) s)
        (canonical-Reports s (driver.reading s) refl)
        (λ _ _.
          after_step (ledger_values driver.reading d) (ledger_values_report d)
            λ rest _. returns ((k, s) ∷ rest))
  ledger_values_report ((k, null) ∷ d) = raises
  ledger_values_report ((k, bool b) ∷ d) = raises
  ledger_values_report ((k, int i) ∷ d) = raises
  ledger_values_report ((k, float b n i) ∷ d) = raises
  ledger_values_report ((k, arr vs) ∷ d) = raises
  ledger_values_report ((k, obj fs) ∷ d) = raises

  ledger-Reports :
      (v : Json) (models : List String)
      → Reports (Escapes driver) (ledger_response driver.reading v models)
  unfolding ledger_response
  ledger-Reports null models = raises
  ledger-Reports (bool b) models = raises
  ledger-Reports (int i) models = raises
  ledger-Reports (float b n i) models = raises
  ledger-Reports (str s) models = raises
  ledger-Reports (arr vs) models = raises
  ledger-Reports (obj fs) models =
      after_check (not (same_set (keys (entries fs)) models)) (ledger_values_report (entries fs))

  pub hello-Reports : (response : Dict Json) → Reports (Escapes driver) (hello_response response)
  unfolding hello_response
  hello-Reports response =
      let required = "kind" ∷ "protocol_version" ∷ "driver_name" ∷ "driver_version" ∷ [] in
      after_step (require_response required response) (require-Reports required response) λ _ h.
        let got = field_present required response h in
        after_step (get response "kind") (got "kind" refl) λ k _.
          after_step (get response "protocol_version") (got "protocol_version" refl) λ v _.
            after_check (not (is_named "hello_ack" k) || not (is_named driver_protocol v)) (
              after_step (get response "driver_name") (got "driver_name" refl) λ n _.
                after_step (string_value n) (text-Reports n) λ name _.
                  after_step (get response "driver_version") (got "driver_version" refl) λ n _.
                    after_step (string_value n) (text-Reports n)
                      λ version _. returns (name, version))

  pub initialize-Reports :
      (s : Scenario) (models : List String) (response : Dict Json)
      → Reports (Escapes driver) (initialize_response driver.reading s models response)
  unfolding initialize_response
  initialize-Reports s models response =
      let required = "kind" ∷ "scenario_id" ∷ "model_ledgers_us" ∷ [] in
      after_step (require_response required response) (require-Reports required response) λ _ h.
        let got = field_present required response h in
        after_step (get response "kind") (got "kind" refl) λ k _.
          after_step (get response "scenario_id") (got "scenario_id" refl) λ i _.
            after_check (not (is_named "initialized" k) || not (is_named s.scenario_id i)) (
              after_step (get response "model_ledgers_us") (got "model_ledgers_us" refl)
                λ v _. ledger-Reports v models)

  written-Reports :
      (b : Bool)
      → (b ≡ false → Escapes driver value_error)
      → Reports (Escapes driver) (raise_if (not b) value_error)
  written-Reports true h = returns tt
  written-Reports false h = record { reported = λ e g. inr (subst (Escapes driver) (cc) (h refl)) }

  pub plan-Reports :
      (written : Bool) (sequence : ℕ) (models : List String) (response : Dict Json)
      → (written ≡ false → Escapes driver value_error)
      → Reports (Escapes driver) (plan_response driver.reading written sequence models response)
  unfolding plan_response
  plan-Reports written sequence models response unwritten =
      let required = "kind" ∷ "sequence" ∷ "candidate_id" ∷ "runnable_ledgers_us" ∷ [] in
      after_step (require_response required response) (require-Reports required response) λ _ h.
        let got = field_present required response h in
        after_step (get response "kind") (got "kind" refl) λ k _.
          after_step (get response "sequence") (got "sequence" refl) λ n _.
            after_check (not (is_named "plan" k) || not (equals_number sequence n)) (
              after_step (get response "candidate_id") (got "candidate_id" refl) λ c _.
                after_step (optional_text c) (optional-Reports c) λ i _.
                  after_step (raise_if (not written) value_error)
                    (written-Reports written unwritten)
                    λ _ _.
                      after_step (get response "runnable_ledgers_us")
                        (got "runnable_ledgers_us" refl)
                        λ v _.
                          after_step (ledger_response driver.reading v models)
                            (ledger-Reports v models) λ l _. returns (i, l))

  pub receipt-Reports :
      (sequence : ℕ) (models : List String) (response : Dict Json)
      → Reports (Escapes driver) (receipt_response driver.reading sequence models response)
  unfolding receipt_response
  receipt-Reports sequence models response =
      let required = "kind" ∷ "sequence" ∷ "model_ledgers_us" ∷ [] in
      after_step (require_response required response) (require-Reports required response) λ _ h.
        let got = field_present required response h in
        after_step (get response "kind") (got "kind" refl) λ k _.
          after_step (get response "sequence") (got "sequence" refl) λ n _.
            after_check (not (is_named "receipt_accepted" k) || not (equals_number sequence n)) (
              after_step (get response "model_ledgers_us") (got "model_ledgers_us" refl)
                λ v _. ledger-Reports v models)
