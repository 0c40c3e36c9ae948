-- ===== src/Runner/Repetition/Exchanges.antt =====
-- The exchanges of the runner with the driver outside the turns, and the end of the `with` block: what they
-- raise.
use turn_vector_benchmark.Base.{
  ℕ, ◌≡◌, refl, inl, inr, arith, true, false, not, ok, err, conformance_error, contract_error,
  environment_error, Result, ◌⊎◌, subst, sym, Bool-cases,
}
use turn_vector_benchmark.Base.Exec.{raise_when}
use turn_vector_benchmark.Scheduler.{Scenario}
use turn_vector_benchmark.Scheduler.Scenarios.{model_ids}
use turn_vector_benchmark.Runner.Outcomes.{
  Ends, Reports, Ends-err, Ends-ok, Ends-conformance, with_step,
}
use turn_vector_benchmark.Runner.Driver.{
  Driver, Escapes, unclosed, unfinished, leave, initial_ledgers, handshake, initialize,
  finish_driver, request,
}
use turn_vector_benchmark.Runner.Messages.{
  shutdown, hello_message, initialize_message, initialize_response,
}
use turn_vector_benchmark.Runner.Messages.Reported.{hello-Reports, initialize-Reports}
use turn_vector_benchmark.Runner.Ledgers.{same_dict}
use turn_vector_benchmark.Runner.Turn.Plan.{request-Reports}

module _ {D : Type 0} (driver : Driver D) where
  finish_driver-Ends : (d : D) → Ends (Escapes driver) (λ _ _. Unit) (finish_driver driver d)
  unfolding finish_driver
  finish_driver-Ends d =
      with_step (request driver shutdown d).0 _ (request-Reports driver shutdown d) λ response _.
        let d' = (request driver shutdown d).1 in
        record {
          reported = λ e h.
              let which : (e ≡ contract_error)
                  ⊎ ((e ≡ environment_error) × (driver.close_fails d' ≡ true)) =
                ground arith in
              elim which [
                | inl broken ↦ inl (inl broken)
                | inr (other, fails) ↦ inr (subst (Escapes driver) (sym other) (unclosed d' fails))
              ];
          returned = λ _ _. tt;
        }

  pub finish_driver-Reports : (d : D) → Reports (Escapes driver) (finish_driver driver d).0
  finish_driver-Reports d = record { reported = (finish_driver-Ends d).reported }

  -- The end of the block keeps what it leaves, or raises an exception of its own.
  pub leave-Ends :
      {S A : Type 0} {Q : A → S → Type 0} (d : D) (r : Result A) (s : S)
      → Ends (Escapes driver) Q (r, s)
      → Ends (Escapes driver) Q (leave driver d r, s)
  leave-Ends d r s p = elim (Bool-cases (driver.exit_fails d)) [
    | inl fails ↦ rw (fails, leave) (Ends-err (inr (unfinished d fails)))
    | inr left ↦ rw (left, leave) p
  ]

  pub with_leave :
      {S A B : Type 0} {Q : B → S → Type 0} (d : D) (r : Result A) (s : S) {rest : A → Result B × S}
      → Reports (Escapes driver) r
      → ((a : A) → r ≡ ok a → Ends (Escapes driver) Q (rest a))
      → Ends (Escapes driver) Q (elim r [ ok a ↦ rest a | err e ↦ (leave driver d (err e), s) ])
  with_leave d (ok a) s p h = h a refl
  with_leave d (err e) s p h = leave-Ends d (err e) s (Ends-err (p.reported e refl))

  pub handshake-Ends : (d : D) → Ends (Escapes driver) (λ _ _. Unit) (handshake driver d)
  unfolding handshake
  handshake-Ends d =
      with_step (request driver hello_message d).0 _ (request-Reports driver hello_message d)
        λ response _. record {
          reported = (hello-Reports driver response).reported;
          returned = λ _ _. tt;
        }

  pub initialize-Ends :
      (s : Scenario) (i : ℕ) (d : D) → Ends (Escapes driver) (λ _ _. Unit) (initialize driver s i d)
  unfolding initialize
  initialize-Ends s i d =
      let message = initialize_message s i in
      with_step (request driver message d).0 _ (request-Reports driver message d) λ response _.
        with_step (initialize_response driver.reading s (model_ids s.models) response) _
          (initialize-Reports driver s (model_ids s.models) response)
          λ observed _.
            elim (same_dict observed (initial_ledgers driver s.models))
              as (λ b.
                Ends (Escapes driver) (λ _ _. Unit)
                  (raise_when (not b) conformance_error (request driver message d).1)) [
                    | true ↦ Ends-ok tt
                    | false ↦ Ends-conformance
                  ]
