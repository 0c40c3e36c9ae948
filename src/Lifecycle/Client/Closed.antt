-- ===== src/Lifecycle/Client/Closed.antt =====
-- The client is failed closed.
use turn_vector_benchmark.Base.{
  ℕ, String, ◌≡◌, ap, ◌∙◌, Bool, true, false, Option, inl, inr, ◌⊎◌, arith, ok, err, Error,
  contract_error, remote_error, Result-cases, Bool-cases,
}
use turn_vector_benchmark.Lifecycle.{Json}
use turn_vector_benchmark.Lifecycle.Envelopes.{Request}
use turn_vector_benchmark.Lifecycle.Machine.{LifecycleState}
use turn_vector_benchmark.Lifecycle.Client.{
  Adapter, LifecycleClient, await_line, check_overflow, check_exit, complete_request, write_request,
  prepare_request, send_request,
}

module _ {S : Type 0} (adapter : Adapter S) (limit : ℕ) (default_id : ℕ → String) where
  prepare-process :
      (kind : String) (payload : Json) (request_id : Option String) (c : LifecycleClient S)
      → (prepare_request adapter limit default_id kind payload request_id c).1.process ≡ c.process
  unfolding prepare_request
  prepare-process kind payload request_id c = ground arith

  -- A `ContractError` after the line has been written fails the client.
  completion_fails :
      (b : Bool) (r : Request) (k : String) (n : LifecycleState) (c : LifecycleClient S)
      → (complete_request adapter limit default_id b r k n c).0 ≡ err contract_error
      → (complete_request adapter limit default_id b r k n c).1.failed ≡ true
  unfolding complete_request await_line check_overflow check_exit
  completion_fails b r k n c h = ground arith

  writing_fails :
      (b : Bool) (ready : Json × (Request × (String × LifecycleState))) (c : LifecycleClient S)
      → (write_request adapter limit default_id b ready c).0 ≡ err contract_error
      → (write_request adapter limit default_id b ready c).1.failed ≡ true
  unfolding write_request
  writing_fails b ready c h = elim (Bool-cases (adapter.write ready.0 c.process).0) [
    | inr closed ↦ ground arith
    | inl open_pipe ↦ ground (
      arith,
      open_pipe,
      completion_fails b ready.1.0 ready.1.1.0 ready.1.1.1
          (record c { process = (adapter.write ready.0 c.process).1 }),
    )
  ]

  sending_fails :
      (kind : String) (payload : Json) (request_id : Option String) (b : Bool)
      (c : LifecycleClient S)
      → (send_request adapter limit default_id kind payload request_id b c).0 ≡ err contract_error
      → let c' = (send_request adapter limit default_id kind payload request_id b c).1 in
        (c'.process ≡ c.process) ⊎ (c'.failed ≡ true)
  unfolding send_request
  sending_fails kind payload request_id b c h =
      let p = prepare_request adapter limit default_id kind payload request_id c in
      elim (Result-cases p.0) [
        | inr (e, q) ↦ inl (ground (arith, q, prepare-process kind payload request_id c))
        | inl (ready, q) ↦ inr (ground (arith, q, writing_fails b ready p.1))
      ]

  -- An error that the adapter reports leaves the client as it was in this.
  completion_remote :
      (b : Bool) (r : Request) (k : String) (n : LifecycleState) (c : LifecycleClient S)
      → (complete_request adapter limit default_id b r k n c).0 ≡ err remote_error
      → (complete_request adapter limit default_id b r k n c).1.failed ≡ c.failed
  unfolding complete_request await_line check_overflow check_exit
  completion_remote b r k n c h = ground arith

  writing_remote :
      (b : Bool) (ready : Json × (Request × (String × LifecycleState))) (c : LifecycleClient S)
      → (write_request adapter limit default_id b ready c).0 ≡ err remote_error
      → (write_request adapter limit default_id b ready c).1.failed ≡ c.failed
  unfolding write_request
  writing_remote b ready c h = elim (Bool-cases (adapter.write ready.0 c.process).0) [
    | inr closed ↦ absurd (ground arith)
    | inl open_pipe ↦ ground (
      arith,
      open_pipe,
      completion_remote b ready.1.0 ready.1.1.0 ready.1.1.1
          (record c { process = (adapter.write ready.0 c.process).1 }),
    )
  ]

  -- A request that goes out comes from a client that has not failed.
  prepare-failed :
      (kind : String) (payload : Json) (request_id : Option String) (c : LifecycleClient S)
      (ready : Json × (Request × (String × LifecycleState)))
      → (prepare_request adapter limit default_id kind payload request_id c).0 ≡ ok ready
      → (prepare_request adapter limit default_id kind payload request_id c).1.failed ≡ false
  unfolding prepare_request
  prepare-failed kind payload request_id c ready h = ground arith

  sending_remote :
      (kind : String) (payload : Json) (request_id : Option String) (b : Bool)
      (c : LifecycleClient S)
      → (send_request adapter limit default_id kind payload request_id b c).0 ≡ err remote_error
      → let c' = (send_request adapter limit default_id kind payload request_id b c).1 in
        (c'.process ≡ c.process) ⊎ (c'.failed ≡ false)
  unfolding send_request
  sending_remote kind payload request_id b c h =
      let p = prepare_request adapter limit default_id kind payload request_id c in
      elim (Result-cases p.0) [
        | inr (e, q) ↦ inl (ground (arith, q, prepare-process kind payload request_id c))
        | inl (ready, q) ↦ inr (
            ground (
              arith,
              q,
              writing_remote b ready p.1,
              prepare-failed kind payload request_id c ready,
            ))
      ]

  failed_refuses :
      (kind : String) (payload : Json) (request_id : Option String) (b : Bool)
      (c : LifecycleClient S)
      → c.failed ≡ true
      → send_request adapter limit default_id kind payload request_id b c ≡ (err contract_error, c)
  unfolding send_request prepare_request
  failed_refuses kind payload request_id b c h = ground arith

-- A request of the client that raises a `ContractError`, which a `LifecycleRemoteError` is too, either
-- has written nothing to the adapter; or it raises a `LifecycleRemoteError`, what the adapter reports,
-- and the client has not failed; or every later request raises a `ContractError` and leaves the client
-- and the process as they are.
pub request_fails_closed :
    {S : Type 0} (adapter : Adapter S) (limit : ℕ) (default_id : ℕ → String) (kind : String)
    (payload : Json) (request_id : Option String) (b : Bool) (c c' : LifecycleClient S) (e : Error)
    → (e ≡ contract_error) ⊎ (e ≡ remote_error)
    → send_request adapter limit default_id kind payload request_id b c ≡ (err e, c')
    → (c'.process ≡ c.process)
      ⊎ (((e ≡ remote_error) × (c'.failed ≡ false))
          ⊎ ((later_kind : String) (later : Json) (later_id : Option String) (later_valid : Bool)
              → send_request adapter limit default_id later_kind later later_id later_valid c'
                ≡ (err contract_error, c')))
request_fails_closed adapter limit default_id kind payload request_id b c c' e (inl own) h =
    let reached = ap (λ t. t.1) h in
    let raised = ap (λ t. t.0) h ∙ ap (λ x. err x) own in
    elim (sending_fails adapter limit default_id kind payload request_id b c raised) [
      | inl same ↦ inl (rw reached at same)
      | inr failed ↦ inr (
          inr
            (λ k v i w. failed_refuses adapter limit default_id k v i w c' (rw reached at failed)))
    ]
request_fails_closed adapter limit default_id kind payload request_id b c c' e (inr remote) h =
    let reached = ap (λ t. t.1) h in
    let raised = ap (λ t. t.0) h ∙ ap (λ x. err x) remote in
    elim (sending_remote adapter limit default_id kind payload request_id b c raised) [
      | inl same ↦ inl (rw reached at same)
      | inr running ↦ inr (inl (remote, rw reached at running))
    ]
