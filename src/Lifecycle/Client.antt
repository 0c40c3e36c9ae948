-- ===== src/Lifecycle/Client.antt =====
-- `EngineLifecycleClient.request` of turnvector_benchmark/cross_engine/lifecycle.py: one request and its
-- response over the pipes of an adapter process.
pub mod Closed
mod Tests
use turn_vector_benchmark.Base.{
  ℕ, zero, suc, ◌+◌, ltb, String, Bool, true, false, not, ◌&&◌, Option, none, some, str_eq, Result,
  ok, err, Error, contract_error, remote_error,
}
use turn_vector_benchmark.Base.Dict.{Dict}
use turn_vector_benchmark.Base.Int.{ℤ, pos}
use turn_vector_benchmark.Base.Exec.{Exec, pure, raise, gets, lift, modify, raise_when, ◌>>=◌, ◌>>◌}
use turn_vector_benchmark.Lifecycle.{Json, str, obj, no_fields, field}
use turn_vector_benchmark.Lifecycle.Contracts.{canonical_size}
use turn_vector_benchmark.Lifecycle.Messages.{lifecycle_protocol_version}
use turn_vector_benchmark.Lifecycle.Envelopes.{Request, validate_lifecycle_request}
use turn_vector_benchmark.Lifecycle.Machine.{
  LifecycleState, terminated, Machine, expected_response, accept_response,
}

-- The process: writing a line, which a closed pipe refuses; the next line, as the value that
-- `decode_jsonl_line` reads of it, where `none` stands for every way in which there is none (the time is
-- over, the end of the output, an error of the pipe, a line that is refused); whether its error output
-- has overflowed; its exit code within a time, and the one that it has now.
pub record Adapter (S : Type 0) : Type 0 where
  pub write : Json → S → Bool × S
  pub read : S → Option Json × S
  pub overflowed : S → Bool
  pub wait : S → Option ℤ × S
  pub poll : S → Option ℤ

pub record LifecycleClient (S : Type 0) : Type 0 where
  pub process : S
  pub machine : Machine
  pub sequence : ℕ
  pub failed : Bool

abbrev pub is_terminated : LifecycleState → Bool
is_terminated terminated = true
is_terminated _ = false

-- `lifecycle_request` before its check
abbrev pub request_value : String → String → Json → Json
request_value kind request_id payload = obj (
    field "kind" (str kind) (
      field "protocol_version" (str lifecycle_protocol_version)
        (field "request_id" (str request_id) (field "payload" payload no_fields))))

-- `encode_jsonl_line`: the line is the canonical JSON and its end.
abbrev pub fits_line : ℕ → Json → Result Bool
fits_line limit value = elim (canonical_size value) [
  | err e ↦ err e
  | ok n ↦ ok (not (ltb limit (n + 1)))
]

abbrev pub is_zero : Option ℤ → Bool
is_zero (some (pos zero)) = true
is_zero _ = false

-- `poll() in (None, 0)`
abbrev pub is_running : Option ℤ → Bool
is_running none = true
is_running code = is_zero code

-- `request_id or f"request-{sequence:06d}"`, where `default_id` is the text of the number.
abbrev pub chosen_id : (ℕ → String) → ℕ → Option String → String
chosen_id default_id n none = default_id n
chosen_id default_id n (some s) = elim (str_eq s "") [ true ↦ default_id n | false ↦ s ]

module _ {S : Type 0} (adapter : Adapter S) (line_limit_bytes : ℕ) (default_id : ℕ → String) where
  abbrev pub on_machine : {A : Type 0} → Exec Machine A → Exec (LifecycleClient S) A
  on_machine m c = let (r, x) = m c.machine in (r, record c { machine = x })

  abbrev pub on_process : {A : Type 0} → (S → A × S) → Exec (LifecycleClient S) A
  on_process f c = let (a, s) = f c.process in (ok a, record c { process = s })

  -- `self._failed = True` and a `ContractError`, if the test holds.
  abbrev pub fail_if : Bool → Exec (LifecycleClient S) (Unit {0})
  fail_if true c = (err contract_error, record c { failed = true })
  fail_if false c = (ok tt, c)

  -- `except LifecycleRemoteError: raise`, and a `ContractError` fails the client.
  abbrev pub guarded : {A : Type 0} → Result A × LifecycleClient S → Result A × LifecycleClient S
  guarded (err contract_error, c) = (err contract_error, record c { failed = true })
  guarded (r, c) = (r, c)

  -- The line that comes back, or a failure.
  unfoldable pub await_line : Exec (LifecycleClient S) Json
  await_line = do
    observed ← on_process adapter.read
    elim observed [
      | some line ↦ pure line
      | none ↦ (λ c. (err contract_error, record c { failed = true }))
    ]

  unfoldable pub check_overflow : Exec (LifecycleClient S) (Unit {0})
  check_overflow c = fail_if (adapter.overflowed c.process) c

  -- What the process does after the response.
  unfoldable pub check_exit : LifecycleState → Exec (LifecycleClient S) (Unit {0})
  check_exit next_state c = elim (is_terminated next_state) [
    | true ↦ (on_process adapter.wait >>= λ code. check_overflow >> fail_if (not (is_zero code))) c
    | false ↦ fail_if (not (is_running (adapter.poll c.process))) c
  ]

  -- From the line that has been written on.
  unfoldable pub complete_request :
      Bool → Request → String → LifecycleState → Exec (LifecycleClient S) (Dict Json)
  complete_request timeout_valid validated expected_kind next_state = do
    fail_if (not timeout_valid)
    response ← await_line
    result ←
        λ c. guarded (on_machine (accept_response validated response expected_kind next_state) c)
    check_overflow
    check_exit next_state
    pure result

  -- A request of the client: its checks before anything is written.
  unfoldable pub prepare_request :
      String
      → Json
      → Option String
      → Exec (LifecycleClient S) (Json × (Request × (String × LifecycleState)))
  prepare_request kind payload request_id = do
    c ← gets (λ c. c)
    raise_when c.failed contract_error
    raise_when (is_terminated c.machine.state) contract_error
    modify (λ c. record c { sequence = suc c.sequence })
    let value = request_value kind (chosen_id default_id (suc c.sequence) request_id) payload
    validated ← lift (validate_lifecycle_request value)
    expected ← on_machine (expected_response value)
    fits ← lift (fits_line line_limit_bytes value)
    raise_when (not fits) contract_error
    pure (value, (validated, expected))

  -- The line is written and its response awaited.
  unfoldable pub write_request :
      Bool → Json × (Request × (String × LifecycleState)) → Exec (LifecycleClient S) (Dict Json)
  write_request timeout_valid ready = do
    written ← on_process (adapter.write ready.0)
    fail_if (not written)
    complete_request timeout_valid ready.1.0 ready.1.1.0 ready.1.1.1

  -- `request`; `timeout_valid` is the test of the waiting time.
  unfoldable pub send_request :
      String → Json → Option String → Bool → Exec (LifecycleClient S) (Dict Json)
  send_request kind payload request_id timeout_valid = do
    ready ← prepare_request kind payload request_id
    write_request timeout_valid ready
