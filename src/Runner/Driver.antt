-- ===== src/Runner/Driver.antt =====
-- `DriverProcess` of turnvector_benchmark/driver.py as the runner sees it, and the first two exchanges of
-- a session in turnvector_benchmark/runner.py.
use turn_vector_benchmark.Base.{
  ℕ, zero, String, Bool, true, false, not, Option, some, List, [], ◌∷◌, str_eq, ◌≡◌, Result, err,
  Error, contract_error, conformance_error, value_error, environment_error, recursion_error,
}
use turn_vector_benchmark.Base.Dict.{Dict}
use turn_vector_benchmark.Base.Fraction.{Fraction}
use turn_vector_benchmark.Base.Int.{ℤ, pos}
use turn_vector_benchmark.Base.Exec.{Exec, gets, lift, raise_when, ◌>>=◌, ◌>>◌}
use turn_vector_benchmark.Lifecycle.{Json}
use turn_vector_benchmark.Scheduler.{ModelConfig, Scenario}
use turn_vector_benchmark.Scheduler.Scenarios.{model_ids}
use turn_vector_benchmark.Scheduler.Fields.{object_value}
use turn_vector_benchmark.Runner.Ledgers.{Reading, oversized, same_dict}
use turn_vector_benchmark.Runner.Messages.{
  hello_message, initialize_message, shutdown, Identity, hello_response, initialize_response,
  is_named,
}

-- The start of the process; an error of the system or an empty command; or a command that `shlex.split`
-- does not read.
pub data Launch (D : Type 0) : Type 0 where
  started : D → Launch D
  not_started malformed_command : Launch D

-- What a line that is written to the process brings back: `no_reply` stands for every way that `request`
-- makes a `ContractError` (the process has ended, a pipe is closed, the time is over, the line is no
-- JSON); `json.loads` does not read an integer of too many digits, nor values nested too deep.
pub data Reply : Type 0 where
  value : Json → Reply
  no_reply overlong_integer overnested : Reply

-- A driver process and what Python makes of its texts: its start for a scenario and a repetition, its
-- answers, how a text of a fraction is read, whether `fraction_text` writes all of some fractions or one has
-- more digits than an integer may be written with, whether closing its input after the shutdown fails, the code with which it exits in time,
-- and whether the end of the `with` block, which closes what is open, raises an error.
pub record Driver (D : Type 0) : Type 0 where
  pub launch : String → ℕ → Launch D
  pub answer : Json → D → Reply × D
  pub reading : String → Reading
  pub writes : Dict Fraction → Bool
  pub close_fails : D → Bool
  pub exit_code : D → Option ℤ
  pub exit_fails : D → Bool

-- The driver, or the system under it, does what ends in an exception that is neither a `ContractError`
-- nor a `ConformanceError`.
pub data Escapes {D : Type 0} (driver : Driver D) : Error → Type 0 where
  malformed :
      (scenario_id : String) (repetition : ℕ)
      → driver.launch scenario_id repetition ≡ malformed_command
      → Escapes driver value_error
  overlong :
      (message : Json) (d : D)
      → (driver.answer message d).0 ≡ overlong_integer
      → Escapes driver value_error
  nested :
      (message : Json) (d : D)
      → (driver.answer message d).0 ≡ overnested
      → Escapes driver recursion_error
  large : (ledger : String) → driver.reading ledger ≡ oversized → Escapes driver value_error
  unwritable :
      (ledgers : Dict Fraction) → driver.writes ledgers ≡ false → Escapes driver value_error
  unclosed : (d : D) → driver.close_fails d ≡ true → Escapes driver environment_error
  unfinished : (d : D) → driver.exit_fails d ≡ true → Escapes driver environment_error

abbrev pub reply_object : Reply → Result (Dict Json)
reply_object (value v) = object_value v
reply_object no_reply = err contract_error
reply_object overlong_integer = err value_error
reply_object overnested = err recursion_error

module _ {D : Type 0} (driver : Driver D) where
  unfoldable pub request : Json → Exec D (Dict Json)
  request message d = let (reply, d') = driver.answer message d in (reply_object reply, d')

  -- `response != {"kind": "shutdown_ack"}`
  abbrev pub is_shutdown_ack : Dict Json → Bool
  is_shutdown_ack ((k, v) ∷ []) = elim (str_eq k "kind") [
    | true ↦ is_named "shutdown_ack" v
    | false ↦ false
  ]
  is_shutdown_ack _ = false

  abbrev pub exited : Option ℤ → Bool
  exited (some (pos zero)) = true
  exited _ = false

  unfoldable pub finish_driver : Exec D (Unit {0})
  finish_driver = do
    response ← request shutdown
    raise_when (not (is_shutdown_ack response)) contract_error
    close_fails ← gets driver.close_fails
    raise_when close_fails environment_error
    code ← gets driver.exit_code
    raise_when (not (exited code)) contract_error

  -- `__exit__`: an error of its own takes the place of what the block did.
  abbrev pub leave : {A : Type 0} → D → Result A → Result A
  leave d r = elim (driver.exit_fails d) [ true ↦ err environment_error | false ↦ r ]

  unfoldable pub handshake : Exec D Identity
  handshake = do response ← request hello_message; lift (hello_response response)

  -- `{model.model_id: "0/1" for model in scenario.models}`, whose models are distinct
  abbrev pub initial_ledgers : List ModelConfig → Dict String
  initial_ledgers [] = []
  initial_ledgers (m ∷ ms) = (m.model_id, "0/1") ∷ initial_ledgers ms

  unfoldable pub initialize : Scenario → ℕ → Exec D (Unit {0})
  initialize s repetition = do
    response ← request (initialize_message s repetition)
    observed ← lift (initialize_response driver.reading s (model_ids s.models) response)
    raise_when (not (same_dict observed (initial_ledgers s.models))) conformance_error
