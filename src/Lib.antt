-- ===== src/Lib.antt =====
-- TurnVector Benchmark: a benchmark that drives a scheduler and compares it with an exact oracle, and
-- an authority that compiles obligations under frozen limits.
--
-- * Scheduler (turnvector_benchmark/core.py): the scenario data, the ordering keys (Choice) and
--   `SchedulerOracle` (Oracle). `schedule`, `accept_receipt` and `clear_no_plan` are actions on a
--   record with the fields of the Python object; a raise keeps what was written before it. A Python
--   dict is an association list, a set a sorted list without repetition, a `Fraction` a numerator and
--   a denominator in lowest terms (Base/Fraction). Scenarios reads scenarios and
--   suites from JSON values.
-- * Limits (turnvector_benchmark/compile_limits.py): the checked 64-bit arithmetic and the 68 limits.
-- * Accounting (turnvector_benchmark/authority/compiler_accounting.py): the arena, the fault injector,
--   the scratch slab and the output sink, which use Limits. An allocator is a result, a memory view
--   the list of its bytes.
-- * Lifecycle (turnvector_benchmark/cross_engine/lifecycle.py, contracts.py): the messages as JSON
--   values, their checks (Contracts, Messages, Payloads, Envelopes), `LifecycleStateMachine` (Machine) and
--   the requests of `EngineLifecycleClient` (Client). A request or response that has passed its checks
--   is a record of what the machine reads.
-- * Claims (turnvector_benchmark/controller.py, fixture_provenance.py): the status over the lanes, the
--   fixture taint, the decision whether a run may be claimed, where a lane's execution comes from
--   (Provenance). The run loop of the controller is not modelled.
-- * Runner (turnvector_benchmark/runner.py, driver.py): what the driver is asked and may answer (Ledgers,
--   Messages, Driver), a turn (Turn), the metrics and the repetition (Metrics, Repetition) and the report
--   of a scenario (Report). It uses Scheduler for the oracle and Lifecycle for JSON. The driver is a
--   parameter: its start, its answers, its exit code and what closing it raises are arbitrary functions of
--   its state, as are the limits of the interpreter on the digits of an integer. The hash of a plan trace is
--   an arbitrary function too. Turn/History says what an oracle alone makes of the turns. The files that a run writes are not modelled.
-- * DataPlane (turnvector_benchmark/data_plane.py): `DataPlaneClient` (Client) and `run_generation`
--   (Generation) as actions over an arbitrary connection, which gives normalised frames. The bounds of 10000
--   and 100000 rounds are those of the code. The times and the start barrier are left out.
-- The shared part (Base) has lists, results and exceptions, dictionaries, sets, fractions, integers
-- and bytes.
--
-- Loops are structural recursion; Euclid's algorithm runs on fuel, one more than its second
-- argument, which falls in every round, and the count of decimal digits on the number itself. Exceptions
-- carry their class and no message.
-- Not modelled: the parsing of JSON and files, processes and sockets, the command line, reporting, and
-- the other modules of turnvector_benchmark.
pub mod Base
pub mod Scheduler
pub mod Limits
pub mod Accounting
pub mod Lifecycle
pub mod Claims
pub mod Runner
pub mod DataPlane
