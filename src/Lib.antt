-- ===== src/Lib.antt =====
-- The verified core of PlanRace, a subnet on which miners propose database indexes and validators
-- measure, score and pay them.
--
-- The program's parts and their files:
--   * planrace/scoring_v2.py is Scoring: Trials and Observations hold its records with the checks of
--     their constructors, Stats the robust statistics, Benchmark `score_benchmark`, Dedup
--     `deduplicate_task_rewards`, Aggregate `aggregate_miner` and `aggregate_network`, Allocate
--     `_capped_normalize` and `concentration_metrics`, and Plan `allocate_weights`. They compose as
--     in the program: trials are scored, scores become observations, observations are deduplicated
--     and aggregated by miner, and the aggregates become an emission plan.
--   * planrace/oracle_v2.py is Oracle: Oracle.Cells encodes the cells of a row, and Oracle scans a
--     cursor under the limits of its policy and digests the canonical lines. Two results are
--     compared by `exact_results_equal`.
--   * planrace/sandbox_v2.py: Sandbox holds the request and the transcript of a worker with the
--     checks of their constructors. Sandbox.Evidence is `benchmark_evidence_from_sandbox` of
--     planrace/scoring_v2.py, which turns the transcript into the evidence that Scoring scores.
--   * planrace/evaluation_v2.py is Evaluation: the gates and the reward of an evaluation on the
--     hidden fixtures, in Behavior and Evidence its two digests, and in Cohort
--     `evaluate_task_cohort`. It reads the private task of Tasks, asks the worker for a transcript
--     of each fixture, has Scoring score the evidence, and reports observations that go into
--     `deduplicate_task_rewards`.
--   * planrace/weights.py is Weights: the plans by UID and by hotkey, the binding of hotkeys to
--     UIDs and the submission, which Network guards.
--   * planrace/testnet_weights.py: TestnetWeights clips a vector of weights and rounds it to the 16
--     bits that the chain stores.
--   * planrace/models_v2.py is Digest (canonical JSON, frames and domain-separated digests) and
--     Models: Texts, Index, Bundle, Sql, Task, Reveal and Exchange hold the wire models with their
--     validators, digests and signed bytes, and the compilation of an index to SQL.
--   * planrace/auth_v2.py is Auth: Replay holds the replay stores behind one interface, Sign
--     holds `sign_optimization_response`, and Verify holds `verify_signed_response`, which uses a
--     store through that interface alone.
--   * planrace/taskgen_v2.py is Tasks: Commitment holds `create_task_v2`, `audit_task_reveal` and the
--     Merkle root, and Lifecycle holds `TaskLifecycleV2`, whose submissions pass the verification of
--     Auth. Auth.Samples holds a task for the examples.
--   * planrace/nonce.py is Nonce, and planrace/network.py is Network.
-- Prelude holds what they share: Boolean tests, lists, results with errors, dicts, signed integers
-- and sorting.
--
-- How the code is read:
--   * Numbers. Python's integers that cannot be negative are natural numbers, the others
--     the integers of Prelude.Int; there is no machine width in the program, which only scales
--     weights to 16 bits; the columns of SQLite hold 64 bits, and storing a larger nonce or expiry
--     raises. Floats are the interface of Floats.Interface: their operations and a few
--     laws of comparison and of sums of positive numbers. Floats.Fixed is an instance, decimal
--     numbers with six places; the examples run on it. Operations that raise return a result with
--     an error: a division by zero, an overflowing sum or power, a logarithm of no positive number.
--     The laws on sums hold while no value is infinite or not a number, which the constructors of
--     the records check.
--   * Exceptions are errors of the type Result, one error type for each component.
--   * A dict is an association list in the order of insertion, and a set of names a list.
--   * The state of a store is its table. A store's clock is read once for each operation, and the
--     reading is an argument. Locks and transactions make each operation one step.
--   * SHA-256, the signature scheme of the chain library and its `set_weights`, the entropy source,
--     the factory of fixtures, the worker of the sandbox, the checked regeneration of the fixtures
--     of an evaluation, `math.log1p`, `round`, the formatting and the classes of floats, and
--     what Unicode says of characters outside ASCII (lower case, word characters) are parameters.
--   * Decimals are a sign, digits and an exponent; the exponents stay within the limits of
--     Python's default context.
--   * Bounds. The loop of `_capped_normalize` runs on fuel, one more than the number of recipients:
--     each round that does not end the loop takes a recipient out. The loop of the
--     Merkle root runs on as much fuel as there are fixtures, and each round halves the level.
--     Decimal digits are produced on fuel above the number itself. All other loops are structural.
--
-- Not modelled: the processes and the SQLite databases of the sandbox and its admission of SQL, the
-- families of benchmark tasks, HTTP, the chain and its transactions, the provisioning of a test
-- network, files, the command line, the simulation and the historical version 1.
pub mod Prelude
pub mod Network
pub mod Oracle
pub mod Nonce
pub mod Floats
pub mod Scoring
pub mod Digest
pub mod Models
pub mod Auth
pub mod Sandbox
pub mod Evaluation
pub mod Tasks
pub mod Weights
pub mod TestnetWeights
