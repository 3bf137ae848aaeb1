-- ===== src/Evaluation.antt =====
-- The committed-holdout evaluation of planrace/evaluation_v2.py: the binding of worker results to
-- their requests, the robust reward, and the gates of an evaluation. `math.log1p` is a parameter.
pub mod Behavior
pub mod Evidence
pub mod Cohort
pub mod Gates
mod Samples
mod Tests
use planrace_subnet.Prelude.{
  ℕ, ◌+◌, ◌-◌, ◌/◌, max, String, Bool, true, false, not, ◌&&◌, ◌||◌, Option, none, some, List, [],
  ◌∷◌, map, Result, ok, err, ◌>>=◌, ◌>>◌, raise_if, sequence, length, all, any, take, ◌==◌, nat_eq,
  string_eq, if◌then◌else◌,
}
use planrace_subnet.Floats.{Floats, FloatError, overflow, math_domain, or_raise}
use planrace_subnet.Digest.{DigestError}
use planrace_subnet.Models.Bundle.{OptimizationBundle}
use planrace_subnet.Models.Bundle.Strategy.{optimization_strategy_digest}
use planrace_subnet.Tasks.Lifecycle.{PrivateTaskV2}
use planrace_subnet.Scoring.Stats.{StatsError, sorted, fmean}
use planrace_subnet.Scoring.Trials.{ConfigError}
use planrace_subnet.Scoring.Benchmark.{BenchmarkScore, score_benchmark}
use planrace_subnet.Scoring.Observations.{ObservationError}
use planrace_subnet.Sandbox.{SandboxRequestV2, SandboxResultV2, SandboxError, check_sandbox_request}
use planrace_subnet.Sandbox.Evidence.{benchmark_evidence_from_sandbox}
use planrace_subnet.Evaluation.Behavior.{FixtureEvaluationV2, holdout_behavior_digest}

-- The messages of `EvaluationConfigurationError`, and the exceptions of the parts.
pub data EvaluationError : Type 0 where
  unbound_result invalid_rewards non_finite_measurement : EvaluationError
  no_submissions bad_strategy_bound empty_miner_id bad_trial_count : EvaluationError
  foreign_bundle foreign_engine too_many_strategies strategy_mismatch : EvaluationError
  no_members : EvaluationError
  observation : ObservationError → EvaluationError
  digest : DigestError → EvaluationError
  float_error : FloatError → EvaluationError
  stats : StatsError → EvaluationError
  config : ConfigError → EvaluationError
  sandbox : SandboxError → EvaluationError

abbrev pub lift {ℓ κ} :
    {E : Type ℓ} {A : Type κ} → (E → EvaluationError) → Result E A → Result EvaluationError A
lift f (ok a) = ok a
lift f (err e) = err (f e)

pub data HoldoutFailure : Type 0 where
  exact_result_gate artifact_policy_gate benchmark_invalid no_robust_improvement : HoldoutFailure

module _ (F : Floats) where
  open F use {Float, of_ℕ, decimal, add, sub, mul, lt, is_finite, exp}

  pub record HoldoutEvaluationV2 : Type 0 where
    pub task_id : String
    pub task_commitment : String
    pub artifact_digest : String
    pub strategy_digest : String
    pub behavior_digest : String
    pub family_id : String
    pub exact_passed : Bool
    pub compliant : Bool
    pub eligible : Bool
    pub reward : Float
    pub failure_code : Option HoldoutFailure
    pub fixture_evaluations : List (FixtureEvaluationV2 F)

  -- `_verify_worker_echo`
  pub verify_worker_echo :
      SandboxRequestV2 F → SandboxResultV2 F → Result EvaluationError (Unit {0})
  verify_worker_echo request result =
      raise_if
        (not (
          result.task_id == request.task.task_id
          && result.task_commitment == request.task.commitment
          && result.fixture_id == request.fixture.fixture_id
          && result.fixture_content_digest == request.fixture.content_digest
          && result.hidden_fixture_merkle_root == request.reveal.hidden_fixture_merkle_root
          && result.artifact_digest == request.bundle.artifact_digest))
        unbound_result

  -- One round of the loops over the fixtures, given the worker's result: the request is checked,
  -- the result must echo it, and its transcript is scored.
  pub evaluate_fixture :
      SandboxRequestV2 F → SandboxResultV2 F → Result EvaluationError (FixtureEvaluationV2 F)
  unfolding verify_worker_echo
  evaluate_fixture request result = do
    lift sandbox (check_sandbox_request F request)
    verify_worker_echo request result
    evidence ← lift config (benchmark_evidence_from_sandbox F result)
    score ← lift stats (score_benchmark F request.benchmark_policy evidence)
    ok (record { fixture_id = request.fixture.fixture_id; result = result; score = score })

  pub all_correct : List (FixtureEvaluationV2 F) → Bool
  all_correct = all (λ e. e.result.correct)

  pub all_compliant : List (FixtureEvaluationV2 F) → Bool
  all_compliant = all (λ e. e.result.compliant)

  -- `not bundle.indexes or not any(item.result.used_index_names ...)`
  pub is_no_op : OptimizationBundle → List (FixtureEvaluationV2 F) → Bool
  is_no_op bundle evaluations =
      length bundle.indexes == 0
      || not (any (λ e. not (length e.result.used_index_names == 0)) evaluations)

  -- The gate that fails first, in the order of the code.
  pub holdout_gate : OptimizationBundle → List (FixtureEvaluationV2 F) → Option HoldoutFailure
  unfolding all_correct all_compliant is_no_op
  holdout_gate bundle evaluations =
      if not (all_correct evaluations)
      then some exact_result_gate
      else if not (all_compliant evaluations)
      then some artifact_policy_gate
      else if any (λ e. not e.score.benchmark_valid) evaluations
      then some benchmark_invalid
      else if is_no_op bundle evaluations
      then some no_robust_improvement
      else none

  module _ (log1p : Float → Option Float) where
    -- The geometric part of the reward, `math.exp(fmean(log1p(v))) - 1.0`
    geometric_mean : List Float → Result FloatError Float
    geometric_mean values = do
      logs ← sequence (map (λ v. or_raise F (log1p v) math_domain) values)
      center ← fmean F logs
      grown ← or_raise F (exp center) overflow
      ok (sub grown (of_ℕ 1))

    -- `_robust_holdout_reward`; `math.ceil(n / 4)` is (n + 3) / 4.
    pub robust_holdout_reward : List Float → Result EvaluationError Float
    unfolding geometric_mean
    robust_holdout_reward rewards = do
      raise_if (length rewards == 0 || any (λ v. not (is_finite v) || lt v (of_ℕ 0)) rewards)
          invalid_rewards
      let ordered = sorted F rewards
      let lower_width = max 1 ((length ordered + 3) / 4)
      lower_quartile ← lift float_error (fmean F (take lower_width ordered))
      geometric ← lift float_error (geometric_mean ordered)
      ok (add (mul (decimal 60 2) lower_quartile) (mul (decimal 40 2) geometric))

  module _ (log1p : Float → Option Float) (unicode_word : ℕ → Bool) (sha256 : List ℕ → String) where
    -- The record of an evaluation with these verdicts.
    pub evaluated :
        PrivateTaskV2
        → OptimizationBundle
        → String
        → List (FixtureEvaluationV2 F)
        → Option HoldoutFailure
        → Float
        → Result EvaluationError HoldoutEvaluationV2
    unfolding all_correct all_compliant
    evaluated task bundle family_id evaluations failure reward = do
      strategy ← lift digest (optimization_strategy_digest sha256 bundle)
      behavior ← lift digest (holdout_behavior_digest F unicode_word sha256 evaluations)
      ok (record {
        task_id = task.public.task_id;
        task_commitment = task.public.commitment;
        artifact_digest = bundle.artifact_digest;
        strategy_digest = strategy;
        behavior_digest = behavior;
        family_id = family_id;
        exact_passed = all_correct evaluations;
        compliant = all_compliant evaluations;
        eligible = elim failure [ none ↦ true | some _ ↦ false ];
        reward = reward;
        failure_code = failure;
        fixture_evaluations = evaluations;
      })

    -- `_finalize_holdout_evaluation`, with `_failed` for the gates
    pub finalize_holdout_evaluation :
        PrivateTaskV2
        → OptimizationBundle
        → String
        → List (FixtureEvaluationV2 F)
        → Result EvaluationError HoldoutEvaluationV2
    finalize_holdout_evaluation task bundle family_id evaluations =
        elim (holdout_gate bundle evaluations) [
          | some failure ↦ evaluated task bundle family_id evaluations (some failure) (of_ℕ 0)
          | none ↦ (do
            reward ← robust_holdout_reward log1p (map (λ e. e.score.reward) evaluations)
            let failure = if lt (of_ℕ 0) reward then none else some no_robust_improvement
            evaluated task bundle family_id evaluations failure reward)
        ]
