-- ===== src/Evaluation/Evidence.antt =====
-- `holdout_evidence_digest` of planrace/evaluation_v2.py: the transcript of an evaluation without
-- the artifact's own identity. `format(value, ".17g")` is a parameter.
use planrace_subnet.Prelude.{
  ℕ, String, not, Option, none, some, List, [], ◌∷◌, map, Result, ok, ◌>>=◌, ◌>>◌, raise_if,
  sequence,
}
use planrace_subnet.Floats.{Floats}
use planrace_subnet.Digest.{domain_separated_digest}
use planrace_subnet.Digest.Payload.{Json, null, bool, str, number, array, object}
use planrace_subnet.Scoring.Trials.{Order, baseline_first, candidate_first}
use planrace_subnet.Scoring.Benchmark.{
  HorizonScore, BenchmarkScore, FailureCode, insufficient_trials, mixed_workers,
  unbalanced_interleaving, baseline_timeout, result_mismatch, policy_rejected,
  timeout_rate_exceeded, candidate_timeout, timeout_order_imbalance, no_relative_improvement,
}
use planrace_subnet.Sandbox.{SandboxTrialV2, SandboxResultV2}
use planrace_subnet.Evaluation.{
  EvaluationError, non_finite_measurement, digest, lift, HoldoutFailure, exact_result_gate,
  artifact_policy_gate, benchmark_invalid, no_robust_improvement, HoldoutEvaluationV2,
}
use planrace_subnet.Evaluation.Behavior.{FixtureEvaluationV2}

abbrev order_text : Order → String
order_text baseline_first = "baseline-first"
order_text candidate_first = "candidate-first"

abbrev failure_text : FailureCode → String
failure_text insufficient_trials = "insufficient_trials"
failure_text mixed_workers = "mixed_workers"
failure_text unbalanced_interleaving = "unbalanced_interleaving"
failure_text baseline_timeout = "baseline_timeout"
failure_text result_mismatch = "result_mismatch"
failure_text policy_rejected = "policy_rejected"
failure_text timeout_rate_exceeded = "timeout_rate_exceeded"
failure_text candidate_timeout = "candidate_timeout"
failure_text timeout_order_imbalance = "timeout_order_imbalance"
failure_text no_relative_improvement = "no_relative_improvement"

abbrev holdout_failure_text : HoldoutFailure → String
holdout_failure_text exact_result_gate = "exact_result_gate"
holdout_failure_text artifact_policy_gate = "artifact_policy_gate"
holdout_failure_text benchmark_invalid = "benchmark_invalid"
holdout_failure_text no_robust_improvement = "no_robust_improvement"

abbrev optional {ℓ} : {A : Type ℓ} → (A → String) → Option A → Json
optional f none = null
optional f (some a) = str (f a)

module _ (F : Floats) where
  open F use {Float, is_finite}

  -- `_number_string`
  pub number_string : (Float → String) → Float → Result EvaluationError String
  number_string format value = do
    raise_if (not (is_finite value)) non_finite_measurement
    ok (format value)

  module _ (format : Float → String) where
    abbrev measured : Float → Result EvaluationError Json
    measured value = do s ← number_string format value; ok (str s)

    abbrev trial_json : SandboxTrialV2 F → Result EvaluationError Json
    trial_json t = do
      baseline_cold ← measured t.baseline_cold_ms
      candidate_cold ← measured t.candidate_cold_ms
      baseline_warm ← measured t.baseline_warm_ms
      candidate_warm ← measured t.candidate_warm_ms
      ok (
          object (
            ("worker_id", str t.worker_id)
            ∷ ("order", str (order_text t.order))
            ∷ ("baseline_cold_ms", baseline_cold)
            ∷ ("candidate_cold_ms", candidate_cold)
            ∷ ("baseline_warm_ms", baseline_warm)
            ∷ ("candidate_warm_ms", candidate_warm)
            ∷ ("baseline_timed_out", bool t.baseline_timed_out)
            ∷ ("candidate_timed_out", bool t.candidate_timed_out)
            ∷ []))

    -- `_stringify_floats(item.result.model_dump(..., exclude={"artifact_digest"}))`
    pub result_json : SandboxResultV2 F → Result EvaluationError Json
    result_json r = do
      setup ← measured r.setup_ms
      trials ← sequence (map trial_json r.trials)
      ok (
          object (
            ("protocol_version", str "planrace/2")
            ∷ ("success", bool r.success)
            ∷ ("failure_code", optional (λ s. s) r.failure_code)
            ∷ ("engine", str r.engine)
            ∷ ("task_id", str r.task_id)
            ∷ ("task_commitment", str r.task_commitment)
            ∷ ("fixture_id", str r.fixture_id)
            ∷ ("fixture_content_digest", str r.fixture_content_digest)
            ∷ ("hidden_fixture_merkle_root", str r.hidden_fixture_merkle_root)
            ∷ ("reference_digest", optional (λ s. s) r.reference_digest)
            ∷ ("candidate_digest", optional (λ s. s) r.candidate_digest)
            ∷ ("correct", bool r.correct)
            ∷ ("compliant", bool r.compliant)
            ∷ ("row_count", number r.row_count)
            ∷ ("setup_ms", setup)
            ∷ ("worker_id", optional (λ s. s) r.worker_id)
            ∷ ("trials", array trials)
            ∷ ("database_bytes", number r.database_bytes)
            ∷ ("artifact_storage_bytes", number r.artifact_storage_bytes)
            ∷ ("candidate_plan", array (map str r.candidate_plan))
            ∷ ("used_index_names", array (map str r.used_index_names))
            ∷ []))

    abbrev horizon_json : HorizonScore F → Result EvaluationError Json
    horizon_json h = do
      speedup ← measured h.relative_speedup
      lower ← measured h.lower_confidence_speedup
      savings ← measured h.relative_savings
      ok (
          object (
            ("horizon", number h.horizon)
            ∷ ("relative_speedup", speedup)
            ∷ ("lower_confidence_speedup", lower)
            ∷ ("relative_savings", savings)
            ∷ []))

    -- `_stringify_floats(asdict(item.score))`
    pub score_json : BenchmarkScore F → Result EvaluationError Json
    score_json s = do
      reward ← measured s.reward
      timeout_rate ← measured s.timeout_rate
      storage_ratio ← measured s.storage_ratio
      horizons ← sequence (map horizon_json s.horizons)
      ok (
          object (
            ("eligible", bool s.eligible)
            ∷ ("benchmark_valid", bool s.benchmark_valid)
            ∷ ("reward", reward)
            ∷ ("failure_code", optional failure_text s.failure_code)
            ∷ ("worker_id", optional (λ w. w) s.worker_id)
            ∷ ("timeout_rate", timeout_rate)
            ∷ ("storage_ratio", storage_ratio)
            ∷ ("horizons", array horizons)
            ∷ []))

    abbrev fixture_json : FixtureEvaluationV2 F → Result EvaluationError Json
    fixture_json e = do
      result ← result_json e.result
      score ← score_json e.score
      ok (object (("fixture_id", str e.fixture_id) ∷ ("result", result) ∷ ("score", score) ∷ []))

    unfoldable pub holdout_evidence_digest :
        (List ℕ → String) → HoldoutEvaluationV2 F → Result EvaluationError String
    unfolding result_json score_json number_string
    holdout_evidence_digest sha256 e = do
      fixtures ← sequence (map fixture_json e.fixture_evaluations)
      reward ← number_string format e.reward
      lift digest (
          domain_separated_digest sha256 "planrace/2:holdout-evidence" (
            object (
              ("task_id", str e.task_id)
              ∷ ("task_commitment", str e.task_commitment)
              ∷ ("strategy_digest", str e.strategy_digest)
              ∷ ("behavior_digest", str e.behavior_digest)
              ∷ ("family_id", str e.family_id)
              ∷ ("exact_passed", bool e.exact_passed)
              ∷ ("compliant", bool e.compliant)
              ∷ ("eligible", bool e.eligible)
              ∷ ("reward", str reward)
              ∷ ("failure_code", optional holdout_failure_text e.failure_code)
              ∷ ("fixtures", array fixtures)
              ∷ [])))
