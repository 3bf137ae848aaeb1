-- ===== src/Evaluation/Gates.antt =====
-- The verdict of a holdout evaluation, planrace/evaluation_v2.py.
use planrace_subnet.Prelude.{
  ℕ, ◌≡◌, ◌≢◌, String, Bool, true, false, not, Option, none, some, List, ok, length, all, any, map,
  inl, inr, Result-cases, Option-cases, arith, ◌==◌, nat_eq, if◌then◌else◌,
}
use planrace_subnet.Floats.{Floats}
use planrace_subnet.Models.Bundle.{OptimizationBundle}
use planrace_subnet.Models.Bundle.Strategy.{optimization_strategy_digest}
use planrace_subnet.Tasks.Lifecycle.{PrivateTaskV2}
use planrace_subnet.Evaluation.{
  HoldoutFailure, HoldoutEvaluationV2, all_correct, all_compliant, is_no_op, holdout_gate,
  robust_holdout_reward, evaluated, finalize_holdout_evaluation, no_robust_improvement,
}
use planrace_subnet.Evaluation.Behavior.{FixtureEvaluationV2, holdout_behavior_digest}

module _ (F : Floats) (log1p : F.Float → Option F.Float) (unicode_word : ℕ → Bool)
    (sha256 : List ℕ → String) (task : PrivateTaskV2) (bundle : OptimizationBundle)
    (family_id : String) (evaluations : List (FixtureEvaluationV2 F)) where
  open F use {Float, of_ℕ, lt, lt_irrefl}

  -- The evaluation names its task and its bundle, reports what the worker found, is eligible
  -- exactly when its reward is positive, and is so only if every result was exact and compliant,
  -- every benchmark was valid, the bundle has an index and the plans used one.
  pub record IsVerdict (v : HoldoutEvaluationV2 F) : Type 0 where
    pub same_task : v.task_id ≡ task.public.task_id
    pub same_commitment : v.task_commitment ≡ task.public.commitment
    pub same_artifact : v.artifact_digest ≡ bundle.artifact_digest
    pub strategy : optimization_strategy_digest sha256 bundle ≡ ok v.strategy_digest
    pub exact : v.exact_passed ≡ all (λ e. e.result.correct) evaluations
    pub policy : v.compliant ≡ all (λ e. e.result.compliant) evaluations
    pub paid : lt (of_ℕ 0) v.reward ≡ v.eligible
    pub reported :
        (v.failure_code ≡ none → v.eligible ≡ true) × (v.eligible ≡ true → v.failure_code ≡ none)
    pub earned :
        v.eligible ≡ true
        → (all (λ e. e.result.correct) evaluations ≡ true)
          × (all (λ e. e.result.compliant) evaluations ≡ true)
          × (any (λ e. not e.score.benchmark_valid) evaluations ≡ false)
          × (length bundle.indexes ≢ 0)
          × (any (λ e. not (length e.result.used_index_names == 0)) evaluations ≡ true)
          × (robust_holdout_reward F log1p (map (λ e. e.score.reward) evaluations) ≡ ok v.reward)

  gate_passed :
      holdout_gate F bundle evaluations ≡ none
      → (all (λ e. e.result.correct) evaluations ≡ true)
        × (all (λ e. e.result.compliant) evaluations ≡ true)
        × (any (λ e. not e.score.benchmark_valid) evaluations ≡ false)
        × (length bundle.indexes ≢ 0)
        × (any (λ e. not (length e.result.used_index_names == 0)) evaluations ≡ true)
  unfolding holdout_gate all_correct all_compliant is_no_op
  gate_passed h = (ground arith, ground arith, ground arith, λ e. ground arith, ground arith)

  evaluated_lem :
      (failure : Option HoldoutFailure) (reward : Float) (v : HoldoutEvaluationV2 F)
      → evaluated F log1p unicode_word sha256 task bundle family_id evaluations failure reward
        ≡ ok v
      → (v.task_id ≡ task.public.task_id)
        × (v.task_commitment ≡ task.public.commitment)
        × (v.artifact_digest ≡ bundle.artifact_digest)
        × (optimization_strategy_digest sha256 bundle ≡ ok v.strategy_digest)
        × (v.exact_passed ≡ all_correct F evaluations)
        × (v.compliant ≡ all_compliant F evaluations)
        × (v.eligible ≡ elim failure [ none ↦ true | some _ ↦ false ])
        × (v.reward ≡ reward)
        × (v.failure_code ≡ failure)
  unfolding evaluated
  evaluated_lem failure reward v h =
      elim (Result-cases (optimization_strategy_digest sha256 bundle)) [
        | inr (e, bad) ↦ absurd (ground arith)
        | inl (s, es) ↦
            elim (Result-cases (holdout_behavior_digest F unicode_word sha256 evaluations)) [
              | inr (e, bad) ↦ absurd (ground arith)
              | inl (b, eb) ↦ (
                ground arith,
                ground arith,
                ground arith,
                ground arith,
                ground arith,
                ground arith,
                ground arith,
                ground arith,
                ground arith,
              )
            ]
      ]

  refused :
      (failure : HoldoutFailure) (v : HoldoutEvaluationV2 F)
      → evaluated F log1p unicode_word sha256 task bundle family_id evaluations
          (some failure)
          (of_ℕ 0)
        ≡ ok v
      → IsVerdict v
  unfolding all_correct all_compliant
  refused failure v h =
      let (t, c, a, s, x, p, el, r, f) = evaluated_lem (some failure) (of_ℕ 0) v h in
      record {
        same_task = t;
        same_commitment = c;
        same_artifact = a;
        strategy = s;
        exact = x;
        policy = p;
        paid = rw (r, el) (lt_irrefl (of_ℕ 0));
        reported = (λ n. ground arith, λ n. ground arith);
        earned = λ n. absurd (ground arith);
      }

  accepted :
      (reward : Float) (v : HoldoutEvaluationV2 F)
      → holdout_gate F bundle evaluations ≡ none
      → robust_holdout_reward F log1p (map (λ e. e.score.reward) evaluations) ≡ ok reward
      → evaluated F log1p unicode_word sha256 task bundle family_id evaluations
          (if lt (of_ℕ 0) reward then none else some no_robust_improvement)
          reward
        ≡ ok v
      → IsVerdict v
  unfolding all_correct all_compliant
  accepted reward v gate robust h =
      let failure = if lt (of_ℕ 0) reward then none else some no_robust_improvement in
      let (t, c, a, s, x, p, el, r, f) = evaluated_lem failure reward v h in
      let (g0, g1, g2, g3, g4) = gate_passed gate in
      record {
        same_task = t;
        same_commitment = c;
        same_artifact = a;
        strategy = s;
        exact = x;
        policy = p;
        paid = ground arith;
        reported = (λ n. ground arith, λ n. ground arith);
        earned = λ n. (g0, g1, g2, g3, g4, rw r robust);
      }

  -- A holdout evaluation is eligible exactly when its reward is positive, and is so only if every
  -- worker result was exact and compliant, every benchmark was valid, the bundle has an index and a
  -- plan used one; the reward is then the robust reward of the fixtures' scores. It names its task,
  -- bundle and strategy and reports exactness and compliance as the worker found them.
  pub finalize_holdout_evaluation-IsVerdict :
      (v : HoldoutEvaluationV2 F)
      → finalize_holdout_evaluation F log1p unicode_word sha256 task bundle family_id evaluations
        ≡ ok v
      → IsVerdict v
  unfolding finalize_holdout_evaluation
  finalize_holdout_evaluation-IsVerdict v h =
      elim (Option-cases (holdout_gate F bundle evaluations)) [
        | inr (failure, gate) ↦ refused failure v (ground arith)
        | inl gate ↦
            elim (Result-cases
              (robust_holdout_reward F log1p (map (λ e. e.score.reward) evaluations))) [
                | inr (e, bad) ↦ absurd (ground arith)
                | inl (reward, robust) ↦ accepted reward v gate robust (ground arith)
              ]
      ]
