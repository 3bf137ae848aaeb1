-- ===== src/Evaluation/Cohort.antt =====
-- `evaluate_task_cohort` of planrace/evaluation_v2.py: every strategy is evaluated once and its
-- submitters get the same evidence and reward. The regeneration of the fixtures and the worker are
-- parameters.
pub mod Accounting
mod Tests
use planrace_subnet.Prelude.{
  ℕ, ◌%◌, ◌-◌, String, Bool, true, not, ◌||◌, Option, List, [], ◌∷◌, ◌++◌, map, Result, ok, err,
  ◌>>=◌, ◌>>◌, raise_if, sequence, length, any, ltb, ◌==◌, nat_eq, string_eq,
}
use planrace_subnet.Prelude.Dict.{Dict, keys, append_group}
use planrace_subnet.Prelude.Sort.{sort}
use planrace_subnet.Floats.{Floats}
use planrace_subnet.Digest.Payload.{text_le}
use planrace_subnet.Models.Bundle.{OptimizationBundle}
use planrace_subnet.Models.Bundle.Strategy.{optimization_strategy_digest}
use planrace_subnet.Models.Task.{Endpoint}
use planrace_subnet.Models.Reveal.{HiddenFixtureDescriptor}
use planrace_subnet.Tasks.Lifecycle.{PrivateTaskV2}
use planrace_subnet.Scoring.Trials.{BenchmarkPolicy}
use planrace_subnet.Scoring.Observations.{EpochObservation, check_observation}
use planrace_subnet.Sandbox.{SandboxRequestV2, SandboxResultV2}
use planrace_subnet.Evaluation.{
  EvaluationError, no_submissions, bad_strategy_bound, empty_miner_id, foreign_bundle,
  foreign_engine, too_many_strategies, strategy_mismatch, bad_trial_count, no_members, digest,
  observation, lift, HoldoutEvaluationV2, evaluate_fixture, finalize_holdout_evaluation,
}
use planrace_subnet.Evaluation.Evidence.{holdout_evidence_digest}

-- The parts of a `GeneratedFixture` and of a `QueryFamily` that the evaluation reads.
pub record HoldoutFixture : Type 0 where
  pub descriptor : HiddenFixtureDescriptor
  pub parameters : List (Option Endpoint)

pub record Holdouts : Type 0 where
  pub family_id : String
  pub ordered : Bool
  pub fixtures : List HoldoutFixture

module _ (F : Floats) where
  open F use {Float}

  -- The functions that an evaluation is given: the checked regeneration of a task's fixtures, the
  -- worker, `math.log1p`, the formatting of numbers, SHA-256 and the word characters.
  pub record Surroundings : Type 0 where
    pub regenerate : PrivateTaskV2 → Result EvaluationError Holdouts
    pub runner : SandboxRequestV2 F → SandboxResultV2 F
    pub log1p : Float → Option Float
    pub format : Float → String
    pub sha256 : List ℕ → String
    pub unicode_word : ℕ → Bool

  pub record CohortEvaluationV2 : Type 0 where
    pub task_id : String
    pub task_commitment : String
    pub unique_strategy_count : ℕ
    pub cache_hit_count : ℕ
    pub strategy_evaluations : List (String × HoldoutEvaluationV2 F)
    pub observations : List (EpochObservation F)

  module _ (E : Surroundings) (policy : BenchmarkPolicy F) (trial_count : ℕ)
      (task : PrivateTaskV2) where
    open E use {regenerate, runner, log1p, format, sha256, unicode_word}

    abbrev request_of : OptimizationBundle → Bool → HoldoutFixture → SandboxRequestV2 F
    request_of bundle ordered fixture = record {
      task = task.public;
      reveal = task.reveal;
      fixture = fixture.descriptor;
      bundle = bundle;
      parameters = fixture.parameters;
      ordered = ordered;
      trial_count = trial_count;
      benchmark_policy = policy;
    }

    -- `evaluate_bundle_on_committed_holdouts`
    pub evaluate_bundle_on_committed_holdouts :
        OptimizationBundle → Result EvaluationError (HoldoutEvaluationV2 F)
    evaluate_bundle_on_committed_holdouts bundle = do
      holdouts ← regenerate task
      raise_if (not (bundle.task_id == task.public.task_id)) foreign_bundle
      raise_if (not (bundle.engine_image_digest == task.public.engine_image_digest)) foreign_engine
      raise_if (ltb trial_count policy.minimum_trials || not (trial_count % 2 == 0)) bad_trial_count
      let requests = map (request_of bundle holdouts.ordered) holdouts.fixtures
      evaluations ← sequence (map (λ q. evaluate_fixture F q (runner q)) requests)
      finalize_holdout_evaluation F log1p unicode_word sha256 task bundle holdouts.family_id
          evaluations

    abbrev pub Members : Type 0
    Members = List (String × OptimizationBundle)

    -- The loop that groups the submissions by their strategies.
    pub group_submissions :
        Members → Dict String Members → Result EvaluationError (Dict String Members)
    group_submissions [] groups = ok groups
    group_submissions ((miner_id, bundle) ∷ rest) groups = do
      raise_if (not (bundle.task_id == task.public.task_id)) foreign_bundle
      raise_if (not (bundle.engine_image_digest == task.public.engine_image_digest)) foreign_engine
      strategy ← lift digest (optimization_strategy_digest sha256 bundle)
      group_submissions rest (append_group strategy (miner_id, bundle) groups)

    -- `EpochObservation(...)` of a submitter
    pub observe :
        ℕ
        → HoldoutEvaluationV2 F
        → String
        → String
        → String × OptimizationBundle
        → EpochObservation F
    observe epoch evaluation evidence strategy member = record {
      miner_id = member.0;
      epoch = epoch;
      family = task.public.benchmark_family_id;
      task_id = task.public.task_id;
      task_commitment = task.public.commitment;
      evidence_digest = evidence;
      reward = evaluation.reward;
      available = true;
      correct = evaluation.exact_passed;
      compliant = evaluation.compliant;
      strategy_digest = strategy;
      behavior_digest = evaluation.behavior_digest;
      duplicate_group_size = 1;
    }

    -- The observations of one strategy, each with the checks of its constructor.
    pub observe_all :
        ℕ
        → HoldoutEvaluationV2 F
        → String
        → String
        → Members
        → Result EvaluationError (List (EpochObservation F))
    unfolding observe
    observe_all epoch evaluation evidence strategy [] = ok []
    observe_all epoch evaluation evidence strategy (member ∷ members) = do
      let o = observe epoch evaluation evidence strategy member
      lift observation (check_observation F o)
      os ← observe_all epoch evaluation evidence strategy members
      ok (o ∷ os)

    -- One round of the second loop.
    pub evaluate_strategy :
        ℕ
        → String × Members
        → Result EvaluationError (HoldoutEvaluationV2 F × List (EpochObservation F))
    unfolding observe_all
    evaluate_strategy epoch (strategy, []) = err no_members
    evaluate_strategy epoch (strategy, (miner_id, bundle) ∷ members) = do
      evaluation ← evaluate_bundle_on_committed_holdouts bundle
      raise_if (not (evaluation.strategy_digest == strategy)) strategy_mismatch
      evidence ← holdout_evidence_digest F format sha256 evaluation
      os ← observe_all epoch evaluation evidence strategy ((miner_id, bundle) ∷ members)
      ok (evaluation, os)

    pub evaluate_strategies :
        ℕ
        → Dict String Members
        → Result EvaluationError (List (String × HoldoutEvaluationV2 F) × List (EpochObservation F))
    evaluate_strategies epoch [] = ok ([], [])
    evaluate_strategies epoch (group ∷ groups) = do
      (evaluation, os) ← evaluate_strategy epoch group
      (evaluations, rest) ← evaluate_strategies epoch groups
      ok ((group.0, evaluation) ∷ evaluations, os ++ rest)

    pub by_key {ℓ} : {A : Type ℓ} → List (String × A) → List (String × A)
    by_key = sort (λ a b. text_le a.0 b.0)

    pub by_miner : List (EpochObservation F) → List (EpochObservation F)
    by_miner = sort (λ a b. text_le a.miner_id b.miner_id)

    pub evaluate_task_cohort :
        Dict String OptimizationBundle → ℕ → ℕ → Result EvaluationError CohortEvaluationV2
    evaluate_task_cohort submissions epoch max_unique_strategies = do
      raise_if (length submissions == 0) no_submissions
      raise_if (ltb max_unique_strategies 1) bad_strategy_bound
      raise_if (any (λ m. m == "") (keys submissions)) empty_miner_id
      by_strategy ← group_submissions (by_key submissions) []
      raise_if (ltb max_unique_strategies (length by_strategy)) too_many_strategies
      (evaluations, os) ← evaluate_strategies epoch (by_key by_strategy)
      ok (record {
        task_id = task.public.task_id;
        task_commitment = task.public.commitment;
        unique_strategy_count = length by_strategy;
        cache_hit_count = length submissions - length by_strategy;
        strategy_evaluations = evaluations;
        observations = by_miner os;
      })
