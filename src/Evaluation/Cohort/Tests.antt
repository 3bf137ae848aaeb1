-- ===== src/Evaluation/Cohort/Tests.antt =====
-- A cohort of two miners that submit the same strategy.
use mathlib.Core.List.{flat_map, Perm}
use planrace_subnet.Prelude.{
  ℕ, suc, ◌≡◌, refl, String, true, false, none, some, List, [], ◌∷◌, map, ok, arith,
}
use planrace_subnet.Prelude.Dict.{Dict, keys}
use planrace_subnet.Prelude.Int.{◌-ℤ◌}
use planrace_subnet.Prelude.Sort.{sort}
use planrace_subnet.Digest.{domain_separated_digest}
use planrace_subnet.Digest.Payload.{quoted, join, decimal}
use planrace_subnet.Floats.Fixed.{fixed}
use planrace_subnet.Models.Bundle.{OptimizationBundle}
use planrace_subnet.Models.Reveal.{HiddenFixtureDescriptor}
use planrace_subnet.Tasks.Lifecycle.{PrivateTaskV2}
use planrace_subnet.Scoring.Trials.{BenchmarkPolicy}
use planrace_subnet.Scoring.Observations.{EpochObservation}
use planrace_subnet.Scoring.Dedup.{deduplicate_task_rewards}
use planrace_subnet.Models.Bundle.Strategy.{optimization_strategy_digest}
use planrace_subnet.Scoring.Benchmark.{score_benchmark, validity_gate}
use planrace_subnet.Scoring.Trials.{check_evidence}
use planrace_subnet.Scoring.Observations.{check_observation}
use planrace_subnet.Sandbox.{check_sandbox_request}
use planrace_subnet.Sandbox.Evidence.{benchmark_evidence_from_sandbox}
use planrace_subnet.Models.Reveal.{descriptor_eq}
use planrace_subnet.Evaluation.{
  evaluate_fixture, finalize_holdout_evaluation, holdout_gate, evaluated,
}
use planrace_subnet.Evaluation.Behavior.{holdout_behavior_digest, without_index_names}
use planrace_subnet.Evaluation.Evidence.{holdout_evidence_digest}
use planrace_subnet.Evaluation.Cohort.{
  Surroundings, CohortEvaluationV2, evaluate_task_cohort, group_submissions, by_key, by_miner,
  evaluate_strategies, evaluate_strategy, evaluate_bundle_on_committed_holdouts, observe_all,
}
use planrace_subnet.Evaluation.Cohort.Accounting.{
  evaluate_task_cohort-perm, evaluate_task_cohort-deduplicates,
}
use planrace_subnet.Evaluation.Samples.{private_task, indexed_bundle, result}
use planrace_subnet.Auth.Samples.{sha256}

abbrev fixture : HiddenFixtureDescriptor
fixture = record {
  fixture_id = "h";
  content_digest = "d";
  database_file_digest = none;
  parameter_set_digest = "p";
  row_count = 1;
}

abbrev task : PrivateTaskV2
task = record private_task {
  reveal = record private_task.reveal { hidden_fixtures = fixture ∷ [] };
}

abbrev surroundings : Surroundings fixed
surroundings = record {
  regenerate = λ t. ok (record {
    family_id = "f";
    ordered = true;
    fixtures = record { descriptor = fixture; parameters = [] } ∷ [];
  });
  runner = λ request. result;
  log1p = λ x. some x;
  format = λ x. "0";
  sha256 = sha256;
  unicode_word = λ c. false;
}

abbrev policy : BenchmarkPolicy fixed
policy = record {
  horizons = 1 ∷ [];
  horizon_weights = fixed.of_ℕ 1 ∷ [];
  minimum_trials = 6;
  winsor_fraction = fixed.of_ℕ 0;
  confidence_z = fixed.of_ℕ 1;
  maximum_timeout_rate = fixed.of_ℕ 0;
  storage_penalty_at_database_size = fixed.of_ℕ 0;
}

abbrev submissions : Dict String OptimizationBundle
submissions = ("n", indexed_bundle) ∷ ("m", indexed_bundle) ∷ []

cohort : CohortEvaluationV2 fixed
cohort = elim (evaluate_task_cohort fixed surroundings policy 6 task submissions 3 64) [
  | ok c ↦ c
  | _ ↦ record {
    task_id = "";
    task_commitment = "";
    unique_strategy_count = 0;
    cache_hit_count = 0;
    strategy_evaluations = [];
    observations = [];
  }
]

returns : evaluate_task_cohort fixed surroundings policy 6 task submissions 3 64 ≡ ok cohort
unfolding evaluate_task_cohort cohort group_submissions by_key sort optimization_strategy_digest
    domain_separated_digest flat_map join quoted decimal evaluate_strategies evaluate_strategy
    evaluate_bundle_on_committed_holdouts evaluate_fixture fixed check_sandbox_request
    benchmark_evidence_from_sandbox score_benchmark validity_gate check_evidence descriptor_eq
    finalize_holdout_evaluation holdout_gate evaluated holdout_behavior_digest without_index_names
    holdout_evidence_digest observe_all check_observation by_miner
returns = refl

-- One strategy was evaluated for both.
counts : (cohort.unique_strategy_count ≡ 1) × (cohort.cache_hit_count ≡ 1)
unfolding evaluate_task_cohort cohort group_submissions by_key sort optimization_strategy_digest
    domain_separated_digest flat_map join quoted decimal evaluate_strategies evaluate_strategy
    evaluate_bundle_on_committed_holdouts evaluate_fixture fixed check_sandbox_request
    benchmark_evidence_from_sandbox score_benchmark validity_gate check_evidence descriptor_eq
    finalize_holdout_evaluation holdout_gate evaluated holdout_behavior_digest without_index_names
    holdout_evidence_digest observe_all check_observation by_miner
counts = (refl, refl)

-- The two laws at the fixed-point numbers, whose 1e-9 is zero.
spread : (x : fixed.Float) → fixed.lt (fixed.decimal 1 9) (fixed.sub x x) ≡ false
unfolding fixed ◌-ℤ◌
spread x = ground arith

counted : (n : ℕ) → fixed.eq (fixed.of_ℕ (suc n)) (fixed.of_ℕ 0) ≡ false
unfolding fixed
counted n = ground arith

evaluate_task_cohort-perm_example :
    Perm (map (λ o. o.miner_id) cohort.observations) (keys submissions)
evaluate_task_cohort-perm_example =
    evaluate_task_cohort-perm fixed surroundings policy 6 task 3 submissions 64 cohort returns

evaluate_task_cohort-deduplicates_example :
    (out : List (EpochObservation fixed)) × (deduplicate_task_rewards fixed cohort.observations
      ≡ ok out)
evaluate_task_cohort-deduplicates_example =
    evaluate_task_cohort-deduplicates fixed surroundings policy 6 task 3 submissions 64 cohort
      spread counted refl returns
