-- ===== src/Evaluation/Tests.antt =====
-- Concrete holdout evaluations.
use mathlib.Core.List.{flat_map}
use planrace_subnet.Prelude.{ℕ, ◌≡◌, refl, Bool, true, false, Option, none, some, [], ◌∷◌, ok}
use planrace_subnet.Prelude.Sort.{sort}
use planrace_subnet.Digest.Payload.{quoted, join, decimal}
use planrace_subnet.Floats.Fixed.{fixed}
use planrace_subnet.Scoring.Stats.{fmean, sorted}
use planrace_subnet.Digest.{domain_separated_digest}
use planrace_subnet.Models.Bundle.Strategy.{optimization_strategy_digest}
use planrace_subnet.Evaluation.{
  HoldoutEvaluationV2, holdout_gate, robust_holdout_reward, evaluated, finalize_holdout_evaluation,
}
use planrace_subnet.Evaluation.Behavior.{without_index_names, holdout_behavior_digest}
use planrace_subnet.Evaluation.Gates.{IsVerdict, finalize_holdout_evaluation-IsVerdict}
use planrace_subnet.Evaluation.Samples.{private_task, indexed_bundle, evaluation}
use planrace_subnet.Auth.Samples.{sha256}

abbrev log1p : fixed.Float → Option fixed.Float
log1p x = some x

abbrev unicode_word : ℕ → Bool
unicode_word c = false

index_names :
    without_index_names unicode_word "USING INDEX planrace_0123456789abcdef0123 (day>?)"
    ≡ "USING INDEX planrace_<candidate> (day>?)"
unfolding without_index_names
index_names = refl

-- A longer name is another word, and stays.
other_names :
    without_index_names unicode_word "planrace_0123456789abcdef01234"
    ≡ "planrace_0123456789abcdef01234"
unfolding without_index_names
other_names = refl

abbrev verdict : HoldoutEvaluationV2 fixed
verdict = record {
  task_id = "t";
  task_commitment = "c";
  artifact_digest = "sha256:ab";
  strategy_digest = "sha256:ab";
  behavior_digest = "sha256:ab";
  family_id = "f";
  exact_passed = true;
  compliant = true;
  eligible = true;
  reward = fixed.of_ℕ 50;
  failure_code = none;
  fixture_evaluations = evaluation ∷ [];
}

returns :
    finalize_holdout_evaluation fixed log1p unicode_word sha256 private_task indexed_bundle "f"
      (evaluation ∷ [])
    ≡ ok verdict
unfolding finalize_holdout_evaluation holdout_gate robust_holdout_reward fixed fmean sorted
    evaluated optimization_strategy_digest holdout_behavior_digest domain_separated_digest quoted
    join decimal sort flat_map without_index_names
returns = refl

finalize_holdout_evaluation-IsVerdict_example :
    IsVerdict fixed log1p unicode_word sha256 private_task indexed_bundle "f"
      (evaluation ∷ [])
      verdict
finalize_holdout_evaluation-IsVerdict_example =
    finalize_holdout_evaluation-IsVerdict fixed log1p unicode_word sha256 private_task
      indexed_bundle "f" (evaluation ∷ []) verdict returns
