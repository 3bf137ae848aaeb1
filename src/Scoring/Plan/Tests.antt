-- ===== src/Scoring/Plan/Tests.antt =====
-- A concrete emission plan: two behaviors, of which one is over the cap.
use planrace_subnet.Prelude.{ℕ, ◌≡◌, refl, true, String, List, [], ◌∷◌, ok, none}
use planrace_subnet.Prelude.Sort.{sort}
use planrace_subnet.Floats.{or_raise, divide, fmax, fmin}
use planrace_subnet.Floats.Fixed.{fixed}
use planrace_subnet.Scoring.Stats.{fabs, sorted}
use planrace_subnet.Scoring.Observations.{AggregationPolicy}
use planrace_subnet.Scoring.Aggregate.{MinerAggregate}
use planrace_subnet.Scoring.Allocate.{capped_normalize, round, concentration_metrics}
use planrace_subnet.Scoring.Plan.{AllocationResult, duplicates, allocate_weights}
use planrace_subnet.Scoring.Plan.Bound.{IsPlan, allocate_weights-IsPlan}

abbrev sha256 : List ℕ → String
sha256 bs = "ab"

abbrev aggregate : String → ℕ → String → MinerAggregate fixed sha256
aggregate miner_id reward behavior = record {
  miner_id = miner_id;
  eligible = true;
  reward = fixed.of_ℕ reward;
  center = fixed.of_ℕ reward;
  uncertainty = fixed.of_ℕ 0;
  availability = fixed.of_ℕ 1;
  compliance = fixed.of_ℕ 1;
  correctness = fixed.of_ℕ 1;
  task_count = 1;
  family_scores = [];
  strategy_digest = behavior;
  behavior_digest = behavior;
  failure_code = none;
}

abbrev policy : AggregationPolicy fixed
policy = record {
  required_families = "f" ∷ [];
  task_schedule = record { epoch = 1; family = "f"; task_id = "t"; task_commitment = "c" } ∷ [];
  minimum_tasks = 1;
  minimum_tasks_per_family = 1;
  minimum_availability = fixed.decimal 5 1;
  minimum_compliance = fixed.decimal 5 1;
  minimum_correctness = fixed.of_ℕ 1;
  winsor_fraction = fixed.of_ℕ 0;
  confidence_z = fixed.of_ℕ 1;
  maximum_weight = fixed.decimal 5 1;
  minimum_distinct_strategies = 2;
}

abbrev aggregates : List (MinerAggregate fixed sha256)
aggregates = aggregate "x" 6 "a" ∷ aggregate "y" 2 "b" ∷ []

abbrev result : AllocationResult fixed sha256
result = record {
  planned = true;
  reason = none;
  weights = ("x", fixed.decimal 5 1) ∷ ("y", fixed.decimal 5 1) ∷ [];
  duplicate_groups = [];
  strategy_weights = ("a", fixed.decimal 5 1) ∷ ("b", fixed.decimal 5 1) ∷ [];
  concentration = record {
    gini = fixed.of_ℕ 0;
    hhi = fixed.decimal 5 1;
    top1_share = fixed.decimal 5 1;
    effective_miners = fixed.of_ℕ 2;
  };
}

returns : allocate_weights fixed sha256 policy aggregates ≡ ok result
unfolding allocate_weights fixed capped_normalize round concentration_metrics or_raise divide fmax
    fmin sort fabs sorted duplicates
returns = refl

allocate_weights-IsPlan_example : IsPlan fixed sha256 policy aggregates result
allocate_weights-IsPlan_example =
    allocate_weights-IsPlan fixed sha256 policy aggregates result returns refl
