-- ===== src/Scoring/Aggregate/Tests.antt =====
-- A concrete aggregation of two miners.
use mathlib.Core.List.{flat_map}
use planrace_subnet.Prelude.{
  ℕ, ◌≡◌, refl, true, false, String, List, [], ◌∷◌, ok, filter, All, All₂, string_eq, none, some,
}
use planrace_subnet.Floats.{or_raise, divide, fmax, fmin}
use planrace_subnet.Scoring.Stats.{lift_float, fmean, winsorized_mean, robust_standard_error}
use planrace_subnet.Prelude.Sort.{sort}
use planrace_subnet.Digest.Payload.{quoted, join}
use planrace_subnet.Digest.{domain_separated_digest}
use planrace_subnet.Floats.Fixed.{fixed}
use planrace_subnet.Scoring.Observations.{EpochObservation, AggregationPolicy}
use planrace_subnet.Scoring.Dedup.{deduplicate_task_rewards, is_eligible}
use planrace_subnet.Scoring.Dedup.Shares.{IsShare}
use planrace_subnet.Scoring.Aggregate.{
  MinerAggregate, insufficient_tasks, aggregate_scheduled_miner, aggregate_network, miner_failure,
  reward_of,
}
use planrace_subnet.Scoring.Aggregate.Gates.{
  IsOutcome, IsAggregated, aggregate_scheduled_miner_verdict, aggregate_network_roster,
}

abbrev sha256 : List ℕ → String
sha256 bs = "ab"

abbrev observation : String → ℕ → EpochObservation fixed
observation miner_id reward = record {
  miner_id = miner_id;
  epoch = 1;
  family = "f";
  task_id = "t";
  task_commitment = "c";
  evidence_digest = "e";
  reward = fixed.of_ℕ reward;
  available = true;
  correct = true;
  compliant = true;
  strategy_digest = miner_id;
  behavior_digest = "b";
  duplicate_group_size = 1;
}

abbrev policy : AggregationPolicy fixed
policy = record {
  required_families = "f" ∷ [];
  task_schedule = record { epoch = 1; family = "f"; task_id = "t"; task_commitment = "c" } ∷ [];
  minimum_tasks = 1;
  minimum_tasks_per_family = 1;
  minimum_availability = fixed.decimal 5 1;
  minimum_compliance = fixed.decimal 5 1;
  minimum_correctness = fixed.of_ℕ 1;
  winsor_fraction = fixed.of_ℕ 0;
  confidence_z = fixed.of_ℕ 1;
  maximum_weight = fixed.decimal 5 1;
  minimum_distinct_strategies = 1;
}

abbrev observations : List (EpochObservation fixed)
observations = observation "x" 8 ∷ []

abbrev aggregate : MinerAggregate fixed sha256
aggregate = record {
  miner_id = "x";
  eligible = true;
  reward = fixed.of_ℕ 8;
  center = fixed.of_ℕ 8;
  uncertainty = fixed.of_ℕ 0;
  availability = fixed.of_ℕ 1;
  compliance = fixed.of_ℕ 1;
  correctness = fixed.of_ℕ 1;
  task_count = 1;
  family_scores = ("f", fixed.of_ℕ 8) ∷ [];
  strategy_digest = "sha256:ab";
  behavior_digest = "sha256:ab";
  failure_code = none;
}

abbrev absent : MinerAggregate fixed sha256
absent = record {
  miner_id = "y";
  eligible = false;
  reward = fixed.of_ℕ 0;
  center = fixed.of_ℕ 0;
  uncertainty = fixed.of_ℕ 0;
  availability = fixed.of_ℕ 0;
  compliance = fixed.of_ℕ 0;
  correctness = fixed.of_ℕ 0;
  task_count = 0;
  family_scores = ("f", fixed.of_ℕ 0) ∷ [];
  strategy_digest = "sha256:ab";
  behavior_digest = "sha256:ab";
  failure_code = some insufficient_tasks;
}

returns_one : aggregate_scheduled_miner fixed sha256 policy observations "x" ≡ ok aggregate
unfolding aggregate_scheduled_miner fixed winsorized_mean robust_standard_error lift_float divide
    fmean or_raise sort domain_separated_digest flat_map quoted join miner_failure reward_of fmax
returns_one = refl

aggregate_scheduled_miner_verdict_example : IsOutcome fixed sha256 policy observations "x" aggregate
aggregate_scheduled_miner_verdict_example =
    aggregate_scheduled_miner_verdict fixed sha256 policy observations "x" aggregate returns_one

abbrev roster : List String
roster = "x" ∷ "y" ∷ []

returns_all :
    aggregate_network fixed sha256 policy observations roster ≡ ok (aggregate ∷ absent ∷ [])
unfolding aggregate_network fixed deduplicate_task_rewards fmin winsorized_mean
    robust_standard_error lift_float divide fmean or_raise sort domain_separated_digest flat_map
    quoted join miner_failure reward_of fmax
returns_all = refl

aggregate_network_roster_example :
    (ds : List (EpochObservation fixed)) × (deduplicate_task_rewards fixed observations ≡ ok ds)
    × All (IsShare fixed observations) (filter (is_eligible fixed) ds)
    × All₂ (IsAggregated fixed sha256 policy ds) roster (aggregate ∷ absent ∷ [])
aggregate_network_roster_example =
    aggregate_network_roster fixed sha256 policy observations roster (aggregate ∷ absent ∷ [])
      returns_all
