-- ===== src/Scoring/Dedup/Tests.antt =====
-- A concrete run of the deduplication: two miners with one strategy, and one that was absent.
use mathlib.Core.List.{Perm}
use planrace_subnet.Prelude.{
  ℕ, ◌≡◌, refl, Bool, true, false, String, List, [], ◌∷◌, map, filter, ok, All,
}
use planrace_subnet.Floats.{fmax, fmin, divide}
use planrace_subnet.Floats.Fixed.{fixed}
use planrace_subnet.Scoring.Observations.{EpochObservation}
use planrace_subnet.Scoring.Dedup.{is_eligible, deduplicate_task_rewards}
use planrace_subnet.Scoring.Dedup.Kept.{blank, deduplicate-perm}
use planrace_subnet.Scoring.Dedup.Shares.{IsShare, deduplicate_shares}

abbrev observation : String → Bool → ℕ → ℕ → EpochObservation fixed
observation miner_id available reward size = record {
  miner_id = miner_id;
  epoch = 1;
  family = "f";
  task_id = "t";
  task_commitment = "c";
  evidence_digest = "e";
  reward = fixed.of_ℕ reward;
  available = available;
  correct = true;
  compliant = true;
  strategy_digest = "s";
  behavior_digest = "b";
  duplicate_group_size = size;
}

abbrev observations : List (EpochObservation fixed)
observations = observation "x" true 8 1 ∷ observation "z" false 0 1 ∷ observation "y" true 8 1 ∷ []

abbrev deduplicated : List (EpochObservation fixed)
deduplicated = observation "x" true 4 2 ∷ observation "y" true 4 2 ∷ observation "z" false 0 1 ∷ []

returns : deduplicate_task_rewards fixed observations ≡ ok deduplicated
unfolding deduplicate_task_rewards fixed fmax fmin divide
returns = refl

deduplicate_shares_example :
    All (IsShare fixed observations) (filter (is_eligible fixed) deduplicated)
deduplicate_shares_example = deduplicate_shares fixed observations deduplicated returns

deduplicate-perm_example : Perm (map (blank fixed) deduplicated) (map (blank fixed) observations)
deduplicate-perm_example = deduplicate-perm fixed observations deduplicated returns
