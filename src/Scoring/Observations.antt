-- ===== src/Scoring/Observations.antt =====
-- The records that planrace/scoring_v2.py aggregates, and the checks of their constructors.
use planrace_subnet.Prelude.{
  ℕ, ◌*◌, String, Bool, not, ◌&&◌, ◌||◌, List, [], ◌∷◌, map, Result, ok, err, ◌>>◌, raise_if,
  length, any, count, ltb, ◌==◌, nat_eq, string_eq, distinct, mem,
}
use planrace_subnet.Floats.{Floats}
use planrace_subnet.Scoring.Trials.{ConfigError, require_finite_non_negative}

pub data ObservationError : Type 0 where
  missing_identity reward_above_maximum no_group_members : ObservationError
  missing_task_fields families_not_unique no_schedule schedule_not_unique : ObservationError
  family_outside_required too_few_minimum_tasks no_family_minimum : ObservationError
  family_quota minimum_above_schedule schedule_below_quota : ObservationError
  bad_gate bad_winsor_fraction bad_maximum_weight no_strategies : ObservationError
  config : ConfigError → ObservationError

pub lift_config : Result ConfigError (Unit {0}) → Result ObservationError (Unit {0})
lift_config (ok u) = ok u
lift_config (err e) = err (config e)

pub record ScheduledTask : Type 0 where
  pub epoch : ℕ
  pub family : String
  pub task_id : String
  pub task_commitment : String

-- `ScheduledTask.__post_init__`; epochs are natural numbers.
pub check_task : ScheduledTask → Result ObservationError (Unit {0})
check_task t =
    raise_if (t.family == "" || t.task_id == "" || t.task_commitment == "") missing_task_fields

module _ (F : Floats) where
  open F use {Float, of_ℕ, decimal, lt, le}

  pub record EpochObservation : Type 0 where
    pub miner_id : String
    pub epoch : ℕ
    pub family : String
    pub task_id : String
    pub task_commitment : String
    pub evidence_digest : String
    pub reward : Float
    pub available : Bool
    pub correct : Bool
    pub compliant : Bool
    pub strategy_digest : String
    pub behavior_digest : String
    pub duplicate_group_size : ℕ

  -- `EpochObservation.__post_init__`
  unfoldable pub check_observation : EpochObservation → Result ObservationError (Unit {0})
  unfolding lift_config
  check_observation o = do
    raise_if
        (any (λ s. s == "")
          (o.miner_id ∷ o.family ∷ o.task_id ∷ o.task_commitment ∷ o.evidence_digest
            ∷ o.strategy_digest ∷ o.behavior_digest ∷ []))
        missing_identity
    lift_config (require_finite_non_negative F o.reward)
    raise_if (lt (of_ℕ 100) o.reward) reward_above_maximum
    raise_if (ltb o.duplicate_group_size 1) no_group_members

  pub record AggregationPolicy : Type 0 where
    pub required_families : List String
    pub task_schedule : List ScheduledTask
    pub minimum_tasks : ℕ
    pub minimum_tasks_per_family : ℕ
    pub minimum_availability : Float
    pub minimum_compliance : Float
    pub minimum_correctness : Float
    pub winsor_fraction : Float
    pub confidence_z : Float
    pub maximum_weight : Float
    pub minimum_distinct_strategies : ℕ

  abbrev in_unit : Float → Bool
  in_unit x = le (of_ℕ 0) x && le x (of_ℕ 1)

  -- `AggregationPolicy.__post_init__`
  pub check_aggregation_policy : AggregationPolicy → Result ObservationError (Unit {0})
  unfolding lift_config
  check_aggregation_policy p = do
    let families = length p.required_families
    raise_if (families == 0 || not (distinct p.required_families)) families_not_unique
    raise_if (length p.task_schedule == 0) no_schedule
    raise_if
        (not (distinct (map (λ t. t.task_id) p.task_schedule))
          || not (distinct (map (λ t. t.task_commitment) p.task_schedule))
          || not (distinct (map (λ t. t.epoch) p.task_schedule)))
        schedule_not_unique
    raise_if (any (λ t. not (mem t.family p.required_families)) p.task_schedule)
        family_outside_required
    raise_if (ltb p.minimum_tasks families) too_few_minimum_tasks
    raise_if (ltb p.minimum_tasks_per_family 1) no_family_minimum
    raise_if (ltb p.minimum_tasks (p.minimum_tasks_per_family * families)) family_quota
    raise_if (ltb (length p.task_schedule) p.minimum_tasks) minimum_above_schedule
    raise_if
        (any (λ f. ltb (count (λ t. t.family == f) p.task_schedule) p.minimum_tasks_per_family)
          p.required_families)
        schedule_below_quota
    raise_if
        (not (
          in_unit p.minimum_availability
          && in_unit p.minimum_compliance
          && in_unit p.minimum_correctness))
        bad_gate
    raise_if (not (le (of_ℕ 0) p.winsor_fraction && lt p.winsor_fraction (decimal 5 1)))
        bad_winsor_fraction
    lift_config (require_finite_non_negative F p.confidence_z)
    raise_if (not (lt (of_ℕ 0) p.maximum_weight && le p.maximum_weight (of_ℕ 1))) bad_maximum_weight
    raise_if (ltb p.minimum_distinct_strategies 1) no_strategies
