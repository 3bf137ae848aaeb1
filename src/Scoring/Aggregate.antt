-- ===== src/Scoring/Aggregate.antt =====
-- The aggregation of planrace/scoring_v2.py: one miner against the precommitted schedule, and the
-- whole network after deduplication. The SHA-256 function is a parameter.
pub mod Gates
mod Tests
use planrace_subnet.Prelude.{
  ℕ, suc, String, Bool, true, false, not, ◌&&◌, ◌||◌, Option, none, some, List, [], ◌∷◌, ◌++◌, map,
  Result, ok, err, ◌>>=◌, ◌>>◌, raise_if, length, any, all, filter, count, sequence, ltb, ◌==◌,
  nat_eq, string_eq, pair_eq, mem, distinct, if◌then◌else◌,
}
use planrace_subnet.Prelude.Dict.{Dict, lookup, contains, insert}
use planrace_subnet.Prelude.Sort.{sort}
use planrace_subnet.Floats.{Floats, FloatError, math_domain, divide, or_raise, fmax}
use planrace_subnet.Digest.{DigestError, domain_separated_digest}
use planrace_subnet.Digest.Payload.{
  Json, Items, Fields, str, arr, obj, nil, cons, end, field, text_le,
}
use planrace_subnet.Scoring.Stats.{
  StatsError, lift_float, fmean, winsorized_mean, robust_standard_error,
}
use planrace_subnet.Scoring.Observations.{ScheduledTask, EpochObservation, AggregationPolicy}
use planrace_subnet.Scoring.Dedup.{
  DedupError, Metadata, metadata, is_eligible, deduplicate_task_rewards,
}

pub data AggregateError : Type 0 where
  outside_schedule schedule_mismatch duplicate_task no_observations several_miners : AggregateError
  bad_roster outside_roster : AggregateError
  stats : StatsError → AggregateError
  digest : DigestError → AggregateError
  dedup : DedupError → AggregateError

pub data MinerFailure : Type 0 where
  insufficient_tasks insufficient_family_tasks availability_gate compliance_gate : MinerFailure
  correctness_gate worst_family_gate no_robust_improvement : MinerFailure

pub lift_stats {ℓ} : {A : Type ℓ} → Result StatsError A → Result AggregateError A
lift_stats (ok a) = ok a
lift_stats (err e) = err (stats e)

pub lift_digest {ℓ} : {A : Type ℓ} → Result DigestError A → Result AggregateError A
lift_digest (ok a) = ok a
lift_digest (err e) = err (digest e)

pub lift_dedup {ℓ} : {A : Type ℓ} → Result DedupError A → Result AggregateError A
lift_dedup (ok a) = ok a
lift_dedup (err e) = err (dedup e)

-- A `set` of pairs, sorted.
pub pair_le : String × String → String × String → Bool
pair_le (a, b) (c, d) = if a == c then text_le b d else text_le a c

unique : List (String × String) → List (String × String)
unique [] = []
unique (x ∷ xs) = let rest = unique xs in if mem x xs then rest else x ∷ rest

pairs_json : List (String × String) → Items
pairs_json [] = nil
pairs_json ((a, b) ∷ ps) = cons (arr (cons (str a) (cons (str b) nil))) (pairs_json ps)

module _ (F : Floats) (sha256 : List ℕ → String) where
  open F use {Float, of_ℕ, sub, mul, lt, le}

  pub record MinerAggregate : Type 0 where
    pub miner_id : String
    pub eligible : Bool
    pub reward : Float
    pub center : Float
    pub uncertainty : Float
    pub availability : Float
    pub compliance : Float
    pub correctness : Float
    pub task_count : ℕ
    pub family_scores : List (String × Float)
    pub strategy_digest : String
    pub behavior_digest : String
    pub failure_code : Option MinerFailure

  abbrev pub Obs : Type 0
  Obs = EpochObservation F

  -- `{task.task_id: task for task in policy.task_schedule}`
  pub index_tasks : Dict String ScheduledTask → List ScheduledTask → Dict String ScheduledTask
  index_tasks d [] = d
  index_tasks d (t ∷ ts) = index_tasks (insert t.task_id t d) ts

  abbrev pub scheduled_metadata : ScheduledTask → Metadata
  scheduled_metadata t = (t.epoch, (t.family, t.task_commitment))

  -- One round of the loop that files a miner's observations under their tasks.
  pub file_observation :
      Dict String ScheduledTask → Dict String Obs → Obs → Result AggregateError (Dict String Obs)
  file_observation schedule by_task o = elim (lookup o.task_id schedule) [
    | none ↦ err outside_schedule
    | some t ↦
        if not (metadata F o == scheduled_metadata t)
        then err schedule_mismatch
        else if contains o.task_id by_task
        then err duplicate_task
        else ok (insert o.task_id o by_task)
  ]

  pub file_all :
      Dict String ScheduledTask
      → Dict String Obs
      → List Obs
      → Result AggregateError (Dict String Obs)
  unfolding file_observation
  file_all schedule by_task [] = ok by_task
  file_all schedule by_task (o ∷ os) = do
    by_task' ← file_observation schedule by_task o
    file_all schedule by_task' os

  -- The reward of a scheduled task, zero where the miner has no eligible observation.
  pub gated_reward : Dict String Obs → ScheduledTask → Float
  gated_reward by_task t = elim (lookup t.task_id by_task) [
    | none ↦ of_ℕ 0
    | some o ↦ if is_eligible F o then o.reward else of_ℕ 0
  ]

  pub family_rewards : Dict String Obs → List ScheduledTask → String → List Float
  unfolding gated_reward
  family_rewards by_task schedule family =
      map (gated_reward by_task) (filter (λ t. t.family == family) schedule)

  pub family_score : AggregationPolicy F → List Float → Result StatsError Float
  family_score p rewards = do
    center ← winsorized_mean F rewards p.winsor_fraction 0
    ok (fmax F (of_ℕ 0) (sub center (mul p.confidence_z (robust_standard_error F rewards))))

  -- The share of the available observations that pass a test.
  rate : (Obs → Bool) → List Obs → Result FloatError Float
  rate test [] = ok (of_ℕ 0)
  rate test os = fmean F (map (λ o. if test o then of_ℕ 1 else of_ℕ 0) os)

  logarithm : Float → Result FloatError Float
  logarithm x = or_raise F (F.log x) math_domain

  geometric_mean : List Float → Result FloatError Float
  unfolding logarithm
  geometric_mean scores = do
    logs ← sequence (map logarithm scores)
    m ← fmean F logs
    or_raise F (F.exp m) math_domain

  -- The geometric mean of the family scores, or zero.
  pub geometric_center : List Float → Result FloatError Float
  unfolding geometric_mean
  geometric_center scores =
      if all (λ s. lt (of_ℕ 0) s) scores then geometric_mean scores else ok (of_ℕ 0)

  pub portfolio : (Obs → String) → List Obs → List (String × String)
  unfolding unique
  portfolio digest_of available =
      sort pair_le (unique (map (λ o. (o.family, digest_of o)) available))

  pub portfolio_digest : String → String → List (String × String) → Result DigestError String
  unfolding pairs_json
  portfolio_digest domain key pairs =
      domain_separated_digest sha256 domain (obj (field key (arr (pairs_json pairs)) end))

  -- The ladder of gates, in the order of the source.
  pub miner_failure :
      AggregationPolicy F
      → List Obs
      → Float
      → Float
      → Float
      → List Float
      → Float
      → Option MinerFailure
  miner_failure p available availability compliance correctness scores reward =
      if ltb (length available) p.minimum_tasks
      then some insufficient_tasks
      else if any (λ f. ltb (count (λ o. o.family == f) available) p.minimum_tasks_per_family)
          p.required_families
      then some insufficient_family_tasks
      else if lt availability p.minimum_availability
      then some availability_gate
      else if lt compliance p.minimum_compliance
      then some compliance_gate
      else if lt correctness p.minimum_correctness
      then some correctness_gate
      else if any (λ s. le s (of_ℕ 0)) scores
      then some worst_family_gate
      else if le reward (of_ℕ 0)
      then some no_robust_improvement
      else none

  abbrev pub has_passed : Option MinerFailure → Bool
  has_passed none = true
  has_passed (some c) = false

  pub record Measures : Type 0 where
    pub scores : List Float
    pub center : Float
    pub uncertainty : Float
    pub availability : Float
    pub compliance : Float
    pub correctness : Float
    pub strategy_digest : String
    pub behavior_digest : String

  pub measure : AggregationPolicy F → Dict String Obs → List Obs → Result AggregateError Measures
  unfolding lift_stats lift_digest family_rewards family_score rate geometric_center portfolio
      portfolio_digest
  measure p by_task available = do
    availability ←
        lift_stats (lift_float (divide F (of_ℕ (length available)) (of_ℕ (length p.task_schedule))))
    compliance ← lift_stats (lift_float (rate (λ o. o.compliant) available))
    correctness ← lift_stats (lift_float (rate (λ o. o.correct) available))
    scores ← lift_stats (
        sequence (
          map (λ f. family_score p (family_rewards by_task p.task_schedule f)) p.required_families))
    center ← lift_stats (lift_float (geometric_center scores))
    strategy_digest ← lift_digest (
        portfolio_digest "planrace/2:strategy-portfolio" "family_strategies"
          (portfolio (λ o. o.strategy_digest) available))
    behavior_digest ← lift_digest (
        portfolio_digest "planrace/2:behavior-portfolio" "family_behaviors"
          (portfolio (λ o. o.behavior_digest) available))
    ok (record {
      scores = scores;
      center = center;
      uncertainty = mul p.confidence_z (robust_standard_error F scores);
      availability = availability;
      compliance = compliance;
      correctness = correctness;
      strategy_digest = strategy_digest;
      behavior_digest = behavior_digest;
    })

  pub zip_families : List String → List Float → List (String × Float)
  zip_families (f ∷ fs) (s ∷ ss) = (f, s) ∷ zip_families fs ss
  zip_families _ _ = []

  -- `max(0.0, center - uncertainty) * availability * compliance`
  pub reward_of : Measures → Float
  reward_of m = mul (mul (fmax F (of_ℕ 0) (sub m.center m.uncertainty)) m.availability) m.compliance

  -- The aggregate of a miner from its measures.
  pub conclude : String → AggregationPolicy F → List Obs → Measures → MinerAggregate
  unfolding zip_families
  conclude miner_id p available m =
      let reward = reward_of m in
      let failure =
        miner_failure p available m.availability m.compliance m.correctness m.scores reward in
      record {
        miner_id = miner_id;
        eligible = has_passed failure;
        reward = if has_passed failure then reward else of_ℕ 0;
        center = m.center;
        uncertainty = m.uncertainty;
        availability = m.availability;
        compliance = m.compliance;
        correctness = m.correctness;
        task_count = length available;
        family_scores = zip_families p.required_families m.scores;
        strategy_digest = m.strategy_digest;
        behavior_digest = m.behavior_digest;
        failure_code = failure;
      }

  pub aggregate_scheduled_miner :
      AggregationPolicy F → List Obs → String → Result AggregateError MinerAggregate
  unfolding index_tasks file_all measure conclude
  aggregate_scheduled_miner p observations miner_id = do
    by_task ← file_all (index_tasks [] p.task_schedule) [] observations
    let available = filter (λ o. o.available) observations
    m ← measure p by_task available
    ok (conclude miner_id p available m)

  -- `aggregate_miner`
  pub aggregate_miner : AggregationPolicy F → List Obs → Result AggregateError MinerAggregate
  unfolding aggregate_scheduled_miner
  aggregate_miner p [] = err no_observations
  aggregate_miner p (o ∷ os) =
      if all (λ x. x.miner_id == o.miner_id) os
      then aggregate_scheduled_miner p (o ∷ os) o.miner_id
      else err several_miners

  -- `aggregate_network`
  pub aggregate_network :
      AggregationPolicy F → List Obs → List String → Result AggregateError (List MinerAggregate)
  unfolding aggregate_scheduled_miner lift_dedup
  aggregate_network p observations miner_ids = do
    raise_if (length miner_ids == 0 || not (distinct miner_ids)) bad_roster
    raise_if (any (λ o. not (mem o.miner_id miner_ids)) observations) outside_roster
    deduplicated ← lift_dedup (deduplicate_task_rewards F observations)
    sequence (
        map
          (λ miner_id.
            aggregate_scheduled_miner p (filter (λ o. o.miner_id == miner_id) deduplicated)
              miner_id)
          miner_ids)
