-- ===== src/Scoring/Plan.antt =====
-- `allocate_weights` of planrace/scoring_v2.py.
mod Masses
pub mod Bound
mod Tests
use planrace_subnet.Prelude.{
  ℕ, suc, String, Bool, true, false, not, ◌&&◌, ◌||◌, Option, none, some, List, [], ◌∷◌, ◌++◌, map,
  Result, ok, err, ◌>>=◌, ◌>>◌, sequence, length, filter, ltb, ◌==◌, string_eq, nat_eq,
  if◌then◌else◌,
}
use planrace_subnet.Prelude.Dict.{Dict, keys, values, lookup, insert, update, append_group}
use planrace_subnet.Prelude.Sort.{sort}
use planrace_subnet.Floats.{Floats, FloatError, overflow, divide, or_raise, fmin}
use planrace_subnet.Digest.Payload.{text_le}
use planrace_subnet.Scoring.Observations.{AggregationPolicy}
use planrace_subnet.Scoring.Aggregate.{MinerAggregate}
use planrace_subnet.Scoring.Allocate.{
  AllocationError, not_enough_recipients, float_error, lift_error, Weights, capped_normalize,
  ConcentrationMetrics, empty_metrics, concentration_metrics,
}

pub data Unplanned : Type 0 where
  all_failed insufficient_strategy_diversity insufficient_recipients_for_cap : Unplanned

module _ (F : Floats) (sha256 : List ℕ → String) where
  open F use {Float, of_ℕ, add, mul, lt, fsum}

  abbrev pub Aggregate : Type 0
  Aggregate = MinerAggregate F sha256

  abbrev pub Groups : Type 0
  Groups = Dict String (List Aggregate)

  pub record AllocationResult : Type 0 where
    pub planned : Bool
    pub reason : Option Unplanned
    pub weights : Weights F
    pub duplicate_groups : List (String × List String)
    pub strategy_weights : Weights F
    pub concentration : ConcentrationMetrics F

  pub unplanned : Unplanned → List (String × List String) → AllocationResult
  unplanned reason duplicate_groups = record {
    planned = false;
    reason = some reason;
    weights = [];
    duplicate_groups = duplicate_groups;
    strategy_weights = [];
    concentration = empty_metrics F;
  }

  -- `aggregate.eligible and aggregate.reward > 0`
  abbrev pub earns : Aggregate → Bool
  earns a = a.eligible && lt (of_ℕ 0) a.reward

  pub group_by_behavior : Groups → List Aggregate → Groups
  group_by_behavior g [] = g
  group_by_behavior g (a ∷ as') = group_by_behavior (append_group a.behavior_digest a g) as'

  pub duplicates : Groups → List (String × List String)
  duplicates g =
      map (λ e. (e.0, sort text_le (map (λ a. a.miner_id) e.1)))
        (filter (λ e. ltb 1 (length e.1)) (sort (λ x y. text_le x.0 y.0) g))

  -- `exact_strategy_mass[member.strategy_digest] += member.reward` of a `defaultdict(float)`
  add_mass : String → Float → Weights F → Weights F
  add_mass k x [] = (k, add (of_ℕ 0) x) ∷ []
  add_mass k x ((j, v) ∷ d) = if j == k then (j, add v x) ∷ d else (j, v) ∷ add_mass k x d

  strategy_mass : Weights F → List Aggregate → Weights F
  unfolding add_mass
  strategy_mass d [] = d
  strategy_mass d (a ∷ as') = strategy_mass (add_mass a.strategy_digest a.reward d) as'

  smallest : Float → List Float → Float
  smallest x [] = x
  smallest x (y ∷ ys) = smallest (fmin F x y) ys

  least : List Float → Float
  unfolding smallest
  least [] = of_ℕ 0
  least (x ∷ xs) = smallest x xs

  -- The raw mass of each behavior: the least mass of its exact strategies.
  pub raw_groups : Groups → Weights F
  unfolding strategy_mass least
  raw_groups [] = []
  raw_groups ((digest, members) ∷ g) =
      (digest, least (values (strategy_mass [] members))) ∷ raw_groups g

  weight_or_zero : String → Weights F → Float
  weight_or_zero k d = elim (lookup k d) [ none ↦ of_ℕ 0 | some v ↦ v ]

  share_member : Float → Float → Aggregate → Result FloatError (String × Float)
  share_member group_weight member_reward a = do
    x ← divide F (mul group_weight a.reward) member_reward
    ok (a.miner_id, x)

  -- The weights of one group's members, in proportion to their rewards.
  pub share_members : Weights F → String × List Aggregate → Result FloatError (Weights F)
  unfolding share_member weight_or_zero
  share_members normalized_groups (digest, members) = do
    member_reward ← or_raise F (fsum (map (λ a. a.reward) members)) overflow
    sequence (map (share_member (weight_or_zero digest normalized_groups) member_reward) members)

  pub normalize : Weights F → Weights F → Groups → Result FloatError (Weights F)
  unfolding share_members
  normalize normalized_groups d [] = ok d
  normalize normalized_groups d (e ∷ g) = do
    shares ← share_members normalized_groups e
    normalize normalized_groups (update d shares) g

  by_key : Weights F → Weights F
  by_key = sort (λ x y. text_le x.0 y.0)

  pub plan : Groups → Weights F → Result AllocationError AllocationResult
  unfolding normalize by_key lift_error
  plan groups normalized_groups = do
    normalized ← lift_error (normalize normalized_groups [] groups)
    let strategy_weights = by_key normalized_groups
    metrics ← concentration_metrics F (values strategy_weights)
    ok (record {
      planned = true;
      reason = none;
      weights = by_key normalized;
      duplicate_groups = duplicates groups;
      strategy_weights = strategy_weights;
      concentration = metrics;
    })

  -- `try: _capped_normalize(...)`, where `except ValueError` is the shortage of recipients.
  pub capped_plan :
      Groups → Result AllocationError (Weights F) → Result AllocationError AllocationResult
  unfolding plan
  capped_plan groups (ok normalized_groups) = plan groups normalized_groups
  capped_plan groups (err not_enough_recipients) =
      ok (unplanned insufficient_recipients_for_cap (duplicates groups))
  capped_plan groups (err e) = err e

  pub allocate_weights :
      AggregationPolicy F → List Aggregate → Result AllocationError AllocationResult
  unfolding group_by_behavior unplanned capped_plan raw_groups
  allocate_weights p aggregates =
      let eligible = filter earns aggregates in
      let groups = group_by_behavior [] eligible in
      if length eligible == 0
      then ok (unplanned all_failed [])
      else if ltb (length groups) p.minimum_distinct_strategies
      then ok (unplanned insufficient_strategy_diversity (duplicates groups))
      else capped_plan groups (capped_normalize F p.maximum_weight (raw_groups groups))
