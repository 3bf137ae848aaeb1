-- ===== src/Scoring/Aggregate/Gates.antt =====
-- The gates of the aggregation: what an eligible miner has shown, and what a failed one earns.
use planrace_subnet.Prelude.{
  ℕ, ◌≤◌, ◌≡◌, refl, ◌⊎◌, inl, inr, String, true, false, none, some, List, [], ◌∷◌, ok, length, any,
  filter, count, ltb, ◌==◌, string_eq, arith, All, All₂, Ensures, Ensures-bind, of_Ensures,
  sequence-map, Result-cases, Option-cases,
}
use planrace_subnet.Floats.{Floats}
use planrace_subnet.Scoring.Observations.{EpochObservation, AggregationPolicy}
use planrace_subnet.Scoring.Dedup.{deduplicate_task_rewards, is_eligible}
use planrace_subnet.Scoring.Dedup.Shares.{IsShare, deduplicate_shares}
use planrace_subnet.Scoring.Aggregate.{
  MinerAggregate, MinerFailure, Measures, miner_failure, file_all, index_tasks, measure, conclude,
  reward_of, aggregate_scheduled_miner, aggregate_network,
}

module _ (F : Floats) (sha256 : List ℕ → String) where
  open F use {Float, of_ℕ, lt, le}

  abbrev pub available : List (EpochObservation F) → List (EpochObservation F)
  available = filter (λ o. o.available)

  -- The aggregate of one miner is either a failure that earns nothing or a qualification.
  pub record IsQualified (p : AggregationPolicy F) (os : List (EpochObservation F))
      (a : MinerAggregate F sha256) : Type 0 where
    pub no_failure : a.failure_code ≡ none
    pub enough_tasks : p.minimum_tasks ≤ length (available os)
    pub each_family :
        All
          (λ f. p.minimum_tasks_per_family ≤ count (λ o. o.family == f) (available os))
          p.required_families
    pub availability : lt a.availability p.minimum_availability ≡ false
    pub compliance : lt a.compliance p.minimum_compliance ≡ false
    pub correctness : lt a.correctness p.minimum_correctness ≡ false
    pub rewarded : le a.reward (of_ℕ 0) ≡ false

  pub record IsRejected (a : MinerAggregate F sha256) : Type 0 where
    pub failure : (c : MinerFailure) × (a.failure_code ≡ some c)
    pub no_reward : a.reward ≡ of_ℕ 0
    pub not_eligible : a.eligible ≡ false

  any_family :
      (n : ℕ) (os : List (EpochObservation F)) (fs : List String)
      → any (λ f. ltb (count (λ o. o.family == f) os) n) fs ≡ false
      → All (λ f. n ≤ count (λ o. o.family == f) os) fs
  any_family n os [] h = tt
  any_family n os (f ∷ fs) h = (ground arith, any_family n os fs (ground arith))

  abbrev pub IsVerdict :
      AggregationPolicy F → List (EpochObservation F) → MinerAggregate F sha256 → Type 0
  IsVerdict p os a = ((a.eligible ≡ true) × IsQualified p os a) ⊎ IsRejected a

  miner_failure-none :
      (p : AggregationPolicy F) (os : List (EpochObservation F)) (av co cr : Float)
      (scores : List Float) (reward : Float)
      → miner_failure F sha256 p os av co cr scores reward ≡ none
      → (p.minimum_tasks ≤ length os)
        × (any
              (λ f. ltb (count (λ o. o.family == f) os) p.minimum_tasks_per_family)
              p.required_families
            ≡ false)
        × (lt av p.minimum_availability ≡ false)
        × (lt co p.minimum_compliance ≡ false)
        × (lt cr p.minimum_correctness ≡ false)
        × (le reward (of_ℕ 0) ≡ false)
  unfolding miner_failure
  miner_failure-none p os av co cr scores reward h = ground arith

  conclude-IsVerdict :
      (id : String) (p : AggregationPolicy F) (os : List (EpochObservation F))
      (m : Measures F sha256)
      → IsVerdict p os (conclude F sha256 id p (available os) m)
  unfolding conclude
  conclude-IsVerdict id p os m =
      let reward = reward_of F sha256 m in
      elim (Option-cases (
        miner_failure F sha256 p (available os) m.availability m.compliance m.correctness m.scores
          reward)) [
            | inr (c, e) ↦
                rw e (inr (record { failure = (c, refl); no_reward = refl; not_eligible = refl }))
            | inl e ↦
                let g =
                  miner_failure-none p (available os) m.availability m.compliance m.correctness
                    m.scores reward e in
                rw e (
                  inl (
                    refl,
                    record {
                      no_failure = refl;
                      enough_tasks = g.0;
                      each_family =
                          any_family p.minimum_tasks_per_family (available os) p.required_families
                            g.1;
                      availability = g.2;
                      compliance = g.3;
                      correctness = g.4;
                      rewarded = g.5;
                    },
                  ))
          ]

  abbrev pub IsOutcome :
      AggregationPolicy F → List (EpochObservation F) → String → MinerAggregate F sha256 → Type 0
  IsOutcome p os id a =
      (a.miner_id ≡ id) × (a.task_count ≡ length (available os)) × IsVerdict p os a

  aggregate_scheduled_miner-Ensures :
      (p : AggregationPolicy F) (os : List (EpochObservation F)) (id : String)
      → Ensures (IsOutcome p os id) (aggregate_scheduled_miner F sha256 p os id)
  unfolding aggregate_scheduled_miner
  aggregate_scheduled_miner-Ensures p os id =
      Ensures-bind (IsOutcome p os id)
        (file_all F sha256 (index_tasks F sha256 [] p.task_schedule) [] os) _
        λ by_task _.
          Ensures-bind (IsOutcome p os id) (measure F sha256 p by_task (available os)) _
            λ m _. (unfold conclude in refl, unfold conclude in refl, conclude-IsVerdict id p os m)

  -- Whenever a miner's observations are aggregated, the result carries the miner's name and the
  -- number of its available observations. Either the miner is eligible, and then it has no failure
  -- code, at least the minimum number of tasks, at least the minimum for each required family,
  -- rates that are not below the policy's, and a reward that is not zero or less; or it is not
  -- eligible, has a failure code and a reward of zero.
  pub aggregate_scheduled_miner_verdict :
      (p : AggregationPolicy F) (os : List (EpochObservation F)) (id : String)
      (a : MinerAggregate F sha256)
      → aggregate_scheduled_miner F sha256 p os id ≡ ok a
      → IsOutcome p os id a
  aggregate_scheduled_miner_verdict p os id a h =
      of_Ensures (IsOutcome p os id) (aggregate_scheduled_miner F sha256 p os id)
        (aggregate_scheduled_miner-Ensures p os id) h

  abbrev pub of_miner : String → List (EpochObservation F) → List (EpochObservation F)
  of_miner id = filter (λ o. o.miner_id == id)

  -- What the network's aggregation makes of one miner: its scheduled aggregate over the
  -- deduplicated observations that carry its name.
  abbrev pub IsAggregated :
      AggregationPolicy F → List (EpochObservation F) → String → MinerAggregate F sha256 → Type 0
  IsAggregated p ds id a =
      (aggregate_scheduled_miner F sha256 p (of_miner id ds) id ≡ ok a)
      × IsOutcome p (of_miner id ds) id a

  -- Whenever the network is aggregated, the observations pass the deduplication, after which every
  -- eligible one holds its group's equal share of the reward that was observed. There is one
  -- aggregate for each miner of the roster, in the roster's order: the scheduled aggregate of the
  -- deduplicated observations with that miner's name, with its name, the number of those that are
  -- available, and the verdict of the gates on them.
  pub aggregate_network_roster :
      (p : AggregationPolicy F) (os : List (EpochObservation F)) (ids : List String)
      (as' : List (MinerAggregate F sha256))
      → aggregate_network F sha256 p os ids ≡ ok as'
      → (ds : List (EpochObservation F)) × (deduplicate_task_rewards F os ≡ ok ds)
        × All (IsShare F os) (filter (is_eligible F) ds)
        × All₂ (IsAggregated p ds) ids as'
  unfolding aggregate_network
  aggregate_network_roster p os ids as' h = elim (Result-cases (deduplicate_task_rewards F os)) [
    | inr (e, bad) ↦ absurd (ground arith)
    | inl (ds, good) ↦ (
      ds,
      good,
      deduplicate_shares F os ds good,
      sequence-map (IsAggregated p ds)
          (λ id. aggregate_scheduled_miner F sha256 p (of_miner id ds) id)
          (λ id a e. (e, aggregate_scheduled_miner_verdict p (of_miner id ds) id a e)) ids as'
          (ground arith),
    )
  ]
