-- ===== src/Evaluation/Cohort/Accounting.antt =====
-- The observations of a cohort, planrace/evaluation_v2.py: who is observed, and that strategies
-- that are the same are reported the same.
mod Rounds
use mathlib.Core.Path.{subst}
use mathlib.Core.List.{Perm, map-append, append-nil, perm_middle}
use mathlib.Core.List.Perm
use planrace_subnet.Prelude.{
  ℕ, suc, ◌≡◌, refl, sym, ap, ◌∙◌, inl, inr, String, Bool, true, false, not, ◌&&◌, ◌||◌, List, [],
  ◌∷◌, ◌++◌, map, Result, ok, err, length, any, ltb, mem, distinct, All, All-append, if◌then◌else◌,
  ◌==◌, nat_eq, string_eq, arith, Bool-cases, Result-cases, beq_refl, ok-injective,
}
use planrace_subnet.Prelude.Dict.{Dict, keys, append_group}
use planrace_subnet.Prelude.Sort.{sort, sort-perm, All-sort}
use planrace_subnet.Prelude.Perms.{
  flatten, flatten-sort, flatten-append_group, distinct-append_group, distinct_of_perm,
  keys_of_perm, keys-map,
}
use planrace_subnet.Floats.{Floats}
use planrace_subnet.Digest.Payload.{text_le}
use planrace_subnet.Models.Bundle.{OptimizationBundle}
use planrace_subnet.Models.Bundle.Strategy.{optimization_strategy_digest}
use planrace_subnet.Tasks.Lifecycle.{PrivateTaskV2}
use planrace_subnet.Scoring.Trials.{BenchmarkPolicy}
use planrace_subnet.Scoring.Observations.{EpochObservation, check_observation}
use planrace_subnet.Scoring.Dedup.{Metadata, metadata, deduplicate_task_rewards}
use planrace_subnet.Scoring.Dedup.Accepts.{IsOfTask, IsTabled, deduplicate-accepts}
use planrace_subnet.Evaluation.{EvaluationError, HoldoutEvaluationV2}
use planrace_subnet.Evaluation.Evidence.{holdout_evidence_digest}
use planrace_subnet.Evaluation.Cohort.{
  Surroundings, CohortEvaluationV2, evaluate_bundle_on_committed_holdouts, group_submissions,
  observe, observe_all, evaluate_strategy, evaluate_strategies, by_key, by_miner,
  evaluate_task_cohort,
}
use planrace_subnet.Evaluation.Cohort.Accounting.Rounds.{
  Members, IsHere, miners, IsAccount, evaluate_strategies-IsAccount,
}

module _ (F : Floats) (E : Surroundings F) (policy : BenchmarkPolicy F) (trial_count : ℕ)
    (task : PrivateTaskV2) (epoch : ℕ) where
  open F use {Float}

  -- Grouping loses and repeats nobody, and names every strategy once.
  group_submissions-perm :
      (ms : Members) (groups : Dict String Members) {g : Dict String Members}
      → distinct (keys groups) ≡ true
      → group_submissions F E policy trial_count task ms groups ≡ ok g
      → Perm (flatten g) (ms ++ flatten groups) × (distinct (keys g) ≡ true)
  unfolding group_submissions
  group_submissions-perm [] groups {g} d h =
      subst (λ l. Perm (flatten l) (flatten groups) × (distinct (keys l) ≡ true)) (ok-injective h)
        (Perm.rfl, d)
  group_submissions-perm ((id, b) ∷ ms) groups {g} d h =
      elim (Result-cases (optimization_strategy_digest E.sha256 b)) [
        | inr (e, bad) ↦ absurd (ground arith)
        | inl (strategy, found) ↦
            let groups' = append_group strategy (id, b) groups in
            let (p, d') =
              group_submissions-perm ms groups' {g = g}
                (distinct-append_group strategy (id, b) groups d) (ground arith) in
            (
              Perm.trans p (
                  Perm.trans (Perm.append_left ms (flatten-append_group strategy (id, b) groups))
                    (perm_middle ms (flatten groups))),
              d',
            )
      ]

  -- The parts of a cohort evaluation.
  record IsCohort (submissions : Dict String OptimizationBundle) (c : CohortEvaluationV2 F)
      : Type 0 where
    groups : Dict String Members
    os : List (EpochObservation F)
    account : IsAccount F E policy trial_count task epoch groups os
    sorted : c.observations ≡ by_miner F E policy trial_count task os
    members : Perm (flatten groups) submissions

  evaluate_task_cohort-IsCohort :
      (submissions : Dict String OptimizationBundle) (bound : ℕ) (c : CohortEvaluationV2 F)
      → evaluate_task_cohort F E policy trial_count task submissions epoch bound ≡ ok c
      → IsCohort submissions c
  unfolding evaluate_task_cohort by_key
  evaluate_task_cohort-IsCohort submissions bound c h =
      let order = λ (a b : String × OptimizationBundle). text_le a.0 b.0 in
      let ordered = sort order submissions in
      elim (Result-cases (group_submissions F E policy trial_count task ordered [])) [
        | inr (e, bad) ↦ absurd (ground arith)
        | inl (g, grouped) ↦
            let sorted_groups = sort (λ (a b : String × Members). text_le a.0 b.0) g in
            elim (Result-cases
              (evaluate_strategies F E policy trial_count task epoch sorted_groups)) [
                | inr (e, bad) ↦ absurd (ground arith)
                | inl ((vs, os), evaluated) ↦
                    let (p, d) = group_submissions-perm ordered [] {g = g} refl grouped in
                    let by = sort-perm (λ (a b : String × Members). text_le a.0 b.0) g in
                    record {
                      groups = sorted_groups;
                      os = os;
                      account =
                          evaluate_strategies-IsAccount F E policy trial_count task epoch
                            sorted_groups {r = (vs, os)} (distinct_of_perm (keys_of_perm by) ∙ d)
                            evaluated;
                      sorted = ground arith;
                      members =
                          Perm.trans (flatten-sort (λ a b. text_le a.0 b.0) g)
                            (Perm.trans p (rw append-nil (sort-perm order submissions)));
                    }
              ]
      ]

  -- The observations of an evaluated cohort are one for each submission: their miners are those
  -- that submitted, each as often.
  pub evaluate_task_cohort-perm :
      (submissions : Dict String OptimizationBundle) (bound : ℕ) (c : CohortEvaluationV2 F)
      → evaluate_task_cohort F E policy trial_count task submissions epoch bound ≡ ok c
      → Perm (map (λ o. o.miner_id) c.observations) (keys submissions)
  unfolding by_miner
  evaluate_task_cohort-perm submissions bound c h =
      let i = evaluate_task_cohort-IsCohort submissions bound c h in
      let by = sort-perm (λ (a b : EpochObservation F). text_le a.miner_id b.miner_id) i.os in
      rw (i.sorted, keys-map submissions)
        (Perm.trans (Perm.map (λ o. o.miner_id) by)
          (rw i.account.names (Perm.map (λ m. m.0) i.members)))

  -- The observations of an evaluated cohort always pass the deduplication that follows, if no miner
  -- submitted twice: they are of one task, equal strategies come with equal evidence and rewards, and no
  -- miner stands twice in a group. The two laws are those of IEEE floats: x - x is never above
  -- 1e-9, and a positive count is not zero.
  pub evaluate_task_cohort-deduplicates :
      (submissions : Dict String OptimizationBundle) (bound : ℕ) (c : CohortEvaluationV2 F)
      → ((x : Float) → F.lt (F.decimal 1 9) (F.sub x x) ≡ false)
      → ((n : ℕ) → F.eq (F.of_ℕ (suc n)) (F.of_ℕ 0) ≡ false)
      → distinct (keys submissions) ≡ true
      → evaluate_task_cohort F E policy trial_count task submissions epoch bound ≡ ok c
      → (out : List (EpochObservation F)) × (deduplicate_task_rewards F c.observations ≡ ok out)
  unfolding by_miner
  evaluate_task_cohort-deduplicates submissions bound c equal positive once h =
      let i = evaluate_task_cohort-IsCohort submissions bound c h in
      let le = λ (a b : EpochObservation F). text_le a.miner_id b.miner_id in
      let names = distinct_of_perm (evaluate_task_cohort-perm submissions bound c h) ∙ once in
      deduplicate-accepts F equal positive i.account.table c.observations
        (rw i.sorted (All-sort le (IsTabled F i.account.table) i.os i.account.tabled)) names
        task.public.task_id (epoch, (task.public.benchmark_family_id, task.public.commitment))
        (rw i.sorted (All-sort le (IsHere F E policy trial_count task epoch) i.os i.account.here))
