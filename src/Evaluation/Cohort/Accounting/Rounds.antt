-- ===== src/Evaluation/Cohort/Accounting/Rounds.antt =====
-- The rounds over the strategies of a cohort, planrace/evaluation_v2.py: what they report.
use mathlib.Core.Path.{subst}
use mathlib.Core.List.{map-append}
use planrace_subnet.Prelude.{
  ℕ, ◌≡◌, refl, sym, ap, ◌∙◌, inl, inr, String, true, false, List, [], ◌∷◌, ◌++◌, map, ok, mem,
  distinct, All, All-append, if◌then◌else◌, ◌==◌, nat_eq, string_eq, arith, Bool-cases,
  Result-cases, ok-injective,
}
use planrace_subnet.Prelude.Dict.{Dict, keys}
use planrace_subnet.Prelude.Perms.{flatten}
use planrace_subnet.Floats.{Floats}
use planrace_subnet.Models.Bundle.{OptimizationBundle}
use planrace_subnet.Tasks.Lifecycle.{PrivateTaskV2}
use planrace_subnet.Scoring.Trials.{BenchmarkPolicy}
use planrace_subnet.Scoring.Observations.{EpochObservation, check_observation}
use planrace_subnet.Scoring.Dedup.Accepts.{IsOfTask, IsTabled}
use planrace_subnet.Evaluation.{HoldoutEvaluationV2}
use planrace_subnet.Evaluation.Evidence.{holdout_evidence_digest}
use planrace_subnet.Evaluation.Cohort.{
  Surroundings, evaluate_bundle_on_committed_holdouts, observe, observe_all, evaluate_strategy,
  evaluate_strategies,
}

abbrev pub Members : Type 0
Members = List (String × OptimizationBundle)

module _ (F : Floats) (E : Surroundings F) (policy : BenchmarkPolicy F) (trial_count : ℕ)
    (task : PrivateTaskV2) (epoch : ℕ) where
  open F use {Float}

  -- An observation of this task and epoch.
  abbrev pub IsHere : EpochObservation F → Type 0
  IsHere =
      IsOfTask F task.public.task_id
        (epoch, (task.public.benchmark_family_id, task.public.commitment))

  -- It reports a strategy with its evidence and reward.
  abbrev Reports : String → String → Float → EpochObservation F → Type 0
  Reports strategy evidence reward o =
      IsHere o
      × (o.strategy_digest ≡ strategy)
      × (o.evidence_digest ≡ evidence)
      × (o.reward ≡ reward)

  abbrev pub miners : List (EpochObservation F) → List String
  miners = map (λ o. o.miner_id)

  observe_all-Reports :
      (v : HoldoutEvaluationV2 F) (evidence strategy : String) (ms : Members)
      {os : List (EpochObservation F)}
      → observe_all F E policy trial_count task epoch v evidence strategy ms ≡ ok os
      → All (Reports strategy evidence v.reward) os × (miners os ≡ map (λ m. m.0) ms)
  unfolding observe_all observe
  observe_all-Reports v evidence strategy [] {os} h =
      subst (λ l. All (Reports strategy evidence v.reward) l × (miners l ≡ [])) (ok-injective h)
        (tt, refl)
  observe_all-Reports v evidence strategy (m ∷ ms) {os} h =
      let o = observe F E policy trial_count task epoch v evidence strategy m in
      elim (Result-cases (check_observation F o)) [
        | inr (e, bad) ↦ absurd (ground arith)
        | inl (_, good) ↦
            elim (Result-cases
              (observe_all F E policy trial_count task epoch v evidence strategy ms)) [
                | inr (e, bad) ↦ absurd (ground arith)
                | inl (rest, more) ↦
                    let (reports, names) =
                      observe_all-Reports v evidence strategy ms {os = rest} more in
                    subst
                      (λ l.
                        All (Reports strategy evidence v.reward) l
                        × (miners l ≡ m.0 ∷ map (λ n. n.0) ms))
                      {x = o ∷ rest} {y = os} (ground arith)
                      ((((refl, refl), refl, refl, refl), reports), ap (λ ns. m.0 ∷ ns) names)
              ]
      ]

  -- What the round of a strategy reports.
  evaluate_strategy-Reports :
      (strategy : String) (ms : Members) (v : HoldoutEvaluationV2 F)
      (os : List (EpochObservation F))
      → evaluate_strategy F E policy trial_count task epoch (strategy, ms) ≡ ok (v, os)
      → (evidence : String) × All (Reports strategy evidence v.reward) os
        × (miners os ≡ map (λ m. m.0) ms)
  unfolding evaluate_strategy
  evaluate_strategy-Reports strategy [] v os h = absurd (ground arith)
  evaluate_strategy-Reports strategy ((id, bundle) ∷ ms) v os h =
      elim (Result-cases
        (evaluate_bundle_on_committed_holdouts F E policy trial_count task bundle)) [
          | inr (e, bad) ↦ absurd (ground arith)
          | inl (w, good) ↦ elim (Bool-cases (w.strategy_digest == strategy)) [
            | inr bad ↦ absurd (ground arith)
            | inl same ↦ elim (Result-cases (holdout_evidence_digest F E.format E.sha256 w)) [
              | inr (e, bad) ↦ absurd (ground arith)
              | inl (evidence, found) ↦
                  elim (Result-cases (
                    observe_all F E policy trial_count task epoch w evidence strategy
                      ((id, bundle) ∷ ms))) [
                        | inr (e, bad) ↦ absurd (ground arith)
                        | inl (rest, more) ↦
                            let facts =
                              observe_all-Reports w evidence strategy ((id, bundle) ∷ ms)
                                {os = rest} more in
                            let ends : ◌≡◌ {A = HoldoutEvaluationV2 F × List (EpochObservation F)}
                                (w, rest) (v, os) =
                              ground arith in
                            subst
                              (λ r.
                                (x : String) × All (Reports strategy x r.0.reward) r.1
                                × (miners r.1 ≡ id ∷ map (λ m. m.0) ms))
                              ends (evidence, facts.0, facts.1)
                      ]
            ]
          ]
        ]

  -- What the rounds of all strategies report.
  pub record IsAccount (groups : Dict String Members) (os : List (EpochObservation F))
      : Type 0 where
    pub table : String → String × Float
    pub here : All IsHere os
    pub tabled : All (IsTabled F table) os
    pub known : All (λ o. mem o.strategy_digest (keys groups) ≡ true) os
    pub names : miners os ≡ map (λ m. m.0) (flatten groups)

  -- The account of one more strategy.
  module _ (strategy evidence : String) (reward : Float) (table : String → String × Float) where
    abbrev extended : String → String × Float
    extended s = if s == strategy then (evidence, reward) else table s

    first_rows :
        (ks : List String) (os : List (EpochObservation F))
        → All (Reports strategy evidence reward) os
        → All IsHere os
          × All (IsTabled F extended) os
          × All (λ o. mem o.strategy_digest (strategy ∷ ks) ≡ true) os
    first_rows ks [] h = (tt, tt, tt)
    first_rows ks (o ∷ os) ((here, s, e, r), hs) =
        let (heres, tabled, known) = first_rows ks os hs in
        let same : (o.strategy_digest == strategy) ≡ true =
          (string_eq.beq_iff o.strategy_digest strategy).1 s in
        ((here, heres), ((rw same e, rw same r), tabled), (rw same refl, known))

    later_rows :
        (ks : List String) (os : List (EpochObservation F))
        → mem strategy ks ≡ false
        → All (IsTabled F table) os
        → All (λ o. mem o.strategy_digest ks ≡ true) os
        → All (IsTabled F extended) os × All (λ o. mem o.strategy_digest (strategy ∷ ks) ≡ true) os
    later_rows ks [] new tabled known = (tt, tt)
    later_rows ks (o ∷ os) new (t, ts) (k, known) =
        let (tabled, knowns) = later_rows ks os new ts known in
        let other : (o.strategy_digest == strategy) ≡ false =
          ground (arith, string_eq.beq_iff o.strategy_digest strategy, ap (λ s. mem s ks)) in
        ((rw other t, tabled), (rw other k, knowns))

  extend :
      (strategy evidence : String) (reward : Float) (ms : Members) (groups : Dict String Members)
      (os rest : List (EpochObservation F))
      → mem strategy (keys groups) ≡ false
      → All (Reports strategy evidence reward) os
      → miners os ≡ map (λ m. m.0) ms
      → IsAccount groups rest
      → IsAccount ((strategy, ms) ∷ groups) (os ++ rest)
  extend strategy evidence reward ms groups os rest new reports names account =
      let t = extended strategy evidence reward account.table in
      let ks = strategy ∷ keys groups in
      let (here, tabled, known) =
        first_rows strategy evidence reward account.table (keys groups) os reports in
      let (tabled', known') =
        later_rows strategy evidence reward account.table (keys groups) rest new account.tabled
          account.known in
      record {
        table = t;
        here = All-append IsHere os rest here account.here;
        tabled = All-append (IsTabled F t) os rest tabled tabled';
        known = All-append (λ o. mem o.strategy_digest ks ≡ true) os rest known known';
        names =
            map-append (λ o. o.miner_id) os rest
            ∙ (rw (names, account.names) (sym (map-append (λ m. m.0) ms (flatten groups))));
      }

  pub evaluate_strategies-IsAccount :
      (groups : Dict String Members)
      {r : List (String × HoldoutEvaluationV2 F) × List (EpochObservation F)}
      → distinct (keys groups) ≡ true
      → evaluate_strategies F E policy trial_count task epoch groups ≡ ok r
      → IsAccount groups r.1
  unfolding evaluate_strategies
  evaluate_strategies-IsAccount [] {r} d h =
      subst (λ q. IsAccount [] q.1) (ok-injective h)
        (record { table = λ s. ("", F.of_ℕ 0); here = tt; tabled = tt; known = tt; names = refl })
  evaluate_strategies-IsAccount ((strategy, ms) ∷ groups) {r} d h =
      elim (Result-cases (evaluate_strategy F E policy trial_count task epoch (strategy, ms))) [
        | inr (e, bad) ↦ absurd (ground arith)
        | inl ((v, os), first) ↦
            elim (Result-cases (evaluate_strategies F E policy trial_count task epoch groups)) [
              | inr (e, bad) ↦ absurd (ground arith)
              | inl ((vs, rest), more) ↦
                  let ends : ◌≡◌
                      {A = List (String × HoldoutEvaluationV2 F) × List (EpochObservation F)}
                      ((strategy, v) ∷ vs, os ++ rest) r =
                    ground arith in
                  let (evidence, reports, names) =
                    evaluate_strategy-Reports strategy ms v os first in
                  let account =
                    evaluate_strategies-IsAccount groups {r = (vs, rest)} (ground arith) more in
                  subst (λ q. IsAccount ((strategy, ms) ∷ groups) q.1) ends
                    (extend strategy evidence v.reward ms groups os rest (ground arith) reports
                      names account)
            ]
      ]
