-- ===== src/Scoring/Benchmark/Gates.antt =====
-- The gates of `score_benchmark`: what an eligible score guarantees, and what each failure earns.
use planrace_subnet.Prelude.{
  ◌+◌, ◌≤◌, ◌≡◌, refl, ◌↔◌, inl, inr, String, true, false, not, Option, none, some, List, [], ◌∷◌,
  Result, ok, length, any, all, count, ◌==◌, nat_eq, string_eq, arith, Option-cases, All, All₂,
  Ensures, Ensures-bind, of_Ensures,
}
use mathlib.Core.Path.{subst}
use text.Mathlib.TextEquality.{eq_iff}
use planrace_subnet.Floats.{Floats, divide}
use planrace_subnet.Scoring.Stats.{StatsError, lift_float}
use planrace_subnet.Scoring.Trials.{BenchmarkPolicy, InterleavedTrial, BenchmarkEvidence}
use planrace_subnet.Scoring.Benchmark.{
  BenchmarkScore, HorizonScore, FailureCode, is_invalid, is_baseline_first, scored, balanced,
  only_worker, completed, validity_gate, candidate_gate, horizon_scores, measured, after_gate,
  failed, score_benchmark,
}
use planrace_subnet.Scoring.Benchmark.Savings.{ScoresHorizon, horizon_scores_lem}

module _ (F : Floats) where
  open F use {Float, of_ℕ, lt}

  -- Both execution orders occur, and as often as one another up to one.
  pub record IsInterleaved (ts : List (InterleavedTrial F)) : Type 0 where
    pub some_baseline_first : 1 ≤ count (is_baseline_first F) ts
    pub some_candidate_first : 1 ≤ count (λ t. not (is_baseline_first F t)) ts
    pub more_baseline :
        count (is_baseline_first F) ts ≤ count (λ t. not (is_baseline_first F t)) ts + 1
    pub more_candidate :
        count (λ t. not (is_baseline_first F t)) ts ≤ count (is_baseline_first F) ts + 1

  balanced-IsInterleaved :
      (ts : List (InterleavedTrial F)) → balanced F ts ≡ true → IsInterleaved ts
  unfolding balanced
  balanced-IsInterleaved ts h = ground arith

  abbrev SameWorker : String → List (InterleavedTrial F) → Type 0
  SameWorker w = All (λ t. t.worker_id ≡ w)

  all-SameWorker :
      (w : String) (ts : List (InterleavedTrial F))
      → all (λ u. u.worker_id == w) ts ≡ true
      → SameWorker w ts
  all-SameWorker w [] h = tt
  all-SameWorker w (t ∷ ts) h =
      (ground (arith, eq_iff t.worker_id w), all-SameWorker w ts (ground arith))

  only_worker-SameWorker :
      (ts : List (InterleavedTrial F)) (w : String) → only_worker F ts ≡ some w → SameWorker w ts
  unfolding only_worker
  only_worker-SameWorker [] w h = tt
  only_worker-SameWorker (t ∷ ts) w h =
      let e : t.worker_id ≡ w = ground arith in
      (e, subst (λ v. SameWorker v ts) e (all-SameWorker t.worker_id ts (ground arith)))

  -- What a score says of the evidence that it was made from.
  record IsSound (p : BenchmarkPolicy F) (e : BenchmarkEvidence F) (r : BenchmarkScore F)
      : Type 0 where
    eligible_iff_no_failure : (r.eligible ≡ true) ↔ (r.failure_code ≡ none)
    eligible_iff_reward : (r.eligible ≡ true) ↔ (lt (of_ℕ 0) r.reward ≡ true)
    eligible_valid : r.eligible ≡ true → r.benchmark_valid ≡ true
    enough_trials : r.benchmark_valid ≡ true → p.minimum_trials ≤ length e.trials
    one_worker :
        r.benchmark_valid ≡ true → (w : String) × (r.worker_id ≡ some w) × SameWorker w e.trials
    interleaved : r.benchmark_valid ≡ true → IsInterleaved e.trials
    baseline_completed : r.benchmark_valid ≡ true → any (λ t. t.baseline_timed_out) e.trials ≡ false
    exact : r.eligible ≡ true → (e.correct ≡ true) × (e.compliant ≡ true)
    few_timeouts : r.eligible ≡ true → lt p.maximum_timeout_rate r.timeout_rate ≡ false
    saved : r.eligible ≡ true → All₂ (ScoresHorizon F) p.horizons r.horizons
    interleaved_completed : r.eligible ≡ true → IsInterleaved (completed F e.trials)

  validity_gate-none :
      (p : BenchmarkPolicy F) (ts : List (InterleavedTrial F))
      → validity_gate F p ts ≡ none
      → (p.minimum_trials ≤ length ts)
        × (balanced F ts ≡ true)
        × (any (λ t. t.baseline_timed_out) ts ≡ false)
        × ((w : String) × (only_worker F ts ≡ some w))
  unfolding validity_gate
  validity_gate-none p ts h = elim (Option-cases (only_worker F ts)) [
    | inl e ↦ absurd (ground arith)
    | inr (w, e) ↦ (ground arith, ground arith, ground arith, (w, e))
  ]

  candidate_gate-none :
      (p : BenchmarkPolicy F) (e : BenchmarkEvidence F) (rate : Float)
      → candidate_gate F p e rate ≡ none
      → (e.correct ≡ true)
        × (e.compliant ≡ true)
        × (lt p.maximum_timeout_rate rate ≡ false)
        × (2 ≤ length (completed F e.trials))
        × (balanced F (completed F e.trials) ≡ true)
  unfolding candidate_gate
  candidate_gate-none p e rate h = ground arith

  failed_invalid-IsSound :
      (p : BenchmarkPolicy F) (e : BenchmarkEvidence F) (c : FailureCode) (w : Option String)
      (rate ratio : Float)
      → is_invalid c ≡ true
      → IsSound p e (failed F c w rate ratio)
  unfolding failed
  failed_invalid-IsSound p e c w rate ratio h = ground (arith, F.lt_irrefl (of_ℕ 0))

  validity_gate-some :
      (p : BenchmarkPolicy F) (ts : List (InterleavedTrial F)) (c : FailureCode)
      → validity_gate F p ts ≡ some c
      → is_invalid c ≡ true
  unfolding validity_gate
  validity_gate-some p ts c h = ground arith

  candidate_gate-some :
      (p : BenchmarkPolicy F) (e : BenchmarkEvidence F) (rate : Float) (c : FailureCode)
      → candidate_gate F p e rate ≡ some c
      → is_invalid c ≡ false
  unfolding candidate_gate
  candidate_gate-some p e rate c h = ground arith

  module _ (p : BenchmarkPolicy F) (e : BenchmarkEvidence F)
      (valid : validity_gate F p e.trials ≡ none) where
    facts :
        (p.minimum_trials ≤ length e.trials)
        × IsInterleaved e.trials
        × (any (λ t. t.baseline_timed_out) e.trials ≡ false)
        × ((w : String) × (only_worker F e.trials ≡ some w) × SameWorker w e.trials)
    facts =
        let g = validity_gate-none p e.trials valid in
        (
          g.0,
          balanced-IsInterleaved e.trials g.1,
          g.2,
          (g.3.0, g.3.1, only_worker-SameWorker e.trials g.3.0 g.3.1),
        )

    failed_valid-IsSound :
        (c : FailureCode) (rate ratio : Float)
        → IsSound p e (failed F c (only_worker F e.trials) rate ratio)
    unfolding failed
    failed_valid-IsSound c rate ratio = record {
      eligible_iff_no_failure = (λ h. cc, λ h. cc);
      eligible_iff_reward = (λ h. cc, λ h. cc (F.lt_irrefl (of_ℕ 0)));
      eligible_valid = λ h. cc;
      enough_trials = λ h. facts.0;
      one_worker = λ h. facts.3;
      interleaved = λ h. facts.1;
      baseline_completed = λ h. facts.2;
      exact = λ h. cc;
      few_timeouts = λ h. cc;
      saved = λ h. cc;
      interleaved_completed = λ h. cc;
    }

    scored-IsSound :
        (rate ratio : Float) (weights : List Float) (scores : List (HorizonScore F))
        → candidate_gate F p e rate ≡ none
        → All₂ (ScoresHorizon F) p.horizons scores
        → IsSound p e (scored F (only_worker F e.trials) rate ratio weights scores)
    unfolding scored
    scored-IsSound rate ratio weights scores h bounds =
        let g = candidate_gate-none p e rate h in
        record {
          eligible_iff_no_failure = ground arith;
          eligible_iff_reward = (λ h. h, λ h. h);
          eligible_valid = λ h. refl;
          enough_trials = λ h. facts.0;
          one_worker = λ h. facts.3;
          interleaved = λ h. facts.1;
          baseline_completed = λ h. facts.2;
          exact = λ h. (g.0, g.1);
          few_timeouts = λ h. g.2;
          saved = λ h. bounds;
          interleaved_completed = λ h. balanced-IsInterleaved (completed F e.trials) g.4;
        }

    measured-Ensures :
        (rate ratio : Float)
        → candidate_gate F p e rate ≡ none
        → Ensures (IsSound p e) (measured F p e (only_worker F e.trials) rate ratio)
    unfolding measured
    measured-Ensures rate ratio h =
        Ensures-bind (IsSound p e) (horizon_scores F p e ratio) _ λ scores eq.
          scored-IsSound rate ratio p.horizon_weights scores h
            (horizon_scores_lem F p e ratio scores eq)

    after-Ensures :
        (rates : Result StatsError Float) (ratio : Float)
        → Ensures (IsSound p e) (after_gate F p e ratio rates)
    unfolding after_gate
    after-Ensures rates ratio = Ensures-bind (IsSound p e) rates _ λ rate _.
        elim (Option-cases (candidate_gate F p e rate)) [
          | inr (c, refused) ↦ rw refused (failed_valid-IsSound c rate ratio)
          | inl passed ↦ rw passed (measured-Ensures rate ratio passed)
        ]

  score_benchmark-Ensures :
      (p : BenchmarkPolicy F) (e : BenchmarkEvidence F)
      → Ensures (IsSound p e) (score_benchmark F p e)
  unfolding score_benchmark
  score_benchmark-Ensures p e =
      Ensures-bind (IsSound p e)
        (lift_float (divide F (of_ℕ e.artifact_storage_bytes) (of_ℕ e.database_bytes))) _
        λ ratio _. elim (Option-cases (validity_gate F p e.trials)) [
          | inr (c, broken) ↦
              rw broken
                (failed_invalid-IsSound p e c _ _ _ (validity_gate-some p e.trials c broken))
          | inl valid ↦ rw valid (after-Ensures p e valid _ ratio)
        ]

  score_benchmark-IsSound :
      (p : BenchmarkPolicy F) (e : BenchmarkEvidence F) (r : BenchmarkScore F)
      → score_benchmark F p e ≡ ok r
      → IsSound p e r
  score_benchmark-IsSound p e r h =
      of_Ensures (IsSound p e) (score_benchmark F p e) (score_benchmark-Ensures p e) h

  -- A score that is returned is eligible exactly when it carries no failure code, and exactly when
  -- its reward is above zero.
  pub score_benchmark-eligible :
      (p : BenchmarkPolicy F) (e : BenchmarkEvidence F) (r : BenchmarkScore F)
      → score_benchmark F p e ≡ ok r
      → ((r.eligible ≡ true) ↔ (r.failure_code ≡ none))
        × ((r.eligible ≡ true) ↔ (lt (of_ℕ 0) r.reward ≡ true))
  score_benchmark-eligible p e r h =
      let s = score_benchmark-IsSound p e r h in (s.eligible_iff_no_failure, s.eligible_iff_reward)

  -- A benchmark that may be counted.
  pub record IsFair (p : BenchmarkPolicy F) (e : BenchmarkEvidence F) (r : BenchmarkScore F)
      : Type 0 where
    pub enough_trials : p.minimum_trials ≤ length e.trials
    pub one_worker : (w : String) × (r.worker_id ≡ some w) × SameWorker w e.trials
    pub interleaved : IsInterleaved e.trials
    pub baseline_completed : any (λ t. t.baseline_timed_out) e.trials ≡ false

  -- A score that is returned as valid was made from at least the policy's minimum number of
  -- trials, all of the one worker that it names, in both execution orders and as often in one as in
  -- the other up to one, with no timed out baseline.
  pub score_benchmark-IsFair :
      (p : BenchmarkPolicy F) (e : BenchmarkEvidence F) (r : BenchmarkScore F)
      → score_benchmark F p e ≡ ok r
      → r.benchmark_valid ≡ true
      → IsFair p e r
  score_benchmark-IsFair p e r h valid =
      let s = score_benchmark-IsSound p e r h in
      record {
        enough_trials = s.enough_trials valid;
        one_worker = s.one_worker valid;
        interleaved = s.interleaved valid;
        baseline_completed = s.baseline_completed valid;
      }

  -- A candidate that earned its score.
  pub record IsEarned (p : BenchmarkPolicy F) (e : BenchmarkEvidence F) (r : BenchmarkScore F)
      : Type 0 where
    pub valid : r.benchmark_valid ≡ true
    pub correct : e.correct ≡ true
    pub compliant : e.compliant ≡ true
    pub few_timeouts : lt p.maximum_timeout_rate r.timeout_rate ≡ false
    pub saved : All₂ (ScoresHorizon F) p.horizons r.horizons
    pub interleaved_completed : IsInterleaved (completed F e.trials)

  -- A score that is returned as eligible is valid, and was made from a result that was correct and
  -- compliant, with a timeout rate that does not exceed the policy's maximum and completed trials
  -- in both orders. It holds one score for each horizon of the policy, with savings between zero
  -- and one.
  pub score_benchmark-IsEarned :
      (p : BenchmarkPolicy F) (e : BenchmarkEvidence F) (r : BenchmarkScore F)
      → score_benchmark F p e ≡ ok r
      → r.eligible ≡ true
      → IsEarned p e r
  score_benchmark-IsEarned p e r h eligible =
      let s = score_benchmark-IsSound p e r h in
      record {
        valid = s.eligible_valid eligible;
        correct = (s.exact eligible).0;
        compliant = (s.exact eligible).1;
        few_timeouts = s.few_timeouts eligible;
        saved = s.saved eligible;
        interleaved_completed = s.interleaved_completed eligible;
      }
