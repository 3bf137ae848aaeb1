-- ===== src/Scoring/Benchmark.antt =====
-- `score_benchmark` of planrace/scoring_v2.py: hard gates in order, then paired relative savings.
pub mod Savings
pub mod Gates
mod Tests
use planrace_subnet.Prelude.{
  ℕ, ◌+◌, ◌-◌, ◌*◌, String, Bool, true, false, not, ◌&&◌, ◌||◌, Option, none, some, List, [], ◌∷◌,
  map, Result, ok, err, ◌>>=◌, ◌>>◌, length, any, all, filter, count, ltb, leb, ◌==◌, nat_eq,
  string_eq, if◌then◌else◌, sequence,
}
use planrace_subnet.Floats.{Floats, FloatError, overflow, math_domain, divide, or_raise, fmin, fmax}
use planrace_subnet.Scoring.Stats.{
  StatsError, lift_float, fmean, winsorized_mean, robust_standard_error,
}
use planrace_subnet.Scoring.Trials.{
  Order, baseline_first, candidate_first, BenchmarkPolicy, InterleavedTrial, BenchmarkEvidence,
}

pub data FailureCode : Type 0 where
  insufficient_trials mixed_workers unbalanced_interleaving baseline_timeout : FailureCode
  result_mismatch policy_rejected timeout_rate_exceeded candidate_timeout : FailureCode
  timeout_order_imbalance no_relative_improvement : FailureCode

-- The codes of a broken benchmark, which must not update weights.
abbrev pub is_invalid : FailureCode → Bool
is_invalid insufficient_trials = true
is_invalid mixed_workers = true
is_invalid unbalanced_interleaving = true
is_invalid baseline_timeout = true
is_invalid _ = false

module _ (F : Floats) where
  open F use {Float, of_ℕ, add, sub, mul, square, lt, log2, pow2}

  pub record HorizonScore : Type 0 where
    pub horizon : ℕ
    pub relative_speedup : Float
    pub lower_confidence_speedup : Float
    pub relative_savings : Float

  pub record BenchmarkScore : Type 0 where
    pub eligible : Bool
    pub benchmark_valid : Bool
    pub reward : Float
    pub failure_code : Option FailureCode
    pub worker_id : Option String
    pub timeout_rate : Float
    pub storage_ratio : Float
    pub horizons : List HorizonScore

  abbrev pub is_baseline_first : InterleavedTrial F → Bool
  is_baseline_first t = elim t.order [ baseline_first ↦ true | candidate_first ↦ false ]

  -- Both orders occur, and as often as one another up to one.
  pub balanced : List (InterleavedTrial F) → Bool
  balanced trials =
      let b = count is_baseline_first trials in
      let c = count (λ t. not (is_baseline_first t)) trials in
      not (b == 0 || c == 0 || ltb (b + 1) c || ltb (c + 1) b)

  -- `len({trial.worker_id for trial in trials}) == 1`, and that worker
  pub only_worker : List (InterleavedTrial F) → Option String
  only_worker [] = none
  only_worker (t ∷ ts) = if all (λ u. u.worker_id == t.worker_id) ts then some t.worker_id else none

  pub completed : List (InterleavedTrial F) → List (InterleavedTrial F)
  completed = filter (λ t. not t.candidate_timed_out)

  -- The checks of the benchmark itself.
  unfoldable pub validity_gate : BenchmarkPolicy F → List (InterleavedTrial F) → Option FailureCode
  unfolding only_worker balanced
  validity_gate policy trials =
      if ltb (length trials) policy.minimum_trials
      then some insufficient_trials
      else elim (only_worker trials) [
        | none ↦ some mixed_workers
        | some _ ↦
            if not (balanced trials)
            then some unbalanced_interleaving
            else if any (λ t. t.baseline_timed_out) trials
            then some baseline_timeout
            else none
      ]

  -- The checks of the candidate, in a benchmark that is valid.
  pub candidate_gate : BenchmarkPolicy F → BenchmarkEvidence F → Float → Option FailureCode
  unfolding completed balanced
  candidate_gate policy e timeout_rate =
      let done = completed e.trials in
      if not e.correct
      then some result_mismatch
      else if not e.compliant
      then some policy_rejected
      else if lt policy.maximum_timeout_rate timeout_rate
      then some timeout_rate_exceeded
      else if ltb (length done) 2
      then some candidate_timeout
      else if not (balanced done)
      then some timeout_order_imbalance
      else none

  log_speedup : BenchmarkEvidence F → Float → ℕ → InterleavedTrial F → Result FloatError Float
  unfolding divide or_raise
  log_speedup e storage_multiplier horizon t = do
    let repeats = of_ℕ (horizon - 1)
    let baseline_total = add t.baseline_cold_ms (mul repeats t.baseline_warm_ms)
    let candidate_total =
        mul (add (add e.setup_ms t.candidate_cold_ms) (mul repeats t.candidate_warm_ms))
          storage_multiplier
    ratio ← divide F baseline_total candidate_total
    or_raise F (log2 ratio) math_domain

  -- `max(0.0, min(1.0, 1.0 - 1.0 / lower_confidence_speedup))`, from the inverse
  pub savings_of : Float → Float
  unfolding fmin fmax
  savings_of inverse = fmax F (of_ℕ 0) (fmin F (of_ℕ 1) (sub (of_ℕ 1) inverse))

  pub score_horizon :
      BenchmarkPolicy F
      → BenchmarkEvidence F
      → Float
      → List (InterleavedTrial F)
      → ℕ
      → Result StatsError HorizonScore
  unfolding log_speedup divide or_raise lift_float savings_of
  score_horizon policy e storage_multiplier done horizon = do
    log_speedups ← lift_float (sequence (map (log_speedup e storage_multiplier horizon) done))
    center ← winsorized_mean F log_speedups policy.winsor_fraction 1
    let lower_bound = sub center (mul policy.confidence_z (robust_standard_error F log_speedups))
    relative_speedup ← lift_float (or_raise F (pow2 center) overflow)
    lower_confidence_speedup ← lift_float (or_raise F (pow2 lower_bound) overflow)
    inverse ← lift_float (divide F (of_ℕ 1) lower_confidence_speedup)
    ok (record {
      horizon = horizon;
      relative_speedup = relative_speedup;
      lower_confidence_speedup = lower_confidence_speedup;
      relative_savings = savings_of inverse;
    })

  -- `zip(..., strict=True)` over the horizons: the policy's constructor has made the lengths equal.
  pub weighted_savings : Float → List HorizonScore → List Float → Float
  weighted_savings total (s ∷ ss) (w ∷ ws) =
      weighted_savings (add total (mul w s.relative_savings)) ss ws
  weighted_savings total _ _ = total

  pub failed : FailureCode → Option String → Float → Float → BenchmarkScore
  failed code worker_id timeout_rate storage_ratio = record {
    eligible = false;
    benchmark_valid = not (is_invalid code);
    reward = of_ℕ 0;
    failure_code = some code;
    worker_id = worker_id;
    timeout_rate = timeout_rate;
    storage_ratio = storage_ratio;
    horizons = [];
  }

  -- The result for a candidate that passed every gate.
  pub scored : Option String → Float → Float → List Float → List HorizonScore → BenchmarkScore
  unfolding weighted_savings
  scored worker_id timeout_rate storage_ratio weights scores =
      let savings = weighted_savings (of_ℕ 0) scores weights in
      -- Intermittent timeouts compound across repeated use.
      let reliability = square (sub (of_ℕ 1) timeout_rate) in
      let reward = mul (mul (of_ℕ 100) savings) reliability in
      let positive = lt (of_ℕ 0) reward in
      record {
        eligible = positive;
        benchmark_valid = true;
        reward = reward;
        failure_code = if positive then none else some no_relative_improvement;
        worker_id = worker_id;
        timeout_rate = timeout_rate;
        storage_ratio = storage_ratio;
        horizons = scores;
      }

  pub horizon_scores :
      BenchmarkPolicy F → BenchmarkEvidence F → Float → Result StatsError (List HorizonScore)
  unfolding score_horizon completed
  horizon_scores policy e storage_ratio =
      let penalty = mul storage_ratio policy.storage_penalty_at_database_size in
      sequence
        (map (score_horizon policy e (add (of_ℕ 1) penalty) (completed e.trials)) policy.horizons)

  -- The part after the gates.
  pub measured :
      BenchmarkPolicy F
      → BenchmarkEvidence F
      → Option String
      → Float
      → Float
      → Result StatsError BenchmarkScore
  unfolding horizon_scores scored
  measured policy e worker_id timeout_rate storage_ratio = do
    scores ← horizon_scores policy e storage_ratio
    ok (scored worker_id timeout_rate storage_ratio policy.horizon_weights scores)

  -- The worker that a failed validity check reports: none before the workers were compared.
  pub reported_worker : FailureCode → Option String → Option String
  reported_worker insufficient_trials w = none
  reported_worker code w = w

  -- What follows the check of the benchmark, given the rate of candidate timeouts.
  pub after_gate :
      BenchmarkPolicy F
      → BenchmarkEvidence F
      → Float
      → Result StatsError Float
      → Result StatsError BenchmarkScore
  unfolding failed
  after_gate policy e storage_ratio rate = do
    let worker_id = only_worker e.trials
    timeout_rate ← rate
    elim (candidate_gate policy e timeout_rate) [
      | some code ↦ ok (failed code worker_id timeout_rate storage_ratio)
      | none ↦ measured policy e worker_id timeout_rate storage_ratio
    ]

  timeouts : List (InterleavedTrial F) → List Float
  timeouts = map (λ t. if t.candidate_timed_out then of_ℕ 1 else of_ℕ 0)

  unfoldable pub score_benchmark :
      BenchmarkPolicy F → BenchmarkEvidence F → Result StatsError BenchmarkScore
  unfolding divide lift_float fmean failed reported_worker after_gate timeouts
  score_benchmark policy e = do
    storage_ratio ← lift_float (divide F (of_ℕ e.artifact_storage_bytes) (of_ℕ e.database_bytes))
    elim (validity_gate policy e.trials) [
      | some code ↦
          ok (failed code (reported_worker code (only_worker e.trials)) (of_ℕ 0) storage_ratio)
      | none ↦ after_gate policy e storage_ratio (lift_float (fmean F (timeouts e.trials)))
    ]
