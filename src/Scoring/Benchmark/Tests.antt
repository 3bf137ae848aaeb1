-- ===== src/Scoring/Benchmark/Tests.antt =====
-- Concrete runs of `score_benchmark`, on fixed-point numbers.
use planrace_subnet.Prelude.{◌≡◌, refl, ◌↔◌, true, false, [], ◌∷◌, ok, none, some}
use planrace_subnet.Floats.Fixed.{fixed}
use planrace_subnet.Scoring.Stats.{winsorized_mean, robust_standard_error}
use planrace_subnet.Scoring.Trials.{
  Order, baseline_first, candidate_first, BenchmarkPolicy, InterleavedTrial, BenchmarkEvidence,
}
use planrace_subnet.Scoring.Benchmark.{
  BenchmarkScore, score_benchmark, validity_gate, candidate_gate, measured,
}
use planrace_subnet.Scoring.Benchmark.Gates.{
  IsFair, IsEarned, score_benchmark-eligible, score_benchmark-IsFair, score_benchmark-IsEarned,
}

abbrev trial : Order → InterleavedTrial fixed
trial order = record {
  worker_id = "w";
  order = order;
  baseline_cold_ms = fixed.of_ℕ 40;
  candidate_cold_ms = fixed.of_ℕ 10;
  baseline_warm_ms = fixed.of_ℕ 40;
  candidate_warm_ms = fixed.of_ℕ 10;
  baseline_timed_out = false;
  candidate_timed_out = false;
}

abbrev policy : BenchmarkPolicy fixed
policy = record {
  horizons = 1 ∷ [];
  horizon_weights = fixed.of_ℕ 1 ∷ [];
  minimum_trials = 2;
  winsor_fraction = fixed.of_ℕ 0;
  confidence_z = fixed.of_ℕ 1;
  maximum_timeout_rate = fixed.decimal 5 1;
  storage_penalty_at_database_size = fixed.of_ℕ 0;
}

abbrev evidence : BenchmarkEvidence fixed
evidence = record {
  correct = true;
  compliant = true;
  setup_ms = fixed.of_ℕ 0;
  artifact_storage_bytes = 1;
  database_bytes = 100;
  trials = trial baseline_first ∷ trial candidate_first ∷ [];
}

abbrev result : BenchmarkScore fixed
result = record {
  eligible = true;
  benchmark_valid = true;
  reward = fixed.of_ℕ 75;
  failure_code = none;
  worker_id = some "w";
  timeout_rate = fixed.of_ℕ 0;
  storage_ratio = fixed.decimal 1 2;
  horizons =
      record {
        horizon = 1;
        relative_speedup = fixed.of_ℕ 4;
        lower_confidence_speedup = fixed.of_ℕ 4;
        relative_savings = fixed.decimal 75 2;
      }
      ∷ [];
}

returns : score_benchmark fixed policy evidence ≡ ok result
unfolding score_benchmark fixed validity_gate candidate_gate measured winsorized_mean
    robust_standard_error
returns = refl

score_benchmark-eligible_example :
    ((result.eligible ≡ true) ↔ (result.failure_code ≡ none))
    × ((result.eligible ≡ true) ↔ (fixed.lt (fixed.of_ℕ 0) result.reward ≡ true))
score_benchmark-eligible_example = score_benchmark-eligible fixed policy evidence result returns

score_benchmark-IsFair_example : IsFair fixed policy evidence result
score_benchmark-IsFair_example = score_benchmark-IsFair fixed policy evidence result returns refl

score_benchmark-IsEarned_example : IsEarned fixed policy evidence result
score_benchmark-IsEarned_example =
    score_benchmark-IsEarned fixed policy evidence result returns refl
