-- ===== src/Scoring/Trials.antt =====
-- The measurements of planrace/scoring_v2.py and the checks of their constructors.
use planrace_subnet.Prelude.{
  ℕ, String, Bool, not, ◌&&◌, ◌||◌, List, Result, ◌>>◌, raise_if, length, any, ltb, ◌==◌, nat_eq,
  string_eq,
}
use planrace_subnet.Floats.{Floats}

pub data Order : Type 0 where
  baseline_first candidate_first : Order

pub data ConfigError : Type 0 where
  not_finite_non_negative bad_horizons weight_per_horizon bad_weights weights_not_one : ConfigError
  too_few_trials bad_winsor_fraction bad_timeout_rate no_worker_id zero_timing : ConfigError
  no_database_bytes : ConfigError

module _ (F : Floats) where
  open F use {Float, of_ℕ, decimal, lt, le, eq, is_finite}

  -- `_require_finite_non_negative`
  pub require_finite_non_negative : Float → Result ConfigError (Unit {0})
  require_finite_non_negative value =
      raise_if (not (is_finite value) || lt value (of_ℕ 0)) not_finite_non_negative

  pub record BenchmarkPolicy : Type 0 where
    pub horizons : List ℕ
    pub horizon_weights : List Float
    pub minimum_trials : ℕ
    pub winsor_fraction : Float
    pub confidence_z : Float
    pub maximum_timeout_rate : Float
    pub storage_penalty_at_database_size : Float

  -- `BenchmarkPolicy.__post_init__`; `sums_to_one` is `math.isclose(math.fsum(ws), 1.0, ...)`.
  pub check_policy : (List Float → Bool) → BenchmarkPolicy → Result ConfigError (Unit {0})
  unfolding require_finite_non_negative
  check_policy sums_to_one p = do
    raise_if (length p.horizons == 0 || any (λ h. ltb h 1) p.horizons) bad_horizons
    raise_if (not (length p.horizons == length p.horizon_weights)) weight_per_horizon
    raise_if (any (λ w. lt w (of_ℕ 0) || not (is_finite w)) p.horizon_weights) bad_weights
    raise_if (not (sums_to_one p.horizon_weights)) weights_not_one
    raise_if (ltb p.minimum_trials 2) too_few_trials
    raise_if (not (le (of_ℕ 0) p.winsor_fraction && lt p.winsor_fraction (decimal 5 1)))
        bad_winsor_fraction
    require_finite_non_negative p.confidence_z
    raise_if (not (le (of_ℕ 0) p.maximum_timeout_rate && lt p.maximum_timeout_rate (of_ℕ 1)))
        bad_timeout_rate
    require_finite_non_negative p.storage_penalty_at_database_size

  pub record InterleavedTrial : Type 0 where
    pub worker_id : String
    pub order : Order
    pub baseline_cold_ms : Float
    pub candidate_cold_ms : Float
    pub baseline_warm_ms : Float
    pub candidate_warm_ms : Float
    pub baseline_timed_out : Bool
    pub candidate_timed_out : Bool

  check_timing : Float → Result ConfigError (Unit {0})
  unfolding require_finite_non_negative
  check_timing value = do
    require_finite_non_negative value
    raise_if (eq value (of_ℕ 0)) zero_timing

  -- `InterleavedTrial.__post_init__`; the type of `order` is its check.
  unfoldable pub check_trial : InterleavedTrial → Result ConfigError (Unit {0})
  unfolding check_timing
  check_trial t = do
    raise_if (t.worker_id == "") no_worker_id
    check_timing t.baseline_cold_ms
    check_timing t.candidate_cold_ms
    check_timing t.baseline_warm_ms
    check_timing t.candidate_warm_ms

  pub record BenchmarkEvidence : Type 0 where
    pub correct : Bool
    pub compliant : Bool
    pub setup_ms : Float
    pub artifact_storage_bytes : ℕ
    pub database_bytes : ℕ
    pub trials : List InterleavedTrial

  -- `BenchmarkEvidence.__post_init__`; byte counts are natural numbers.
  unfoldable pub check_evidence : BenchmarkEvidence → Result ConfigError (Unit {0})
  unfolding require_finite_non_negative
  check_evidence e = do
    require_finite_non_negative e.setup_ms
    raise_if (e.database_bytes == 0) no_database_bytes
