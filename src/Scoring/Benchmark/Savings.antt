-- ===== src/Scoring/Benchmark/Savings.antt =====
-- The measured part of `score_benchmark`: the bounds of the savings of each horizon.
use planrace_subnet.Prelude.{ℕ, ◌≡◌, true, List, ok, arith, sequence-map, All₂}
use planrace_subnet.Floats.{Floats}
use planrace_subnet.Scoring.Trials.{BenchmarkPolicy, InterleavedTrial, BenchmarkEvidence}
use planrace_subnet.Scoring.Benchmark.{HorizonScore, savings_of, score_horizon, horizon_scores}

module _ (F : Floats) where
  open F use {Float, of_ℕ, le, lt, le_of_lt, le_of_ℕ}

  -- `0 <= relative_savings <= 1`
  abbrev pub IsFraction : Float → Type 0
  IsFraction x = (le (of_ℕ 0) x ≡ true) × (le x (of_ℕ 1) ≡ true)

  savings_of-IsFraction : (inverse : Float) → IsFraction (savings_of F inverse)
  unfolding savings_of
  savings_of-IsFraction inverse =
      let x = F.sub (of_ℕ 1) inverse in
      ground (
        arith,
        le_of_lt x (of_ℕ 1),
        le_of_lt (of_ℕ 0) x,
        le_of_lt (of_ℕ 0) (of_ℕ 1),
        le_of_ℕ 0 0,
        le_of_ℕ 0 1,
        le_of_ℕ 1 1,
      )

  score_horizon_lem :
      (p : BenchmarkPolicy F) (e : BenchmarkEvidence F) (m : Float) (ts : List (InterleavedTrial F))
      (h : ℕ) (s : HorizonScore F)
      → score_horizon F p e m ts h ≡ ok s
      → (s.horizon ≡ h) × IsFraction s.relative_savings
  unfolding score_horizon
  score_horizon_lem p e m ts h s eq = grind (arith, savings_of-IsFraction)

  -- What the score of one horizon promises.
  abbrev pub ScoresHorizon : ℕ → HorizonScore F → Type 0
  ScoresHorizon h s = (s.horizon ≡ h) × IsFraction s.relative_savings

  pub horizon_scores_lem :
      (p : BenchmarkPolicy F) (e : BenchmarkEvidence F) (ratio : Float) (ss : List (HorizonScore F))
      → horizon_scores F p e ratio ≡ ok ss
      → All₂ ScoresHorizon p.horizons ss
  unfolding horizon_scores
  horizon_scores_lem p e ratio ss h =
      sequence-map ScoresHorizon _ (λ horizon s eq. score_horizon_lem p e _ _ horizon s eq)
        p.horizons ss h
