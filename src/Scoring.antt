-- ===== src/Scoring.antt =====
-- planrace/scoring_v2.py
pub mod Stats
pub mod Trials
pub mod Benchmark
pub mod Observations
pub mod Dedup
pub mod Aggregate
pub mod Allocate
pub mod Plan
