-- ===== src/Sandbox/Evidence.antt =====
-- `benchmark_evidence_from_sandbox` of planrace/scoring_v2.py.
use planrace_subnet.Prelude.{map, max, Result, ok, ◌>>=◌, ◌>>◌, sequence}
use planrace_subnet.Floats.{Floats}
use planrace_subnet.Scoring.Trials.{
  ConfigError, InterleavedTrial, BenchmarkEvidence, check_trial, check_evidence,
}
use planrace_subnet.Sandbox.{SandboxTrialV2, SandboxResultV2}

module _ (F : Floats) where
  -- `InterleavedTrial(...)` of a trial of the transcript, with the checks of its constructor
  pub interleaved_trial : SandboxTrialV2 F → Result ConfigError (InterleavedTrial F)
  interleaved_trial t = do
    let trial : InterleavedTrial F = record {
      worker_id = t.worker_id;
      order = t.order;
      baseline_cold_ms = t.baseline_cold_ms;
      candidate_cold_ms = t.candidate_cold_ms;
      baseline_warm_ms = t.baseline_warm_ms;
      candidate_warm_ms = t.candidate_warm_ms;
      baseline_timed_out = t.baseline_timed_out;
      candidate_timed_out = t.candidate_timed_out;
    }
    check_trial F trial
    ok trial

  unfoldable pub benchmark_evidence_from_sandbox :
      SandboxResultV2 F → Result ConfigError (BenchmarkEvidence F)
  unfolding interleaved_trial
  benchmark_evidence_from_sandbox result = do
    trials ← sequence (map interleaved_trial result.trials)
    let evidence : BenchmarkEvidence F = record {
      correct = result.correct;
      compliant = result.compliant;
      setup_ms = result.setup_ms;
      artifact_storage_bytes = result.artifact_storage_bytes;
      database_bytes = max 1 result.database_bytes;
      trials = trials;
    }
    check_evidence F evidence
    ok evidence
