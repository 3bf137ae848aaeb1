-- ===== src/Sandbox.antt =====
-- The requests and transcripts of the sandbox worker, planrace/sandbox_v2.py, with the checks of
-- their constructors. The worker itself is outside the model.
pub mod Evidence
use planrace_subnet.Prelude.{
  ℕ, ◌%◌, String, Bool, true, false, not, ◌&&◌, ◌||◌, Option, none, some, List, [], ◌∷◌, Result, ok,
  err, ◌>>=◌, ◌>>◌, raise_if, length, all, any, ltb, ◌==◌, nat_eq, string_eq,
}
use planrace_subnet.Prelude.Int.{ℤ}
use planrace_subnet.Floats.{Floats}
use planrace_subnet.Models.Texts.{has_length}
use planrace_subnet.Models.Bundle.{OptimizationBundle}
use planrace_subnet.Models.Task.{PublicTaskV2, Endpoint}
use planrace_subnet.Models.Reveal.{HiddenFixtureDescriptor, TaskRevealV2, descriptor_eq}
use planrace_subnet.Scoring.Trials.{Order, BenchmarkPolicy}

pub data SandboxError : Type 0 where
  too_many_parameters bad_trial_count unbalanced_trials : SandboxError
  foreign_identifiers foreign_engine foreign_fixture : SandboxError
  bad_timing bad_worker : SandboxError

module _ (F : Floats) where
  open F use {Float, of_ℕ, lt}

  -- A parameter is an endpoint, or null.
  pub record SandboxRequestV2 : Type 0 where
    pub task : PublicTaskV2
    pub reveal : TaskRevealV2
    pub fixture : HiddenFixtureDescriptor
    pub bundle : OptimizationBundle
    pub parameters : List (Option Endpoint)
    pub ordered : Bool
    pub trial_count : ℕ
    pub benchmark_policy : BenchmarkPolicy F

  -- The constraints of the fields and `require_balanced_trials`.
  unfoldable pub check_sandbox_request : SandboxRequestV2 → Result SandboxError (Unit {0})
  check_sandbox_request r = do
    raise_if (ltb 32 (length r.parameters)) too_many_parameters
    raise_if (ltb r.trial_count 6 || ltb 24 r.trial_count) bad_trial_count
    raise_if (not (r.trial_count % 2 == 0)) unbalanced_trials
    raise_if (not (r.bundle.task_id == r.task.task_id) || not (r.reveal.task_id == r.task.task_id))
        foreign_identifiers
    raise_if (not (r.bundle.engine_image_digest == r.task.engine_image_digest)) foreign_engine
    raise_if (not (any (descriptor_eq r.fixture) r.reveal.hidden_fixtures)) foreign_fixture

  pub record SandboxTrialV2 : Type 0 where
    pub worker_id : String
    pub order : Order
    pub baseline_cold_ms : Float
    pub candidate_cold_ms : Float
    pub baseline_warm_ms : Float
    pub candidate_warm_ms : Float
    pub baseline_timed_out : Bool
    pub candidate_timed_out : Bool

  -- The constraints of the fields of `SandboxTrialV2`.
  pub check_sandbox_trial : SandboxTrialV2 → Result SandboxError (Unit {0})
  check_sandbox_trial t = do
    raise_if (not (has_length 1 128 t.worker_id)) bad_worker
    raise_if
        (not (
          lt (of_ℕ 0) t.baseline_cold_ms
          && lt (of_ℕ 0) t.candidate_cold_ms
          && lt (of_ℕ 0) t.baseline_warm_ms
          && lt (of_ℕ 0) t.candidate_warm_ms))
        bad_timing

  pub record SandboxResultV2 : Type 0 where
    pub success : Bool
    pub failure_code : Option String
    pub engine : String
    pub artifact_digest : String
    pub task_id : String
    pub task_commitment : String
    pub fixture_id : String
    pub fixture_content_digest : String
    pub hidden_fixture_merkle_root : String
    pub reference_digest : Option String
    pub candidate_digest : Option String
    pub correct : Bool
    pub compliant : Bool
    pub row_count : ℕ
    pub setup_ms : Float
    pub worker_id : Option String
    pub trials : List SandboxTrialV2
    pub database_bytes : ℕ
    pub artifact_storage_bytes : ℕ
    pub candidate_plan : List String
    pub used_index_names : List String
