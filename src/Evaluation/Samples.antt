-- ===== src/Evaluation/Samples.antt =====
-- A small evaluation for the examples.
use planrace_subnet.Prelude.{true, false, none, some, [], ◌∷◌}
use planrace_subnet.Floats.Fixed.{fixed}
use planrace_subnet.Models.Bundle.{OptimizationBundle}
use planrace_subnet.Models.Index.{asc}
use planrace_subnet.Tasks.Lifecycle.{PrivateTaskV2}
use planrace_subnet.Scoring.Benchmark.{BenchmarkScore}
use planrace_subnet.Sandbox.{SandboxResultV2}
use planrace_subnet.Evaluation.Behavior.{FixtureEvaluationV2}
use planrace_subnet.Auth.Samples.{task, bundle}

abbrev pub private_task : PrivateTaskV2
private_task = record {
  public = task;
  reveal = record {
    task_id = "t";
    secret_seed_hex = "0";
    salt_hex = "1";
    hidden_fixtures = [];
    hidden_fixture_merkle_root = "m";
  };
}

abbrev pub indexed_bundle : OptimizationBundle
indexed_bundle = record bundle {
  indexes =
      record {
        table = "orders";
        key_columns = record { column = "day"; direction = asc } ∷ [];
        include_columns = [];
        unique = false;
        predicate = none;
      }
      ∷ [];
}

abbrev pub result : SandboxResultV2 fixed
result = record {
  success = true;
  failure_code = none;
  engine = "sqlite";
  artifact_digest = "sha256:ab";
  task_id = "t";
  task_commitment = "c";
  fixture_id = "h";
  fixture_content_digest = "d";
  hidden_fixture_merkle_root = "m";
  reference_digest = some "r";
  candidate_digest = some "r";
  correct = true;
  compliant = true;
  row_count = 1;
  setup_ms = fixed.of_ℕ 1;
  worker_id = some "w";
  trials = [];
  database_bytes = 1;
  artifact_storage_bytes = 0;
  candidate_plan = "SEARCH orders USING INDEX planrace_0123456789abcdef0123 (day>?)" ∷ [];
  used_index_names = "planrace_0123456789abcdef0123" ∷ [];
}

abbrev pub score : BenchmarkScore fixed
score = record {
  eligible = true;
  benchmark_valid = true;
  reward = fixed.of_ℕ 50;
  failure_code = none;
  worker_id = some "w";
  timeout_rate = fixed.of_ℕ 0;
  storage_ratio = fixed.of_ℕ 0;
  horizons = [];
}

abbrev pub evaluation : FixtureEvaluationV2 fixed
evaluation = record { fixture_id = "h"; result = result; score = score }
