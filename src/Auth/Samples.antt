-- ===== src/Auth/Samples.antt =====
-- A small task, request and response for the examples. Hashes and signatures are constant.
use planrace_subnet.Prelude.{ℕ, String, Bool, true, some, List, [], ◌∷◌}
use planrace_subnet.Models.Bundle.{OptimizationBundle}
use planrace_subnet.Models.Task.{PublicTaskV2}
use planrace_subnet.Models.Exchange.{OptimizationRequestV2, SignedOptimizationResponse}
use planrace_subnet.Auth.Verify.{Attempt}

abbrev pub sha256 : List ℕ → String
sha256 bs = "ab"

abbrev pub verify : String → List ℕ → List ℕ → Bool
verify hotkey message signature = true

abbrev pub task : PublicTaskV2
task = record {
  task_id = "t";
  validator_hotkey = "v";
  engine_image_digest = "e";
  generator_source_digest = "g";
  benchmark_policy_digest = "p";
  benchmark_family_id = "f";
  schema_sql = "s";
  reference_sql = "r";
  public_training_fixture = record {
    fixture_id = "x";
    generator_seed_hex = "0";
    content_digest = "c";
    row_count = 1;
  };
  parameter_ranges = [];
  published_statistics = record {
    row_count_min = 1;
    row_count_max = 2;
    selectivity_min_bps = 1;
    selectivity_max_bps = 2;
    data_profiles = "uniform" ∷ [];
  };
  artifact_budget = record {
    max_indexes = 4;
    max_columns_per_index = 8;
    max_predicates_per_index = 8;
    max_bundle_bytes = 1024;
  };
  artifact_grammar = record {
    allowed_predicate_operators = [];
    allows_unique = true;
    allows_partial = true;
  };
  hidden_holdout_count = 2;
  commitment = "c";
  deadline_unix_ms = 9;
}

abbrev pub request : OptimizationRequestV2
request = record {
  request_id = "q";
  task = task;
  validator_hotkey = "v";
  miner_hotkey = "m";
  request_nonce = 7;
  issued_at_unix_ms = 1;
  expires_at_unix_ms = 9;
}

abbrev pub bundle : OptimizationBundle
bundle = record {
  task_id = "t";
  engine_image_digest = "e";
  indexes = [];
  metadata = record { strategy = "s"; estimated_intent = "no_index"; rationale = "" };
  artifact_digest = "sha256:ab";
}

abbrev pub response : SignedOptimizationResponse
response = record {
  request_id = "q";
  task_id = "t";
  request_digest = "sha256:ab";
  validator_hotkey = "v";
  miner_hotkey = "m";
  request_nonce = 7;
  issued_at_unix_ms = 2;
  expires_at_unix_ms = 8;
  artifact_digest = "sha256:ab";
  artifact = bundle;
  signature = "0f";
}

abbrev pub attempt : ℕ → Attempt
attempt now = record {
  response = response;
  request = request;
  expected_miner_uid = 3;
  metagraph_hotkeys = λ uid. some "m";
  now_unix_ms = now;
  max_clock_skew_ms = 0;
  store_clock = now;
}
