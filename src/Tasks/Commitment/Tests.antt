-- ===== src/Tasks/Commitment/Tests.antt =====
-- A concrete task with two private fixtures. The hash is constant.
use mathlib.Core.List.{flat_map}
use planrace_subnet.Prelude.{
  ℕ, ◌≡◌, ◌≢◌, refl, String, true, none, List, [], ◌∷◌, ok, err, replicate,
}
use planrace_subnet.Prelude.Int.{pos}
use planrace_subnet.Prelude.Sort.{sort}
use planrace_subnet.Digest.Payload.{quoted, join, decimal}
use planrace_subnet.Digest.{domain_separated_digest}
use planrace_subnet.Models.Texts.{
  is_sha256_digest, is_opaque_id, is_hex_32_bytes, is_hotkey, is_safe_identifier, is_family_id,
  has_length,
}
use planrace_subnet.Models.Task.{PublicTaskV2, integer, check_task}
use planrace_subnet.Models.Reveal.{HiddenFixtureDescriptor, check_reveal}
use planrace_subnet.Tasks.Lifecycle.{PrivateTaskV2}
use planrace_subnet.Tasks.Commitment.{
  is_regenerated, out_of_fuel, Factory, create_task_v2, assemble, commitment_digest,
  hidden_fixture_merkle_root, leaves, next_level, merkle_loop, audit_task_reveal, node,
}
use planrace_subnet.Tasks.Commitment.Roundtrip.{
  hidden_fixture_merkle_root-ends, create_task_v2-audited, audit_task_reveal-IsCommitted,
  IsCommitted,
}

abbrev hash : String
hash = "abababababababababababababababababababababababababababababababab"

abbrev sha256 : List ℕ → String
sha256 bs = hash

abbrev hash_text : String
hash_text = "sha256:abababababababababababababababababababababababababababababababab"

abbrev arguments : PublicTaskV2
arguments = record {
  task_id = "";
  validator_hotkey = "abcdefghijkabcdefghijkabcdefghijk";
  engine_image_digest = hash_text;
  generator_source_digest = hash_text;
  benchmark_policy_digest = hash_text;
  benchmark_family_id = "custom";
  schema_sql = "s";
  reference_sql = "r";
  public_training_fixture = record {
    fixture_id = "x";
    generator_seed_hex = hash;
    content_digest = hash_text;
    row_count = 1;
  };
  parameter_ranges =
      record {
        name = "n";
        value_type = "integer";
        minimum = integer (pos 1);
        maximum = integer (pos 2);
        distribution = "uniform";
      }
      ∷ [];
  published_statistics = record {
    row_count_min = 1;
    row_count_max = 2;
    selectivity_min_bps = 1;
    selectivity_max_bps = 2;
    data_profiles = "uniform" ∷ [];
  };
  artifact_budget = record {
    max_indexes = 4;
    max_columns_per_index = 8;
    max_predicates_per_index = 8;
    max_bundle_bytes = 1024;
  };
  artifact_grammar = record {
    allowed_predicate_operators = [];
    allows_unique = true;
    allows_partial = true;
  };
  hidden_holdout_count = 0;
  commitment = "";
  deadline_unix_ms = 9;
}

abbrev fixture : String → HiddenFixtureDescriptor
fixture id = record {
  fixture_id = id;
  content_digest = hash_text;
  database_file_digest = none;
  parameter_set_digest = hash_text;
  row_count = 3;
}

abbrev fixtures : List HiddenFixtureDescriptor
fixtures = fixture "f" ∷ fixture "g" ∷ []

abbrev factory : Factory
factory seed = fixtures

abbrev created : PrivateTaskV2
created = record {
  public = record arguments {
    task_id = "07070707070707070707070707070707";
    commitment = hash_text;
    hidden_holdout_count = 2;
  };
  reveal = record {
    task_id = "07070707070707070707070707070707";
    secret_seed_hex = "0808080808080808080808080808080808080808080808080808080808080808";
    salt_hex = "0909090909090909090909090909090909090909090909090909090909090909";
    hidden_fixtures = fixtures;
    hidden_fixture_merkle_root = hash_text;
  };
}

returns :
    create_task_v2 sha256 arguments factory (replicate 16 7) (replicate 32 8) (replicate 32 9)
    ≡ ok created
unfolding create_task_v2 assemble commitment_digest hidden_fixture_merkle_root leaves next_level
    merkle_loop node domain_separated_digest quoted join decimal sort flat_map check_task
    check_reveal is_sha256_digest is_opaque_id is_hex_32_bytes is_hotkey is_safe_identifier
    is_family_id has_length
returns = refl

create_task_v2-audited_example :
    audit_task_reveal sha256 created.public created.reveal none ≡ ok true
create_task_v2-audited_example =
    create_task_v2-audited sha256 arguments factory (replicate 16 7) (replicate 32 8)
      (replicate 32 9) created returns

hidden_fixture_merkle_root-ends_example :
    hidden_fixture_merkle_root sha256 fixtures ≢ err out_of_fuel
hidden_fixture_merkle_root-ends_example = hidden_fixture_merkle_root-ends sha256 fixtures

audit_task_reveal-IsCommitted_example :
    IsCommitted sha256 created.public created.reveal × (is_regenerated none created.reveal ≡ true)
audit_task_reveal-IsCommitted_example =
    audit_task_reveal-IsCommitted sha256 created.public created.reveal none (
      create_task_v2-audited sha256 arguments factory (replicate 16 7) (replicate 32 8)
        (replicate 32 9) created returns)
