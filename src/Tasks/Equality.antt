-- ===== src/Tasks/Equality.antt =====
-- `==` on the public tasks of planrace/models_v2.py: the comparison of every field.
use planrace_subnet.Prelude.{
  ◌&&◌, [], ◌∷◌, ℕ, String, Bool, true, false, List, map, ◌==◌, nat_eq, string_eq, pair_eq, list_eq,
  if◌then◌else◌,
}
use planrace_subnet.Prelude.Int.{pos_part, neg_part}
use planrace_subnet.Models.Index.{operator_text}
use planrace_subnet.Models.Task.{
  Endpoint, integer, text, boolean, ParameterRange, PublishedStatistics, PublicTrainingFixture,
  ArtifactBudget, ArtifactGrammar, PublicTaskV2,
}

bit : Bool → ℕ
bit b = if b then 1 else 0

-- An endpoint by its kind and value.
endpoint_key : Endpoint → ℕ × (ℕ × (ℕ × String))
unfolding bit
endpoint_key (integer n) = (0, (pos_part n, (neg_part n, "")))
endpoint_key (text s) = (1, (0, (0, s)))
endpoint_key (boolean b) = (2, (bit b, (0, "")))

abbrev endpoint_eq : Endpoint → Endpoint → Bool
endpoint_eq a b = endpoint_key a == endpoint_key b

range_eq : ParameterRange → ParameterRange → Bool
range_eq a b =
    a.name == b.name
    && a.value_type == b.value_type
    && endpoint_eq a.minimum b.minimum
    && endpoint_eq a.maximum b.maximum
    && a.distribution == b.distribution

ranges_eq : List ParameterRange → List ParameterRange → Bool
unfolding range_eq
ranges_eq [] [] = true
ranges_eq (a ∷ as') (b ∷ bs) = range_eq a b && ranges_eq as' bs
ranges_eq _ _ = false

statistics_eq : PublishedStatistics → PublishedStatistics → Bool
statistics_eq a b =
    a.row_count_min == b.row_count_min
    && a.row_count_max == b.row_count_max
    && a.selectivity_min_bps == b.selectivity_min_bps
    && a.selectivity_max_bps == b.selectivity_max_bps
    && a.data_profiles == b.data_profiles

fixture_eq : PublicTrainingFixture → PublicTrainingFixture → Bool
fixture_eq a b =
    a.fixture_id == b.fixture_id
    && a.generator_seed_hex == b.generator_seed_hex
    && a.content_digest == b.content_digest
    && a.row_count == b.row_count

budget_eq : ArtifactBudget → ArtifactBudget → Bool
budget_eq a b =
    a.max_indexes == b.max_indexes
    && a.max_columns_per_index == b.max_columns_per_index
    && a.max_predicates_per_index == b.max_predicates_per_index
    && a.max_bundle_bytes == b.max_bundle_bytes

grammar_eq : ArtifactGrammar → ArtifactGrammar → Bool
unfolding bit
grammar_eq a b =
    map operator_text a.allowed_predicate_operators
      == map operator_text b.allowed_predicate_operators
    && bit a.allows_unique == bit b.allows_unique
    && bit a.allows_partial == bit b.allows_partial

pub task_eq : PublicTaskV2 → PublicTaskV2 → Bool
unfolding ranges_eq statistics_eq fixture_eq budget_eq grammar_eq
task_eq a b =
    a.task_id == b.task_id
    && a.validator_hotkey == b.validator_hotkey
    && a.engine_image_digest == b.engine_image_digest
    && a.generator_source_digest == b.generator_source_digest
    && a.benchmark_policy_digest == b.benchmark_policy_digest
    && a.benchmark_family_id == b.benchmark_family_id
    && a.schema_sql == b.schema_sql
    && a.reference_sql == b.reference_sql
    && fixture_eq a.public_training_fixture b.public_training_fixture
    && ranges_eq a.parameter_ranges b.parameter_ranges
    && statistics_eq a.published_statistics b.published_statistics
    && budget_eq a.artifact_budget b.artifact_budget
    && grammar_eq a.artifact_grammar b.artifact_grammar
    && a.hidden_holdout_count == b.hidden_holdout_count
    && a.commitment == b.commitment
    && a.deadline_unix_ms == b.deadline_unix_ms
