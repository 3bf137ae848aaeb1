-- ===== src/Models/Task.antt =====
-- The public tasks of planrace/models_v2.py. Counts and times are natural numbers.
use planrace_subnet.Prelude.{
  ℕ, String, Bool, false, not, ◌&&◌, ◌||◌, List, [], ◌∷◌, map, Result, ok, ◌>>◌, raise_if, length,
  all, ltb, ◌==◌, nat_eq, string_eq, mem,
}
use planrace_subnet.Prelude.Int.{ℤ, ltb_ℤ}
use planrace_subnet.Digest.Payload.{Json, bool, int, str, array, object, number, text_le}
use planrace_subnet.Models.Texts.{
  ModelError, bad_parameter_range, bad_statistics, bad_budget, bad_task, has_length,
  is_safe_identifier, is_sha256_digest, is_hex_32_bytes, is_opaque_id, is_hotkey, is_family_id,
}
use planrace_subnet.Models.Index.{Operator, operator_text}

-- `int | str | bool`
pub data Endpoint : Type 0 where
  integer : ℤ → Endpoint
  text : String → Endpoint
  boolean : Bool → Endpoint

pub record ParameterRange : Type 0 where
  pub name : String
  pub value_type : String
  pub minimum : Endpoint
  pub maximum : Endpoint
  pub distribution : String

-- `validate_range_types`
pub range_fits : String → Endpoint → Endpoint → Bool
range_fits value_type (integer a) (integer b) = value_type == "integer" && not (ltb_ℤ b a)
range_fits value_type (text a) (text b) = value_type == "text" && text_le a b
range_fits value_type (boolean a) (boolean b) = value_type == "boolean"
range_fits value_type _ _ = false

abbrev distributions : List String
distributions =
    "uniform" ∷ "log_uniform" ∷ "categorical" ∷ "boundary_weighted" ∷ "ordered_uniform_pair_low"
    ∷ "ordered_uniform_pair_high" ∷ []

pub check_range : ParameterRange → Result ModelError (Unit {0})
unfolding range_fits
check_range r =
    raise_if
      (not (is_safe_identifier r.name)
        || not (mem r.distribution distributions)
        || not (range_fits r.value_type r.minimum r.maximum))
      bad_parameter_range

pub record PublishedStatistics : Type 0 where
  pub row_count_min : ℕ
  pub row_count_max : ℕ
  pub selectivity_min_bps : ℕ
  pub selectivity_max_bps : ℕ
  pub data_profiles : List String

abbrev profiles : List String
profiles = "uniform" ∷ "skewed" ∷ "correlated" ∷ "null_heavy" ∷ "duplicate_heavy" ∷ []

-- The constraints of the fields and `validate_bounds`.
pub check_statistics : PublishedStatistics → Result ModelError (Unit {0})
check_statistics s =
    raise_if
      (ltb 10000 s.selectivity_min_bps
        || ltb 10000 s.selectivity_max_bps
        || length s.data_profiles == 0
        || not (all (λ p. mem p profiles) s.data_profiles)
        || ltb s.row_count_max s.row_count_min
        || ltb s.selectivity_max_bps s.selectivity_min_bps)
      bad_statistics

pub record PublicTrainingFixture : Type 0 where
  pub fixture_id : String
  pub generator_seed_hex : String
  pub content_digest : String
  pub row_count : ℕ

pub record ArtifactBudget : Type 0 where
  pub max_indexes : ℕ
  pub max_columns_per_index : ℕ
  pub max_predicates_per_index : ℕ
  pub max_bundle_bytes : ℕ

pub check_budget : ArtifactBudget → Result ModelError (Unit {0})
check_budget b =
    raise_if
      (ltb 4 b.max_indexes
        || ltb b.max_columns_per_index 1
        || ltb 8 b.max_columns_per_index
        || ltb 8 b.max_predicates_per_index
        || ltb b.max_bundle_bytes 1024
        || ltb 65536 b.max_bundle_bytes)
      bad_budget

-- The fields of `ArtifactGrammar` that are not fixed by their types.
pub record ArtifactGrammar : Type 0 where
  pub allowed_predicate_operators : List Operator
  pub allows_unique : Bool
  pub allows_partial : Bool

pub record PublicTaskV2 : Type 0 where
  pub task_id : String
  pub validator_hotkey : String
  pub engine_image_digest : String
  pub generator_source_digest : String
  pub benchmark_policy_digest : String
  pub benchmark_family_id : String
  pub schema_sql : String
  pub reference_sql : String
  pub public_training_fixture : PublicTrainingFixture
  pub parameter_ranges : List ParameterRange
  pub published_statistics : PublishedStatistics
  pub artifact_budget : ArtifactBudget
  pub artifact_grammar : ArtifactGrammar
  pub hidden_holdout_count : ℕ
  pub commitment : String
  pub deadline_unix_ms : ℕ

pub check_fixture : PublicTrainingFixture → Bool
check_fixture f =
    is_safe_identifier f.fixture_id
    && is_hex_32_bytes f.generator_seed_hex
    && is_sha256_digest f.content_digest

pub check_ranges : List ParameterRange → Result ModelError (Unit {0})
unfolding check_range
check_ranges [] = ok tt
check_ranges (r ∷ rs) = do check_range r; check_ranges rs

-- What the constructor of `PublicTaskV2` demands.
unfoldable pub check_task : PublicTaskV2 → Result ModelError (Unit {0})
unfolding check_fixture check_ranges check_statistics check_budget
check_task t = do
  raise_if
      (not (is_opaque_id t.task_id)
        || not (is_hotkey t.validator_hotkey)
        || not (is_sha256_digest t.engine_image_digest)
        || not (is_sha256_digest t.generator_source_digest)
        || not (is_sha256_digest t.benchmark_policy_digest)
        || not (is_family_id t.benchmark_family_id)
        || not (has_length 1 65536 t.schema_sql)
        || not (has_length 1 65536 t.reference_sql)
        || not (check_fixture t.public_training_fixture)
        || length t.parameter_ranges == 0
        || ltb t.hidden_holdout_count 2
        || ltb 64 t.hidden_holdout_count
        || not (is_sha256_digest t.commitment)
        || t.deadline_unix_ms == 0)
      bad_task
  check_ranges t.parameter_ranges
  check_statistics t.published_statistics
  check_budget t.artifact_budget

abbrev endpoint_json : Endpoint → Json
endpoint_json (integer n) = int n
endpoint_json (text s) = str s
endpoint_json (boolean b) = bool b

abbrev range_json : ParameterRange → Json
range_json r = object (
    ("name", str r.name)
    ∷ ("value_type", str r.value_type)
    ∷ ("minimum", endpoint_json r.minimum)
    ∷ ("maximum", endpoint_json r.maximum)
    ∷ ("distribution", str r.distribution)
    ∷ [])

abbrev statistics_json : PublishedStatistics → Json
statistics_json s = object (
    ("row_count_min", number s.row_count_min)
    ∷ ("row_count_max", number s.row_count_max)
    ∷ ("selectivity_min_bps", number s.selectivity_min_bps)
    ∷ ("selectivity_max_bps", number s.selectivity_max_bps)
    ∷ ("data_profiles", array (map str s.data_profiles))
    ∷ [])

abbrev fixture_json : PublicTrainingFixture → Json
fixture_json f = object (
    ("fixture_id", str f.fixture_id)
    ∷ ("generator_seed_hex", str f.generator_seed_hex)
    ∷ ("content_digest", str f.content_digest)
    ∷ ("row_count", number f.row_count)
    ∷ [])

abbrev budget_json : ArtifactBudget → Json
budget_json b = object (
    ("max_indexes", number b.max_indexes)
    ∷ ("max_columns_per_index", number b.max_columns_per_index)
    ∷ ("max_predicates_per_index", number b.max_predicates_per_index)
    ∷ ("max_bundle_bytes", number b.max_bundle_bytes)
    ∷ [])

abbrev grammar_json : ArtifactGrammar → Json
grammar_json g = object (
    ("artifact_type", str "structured-index-spec-v1")
    ∷ (
      "allowed_predicate_operators",
      array (map (λ o. str (operator_text o)) g.allowed_predicate_operators),
    )
    ∷ ("allows_unique", bool g.allows_unique)
    ∷ ("allows_partial", bool g.allows_partial)
    ∷ ("allows_raw_sql", bool false)
    ∷ ("miner_controls_index_name", bool false)
    ∷ [])

-- The fields that a task shares with its commitment payload.
abbrev pub payload_fields : PublicTaskV2 → List (String × Json)
payload_fields t =
    ("protocol_version", str "planrace/2")
    ∷ ("task_id", str t.task_id)
    ∷ ("validator_hotkey", str t.validator_hotkey)
    ∷ ("engine_image_digest", str t.engine_image_digest)
    ∷ ("generator_source_digest", str t.generator_source_digest)
    ∷ ("benchmark_policy_digest", str t.benchmark_policy_digest)
    ∷ ("benchmark_family_id", str t.benchmark_family_id)
    ∷ ("schema_sql", str t.schema_sql)
    ∷ ("reference_sql", str t.reference_sql)
    ∷ ("public_training_fixture", fixture_json t.public_training_fixture)
    ∷ ("parameter_ranges", array (map range_json t.parameter_ranges))
    ∷ ("published_statistics", statistics_json t.published_statistics)
    ∷ ("artifact_budget", budget_json t.artifact_budget)
    ∷ ("artifact_grammar", grammar_json t.artifact_grammar)
    ∷ ("deadline_unix_ms", number t.deadline_unix_ms)
    ∷ []

-- `model_dump(mode="json")`
abbrev pub task_json : PublicTaskV2 → Json
task_json t = object (
    ("hidden_holdout_count", number t.hidden_holdout_count)
    ∷ ("commitment", str t.commitment)
    ∷ payload_fields t)
