-- ===== src/Models/Reveal.antt =====
-- The private fixtures and the reveals of planrace/models_v2.py.
use planrace_subnet.Prelude.{
  ◌==◌, false, true, Option, none, some, ℕ, String, Bool, not, ◌&&◌, ◌||◌, List, [], ◌∷◌, Result,
  raise_if, length, all, ltb, nat_eq, string_eq,
}
use planrace_subnet.Digest.Payload.{null, Json, str, object, number}
use planrace_subnet.Models.Texts.{
  bad_reveal, ModelError, is_safe_identifier, is_sha256_digest, is_hex_32_bytes, is_opaque_id,
}

pub record HiddenFixtureDescriptor : Type 0 where
  pub fixture_id : String
  pub content_digest : String
  pub database_file_digest : Option String
  pub parameter_set_digest : String
  pub row_count : ℕ

pub record TaskRevealV2 : Type 0 where
  pub task_id : String
  pub secret_seed_hex : String
  pub salt_hex : String
  pub hidden_fixtures : List HiddenFixtureDescriptor
  pub hidden_fixture_merkle_root : String

abbrev optional_digest : Option String → Bool
optional_digest none = true
optional_digest (some d) = is_sha256_digest d

pub check_descriptor : HiddenFixtureDescriptor → Bool
check_descriptor f =
    is_safe_identifier f.fixture_id
    && is_sha256_digest f.content_digest
    && optional_digest f.database_file_digest
    && is_sha256_digest f.parameter_set_digest

-- What the constructor of `TaskRevealV2` demands.
unfoldable pub check_reveal : TaskRevealV2 → Result ModelError (Unit {0})
unfolding check_descriptor
check_reveal r =
    raise_if
      (not (is_opaque_id r.task_id)
        || not (is_hex_32_bytes r.secret_seed_hex)
        || not (is_hex_32_bytes r.salt_hex)
        || not (all check_descriptor r.hidden_fixtures)
        || ltb (length r.hidden_fixtures) 2
        || ltb 64 (length r.hidden_fixtures)
        || not (is_sha256_digest r.hidden_fixture_merkle_root))
      bad_reveal

abbrev optional_json : Option String → Json
optional_json none = null
optional_json (some d) = str d

abbrev pub descriptor_json : HiddenFixtureDescriptor → Json
descriptor_json f = object (
    ("fixture_id", str f.fixture_id)
    ∷ ("content_digest", str f.content_digest)
    ∷ ("database_file_digest", optional_json f.database_file_digest)
    ∷ ("parameter_set_digest", str f.parameter_set_digest)
    ∷ ("row_count", number f.row_count)
    ∷ [])

-- `==` on fixture descriptors
abbrev optional_eq : Option String → Option String → Bool
optional_eq none none = true
optional_eq (some a) (some b) = a == b
optional_eq _ _ = false

unfoldable pub descriptor_eq : HiddenFixtureDescriptor → HiddenFixtureDescriptor → Bool
descriptor_eq a b =
    a.fixture_id == b.fixture_id
    && a.content_digest == b.content_digest
    && optional_eq a.database_file_digest b.database_file_digest
    && a.parameter_set_digest == b.parameter_set_digest
    && a.row_count == b.row_count
