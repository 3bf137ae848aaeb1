-- ===== src/Models/Bundle.antt =====
-- `OptimizationBundle` of planrace/models_v2.py and the digests over it. SHA-256 is a parameter.
pub mod Strategy
use planrace_subnet.Prelude.{
  ℕ, String, Bool, true, false, not, ◌||◌, Option, none, some, List, [], ◌∷◌, map, Result, ok, err,
  ◌>>=◌, ◌>>◌, raise_if, length, leb, ltb, ◌==◌, string_eq, mem, if◌then◌else◌,
}
use planrace_subnet.Prelude.Sort.{sort}
use planrace_subnet.Digest.{DigestError, canonical_json_bytes, domain_separated_digest}
use planrace_subnet.Digest.Payload.{Json, null, str, array, object}
use planrace_subnet.Models.Texts.{
  ModelError, bad_text, bad_metadata, too_many_indexes, digest_mismatch, is_opaque_id,
  is_sha256_digest, has_length,
}
use planrace_subnet.Models.Index.{PredicateAtom, IndexSpec, check_index, atom_json, index_json}

pub data BundleError : Type 0 where
  model : ModelError → BundleError
  digest : DigestError → BundleError

abbrev pub lift_model {ℓ} : {A : Type ℓ} → Result ModelError A → Result BundleError A
lift_model (ok a) = ok a
lift_model (err e) = err (model e)

abbrev pub lift_digest {ℓ} : {A : Type ℓ} → Result DigestError A → Result BundleError A
lift_digest (ok a) = ok a
lift_digest (err e) = err (digest e)

pub record BundleMetadata : Type 0 where
  pub strategy : String
  pub estimated_intent : String
  pub rationale : String

pub record OptimizationBundle : Type 0 where
  pub task_id : String
  pub engine_image_digest : String
  pub indexes : List IndexSpec
  pub metadata : BundleMetadata
  pub artifact_digest : String

abbrev protocol_version : String
protocol_version = "planrace/2"

abbrev intents : List String
intents = "filter" ∷ "join" ∷ "order" ∷ "group" ∷ "covering" ∷ "mixed" ∷ "no_index" ∷ []

unfoldable pub check_metadata : BundleMetadata → Result ModelError (Unit {0})
check_metadata m =
    raise_if
      (not (has_length 1 128 m.strategy)
        || not (mem m.estimated_intent intents)
        || not (has_length 0 512 m.rationale))
      bad_metadata

unfoldable pub check_indexes : List IndexSpec → Result ModelError (Unit {0})
check_indexes [] = ok tt
check_indexes (i ∷ is) = do check_index i; check_indexes is

abbrev metadata_json : BundleMetadata → Json
metadata_json m = object (
    ("strategy", str m.strategy)
    ∷ ("estimated_intent", str m.estimated_intent)
    ∷ ("rationale", str m.rationale)
    ∷ [])

-- `bundle.model_dump(mode="json", exclude={"artifact_digest"})`
abbrev pub payload_fields : OptimizationBundle → List (String × Json)
payload_fields b =
    ("protocol_version", str protocol_version)
    ∷ ("task_id", str b.task_id)
    ∷ ("engine_image_digest", str b.engine_image_digest)
    ∷ ("indexes", array (map index_json b.indexes))
    ∷ ("metadata", metadata_json b.metadata)
    ∷ []

-- `model_dump(mode="json")`
abbrev pub bundle_json : OptimizationBundle → Json
bundle_json b = object (("artifact_digest", str b.artifact_digest) ∷ payload_fields b)

module _ (sha256 : List ℕ → String) where
  unfoldable pub optimization_bundle_digest : OptimizationBundle → Result DigestError String
  unfolding domain_separated_digest
  optimization_bundle_digest b =
      domain_separated_digest sha256 "planrace/2:optimization-bundle" (object (payload_fields b))

  -- `verify_artifact_digest`
  unfoldable pub verify_artifact_digest : OptimizationBundle → Result BundleError (Unit {0})
  unfolding optimization_bundle_digest
  verify_artifact_digest b = do
    d ← lift_digest (optimization_bundle_digest b)
    lift_model (raise_if (not (b.artifact_digest == d)) digest_mismatch)

  -- What the constructor of `OptimizationBundle` demands.
  unfoldable pub check_bundle : OptimizationBundle → Result BundleError (Unit {0})
  unfolding verify_artifact_digest check_metadata check_indexes
  check_bundle b = do
    lift_model (
        raise_if
          (not (is_opaque_id b.task_id)
            || not (is_sha256_digest b.engine_image_digest)
            || not (is_sha256_digest b.artifact_digest))
          bad_text)
    lift_model (check_indexes b.indexes)
    lift_model (raise_if (ltb 4 (length b.indexes)) too_many_indexes)
    lift_model (check_metadata b.metadata)
    verify_artifact_digest b

  -- `OptimizationBundle.create`
  pub create :
      String → String → List IndexSpec → BundleMetadata → Result BundleError OptimizationBundle
  unfolding check_bundle
  create task_id engine_image_digest indexes metadata = do
    let unsigned : OptimizationBundle = record {
      task_id = task_id;
      engine_image_digest = engine_image_digest;
      indexes = indexes;
      metadata = metadata;
      artifact_digest = "";
    }
    d ← lift_digest (optimization_bundle_digest unsigned)
    let bundle = record unsigned { artifact_digest = d }
    check_bundle bundle
    ok bundle
