-- ===== src/Models/Exchange.antt =====
-- The requests and signed responses of planrace/models_v2.py, and the bytes that are signed.
pub mod Checked
use planrace_subnet.Prelude.{
  ℕ, String, not, ◌||◌, List, [], ◌∷◌, Result, ◌>>=◌, ◌>>◌, raise_if, leb, ◌==◌, nat_eq, string_eq,
}
use planrace_subnet.Digest.{DigestError, canonical_json_bytes, domain_separated_digest, frame}
use planrace_subnet.Digest.Payload.{Json, str, object, number, codes}
use planrace_subnet.Models.Texts.{
  ModelError, bad_text, foreign_task, expiry_not_after_issue, bad_links, is_opaque_id, is_hotkey,
  is_sha256_digest, is_signature_hex,
}
use planrace_subnet.Models.Bundle.{
  BundleError, lift_model, OptimizationBundle, bundle_json, check_bundle,
}
use planrace_subnet.Models.Task.{PublicTaskV2, check_task, task_json}

pub record OptimizationRequestV2 : Type 0 where
  pub request_id : String
  pub task : PublicTaskV2
  pub validator_hotkey : String
  pub miner_hotkey : String
  pub request_nonce : ℕ
  pub issued_at_unix_ms : ℕ
  pub expires_at_unix_ms : ℕ

-- What the constructor of `OptimizationRequestV2` demands.
pub check_request : OptimizationRequestV2 → Result ModelError (Unit {0})
check_request r = do
  raise_if
      (not (is_opaque_id r.request_id)
        || not (is_hotkey r.validator_hotkey)
        || not (is_hotkey r.miner_hotkey)
        || r.issued_at_unix_ms == 0
        || r.expires_at_unix_ms == 0)
      bad_text
  check_task r.task
  raise_if (not (r.validator_hotkey == r.task.validator_hotkey)) foreign_task
  raise_if (leb r.expires_at_unix_ms r.issued_at_unix_ms) expiry_not_after_issue

abbrev request_json : OptimizationRequestV2 → Json
request_json r = object (
    ("protocol_version", str "planrace/2")
    ∷ ("request_id", str r.request_id)
    ∷ ("task", task_json r.task)
    ∷ ("validator_hotkey", str r.validator_hotkey)
    ∷ ("miner_hotkey", str r.miner_hotkey)
    ∷ ("request_nonce", number r.request_nonce)
    ∷ ("issued_at_unix_ms", number r.issued_at_unix_ms)
    ∷ ("expires_at_unix_ms", number r.expires_at_unix_ms)
    ∷ [])

pub record SignedOptimizationResponse : Type 0 where
  pub request_id : String
  pub task_id : String
  pub request_digest : String
  pub validator_hotkey : String
  pub miner_hotkey : String
  pub request_nonce : ℕ
  pub issued_at_unix_ms : ℕ
  pub expires_at_unix_ms : ℕ
  pub artifact_digest : String
  pub artifact : OptimizationBundle
  pub signature : String

-- `model_dump(mode="json", exclude={"signature"})`
abbrev response_json : SignedOptimizationResponse → Json
response_json r = object (
    ("protocol_version", str "planrace/2")
    ∷ ("request_id", str r.request_id)
    ∷ ("task_id", str r.task_id)
    ∷ ("request_digest", str r.request_digest)
    ∷ ("validator_hotkey", str r.validator_hotkey)
    ∷ ("miner_hotkey", str r.miner_hotkey)
    ∷ ("request_nonce", number r.request_nonce)
    ∷ ("issued_at_unix_ms", number r.issued_at_unix_ms)
    ∷ ("expires_at_unix_ms", number r.expires_at_unix_ms)
    ∷ ("artifact_digest", str r.artifact_digest)
    ∷ ("artifact", bundle_json r.artifact)
    ∷ [])

-- `optimization_response_signing_bytes`
unfoldable pub optimization_response_signing_bytes :
    SignedOptimizationResponse → Result DigestError (List ℕ)
unfolding canonical_json_bytes frame
optimization_response_signing_bytes r = do
  canonical ← canonical_json_bytes (response_json r)
  frame (codes "planrace/2:optimization-response") canonical

module _ (sha256 : List ℕ → String) where
  unfoldable pub optimization_request_digest : OptimizationRequestV2 → Result DigestError String
  unfolding domain_separated_digest
  optimization_request_digest r =
      domain_separated_digest sha256 "planrace/2:optimization-request" (request_json r)

  -- What the constructor of `SignedOptimizationResponse` demands.
  unfoldable pub check_response : SignedOptimizationResponse → Result BundleError (Unit {0})
  check_response r = do
    lift_model (
        raise_if
          (not (is_opaque_id r.request_id)
            || not (is_opaque_id r.task_id)
            || not (is_sha256_digest r.request_digest)
            || not (is_hotkey r.validator_hotkey)
            || not (is_hotkey r.miner_hotkey)
            || r.issued_at_unix_ms == 0
            || r.expires_at_unix_ms == 0
            || not (is_sha256_digest r.artifact_digest)
            || not (is_signature_hex r.signature))
          bad_text)
    check_bundle sha256 r.artifact
    lift_model (
        raise_if
          (not (r.task_id == r.artifact.task_id)
            || not (r.artifact_digest == r.artifact.artifact_digest))
          bad_links)
    lift_model (raise_if (leb r.expires_at_unix_ms r.issued_at_unix_ms) expiry_not_after_issue)
