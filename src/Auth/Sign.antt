-- ===== src/Auth/Sign.antt =====
-- `sign_optimization_response` of planrace/auth_v2.py. The signer is a parameter, already resolved
-- to a hotkey; a signature that is no `bytes` object is outside the model.
use planrace_subnet.Prelude.{
  ℕ, String, not, List, Result, ok, err, ◌>>=◌, ◌>>◌, raise_if, length, ltb, ◌==◌, nat_eq,
  string_eq,
}
use planrace_subnet.Digest.{DigestError}
use planrace_subnet.Models.Hex.{to_hex}
use planrace_subnet.Models.Bundle.{BundleError, OptimizationBundle}
use planrace_subnet.Models.Exchange.{
  OptimizationRequestV2, SignedOptimizationResponse, optimization_request_digest,
  optimization_response_signing_bytes, check_response,
}

-- `ResponseSigner`
pub record ResponseSigner : Type 0 where
  pub ss58_address : String
  pub sign : List ℕ → List ℕ

pub data SigningError : Type 0 where
  foreign_signer foreign_task foreign_engine predates_request outlives_request : SigningError
  invalid_signature : SigningError
  digest : DigestError → SigningError
  model : BundleError → SigningError

abbrev pub lift_digest {ℓ} : {A : Type ℓ} → Result DigestError A → Result SigningError A
lift_digest (ok a) = ok a
lift_digest (err e) = err (digest e)

abbrev pub lift_model {ℓ} : {A : Type ℓ} → Result BundleError A → Result SigningError A
lift_model (ok a) = ok a
lift_model (err e) = err (model e)

-- `"0" * 128`
abbrev zeros : String
zeros =
    "00000000000000000000000000000000000000000000000000000000000000000000000000000000000000000000000000000000000000000000000000000000"

-- The response before it is signed.
unfoldable pub placeholder :
    OptimizationRequestV2 → OptimizationBundle → String → ℕ → ℕ → SignedOptimizationResponse
placeholder request artifact request_digest issued expires = record {
  request_id = request.request_id;
  task_id = request.task.task_id;
  request_digest = request_digest;
  validator_hotkey = request.validator_hotkey;
  miner_hotkey = request.miner_hotkey;
  request_nonce = request.request_nonce;
  issued_at_unix_ms = issued;
  expires_at_unix_ms = expires;
  artifact_digest = artifact.artifact_digest;
  artifact = artifact;
  signature = zeros;
}

-- The checks of the arguments.
unfoldable pub check_order :
    ResponseSigner
    → OptimizationRequestV2
    → OptimizationBundle
    → ℕ
    → ℕ
    → Result SigningError (Unit {0})
check_order signer request artifact issued expires = do
  raise_if (not (signer.ss58_address == request.miner_hotkey)) foreign_signer
  raise_if (not (artifact.task_id == request.task.task_id)) foreign_task
  raise_if (not (artifact.engine_image_digest == request.task.engine_image_digest)) foreign_engine
  raise_if (ltb issued request.issued_at_unix_ms) predates_request
  raise_if (ltb request.expires_at_unix_ms expires) outlives_request

module _ (sha256 : List ℕ → String) where
  -- The signature under a response, and its checks.
  unfoldable pub sign_placeholder :
      ResponseSigner → SignedOptimizationResponse → Result SigningError SignedOptimizationResponse
  sign_placeholder signer unsigned = do
    lift_model (check_response sha256 unsigned)
    message ← lift_digest (optimization_response_signing_bytes unsigned)
    raise_if (not (length (signer.sign message) == 64)) invalid_signature
    let response : SignedOptimizationResponse = record unsigned {
      signature = to_hex (signer.sign message);
    }
    lift_model (check_response sha256 response)
    ok response

  unfoldable pub sign_optimization_response :
      ResponseSigner
      → OptimizationRequestV2
      → OptimizationBundle
      → ℕ
      → ℕ
      → Result SigningError SignedOptimizationResponse
  sign_optimization_response signer request artifact issued expires = do
    check_order signer request artifact issued expires
    d ← lift_digest (optimization_request_digest sha256 request)
    sign_placeholder signer (placeholder request artifact d issued expires)
