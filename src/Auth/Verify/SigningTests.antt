-- ===== src/Auth/Verify/SigningTests.antt =====
-- A concrete response that is signed and verified.
use mathlib.Core.List.{flat_map}
use planrace_subnet.Prelude.{
  ℕ, ◌≡◌, ◌<◌, refl, String, true, some, List, [], ok, replicate, arith, All,
}
use planrace_subnet.Prelude.Sort.{sort}
use planrace_subnet.Digest.Payload.{quoted, join, decimal}
use planrace_subnet.Models.Texts.{
  is_opaque_id, is_hotkey, is_sha256_digest, is_signature_hex, has_length,
}
use planrace_subnet.Models.Bundle.{OptimizationBundle, check_bundle}
use planrace_subnet.Models.Exchange.{
  OptimizationRequestV2, SignedOptimizationResponse, optimization_request_digest, check_response,
  optimization_response_signing_bytes,
}
use planrace_subnet.Models.Hex.{to_hex}
use planrace_subnet.Prelude.Int.{int64_bound}
use planrace_subnet.Auth.Replay.{SqliteStore, sqlite_check_and_store}
use planrace_subnet.Auth.Replay.Stores.{sqlite_store}
use planrace_subnet.Auth.Sign.{
  ResponseSigner, placeholder, check_order, sign_placeholder, sign_optimization_response,
}
use planrace_subnet.Auth.Samples.{verify, task, request}
use planrace_subnet.Auth.Verify.{Attempt, verify_signed_response}
use planrace_subnet.Auth.Verify.Signed.{sign_optimization_response-verified}

abbrev sha256 : List ℕ → String
sha256 bs = "abababababababababababababababababababababababababababababababab"

abbrev hash_text : String
hash_text = "sha256:abababababababababababababababababababababababababababababababab"

abbrev id_text : String
id_text = "0123456789abcdef0123456789abcdef"

abbrev miner : String
miner = "5FHneW46xGXgs5mUiveU4sbTyGBzmstUspZC92UhjJM694ty"

abbrev signer : ResponseSigner
signer = record { ss58_address = miner; sign = λ message. replicate 64 7 }

abbrev valid_request : OptimizationRequestV2
valid_request = record request {
  request_id = id_text;
  task = record task { task_id = id_text; engine_image_digest = hash_text };
  validator_hotkey = miner;
  miner_hotkey = miner;
}

abbrev artifact : OptimizationBundle
artifact = record {
  task_id = id_text;
  engine_image_digest = hash_text;
  indexes = [];
  metadata = record { strategy = "s"; estimated_intent = "no_index"; rationale = "" };
  artifact_digest = hash_text;
}

abbrev signed : SignedOptimizationResponse
signed = record {
  request_id = id_text;
  task_id = id_text;
  request_digest = hash_text;
  validator_hotkey = miner;
  miner_hotkey = miner;
  request_nonce = 7;
  issued_at_unix_ms = 2;
  expires_at_unix_ms = 8;
  artifact_digest = hash_text;
  artifact = artifact;
  signature = to_hex (replicate 64 7);
}

abbrev empty_store : SqliteStore
empty_store = record { rows = []; max_entries = 2 }

abbrev attempt : Attempt
attempt = record {
  response = signed;
  request = valid_request;
  expected_miner_uid = 3;
  metagraph_hotkeys = λ uid. some miner;
  now_unix_ms = 5;
  max_clock_skew_ms = 0;
  store_clock = 5;
}

signs : sign_optimization_response sha256 signer valid_request artifact 2 8 ≡ ok signed
unfolding sign_optimization_response check_order optimization_request_digest flat_map join sort
    quoted decimal sign_placeholder check_response is_opaque_id is_hotkey is_sha256_digest
    is_signature_hex check_bundle has_length optimization_response_signing_bytes to_hex placeholder
signs = refl

accepts : (sqlite_check_and_store 5 (miner, (7, id_text)) 8 empty_store).1 ≡ ok true
unfolding sqlite_check_and_store int64_bound
accepts = refl

sign_optimization_response-verified_example :
    (verify_signed_response sha256 verify sqlite_store attempt empty_store).1 ≡ ok artifact
sign_optimization_response-verified_example =
    sign_optimization_response-verified sha256 verify signer sqlite_store attempt artifact 2 8
      empty_store (λ m. refl) (λ m. bytes) signs refl (omega arith) (omega arith) accepts
  where
    bytes : All (λ b. b < 256) (replicate 64 7)
    bytes = omega arith
