-- ===== src/Auth/Verify.antt =====
-- `verify_signed_response` of planrace/auth_v2.py. The signature scheme of the chain library and
-- SHA-256 are parameters.
pub mod Sound
pub mod Once
mod Hex
pub mod Signed
mod SigningTests
mod Tests
use planrace_subnet.Prelude.{
  ℕ, ◌+◌, ◌-◌, ◌*◌, String, Bool, true, false, not, ◌&&◌, ◌||◌, Option, none, some, List, [], ◌∷◌,
  Result, ok, err, ◌>>=◌, ◌>>◌, raise_if, leb, ltb, ◌==◌, nat_eq, string_eq, if◌then◌else◌,
}
use planrace_subnet.Digest.{DigestError}
use planrace_subnet.Digest.Payload.{codes}
use planrace_subnet.Models.Texts.{is_digit}
use planrace_subnet.Models.Bundle.{OptimizationBundle, optimization_bundle_digest}
use planrace_subnet.Models.Exchange.{
  OptimizationRequestV2, SignedOptimizationResponse, optimization_request_digest,
  optimization_response_signing_bytes,
}
use planrace_subnet.Auth.Replay.{ReplayKey, ReplayError, ResponseReplayStore}

-- The codes of `ResponseVerificationError`; `digest` and `replay_store` are
-- exceptions of the digests and of the store.
pub data VerificationError : Type 0 where
  metagraph_identity_mismatch wrong_miner wrong_receiver wrong_request wrong_task :
      VerificationError
  wrong_nonce request_digest_mismatch engine_digest_mismatch : VerificationError
  artifact_digest_mismatch response_predates_request response_from_future : VerificationError
  response_outlives_request response_expired bad_signature response_replayed : VerificationError
  digest : DigestError → VerificationError
  replay_store : ReplayError → VerificationError

abbrev pub lift_digest {ℓ} : {A : Type ℓ} → Result DigestError A → Result VerificationError A
lift_digest (ok a) = ok a
lift_digest (err e) = err (digest e)

pub hex_value : ℕ → Option ℕ
hex_value c =
    if is_digit c
    then some (c - b'0')
    else if leb b'a' c && leb c b'f'
    then some (c - b'a' + 10)
    else none

-- `bytes.fromhex` of a text in lower case
pub from_hex : List ℕ → Option (List ℕ)
unfolding hex_value
from_hex [] = some []
from_hex (h ∷ []) = none
from_hex (h ∷ l ∷ s) = elim (hex_value h) [
  | none ↦ none
  | some x ↦ elim (hex_value l) [
    | none ↦ none
    | some y ↦ elim (from_hex s) [ none ↦ none | some bs ↦ some ((16 * x + y) ∷ bs) ]
  ]
]

-- The arguments of `verify_signed_response`, but for the store, and its clock's reading.
pub record Attempt : Type 0 where
  pub response : SignedOptimizationResponse
  pub request : OptimizationRequestV2
  pub expected_miner_uid : ℕ
  pub metagraph_hotkeys : ℕ → Option String
  pub now_unix_ms : ℕ
  pub max_clock_skew_ms : ℕ
  pub store_clock : ℕ

-- `metagraph_hotkeys.get(expected_miner_uid) != request.miner_hotkey`
pub is_registered : Attempt → Bool
is_registered a = elim (a.metagraph_hotkeys a.expected_miner_uid) [
  | none ↦ false
  | some hotkey ↦ hotkey == a.request.miner_hotkey
]

abbrev pub replay_key : SignedOptimizationResponse → ReplayKey
replay_key r = (r.miner_hotkey, (r.request_nonce, r.request_id))

-- `verify` is `Keypair(ss58_address=...).verify`, false where it raises.
module _ (sha256 : List ℕ → String) (verify : String → List ℕ → List ℕ → Bool) where
  pub signature_ok : SignedOptimizationResponse → Result VerificationError Bool
  unfolding from_hex
  signature_ok r = do
    message ← lift_digest (optimization_response_signing_bytes r)
    elim (from_hex (codes r.signature)) [
      | none ↦ ok false
      | some signature ↦ ok (verify r.miner_hotkey message signature)
    ]

  -- The checks that the peers, the request, the task and the nonce are the expected ones.
  pub check_identity : Attempt → Result VerificationError (Unit {0})
  unfolding is_registered
  check_identity a = do
    let r = a.response
    let q = a.request
    raise_if (not (is_registered a)) metagraph_identity_mismatch
    raise_if (not (r.miner_hotkey == q.miner_hotkey)) wrong_miner
    raise_if (not (r.validator_hotkey == q.validator_hotkey)) wrong_receiver
    raise_if (not (r.request_id == q.request_id)) wrong_request
    raise_if (not (r.task_id == q.task.task_id)) wrong_task
    raise_if (not (r.request_nonce == q.request_nonce)) wrong_nonce

  -- The checks of the digests and of the engine.
  pub check_digests : Attempt → Result VerificationError (Unit {0})
  check_digests a = do
    let r = a.response
    expected_request_digest ← lift_digest (optimization_request_digest sha256 a.request)
    raise_if (not (r.request_digest == expected_request_digest)) request_digest_mismatch
    raise_if (not (r.artifact.engine_image_digest == a.request.task.engine_image_digest))
        engine_digest_mismatch
    calculated_artifact_digest ← lift_digest (optimization_bundle_digest sha256 r.artifact)
    raise_if (not (r.artifact_digest == calculated_artifact_digest)) artifact_digest_mismatch

  -- The checks of the times, `issued < request.issued - skew` over the integers.
  pub check_times : Attempt → Result VerificationError (Unit {0})
  check_times a = do
    let r = a.response
    let q = a.request
    raise_if (ltb (r.issued_at_unix_ms + a.max_clock_skew_ms) q.issued_at_unix_ms)
        response_predates_request
    raise_if (ltb (a.now_unix_ms + a.max_clock_skew_ms) r.issued_at_unix_ms) response_from_future
    raise_if (ltb q.expires_at_unix_ms r.expires_at_unix_ms) response_outlives_request
    raise_if (ltb r.expires_at_unix_ms a.now_unix_ms) response_expired

  pub check_signature : Attempt → Result VerificationError (Unit {0})
  unfolding signature_ok
  check_signature a = do valid ← signature_ok a.response; raise_if (not valid) bad_signature

  -- Every check before the replay store, in order.
  pub check_attempt : Attempt → Result VerificationError (Unit {0})
  check_attempt a = do check_identity a; check_digests a; check_times a; check_signature a

  module _ (S : ResponseReplayStore) where
    open S use {Store, check_and_store}

    -- The last check, which records the response.
    pub record_response : Attempt → Store → Store × Result VerificationError OptimizationBundle
    record_response a s =
        let r = a.response in
        let (s', result) = check_and_store a.store_clock (replay_key r) r.expires_at_unix_ms s in
        (
          s',
          elim result [
            | ok accepted ↦ (if accepted then ok r.artifact else err response_replayed)
            | err e ↦ err (replay_store e)
          ],
        )

    pub verify_signed_response :
        Attempt → Store → Store × Result VerificationError OptimizationBundle
    verify_signed_response a s = elim (check_attempt a) [
      | err e ↦ (s, err e)
      | ok _ ↦ record_response a s
    ]
