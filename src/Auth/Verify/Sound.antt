-- ===== src/Auth/Verify/Sound.antt =====
-- What a verified response guarantees.
use planrace_subnet.Prelude.{
  ℕ, ◌+◌, ◌≤◌, ◌≡◌, inl, inr, String, Bool, true, some, List, ok, nat_eq, string_eq, arith,
  Result-cases, Option-cases,
}
use planrace_subnet.Digest.Payload.{codes}
use planrace_subnet.Models.Bundle.{OptimizationBundle, optimization_bundle_digest}
use planrace_subnet.Models.Exchange.{
  SignedOptimizationResponse, optimization_request_digest, optimization_response_signing_bytes,
}
use planrace_subnet.Auth.Replay.{ResponseReplayStore}
use planrace_subnet.Auth.Verify.{
  from_hex, Attempt, is_registered, signature_ok, check_identity, check_digests, check_times,
  check_signature, check_attempt, record_response, verify_signed_response,
}

module _ (sha256 : List ℕ → String) (verify : String → List ℕ → List ℕ → Bool) where
  -- The response is the registered miner's own answer to this very request, within its time.
  pub record IsAuthentic (a : Attempt) : Type 0 where
    pub registered : a.metagraph_hotkeys a.expected_miner_uid ≡ some a.request.miner_hotkey
    pub miner : a.response.miner_hotkey ≡ a.request.miner_hotkey
    pub receiver : a.response.validator_hotkey ≡ a.request.validator_hotkey
    pub same_request : a.response.request_id ≡ a.request.request_id
    pub same_task : a.response.task_id ≡ a.request.task.task_id
    pub same_nonce : a.response.request_nonce ≡ a.request.request_nonce
    pub request_bound : optimization_request_digest sha256 a.request ≡ ok a.response.request_digest
    pub same_engine : a.response.artifact.engine_image_digest ≡ a.request.task.engine_image_digest
    pub artifact_bound :
        optimization_bundle_digest sha256 a.response.artifact ≡ ok a.response.artifact_digest
    pub not_before :
        a.request.issued_at_unix_ms ≤ a.response.issued_at_unix_ms + a.max_clock_skew_ms
    pub not_from_future : a.response.issued_at_unix_ms ≤ a.now_unix_ms + a.max_clock_skew_ms
    pub within_request : a.response.expires_at_unix_ms ≤ a.request.expires_at_unix_ms
    pub not_expired : a.now_unix_ms ≤ a.response.expires_at_unix_ms
    pub signed :
        (message : List ℕ) × (signature : List ℕ) × (optimization_response_signing_bytes a.response
          ≡ ok message)
        × (from_hex (codes a.response.signature) ≡ some signature)
        × (verify a.response.miner_hotkey message signature ≡ true)

  is_registered_lem :
      (a : Attempt)
      → is_registered a ≡ true
      → a.metagraph_hotkeys a.expected_miner_uid ≡ some a.request.miner_hotkey
  unfolding is_registered
  is_registered_lem a h = elim (Option-cases (a.metagraph_hotkeys a.expected_miner_uid)) [
    | inl e ↦ absurd (ground arith)
    | inr (k, e) ↦ ground (arith, string_eq.beq_iff k a.request.miner_hotkey)
  ]

  signature_ok_lem :
      (r : SignedOptimizationResponse)
      → signature_ok sha256 verify r ≡ ok true
      → (message : List ℕ) × (signature : List ℕ) × (optimization_response_signing_bytes r
          ≡ ok message)
        × (from_hex (codes r.signature) ≡ some signature)
        × (verify r.miner_hotkey message signature ≡ true)
  unfolding signature_ok
  signature_ok_lem r h = elim (Result-cases (optimization_response_signing_bytes r)) [
    | inr (e, bad) ↦ absurd (ground arith)
    | inl (m, em) ↦ elim (Option-cases (from_hex (codes r.signature))) [
      | inl bad ↦ absurd (ground arith)
      | inr (s, es) ↦ (m, s, em, es, ground arith)
    ]
  ]

  check_identity_lem :
      (a : Attempt)
      → check_identity sha256 verify a ≡ ok tt
      → (is_registered a ≡ true)
        × (a.response.miner_hotkey ≡ a.request.miner_hotkey)
        × (a.response.validator_hotkey ≡ a.request.validator_hotkey)
        × (a.response.request_id ≡ a.request.request_id)
        × (a.response.task_id ≡ a.request.task.task_id)
        × (a.response.request_nonce ≡ a.request.request_nonce)
  unfolding check_identity
  check_identity_lem a h =
      let r = a.response in
      let q = a.request in
      ground (
        arith,
        string_eq.beq_iff r.miner_hotkey q.miner_hotkey,
        string_eq.beq_iff r.validator_hotkey q.validator_hotkey,
        string_eq.beq_iff r.request_id q.request_id,
        string_eq.beq_iff r.task_id q.task.task_id,
      )

  check_digests_lem :
      (a : Attempt)
      → check_digests sha256 verify a ≡ ok tt
      → (optimization_request_digest sha256 a.request ≡ ok a.response.request_digest)
        × (a.response.artifact.engine_image_digest ≡ a.request.task.engine_image_digest)
        × (optimization_bundle_digest sha256 a.response.artifact ≡ ok a.response.artifact_digest)
  unfolding check_digests
  check_digests_lem a h = elim (Result-cases (optimization_request_digest sha256 a.request)) [
    | inr (e, bad) ↦ absurd (ground arith)
    | inl (d, ed) ↦ elim (Result-cases (optimization_bundle_digest sha256 a.response.artifact)) [
      | inr (e, bad) ↦ absurd (ground arith)
      | inl (b, eb) ↦ ground (
        arith,
        string_eq.beq_iff a.response.request_digest d,
        string_eq.beq_iff a.response.artifact.engine_image_digest
            a.request.task.engine_image_digest,
        string_eq.beq_iff a.response.artifact_digest b,
      )
    ]
  ]

  check_times_lem :
      (a : Attempt)
      → check_times sha256 verify a ≡ ok tt
      → (a.request.issued_at_unix_ms ≤ a.response.issued_at_unix_ms + a.max_clock_skew_ms)
        × (a.response.issued_at_unix_ms ≤ a.now_unix_ms + a.max_clock_skew_ms)
        × (a.response.expires_at_unix_ms ≤ a.request.expires_at_unix_ms)
        × (a.now_unix_ms ≤ a.response.expires_at_unix_ms)
  unfolding check_times
  check_times_lem a h = ground arith

  check_signature_lem :
      (a : Attempt)
      → check_signature sha256 verify a ≡ ok tt
      → signature_ok sha256 verify a.response ≡ ok true
  unfolding check_signature
  check_signature_lem a h = elim (Result-cases (signature_ok sha256 verify a.response)) [
    | inr (e, bad) ↦ absurd (ground arith)
    | inl (v, ev) ↦ ground arith
  ]

  check_attempt_lem :
      (a : Attempt)
      → check_attempt sha256 verify a ≡ ok tt
      → (check_identity sha256 verify a ≡ ok tt)
        × (check_digests sha256 verify a ≡ ok tt)
        × (check_times sha256 verify a ≡ ok tt)
        × (check_signature sha256 verify a ≡ ok tt)
  unfolding check_attempt
  check_attempt_lem a h = ground arith

  check_attempt-IsAuthentic : (a : Attempt) → check_attempt sha256 verify a ≡ ok tt → IsAuthentic a
  check_attempt-IsAuthentic a h =
      let passed = check_attempt_lem a h in
      let identity = check_identity_lem a passed.0 in
      let digests = check_digests_lem a passed.1 in
      let times = check_times_lem a passed.2 in
      record {
        registered = is_registered_lem a identity.0;
        miner = identity.1;
        receiver = identity.2;
        same_request = identity.3;
        same_task = identity.4;
        same_nonce = identity.5;
        request_bound = digests.0;
        same_engine = digests.1;
        artifact_bound = digests.2;
        not_before = times.0;
        not_from_future = times.1;
        within_request = times.2;
        not_expired = times.3;
        signed = signature_ok_lem a.response (check_signature_lem a passed.3);
      }

  module _ (S : ResponseReplayStore) where
    open S use {Store}

    pub verified-checked :
        (a : Attempt) (s : Store) (b : OptimizationBundle)
        → (verify_signed_response sha256 verify S a s).1 ≡ ok b
        → check_attempt sha256 verify a ≡ ok tt
    unfolding verify_signed_response
    verified-checked a s b h = elim (Result-cases (check_attempt sha256 verify a)) [
      | inr (e, bad) ↦ absurd (ground arith)
      | inl (u, e) ↦ e
    ]

    pub verified-recorded :
        (a : Attempt) (s : Store) (b : OptimizationBundle)
        → (verify_signed_response sha256 verify S a s).1 ≡ ok b
        → (verify_signed_response sha256 verify S a s ≡ record_response sha256 verify S a s)
    unfolding verify_signed_response
    verified-recorded a s b h = ground (arith, verified-checked a s b h)

    -- A bundle that verification returns is the artifact of the response, and the response is the
    -- answer of the miner that is registered under the expected number to this very request: it
    -- names the same peers, request, task, nonce and engine, carries the digest of the request and
    -- of the artifact, was issued and expires within the allowed times, and its signature verifies.
    pub verify_signed_response-IsAuthentic :
        (a : Attempt) (s : Store) (b : OptimizationBundle)
        → (verify_signed_response sha256 verify S a s).1 ≡ ok b
        → (b ≡ a.response.artifact) × IsAuthentic a
    unfolding record_response
    verify_signed_response-IsAuthentic a s b h = (
      ground (arith, verified-recorded a s b h),
      check_attempt-IsAuthentic a (verified-checked a s b h),
    )
