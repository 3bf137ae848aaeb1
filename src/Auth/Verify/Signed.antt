-- ===== src/Auth/Verify/Signed.antt =====
-- The verification of a response that the miner signed for the request.
use planrace_subnet.Prelude.{
  ℕ, ◌+◌, ◌≤◌, ◌<◌, ◌≡◌, refl, sym, ap, ◌∙◌, inl, inr, String, Bool, true, some, List, ok, nat_eq,
  string_eq, arith, Result-cases, All,
}
use planrace_subnet.Digest.Payload.{codes}
use planrace_subnet.Models.Bundle.{OptimizationBundle, optimization_bundle_digest}
use planrace_subnet.Models.Exchange.{
  OptimizationRequestV2, SignedOptimizationResponse, optimization_request_digest,
  optimization_response_signing_bytes, check_response,
}
use planrace_subnet.Models.Exchange.Checked.{check_response-digest}
use planrace_subnet.Models.Hex.{to_hex}
use planrace_subnet.Auth.Sign.{
  ResponseSigner, placeholder, check_order, sign_placeholder, sign_optimization_response,
}
use planrace_subnet.Auth.Replay.{ResponseReplayStore}
use planrace_subnet.Auth.Verify.{
  replay_key, from_hex, Attempt, is_registered, signature_ok, check_identity, check_digests,
  check_times, check_signature, check_attempt, record_response, verify_signed_response,
}
use planrace_subnet.Auth.Verify.Hex.{from_hex-to_hex}
use planrace_subnet.Auth.Verify.Sound.{IsAuthentic}

module _ (sha256 : List ℕ → String) (verify : String → List ℕ → List ℕ → Bool) where
  check_identity-passes :
      (a : Attempt) → IsAuthentic sha256 verify a → check_identity sha256 verify a ≡ ok tt
  unfolding check_identity is_registered
  check_identity-passes a i =
      let r = a.response in
      let q = a.request in
      let registered = i.registered in
      let miner = i.miner in
      let receiver = i.receiver in
      let same_request = i.same_request in
      let same_task = i.same_task in
      let same_nonce = i.same_nonce in
      ground (
        arith,
        string_eq.beq_iff q.miner_hotkey q.miner_hotkey,
        string_eq.beq_iff r.miner_hotkey q.miner_hotkey,
        string_eq.beq_iff r.validator_hotkey q.validator_hotkey,
        string_eq.beq_iff r.request_id q.request_id,
        string_eq.beq_iff r.task_id q.task.task_id,
      )

  check_digests-passes :
      (a : Attempt) → IsAuthentic sha256 verify a → check_digests sha256 verify a ≡ ok tt
  unfolding check_digests
  check_digests-passes a i =
      let r = a.response in
      let same_engine = i.same_engine in
      rw (i.request_bound, i.artifact_bound)
        (ground (
          arith,
          string_eq.beq_iff r.request_digest r.request_digest,
          string_eq.beq_iff r.artifact.engine_image_digest a.request.task.engine_image_digest,
          string_eq.beq_iff r.artifact_digest r.artifact_digest,
        ))

  check_times-passes :
      (a : Attempt) → IsAuthentic sha256 verify a → check_times sha256 verify a ≡ ok tt
  unfolding check_times
  check_times-passes a i =
      let before = i.not_before in
      let future = i.not_from_future in
      let within = i.within_request in let expired = i.not_expired in ground arith

  check_signature-passes :
      (a : Attempt) → IsAuthentic sha256 verify a → check_signature sha256 verify a ≡ ok tt
  unfolding check_signature signature_ok
  check_signature-passes a i =
      let (message, signature, em, es, ev) = i.signed in rw (em, es, ev) refl

  -- Verification passes every authentic response on to the replay store.
  check_attempt-passes :
      (a : Attempt) → IsAuthentic sha256 verify a → check_attempt sha256 verify a ≡ ok tt
  unfolding check_attempt
  check_attempt-passes a i =
      rw
        (
          check_identity-passes a i,
          check_digests-passes a i,
          check_times-passes a i,
          check_signature-passes a i,
        )
        refl

module _ (sha256 : List ℕ → String) (signer : ResponseSigner) where
  check_order_lem :
      (q : OptimizationRequestV2) (artifact : OptimizationBundle) (issued expires : ℕ)
      → check_order signer q artifact issued expires ≡ ok tt
      → (signer.ss58_address ≡ q.miner_hotkey)
        × (artifact.task_id ≡ q.task.task_id)
        × (artifact.engine_image_digest ≡ q.task.engine_image_digest)
        × (q.issued_at_unix_ms ≤ issued)
        × (expires ≤ q.expires_at_unix_ms)
  unfolding check_order
  check_order_lem q artifact issued expires h = ground (
    arith,
    string_eq.beq_iff signer.ss58_address q.miner_hotkey,
    string_eq.beq_iff artifact.task_id q.task.task_id,
    string_eq.beq_iff artifact.engine_image_digest q.task.engine_image_digest,
  )

  sign_placeholder_lem :
      (u r : SignedOptimizationResponse)
      → sign_placeholder sha256 signer u ≡ ok r
      → (message : List ℕ) × (optimization_response_signing_bytes u ≡ ok message)
        × (r ≡ record u { signature = to_hex (signer.sign message) })
        × (optimization_bundle_digest sha256 u.artifact ≡ ok u.artifact_digest)
  unfolding sign_placeholder
  sign_placeholder_lem u r h = elim (Result-cases (check_response sha256 u)) [
    | inr (e, bad) ↦ absurd (ground arith)
    | inl (_, checked) ↦ elim (Result-cases (optimization_response_signing_bytes u)) [
      | inr (e, bad) ↦ absurd (ground arith)
      | inl (m, em) ↦ (m, em, ground arith, check_response-digest sha256 u checked)
    ]
  ]

-- The signed bytes leave the signature out.
signing_bytes_of :
    (u : SignedOptimizationResponse) (s : String)
    → optimization_response_signing_bytes (record u { signature = s })
      ≡ optimization_response_signing_bytes u
unfolding optimization_response_signing_bytes
signing_bytes_of u s = refl

module _ (sha256 : List ℕ → String) (verify : String → List ℕ → List ℕ → Bool)
    (signer : ResponseSigner) where
  signed-IsAuthentic :
      (a : Attempt) (artifact : OptimizationBundle) (issued expires : ℕ)
      → ((m : List ℕ) → verify signer.ss58_address m (signer.sign m) ≡ true)
      → ((m : List ℕ) → All (λ b. b < 256) (signer.sign m))
      → sign_optimization_response sha256 signer a.request artifact issued expires ≡ ok a.response
      → a.metagraph_hotkeys a.expected_miner_uid ≡ some a.request.miner_hotkey
      → issued ≤ a.now_unix_ms + a.max_clock_skew_ms
      → a.now_unix_ms ≤ expires
      → IsAuthentic sha256 verify a × (a.response.artifact ≡ artifact)
  unfolding sign_optimization_response placeholder
  signed-IsAuthentic a artifact issued expires valid bytes made registered future expired =
      elim (Result-cases (check_order signer a.request artifact issued expires)) [
        | inr (e, bad) ↦ absurd (ground arith)
        | inl (_, ordered) ↦ elim (Result-cases (optimization_request_digest sha256 a.request)) [
          | inr (e, bad) ↦ absurd (ground arith)
          | inl (d, ed) ↦
              let q = a.request in
              let u = placeholder q artifact d issued expires in
              let signed : sign_placeholder sha256 signer u ≡ ok a.response = ground arith in
              let (m, em, r_eq, bound) = sign_placeholder_lem sha256 signer u a.response signed in
              let (owner, task, engine, before, within) =
                check_order_lem sha256 signer q artifact issued expires ordered in
              let miner : a.response.miner_hotkey ≡ q.miner_hotkey =
                ap (λ r. r.miner_hotkey) r_eq in
              (
                record {
                  registered = registered;
                  miner = miner;
                  receiver = ap (λ r. r.validator_hotkey) r_eq;
                  same_request = ap (λ r. r.request_id) r_eq;
                  same_task = ap (λ r. r.task_id) r_eq;
                  same_nonce = ap (λ r. r.request_nonce) r_eq;
                  request_bound = ed ∙ ap (λ r. ok r.request_digest) (sym r_eq);
                  same_engine = ap (λ r. r.artifact.engine_image_digest) r_eq ∙ engine;
                  artifact_bound =
                      ap (λ r. optimization_bundle_digest sha256 r.artifact) r_eq
                      ∙ (bound ∙ ap (λ r. ok r.artifact_digest) (sym r_eq));
                  not_before = omega (arith, ap (λ r. r.issued_at_unix_ms) r_eq);
                  not_from_future = omega (arith, ap (λ r. r.issued_at_unix_ms) r_eq);
                  within_request = omega (arith, ap (λ r. r.expires_at_unix_ms) r_eq);
                  not_expired = omega (arith, ap (λ r. r.expires_at_unix_ms) r_eq);
                  signed = (
                    m,
                    signer.sign m,
                    ap optimization_response_signing_bytes r_eq
                        ∙ (signing_bytes_of u (to_hex (signer.sign m)) ∙ em),
                    ap (λ r. from_hex (codes r.signature)) r_eq
                        ∙ from_hex-to_hex (signer.sign m) (bytes m),
                    ap (λ h. verify h m (signer.sign m)) (miner ∙ sym owner) ∙ valid m,
                  );
                },
                ap (λ r. r.artifact) r_eq,
              )
        ]
      ]

  module _ (S : ResponseReplayStore) where
    open S use {Store, check_and_store}

    -- A response that `sign_optimization_response` makes for a request verifies against this
    -- request and yields the very artifact that was signed, if the signer's signatures are of bytes
    -- and verify under its hotkey, the metagraph has the hotkey under the expected number, the
    -- response is neither from the future nor expired, and the replay store accepts it.
    pub sign_optimization_response-verified :
        (a : Attempt) (artifact : OptimizationBundle) (issued expires : ℕ) (s : Store)
        → ((m : List ℕ) → verify signer.ss58_address m (signer.sign m) ≡ true)
        → ((m : List ℕ) → All (λ b. b < 256) (signer.sign m))
        → sign_optimization_response sha256 signer a.request artifact issued expires ≡ ok a.response
        → a.metagraph_hotkeys a.expected_miner_uid ≡ some a.request.miner_hotkey
        → issued ≤ a.now_unix_ms + a.max_clock_skew_ms
        → a.now_unix_ms ≤ expires
        → (check_and_store a.store_clock (replay_key a.response) a.response.expires_at_unix_ms s).1
          ≡ ok true
        → (verify_signed_response sha256 verify S a s).1 ≡ ok artifact
    unfolding verify_signed_response record_response
    sign_optimization_response-verified a artifact issued expires s valid bytes made registered
          future expired accepted =
        let (authentic, same) =
          signed-IsAuthentic a artifact issued expires valid bytes made registered future expired in
        rw (check_attempt-passes sha256 verify a authentic, verify_signed_response)
          (rw accepted (ap ok same))
