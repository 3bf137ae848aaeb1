-- ===== src/Models/Exchange/Checked.antt =====
-- What the constructor of a signed response guarantees of its artifact.
use planrace_subnet.Prelude.{ℕ, String, ◌≡◌, inl, inr, List, ok, Result-cases, string_eq, arith}
use planrace_subnet.Models.Bundle.{
  OptimizationBundle, optimization_bundle_digest, verify_artifact_digest, check_bundle,
}
use planrace_subnet.Models.Exchange.{SignedOptimizationResponse, check_response}

module _ (sha256 : List ℕ → String) where
  verify_artifact_digest_lem :
      (b : OptimizationBundle)
      → verify_artifact_digest sha256 b ≡ ok tt
      → optimization_bundle_digest sha256 b ≡ ok b.artifact_digest
  unfolding verify_artifact_digest
  verify_artifact_digest_lem b h = elim (Result-cases (optimization_bundle_digest sha256 b)) [
    | inr (e, bad) ↦ absurd (ground arith)
    | inl (d, good) ↦ ground (arith, string_eq.beq_iff b.artifact_digest d)
  ]

  check_bundle-verified :
      (b : OptimizationBundle)
      → check_bundle sha256 b ≡ ok tt
      → verify_artifact_digest sha256 b ≡ ok tt
  unfolding check_bundle
  check_bundle-verified b h = ground arith

  -- The artifact digest of a checked response is that of its artifact.
  pub check_response-digest :
      (r : SignedOptimizationResponse)
      → check_response sha256 r ≡ ok tt
      → optimization_bundle_digest sha256 r.artifact ≡ ok r.artifact_digest
  unfolding check_response
  check_response-digest r h =
      let checked : check_bundle sha256 r.artifact ≡ ok tt = ground arith in
      let same : r.artifact_digest ≡ r.artifact.artifact_digest =
        ground (arith, string_eq.beq_iff r.artifact_digest r.artifact.artifact_digest) in
      rw same (verify_artifact_digest_lem r.artifact (check_bundle-verified r.artifact checked))
