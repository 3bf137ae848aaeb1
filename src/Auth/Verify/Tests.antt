-- ===== src/Auth/Verify/Tests.antt =====
-- Concrete verifications against the SQLite replay store.
use mathlib.Core.List.{flat_map}
use planrace_subnet.Prelude.{ℕ, ◌≡◌, ◌≢◌, ◌≤◌, refl, [], ◌∷◌, ok, length, arith}
use planrace_subnet.Prelude.Sort.{sort}
use planrace_subnet.Digest.Payload.{quoted, join, decimal}
use planrace_subnet.Models.Bundle.{optimization_bundle_digest}
use planrace_subnet.Models.Exchange.{
  optimization_request_digest, optimization_response_signing_bytes,
}
use planrace_subnet.Prelude.Int.{int64_bound}
use planrace_subnet.Auth.Replay.{SqliteStore, sqlite_check_and_store}
use planrace_subnet.Auth.Replay.Stores.{sqlite_store, sqlite_check_and_store-bounded}
use planrace_subnet.Auth.Verify.{
  check_attempt, check_identity, check_digests, check_times, check_signature, record_response,
  verify_signed_response,
}
use planrace_subnet.Auth.Verify.Sound.{IsAuthentic, verify_signed_response-IsAuthentic}
use planrace_subnet.Auth.Verify.Once.{run, verified_once, verified_again_at_expiry}
use planrace_subnet.Auth.Samples.{sha256, verify, bundle, attempt}

abbrev empty_store : SqliteStore
empty_store = record { rows = []; max_entries = 2 }

identity_passes : (now : ℕ) → check_identity sha256 verify (attempt now) ≡ ok tt
unfolding check_identity
identity_passes now = refl

digests_pass : (now : ℕ) → check_digests sha256 verify (attempt now) ≡ ok tt
unfolding check_digests optimization_request_digest optimization_bundle_digest quoted join decimal
    flat_map sort
digests_pass now = refl

signature_passes : (now : ℕ) → check_signature sha256 verify (attempt now) ≡ ok tt
unfolding check_signature optimization_response_signing_bytes quoted join decimal flat_map sort
signature_passes now = refl

passes : check_attempt sha256 verify (attempt 5) ≡ ok tt
unfolding check_attempt check_times
passes = rw (identity_passes 5, digests_pass 5, signature_passes 5) refl

passes_late : check_attempt sha256 verify (attempt 8) ≡ ok tt
unfolding check_attempt check_times
passes_late = rw (identity_passes 8, digests_pass 8, signature_passes 8) refl

verified : (verify_signed_response sha256 verify sqlite_store (attempt 5) empty_store).1 ≡ ok bundle
unfolding record_response sqlite_check_and_store verify_signed_response int64_bound
verified = rw (passes, verify_signed_response) refl

verified_late :
    (verify_signed_response sha256 verify sqlite_store (attempt 8) empty_store).1 ≡ ok bundle
unfolding record_response sqlite_check_and_store verify_signed_response int64_bound
verified_late = rw (passes_late, verify_signed_response) refl

verify_signed_response-IsAuthentic_example :
    (bundle ≡ bundle) × IsAuthentic sha256 verify (attempt 5)
verify_signed_response-IsAuthentic_example =
    verify_signed_response-IsAuthentic sha256 verify sqlite_store (attempt 5) empty_store bundle
      verified

verified_once_example :
    (verify_signed_response sha256 verify sqlite_store (attempt 7) (
      run sha256 verify sqlite_store
        (attempt 6 ∷ [])
        (verify_signed_response sha256 verify sqlite_store (attempt 5) empty_store).0)).1
    ≢ ok bundle
verified_once_example =
    verified_once sha256 verify sqlite_store empty_store (attempt 5) bundle (attempt 6 ∷ [])
      (attempt 7) bundle verified refl (omega arith, tt) (omega arith)

verified_again_at_expiry_example :
    (verify_signed_response sha256 verify sqlite_store
      (attempt 8)
      (verify_signed_response sha256 verify sqlite_store (attempt 8) empty_store).0).1
    ≡ ok bundle
verified_again_at_expiry_example =
    verified_again_at_expiry sha256 verify empty_store (attempt 8) bundle refl verified_late

sqlite_check_and_store-bounded_example :
    length (sqlite_check_and_store 5 ("m", (7, "q")) 8 empty_store).0.rows ≤ 2
sqlite_check_and_store-bounded_example =
    sqlite_check_and_store-bounded 5 ("m", (7, "q")) 8 empty_store (omega arith)
