-- ===== src/Auth/Verify/Once.antt =====
-- Repeated verifications of a response: what the replay store adds to the checks.
use mathlib.Core.Path.{subst}
use planrace_subnet.Prelude.{
  ℕ, ◌<◌, ◌≡◌, ◌≢◌, sym, inl, inr, String, Bool, true, List, [], ◌∷◌, ok, arith, Result-cases, All,
  pair_eq, nat_eq, string_eq,
}
use planrace_subnet.Models.Bundle.{OptimizationBundle}
use planrace_subnet.Auth.Replay.{ReplayKey, ResponseReplayStore, SqliteStore}
use planrace_subnet.Auth.Replay.Stores.{sqlite_store, expired_again}
use planrace_subnet.Auth.Verify.{
  Attempt, replay_key, check_attempt, record_response, verify_signed_response,
}
use planrace_subnet.Auth.Verify.Sound.{verified-recorded, verified-checked}

module _ (sha256 : List ℕ → String) (verify : String → List ℕ → List ℕ → Bool)
    (S : ResponseReplayStore) where
  open S use {Store, Remembers, check_and_store}

  -- The store after a sequence of verifications.
  pub run : List Attempt → Store → Store
  run [] s = s
  run (a ∷ as') s = run as' (verify_signed_response sha256 verify S a s).0

  -- The store's clock shows less than a time.
  abbrev pub IsBefore : ℕ → Attempt → Type 0
  IsBefore expires a = a.store_clock < expires

  verify-Remembers :
      (key : ReplayKey) (expires : ℕ) (a : Attempt) (s : Store)
      → IsBefore expires a
      → Remembers key expires s
      → Remembers key expires (verify_signed_response sha256 verify S a s).0
  unfolding verify_signed_response record_response
  verify-Remembers key expires a s before h = elim (Result-cases (check_attempt sha256 verify a)) [
    | inr (e, bad) ↦ rw (bad, verify_signed_response) h
    | inl (u, good) ↦
        rw (good, verify_signed_response)
          (S.keeps a.store_clock (replay_key a.response) a.response.expires_at_unix_ms key expires s
            before h)
  ]

  run-Remembers :
      (key : ReplayKey) (expires : ℕ) (as' : List Attempt) (s : Store)
      → All (IsBefore expires) as'
      → Remembers key expires s
      → Remembers key expires (run as' s)
  unfolding run
  run-Remembers key expires [] s before h = h
  run-Remembers key expires (a ∷ as') s before h =
      run-Remembers key expires as' (verify_signed_response sha256 verify S a s).0 before.1
        (verify-Remembers key expires a s before.0 h)

  verified-Remembers :
      (a : Attempt) (s : Store) (b : OptimizationBundle)
      → (verify_signed_response sha256 verify S a s).1 ≡ ok b
      → Remembers
          (replay_key a.response)
          a.response.expires_at_unix_ms
          (verify_signed_response sha256 verify S a s).0
  unfolding record_response
  verified-Remembers a s b h =
      let recorded = verified-recorded sha256 verify S a s b h in
      let key = replay_key a.response in
      let expires = a.response.expires_at_unix_ms in
      let accepted : (check_and_store a.store_clock key expires s).1 ≡ ok true = ground arith in
      subst (λ r. Remembers key expires r.0) (sym recorded)
        (S.remembers a.store_clock key expires s accepted)

  refused_of_Remembers :
      (a : Attempt) (s : Store) (b : OptimizationBundle) (expires : ℕ)
      → IsBefore expires a
      → Remembers (replay_key a.response) expires s
      → (verify_signed_response sha256 verify S a s).1 ≢ ok b
  unfolding record_response
  refused_of_Remembers a s b expires before h verified =
      let recorded = verified-recorded sha256 verify S a s b verified in
      let refused =
        S.refuses a.store_clock (replay_key a.response) a.response.expires_at_unix_ms expires s
          before h in
      ground arith

  -- Over any replay store, once a response was verified, no response with its miner, nonce and
  -- request is verified again by an attempt at which the store's clock shows less than the
  -- expiry, if the clock showed less at every attempt in between, whatever those attempts were.
  pub verified_once :
      (s : Store) (first : Attempt) (b : OptimizationBundle) (between : List Attempt)
      (last : Attempt) (b' : OptimizationBundle)
      → (verify_signed_response sha256 verify S first s).1 ≡ ok b
      → replay_key last.response ≡ replay_key first.response
      → All (IsBefore first.response.expires_at_unix_ms) between
      → IsBefore first.response.expires_at_unix_ms last
      → (verify_signed_response sha256 verify S last
          (run between (verify_signed_response sha256 verify S first s).0)).1
        ≢ ok b'
  verified_once s first b between last b' verified same before late =
      let expires = first.response.expires_at_unix_ms in
      let s₁ = (verify_signed_response sha256 verify S first s).0 in
      refused_of_Remembers last (run between s₁) b' expires late (
        subst (λ k. Remembers k expires (run between s₁)) (sym same)
          (run-Remembers (replay_key first.response) expires between s₁ before
            (verified-Remembers first s b verified)))

module _ (sha256 : List ℕ → String) (verify : String → List ℕ → List ℕ → Bool) where
  -- Over the SQLite store, a response that is verified while the store's clock shows its very
  -- expiry is verified once more by the same attempt: the row that was written is expired by the
  -- store's comparison, while the response is not expired by the comparison of the verification.
  pub verified_again_at_expiry :
      (s : SqliteStore) (a : Attempt) (b : OptimizationBundle)
      → a.store_clock ≡ a.response.expires_at_unix_ms
      → (verify_signed_response sha256 verify sqlite_store a s).1 ≡ ok b
      → (verify_signed_response sha256 verify sqlite_store a
          (verify_signed_response sha256 verify sqlite_store a s).0).1
        ≡ ok b
  unfolding record_response verify_signed_response
  verified_again_at_expiry s a b late verified =
      let key = replay_key a.response in
      let expires = a.response.expires_at_unix_ms in
      let checked = verified-checked sha256 verify sqlite_store a s b verified in
      ground (arith, expired_again a.store_clock key expires s)
