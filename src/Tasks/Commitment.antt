-- ===== src/Tasks/Commitment.antt =====
-- The commitments of planrace/taskgen_v2.py: the Merkle root of the private fixtures, the creation
-- of a task and the audit of its reveal. The entropy source is its three draws, as bytes.
pub mod Roundtrip
mod Tests
use planrace_subnet.Prelude.{
  ℕ, zero, suc, ◌+◌, ◌/◌, ◌%◌, String, Bool, true, false, not, ◌&&◌, Option, none, some, List, [],
  ◌∷◌, map, Result, ok, err, ◌>>=◌, ◌>>◌, raise_if, length, get_or, ltb, ◌==◌, nat_eq, string_eq,
  list_eq, distinct, if◌then◌else◌,
}
use planrace_subnet.Digest.{DigestError, domain_separated_digest}
use planrace_subnet.Digest.Payload.{Json, str, object, array, number, codes}
use planrace_subnet.Models.Texts.{ModelError}
use planrace_subnet.Models.Task.{PublicTaskV2, check_task, payload_fields}
use planrace_subnet.Models.Hex.{to_hex}
use planrace_subnet.Models.Reveal.{
  HiddenFixtureDescriptor, TaskRevealV2, check_reveal, descriptor_json, descriptor_eq,
}
use planrace_subnet.Auth.Verify.{from_hex}
use planrace_subnet.Tasks.Lifecycle.{PrivateTaskV2}

pub data TaskError : Type 0 where
  too_few_fixtures bad_entropy repeated_salt repeated_fixture_id out_of_fuel : TaskError
  digest : DigestError → TaskError
  model : ModelError → TaskError

abbrev pub lift_digest {ℓ} : {A : Type ℓ} → Result DigestError A → Result TaskError A
lift_digest (ok a) = ok a
lift_digest (err e) = err (digest e)

abbrev pub lift_model {ℓ} : {A : Type ℓ} → Result ModelError A → Result TaskError A
lift_model (ok a) = ok a
lift_model (err e) = err (model e)

-- `_commitment_payload`: the fields of the task but for its commitment and its number of holdouts,
-- and the secrets of the reveal. The checks of its constructor are among those of the task.
abbrev pub commitment_payload : PublicTaskV2 → TaskRevealV2 → Json
commitment_payload t r = object (
    ("secret_seed_hex", str r.secret_seed_hex)
    ∷ ("salt_hex", str r.salt_hex)
    ∷ ("hidden_fixture_merkle_root", str r.hidden_fixture_merkle_root)
    ∷ payload_fields t)

pub descriptors_eq : List HiddenFixtureDescriptor → List HiddenFixtureDescriptor → Bool
unfolding descriptor_eq
descriptors_eq [] [] = true
descriptors_eq (a ∷ as') (b ∷ bs) = descriptor_eq a b && descriptors_eq as' bs
descriptors_eq _ _ = false

-- `HiddenFixtureFactory`
abbrev pub Factory : Type 0
Factory = List ℕ → List HiddenFixtureDescriptor

-- Whether the fixtures are what the factory, if there is one, makes of the seed.
pub is_regenerated : Option Factory → TaskRevealV2 → Bool
unfolding descriptors_eq
is_regenerated none r = true
is_regenerated (some regenerate) r = elim (from_hex (codes r.secret_seed_hex)) [
  | none ↦ false
  | some seed ↦ descriptors_eq (regenerate seed) r.hidden_fixtures
]

module _ (sha256 : List ℕ → String) where
  leaf : ℕ → HiddenFixtureDescriptor → Result DigestError String
  leaf index fixture =
      domain_separated_digest sha256 "planrace/2:hidden-fixture-leaf"
        (object (("index", number index) ∷ ("fixture", descriptor_json fixture) ∷ []))

  pub leaves : ℕ → List HiddenFixtureDescriptor → Result DigestError (List String)
  unfolding leaf
  leaves index [] = ok []
  leaves index (f ∷ fs) = do d ← leaf index f; rest ← leaves (index + 1) fs; ok (d ∷ rest)

  pub node : String → String → Result DigestError String
  node left right =
      domain_separated_digest sha256 "planrace/2:hidden-fixture-node"
        (object (("left", str left) ∷ ("right", str right) ∷ []))

  -- One round of the loop; a last node without a partner is paired with itself.
  pub next_level : List String → Result DigestError (List String)
  next_level [] = ok []
  next_level (x ∷ []) = do d ← node x x; ok (d ∷ [])
  next_level (x ∷ y ∷ level) = do d ← node x y; rest ← next_level level; ok (d ∷ rest)

  -- `while len(level) > 1`
  pub merkle_loop : ℕ → List String → Result TaskError String
  merkle_loop zero level = err out_of_fuel
  merkle_loop (suc fuel) [] = err too_few_fixtures
  merkle_loop (suc fuel) (x ∷ []) = ok x
  merkle_loop (suc fuel) (x ∷ y ∷ level) = elim (next_level (x ∷ y ∷ level)) [
    | err e ↦ err (digest e)
    | ok level' ↦ merkle_loop fuel level'
  ]

  pub hidden_fixture_merkle_root : List HiddenFixtureDescriptor → Result TaskError String
  unfolding leaves
  hidden_fixture_merkle_root fixtures = do
    raise_if (ltb (length fixtures) 2) too_few_fixtures
    level ← lift_digest (leaves 0 fixtures)
    merkle_loop (length fixtures) level

  pub commitment_digest : PublicTaskV2 → TaskRevealV2 → Result DigestError String
  commitment_digest t r =
      domain_separated_digest sha256 "planrace/2:task-commitment" (commitment_payload t r)

  -- The part of `create_task_v2` after the draws; `t` holds the arguments.
  pub assemble :
      PublicTaskV2 → List ℕ → List ℕ → List HiddenFixtureDescriptor → Result TaskError PrivateTaskV2
  assemble t seed salt fixtures = do
    raise_if (ltb (length fixtures) 2) too_few_fixtures
    raise_if (not (distinct (map (λ f. f.fixture_id) fixtures))) repeated_fixture_id
    root ← hidden_fixture_merkle_root fixtures
    let private : TaskRevealV2 = record {
      task_id = t.task_id;
      secret_seed_hex = to_hex seed;
      salt_hex = to_hex salt;
      hidden_fixtures = fixtures;
      hidden_fixture_merkle_root = root;
    }
    lift_model (check_reveal private)
    commitment ← lift_digest (commitment_digest t private)
    let committed = record t { commitment = commitment; hidden_holdout_count = length fixtures }
    lift_model (check_task committed)
    ok (record { public = committed; reveal = private })

  -- `create_task_v2`, from the arguments as a task whose number, commitment and count of holdouts
  -- are not set, the factory and the three draws.
  pub create_task_v2 :
      PublicTaskV2 → Factory → List ℕ → List ℕ → List ℕ → Result TaskError PrivateTaskV2
  unfolding to_hex
  create_task_v2 t factory id_bytes seed salt = do
    raise_if (not (length id_bytes == 16)) bad_entropy
    raise_if (not (length seed == 32)) bad_entropy
    raise_if (not (length salt == 32)) bad_entropy
    raise_if (salt == seed) repeated_salt
    assemble (record t { task_id = to_hex id_bytes }) seed salt (factory seed)

  -- The last comparison of the audit.
  audit_commitment : PublicTaskV2 → TaskRevealV2 → Option Factory → Result TaskError Bool
  unfolding is_regenerated
  audit_commitment t r regenerate =
      if not (is_regenerated regenerate r)
      then ok false
      else lift_digest (commitment_digest t r) >>= (λ d. ok (t.commitment == d))

  -- The audit from the Merkle root on.
  audit_root : PublicTaskV2 → TaskRevealV2 → Option Factory → Result TaskError Bool
  audit_root t r regenerate = do
    root ← hidden_fixture_merkle_root r.hidden_fixtures
    if not (root == r.hidden_fixture_merkle_root) then ok false else audit_commitment t r regenerate

  -- `audit_task_reveal`
  pub audit_task_reveal : PublicTaskV2 → TaskRevealV2 → Option Factory → Result TaskError Bool
  audit_task_reveal t r regenerate =
      if not (t.task_id == r.task_id)
      then ok false
      else if not (t.hidden_holdout_count == length r.hidden_fixtures)
      then ok false
      else audit_root t r regenerate
