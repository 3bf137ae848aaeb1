-- ===== src/Tasks/Commitment/Roundtrip.antt =====
-- The creation of a task against its audit, and the rounds of the Merkle loop.
use mathlib.Core.Path.{subst}
use planrace_subnet.Prelude.{
  Option, ℕ, zero, suc, ◌+◌, ◌≤◌, ◌≡◌, ◌≢◌, refl, inl, inr, String, true, none, List, [], ◌∷◌, ok,
  err, Result-cases, length, string_eq, nat_eq, list_eq, beq_refl, arith,
}
use planrace_subnet.Models.Task.{PublicTaskV2, check_task}
use planrace_subnet.Models.Reveal.{HiddenFixtureDescriptor, TaskRevealV2, check_reveal}
use planrace_subnet.Tasks.Lifecycle.{PrivateTaskV2}
use planrace_subnet.Models.Hex.{to_hex}
use planrace_subnet.Tasks.Commitment.{
  out_of_fuel, Factory, is_regenerated, leaves, node, next_level, merkle_loop,
  hidden_fixture_merkle_root, commitment_digest, assemble, create_task_v2, audit_commitment,
  audit_root, audit_task_reveal,
}

module _ (sha256 : List ℕ → String) where
  length-leaves :
      (i : ℕ) (fs : List HiddenFixtureDescriptor) (level : List String)
      → leaves sha256 i fs ≡ ok level
      → length level ≡ length fs
  unfolding leaves
  length-leaves i [] level h = ground arith
  length-leaves i (f ∷ fs) level h = grind (arith, length-leaves (i + 1) fs)

  length-next_level :
      (level level' : List String)
      → next_level sha256 level ≡ ok level'
      → (length level' + length level' ≤ length level + 1)
  unfolding next_level
  length-next_level [] level' h = ground arith
  length-next_level (x ∷ []) level' h = ground arith
  length-next_level (x ∷ y ∷ level) level' h = elim (Result-cases (node sha256 x y)) [
    | inr (e, bad) ↦ absurd (ground arith)
    | inl (d, ed) ↦ elim (Result-cases (next_level sha256 level)) [
      | inr (e, bad) ↦ absurd (ground arith)
      | inl (rest, er) ↦ ground (arith, length-next_level level rest er)
    ]
  ]

  merkle_loop_ends :
      (fuel : ℕ) (level : List String)
      → length level ≤ fuel
      → 1 ≤ fuel
      → merkle_loop sha256 fuel level ≢ err out_of_fuel
  unfolding merkle_loop
  merkle_loop_ends zero level h h' = absurd (omega arith)
  merkle_loop_ends (suc fuel) [] h h' = ground arith
  merkle_loop_ends (suc fuel) (x ∷ []) h h' = ground arith
  merkle_loop_ends (suc fuel) (x ∷ y ∷ level) h h' =
      elim (Result-cases (next_level sha256 (x ∷ y ∷ level))) [
        | inr (e, bad) ↦ ground arith
        | inl (level', good) ↦
            let shrinks = length-next_level (x ∷ y ∷ level) level' good in
            ground (arith, merkle_loop_ends fuel level')
      ]

  -- The loop that computes a Merkle root never runs out of the fuel that it is given, for any
  -- list of fixtures.
  pub hidden_fixture_merkle_root-ends :
      (fs : List HiddenFixtureDescriptor) → hidden_fixture_merkle_root sha256 fs ≢ err out_of_fuel
  unfolding hidden_fixture_merkle_root
  hidden_fixture_merkle_root-ends fs e = elim (Result-cases (leaves sha256 0 fs)) [
    | inr (x, bad) ↦ absurd (ground arith)
    | inl (level, good) ↦
        ground (arith, merkle_loop_ends (length fs) level, length-leaves 0 fs level good)
  ]

  -- What an accepted reveal without a factory shows.
  pub record IsCommitted (t : PublicTaskV2) (r : TaskRevealV2) : Type 0 where
    pub same_task : t.task_id ≡ r.task_id
    pub count : t.hidden_holdout_count ≡ length r.hidden_fixtures
    pub root : hidden_fixture_merkle_root sha256 r.hidden_fixtures ≡ ok r.hidden_fixture_merkle_root
    pub bound : commitment_digest sha256 t r ≡ ok t.commitment

  audited_of_committed :
      (t : PublicTaskV2) (r : TaskRevealV2)
      → IsCommitted t r
      → audit_task_reveal sha256 t r none ≡ ok true
  unfolding audit_task_reveal audit_root audit_commitment is_regenerated
  audited_of_committed t r h = ground (
    arith,
    h.same_task,
    h.count,
    h.root,
    h.bound,
    string_eq.beq_iff t.task_id r.task_id,
    beq_refl {A = String} r.hidden_fixture_merkle_root,
    beq_refl {A = String} t.commitment,
  )

  assemble-IsCommitted :
      (t : PublicTaskV2) (seed salt : List ℕ) (fs : List HiddenFixtureDescriptor)
      (p : PrivateTaskV2)
      → assemble sha256 t seed salt fs ≡ ok p
      → IsCommitted p.public p.reveal
  unfolding assemble commitment_digest
  assemble-IsCommitted t seed salt fs p h =
      elim (Result-cases (hidden_fixture_merkle_root sha256 fs)) [
        | inr (e, bad) ↦ absurd (ground arith)
        | inl (root, er) ↦
            let private : TaskRevealV2 = record {
              task_id = t.task_id;
              secret_seed_hex = to_hex seed;
              salt_hex = to_hex salt;
              hidden_fixtures = fs;
              hidden_fixture_merkle_root = root;
            } in
            elim (Result-cases (check_reveal private)) [
              | inr (e, bad) ↦ absurd (ground arith)
              | inl (u, checked) ↦ elim (Result-cases (commitment_digest sha256 t private)) [
                | inr (e, bad) ↦ absurd (ground arith)
                | inl (c, ec) ↦
                    let committed = record t { commitment = c; hidden_holdout_count = length fs } in
                    elim (Result-cases (check_task committed)) [
                      | inr (e, bad) ↦ absurd (ground arith)
                      | inl (v, accepted) ↦
                          let made : PrivateTaskV2 = record {
                            public = committed;
                            reveal = private;
                          } in
                          let eq : made ≡ p = ground arith in
                          subst (λ q. IsCommitted q.public q.reveal) eq
                            (record { same_task = refl; count = refl; root = er; bound = ec })
                    ]
              ]
            ]
      ]

  -- A task that was created passes the audit of its own reveal, without a factory to make the
  -- fixtures again.
  pub create_task_v2-audited :
      (t : PublicTaskV2) (factory : Factory) (id_bytes seed salt : List ℕ) (p : PrivateTaskV2)
      → create_task_v2 sha256 t factory id_bytes seed salt ≡ ok p
      → audit_task_reveal sha256 p.public p.reveal none ≡ ok true
  unfolding create_task_v2
  create_task_v2-audited t factory id_bytes seed salt p h = audited_of_committed p.public p.reveal (
      assemble-IsCommitted (record t { task_id = to_hex id_bytes }) seed salt (factory seed) p
        (ground arith))

  -- An audit that accepts shows that the task and the reveal have the same number, that the task
  -- counts the revealed fixtures, that their Merkle root is the revealed one, that the digest of
  -- the public fields and the revealed secrets is the task's commitment, and that the factory, if
  -- there is one, makes the fixtures from the revealed seed.
  pub audit_task_reveal-IsCommitted :
      (t : PublicTaskV2) (r : TaskRevealV2) (regenerate : Option Factory)
      → audit_task_reveal sha256 t r regenerate ≡ ok true
      → IsCommitted t r × (is_regenerated regenerate r ≡ true)
  unfolding audit_task_reveal audit_root audit_commitment
  audit_task_reveal-IsCommitted t r regenerate h =
      elim (Result-cases (hidden_fixture_merkle_root sha256 r.hidden_fixtures)) [
        | inr (e, bad) ↦ absurd (ground arith)
        | inl (root, er) ↦ elim (Result-cases (commitment_digest sha256 t r)) [
          | inr (e, bad) ↦ absurd (ground arith)
          | inl (c, ec) ↦ (
            record {
              same_task = ground (arith, string_eq.beq_iff t.task_id r.task_id);
              count = ground arith;
              root = ground (arith, string_eq.beq_iff root r.hidden_fixture_merkle_root);
              bound = ground (arith, string_eq.beq_iff t.commitment c);
            },
            ground arith,
          )
        ]
      ]
