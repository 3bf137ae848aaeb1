-- ===== src/Weights/Guard.antt =====
-- What `submit_weight_plan` of planrace/weights.py can call the chain with.
use planrace_subnet.Prelude.{
  ℕ, ◌≡◌, refl, inl, inr, true, false, some, List, ok, arith, Result-cases,
}
use planrace_subnet.Prelude.Int.{pos, ltb_ℤ}
use planrace_subnet.Floats.{Floats}
use planrace_subnet.Network.{ensure_supported_network}
use planrace_subnet.Network.Laws.{IsAllowed, supported_iff}
use planrace_subnet.Weights.{WeightPlan, SetWeights, Submission, submit_weight_plan}

module _ {ℓ} {R : Type ℓ} (F : Floats) (lower_other : ℕ → List ℕ) (setter : SetWeights F → R) where
  -- A call of `set_weights` that submits the plan and nothing else, on an allowed network.
  pub record IsGuardedCall (plan : WeightPlan F) (s : Submission F) (c : SetWeights F)
      : Type 0 where
    pub uids : c.uids ≡ plan.uids
    pub weights : c.weights ≡ plan.weights
    pub netuid : c.netuid ≡ s.netuid
    pub planned : plan.planned ≡ true
    pub network : IsAllowed c.network
    pub in_range : ltb_ℤ s.netuid (pos 0) ≡ false
    pub submitted : s.dry_run ≡ false

  -- Whatever a submission returns from the chain comes from one call of `set_weights`, of the
  -- plan's UIDs and weights, with a planned update, the netuid given, which is not negative, a network that is
  -- "local" or "test", and not in a dry run.
  pub submit_weight_plan-IsGuarded :
      (plan : WeightPlan F) (s : Submission F) (r : R)
      → submit_weight_plan F lower_other setter plan s ≡ ok (some r)
      → (c : SetWeights F) × (r ≡ setter c) × IsGuardedCall plan s c
  unfolding submit_weight_plan
  submit_weight_plan-IsGuarded plan s r h =
      elim (Result-cases (ensure_supported_network lower_other s.network)) [
        | inr (e, bad) ↦ absurd (ground arith)
        | inl (n, safe) ↦
            let c : SetWeights F = record {
              netuid = s.netuid;
              weights = plan.weights;
              uids = plan.uids;
              wallet = s.wallet_name;
              hotkey = s.hotkey_name;
              network = n;
            } in
            (
              c,
              ground arith,
              record {
                uids = refl;
                weights = refl;
                netuid = refl;
                planned = ground arith;
                network = ((supported_iff lower_other s.network n).0 safe).1;
                in_range = ground arith;
                submitted = ground arith;
              },
            )
      ]
