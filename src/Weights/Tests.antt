-- ===== src/Weights/Tests.antt =====
-- Concrete runs of planrace/weights.py.
use planrace_subnet.Prelude.{
  ℕ, ◌≡◌, refl, String, true, false, none, some, List, [], ◌∷◌, ok, string_eq, nat_eq, list_eq,
}
use planrace_subnet.Prelude.Int.{pos, int_eq}
use planrace_subnet.Prelude.Dict.{Dict}
use planrace_subnet.Prelude.Sort.{sort}
use planrace_subnet.Digest.Payload.{codes}
use planrace_subnet.Network.{ensure_supported_network, lower, strip}
use planrace_subnet.Floats.{or_raise, divide}
use planrace_subnet.Floats.Fixed.{fixed}
use planrace_subnet.Weights.{
  insufficient_positive_uids, WeightPlan, HotkeyWeightPlan, FinalizedMetagraphSnapshot, SetWeights,
  Submission, is_bad_score, positive_scores, shares, share, starts_with, bind_uids, zip_strict,
  pair_le, plan_weights, plan_hotkey_weights, resolve_hotkey_weight_plan, submit_weight_plan,
}
use planrace_subnet.Weights.Bound.{IsResolved, resolve_hotkey_weight_plan-IsResolved}
use planrace_subnet.Weights.Shares.{IsPlanned, plan_hotkey_weights-IsPlanned}
use planrace_subnet.Weights.Guard.{IsGuardedCall, submit_weight_plan-IsGuarded}

abbrev scores : Dict String fixed.Float
scores = ("hotkey-b", fixed.of_ℕ 3) ∷ ("hotkey-c", fixed.of_ℕ 0) ∷ ("hotkey-a", fixed.of_ℕ 1) ∷ []

abbrev hotkey_plan : HotkeyWeightPlan fixed
hotkey_plan = record {
  planned = true;
  reason = none;
  hotkeys = "hotkey-a" ∷ "hotkey-b" ∷ [];
  weights = fixed.decimal 25 2 ∷ fixed.decimal 75 2 ∷ [];
}

-- The scores become shares of their sum.
planned : plan_hotkey_weights fixed scores (pos 1) ≡ ok hotkey_plan
unfolding plan_hotkey_weights is_bad_score fixed positive_scores shares or_raise sort share divide
planned = refl

abbrev snapshot : FinalizedMetagraphSnapshot fixed
snapshot = record {
  block_hash = "0x00112233445566778899aabbccddeeff00112233445566778899aabbccddeeff";
  uid_by_hotkey = ("hotkey-a", pos 7) ∷ ("hotkey-b", pos 2) ∷ [];
}

abbrev uid_plan : WeightPlan fixed
uid_plan = record {
  planned = true;
  reason = none;
  uids = pos 2 ∷ pos 7 ∷ [];
  weights = fixed.decimal 75 2 ∷ fixed.decimal 25 2 ∷ [];
}

resolved : resolve_hotkey_weight_plan fixed hotkey_plan snapshot ≡ ok uid_plan
unfolding resolve_hotkey_weight_plan starts_with bind_uids zip_strict sort pair_le
resolved = refl

resolve_hotkey_weight_plan-IsResolved_example : IsResolved fixed hotkey_plan snapshot uid_plan
resolve_hotkey_weight_plan-IsResolved_example =
    resolve_hotkey_weight_plan-IsResolved fixed hotkey_plan snapshot uid_plan refl resolved

-- A score that is not above zero gets no weight, and too few positive scores give no plan.
unplanned :
    plan_weights fixed ((pos 4, fixed.of_ℕ 0) ∷ (pos 1, fixed.of_ℕ 5) ∷ []) (pos 2)
    ≡ ok (record {
      planned = false;
      reason = some insufficient_positive_uids;
      uids = [];
      weights = [];
    })
unfolding plan_weights is_bad_score fixed positive_scores
unplanned = refl

abbrev submission : Submission fixed
submission = record {
  network = codes " Test ";
  netuid = pos 12;
  wallet_name = "validator";
  hotkey_name = "default";
  dry_run = false;
}

-- A character outside ASCII stays as it is.
abbrev same : ℕ → List ℕ
same c = c ∷ []

abbrev call : SetWeights fixed
call = record {
  netuid = pos 12;
  weights = fixed.decimal 75 2 ∷ fixed.decimal 25 2 ∷ [];
  uids = pos 2 ∷ pos 7 ∷ [];
  wallet = "validator";
  hotkey = "default";
  network = codes "test";
}

submitted : submit_weight_plan fixed same (λ c. c) uid_plan submission ≡ ok (some call)
unfolding submit_weight_plan ensure_supported_network lower strip
submitted = refl

submit_weight_plan-IsGuarded_example :
    (c : SetWeights fixed) × (call ≡ c)
    × IsGuardedCall fixed same (λ (x : SetWeights fixed). x) uid_plan submission c
submit_weight_plan-IsGuarded_example =
    submit_weight_plan-IsGuarded fixed same (λ c. c) uid_plan submission call submitted

plan_hotkey_weights-IsPlanned_example : IsPlanned fixed scores (pos 1) hotkey_plan
plan_hotkey_weights-IsPlanned_example =
    plan_hotkey_weights-IsPlanned fixed scores (pos 1) hotkey_plan refl planned refl
