-- ===== src/Weights.antt =====
-- planrace/weights.py: from scores to a plan of weights, the binding of its hotkeys to UIDs, and the
-- guarded submission. The library's `set_weights` is a parameter.
pub mod Bound
pub mod Guard
pub mod Shares
mod Tests
use planrace_subnet.Prelude.{
  ℕ, String, Bool, true, false, not, ◌&&◌, ◌||◌, Option, none, some, List, [], ◌∷◌, map, Result, ok,
  err, ◌>>=◌, ◌>>◌, raise_if, sequence, length, any, filter, ltb, leb, distinct, Eq, ◌==◌, nat_eq,
  string_eq, if◌then◌else◌,
}
use planrace_subnet.Prelude.Int.{ℤ, pos, ltb_ℤ, int_eq}
use planrace_subnet.Prelude.Dict.{Dict, keys, values, lookup}
use planrace_subnet.Prelude.Sort.{sort}
use planrace_subnet.Floats.{Floats, FloatError, overflow, divide, or_raise}
use planrace_subnet.Digest.Payload.{codes, text_le}
use planrace_subnet.Network.{NetworkError, ensure_supported_network}

pub data WeightsError : Type 0 where
  bad_minimum bad_uid bad_hotkey bad_score bad_block_hash missing_hotkey shared_uid strict_zip
        not_planned bad_netuid :
      WeightsError
  missing_score : WeightsError
  float_error : FloatError → WeightsError
  network_error : NetworkError → WeightsError

pub data Reason : Type 0 where
  insufficient_positive_uids insufficient_positive_hotkeys : Reason

-- `value.startswith(prefix)`
pub starts_with : List ℕ → List ℕ → Bool
starts_with [] cs = true
starts_with (p ∷ ps) [] = false
starts_with (p ∷ ps) (c ∷ cs) = p == c && starts_with ps cs

module _ (F : Floats) where
  open F use {Float, of_ℕ, lt, le, eq, is_finite, fsum}

  pub record WeightPlan : Type 0 where
    pub planned : Bool
    pub reason : Option Reason
    pub uids : List ℤ
    pub weights : List Float

  pub record HotkeyWeightPlan : Type 0 where
    pub planned : Bool
    pub reason : Option Reason
    pub hotkeys : List String
    pub weights : List Float

  pub record FinalizedMetagraphSnapshot : Type 0 where
    pub block_hash : String
    pub uid_by_hotkey : Dict String ℤ

  float_raise {ℓ} : {A : Type ℓ} → Result FloatError A → Result WeightsError A
  float_raise (ok a) = ok a
  float_raise (err e) = err (float_error e)

  -- `not math.isfinite(score) or score < 0.0`
  pub is_bad_score : Float → Bool
  is_bad_score score = not (is_finite score) || lt score (of_ℕ 0)

  -- `{uid: score for uid, score in scores.items() if score > 0.0}`
  pub positive_scores {ℓ} : {K : Type ℓ} → Dict K Float → Dict K Float
  positive_scores = filter (λ e. lt (of_ℕ 0) e.1)

  -- `positive[uid] / total`
  pub share {ℓ} : {K : Type ℓ} → ⦃e : Eq K⦄ → Dict K Float → Float → K → Result WeightsError Float
  unfolding float_raise
  share positive total k = elim (lookup k positive) [
    | none ↦ err missing_score
    | some score ↦ float_raise (divide F score total)
  ]

  pub shares {ℓ} :
      {K : Type ℓ} → ⦃e : Eq K⦄ → Dict K Float → List K → Result WeightsError (List Float)
  unfolding float_raise
  shares positive ks = do
    total ← float_raise (or_raise F (fsum (values positive)) overflow)
    sequence (map (share positive total) ks)

  pub plan_weights : Dict ℤ Float → ℤ → Result WeightsError WeightPlan
  plan_weights scores minimum_positive_uids = do
    raise_if (ltb_ℤ minimum_positive_uids (pos 1)) bad_minimum
    raise_if (any (λ uid. ltb_ℤ uid (pos 0)) (keys scores)) bad_uid
    raise_if (any is_bad_score (values scores)) bad_score
    let positive = positive_scores scores
    let uids = sort (λ a b. not (ltb_ℤ b a)) (keys positive)
    if ltb_ℤ (pos (length positive)) minimum_positive_uids
        then ok (record {
          planned = false;
          reason = some insufficient_positive_uids;
          uids = [];
          weights = [];
        })
        else do
          weights ← shares positive uids
          ok (record { planned = true; reason = none; uids = uids; weights = weights })

  pub plan_hotkey_weights : Dict String Float → ℤ → Result WeightsError HotkeyWeightPlan
  plan_hotkey_weights scores minimum_positive_hotkeys = do
    raise_if (ltb_ℤ minimum_positive_hotkeys (pos 1)) bad_minimum
    raise_if (any (λ hotkey. hotkey == "") (keys scores)) bad_hotkey
    raise_if (any is_bad_score (values scores)) bad_score
    let positive = positive_scores scores
    let hotkeys = sort text_le (keys positive)
    if ltb_ℤ (pos (length positive)) minimum_positive_hotkeys
        then ok (record {
          planned = false;
          reason = some insufficient_positive_hotkeys;
          hotkeys = [];
          weights = [];
        })
        else do
          weights ← shares positive hotkeys
          ok (record { planned = true; reason = none; hotkeys = hotkeys; weights = weights })

  -- `snapshot.uid_by_hotkey[hotkey] for hotkey in plan.hotkeys`
  pub bind_uids : Dict String ℤ → List String → Result WeightsError (List ℤ)
  bind_uids uid_by_hotkey [] = ok []
  bind_uids uid_by_hotkey (hotkey ∷ hotkeys) = elim (lookup hotkey uid_by_hotkey) [
    | none ↦ err missing_hotkey
    | some uid ↦ do uids ← bind_uids uid_by_hotkey hotkeys; ok (uid ∷ uids)
  ]

  -- `zip(uids, weights, strict=True)`
  pub zip_strict : List ℤ → List Float → Result WeightsError (List (ℤ × Float))
  zip_strict [] [] = ok []
  zip_strict (uid ∷ uids) (weight ∷ weights) = do
    pairs ← zip_strict uids weights
    ok ((uid, weight) ∷ pairs)
  zip_strict [] (weight ∷ weights) = err strict_zip
  zip_strict (uid ∷ uids) [] = err strict_zip

  -- The order of pairs: `not b < a`, where a pair is less by its first part that differs.
  pub pair_le : ℤ × Float → ℤ × Float → Bool
  pair_le a b =
      if a.0 == b.0 then (if eq a.1 b.1 then true else not (lt b.1 a.1)) else not (ltb_ℤ b.0 a.0)

  pub resolve_hotkey_weight_plan :
      HotkeyWeightPlan → FinalizedMetagraphSnapshot → Result WeightsError WeightPlan
  resolve_hotkey_weight_plan plan snapshot =
      let hash = codes snapshot.block_hash in
      if not plan.planned
      then ok (record { planned = false; reason = plan.reason; uids = []; weights = [] })
      else do
        raise_if (not (starts_with (codes "0x") hash) || not (length hash == 66)) bad_block_hash
        uids ← bind_uids snapshot.uid_by_hotkey plan.hotkeys
        raise_if (any (λ uid. ltb_ℤ uid (pos 0)) uids) bad_uid
        raise_if (not (distinct uids)) shared_uid
        pairs ← zip_strict uids plan.weights
        let ordered = sort pair_le pairs
        ok (record {
          planned = true;
          reason = none;
          uids = map (λ p. p.0) ordered;
          weights = map (λ p. p.1) ordered;
        })

  -- The arguments of the call of `set_weights`.
  pub record SetWeights : Type 0 where
    pub netuid : ℤ
    pub weights : List Float
    pub uids : List ℤ
    pub wallet : String
    pub hotkey : String
    pub network : List ℕ

  -- What `submit_weight_plan` is given beside the plan.
  pub record Submission : Type 0 where
    pub network : List ℕ
    pub netuid : ℤ
    pub wallet_name : String
    pub hotkey_name : String
    pub dry_run : Bool

  module _ {ℓ} {R : Type ℓ} (lower_other : ℕ → List ℕ) (setter : SetWeights → R) where
    pub submit_weight_plan : WeightPlan → Submission → Result WeightsError (Option R)
    submit_weight_plan plan s = elim (ensure_supported_network lower_other s.network) [
      | err e ↦ err (network_error e)
      | ok safe_network ↦ do
        raise_if (not plan.planned) not_planned
        raise_if (ltb_ℤ s.netuid (pos 0)) bad_netuid
        if s.dry_run
            then ok none
            else ok (
                some (
                  setter (record {
                    netuid = s.netuid;
                    weights = plan.weights;
                    uids = plan.uids;
                    wallet = s.wallet_name;
                    hotkey = s.hotkey_name;
                    network = safe_network;
                  })))
    ]
