-- ===== src/Weights/Shares.antt =====
-- What `plan_hotkey_weights` of planrace/weights.py pays to whom.
use mathlib.Core.List.{Perm}
use planrace_subnet.Prelude.{
  ◌≡◌, refl, ap, ◌∙◌, inl, inr, String, Bool, true, false, some, [], ◌∷◌, map, ok, arith, any,
  length, mem, distinct, All₂, ◌==◌, string_eq, filter, Eq, Bool-cases, Result-cases, Option-cases,
  sequence, sequence-map,
}
use planrace_subnet.Prelude.Int.{ℤ, pos, ltb_ℤ}
use planrace_subnet.Prelude.Dict.{Dict, keys, values, lookup}
use planrace_subnet.Prelude.Sort.{sort, sort-perm}
use planrace_subnet.Prelude.Perms.{distinct_of_perm}
use planrace_subnet.Floats.{Floats, divide, or_raise}
use planrace_subnet.Digest.Payload.{text_le}
use planrace_subnet.Weights.{
  HotkeyWeightPlan, float_raise, positive_scores, share, shares, is_bad_score, plan_hotkey_weights,
}

module _ {ℓ κ} {K : Type ℓ} {V : Type κ} ⦃e : Eq K⦄ where
  mem_of_lookup : (k : K) (v : V) (d : Dict K V) → lookup k d ≡ some v → mem k (keys d) ≡ true
  mem_of_lookup k v [] h = absurd (ground arith)
  mem_of_lookup k v ((j, w) ∷ d) h =
      ground (arith, mem_of_lookup k v d, e.beq_iff j k, e.beq_iff k j)

  mem_keys-filter :
      (p : K × V → Bool) (k : K) (d : Dict K V)
      → mem k (keys d) ≡ false
      → mem k (keys (filter p d)) ≡ false
  mem_keys-filter p k [] h = refl
  mem_keys-filter p k ((j, w) ∷ d) h = elim (Bool-cases (p (j, w))) [
    | inl kept ↦ ground (arith, mem_keys-filter p k d)
    | inr dropped ↦ ground (arith, mem_keys-filter p k d)
  ]

  distinct_keys-filter :
      (p : K × V → Bool) (d : Dict K V)
      → distinct (keys d) ≡ true
      → distinct (keys (filter p d)) ≡ true
  distinct_keys-filter p [] h = refl
  distinct_keys-filter p ((j, w) ∷ d) h = elim (Bool-cases (p (j, w))) [
    | inl kept ↦ ground (arith, mem_keys-filter p j d, distinct_keys-filter p d)
    | inr dropped ↦ ground (arith, distinct_keys-filter p d)
  ]

module _ (F : Floats) where
  open F use {Float, of_ℕ, lt, fsum}

  -- Among the positive scores stand only scores that are positive.
  lookup-positive_scores :
      (k : String) (v : Float) (d : Dict String Float)
      → distinct (keys d) ≡ true
      → lookup k (positive_scores F d) ≡ some v
      → (lookup k d ≡ some v) × (lt (of_ℕ 0) v ≡ true)
  unfolding positive_scores
  lookup-positive_scores k v [] once h = absurd (ground arith)
  lookup-positive_scores k v ((j, w) ∷ d) once h = elim (Bool-cases (lt (of_ℕ 0) w)) [
    | inl positive ↦ elim (Bool-cases (j == k)) [
      | inl same ↦ (ground arith, ground arith)
      | inr other ↦
          let rest = lookup-positive_scores k v d (ground arith) (ground arith) in
          (rw other rest.0, rest.1)
    ]
    | inr dropped ↦
        let rest = lookup-positive_scores k v d (ground arith) (ground arith) in
        let there = mem_of_lookup k v d rest.0 in (ground (arith, string_eq.beq_iff j k), rest.1)
  ]

  -- The weight that a hotkey is due.
  abbrev pub IsShare : Dict String Float → Float → String → Float → Type 0
  IsShare scores total hotkey weight =
      (score : Float) × (lookup hotkey scores ≡ some score)
      × (lt (of_ℕ 0) score ≡ true)
      × (divide F score total ≡ ok weight)

  share-IsShare :
      (scores : Dict String Float) (total : Float) (hotkey : String) (weight : Float)
      → distinct (keys scores) ≡ true
      → share F (positive_scores F scores) total hotkey ≡ ok weight
      → IsShare scores total hotkey weight
  unfolding share float_raise
  share-IsShare scores total hotkey weight once h =
      elim (Option-cases (lookup hotkey (positive_scores F scores))) [
        | inl missing ↦ absurd (ground arith)
        | inr (score, found) ↦ elim (Result-cases (divide F score total)) [
          | inr (e, bad) ↦ absurd (ground arith)
          | inl (w, good) ↦
              let (there, positive) = lookup-positive_scores hotkey score scores once found in
              (score, there, positive, ground arith)
        ]
      ]

  -- A planned update by hotkey.
  pub record IsPlanned (scores : Dict String Float) (minimum : ℤ) (plan : HotkeyWeightPlan F)
      : Type 0 where
    pub total : Float
    pub total_of : fsum (values (positive_scores F scores)) ≡ some total
    pub recipients : Perm plan.hotkeys (keys (positive_scores F scores))
    pub once : distinct plan.hotkeys ≡ true
    pub due : All₂ (IsShare scores total) plan.hotkeys plan.weights
    pub enough : ltb_ℤ (pos (length (positive_scores F scores))) minimum ≡ false
    pub nobody_bad : any (is_bad_score F) (values scores) ≡ false

  -- A planned update pays every hotkey with a positive score once and nobody else, each the part of
  -- the total that its score is; no score is negative or not finite, and there are as many positive ones as
  -- the minimum asks. The scores are a dict: no hotkey stands twice.
  pub plan_hotkey_weights-IsPlanned :
      (scores : Dict String Float) (minimum : ℤ) (plan : HotkeyWeightPlan F)
      → distinct (keys scores) ≡ true
      → plan_hotkey_weights F scores minimum ≡ ok plan
      → plan.planned ≡ true
      → IsPlanned scores minimum plan
  unfolding plan_hotkey_weights shares float_raise or_raise
  plan_hotkey_weights-IsPlanned scores minimum plan once h planned =
      let positive = positive_scores F scores in
      let hotkeys = sort text_le (keys positive) in
      elim (Option-cases (fsum (values positive))) [
        | inl none' ↦ absurd (ground arith)
        | inr (total, summed) ↦
            elim (Result-cases (sequence (map (share F positive total) hotkeys))) [
              | inr (e, bad) ↦ absurd (ground arith)
              | inl (weights, good) ↦
                  let due =
                    sequence-map (IsShare scores total) (share F positive total)
                      (λ k w e. share-IsShare scores total k w once e) hotkeys weights good in
                  let by = sort-perm text_le (keys positive) in
                  let hotkeys' : plan.hotkeys ≡ hotkeys = ground arith in
                  let weights' : plan.weights ≡ weights = ground arith in
                  record {
                    total = total;
                    total_of = summed;
                    recipients = rw hotkeys' by;
                    once =
                        ap distinct hotkeys'
                        ∙ distinct_of_perm by
                        ∙ (unfold positive_scores in
                            distinct_keys-filter (λ e. lt (of_ℕ 0) e.1) scores once);
                    due = rw (hotkeys', weights') due;
                    enough = ground arith;
                    nobody_bad = ground arith;
                  }
            ]
      ]
