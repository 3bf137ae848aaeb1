-- ===== src/Weights/Bound.antt =====
-- What `resolve_hotkey_weight_plan` of planrace/weights.py binds to which UID.
use mathlib.Core.Path.{subst}
use mathlib.Core.List.{Perm}
use mathlib.Core.List.Perm
use planrace_subnet.Prelude.{
  ◌≡◌, refl, sym, ap, ◌∙◌, inl, inr, String, Bool, true, false, not, some, List, [], ◌∷◌, map, ok,
  arith, any, distinct, All, nat_eq, Result-cases, Option-cases, ok-injective, string_eq,
}
use planrace_subnet.Prelude.Int.{ℤ, pos, ltb_ℤ, int_eq}
use planrace_subnet.Prelude.Dict.{Dict, lookup}
use planrace_subnet.Prelude.Sort.{sort, sort-perm, IsSorted, sort-IsSorted_by}
use planrace_subnet.Prelude.Perms.{distinct_of_perm}
use planrace_subnet.Floats.{Floats}
use planrace_subnet.Weights.{
  HotkeyWeightPlan, FinalizedMetagraphSnapshot, WeightPlan, bind_uids, zip_strict, pair_le,
  resolve_hotkey_weight_plan,
}

-- The order of UIDs.
abbrev pub uid_le : ℤ → ℤ → Bool
uid_le a b = not (ltb_ℤ b a)

module _ {ℓ κ} {A : Type ℓ} {B : Type κ} (f : A → B) (le : B → B → Bool) where
  All_of_map :
      (b : B) (xs : List A) → All (λ x. le b (f x) ≡ true) xs → All (λ y. le b y ≡ true) (map f xs)
  All_of_map b [] h = tt
  All_of_map b (x ∷ xs) h = (h.0, All_of_map b xs h.1)

  IsSorted-map : (xs : List A) → IsSorted (λ x y. le (f x) (f y)) xs → IsSorted le (map f xs)
  IsSorted-map [] h = tt
  IsSorted-map (x ∷ xs) h = (All_of_map (f x) xs h.0, IsSorted-map xs h.1)

module _ (F : Floats) where
  open F use {Float}

  -- One row for each hotkey: the hotkey, its UID and its weight.
  abbrev pub Row : Type 0
  Row = String × ℤ × Float

  -- What the rows say of a plan.
  pub record IsBinding (uid_by_hotkey : Dict String ℤ) (hotkeys : List String)
      (plan_weights : List Float) (rows : List Row) : Type 0 where
    pub hotkeys_of : map (λ r. r.0) rows ≡ hotkeys
    pub weights_of : map (λ r. r.2) rows ≡ plan_weights
    pub bound : All (λ r. lookup r.0 uid_by_hotkey ≡ some r.1) rows

  abbrev pairs_of : List Row → List (ℤ × Float)
  pairs_of = map (λ r. (r.1, r.2))

  abbrev Bound : Dict String ℤ → List String → List Float → List ℤ → List (ℤ × Float) → Type 0
  Bound d hotkeys ws uids pairs =
      (rows : List Row) × IsBinding d hotkeys ws rows
      × (pairs_of rows ≡ pairs)
      × (map (λ p. p.0) pairs ≡ uids)

  one_more :
      (d : Dict String ℤ) (hotkey : String) (hotkeys : List String) (ws : List Float) (uid : ℤ)
      (uids : List ℤ) (pairs : List (ℤ × Float))
      → lookup hotkey d ≡ some uid
      → ((vs : List Float) (ps : List (ℤ × Float))
          → zip_strict F uids vs ≡ ok ps
          → Bound d hotkeys vs uids ps)
      → zip_strict F (uid ∷ uids) ws ≡ ok pairs
      → Bound d (hotkey ∷ hotkeys) ws (uid ∷ uids) pairs
  unfolding zip_strict
  one_more d hotkey hotkeys [] uid uids pairs found next k = absurd (ground arith)
  one_more d hotkey hotkeys (w ∷ ws) uid uids pairs found next k =
      elim (Result-cases (zip_strict F uids ws)) [
        | inr (e, bad) ↦ absurd (ground arith)
        | inl (ps, more) ↦
            let (rows, b, p, u) = next ws ps more in
            let ends : (uid, w) ∷ ps ≡ pairs = ground arith in
            (
              (hotkey, uid, w) ∷ rows,
              record {
                hotkeys_of = ap (λ l. hotkey ∷ l) b.hotkeys_of;
                weights_of = ap (λ l. w ∷ l) b.weights_of;
                bound = (found, b.bound);
              },
              ap (λ l. (uid, w) ∷ l) p ∙ ends,
              rw (← ends) (ap (λ l. uid ∷ l) u),
            )
      ]

  bind_uids-Bound :
      (d : Dict String ℤ) (hotkeys : List String) (ws : List Float) {uids : List ℤ}
      (pairs : List (ℤ × Float))
      → bind_uids F d hotkeys ≡ ok uids
      → zip_strict F uids ws ≡ ok pairs
      → Bound d hotkeys ws uids pairs
  unfolding bind_uids zip_strict
  bind_uids-Bound d [] [] {uids = []} pairs h k = (
    [],
    record { hotkeys_of = refl; weights_of = refl; bound = tt },
    ok-injective k,
    ap (map (λ p. p.0)) (sym (ok-injective k)),
  )
  bind_uids-Bound d [] (w ∷ ws) {uids = []} pairs h k = absurd (ground arith)
  bind_uids-Bound d [] ws {uids = u ∷ uids} pairs h k = absurd (ground arith)
  bind_uids-Bound d (hotkey ∷ hotkeys) ws {uids = uids} pairs h k =
      elim (Option-cases (lookup hotkey d)) [
        | inl missing ↦ absurd (ground arith)
        | inr (uid, found) ↦ elim (Result-cases (bind_uids F d hotkeys)) [
          | inr (e, bad) ↦ absurd (ground arith)
          | inl (rest, more) ↦
              let ends : uid ∷ rest ≡ uids = ground arith in
              subst (λ l. Bound d (hotkey ∷ hotkeys) ws l pairs) ends
                (one_more d hotkey hotkeys ws uid rest pairs found
                  (λ vs ps q. bind_uids-Bound d hotkeys vs {uids = rest} ps more q) (rw ends k))
        ]
      ]

  pair_le_below : (a b : ℤ × Float) → pair_le F a b ≡ true → uid_le a.0 b.0 ≡ true
  unfolding pair_le
  pair_le_below (i, v) (j, w) h = ground (arith, int_eq.beq_iff i j)

  pair_le_above : (a b : ℤ × Float) → pair_le F a b ≡ false → uid_le b.0 a.0 ≡ true
  unfolding pair_le
  pair_le_above (i, v) (j, w) h = ground (arith, int_eq.beq_iff i j)

  uid_le_trans : (a b c : ℤ) → uid_le a b ≡ true → uid_le b c ≡ true → uid_le a c ≡ true
  uid_le_trans a b c h k = ground arith

  uids_of_rows : (rows : List Row) → map (λ r. r.1) rows ≡ map (λ p. p.0) (pairs_of rows)
  uids_of_rows [] = refl
  uids_of_rows (r ∷ rows) = ap (λ l. r.1 ∷ l) (uids_of_rows rows)

  -- A plan of weights by UID that pays what a plan by hotkey says.
  pub record IsResolved (plan : HotkeyWeightPlan F) (snapshot : FinalizedMetagraphSnapshot F)
      (w : WeightPlan F) : Type 0 where
    pub rows : List Row
    pub binding : IsBinding snapshot.uid_by_hotkey plan.hotkeys plan.weights rows
    pub pairs : List (ℤ × Float)
    pub uids_of : w.uids ≡ map (λ p. p.0) pairs
    pub weights_of : w.weights ≡ map (λ p. p.1) pairs
    pub same_pairs : Perm pairs (map (λ r. (r.1, r.2)) rows)
    pub ascending : IsSorted uid_le w.uids
    pub once : distinct w.uids ≡ true
    pub not_negative : any (λ uid. ltb_ℤ uid (pos 0)) (map (λ r. r.1) rows) ≡ false

  -- A resolved plan pays every hotkey of the plan its weight at the UID that the snapshot binds to
  -- it, and nothing else; its UIDs ascend, none is negative and none stands twice.
  pub resolve_hotkey_weight_plan-IsResolved :
      (plan : HotkeyWeightPlan F) (snapshot : FinalizedMetagraphSnapshot F) (w : WeightPlan F)
      → plan.planned ≡ true
      → resolve_hotkey_weight_plan F plan snapshot ≡ ok w
      → IsResolved plan snapshot w
  unfolding resolve_hotkey_weight_plan
  resolve_hotkey_weight_plan-IsResolved plan snapshot w planned h =
      elim (Result-cases (bind_uids F snapshot.uid_by_hotkey plan.hotkeys)) [
        | inr (e, bad) ↦ absurd (ground arith)
        | inl (uids, found) ↦ elim (Result-cases (zip_strict F uids plan.weights)) [
          | inr (e, bad) ↦ absurd (ground arith)
          | inl (pairs, zipped) ↦
              let (rows, b, p, u) =
                bind_uids-Bound snapshot.uid_by_hotkey plan.hotkeys plan.weights {uids = uids} pairs
                  found zipped in
              let ordered = sort (pair_le F) pairs in
              let by = sort-perm (pair_le F) pairs in
              let uids' : w.uids ≡ map (λ p. p.0) ordered = ground arith in
              let up =
                IsSorted-map (λ (p : ℤ × Float). p.0) uid_le ordered
                  (sort-IsSorted_by (pair_le F) (λ a b. uid_le a.0 b.0) pair_le_below pair_le_above
                    (λ a b c. uid_le_trans a.0 b.0 c.0) pairs) in
              record {
                rows = rows;
                binding = b;
                pairs = ordered;
                uids_of = uids';
                weights_of = ground arith;
                same_pairs = rw p by;
                ascending = rw uids' up;
                once =
                    ap distinct uids'
                    ∙ distinct_of_perm (Perm.map (λ p. p.0) by)
                    ∙ (rw u (ground arith));
                not_negative = rw (uids_of_rows rows, p, u) (ground arith);
              }
        ]
      ]
