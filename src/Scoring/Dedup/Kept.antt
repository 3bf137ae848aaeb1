-- ===== src/Scoring/Dedup/Kept.antt =====
-- Deduplication against its input: what happens to each observation.
use mathlib.Core.Path.{subst}
use mathlib.Core.List.{Perm, flatten, perm_middle, append_assoc, append-nil, map-append}
use mathlib.Core.List.Perm
use planrace_subnet.Prelude.{
  ℕ, ◌≡◌, refl, ap, inl, inr, List, [], ◌∷◌, ◌++◌, map, ok, Result-cases, ok-injective, length,
  Bool-cases, arith, ◌==◌, string_eq, pair_eq,
}
use planrace_subnet.Prelude.Dict.{values, insert}
use planrace_subnet.Prelude.Sort.{sort, sort-perm}
use planrace_subnet.Floats.{Floats, divide}
use planrace_subnet.Scoring.Observations.{EpochObservation}
use planrace_subnet.Scoring.Dedup.{
  Groups, GroupKey, Split, append_to, place, consistent, classify_all, share, share_group,
  share_groups, before, deduplicate_task_rewards, is_eligible, group_key, metadata,
}

module _ (F : Floats) where
  open F use {Float, of_ℕ}

  abbrev Obs : Type 0
  Obs = EpochObservation F

  -- An observation without what deduplication may change.
  abbrev pub blank : Obs → Obs
  blank o = record o { reward = of_ℕ 0; duplicate_group_size = 1 }

  abbrev grouped : Groups F → List Obs
  grouped g = flatten (values g)

  append_to-perm :
      (k : GroupKey) (o : Obs) (g : Groups F) → Perm (grouped (append_to F k o g)) (o ∷ grouped g)
  unfolding append_to flatten
  append_to-perm k o [] = Perm.rfl
  append_to-perm k o ((j, os) ∷ g) = elim (Bool-cases (j == k)) [
    | inl e ↦ rw (e, append_assoc) (perm_middle os (grouped g))
    | inr e ↦
        rw e (Perm.trans (Perm.append_left os (append_to-perm k o g)) (perm_middle os (grouped g)))
  ]

  abbrev contents : Split F → List Obs
  contents s = s.untouched ++ grouped s.groups

  place-perm : (o : Obs) (s : Split F) → Perm (contents (place F o s)) (o ∷ contents s)
  unfolding place
  place-perm o s = elim (Bool-cases (is_eligible F o)) [
    | inl e ↦ rw e (
        Perm.trans (Perm.append_left s.untouched (append_to-perm (group_key F o) o s.groups))
          (perm_middle s.untouched (grouped s.groups)))
    | inr e ↦ rw (e, append_assoc) (perm_middle s.untouched (grouped s.groups))
  ]

  classify_all-perm :
      (os : List Obs) (s : Split F) {s' : Split F}
      → classify_all F s os ≡ ok s'
      → Perm (contents s') (os ++ contents s)
  unfolding classify_all
  classify_all-perm [] s h = subst (λ t. Perm (contents t) (contents s)) (ok-injective h) Perm.rfl
  classify_all-perm (o ∷ os) s {s'} h = elim (Bool-cases (consistent F s o)) [
    | inr bad ↦ absurd (ground arith)
    | inl good ↦
        let s₁ = record s { task_metadata = insert o.task_id (metadata F o) s.task_metadata } in
        Perm.trans (classify_all-perm os (place F o s₁) {s' = s'} (ground arith))
          (Perm.trans (Perm.append_left os (place-perm o s₁)) (perm_middle os (contents s₁)))
  ]

  map-blank-share :
      (r : Float) (n : ℕ) (g : List Obs) → map blank (map (share F r n) g) ≡ map blank g
  map-blank-share r n [] = refl
  map-blank-share r n (o ∷ os) = ap (◌∷◌ (blank o)) (map-blank-share r n os)

  share_group-blank :
      (g : List Obs) {g' : List Obs} → share_group F g ≡ ok g' → map blank g' ≡ map blank g
  unfolding share_group
  share_group-blank [] h = ground arith
  share_group-blank (o ∷ os) {g'} h =
      elim (Result-cases (divide F o.reward (of_ℕ (length (o ∷ os))))) [
        | inr (e, bad) ↦ absurd (ground arith)
        | inl (r, good) ↦
            let eq : map (share F r (length (o ∷ os))) (o ∷ os) ≡ g' = ground arith in
            subst (λ t. map blank t ≡ map blank (o ∷ os)) eq
              (map-blank-share r (length (o ∷ os)) (o ∷ os))
      ]

  share_groups-blank :
      (gs : List (List Obs)) {out : List Obs}
      → share_groups F gs ≡ ok out
      → map blank out ≡ map blank (flatten gs)
  unfolding share_groups flatten
  share_groups-blank [] h = ground arith
  share_groups-blank (g ∷ gs) {out} h = elim (Result-cases (share_group F g)) [
    | inr (e, bad) ↦ absurd (ground arith)
    | inl (g', eg) ↦ elim (Result-cases (share_groups F gs)) [
      | inr (e, bad) ↦ absurd (ground arith)
      | inl (rest, er) ↦
          let eq : g' ++ rest ≡ out = ground arith in
          subst (λ t. map blank t ≡ map blank (g ++ flatten gs)) eq
            (rw (map-append, map-append, share_group-blank g eg, share_groups-blank gs er))
    ]
  ]

  abbrev start : Split F
  start = record { task_metadata = []; groups = []; untouched = [] }

  classify_from_start :
      (os : List Obs) (s : Split F) → classify_all F start os ≡ ok s → Perm (contents s) os
  unfolding flatten
  classify_from_start os s h =
      subst (Perm (contents s)) (append-nil os) (classify_all-perm os start h)

  blank-contents :
      (s : Split F) (shared : List Obs)
      → share_groups F (values s.groups) ≡ ok shared
      → map blank (contents s) ≡ map blank (s.untouched ++ shared)
  blank-contents s shared h = rw (map-append, map-append, share_groups-blank (values s.groups) h)

  -- Whenever deduplication succeeds, its result is a rearrangement of its input, but for the
  -- rewards and the group sizes: no observation is lost, repeated or altered otherwise.
  pub deduplicate-perm :
      (os out : List Obs)
      → deduplicate_task_rewards F os ≡ ok out
      → Perm (map blank out) (map blank os)
  unfolding deduplicate_task_rewards
  deduplicate-perm os out h = elim (Result-cases (classify_all F start os)) [
    | inr (e, bad) ↦ absurd (ground arith)
    | inl (s, es) ↦ elim (Result-cases (share_groups F (values s.groups))) [
      | inr (e, bad) ↦ absurd (ground arith)
      | inl (shared, eg) ↦
          let eq : sort (before F) (s.untouched ++ shared) ≡ out = ground arith in
          subst (λ t. Perm (map blank t) (map blank os)) eq
            (Perm.trans (Perm.map blank (sort-perm (before F) (s.untouched ++ shared))) (
              subst (λ t. Perm t (map blank os)) (blank-contents s shared eg)
                (Perm.map blank (classify_from_start os s es))))
    ]
  ]
