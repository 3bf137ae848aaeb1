-- ===== src/Scoring/Dedup/Shares.antt =====
-- The reward that deduplication gives to the members of a group.
use mathlib.Core.Path.{subst}
use mathlib.Core.Bool.{false≢true}
use planrace_subnet.Prelude.{
  ◌≡◌, refl, sym, ap, ◌∙◌, inl, inr, true, false, ◌&&◌, List, [], ◌∷◌, ◌++◌, map, ok, Result-cases,
  ok-injective, length, Bool-cases, arith, ◌==◌, string_eq, pair_eq, filter, All, All-append,
}
use planrace_subnet.Prelude.Dict.{values, insert}
use planrace_subnet.Prelude.Sort.{sort, All-sort}
use planrace_subnet.Floats.{Floats, divide}
use planrace_subnet.Scoring.Dedup.{
  Groups, GroupKey, Split, place, consistent, classify_all, share, share_group, share_groups,
  before, deduplicate_task_rewards, is_eligible, group_key, metadata,
}
use planrace_subnet.Scoring.Dedup.Groups.{same_key, Obs, members, IsEntry, classify_all-IsGrouping}

module _ (F : Floats) where
  open F use {Float, of_ℕ}

  -- The share of an eligible observation in a list of observations.
  pub record IsShare (os : List (Obs F)) (o : Obs F) : Type 0 where
    pub size : o.duplicate_group_size ≡ length (members F (group_key F o) os)
    pub reward :
        (first : Obs F) × (rest : List (Obs F)) × (members F (group_key F o) os ≡ first ∷ rest)
        × (divide F first.reward (of_ℕ (length (first ∷ rest))) ≡ ok o.reward)

  abbrev start : Split F
  start = record { task_metadata = []; groups = []; untouched = [] }

  abbrev IsShared : List (Obs F) → Obs F → Type 0
  IsShared os o = is_eligible F o ≡ true → IsShare os o

  pub members_key :
      (k : GroupKey) (os : List (Obs F)) → All (λ o. group_key F o ≡ k) (members F k os)
  unfolding members
  members_key k [] = tt
  members_key k (o ∷ os) = elim (Bool-cases (is_eligible F o && group_key F o == k)) [
    | inl e ↦ rw e (same_key (group_key F o) k (ground arith), members_key k os)
    | inr e ↦ rw e (members_key k os)
  ]

  -- Every member of a group gets the group's share.
  share_members :
      (os : List (Obs F)) (k : GroupKey) (first : Obs F) (rest : List (Obs F)) (r : Float)
      → members F k os ≡ first ∷ rest
      → divide F first.reward (of_ℕ (length (first ∷ rest))) ≡ ok r
      → (ms : List (Obs F)) → All (λ o. group_key F o ≡ k) ms
      → All (IsShared os) (map (share F r (length (first ∷ rest))) ms)
  share_members os k first rest r eq share_eq [] h = tt
  share_members os k first rest r eq share_eq (m ∷ ms) h =
      let group : members F (group_key F m) os ≡ first ∷ rest = ap (λ j. members F j os) h.0 ∙ eq in
      (
        λ _. record { size = ap length (sym group); reward = (first, rest, group, share_eq) },
        share_members os k first rest r eq share_eq ms h.1,
      )

  share_group-IsShared :
      (os : List (Obs F)) (k : GroupKey) (g : List (Obs F)) {g' : List (Obs F)}
      → g ≡ members F k os
      → share_group F g ≡ ok g'
      → All (IsShared os) g'
  unfolding share_group
  share_group-IsShared os k [] e h = subst (All (IsShared os)) (ok-injective h) tt
  share_group-IsShared os k (o ∷ rest) {g'} e h =
      elim (Result-cases (divide F o.reward (of_ℕ (length (o ∷ rest))))) [
        | inr (x, bad) ↦ absurd (ground arith)
        | inl (r, good) ↦
            let eq : map (share F r (length (o ∷ rest))) (o ∷ rest) ≡ g' = ground arith in
            subst (All (IsShared os)) eq (
              share_members os k o rest r (sym e) good (o ∷ rest)
                (subst (All (λ m. group_key F m ≡ k)) (sym e) (members_key k os)))
      ]

  share_groups-IsShared :
      (os : List (Obs F)) (g : Groups F) {out : List (Obs F)}
      → All (IsEntry F os) g
      → share_groups F (values g) ≡ ok out
      → All (IsShared os) out
  unfolding share_groups
  share_groups-IsShared os [] es h = subst (All (IsShared os)) (ok-injective h) tt
  share_groups-IsShared os ((k, m) ∷ g) {out} es h = elim (Result-cases (share_group F m)) [
    | inr (x, bad) ↦ absurd (ground arith)
    | inl (m', em) ↦ elim (Result-cases (share_groups F (values g))) [
      | inr (x, bad) ↦ absurd (ground arith)
      | inl (rest, er) ↦
          let eq : m' ++ rest ≡ out = ground arith in
          subst (All (IsShared os)) eq (
            All-append (IsShared os) m' rest (share_group-IsShared os k m es.0 em)
              (share_groups-IsShared os g es.1 er))
    ]
  ]

  abbrev IsUntouched : Obs F → Type 0
  IsUntouched o = is_eligible F o ≡ false

  place-untouched :
      (o : Obs F) (s : Split F)
      → All IsUntouched s.untouched
      → All IsUntouched (place F o s).untouched
  unfolding place
  place-untouched o s h = elim (Bool-cases (is_eligible F o)) [
    | inl e ↦ rw e h
    | inr e ↦ rw e (All-append IsUntouched s.untouched (o ∷ []) h (e, tt))
  ]

  classify_all-untouched :
      (os : List (Obs F)) (s : Split F) {s' : Split F}
      → All IsUntouched s.untouched
      → classify_all F s os ≡ ok s'
      → All IsUntouched s'.untouched
  unfolding classify_all
  classify_all-untouched [] s {s'} h e =
      subst (λ t. All IsUntouched t.untouched) {y = s'} (ok-injective e) h
  classify_all-untouched (o ∷ os) s {s'} h e = elim (Bool-cases (consistent F s o)) [
    | inr bad ↦ absurd (ground arith)
    | inl good ↦
        let s₁ = record s { task_metadata = insert o.task_id (metadata F o) s.task_metadata } in
        classify_all-untouched os (place F o s₁) {s' = s'} (place-untouched o s₁ h) (ground arith)
  ]

  All-IsShared_untouched : (os xs : List (Obs F)) → All IsUntouched xs → All (IsShared os) xs
  All-IsShared_untouched os [] h = tt
  All-IsShared_untouched os (x ∷ xs) h =
      (λ el. absurd (false≢true (sym h.0 ∙ el)), All-IsShared_untouched os xs h.1)

  deduplicate-IsShared :
      (os out : List (Obs F)) → deduplicate_task_rewards F os ≡ ok out → All (IsShared os) out
  unfolding deduplicate_task_rewards
  deduplicate-IsShared os out h = elim (Result-cases (classify_all F start os)) [
    | inr (e, bad) ↦ absurd (ground arith)
    | inl (s, es) ↦ elim (Result-cases (share_groups F (values s.groups))) [
      | inr (e, bad) ↦ absurd (ground arith)
      | inl (shared, eg) ↦
          let eq : sort (before F) (s.untouched ++ shared) ≡ out = ground arith in
          subst (All (IsShared os)) eq (
            All-sort (before F) (IsShared os) (s.untouched ++ shared) (
              All-append (IsShared os) s.untouched shared
                (All-IsShared_untouched os s.untouched (classify_all-untouched os start tt es))
                (share_groups-IsShared os s.groups
                  (classify_all-IsGrouping F os [] start
                    (record {
                      entries = tt;
                      unique = refl;
                      complete = λ k _. (unfold members in refl);
                    })
                    es).entries
                  eg)))
    ]
  ]

  eligible-IsShare :
      (os xs : List (Obs F)) → All (IsShared os) xs → All (IsShare os) (filter (is_eligible F) xs)
  eligible-IsShare os [] h = tt
  eligible-IsShare os (x ∷ xs) h = elim (Bool-cases (is_eligible F x)) [
    | inl e ↦ rw e (h.0 e, eligible-IsShare os xs h.1)
    | inr e ↦ rw e (eligible-IsShare os xs h.1)
  ]

  -- Whenever deduplication succeeds, every eligible observation of its result carries as group size
  -- the number of eligible observations of its task commitment and strategy in the input, and as
  -- reward the reward of the first of them divided by that number.
  pub deduplicate_shares :
      (os out : List (Obs F))
      → deduplicate_task_rewards F os ≡ ok out
      → All (IsShare os) (filter (is_eligible F) out)
  deduplicate_shares os out h = eligible-IsShare os out (deduplicate-IsShared os out h)
