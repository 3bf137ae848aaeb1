-- ===== src/Scoring/Dedup/Accepts.antt =====
-- When the deduplication raises nothing.
use planrace_subnet.Prelude.{
  ℕ, suc, ◌≡◌, ◌⊎◌, refl, sym, ap, ◌∙◌, inl, inr, String, Bool, true, false, ◌&&◌, none, some, List,
  [], ◌∷◌, ◌++◌, map, ok, length, all, filter, mem, distinct, All, All-filter, ◌==◌, nat_eq,
  string_eq, pair_eq, arith,
}
use planrace_subnet.Prelude.Dict.{lookup, insert, values, lookup-insert}
use planrace_subnet.Prelude.Sort.{sort}
use planrace_subnet.Floats.{Floats, divide, fmax, fmin}
use planrace_subnet.Scoring.Dedup.{
  Metadata, GroupKey, Groups, metadata, group_key, is_eligible, Split, consistent, place, classify,
  classify_all, best, share, share_group, share_groups, before, deduplicate_task_rewards,
}
use planrace_subnet.Scoring.Dedup.Groups.{Obs, members, IsEntry, classify_all-IsGrouping}
use planrace_subnet.Scoring.Dedup.Shares.{members_key}

-- A filter keeps the distinctness of names.
module _ {A : Type 0} (name : A → String) (p : A → Bool) where
  mem-names-filter :
      (s : String) (xs : List A)
      → mem s (map name xs) ≡ false
      → mem s (map name (filter p xs)) ≡ false
  mem-names-filter s [] h = refl
  mem-names-filter s (x ∷ xs) h = ground (arith, mem-names-filter s xs)

  distinct-names-filter :
      (xs : List A) → distinct (map name xs) ≡ true → distinct (map name (filter p xs)) ≡ true
  distinct-names-filter [] h = refl
  distinct-names-filter (x ∷ xs) h =
      ground (arith, distinct-names-filter xs, mem-names-filter (name x) xs)

module _ (F : Floats) where
  open F use {Float, of_ℕ, decimal, sub, quotient, lt, eq}

  -- The observation is of the given task and metadata.
  abbrev pub IsOfTask : String → Metadata → Obs F → Type 0
  IsOfTask t m o = (o.task_id ≡ t) × (metadata F o ≡ m)

  -- Its strategy alone determines its evidence and its reward.
  abbrev pub IsTabled : (String → String × Float) → Obs F → Type 0
  IsTabled table o =
      (o.evidence_digest ≡ (table o.strategy_digest).0) × (o.reward ≡ (table o.strategy_digest).1)

  abbrev Agrees : String → Metadata → Split F → Type 0
  Agrees t m s = (lookup t s.task_metadata ≡ none) ⊎ (lookup t s.task_metadata ≡ some m)

  consistent_of :
      (t : String) (m : Metadata) (s : Split F) (o : Obs F)
      → Agrees t m s
      → IsOfTask t m o
      → consistent F s o ≡ true
  unfolding consistent
  consistent_of t m s o (inl e) (et, em) =
      rw (ap (λ k. lookup k s.task_metadata) et ∙ e, consistent) refl
  consistent_of t m s o (inr e) (et, em) =
      rw (ap (λ k. lookup k s.task_metadata) et ∙ e, consistent)
        ((pair_eq.beq_iff m (metadata F o)).1 (sym em))

  placed-metadata : (o : Obs F) (s : Split F) → (place F o s).task_metadata ≡ s.task_metadata
  unfolding place
  placed-metadata o s = ground arith

  placed-Agrees :
      (t : String) (m : Metadata) (s : Split F) (o : Obs F)
      → IsOfTask t m o
      → Agrees t m
          (place F o (record s { task_metadata = insert o.task_id (metadata F o) s.task_metadata }))
  placed-Agrees t m s o (et, em) =
      let s₁ = record s { task_metadata = insert o.task_id (metadata F o) s.task_metadata } in
      let found : lookup t (insert o.task_id (metadata F o) s.task_metadata) ≡ some (metadata F o) =
        lookup-insert o.task_id t (metadata F o) s.task_metadata
        ∙ rw ((string_eq.beq_iff o.task_id t).1 et) refl in
      inr (ap (lookup t) (placed-metadata o s₁) ∙ (found ∙ ap some em))

  -- Observations of one task are all placed.
  classify_all-accepts :
      (t : String) (m : Metadata) (os : List (Obs F)) (s : Split F)
      → Agrees t m s
      → All (IsOfTask t m) os
      → (s' : Split F) × (classify_all F s os ≡ ok s')
  unfolding classify_all
  classify_all-accepts t m [] s a h = (s, refl)
  classify_all-accepts t m (o ∷ os) s a (ho, hs) =
      let s₁ = record s { task_metadata = insert o.task_id (metadata F o) s.task_metadata } in
      let (s', e) = classify_all-accepts t m os (place F o s₁) (placed-Agrees t m s o ho) hs in
      (s', rw (consistent_of t m s o a ho, classify) e)

  -- The greatest and the least of equal rewards.
  best-same :
      (f : Float → Float → Float) (x : Float) (os : List (Obs F))
      → f x x ≡ x
      → All (λ o. o.reward ≡ x) os
      → best F f x os ≡ x
  unfolding best
  best-same f x [] same h = refl
  best-same f x (o ∷ os) same (ho, hs) = rw (ho, same) (best-same f x os same hs)

  fmax-same : (x : Float) → fmax F x x ≡ x
  unfolding fmax
  fmax-same x = ground arith

  fmin-same : (x : Float) → fmin F x x ≡ x
  unfolding fmin
  fmin-same x = ground arith

  all_evidence :
      (e : String) (r : Float) (os : List (Obs F))
      → All (λ o. (o.evidence_digest ≡ e) × (o.reward ≡ r)) os
      → (all (λ m. m.evidence_digest == e) os ≡ true) × All (λ o. o.reward ≡ r) os
  all_evidence e r [] h = (refl, tt)
  all_evidence e r (o ∷ os) (ho, hs) =
      let (evidence, rewards) = all_evidence e r os hs in
      (ground (arith, (string_eq.beq_iff o.evidence_digest e).1 ho.0), (ho.1, rewards))

  module _ (equal : (x : Float) → lt (decimal 1 9) (sub x x) ≡ false)
      (positive : (n : ℕ) → eq (of_ℕ (suc n)) (of_ℕ 0) ≡ false) where
    share_group-accepts :
        (e : String) (r : Float) (os : List (Obs F))
        → All (λ o. (o.evidence_digest ≡ e) × (o.reward ≡ r)) os
        → distinct (map (λ o. o.miner_id) os) ≡ true
        → (out : List (Obs F)) × (share_group F os ≡ ok out)
    unfolding share_group divide
    share_group-accepts e r [] h d = ([], refl)
    share_group-accepts e r (o ∷ os) (ho, hs) d =
        let (evidence, rewards) = all_evidence e r os hs in
        let high : best F (fmax F) o.reward os ≡ o.reward =
          rw ho.1 (best-same (fmax F) r os (fmax-same r) rewards) in
        let low : best F (fmin F) o.reward os ≡ o.reward =
          rw ho.1 (best-same (fmin F) r os (fmin-same r) rewards) in
        let same : all (λ m. m.evidence_digest == o.evidence_digest) os ≡ true = rw ho.0 evidence in
        let spread = equal o.reward in
        let whole = positive (length os) in
        let shared = quotient o.reward (of_ℕ (length (o ∷ os))) in
        (
          map (share F shared (length (o ∷ os))) (o ∷ os),
          rw (d, high, low, same, spread, whole) refl,
        )

    module _ (table : String → String × Float) (os : List (Obs F))
        (tabled : All (IsTabled table) os)
        (names : distinct (map (λ o. o.miner_id) os) ≡ true) where
      members_tabled :
          (k : GroupKey)
          → All
              (λ o. (o.evidence_digest ≡ (table k.1).0) × (o.reward ≡ (table k.1).1))
              (members F k os)
      members_tabled k =
          both (members F k os)
            (unfold members in
              All-filter (IsTabled table) (λ o. is_eligible F o && group_key F o == k) os tabled)
            (members_key F k os)
        where
          both :
              (xs : List (Obs F))
              → All (IsTabled table) xs
              → All (λ o. group_key F o ≡ k) xs
              → All (λ o. (o.evidence_digest ≡ (table k.1).0) × (o.reward ≡ (table k.1).1)) xs
          both [] h g = tt
          both (x ∷ xs) (hx, hs) (gx, gs) =
              let at : x.strategy_digest ≡ k.1 = ap (λ q. q.1) gx in (rw at at hx, both xs hs gs)

      members-names : (k : GroupKey) → distinct (map (λ o. o.miner_id) (members F k os)) ≡ true
      unfolding members
      members-names k =
          distinct-names-filter (λ o. o.miner_id) (λ o. is_eligible F o && group_key F o == k) os
            names

      share_groups-accepts :
          (g : Groups F)
          → All (IsEntry F os) g
          → (out : List (Obs F)) × (share_groups F (values g) ≡ ok out)
      unfolding share_groups
      share_groups-accepts [] h = ([], refl)
      share_groups-accepts ((k, m) ∷ g) (hm, hg) =
          let (shared, e) =
            share_group-accepts (table k.1).0 (table k.1).1 m (rw hm (members_tabled k))
              (rw hm (members-names k)) in
          let (rest, es) = share_groups-accepts g hg in (shared ++ rest, rw (e, es) refl)

      pub deduplicate-accepts :
          (t : String) (m : Metadata)
          → All (IsOfTask t m) os
          → (out : List (Obs F)) × (deduplicate_task_rewards F os ≡ ok out)
      unfolding deduplicate_task_rewards
      deduplicate-accepts t m one =
          let start : Split F = record { task_metadata = []; groups = []; untouched = [] } in
          let (s, e) = classify_all-accepts t m os start (inl refl) one in
          let grouping =
            classify_all-IsGrouping F os [] start
              (record { entries = tt; unique = refl; complete = λ k _. (unfold members in refl) })
              e in
          let (shared, es) = share_groups-accepts s.groups grouping.entries in
          (sort (before F) (s.untouched ++ shared), rw (e, es) refl)
