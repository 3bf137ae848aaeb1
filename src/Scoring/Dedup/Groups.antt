-- ===== src/Scoring/Dedup/Groups.antt =====
-- The groups that deduplication collects: one entry for each task commitment and strategy, holding
-- the eligible observations of that key in order.
use mathlib.Core.Path.{subst}
use mathlib.Core.List.{append-nil, append_assoc}
use planrace_subnet.Prelude.{
  ◌≡◌, refl, sym, ap, ◌∙◌, inl, inr, true, false, ◌&&◌, ◌||◌, List, [], ◌∷◌, ◌++◌, ok, ok-injective,
  Bool-cases, arith, ◌==◌, string_eq, pair_eq, if◌then◌else◌, filter, All, mem, distinct, beq_refl,
  beq_comm,
}
use planrace_subnet.Prelude.Dict.{insert, keys}
use planrace_subnet.Floats.{Floats}
use planrace_subnet.Scoring.Observations.{EpochObservation}
use planrace_subnet.Scoring.Dedup.{
  Groups, GroupKey, Split, append_to, place, consistent, classify_all, is_eligible, group_key,
  metadata,
}

pub same_key : (a b : GroupKey) → (a == b) ≡ true → a ≡ b
same_key a b h = (pair_eq.beq_iff a b).0 h

module _ (F : Floats) where
  open F use {Float, of_ℕ}

  abbrev pub Obs : Type 0
  Obs = EpochObservation F

  -- The eligible observations of one task commitment and strategy.
  unfoldable pub members : GroupKey → List Obs → List Obs
  members k = filter (λ o. is_eligible F o && group_key F o == k)

  members-snoc :
      (k : GroupKey) (seen : List Obs) (o : Obs)
      → members k (seen ++ o ∷ [])
        ≡ members k seen ++ (if is_eligible F o && group_key F o == k then o ∷ [] else [])
  unfolding members
  members-snoc k [] o = ground arith
  members-snoc k (x ∷ xs) o = ground (arith, members-snoc k xs o)

  abbrev pub IsEntry : List Obs → GroupKey × List Obs → Type 0
  IsEntry seen (k, os) = os ≡ members k seen

  pub record IsGrouping (seen : List Obs) (g : Groups F) : Type 0 where
    pub entries : All (IsEntry seen) g
    pub unique : distinct (keys g) ≡ true
    pub complete : (k : GroupKey) → mem k (keys g) ≡ false → members k seen ≡ []

  members_same :
      (k : GroupKey) (seen : List Obs) (o : Obs)
      → is_eligible F o ≡ true
      → (group_key F o == k) ≡ true
      → members k (seen ++ o ∷ []) ≡ members k seen ++ o ∷ []
  members_same k seen o el e = rw (members-snoc k seen o, el, e)

  members_other :
      (k : GroupKey) (seen : List Obs) (o : Obs)
      → (is_eligible F o && group_key F o == k) ≡ false
      → members k (seen ++ o ∷ []) ≡ members k seen
  members_other k seen o e = rw (members-snoc k seen o, e) (append-nil (members k seen))

  entries_other :
      (seen : List Obs) (o : Obs) (g : Groups F)
      → (is_eligible F o && mem (group_key F o) (keys g)) ≡ false
      → All (IsEntry seen) g
      → All (IsEntry (seen ++ o ∷ [])) g
  entries_other seen o [] h es = tt
  entries_other seen o ((j, os) ∷ g) h es = (
    es.0 ∙ sym (members_other j seen o (ground arith)),
    entries_other seen o g (ground arith) es.1,
  )

  entries_append :
      (seen : List Obs) (o : Obs) (g : Groups F)
      → is_eligible F o ≡ true
      → distinct (keys g) ≡ true
      → (mem (group_key F o) (keys g) ≡ false → members (group_key F o) seen ≡ [])
      → All (IsEntry seen) g
      → All (IsEntry (seen ++ o ∷ [])) (append_to F (group_key F o) o g)
  unfolding append_to
  entries_append seen o [] el u c es = (
    sym (
        members_same (group_key F o) seen o el (beq_refl (group_key F o))
        ∙ ap (λ l. l ++ o ∷ []) (c refl)),
    tt,
  )
  entries_append seen o ((j, os) ∷ g) el u c es = elim (Bool-cases (j == group_key F o)) [
    | inl e ↦
        let same : j ≡ group_key F o = same_key j (group_key F o) e in
        rw e (
          ap (λ l. l ++ o ∷ []) es.0
              ∙ sym (members_same j seen o el (beq_comm (group_key F o) j ∙ e)),
          entries_other seen o g (rw (← same) (ground arith)) es.1,
        )
    | inr e ↦ rw e (
      es.0 ∙ sym (members_other j seen o (rw (beq_comm (group_key F o) j, e) (ground arith))),
      entries_append seen o g (el) (ground arith) (λ h. c (rw (beq_comm (group_key F o) j, e) h))
          es.1,
    )
  ]

  keys_append :
      (k j : GroupKey) (o : Obs) (g : Groups F)
      → mem j (keys (append_to F k o g)) ≡ (j == k || mem j (keys g))
  unfolding append_to
  keys_append k j o [] = refl
  keys_append k j o ((i, os) ∷ g) = elim (Bool-cases (i == k)) [
    | inl e ↦ rw e (rw (same_key i k e) (ground arith))
    | inr e ↦ rw e (ground (arith, keys_append k j o g))
  ]

  distinct_append :
      (k : GroupKey) (o : Obs) (g : Groups F)
      → distinct (keys g) ≡ true
      → distinct (keys (append_to F k o g)) ≡ true
  unfolding append_to
  distinct_append k o [] u = refl
  distinct_append k o ((i, os) ∷ g) u = elim (Bool-cases (i == k)) [
    | inl e ↦ rw e u
    | inr e ↦ rw (e, keys_append k i o g, e) (ground (arith, distinct_append k o g))
  ]

  place-IsGrouping :
      (seen : List Obs) (o : Obs) (s : Split F)
      → IsGrouping seen s.groups
      → IsGrouping (seen ++ o ∷ []) (place F o s).groups
  unfolding place
  place-IsGrouping seen o s h = elim (Bool-cases (is_eligible F o)) [
    | inl el ↦ rw el (record {
      entries = entries_append seen o s.groups el h.unique (h.complete (group_key F o)) h.entries;
      unique = distinct_append (group_key F o) o s.groups h.unique;
      complete = λ k new.
          members_other k seen o
            (ground (arith, keys_append (group_key F o) k o s.groups, beq_comm k (group_key F o)))
          ∙ h.complete k (ground (arith, keys_append (group_key F o) k o s.groups));
    })
    | inr out ↦ rw out (record {
      entries = entries_other seen o s.groups (rw out) h.entries;
      unique = h.unique;
      complete = λ k new. members_other k seen o (rw out) ∙ h.complete k new;
    })
  ]

  pub classify_all-IsGrouping :
      (os seen : List Obs) (s : Split F) {s' : Split F}
      → IsGrouping seen s.groups
      → classify_all F s os ≡ ok s'
      → IsGrouping (seen ++ os) s'.groups
  unfolding classify_all
  classify_all-IsGrouping [] seen s {s'} h e =
      subst (λ t. IsGrouping (seen ++ []) t.groups) {y = s'} (ok-injective e) (rw append-nil h)
  classify_all-IsGrouping (o ∷ os) seen s {s'} h e = elim (Bool-cases (consistent F s o)) [
    | inr bad ↦ absurd (ground arith)
    | inl good ↦
        let s₁ = record s { task_metadata = insert o.task_id (metadata F o) s.task_metadata } in
        subst (λ l. IsGrouping l s'.groups) (append_assoc seen (o ∷ []) os)
          (classify_all-IsGrouping os (seen ++ o ∷ []) (place F o s₁) {s' = s'}
            (place-IsGrouping seen o s₁ h) (ground arith))
  ]
