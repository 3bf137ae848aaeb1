-- ===== src/Scoring/Plan/Bound.antt =====
-- What an emission plan promises: who is weighted, and by how much at most.
use mathlib.Core.Path.{subst}
use planrace_subnet.Prelude.{
  ℕ, ◌≤◌, ◌≡◌, refl, sym, ap, ◌∙◌, inl, inr, String, true, ◌||◌, List, [], ◌∷◌, ◌++◌, map, ok,
  Result-cases, Bool-cases, arith, length, filter, mem, string_eq, nat_eq, ◌==◌, All, All-append,
}
use planrace_subnet.Prelude.Dict.{Dict, keys, values, append_group}
use planrace_subnet.Prelude.Sort.{sort, insert_sorted, All-sort}
use planrace_subnet.Floats.{Floats}
use planrace_subnet.Digest.Payload.{text_le}
use planrace_subnet.Scoring.Observations.{AggregationPolicy}
use planrace_subnet.Scoring.Allocate.{lift_error, Weights, capped_normalize, concentration_metrics}
use planrace_subnet.Scoring.Allocate.Rounds.{IsCapped}
use planrace_subnet.Scoring.Allocate.Bound.{capped_normalize_bound}
use planrace_subnet.Scoring.Plan.Masses.{Earns, IsEarning, raw_groups-IsPositive, keys-raw_groups}
use planrace_subnet.Scoring.Plan.{
  Aggregate, Groups, AllocationResult, unplanned, earns, group_by_behavior, raw_groups, normalize,
  by_key, plan, capped_plan, allocate_weights,
}

mem-insert_sorted :
    {V : Type 0} (k : String) (x : String × V) (d : Dict String V)
    → mem k (keys (insert_sorted (λ a b. text_le a.0 b.0) x d)) ≡ mem k (keys (x ∷ d))
unfolding insert_sorted
mem-insert_sorted k x [] = refl
mem-insert_sorted k x (y ∷ d) = ground (arith, mem-insert_sorted k x d)

mem-sort_by_key :
    {V : Type 0} (k : String) (d : Dict String V)
    → mem k (keys (sort (λ a b. text_le a.0 b.0) d)) ≡ mem k (keys d)
unfolding sort
mem-sort_by_key k [] = refl
mem-sort_by_key k (x ∷ d) =
    mem-insert_sorted k x (sort (λ a b. text_le a.0 b.0) d)
    ∙ ap (λ b. k == x.0 || b) (mem-sort_by_key k d)

All-values {ℓ} :
    {V : Type 0} (P : V → Type ℓ) (d : Dict String V) → All P (values d) → All (λ e. P e.1) d
All-values P [] h = tt
All-values P (x ∷ d) h = (h.0, All-values P d h.1)

module _ (F : Floats) (sha256 : List ℕ → String) where
  open F use {Float, of_ℕ, add, lt, le, le_of_lt, le_of_ℕ, add_pos}

  snoc-IsEarning :
      (as' : List (Aggregate F sha256)) (a : Aggregate F sha256)
      → IsEarning F sha256 as'
      → Earns F sha256 a
      → IsEarning F sha256 (as' ++ a ∷ [])
  snoc-IsEarning [] a h ha = elim h [ ]
  snoc-IsEarning (b ∷ bs) a h ha = (h.0, All-append (Earns F sha256) bs (a ∷ []) h.1 (ha, tt))

  append_group-IsEarning :
      (k : String) (a : Aggregate F sha256) (g : Groups F sha256)
      → Earns F sha256 a
      → All (IsEarning F sha256) (values g)
      → All (IsEarning F sha256) (values (append_group k a g))
  append_group-IsEarning k a [] ha h = ((ha, tt), tt)
  append_group-IsEarning k a ((j, as') ∷ g) ha h = elim (Bool-cases (j == k)) [
    | inl same ↦ rw same (snoc-IsEarning as' a h.0 ha, h.1)
    | inr other ↦ rw other (h.0, append_group-IsEarning k a g ha h.1)
  ]

  mem-append_group :
      (i k : String) (a : Aggregate F sha256) (g : Groups F sha256)
      → mem i (keys (append_group k a g)) ≡ (i == k || mem i (keys g))
  mem-append_group i k a [] = refl
  mem-append_group i k a ((j, as') ∷ g) = ground (
    arith,
    mem-append_group i k a g,
    string_eq.beq_iff j k,
    string_eq.beq_iff i k,
    string_eq.beq_iff i j,
  )

  abbrev behaviors : List (Aggregate F sha256) → List String
  behaviors as' = map (λ a. a.behavior_digest) (filter (earns F sha256) as')

  -- The groups of the aggregates that earn.
  abbrev grouped : List (Aggregate F sha256) → Groups F sha256
  grouped as' = group_by_behavior F sha256 [] (filter (earns F sha256) as')

  group-IsEarning :
      (g : Groups F sha256) (as' : List (Aggregate F sha256))
      → All (IsEarning F sha256) (values g)
      → All
          (IsEarning F sha256)
          (values (group_by_behavior F sha256 g (filter (earns F sha256) as')))
  unfolding group_by_behavior
  group-IsEarning g [] h = h
  group-IsEarning g (a ∷ as') h = elim (Bool-cases (earns F sha256 a)) [
    | inl e ↦ rw e (
        group-IsEarning (append_group a.behavior_digest a g) as'
          (append_group-IsEarning a.behavior_digest a g (ground arith) h))
    | inr e ↦ rw e (group-IsEarning g as' h)
  ]

  mem-group :
      (i : String) (g : Groups F sha256) (as' : List (Aggregate F sha256))
      → mem i (keys (group_by_behavior F sha256 g as'))
        ≡ (mem i (keys g) || mem i (map (λ a. a.behavior_digest) as'))
  unfolding group_by_behavior
  mem-group i g [] = ground arith
  mem-group i g (a ∷ as') = ground (
    arith,
    mem-group i (append_group a.behavior_digest a g) as',
    mem-append_group i a.behavior_digest a g,
  )

  -- The weights of the behaviors in a plan.
  pub record IsPlan (p : AggregationPolicy F) (as' : List (Aggregate F sha256))
      (r : AllocationResult F sha256) : Type 0 where
    pub diverse : p.minimum_distinct_strategies ≤ length (grouped as')
    pub recipients : (k : String) → mem k (keys r.strategy_weights) ≡ mem k (behaviors as')
    pub bounded : All (λ e. IsCapped F p.maximum_weight e.1) r.strategy_weights

  planned-IsPlan :
      (p : AggregationPolicy F) (as' : List (Aggregate F sha256)) (w : Weights F)
      (r : AllocationResult F sha256)
      → p.minimum_distinct_strategies ≤ length (grouped as')
      → capped_normalize F p.maximum_weight (raw_groups F sha256 (grouped as')) ≡ ok w
      → r.strategy_weights ≡ by_key F sha256 w
      → IsPlan p as' r
  unfolding by_key
  planned-IsPlan p as' w r h hw e =
      let final =
        capped_normalize_bound F p.maximum_weight (raw_groups F sha256 (grouped as')) w
          (raw_groups-IsPositive F sha256 (grouped as') (group-IsEarning [] as' tt)) hw in
      record {
        diverse = h;
        recipients = λ k.
            ap (λ d. mem k (keys d)) e
            ∙ mem-sort_by_key k w
            ∙ final.recipients k
            ∙ ap (λ ks. mem k ks) (keys-raw_groups F sha256 (grouped as'))
            ∙ mem-group k [] (filter (earns F sha256) as');
        bounded = subst (All (λ e. IsCapped F p.maximum_weight e.1)) (sym e) (
            All-sort (λ x y. text_le x.0 y.0) (λ e. IsCapped F p.maximum_weight e.1) w
              (All-values (IsCapped F p.maximum_weight) w final.bounded));
      }

  plan_weights :
      (g : Groups F sha256) (w : Weights F) (r : AllocationResult F sha256)
      → plan F sha256 g w ≡ ok r
      → r.strategy_weights ≡ by_key F sha256 w
  unfolding plan
  plan_weights g w r h = elim (Result-cases (lift_error (normalize F sha256 w [] g))) [
    | inr (x, bad) ↦ absurd (ground arith)
    | inl (n, en) ↦ elim (Result-cases (concentration_metrics F (values (by_key F sha256 w)))) [
      | inr (x, bad) ↦ absurd (ground arith)
      | inl (c, ec) ↦ ground arith
    ]
  ]

  -- An emission plan that is made names as strategies exactly the behaviors of the aggregates that
  -- earn, at least as many as the policy's minimum of distinct strategies, and gives none of them
  -- more than the policy's maximum weight, up to the tolerances of the capping.
  pub allocate_weights-IsPlan :
      (p : AggregationPolicy F) (as' : List (Aggregate F sha256)) (r : AllocationResult F sha256)
      → allocate_weights F sha256 p as' ≡ ok r
      → r.planned ≡ true
      → IsPlan p as' r
  unfolding allocate_weights unplanned capped_plan
  allocate_weights-IsPlan p as' r h planned =
      elim (Result-cases
        (capped_normalize F p.maximum_weight (raw_groups F sha256 (grouped as')))) [
          | inl (w, ew) ↦
              planned-IsPlan p as' w r (ground arith) ew
                (plan_weights (grouped as') w r (ground arith))
          | inr (x, ex) ↦ absurd (ground arith)
        ]
