-- ===== src/Scoring/Allocate/Capped.antt =====
-- The end of the capping loop: the recipients that each round takes away.
use planrace_subnet.Prelude.{
  ℕ, zero, suc, ◌≤◌, ◌<◌, ◌≡◌, ◌≢◌, refl, sym, ap, ◌∙◌, inl, inr, String, Bool, true, ◌||◌, List,
  [], ◌∷◌, Result, ok, err, Result-cases, Bool-cases, arith, length, filter, mem, string_eq, ◌==◌,
  All, beq_refl,
}
use mathlib.Core.Path.{subst}
use planrace_subnet.Prelude.Dict.{Dict, keys, values}
use planrace_subnet.Prelude.DictLaws.{length-erase-le, length-erase}
use planrace_subnet.Prelude.Sort.{sort, insert_sorted}
use planrace_subnet.Digest.Payload.{text_le}
use planrace_subnet.Floats.{Floats, FloatError, or_raise, divide, overflow}
use planrace_subnet.Scoring.Allocate.{
  out_of_fuel, Weights, Loop, finished, continued, propose, over_cap, cap_one, cap_all,
  after_proposal, share_equally, share_by_proposal, round, capped_loop, settle, lift_error,
  capped_normalize,
}

mem-insert_sorted :
    (k a : String) (xs : List String) → mem k (insert_sorted text_le a xs) ≡ (k == a || mem k xs)
unfolding insert_sorted
mem-insert_sorted k a [] = refl
mem-insert_sorted k a (x ∷ xs) = elim (Bool-cases (text_le a x)) [
  | inl e ↦ rw e refl
  | inr e ↦ rw e (ground (arith, mem-insert_sorted k a xs))
]

length-insert_sorted :
    (a : String) (xs : List String) → length (insert_sorted text_le a xs) ≡ suc (length xs)
unfolding insert_sorted
length-insert_sorted a [] = refl
length-insert_sorted a (x ∷ xs) = ground (arith, length-insert_sorted a xs)

pub mem-sort : (k : String) (xs : List String) → mem k (sort text_le xs) ≡ mem k xs
unfolding sort
mem-sort k [] = refl
mem-sort k (x ∷ xs) =
    mem-insert_sorted k x (sort text_le xs) ∙ ap (λ b. k == x || b) (mem-sort k xs)

module _ (F : Floats) where
  open F use {Float, of_ℕ, lt, fsum}

  length-cap_all :
      (m : Float) (s : Loop F) (ks : List String)
      → length (cap_all F m s ks).remaining ≤ length s.remaining
  unfolding cap_all
  length-cap_all m s [] = omega arith
  length-cap_all m s (k ∷ ks) =
      unfold cap_one in
      omega (arith, length-cap_all m (cap_one F m s k) ks, length-erase-le k s.remaining)

  abbrev Within : Dict String Float → List String → Type 0
  Within d = All (λ k. mem k (keys d) ≡ true)

  cap_all_shrinks :
      (m : Float) (s : Loop F) (k : String) (ks : List String)
      → mem k (keys s.remaining) ≡ true
      → length (cap_all F m s (k ∷ ks)).remaining < length s.remaining
  unfolding cap_all
  cap_all_shrinks m s k ks h =
      unfold cap_one in
      omega (arith, length-cap_all m (cap_one F m s k) ks, length-erase k s.remaining h)

  pub keys-propose :
      (mass total : Float) (d p : Weights F) → propose F mass total d ≡ ok p → keys p ≡ keys d
  unfolding propose
  keys-propose mass total [] p h = ground arith
  keys-propose mass total ((k, v) ∷ d) p h = elim (Result-cases (divide F (F.mul mass v) total)) [
    | inr (e, bad) ↦ absurd (ground arith)
    | inl (x, ex) ↦ elim (Result-cases (propose F mass total d)) [
      | inr (e, bad) ↦ absurd (ground arith)
      | inl (rest, er) ↦
          let eq : (k, x) ∷ rest ≡ p = ground arith in
          subst (λ t. keys t ≡ k ∷ keys d) eq (ap (◌∷◌ k) (keys-propose mass total d rest er))
    ]
  ]

  mem-keys-filter :
      (test : String × Float → Bool) (k : String) (d : Weights F)
      → mem k (keys (filter test d)) ≡ true
      → mem k (keys d) ≡ true
  mem-keys-filter test k [] h = h
  mem-keys-filter test k ((j, v) ∷ d) h = ground (arith, mem-keys-filter test k d)

  pub mem-over_cap :
      (m : Float) (k : String) (d : Weights F)
      → mem k (over_cap F m d) ≡ true
      → mem k (keys d) ≡ true
  unfolding over_cap
  mem-over_cap m k d h = mem-keys-filter _ k d h

  sorted_shrinks :
      (m : Float) (s : Loop F) (ks : List String)
      → ((k : String) → mem k ks ≡ true → mem k (keys s.remaining) ≡ true)
      → ks ≢ []
      → length (cap_all F m s ks).remaining < length s.remaining
  sorted_shrinks m s [] h ne = absurd (ne refl)
  sorted_shrinks m s (k ∷ ks) h ne = cap_all_shrinks m s k ks (h k (rw (beq_refl k) refl))

  sort_cons_ne : (k : String) (ks : List String) → sort text_le (k ∷ ks) ≢ []
  unfolding sort
  sort_cons_ne k ks e =
      absurd (omega (arith, length-insert_sorted k (sort text_le ks), ap length e))

  after_proposal_shrinks :
      (m : Float) (s : Loop F) (p : Weights F) (ks : List String) (s' : Loop F)
      → ((k : String) → mem k ks ≡ true → mem k (keys s.remaining) ≡ true)
      → after_proposal F m s p ks ≡ continued s'
      → length s'.remaining < length s.remaining
  unfolding after_proposal
  after_proposal_shrinks m s p [] s' h e = cc
  after_proposal_shrinks m s p (k ∷ ks) s' h e =
      let eq : cap_all F m s (sort text_le (k ∷ ks)) ≡ s' = ground arith in
      subst (λ t. length t.remaining < length s.remaining) eq
        (sorted_shrinks m s (sort text_le (k ∷ ks)) (λ j mj. h j (sym (mem-sort j (k ∷ ks)) ∙ mj))
          (sort_cons_ne k ks))

  pub round_shrinks :
      (m : Float) (s s' : Loop F)
      → round F m s ≡ ok (continued s')
      → length s'.remaining < length s.remaining
  unfolding round share_equally share_by_proposal
  round_shrinks m s s' h = elim (Result-cases (or_raise F (fsum (values s.remaining)) overflow)) [
    | inr (e, bad) ↦ absurd (ground arith)
    | inl (total, et) ↦ elim (Result-cases (propose F s.remaining_mass total s.remaining)) [
      | inr (e, bad) ↦ absurd (ground arith)
      | inl (p, ep) ↦
          after_proposal_shrinks m s p (over_cap F m p) s'
            (λ k mk.
              ap (λ ks. mem k ks) (sym (keys-propose s.remaining_mass total s.remaining p ep))
              ∙ mem-over_cap m k p mk)
            (ground arith)
    ]
  ]

  pub capped_loop_ends :
      (fuel : ℕ) (m : Float) (s : Loop F)
      → length s.remaining < fuel
      → capped_loop F fuel m s ≢ err out_of_fuel
  unfolding capped_loop
  capped_loop_ends zero m s h = elim h [ ]
  capped_loop_ends (suc fuel) m s h = elim (Result-cases (round F m s)) [
    | inr (x, e) ↦ ground arith
    | inl (finished w, e) ↦ ground arith
    | inl (continued s', e) ↦ ground (arith, capped_loop_ends fuel m s', round_shrinks m s s' e)
  ]

  lift_error_fuel : {A : Type 0} (r : Result FloatError A) → lift_error r ≢ err out_of_fuel
  unfolding lift_error
  lift_error_fuel (ok a) e = absurd (ground arith)
  lift_error_fuel (err x) e = absurd (ground arith)

  abbrev pub start : Weights F → Loop F
  start raw = record { remaining = raw; weights = []; remaining_mass = of_ℕ 1 }

  -- The capping loop never runs out of the fuel that it is given, whatever the weights and the cap:
  -- each round that does not end it takes at least one recipient away.
  pub capped_normalize_ends :
      (m : Float) (raw : Weights F) → capped_normalize F m raw ≢ err out_of_fuel
  unfolding capped_normalize
  capped_normalize_ends m raw e =
      elim (Result-cases (capped_loop F (suc (length raw)) m (start raw))) [
        | inr (x, ex) ↦ ground (
          arith,
          capped_loop_ends (suc (length raw)) m (start raw),
          lift_error_fuel (settle F m []),
        )
        | inl (w, ew) ↦ ground (arith, lift_error_fuel (settle F m w))
      ]
