-- ===== src/Scoring/Allocate/Rounds.antt =====
-- The rounds of the capping loop against the recipients and the cap.
use mathlib.Core.Path.{subst}
use planrace_subnet.Prelude.{
  ℕ, zero, suc, ◌≡◌, ◌≢◌, refl, sym, ap, ◌∙◌, ◌⊎◌, inl, inr, String, true, false, ◌||◌, List, [],
  ◌∷◌, ok, Result-cases, ok-injective, Bool-cases, arith, mem, beq_refl, all, string_eq, All,
  Option, none, some,
}
use planrace_subnet.Prelude.Dict.{keys, values, update}
use planrace_subnet.Prelude.DictLaws.{
  keys-insert, keys-update, keys-erase, values-insert, values-update, values-erase,
}
use planrace_subnet.Prelude.Sort.{sort}
use planrace_subnet.Digest.Payload.{text_le}
use planrace_subnet.Floats.{Floats, FloatError, or_raise, overflow}
use planrace_subnet.Scoring.Allocate.{
  Weights, Loop, Round, finished, continued, propose, over_cap, cap_one, cap_all, after_proposal,
  share_by_proposal, round, capped_loop,
}
use planrace_subnet.Scoring.Allocate.Capped.{mem-sort, mem-over_cap, keys-propose}

list-cases {ℓ} : {A : Type ℓ} (xs : List A) → (xs ≡ []) ⊎ (xs ≢ [])
list-cases [] = inl refl
list-cases (x ∷ xs) = inr (λ e. cc)

module _ (F : Floats) where
  open F use {Float, of_ℕ, decimal, add, lt, le, fsum, fsum_pos}

  -- A weight is the cap, or passed the test of the loop, or passed the test for the residue.
  abbrev pub IsCapped : Float → Float → Type 0
  IsCapped m v =
      (v ≡ m) ⊎ (lt (add m (decimal 1 15)) v ≡ false) ⊎ (le v (add m (decimal 1 12)) ≡ true)

  abbrev pub IsPositive : Float → Type 0
  IsPositive v = lt (of_ℕ 0) v ≡ true

  pub record IsCapping (raw : Weights F) (m : Float) (s : Loop F) : Type 0 where
    pub covers :
        (k : String) → (mem k (keys s.weights) || mem k (keys s.remaining)) ≡ mem k (keys raw)
    pub capped : All (IsCapped m) (values s.weights)
    pub positive : All IsPositive (values s.remaining)

  cap_one-IsCapping :
      (raw : Weights F) (m : Float) (s : Loop F) (j : String)
      → mem j (keys raw) ≡ true
      → IsCapping raw m s
      → IsCapping raw m (cap_one F m s j)
  unfolding cap_one
  cap_one-IsCapping raw m s j hj h = record {
    covers = λ k. ground (
      arith,
      keys-insert k j m s.weights,
      keys-erase k j s.remaining,
      h.covers k,
      string_eq.beq_iff k j,
    );
    capped = values-insert (IsCapped m) j m s.weights (inl refl) h.capped;
    positive = values-erase IsPositive j s.remaining h.positive;
  }

  cap_all-IsCapping :
      (raw : Weights F) (m : Float) (s : Loop F) (ks : List String)
      → ((k : String) → mem k ks ≡ true → mem k (keys raw) ≡ true)
      → IsCapping raw m s
      → IsCapping raw m (cap_all F m s ks)
  unfolding cap_all
  cap_all-IsCapping raw m s [] hk h = h
  cap_all-IsCapping raw m s (j ∷ ks) hk h =
      cap_all-IsCapping raw m (cap_one F m s j) ks (λ k mk. hk k (rw mk (ground arith)))
        (cap_one-IsCapping raw m s j (hk j (rw (beq_refl j) refl)) h)

  over_cap_nil : (m : Float) (p : Weights F) → over_cap F m p ≡ [] → All (IsCapped m) (values p)
  unfolding over_cap
  over_cap_nil m [] h = tt
  over_cap_nil m ((k, v) ∷ p) h = elim (Bool-cases (lt (add m (decimal 1 15)) v)) [
    | inl e ↦ absurd (ground arith)
    | inr e ↦ (inr (inl e), over_cap_nil m p (rw e at h))
  ]

  -- What the weights of a finished round promise.
  pub record IsFinal (raw : Weights F) (m : Float) (w : Weights F) : Type 0 where
    pub recipients : (k : String) → mem k (keys w) ≡ mem k (keys raw)
    pub bounded : All (IsCapped m) (values w)

  after_proposal_finished :
      (raw : Weights F) (m : Float) (s : Loop F) (p w : Weights F) (ks : List String)
      → IsCapping raw m s
      → keys p ≡ keys s.remaining
      → over_cap F m p ≡ ks
      → after_proposal F m s p ks ≡ finished w
      → IsFinal raw m w
  unfolding after_proposal
  after_proposal_finished raw m s p w [] h kp none_over e =
      let eq : update s.weights p ≡ w = ground arith in
      subst (IsFinal raw m) eq (record {
        recipients = λ k.
            keys-update k s.weights p
            ∙ ap (λ ks. mem k (keys s.weights) || mem k ks) kp
            ∙ h.covers k;
        bounded = values-update (IsCapped m) s.weights p h.capped (over_cap_nil m p none_over);
      })
  after_proposal_finished raw m s p w (k ∷ ks) h kp some_over e = absurd (ground arith)

  after_proposal_continued :
      (raw : Weights F) (m : Float) (s s' : Loop F) (p : Weights F) (ks : List String)
      → IsCapping raw m s
      → ((k : String) → mem k ks ≡ true → mem k (keys raw) ≡ true)
      → after_proposal F m s p ks ≡ continued s'
      → IsCapping raw m s'
  unfolding after_proposal
  after_proposal_continued raw m s s' p [] h hk e = absurd (ground arith)
  after_proposal_continued raw m s s' p (k ∷ ks) h hk e =
      let eq : cap_all F m s (sort text_le (k ∷ ks)) ≡ s' = ground arith in
      subst (IsCapping raw m) eq (
        cap_all-IsCapping raw m s (sort text_le (k ∷ ks))
          (λ j mj. hk j (sym (mem-sort j (k ∷ ks)) ∙ mj)) h)

  all_positive : (vs : List Float) → All IsPositive vs → all (λ v. lt (of_ℕ 0) v) vs ≡ true
  all_positive [] h = refl
  all_positive (v ∷ vs) h = rw (h.0, all_positive vs h.1) refl

  abbrev IsRound : Weights F → Float → Round F → Type 0
  IsRound raw m (finished w) = IsFinal raw m w
  IsRound raw m (continued s) = IsCapping raw m s

  after_proposal-IsRound :
      (raw : Weights F) (m : Float) (s : Loop F) (p : Weights F) (ks : List String)
      → IsCapping raw m s
      → keys p ≡ keys s.remaining
      → over_cap F m p ≡ ks
      → ((k : String) → mem k ks ≡ true → mem k (keys raw) ≡ true)
      → IsRound raw m (after_proposal F m s p ks)
  unfolding after_proposal
  after_proposal-IsRound raw m s p [] h kp over hk =
      after_proposal_finished raw m s p (update s.weights p) [] h kp over refl
  after_proposal-IsRound raw m s p (k ∷ ks) h kp over hk =
      after_proposal_continued raw m s (cap_all F m s (sort text_le (k ∷ ks))) p (k ∷ ks) h hk refl

  over_cap_raw :
      (raw : Weights F) (m : Float) (s : Loop F) (p : Weights F)
      → IsCapping raw m s
      → keys p ≡ keys s.remaining
      → (k : String) → mem k (over_cap F m p) ≡ true
      → mem k (keys raw) ≡ true
  over_cap_raw raw m s p h kp k mk =
      let there : mem k (keys s.remaining) ≡ true = ap (mem k) (sym kp) ∙ mem-over_cap F m k p mk in
      ground (arith, h.covers k)

  share_by_proposal-IsRound :
      (raw : Weights F) (m total : Float) (s : Loop F) (r : Round F)
      → IsCapping raw m s
      → share_by_proposal F m total s ≡ ok r
      → IsRound raw m r
  unfolding share_by_proposal
  share_by_proposal-IsRound raw m total s r h e =
      elim (Result-cases (propose F s.remaining_mass total s.remaining)) [
        | inr (x, bad) ↦ absurd (ground arith)
        | inl (p, ep) ↦
            let kp = keys-propose F s.remaining_mass total s.remaining p ep in
            let eq : after_proposal F m s p (over_cap F m p) ≡ r = ground arith in
            subst (IsRound raw m) eq (
              after_proposal-IsRound raw m s p (over_cap F m p) h kp refl
                (over_cap_raw raw m s p h kp))
      ]

  -- A positive total rules the equal split out.
  total_positive :
      (d : Weights F) (total : Float)
      → d ≢ []
      → All IsPositive (values d)
      → fsum (values d) ≡ some total
      → le total (of_ℕ 0) ≡ false
  total_positive [] total ne h e = absurd (ne refl)
  total_positive ((k, v) ∷ d) total ne h e =
      fsum_pos v (values d) total (all_positive (v ∷ values d) h) e

  or_raise_ok : (o : Option Float) (x : FloatError) (a : Float) → or_raise F o x ≡ ok a → o ≡ some a
  unfolding or_raise
  or_raise_ok none x a h = absurd (ground arith)
  or_raise_ok (some b) x a h = ap some (ok-injective h)

  round-IsRound :
      (raw : Weights F) (m : Float) (s : Loop F) (r : Round F)
      → s.remaining ≢ []
      → IsCapping raw m s
      → round F m s ≡ ok r
      → IsRound raw m r
  unfolding round
  round-IsRound raw m s r ne h e =
      elim (Result-cases (or_raise F (fsum (values s.remaining)) overflow)) [
        | inr (x, bad) ↦ absurd (ground arith)
        | inl (total, et) ↦ share_by_proposal-IsRound raw m total s r h (
            ground (
              arith,
              total_positive s.remaining total ne h.positive
                  (or_raise_ok (fsum (values s.remaining)) overflow total et),
            ))
      ]

  pub capped_loop-IsFinal :
      (fuel : ℕ) (raw : Weights F) (m : Float) (s : Loop F) (w : Weights F)
      → IsCapping raw m s
      → capped_loop F fuel m s ≡ ok w
      → IsFinal raw m w
  unfolding capped_loop
  capped_loop-IsFinal zero raw m s w h e = absurd (ground arith)
  capped_loop-IsFinal (suc fuel) raw m s w h e = elim (list-cases s.remaining) [
    | inl none_left ↦
        let eq : s.weights ≡ w = ground arith in
        subst (IsFinal raw m) eq (record {
          recipients = λ k. ground (arith, h.covers k, ap (λ d. mem k (keys d)) none_left);
          bounded = h.capped;
        })
    | inr some_left ↦ elim (Result-cases (round F m s)) [
      | inr (x, bad) ↦ absurd (ground arith)
      | inl (finished v, er) ↦
          let eq : v ≡ w = ground arith in
          subst (IsFinal raw m) eq (round-IsRound raw m s (finished v) some_left h er)
      | inl (continued s', er) ↦
          capped_loop-IsFinal fuel raw m s' w (round-IsRound raw m s (continued s') some_left h er)
            (ground arith)
    ]
  ]
