-- ===== src/TestnetWeights/Clipped.antt =====
-- The clipped weights of planrace/testnet_weights.py are as many as the weights.
use planrace_subnet.Prelude.{
  ℕ, zero, suc, ◌-◌, ◌≡◌, refl, ap, ◌∙◌, inl, inr, Bool, true, false, ◌||◌, List, [], ◌∷◌, map,
  Result, ok, arith, sequence-map, length, length-map, All₂, ◌==◌, nat_eq, Bool-cases, Result-cases,
  ◌>>=◌, if◌then◌else◌,
}
use planrace_subnet.Prelude.Int.{ℤ, pos_part}
use planrace_subnet.Floats.{Floats, overflow, divide, or_raise, fmin}
use planrace_subnet.Scoring.Stats.{sorted}
use planrace_subnet.TestnetWeights.{
  ConformError, u16_max, float_raise, repeat, largest, parts, cut_off, clip_to_max_weight, cumulate,
  below_cutoff, cumulative_at,
}

pub length-All₂ {ℓ κ} :
    {A : Type ℓ} {B : Type κ} (P : A → B → Type 0) (xs : List A) (ys : List B)
    → All₂ P xs ys
    → length ys ≡ length xs
length-All₂ P [] [] h = refl
length-All₂ P [] (y ∷ ys) h = absurd h
length-All₂ P (x ∷ xs) [] h = absurd h
length-All₂ P (x ∷ xs) (y ∷ ys) h = ap (λ n. suc n) (length-All₂ P xs ys h.1)

length-repeat {ℓ} : {A : Type ℓ} (n : ℕ) (x : A) → length (repeat n x) ≡ n
unfolding repeat
length-repeat zero x = refl
length-repeat (suc n) x = ap (λ n. suc n) (length-repeat n x)

module _ (F : Floats) where
  open F use {Float, of_ℕ, mul, le, fsum}

  parts-length :
      (total : Float) (ws : List Float) (out : List Float)
      → parts F total ws ≡ ok out
      → length out ≡ length ws
  unfolding parts
  parts-length total ws out h =
      length-All₂ (λ w o. Unit) ws out
        (sequence-map (λ w o. Unit) (λ w. float_raise (divide F w total)) (λ w o e. tt) ws out h)

  -- The end of `cut_off`.
  cut_off_end :
      (weights normalized : List Float) (total limit c : Float) (n : ℕ) (out : List Float)
      → (do
        scale ← float_raise (
            divide F
              (F.sub (mul limit c) (F.decimal 1 7))
              (F.sub (of_ℕ 1) (mul limit (of_ℕ (length normalized - n)))))
        let clipped = map (λ w. fmin F w (mul scale total)) weights
        clipped_total ← float_raise (or_raise F (fsum clipped) overflow)
        parts F clipped_total clipped)
        ≡ ok out
      → length out ≡ length weights
  cut_off_end weights normalized total limit c n out h =
      elim (Result-cases (
        float_raise (
          divide F (F.sub (mul limit c) (F.decimal 1 7))
            (F.sub (of_ℕ 1) (mul limit (of_ℕ (length normalized - n))))))) [
              | inr (e, bad) ↦ absurd (ground arith)
              | inl (scale, scaled) ↦
                  let clipped = map (λ w. fmin F w (mul scale total)) weights in
                  elim (Result-cases (float_raise (or_raise F (fsum clipped) overflow))) [
                    | inr (e, bad) ↦ absurd (ground arith)
                    | inl (t, summed) ↦
                        parts-length t clipped out (ground arith)
                        ∙ length-map (λ w. fmin F w (mul scale total)) weights
                  ]
            ]

  cut_off-length :
      (weights normalized : List Float) (total limit : Float) (out : List Float)
      → cut_off F weights normalized total limit ≡ ok out
      → length out ≡ length weights
  unfolding cut_off
  cut_off-length weights normalized total limit out h =
      let ordered = sorted F normalized in
      let cumulative = cumulate F (of_ℕ 0) ordered in
      elim (Result-cases (below_cutoff F (length normalized) limit 0 ordered cumulative)) [
        | inr (e, bad) ↦ absurd (ground arith)
        | inl (n, counted) ↦ elim (Result-cases (cumulative_at F cumulative n)) [
          | inr (e, bad) ↦ absurd (ground arith)
          | inl (c, found) ↦ cut_off_end weights normalized total limit c n out (ground arith)
        ]
      ]

  -- The end of `clip_to_max_weight`.
  clip_end :
      (weights normalized : List Float) (total limit : Float) (raw_limit : ℤ) (out : List Float)
      (clipped : Bool)
      → length normalized ≡ length weights
      → (◌≡◌ {A = Result ConformError (List Float × Bool)}
          (if pos_part raw_limit == u16_max || le (largest F normalized) limit
            then ok (normalized, false)
            else if le (mul (of_ℕ (length normalized)) limit) (of_ℕ 1)
            then (do
              even ← float_raise (divide F (of_ℕ 1) (of_ℕ (length normalized)))
              ok (repeat (length normalized) even, true))
            else (do cut ← cut_off F weights normalized total limit; ok (cut, true)))
          (ok (out, clipped)))
      → length out ≡ length weights
  clip_end weights normalized total limit raw_limit out clipped same h =
      elim (Bool-cases (pos_part raw_limit == u16_max || le (largest F normalized) limit)) [
        | inl fits ↦ ground arith
        | inr over ↦ elim (Bool-cases (le (mul (of_ℕ (length normalized)) limit) (of_ℕ 1))) [
          | inl low ↦
              elim (Result-cases (float_raise (divide F (of_ℕ 1) (of_ℕ (length normalized))))) [
                | inr (e, bad) ↦ absurd (ground arith)
                | inl (even, split) ↦ ground (arith, length-repeat (length normalized) even)
              ]
          | inr high ↦ elim (Result-cases (cut_off F weights normalized total limit)) [
            | inr (e, bad) ↦ absurd (ground arith)
            | inl (cut, done) ↦
                ground (arith, cut_off-length weights normalized total limit cut done)
          ]
        ]
      ]

  pub clip_to_max_weight-length :
      (weights : List Float) (raw_limit : ℤ) (out : List Float) (clipped : Bool)
      → clip_to_max_weight F weights raw_limit ≡ ok (out, clipped)
      → length out ≡ length weights
  unfolding clip_to_max_weight
  clip_to_max_weight-length weights raw_limit out clipped h =
      elim (Result-cases (float_raise (or_raise F (fsum weights) overflow))) [
        | inr (e, bad) ↦ absurd (ground arith)
        | inl (total, summed) ↦ elim (Result-cases (parts F total weights)) [
          | inr (e, bad) ↦ absurd (ground arith)
          | inl (normalized, divided) ↦
              elim (Result-cases
                (float_raise (divide F (of_ℕ (pos_part raw_limit)) (of_ℕ u16_max)))) [
                  | inr (e, bad) ↦ absurd (ground arith)
                  | inl (limit, limited) ↦
                      clip_end weights normalized total limit raw_limit out clipped
                        (parts-length total weights normalized divided) (ground arith)
                ]
        ]
      ]
