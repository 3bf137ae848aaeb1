-- ===== src/TestnetWeights/Quantized.antt =====
-- What `_conform_weight_vector` of planrace/testnet_weights.py stores of which weight.
use mathlib.Core.Path.{subst}
use planrace_subnet.Prelude.{
  ℕ, ◌≡◌, refl, ap, ◌∙◌, inl, inr, Bool, false, Option, some, List, [], ◌∷◌, map, get_elem?, ok,
  arith, sequence, sequence-map, length, All, All₂, ◌==◌, nat_eq, Result-cases, Option-cases,
}
use planrace_subnet.Prelude.Int.{ℤ}
use planrace_subnet.Prelude.Dict.{lookup}
use planrace_subnet.Prelude.Sort.{IsSorted}
use planrace_subnet.Floats.{Floats, divide}
use planrace_subnet.TestnetWeights.{
  u16_max, float_raise, largest, clip_to_max_weight, quantize, nonzero, total_value, row,
  conform_weight_vector,
}
use planrace_subnet.TestnetWeights.Clipped.{length-All₂, clip_to_max_weight-length}
use planrace_subnet.TestnetWeights.Nonzero.{
  positive_unit, ascends, lookup-nonzero_start, nonzero-IsSorted,
}

module _ (F : Floats) where
  open F use {Float, of_ℕ, mul, le, fsum}

  module _ (round : Float → Option ℤ) where
    -- The rows by index, with the unit of each.
    abbrev pub units : List (ℕ × Float × ℕ) → List (ℕ × ℕ)
    units = map (λ r. (r.0, r.2))

    -- A weight is divided by the largest and scaled to 16 bits.
    abbrev pub IsRounded : Float → Float → ℤ → Type 0
    IsRounded top weight unit =
        (part : Float) × (divide F weight top ≡ ok part)
        × (round (mul part (of_ℕ u16_max)) ≡ some unit)

    quantize-IsRounded :
        (top weight : Float) (unit : ℤ)
        → quantize F round top weight ≡ ok unit
        → IsRounded top weight unit
    unfolding quantize float_raise
    quantize-IsRounded top weight unit h = elim (Result-cases (divide F weight top)) [
      | inr (e, bad) ↦ absurd (ground arith)
      | inl (part, divided) ↦ elim (Option-cases (round (mul part (of_ℕ u16_max)))) [
        | inl failed ↦ absurd (ground arith)
        | inr (n, rounded) ↦ (part, divided, ground arith)
      ]
    ]

    abbrev IsRow : ℕ → ℕ × ℕ → ℕ × Float × ℕ → Type 0
    IsRow total e r = ((r.0, r.2) ≡ e) × (divide F (of_ℕ r.2) (of_ℕ total) ≡ ok r.1)

    row-IsRow :
        (total : ℕ) (e : ℕ × ℕ) (r : ℕ × Float × ℕ) → row F round total e ≡ ok r → IsRow total e r
    unfolding row float_raise
    row-IsRow total (i, n) (j, share, m) h = elim (Result-cases (divide F (of_ℕ n) (of_ℕ total))) [
      | inr (e, bad) ↦ absurd (ground arith)
      | inl (x, divided) ↦
          let same : ◌≡◌ {A = ℕ × Float × ℕ} (i, x, n) (j, share, m) = ground arith in
          subst (λ (r : ℕ × Float × ℕ). IsRow total (i, n) r) same (refl, divided)
    ]

    units_of_rows :
        (total : ℕ) (es : List (ℕ × ℕ)) (rows : List (ℕ × Float × ℕ))
        → All₂ (IsRow total) es rows
        → (units rows ≡ es) × All (λ r. divide F (of_ℕ r.2) (of_ℕ total) ≡ ok r.1) rows
    units_of_rows total [] [] h = (refl, tt)
    units_of_rows total [] (r ∷ rows) h = absurd h
    units_of_rows total (e ∷ es) [] h = absurd h
    units_of_rows total (e ∷ es) (r ∷ rows) ((same, share), h) =
        let (rest, shares) = units_of_rows total es rows h in
        (ap (λ x. x ∷ units rows) same ∙ ap (λ l. e ∷ l) rest, (share, shares))

    -- A conformed vector.
    pub record IsConformed (weights : List Float) (raw_limit : ℤ) (rows : List (ℕ × Float × ℕ))
        (clipped : Bool) : Type 0 where
      pub conformed : List Float
      pub quantized : List ℤ
      pub clip : clip_to_max_weight F weights raw_limit ≡ ok (conformed, clipped)
      pub rounded : All₂ (IsRounded (largest F conformed)) conformed quantized
      pub length_of : length quantized ≡ length weights
      pub unit_at : (i : ℕ) → lookup i (units rows) ≡ positive_unit (get_elem? quantized i)
      pub ascending : IsSorted ascends (units rows)
      pub shares :
          All (λ r. divide F (of_ℕ r.2) (of_ℕ (total_value F round (units rows))) ≡ ok r.1) rows
      pub not_all_zero : (total_value F round (units rows) == 0) ≡ false

    -- A conformed vector has one rounded unit for each weight; its rows are the indices of the
    -- positive units, in ascending order, each with its unit and its share in the sum of all
    -- units, which is not zero.
    pub conform_weight_vector-IsConformed :
        (weights : List Float) (raw_limit : ℤ) (rows : List (ℕ × Float × ℕ)) (clipped : Bool)
        → conform_weight_vector F round weights raw_limit ≡ ok (rows, clipped)
        → IsConformed weights raw_limit rows clipped
    unfolding conform_weight_vector
    conform_weight_vector-IsConformed weights raw_limit rows clipped h =
        elim (Result-cases (clip_to_max_weight F weights raw_limit)) [
          | inr (e, bad) ↦ absurd (ground arith)
          | inl ((conformed, cut), clip) ↦
              let top = largest F conformed in
              elim (Result-cases (sequence (map (quantize F round top) conformed))) [
                | inr (e, bad) ↦ absurd (ground arith)
                | inl (quantized, made) ↦
                    let kept = nonzero F round 0 quantized in
                    let total = total_value F round kept in
                    elim (Result-cases (sequence (map (row F round total) kept))) [
                      | inr (e, bad) ↦ absurd (ground arith)
                      | inl (rs, done) ↦
                          let rows' : rs ≡ rows = ground arith in
                          let cut' : cut ≡ clipped = ground arith in
                          let (us, shares) = units_of_rows total kept rs (
                            sequence-map (IsRow total) (row F round total) (row-IsRow total) kept rs
                              done) in
                          let rounded =
                            sequence-map (IsRounded top) (quantize F round top)
                              (quantize-IsRounded top) conformed quantized made in
                          subst (λ l. IsConformed weights raw_limit l clipped) rows'
                            (record {
                              conformed = conformed;
                              quantized = quantized;
                              clip = rw (← cut') clip;
                              rounded = rounded;
                              length_of =
                                  length-All₂ (IsRounded top) conformed quantized rounded
                                  ∙ clip_to_max_weight-length F weights raw_limit conformed cut
                                      clip;
                              unit_at = λ i. rw us (lookup-nonzero_start F round i quantized);
                              ascending = rw us (nonzero-IsSorted F round 0 quantized);
                              shares = rw us shares;
                              not_all_zero = rw us (ground arith);
                            })
                    ]
              ]
        ]
