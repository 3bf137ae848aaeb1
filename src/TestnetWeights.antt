-- ===== src/TestnetWeights.antt =====
-- `_clip_to_max_weight` and `_conform_weight_vector` of planrace/testnet_weights.py: the vector that the
-- chain will store for given weights. Python's `round` of a float is a parameter, `none` where it
-- raises.
pub mod Clipped
pub mod Nonzero
pub mod Quantized
mod Tests
use planrace_subnet.Prelude.{
  ℕ, zero, suc, ◌+◌, ◌-◌, ◌*◌, Bool, true, false, not, ◌&&◌, ◌||◌, Option, none, some, List, [],
  ◌∷◌, map, get_elem?, Result, ok, err, ◌>>=◌, ◌>>◌, raise_if, sequence, length, filter, ltb, ◌==◌,
  nat_eq, if◌then◌else◌,
}
use planrace_subnet.Prelude.Int.{ℤ, pos, ltb_ℤ, pos_part}
use planrace_subnet.Floats.{Floats, FloatError, overflow, math_domain, divide, or_raise, fmax, fmin}
use planrace_subnet.Scoring.Stats.{sorted}

pub data ConformError : Type 0 where
  bad_limit bad_total index_error unroundable all_zero : ConformError
  float_error : FloatError → ConformError

abbrev pub u16_max : ℕ
u16_max = 65535

pub float_raise {ℓ} : {A : Type ℓ} → Result FloatError A → Result ConformError A
float_raise (ok a) = ok a
float_raise (err e) = err (float_error e)

-- `enumerate(values)`, from an index on
pub enumerate {ℓ} : {A : Type ℓ} → ℕ → List A → List (ℕ × A)
enumerate i [] = []
enumerate i (x ∷ xs) = (i, x) ∷ enumerate (suc i) xs

pub repeat {ℓ} : {A : Type ℓ} → ℕ → A → List A
repeat zero x = []
repeat (suc n) x = x ∷ repeat n x

module _ (F : Floats) where
  open F use {Float, of_ℕ, decimal, add, sub, mul, lt, le, is_finite, fsum}

  -- `max(x, *xs)`
  pub maximum : Float → List Float → Float
  maximum x [] = x
  maximum x (y ∷ ys) = maximum (fmax F x y) ys

  -- `max` of a list that is not empty
  pub largest : List Float → Float
  largest [] = of_ℕ 0
  largest (x ∷ xs) = maximum x xs

  -- `[weight / total for weight in weights]`
  pub parts : Float → List Float → Result ConformError (List Float)
  parts total weights = sequence (map (λ w. float_raise (divide F w total)) weights)

  -- The running sums of the ordered weights.
  pub cumulate : Float → List Float → List Float
  cumulate running [] = []
  cumulate running (w ∷ ws) = add running w ∷ cumulate (add running w) ws

  -- `weight / ((count - index - 1) * weight + cumulative[index] + epsilon) < limit`, as 1 or 0
  below : ℕ → Float → ℕ → Float → Float → Result ConformError ℕ
  below count limit index weight cumulative = do
    share ← float_raise (
        divide F weight
          (add (add (mul (of_ℕ (count - index - 1)) weight) cumulative) (decimal 1 7)))
    ok (if lt share limit then 1 else 0)

  -- The sum of these tests over the ordered weights and their running sums.
  pub below_cutoff : ℕ → Float → ℕ → List Float → List Float → Result ConformError ℕ
  unfolding below
  below_cutoff count limit index (w ∷ ws) (c ∷ cs) = do
    one ← below count limit index w c
    rest ← below_cutoff count limit (suc index) ws cs
    ok (one + rest)
  below_cutoff count limit index _ _ = ok 0

  -- `cumulative[below_cutoff - 1]`: the index -1 is the last one.
  pub cumulative_at : List Float → ℕ → Result ConformError Float
  cumulative_at cumulative n =
      elim (get_elem? cumulative (if n == 0 then length cumulative - 1 else n - 1)) [
        | none ↦ err index_error
        | some c ↦ ok c
      ]

  -- The weights cut off so that the largest part is the limit.
  pub cut_off : List Float → List Float → Float → Float → Result ConformError (List Float)
  cut_off weights normalized total limit = do
    let count = length normalized
    let ordered = sorted F normalized
    let cumulative = cumulate (of_ℕ 0) ordered
    n ← below_cutoff count limit 0 ordered cumulative
    c ← cumulative_at cumulative n
    scale ←
        float_raise
          (divide F (sub (mul limit c) (decimal 1 7)) (sub (of_ℕ 1) (mul limit (of_ℕ (count - n)))))
    let clipped = map (λ w. fmin F w (mul scale total)) weights
    clipped_total ← float_raise (or_raise F (fsum clipped) overflow)
    parts clipped_total clipped

  pub clip_to_max_weight : List Float → ℤ → Result ConformError (List Float × Bool)
  clip_to_max_weight weights raw_limit = do
    raise_if (not (ltb_ℤ (pos 0) raw_limit) || ltb_ℤ (pos u16_max) raw_limit) bad_limit
    total ← float_raise (or_raise F (fsum weights) overflow)
    raise_if (length weights == 0 || le total (of_ℕ 0) || not (is_finite total)) bad_total
    normalized ← parts total weights
    limit ← float_raise (divide F (of_ℕ (pos_part raw_limit)) (of_ℕ u16_max))
    let count = length normalized
    if pos_part raw_limit == u16_max || le (largest normalized) limit
        then ok (normalized, false)
        else if le (mul (of_ℕ count) limit) (of_ℕ 1)
        then (do even ← float_raise (divide F (of_ℕ 1) (of_ℕ count)); ok (repeat count even, true))
        else (do clipped ← cut_off weights normalized total limit; ok (clipped, true))

  module _ (round : Float → Option ℤ) where
    -- `round((weight / top) * U16_MAX)`
    pub quantize : Float → Float → Result ConformError ℤ
    quantize top weight = do
      part ← float_raise (divide F weight top)
      elim (round (mul part (of_ℕ u16_max))) [ none ↦ err unroundable | some n ↦ ok n ]

    -- `[(index, value) for index, value in enumerate(quantized) if value > 0]`
    pub nonzero : ℕ → List ℤ → List (ℕ × ℕ)
    nonzero i zs = map (λ e. (e.0, pos_part e.1)) (filter (λ e. ltb_ℤ (pos 0) e.1) (enumerate i zs))

    pub total_value : List (ℕ × ℕ) → ℕ
    total_value [] = 0
    total_value (e ∷ es) = e.1 + total_value es

    -- `(index, value / total, value)`
    pub row : ℕ → ℕ × ℕ → Result ConformError (ℕ × Float × ℕ)
    row total e = do share ← float_raise (divide F (of_ℕ e.1) (of_ℕ total)); ok (e.0, share, e.1)

    pub conform_weight_vector : List Float → ℤ → Result ConformError (List (ℕ × Float × ℕ) × Bool)
    conform_weight_vector weights raw_limit = do
      (conformed, clipped) ← clip_to_max_weight weights raw_limit
      quantized ← sequence (map (quantize (largest conformed)) conformed)
      let kept = nonzero 0 quantized
      raise_if (length kept == 0 || total_value kept == 0) all_zero
      rows ← sequence (map (row (total_value kept)) kept)
      ok (rows, clipped)
