-- ===== src/Scoring/Stats.antt =====
-- The robust statistics of planrace/scoring_v2.py, over `statistics.fmean` and `statistics.median`.
use planrace_subnet.Prelude.{
  ℕ, ◌-◌, ◌/◌, ◌%◌, min, max, not, ◌&&◌, List, map, Result, ok, err, ◌>>=◌, ◌>>◌, raise_if, length,
  get_or, ltb, ◌==◌, nat_eq, if◌then◌else◌,
}
use planrace_subnet.Prelude.Sort.{sort}
use planrace_subnet.Floats.{Floats, FloatError, overflow, divide, or_raise, fmin, fmax}

pub data StatsError : Type 0 where
  no_values bad_fraction : StatsError
  float_error : FloatError → StatsError

unfoldable pub lift_float {ℓ} : {A : Type ℓ} → Result FloatError A → Result StatsError A
lift_float (ok a) = ok a
lift_float (err e) = err (float_error e)

module _ (F : Floats) where
  open F use {Float, of_ℕ, decimal, add, sub, mul, quotient, lt, le, eq, trunc, sqrt, fsum}

  -- `sorted` of floats
  unfoldable pub sorted : List Float → List Float
  unfolding sort
  sorted = sort (λ x y. not (lt y x))

  pub at : List Float → ℕ → Float
  at xs i = get_or xs i (of_ℕ 0)

  -- `statistics.fmean` of values that are there
  unfoldable pub fmean : List Float → Result FloatError Float
  unfolding divide or_raise
  fmean xs = do total ← or_raise F (fsum xs) overflow; divide F total (of_ℕ (length xs))

  -- `statistics.median` of values that are there
  unfoldable pub median : List Float → Float
  unfolding sorted at
  median xs =
      let ordered = sorted xs in
      let n = length xs in
      if n % 2 == 1
      then at ordered (n / 2)
      else quotient (add (at ordered (n / 2 - 1)) (at ordered (n / 2))) (of_ℕ 2)

  unfoldable pub clamp : Float → Float → Float → Float
  unfolding fmin fmax
  clamp lower upper value = fmin F upper (fmax F lower value)

  pub winsor_width : ℕ → Float → ℕ → ℕ
  winsor_width n fraction minimum_width =
      let least : ℕ = if eq fraction (of_ℕ 0) then 0 else minimum_width in
      min (max (trunc (mul (of_ℕ n) fraction)) least) ((n - 1) / 2)

  -- The values whose mean is taken.
  unfoldable pub winsorized : List Float → ℕ → List Float
  unfolding sorted at clamp
  winsorized values width =
      let ordered = sorted values in
      let n = length values in
      if width == 0
      then ordered
      else map (clamp (at ordered width) (at ordered (n - width - 1))) ordered

  unfoldable pub winsorized_mean : List Float → Float → ℕ → Result StatsError Float
  unfolding winsor_width winsorized fmean lift_float
  winsorized_mean values fraction minimum_width = do
    raise_if (length values == 0) no_values
    raise_if (not (le (of_ℕ 0) fraction && lt fraction (decimal 5 1))) bad_fraction
    lift_float (fmean (winsorized values (winsor_width (length values) fraction minimum_width)))

  -- `abs(x)`
  unfoldable pub fabs : Float → Float
  fabs x = if lt x (of_ℕ 0) then sub (of_ℕ 0) x else x

  unfoldable pub robust_standard_error : List Float → Float
  unfolding median fabs
  robust_standard_error values =
      if ltb (length values) 2
      then of_ℕ 0
      else (let center = median values in
          let mad = median (map (λ v. fabs (sub v center)) values) in
          quotient (mul (decimal 14826 4) mad) (sqrt (of_ℕ (length values))))
