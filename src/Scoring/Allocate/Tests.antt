-- ===== src/Scoring/Allocate/Tests.antt =====
-- A concrete run of the capping: one of three recipients is over the cap.
use planrace_subnet.Prelude.{◌≡◌, ◌≢◌, refl, [], ◌∷◌, ok, err}
use planrace_subnet.Floats.{or_raise, divide}
use planrace_subnet.Scoring.Stats.{fabs}
use planrace_subnet.Prelude.Sort.{sort}
use planrace_subnet.Floats.Fixed.{fixed}
use planrace_subnet.Scoring.Allocate.{out_of_fuel, Weights, capped_normalize, round}
use planrace_subnet.Scoring.Allocate.Capped.{capped_normalize_ends}
use planrace_subnet.Scoring.Allocate.Rounds.{IsFinal}
use planrace_subnet.Scoring.Allocate.Bound.{capped_normalize_bound}

abbrev raw : Weights fixed
raw = ("a", fixed.of_ℕ 8) ∷ ("b", fixed.of_ℕ 1) ∷ ("c", fixed.of_ℕ 1) ∷ []

abbrev capped : Weights fixed
capped = ("a", fixed.decimal 5 1) ∷ ("b", fixed.decimal 25 2) ∷ ("c", fixed.decimal 25 2) ∷ []

returns : capped_normalize fixed (fixed.decimal 5 1) raw ≡ ok capped
unfolding capped_normalize fixed round or_raise divide sort fabs
returns = refl

capped_normalize_bound_example : IsFinal fixed raw (fixed.decimal 5 1) capped
unfolding fixed
capped_normalize_bound_example =
    capped_normalize_bound fixed (fixed.decimal 5 1) raw capped (refl, (refl, (refl, tt))) returns

capped_normalize_ends_example : capped_normalize fixed (fixed.decimal 5 1) raw ≢ err out_of_fuel
capped_normalize_ends_example = capped_normalize_ends fixed (fixed.decimal 5 1) raw
