-- ===== src/TestnetWeights/Tests.antt =====
-- A concrete vector of weights, with rounding half up.
use planrace_subnet.Prelude.{ℕ, ◌≡◌, refl, true, false, Option, some, List, [], ◌∷◌, ok, nat_eq}
use planrace_subnet.Prelude.Int.{ℤ, pos}
use planrace_subnet.Floats.{divide, or_raise, fmax, fmin}
use planrace_subnet.Floats.Fixed.{fixed}
use planrace_subnet.Scoring.Stats.{sorted}
use planrace_subnet.TestnetWeights.{
  conform_weight_vector, clip_to_max_weight, float_raise, parts, quantize, largest, maximum,
  nonzero, enumerate, total_value, row, cut_off, below_cutoff, cumulate, cumulative_at,
}
use planrace_subnet.TestnetWeights.Quantized.{IsConformed, conform_weight_vector-IsConformed}

abbrev half_up : fixed.Float → Option ℤ
half_up x = some (pos (fixed.trunc (fixed.add x (fixed.decimal 5 1))))

abbrev weights : List fixed.Float
weights = fixed.of_ℕ 1 ∷ fixed.of_ℕ 0 ∷ fixed.of_ℕ 2 ∷ []

abbrev rows : List (ℕ × fixed.Float × ℕ)
rows = (0, fixed.decimal 333336 6, 32768) ∷ (2, fixed.decimal 666663 6, 65535) ∷ []

conformed : conform_weight_vector fixed half_up weights (pos 65535) ≡ ok (rows, false)
unfolding conform_weight_vector clip_to_max_weight float_raise or_raise fixed parts divide quantize
    largest maximum fmax nonzero enumerate total_value row
conformed = refl

-- A weight above the limit is cut off.
clipped :
    clip_to_max_weight fixed (fixed.of_ℕ 1 ∷ fixed.of_ℕ 1 ∷ fixed.of_ℕ 8 ∷ []) (pos 32768)
    ≡ ok (fixed.decimal 249997 6 ∷ fixed.decimal 249997 6 ∷ fixed.decimal 500004 6 ∷ [], true)
unfolding clip_to_max_weight float_raise or_raise fixed parts divide largest maximum fmax cut_off
    below_cutoff sorted cumulate cumulative_at fmin
clipped = refl

conform_weight_vector-IsConformed_example : IsConformed fixed half_up weights (pos 65535) rows false
conform_weight_vector-IsConformed_example =
    conform_weight_vector-IsConformed fixed half_up weights (pos 65535) rows false conformed
