-- ===== src/Scoring/Allocate.antt =====
-- `_capped_normalize` and `concentration_metrics` of planrace/scoring_v2.py.
pub mod Capped
pub mod Rounds
pub mod Bound
mod Tests
use planrace_subnet.Prelude.{
  ℕ, zero, suc, ◌+◌, ◌*◌, String, Bool, true, false, not, ◌&&◌, ◌||◌, Option, none, some, List, [],
  ◌∷◌, ◌++◌, map, Result, ok, err, ◌>>=◌, ◌>>◌, raise_if, sequence, length, any, filter, ltb, ◌==◌,
  nat_eq, string_eq, if◌then◌else◌,
}
use planrace_subnet.Prelude.Dict.{Dict, keys, values, lookup, insert, erase, update, append_group}
use planrace_subnet.Prelude.Sort.{sort}
use planrace_subnet.Floats.{Floats, FloatError, overflow, divide, or_raise, fmax, fmin}
use planrace_subnet.Digest.Payload.{text_le}
use planrace_subnet.Scoring.Observations.{AggregationPolicy}
use planrace_subnet.Scoring.Stats.{sorted, fabs}
use planrace_subnet.Scoring.Aggregate.{MinerAggregate}

-- `out_of_fuel` belongs to the model alone: `capped_normalize` gives enough.
pub data AllocationError : Type 0 where
  not_enough_recipients bad_weights out_of_fuel : AllocationError
  float_error : FloatError → AllocationError

unfoldable pub lift_error {ℓ} : {A : Type ℓ} → Result FloatError A → Result AllocationError A
lift_error (ok a) = ok a
lift_error (err e) = err (float_error e)

module _ (F : Floats) where
  open F use {Float, of_ℕ, decimal, add, sub, mul, lt, le, eq, is_finite, fsum}

  abbrev pub Weights : Type 0
  Weights = Dict String Float

  pub record Loop : Type 0 where
    pub remaining : Weights
    pub weights : Weights
    pub remaining_mass : Float

  -- `{miner_id: remaining_mass * value / total for ...}`
  pub propose : Float → Float → Weights → Result FloatError Weights
  propose mass total [] = ok []
  propose mass total ((k, v) ∷ d) = do
    x ← divide F (mul mass v) total
    rest ← propose mass total d
    ok ((k, x) ∷ rest)

  -- The recipients whose proposal exceeds the cap.
  pub over_cap : Float → Weights → List String
  over_cap maximum d = keys (filter (λ e. lt (add maximum (decimal 1 15)) e.1) d)

  -- The body of the loop over the capped recipients.
  pub cap_one : Float → Loop → String → Loop
  cap_one maximum s k = record {
    remaining = erase k s.remaining;
    weights = insert k maximum s.weights;
    remaining_mass = sub s.remaining_mass maximum;
  }

  pub cap_all : Float → Loop → List String → Loop
  unfolding cap_one
  cap_all maximum s [] = s
  cap_all maximum s (k ∷ ks) = cap_all maximum (cap_one maximum s k) ks

  abbrev pub constant : Float → Weights → Weights
  constant v [] = []
  constant v ((k, w) ∷ d) = (k, v) ∷ constant v d

  -- What a round ends with: the final weights, or the state of the next round.
  pub data Round : Type 0 where
    finished : Weights → Round
    continued : Loop → Round

  share_equally : Loop → Result FloatError Round
  share_equally s = do
    equal ← divide F s.remaining_mass (of_ℕ (length s.remaining))
    ok (finished (update s.weights (constant equal s.remaining)))

  pub after_proposal : Float → Loop → Weights → List String → Round
  unfolding cap_all
  after_proposal maximum s proposed [] = finished (update s.weights proposed)
  after_proposal maximum s proposed (k ∷ ks) = continued (cap_all maximum s (sort text_le (k ∷ ks)))

  pub share_by_proposal : Float → Float → Loop → Result FloatError Round
  unfolding propose over_cap after_proposal
  share_by_proposal maximum total s = do
    proposed ← propose s.remaining_mass total s.remaining
    ok (after_proposal maximum s proposed (over_cap maximum proposed))

  unfoldable pub round : Float → Loop → Result FloatError Round
  unfolding share_equally share_by_proposal
  round maximum s = do
    total ← or_raise F (fsum (values s.remaining)) overflow
    if le total (of_ℕ 0) then share_equally s else share_by_proposal maximum total s

  -- `while remaining`
  pub capped_loop : ℕ → Float → Loop → Result AllocationError Weights
  capped_loop zero maximum s = err out_of_fuel
  capped_loop (suc fuel) maximum s = elim s.remaining [
    | [] ↦ ok s.weights
    | e ∷ d ↦ elim (round maximum s) [
      | err x ↦ err (float_error x)
      | ok (finished w) ↦ ok w
      | ok (continued s') ↦ capped_loop fuel maximum s'
    ]
  ]

  -- `sorted(weights, key=lambda item: (weights[item], item))`
  weight_le : String × Float → String × Float → Bool
  weight_le (j, v) (k, w) = if lt v w then true else if lt w v then false else text_le j k

  -- The loop that puts the residue on the first weight that can take it.
  pub put_residue : Float → Float → List (String × Float) → Weights → Weights
  put_residue maximum residue [] d = d
  put_residue maximum residue ((k, v) ∷ rest) d =
      let later = put_residue maximum residue rest d in
      if le (add v residue) (add maximum (decimal 1 12)) then insert k (add v residue) d else later

  -- The weights after the residue `1.0 - total` was placed, if it is noticeable.
  pub settled : Float → Float → Weights → Weights
  unfolding put_residue weight_le
  settled maximum total weights =
      let residue = sub (of_ℕ 1) total in
      if lt (decimal 1 15) (fabs F residue)
      then put_residue maximum residue (sort weight_le weights) weights
      else weights

  pub settle : Float → Weights → Result FloatError Weights
  unfolding settled
  settle maximum weights = do
    total ← or_raise F (fsum (values weights)) overflow
    ok (settled maximum total weights)

  -- `_capped_normalize`
  unfoldable pub capped_normalize : Float → Weights → Result AllocationError Weights
  unfolding capped_loop settle lift_error
  capped_normalize maximum raw = do
    raise_if (lt (mul (of_ℕ (length raw)) maximum) (sub (of_ℕ 1) (decimal 1 12)))
        not_enough_recipients
    weights ←
        capped_loop (suc (length raw)) maximum
          (record { remaining = raw; weights = []; remaining_mass = of_ℕ 1 })
    lift_error (settle maximum weights)

  pub record ConcentrationMetrics : Type 0 where
    pub gini : Float
    pub hhi : Float
    pub top1_share : Float
    pub effective_miners : Float

  abbrev pub empty_metrics : ConcentrationMetrics
  empty_metrics = record {
    gini = of_ℕ 0;
    hhi = of_ℕ 0;
    top1_share = of_ℕ 0;
    effective_miners = of_ℕ 0;
  }

  divide_all : Float → List Float → Result FloatError (List Float)
  divide_all total vs = sequence (map (λ v. divide F v total) vs)

  -- `(2 * index - count - 1) * value`, from the index on
  gini_terms : ℕ → ℕ → List Float → List Float
  gini_terms count index [] = []
  gini_terms count index (v ∷ vs) =
      mul (sub (of_ℕ (2 * index)) (of_ℕ (count + 1))) v ∷ gini_terms count (index + 1) vs

  largest : Float → List Float → Float
  largest x [] = x
  largest x (y ∷ ys) = largest (fmax F x y) ys

  measure_shares : List Float → Result FloatError ConcentrationMetrics
  unfolding gini_terms largest
  measure_shares [] = ok empty_metrics
  measure_shares (n ∷ ns) = do
    numerator ← or_raise F (fsum (gini_terms (length (n ∷ ns)) 1 (n ∷ ns))) overflow
    gini ← divide F numerator (of_ℕ (length (n ∷ ns)))
    hhi ← or_raise F (fsum (map (λ v. mul v v) (n ∷ ns))) overflow
    effective ← divide F (of_ℕ 1) hhi
    ok (record { gini = gini; hhi = hhi; top1_share = largest n ns; effective_miners = effective })

  unfoldable pub concentration_metrics : List Float → Result AllocationError ConcentrationMetrics
  unfolding divide_all measure_shares lift_error
  concentration_metrics weights = do
    raise_if (any (λ v. not (is_finite v) || lt v (of_ℕ 0)) weights) bad_weights
    let ordered = sorted F weights
    total ← lift_error (or_raise F (fsum ordered) overflow)
    let shares : Result FloatError ConcentrationMetrics =
        divide_all total ordered >>= measure_shares
    if length ordered == 0 || eq total (of_ℕ 0) then ok empty_metrics else lift_error shares
