-- ===== src/TestnetWeights/Nonzero.antt =====
-- The positive units of a quantized vector, planrace/testnet_weights.py, by their indices.
use planrace_subnet.Prelude.{
  ℕ, zero, suc, ◌+◌, ◌≡◌, refl, Bool, true, Option, none, some, List, [], ◌∷◌, get_elem?, arith,
  ltb, All, nat_eq,
}
use planrace_subnet.Prelude.Int.{ℤ, pos, negsuc}
use planrace_subnet.Prelude.Dict.{lookup}
use planrace_subnet.Prelude.Sort.{IsSorted}
use planrace_subnet.Floats.{Floats}
use planrace_subnet.TestnetWeights.{enumerate, nonzero}

-- The indices ascend.
abbrev pub ascends : ℕ × ℕ → ℕ × ℕ → Bool
ascends a b = ltb a.0 b.0

-- The unit that an index gets: the rounded weight, if it is positive.
abbrev pub positive_unit : Option ℤ → Option ℕ
positive_unit none = none
positive_unit (some (pos zero)) = none
positive_unit (some (pos (suc n))) = some (suc n)
positive_unit (some (negsuc n)) = none

module _ (F : Floats) where
  open F use {Float, of_ℕ, mul, le, fsum}

  module _ (round : Float → Option ℤ) where
    nonzero_below :
        (k j : ℕ) (zs : List ℤ) → ltb k j ≡ true → lookup k (nonzero F round j zs) ≡ none
    unfolding nonzero enumerate
    nonzero_below k j [] h = refl
    nonzero_below k j (pos zero ∷ zs) h = nonzero_below k (suc j) zs (ground arith)
    nonzero_below k j (pos (suc n) ∷ zs) h = ground (arith, nonzero_below k (suc j) zs)
    nonzero_below k j (negsuc n ∷ zs) h = ground (arith, nonzero_below k (suc j) zs)

    lookup-nonzero :
        (i j : ℕ) (zs : List ℤ)
        → lookup (j + i) (nonzero F round j zs) ≡ positive_unit (get_elem? zs i)
    unfolding nonzero enumerate
    lookup-nonzero i j [] = refl
    lookup-nonzero zero j (pos zero ∷ zs) = nonzero_below (j + 0) (suc j) zs (ground arith)
    lookup-nonzero zero j (pos (suc n) ∷ zs) = ground arith
    lookup-nonzero zero j (negsuc n ∷ zs) = ground (arith, nonzero_below (j + 0) (suc j) zs)
    lookup-nonzero (suc i) j (pos zero ∷ zs) = ground (arith, lookup-nonzero i (suc j) zs)
    lookup-nonzero (suc i) j (pos (suc n) ∷ zs) = ground (arith, lookup-nonzero i (suc j) zs)
    lookup-nonzero (suc i) j (negsuc n ∷ zs) = ground (arith, lookup-nonzero i (suc j) zs)

    pub lookup-nonzero_start :
        (i : ℕ) (zs : List ℤ) → lookup i (nonzero F round 0 zs) ≡ positive_unit (get_elem? zs i)
    lookup-nonzero_start i zs =
        let start : 0 + i ≡ i = omega arith in rw start at (lookup-nonzero i 0 zs)

    nonzero_kept :
        (j n : ℕ) (zs : List ℤ)
        → nonzero F round j (pos (suc n) ∷ zs) ≡ (j, suc n) ∷ nonzero F round (suc j) zs
    unfolding nonzero enumerate
    nonzero_kept j n zs = ground arith

    nonzero_dropped :
        (j n : ℕ) (zs : List ℤ) → nonzero F round j (negsuc n ∷ zs) ≡ nonzero F round (suc j) zs
    unfolding nonzero enumerate
    nonzero_dropped j n zs = ground arith

    nonzero_above :
        (k j : ℕ) (zs : List ℤ)
        → ltb k j ≡ true
        → All (λ e. ltb k e.0 ≡ true) (nonzero F round j zs)
    unfolding nonzero enumerate
    nonzero_above k j [] h = tt
    nonzero_above k j (pos zero ∷ zs) h = nonzero_above k (suc j) zs (ground arith)
    nonzero_above k j (pos (suc n) ∷ zs) h =
        rw (nonzero_kept j n zs) (h, nonzero_above k (suc j) zs (ground arith))
    nonzero_above k j (negsuc n ∷ zs) h =
        rw (nonzero_dropped j n zs) (nonzero_above k (suc j) zs (ground arith))

    pub nonzero-IsSorted : (j : ℕ) (zs : List ℤ) → IsSorted ascends (nonzero F round j zs)
    unfolding nonzero enumerate
    nonzero-IsSorted j [] = tt
    nonzero-IsSorted j (pos zero ∷ zs) = nonzero-IsSorted (suc j) zs
    nonzero-IsSorted j (pos (suc n) ∷ zs) =
        rw (nonzero_kept j n zs)
          (nonzero_above j (suc j) zs (ground arith), nonzero-IsSorted (suc j) zs)
    nonzero-IsSorted j (negsuc n ∷ zs) = rw (nonzero_dropped j n zs) (nonzero-IsSorted (suc j) zs)
