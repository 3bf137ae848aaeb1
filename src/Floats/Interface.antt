-- ===== src/Floats/Interface.antt =====
-- Python's floats as an interface: the type, its operations, and the few laws of IEEE arithmetic
-- that the theorems use.
use planrace_subnet.Prelude.{ℕ, ◌≡◌, Bool, true, false, Option, some, List, ◌∷◌, leb, all}

pub record Floats : Type 1 where
  pub Float : Type 0
  -- `float(n)`, and the literal n / 10 ^ k
  pub of_ℕ : ℕ → Float
  pub decimal : ℕ → ℕ → Float
  pub add : Float → Float → Float
  pub sub : Float → Float → Float
  pub mul : Float → Float → Float
  pub quotient : Float → Float → Float
  pub lt : Float → Float → Bool
  pub le : Float → Float → Bool
  pub eq : Float → Float → Bool
  pub is_finite : Float → Bool
  -- `int(x)` of a float that is not negative
  pub trunc : Float → ℕ
  pub sqrt : Float → Float
  -- `x ** 2`
  pub square : Float → Float
  -- `math.log2`, `math.log` and `math.exp`, `none` where they raise ValueError or OverflowError
  pub log2 : Float → Option Float
  pub log : Float → Option Float
  pub exp : Float → Option Float
  -- `2.0 ** x` and `math.fsum`, `none` where they raise OverflowError
  pub pow2 : Float → Option Float
  pub fsum : List Float → Option Float
  -- laws of IEEE comparisons
  pub le_of_lt : (x y : Float) → lt x y ≡ true → le x y ≡ true
  pub le_of_ℕ : (m n : ℕ) → leb m n ≡ true → le (of_ℕ m) (of_ℕ n) ≡ true
  pub lt_irrefl : (x : Float) → lt x x ≡ false
  pub lt_asymm : (x y : Float) → lt x y ≡ true → le y x ≡ false
  -- sums of positive numbers
  pub add_pos :
      (x y : Float) → le (of_ℕ 0) x ≡ true → lt (of_ℕ 0) y ≡ true → lt (of_ℕ 0) (add x y) ≡ true
  pub fsum_pos :
      (x : Float) (xs : List Float) (total : Float)
      → all (λ y. lt (of_ℕ 0) y) (x ∷ xs) ≡ true
      → fsum (x ∷ xs) ≡ some total
      → le total (of_ℕ 0) ≡ false
