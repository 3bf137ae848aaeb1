-- ===== src/Floats.antt =====
-- Python's partial operations on floats, over the interface: they return a `Result`.
pub mod Interface
pub mod Fixed
pub use Interface.{Floats}
use planrace_subnet.Prelude.{
  ℕ, ◌≡◌, ◌⊎◌, Bool, true, false, Option, none, some, List, Result, ok, err, leb, if◌then◌else◌,
}

pub data FloatError : Type 0 where
  zero_division overflow math_domain : FloatError

module _ (F : Floats) where
  open F use {Float, of_ℕ, quotient, lt, eq, log2, log, exp, pow2, fsum}

  unfoldable pub or_raise {ℓ} : {A : Type ℓ} → Option A → FloatError → Result FloatError A
  or_raise none e = err e
  or_raise (some a) e = ok a

  -- `x / y`
  unfoldable pub divide : Float → Float → Result FloatError Float
  divide x y = if eq y (of_ℕ 0) then err zero_division else ok (quotient x y)

  -- `max(x, y)` and `min(x, y)`: the first unless the second is better
  unfoldable pub fmax : Float → Float → Float
  fmax x y = if lt x y then y else x

  unfoldable pub fmin : Float → Float → Float
  fmin x y = if lt y x then y else x
