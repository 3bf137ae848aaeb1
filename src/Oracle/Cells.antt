-- ===== src/Oracle/Cells.antt =====
-- The cells of a result and their canonical encoding, planrace/oracle_v2.py: `_encode_cell`,
-- `_canonical_decimal`. A float's classification and its exact text are parameters; base64 and
-- the normal form of a decimal under the default context, of 28 digits, are written out.
use planrace_subnet.Prelude.{
  ℕ, zero, suc, ◌+◌, ◌-◌, ◌*◌, ◌/◌, ◌%◌, ◌^◌, String, Bool, true, false, not, ◌&&◌, ◌||◌, List, [],
  ◌∷◌, ◌++◌, Result, ok, err, ltb, ◌==◌, nat_eq, if◌then◌else◌, length, replicate, take, drop,
}
use planrace_subnet.Prelude.Int.{ℤ, pos, negsuc, ◌+ℤ◌}
use planrace_subnet.Digest.Payload.{codes, decimal}

-- The errors of the oracle, and those of the constructor of a policy.
pub data ResultError : Type 0 where
  bad_engine bad_collation bad_bounds : ResultError
  row_limit cell_limit output_limit : ResultError
  unsupported_row unsupported_cell : ResultError
  inconsistent_columns no_columns malformed_description : ResultError
  negative_projection projection_mismatch too_long_to_frame : ResultError

-- What is used of Python's floats: `math.isnan`, `math.isinf`, `> 0` and `float.hex`.
pub record FloatTexts : Type 1 where
  pub Float : Type 0
  pub is_nan : Float → Bool
  pub is_infinite : Float → Bool
  pub is_positive : Float → Bool
  pub hex : Float → List ℕ

-- `decimal.Decimal`: ± coefficient × 10 ^ exponent, or a special value
pub data Decimal : Type 0 where
  finite : (negative : Bool) (coefficient : ℕ) (exponent : ℤ) → Decimal
  infinity : (negative : Bool) → Decimal
  nan : Decimal

-- `Decimal.normalize`: rounds half to even to 28 digits.
rounded : ℕ → ℤ → ℕ × ℤ
rounded c e =
    let k = length (decimal c) - 28 in
    let q = c / 10 ^ k in
    let r = c % 10 ^ k in
    if k == 0
    then (c, e)
    else (if ltb (10 ^ k) (2 * r) || (2 * r == 10 ^ k && q % 2 == 1) then q + 1 else q, e +ℤ pos k)

-- Strips the zeros at the end, on fuel above the number of digits.
strip_zeros : ℕ → ℕ → ℤ → ℕ × ℤ
strip_zeros zero c e = (c, e)
strip_zeros (suc fuel) c e =
    let rest = strip_zeros fuel (c / 10) (e +ℤ pos 1) in
    elim (c % 10 == 0 && not (c == 0)) [ true ↦ rest | false ↦ (c, e) ]

pub normalize : ℕ → ℤ → ℕ × ℤ
unfolding rounded strip_zeros
normalize c e = let (c', e') = rounded c e in strip_zeros (length (decimal c')) c' e'

-- `format(value, "f")` of c × 10 ^ e; no zero stands at its end after the point.
fixed_point : ℕ → ℤ → List ℕ
fixed_point c (pos n) = decimal c ++ replicate n b'0'
fixed_point c (negsuc n) =
    let ds = decimal c in
    let padded = replicate (suc (suc n) - length ds) b'0' ++ ds in
    let whole = length padded - suc n in take whole padded ++ (46 ∷ drop whole padded)

signed : Bool → List ℕ → List ℕ
signed negative text = if negative then 45 ∷ text else text

-- `_canonical_decimal`
unfoldable pub canonical_decimal : Decimal → List ℕ
unfolding normalize fixed_point signed
canonical_decimal nan = codes "nan"
canonical_decimal (infinity negative) = codes (if negative then "-infinity" else "+infinity")
canonical_decimal (finite negative c e) =
    if c == 0
    then signed negative (codes "0")
    else let (c', e') = normalize c e in signed negative (fixed_point c' e')

base64_digit : ℕ → ℕ
base64_digit n =
    if ltb n 26
    then b'A' + n
    else if ltb n 52
    then b'a' + (n - 26)
    else if ltb n 62
    then b'0' + (n - 52)
    else if n == 62
    then 43
    else 47

-- `base64.b64encode`
unfoldable pub base64 : List ℕ → List ℕ
unfolding base64_digit
base64 [] = []
base64 (a ∷ []) = base64_digit (a / 4) ∷ base64_digit (a % 4 * 16) ∷ 61 ∷ 61 ∷ []
base64 (a ∷ b ∷ []) =
    base64_digit (a / 4) ∷ base64_digit (a % 4 * 16 + b / 16) ∷ base64_digit (b % 16 * 4) ∷ 61 ∷ []
base64 (a ∷ b ∷ c ∷ rest) =
    base64_digit (a / 4)
    ∷ base64_digit (a % 4 * 16 + b / 16)
    ∷ base64_digit (b % 16 * 4 + c / 64)
    ∷ base64_digit (c % 64)
    ∷ base64 rest

-- `str(n)`
pub int_text : ℤ → List ℕ
int_text (pos n) = decimal n
int_text (negsuc n) = 45 ∷ decimal (suc n)

-- The types that a cell may have. `blob` stands for `bytes`, `bytearray` and `memoryview`.
pub data Cell (Float : Type 0) : Type 0 where
  null other : Cell Float
  bool : Bool → Cell Float
  int : ℤ → Cell Float
  decimal_number : Decimal → Cell Float
  float : Float → Cell Float
  text : String → Cell Float
  blob : List ℕ → Cell Float

module _ (F : FloatTexts) where
  open F use {Float, is_nan, is_infinite, is_positive, hex}

  pub float_text : Float → List ℕ
  float_text x =
      if is_nan x
      then codes "nan"
      else if is_infinite x
      then codes (if is_positive x then "+infinity" else "-infinity")
      else hex x

  -- `_encode_cell`: a tag and a text, or no encoding
  unfoldable pub encode_cell : Cell Float → Result ResultError (String × List ℕ)
  unfolding float_text int_text canonical_decimal base64
  encode_cell null = ok ("null", [])
  encode_cell (bool b) = ok ("integer", if b then b'1' ∷ [] else b'0' ∷ [])
  encode_cell (int n) = ok ("integer", int_text n)
  encode_cell (decimal_number d) = ok ("decimal", canonical_decimal d)
  encode_cell (float x) = ok ("float64", float_text x)
  encode_cell (text s) = ok ("string", codes s)
  encode_cell (blob bs) = ok ("blob-base64", base64 bs)
  encode_cell other = err unsupported_cell
