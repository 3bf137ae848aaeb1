-- ===== src/Digest/Payload.antt =====
-- `json.dumps(value, ensure_ascii=False, sort_keys=True, separators=(",", ":"))` as code points.
pub mod Reading
pub mod Lines
use Prim.Native.Char.{code}
use Prim.Native.String.{compare}
use Prim.Native.Nat.{Ordering}
use mathlib.Core.List.{flat_map}
use planrace_subnet.Prelude.{
  ℕ, zero, suc, ◌+◌, ◌-◌, ◌/◌, ◌%◌, String, Bool, true, false, ◌||◌, List, [], ◌∷◌, ◌++◌, map, ltb,
  ◌==◌, nat_eq, if◌then◌else◌,
}
use planrace_subnet.Prelude.Int.{ℤ, pos, negsuc}
use planrace_subnet.Prelude.Sort.{sort}

-- A `float` is what a canonical payload may not hold.
mutual
  pub data Json : Type 0 where
    null : Json
    bool : Bool → Json
    int : ℤ → Json
    float : Json
    str : String → Json
    arr : Items → Json
    obj : Fields → Json

  pub data Items : Type 0 where
    nil : Items
    cons : Json → Items → Items

  pub data Fields : Type 0 where
    end : Fields
    field : String → Json → Fields → Fields

abbrev items : List Json → Items
items [] = nil
items (x ∷ xs) = cons x (items xs)

abbrev fields : List (String × Json) → Fields
fields [] = end
fields ((k, v) ∷ kvs) = field k v (fields kvs)

-- A Python list and a Python dict with text keys.
abbrev pub array : List Json → Json
array xs = arr (items xs)

abbrev pub object : List (String × Json) → Json
object kvs = obj (fields kvs)

abbrev pub number : ℕ → Json
number n = int (pos n)

abbrev pub codes : String → List ℕ
codes String.[] = []
codes (String.◌∷◌ c s) = code c ∷ codes s

abbrev pub text_le : String → String → Bool
text_le s t = elim (compare s t) [ Ordering.gt ↦ false | _ ↦ true ]

-- The decimal digits of a number, on fuel above its size.
pub digits : ℕ → ℕ → List ℕ → List ℕ
digits zero n acc = acc
digits (suc fuel) n acc =
    let acc' = (b'0' + n % 10) ∷ acc in
    elim (ltb n 10) [ true ↦ acc' | false ↦ digits fuel (n / 10) acc' ]

unfoldable pub decimal : ℕ → List ℕ
unfolding digits
decimal n = digits (suc n) n []

pub hex_digit : ℕ → ℕ
hex_digit n = if ltb n 10 then b'0' + n else b'a' + (n - 10)

-- The characters that JSON text must escape.
pub escape : ℕ → List ℕ
unfolding hex_digit
escape c =
    if c == 34
    then 92 ∷ 34 ∷ []
    else if c == 92
    then 92 ∷ 92 ∷ []
    else if c == 10
    then 92 ∷ b'n' ∷ []
    else if c == 13
    then 92 ∷ b'r' ∷ []
    else if c == 9
    then 92 ∷ b't' ∷ []
    else if c == 12
    then 92 ∷ b'f' ∷ []
    else if c == 8
    then 92 ∷ b'b' ∷ []
    else if ltb c 32
    then 92 ∷ b'u' ∷ b'0' ∷ b'0' ∷ hex_digit (c / 16) ∷ hex_digit (c % 16) ∷ []
    else c ∷ []

-- JSON text of a list of code points
unfoldable pub quoted_codes : List ℕ → List ℕ
unfolding escape
quoted_codes cs = 34 ∷ (flat_map escape cs ++ 34 ∷ [])

unfoldable pub quoted : String → List ℕ
unfolding quoted_codes
quoted s = quoted_codes (codes s)

unfoldable pub join : List ℕ → List (List ℕ) → List ℕ
join sep [] = []
join sep (x ∷ []) = x
join sep (x ∷ xs) = x ++ (sep ++ join sep xs)

abbrev pub pair : String × List ℕ → List ℕ
pair (k, v) = quoted k ++ 58 ∷ v

unfoldable mutual
  pub dumps : Json → List ℕ
  dumps null = codes "null"
  dumps (bool true) = codes "true"
  dumps (bool false) = codes "false"
  dumps (int (pos n)) = decimal n
  dumps (int (negsuc n)) = 45 ∷ decimal (suc n)
  dumps float = []
  dumps (str s) = quoted s
  dumps (arr xs) = 91 ∷ (join (44 ∷ []) (dumps_items xs) ++ 93 ∷ [])
  dumps (obj fs) =
      123
      ∷ (join (44 ∷ []) (map pair (sort (λ a b. text_le a.0 b.0) (dumps_fields fs))) ++ 125 ∷ [])

  pub dumps_items : Items → List (List ℕ)
  dumps_items nil = []
  dumps_items (cons x xs) = dumps x ∷ dumps_items xs

  pub dumps_fields : Fields → List (String × List ℕ)
  dumps_fields end = []
  dumps_fields (field k v fs) = (k, dumps v) ∷ dumps_fields fs

-- `_assert_canonical_value`: whether a float stands anywhere in the value.
unfoldable mutual
  pub has_float : Json → Bool
  has_float float = true
  has_float (arr xs) = has_float_items xs
  has_float (obj fs) = has_float_fields fs
  has_float _ = false

  pub has_float_items : Items → Bool
  has_float_items nil = false
  has_float_items (cons x xs) = has_float x || has_float_items xs

  pub has_float_fields : Fields → Bool
  has_float_fields end = false
  has_float_fields (field k v fs) = has_float v || has_float_fields fs

-- The UTF-8 bytes of a code point.
pub utf8 : ℕ → List ℕ
utf8 c =
    if ltb c 0x80
    then c ∷ []
    else if ltb c 0x800
    then (0xc0 + c / 64) ∷ (0x80 + c % 64) ∷ []
    else if ltb c 0x10000
    then (0xe0 + c / 4096) ∷ (0x80 + c / 64 % 64) ∷ (0x80 + c % 64) ∷ []
    else (0xf0 + c / 262144) ∷ (0x80 + c / 4096 % 64) ∷ (0x80 + c / 64 % 64) ∷ (0x80 + c % 64) ∷ []

-- `text.encode("utf-8")`
unfoldable pub utf8_all : List ℕ → List ℕ
unfolding utf8
utf8_all = flat_map utf8
