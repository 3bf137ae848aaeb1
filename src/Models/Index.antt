-- ===== src/Models/Index.antt =====
-- The structured indexes of planrace/models_v2.py: literals, predicates, columns and `IndexSpec`.
use planrace_subnet.Prelude.{
  String, Bool, true, false, not, ◌&&◌, ◌||◌, Option, none, some, List, [], ◌∷◌, ◌++◌, map, Result,
  ok, ◌>>◌, raise_if, length, all, ltb, ◌==◌, nat_eq, string_eq, distinct,
}
use planrace_subnet.Prelude.Int.{ℤ}
use planrace_subnet.Digest.Payload.{Json, null, bool, int, str, array, object}
use planrace_subnet.Models.Texts.{
  ModelError, bad_text, null_literal_misplaced, bad_predicate, repeated_column, unique_with_tail,
  bad_columns, is_safe_identifier, has_length,
}

-- `PredicateLiteral`
pub data PredicateLiteral : Type 0 where
  integer_literal : ℤ → PredicateLiteral
  text_literal : String → PredicateLiteral
  boolean_literal : Bool → PredicateLiteral
  null_literal : PredicateLiteral

pub data Operator : Type 0 where
  eq ne lt lte gt gte is_null is_not_null : Operator

pub data Direction : Type 0 where
  asc desc : Direction

pub record PredicateAtom : Type 0 where
  pub column : String
  pub operator : Operator
  pub value : PredicateLiteral

pub record IndexColumn : Type 0 where
  pub column : String
  pub direction : Direction

-- `predicate` holds the atoms of the `PredicateExpression`.
pub record IndexSpec : Type 0 where
  pub table : String
  pub key_columns : List IndexColumn
  pub include_columns : List String
  pub unique : Bool
  pub predicate : Option (List PredicateAtom)

abbrev pub is_null_literal : PredicateLiteral → Bool
is_null_literal null_literal = true
is_null_literal _ = false

abbrev pub is_null_operator : Operator → Bool
is_null_operator is_null = true
is_null_operator is_not_null = true
is_null_operator _ = false

-- The constraints of the fields and `validate_null_operator`.
abbrev text_fits : PredicateLiteral → Bool
text_fits (text_literal s) = has_length 0 256 s
text_fits _ = true

pub check_atom : PredicateAtom → Result ModelError (Unit {0})
check_atom a = do
  raise_if (not (is_safe_identifier a.column) || not (text_fits a.value)) bad_text
  let literal = is_null_literal a.value
  let operator = is_null_operator a.operator
  raise_if (literal && not operator || operator && not literal) null_literal_misplaced

pub check_atoms : List PredicateAtom → Result ModelError (Unit {0})
unfolding check_atom
check_atoms [] = ok tt
check_atoms (a ∷ as') = do check_atom a; check_atoms as'

-- `PredicateExpression`
pub check_predicate : Option (List PredicateAtom) → Result ModelError (Unit {0})
unfolding check_atoms
check_predicate none = ok tt
check_predicate (some atoms) = do
  check_atoms atoms
  raise_if (ltb (length atoms) 1 || ltb 8 (length atoms)) bad_predicate

-- The constraints of the fields and `reject_duplicate_columns`.
pub check_index : IndexSpec → Result ModelError (Unit {0})
unfolding check_predicate
check_index s = do
  raise_if
      (not (is_safe_identifier s.table)
        || not (all (λ c. is_safe_identifier c.column) s.key_columns)
        || not (all is_safe_identifier s.include_columns))
      bad_text
  raise_if
      (ltb (length s.key_columns) 1
        || ltb 8 (length s.key_columns)
        || ltb 8 (length s.include_columns))
      bad_columns
  check_predicate s.predicate
  raise_if (not (distinct (map (λ c. c.column) s.key_columns ++ s.include_columns))) repeated_column
  raise_if (s.unique && not (length s.include_columns == 0)) unique_with_tail

-- `model_dump(mode="json")`
abbrev pub literal_json : PredicateLiteral → Json
literal_json (integer_literal n) = object (("kind", str "integer") ∷ ("value", int n) ∷ [])
literal_json (text_literal s) = object (("kind", str "text") ∷ ("value", str s) ∷ [])
literal_json (boolean_literal b) = object (("kind", str "boolean") ∷ ("value", bool b) ∷ [])
literal_json null_literal = object (("kind", str "null") ∷ [])

abbrev pub operator_text : Operator → String
operator_text eq = "eq"
operator_text ne = "ne"
operator_text lt = "lt"
operator_text lte = "lte"
operator_text gt = "gt"
operator_text gte = "gte"
operator_text is_null = "is_null"
operator_text is_not_null = "is_not_null"

abbrev direction_text : Direction → String
direction_text asc = "asc"
direction_text desc = "desc"

abbrev pub atom_json : PredicateAtom → Json
atom_json a = object (
    ("column", str a.column)
    ∷ ("operator", str (operator_text a.operator))
    ∷ ("value", literal_json a.value)
    ∷ [])

abbrev column_json : IndexColumn → Json
column_json c =
    object (("column", str c.column) ∷ ("direction", str (direction_text c.direction)) ∷ [])

abbrev pub predicate_json : Option (List PredicateAtom) → Json
predicate_json none = null
predicate_json (some atoms) =
    object (("conjunction", str "and") ∷ ("atoms", array (map atom_json atoms)) ∷ [])

abbrev pub index_json : IndexSpec → Json
index_json s = object (
    ("table", str s.table)
    ∷ ("key_columns", array (map column_json s.key_columns))
    ∷ ("include_columns", array (map str s.include_columns))
    ∷ ("unique", bool s.unique)
    ∷ ("predicate", predicate_json s.predicate)
    ∷ [])
