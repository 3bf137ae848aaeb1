-- ===== src/Models/Sql.antt =====
-- `compile_index_sql` of planrace/models_v2.py: an index as SQLite DDL. SQL is a list of code points.
pub mod Quoting
mod Tests
use mathlib.Core.List.{flat_map}
use planrace_subnet.Prelude.{
  ℕ, suc, String, Bool, true, false, Option, none, some, List, [], ◌∷◌, ◌++◌, map, Result, ok, err,
  ◌>>=◌, ◌>>◌, ◌==◌, nat_eq, take, drop, length, list_beq, if◌then◌else◌,
}
use planrace_subnet.Prelude.Int.{ℤ, pos, negsuc}
use planrace_subnet.Digest.{DigestError, domain_separated_digest}
use planrace_subnet.Digest.Payload.{codes, decimal, join}
use planrace_subnet.Models.Index.{
  PredicateLiteral, integer_literal, text_literal, boolean_literal, null_literal, Operator, eq, ne,
  lt, lte, gt, gte, is_null, is_not_null, Direction, asc, desc, PredicateAtom, IndexColumn,
  IndexSpec, index_json,
}

pub data SqlError : Type 0 where
  null_outside_operator : SqlError
  digest : DigestError → SqlError

abbrev lift_digest {ℓ} : {A : Type ℓ} → Result DigestError A → Result SqlError A
lift_digest (ok a) = ok a
lift_digest (err e) = err (digest e)

-- `_quote_identifier`
pub quote_identifier : String → List ℕ
quote_identifier value = 34 ∷ (codes value ++ 34 ∷ [])

-- `value.replace("'", "''")`, one character at a time
pub doubled : ℕ → List ℕ
doubled c = if c == 39 then 39 ∷ 39 ∷ [] else c ∷ []

integer_text : ℤ → List ℕ
integer_text (pos n) = decimal n
integer_text (negsuc n) = 45 ∷ decimal (suc n)

-- `_compile_literal`
pub compile_literal : PredicateLiteral → Result SqlError (List ℕ)
unfolding integer_text
compile_literal (integer_literal n) = ok (integer_text n)
compile_literal (boolean_literal b) = ok (codes (if b then "1" else "0"))
compile_literal (text_literal s) = ok (39 ∷ (flat_map doubled (codes s) ++ 39 ∷ []))
compile_literal null_literal = err null_outside_operator

abbrev operator_sql : Operator → String
operator_sql eq = "="
operator_sql ne = "!="
operator_sql lt = "<"
operator_sql lte = "<="
operator_sql gt = ">"
operator_sql gte = ">="
operator_sql _ = ""

comparison : PredicateAtom → Result SqlError (List ℕ)
unfolding quote_identifier compile_literal
comparison a = do
  literal ← compile_literal a.value
  ok (quote_identifier a.column ++ 32 ∷ (codes (operator_sql a.operator) ++ 32 ∷ literal))

-- `_compile_predicate`
pub compile_predicate : PredicateAtom → Result SqlError (List ℕ)
unfolding comparison
compile_predicate a = elim a.operator [
  | is_null ↦ ok (quote_identifier a.column ++ codes " IS NULL")
  | is_not_null ↦ ok (quote_identifier a.column ++ codes " IS NOT NULL")
  | _ ↦ comparison a
]

pub compile_atoms : List PredicateAtom → Result SqlError (List (List ℕ))
unfolding compile_predicate
compile_atoms [] = ok []
compile_atoms (a ∷ as') = do x ← compile_predicate a; xs ← compile_atoms as'; ok (x ∷ xs)

-- The WHERE clause of a partial index.
compile_where : Option (List PredicateAtom) → Result SqlError (List ℕ)
unfolding compile_atoms
compile_where none = ok []
compile_where (some atoms) = do
  xs ← compile_atoms atoms
  ok (codes " WHERE " ++ join (codes " AND ") xs)

abbrev direction_sql : Direction → String
direction_sql asc = "ASC"
direction_sql desc = "DESC"

column_sql : IndexColumn → List ℕ
column_sql c = quote_identifier c.column ++ 32 ∷ codes (direction_sql c.direction)

remove_prefix : List ℕ → List ℕ → List ℕ
remove_prefix p s = if list_beq (take (length p) s) p then drop (length p) s else s

module _ (sha256 : List ℕ → String) where
  -- `validator_index_name`
  pub validator_index_name : IndexSpec → Result DigestError (List ℕ)
  unfolding remove_prefix
  validator_index_name s = do
    d ← domain_separated_digest sha256 "planrace/2:index-name" (index_json s)
    ok (codes "planrace_" ++ take 20 (remove_prefix (codes "sha256:") (codes d)))

  pub compile_index_sql : IndexSpec → Result SqlError (List ℕ)
  unfolding validator_index_name compile_where column_sql quote_identifier
  compile_index_sql s = do
    name ← lift_digest (validator_index_name s)
    condition ← compile_where s.predicate
    let columns = map column_sql s.key_columns ++ map quote_identifier s.include_columns
    ok (
        codes "CREATE "
        ++ (codes (if s.unique then "UNIQUE " else "")
            ++ (codes "INDEX \""
                ++ (name
                    ++ (codes "\" ON "
                        ++ (quote_identifier s.table
                            ++ (codes " ("
                                ++ (join (codes ", ") columns ++ (codes ")" ++ condition)))))))))
