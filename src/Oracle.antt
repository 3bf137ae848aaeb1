-- ===== src/Oracle.antt =====
-- The exact-result oracle of planrace/oracle_v2.py: the canonical bytes of a result, under a
-- policy, and the comparison of two results. SHA-256 is a parameter.
pub mod Cells
pub mod Fits
pub mod Exact
pub mod Limits
pub mod Reorder
pub mod Read
pub mod Compare
mod Tests
use planrace_subnet.Prelude.{
  ℕ, suc, ◌+◌, String, Bool, true, false, not, Option, none, some, List, [], ◌∷◌, ◌++◌, map, Result,
  ok, err, ◌>>=◌, ◌>>◌, raise_if, sequence, ltb, length, mem, ◌==◌, nat_eq, string_eq,
  if◌then◌else◌,
}
use planrace_subnet.Prelude.Int.{ℤ, pos, negsuc}
use planrace_subnet.Prelude.Bytes.{bytes_le}
use planrace_subnet.Prelude.Sort.{sort}
use planrace_subnet.Digest.{DigestError, frame}
use planrace_subnet.Digest.Payload.{
  Json, str, number, object, codes, quoted, quoted_codes, join, dumps, utf8_all,
}
use planrace_subnet.Oracle.Cells.{
  ResultError, bad_engine, bad_collation, bad_bounds, row_limit, cell_limit, output_limit,
  unsupported_row, inconsistent_columns, no_columns, malformed_description, negative_projection,
  projection_mismatch, too_long_to_frame, FloatTexts, Cell, encode_cell,
}
use Prim.Native.String.{◌++◌ as concat}

abbrev pub pinned_sqlite_engine : String
pinned_sqlite_engine = "sqlite-3.46.1"

pub record ResultPolicy : Type 0 where
  pub engine : String
  pub ordered : Bool
  pub collation : String
  pub max_rows : ℕ
  pub max_cells : ℕ
  pub max_output_bytes : ℕ

-- `ResultPolicy.__post_init__`; negative bounds are outside the model.
pub check_result_policy : ResultPolicy → Result ResultError (Unit {0})
check_result_policy p = do
  raise_if (not (p.engine == pinned_sqlite_engine)) bad_engine
  raise_if (not (mem p.collation ("sqlite-binary" ∷ "sqlite-nocase" ∷ "sqlite-rtrim" ∷ [])))
      bad_collation
  raise_if (ltb p.max_output_bytes 256) bad_bounds

pub record CanonicalResult : Type 0 where
  pub digest : String
  pub row_count : ℕ
  pub column_count : ℕ
  pub cell_count : ℕ
  pub canonical_bytes : List ℕ

-- `getattr(rows, "description", None)`: absent, a sequence of this length, or of another type
pub data Description : Type 0 where
  absent malformed : Description
  columns : ℕ → Description

-- `_projection_count_from_cursor`
pub projection_count_from_cursor : Description → Result ResultError (Option ℕ)
projection_count_from_cursor absent = ok none
projection_count_from_cursor malformed = err malformed_description
projection_count_from_cursor (columns n) = ok (some n)

-- `_validate_projection_column_count`
pub validate_projection_column_count : ResultPolicy → ℤ → Result ResultError ℕ
validate_projection_column_count p (negsuc n) = err negative_projection
validate_projection_column_count p (pos n) = do raise_if (ltb p.max_cells n) cell_limit; ok n

abbrev pub disagrees : Option ℕ → ℕ → Bool
disagrees none n = false
disagrees (some m) n = not (m == n)

-- The number of columns that is known before the first row.
pub declared_columns : ResultPolicy → Description → Option ℤ → Result ResultError (Option ℕ)
unfolding projection_count_from_cursor validate_projection_column_count
declared_columns p d none = projection_count_from_cursor d
declared_columns p d (some z) = do
  cursor ← projection_count_from_cursor d
  n ← validate_projection_column_count p z
  raise_if (disagrees cursor n) projection_mismatch
  ok (some n)

-- The loop's variables.
pub record Scan : Type 0 where
  pub column_count : Option ℕ
  pub cell_count : ℕ
  pub running_size : ℕ
  pub encoded_rows : List (List ℕ)

abbrev pub cell_json : String × List ℕ → List ℕ
cell_json (tag, content) = 91 ∷ (quoted tag ++ (44 ∷ (quoted_codes content ++ 93 ∷ [])))

-- `_canonical_json` of the encoded cells of a row
pub row_bytes : List (String × List ℕ) → List ℕ
row_bytes cells = utf8_all (91 ∷ (join (44 ∷ []) (map cell_json cells) ++ 93 ∷ []))

pub header_bytes : ResultPolicy → ℕ → ℕ → List ℕ
header_bytes p column_count row_count = utf8_all (
    dumps (
      object (
        ("collation", str p.collation)
        ∷ ("column_count", number column_count)
        ∷ ("engine", str p.engine)
        ∷ ("order", str (if p.ordered then "ordered" else "multiset"))
        ∷ ("protocol", str "planrace/2")
        ∷ ("row_count", number row_count)
        ∷ [])))

-- The header line and the lines of the rows.
pub canonical_lines : ResultPolicy → ℕ → List (List ℕ) → List ℕ
unfolding header_bytes
canonical_lines p column_count encoded =
    header_bytes p column_count (length encoded) ++ (10 ∷ join (10 ∷ []) encoded)

abbrev pub scan_start : Option ℕ → Scan
scan_start n = record { column_count = n; cell_count = 0; running_size = 0; encoded_rows = [] }

-- The rows in the order of the engine, or sorted.
pub arranged : ResultPolicy → List (List ℕ) → List (List ℕ)
arranged p encoded = if p.ordered then encoded else sort bytes_le encoded

-- What a row of the result is: a sequence of cells, or not a sequence.
pub data Row (Float : Type 0) : Type 0 where
  cells : List (Cell Float) → Row Float
  not_sequence : Row Float

module _ (F : FloatTexts) where
  open F use {Float}

  pub encode_row : List (Cell Float) → Result ResultError (List ℕ)
  unfolding row_bytes encode_cell
  encode_row row = do encoded ← sequence (map (encode_cell F) row); ok (row_bytes encoded)

  -- The checks of one row whose cells are known, and its place in the result.
  pub take_row : ResultPolicy → List (Cell Float) → Scan → Result ResultError Scan
  take_row p row s = do
    let count = s.cell_count + length row
    raise_if (disagrees s.column_count (length row)) inconsistent_columns
    raise_if (ltb p.max_cells count) cell_limit
    encoded ← encode_row row
    let size = s.running_size + length encoded
    raise_if (ltb p.max_output_bytes size) output_limit
    ok (record {
      column_count = some (length row);
      cell_count = count;
      running_size = size;
      encoded_rows = s.encoded_rows ++ encoded ∷ [];
    })

  -- One turn of the loop.
  pub scan_row : ResultPolicy → Row Float → Scan → Result ResultError Scan
  unfolding take_row
  scan_row p r s = do
    raise_if (ltb p.max_rows (suc (length s.encoded_rows))) row_limit
    elim r [ not_sequence ↦ err unsupported_row | cells row ↦ take_row p row s ]

  pub scan : ResultPolicy → List (Row Float) → Scan → Result ResultError Scan
  scan p [] s = ok s
  scan p (r ∷ rs) s = scan_row p r s >>= scan p rs

-- The end of `canonicalize_result`: the order, the header and the digest.
module _ (sha256 : List ℕ → String) where
  pub digest_of : List ℕ → Result ResultError String
  digest_of canonical = elim (frame (codes "planrace/2:exact-result") canonical) [
    | err _ ↦ err too_long_to_frame
    | ok framed ↦ ok (concat "sha256:" (sha256 framed))
  ]

  pub assemble : ResultPolicy → ℕ → ℕ → List (List ℕ) → Result ResultError CanonicalResult
  unfolding digest_of
  assemble p column_count cell_count encoded = do
    let canonical = canonical_lines p column_count encoded
    raise_if (ltb p.max_output_bytes (length canonical)) output_limit
    digest ← digest_of canonical
    ok (record {
      digest = digest;
      row_count = length encoded;
      column_count = column_count;
      cell_count = cell_count;
      canonical_bytes = canonical;
    })

  pub conclude : ResultPolicy → Scan → Result ResultError CanonicalResult
  conclude p s = elim s.column_count [
    | none ↦ err no_columns
    | some n ↦ assemble p n s.cell_count (arranged p s.encoded_rows)
  ]

  module _ (F : FloatTexts) where
    open F use {Float}

    pub canonicalize_result :
        ResultPolicy
        → Description
        → Option ℤ
        → List (Row Float)
        → Result ResultError CanonicalResult
    canonicalize_result p description projection rows = do
      declared ← declared_columns p description projection
      s ← scan F p rows (scan_start declared)
      conclude p s

    pub exact_results_equal :
        ResultPolicy
        → Option ℤ
        → Description × List (Row Float)
        → Description × List (Row Float)
        → Result ResultError Bool
    exact_results_equal p projection reference candidate = do
      a ← canonicalize_result p reference.0 projection reference.1
      b ← canonicalize_result p candidate.0 projection candidate.1
      ok (a.digest == b.digest)
