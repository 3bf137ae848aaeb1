-- ===== src/Oracle/Limits.antt =====
-- The bounds of a canonical result, planrace/oracle_v2.py.
use planrace_subnet.Prelude.{
  ℕ, ◌*◌, ◌+◌, ◌≤◌, ◌≡◌, refl, String, true, Option, List, [], ◌∷◌, map, ok, length, arith, inl,
  inr, Result-cases, length-map, all,
}
use planrace_subnet.Prelude.Int.{ℤ}
use planrace_subnet.Prelude.Bytes.{bytes_le}
use planrace_subnet.Prelude.Sort.{insert_sorted, sort}
use planrace_subnet.Oracle.Cells.{FloatTexts}
use planrace_subnet.Oracle.{
  ResultPolicy, CanonicalResult, Description, Row, cells, not_sequence, arranged, assemble,
  canonical_lines, canonicalize_result, encode_row, digest_of,
}
use planrace_subnet.Oracle.Fits.{bytes_of, width, fits, cell_total, is_encodable}
use planrace_subnet.Oracle.Exact.{canonicalize_result_iff}

length-insert_sorted :
    (a : List ℕ) (xs : List (List ℕ)) → length (insert_sorted bytes_le a xs) ≡ length xs + 1
unfolding insert_sorted
length-insert_sorted a [] = omega arith
length-insert_sorted a (x ∷ xs) = ground (arith, length-insert_sorted a xs)

length-sort : (xs : List (List ℕ)) → length (sort bytes_le xs) ≡ length xs
unfolding sort
length-sort [] = refl
length-sort (x ∷ xs) = omega (arith, length-sort xs, length-insert_sorted x (sort bytes_le xs))

length-arranged : (p : ResultPolicy) (xs : List (List ℕ)) → length (arranged p xs) ≡ length xs
unfolding arranged
length-arranged p xs = ground (arith, length-sort xs)

module _ (F : FloatTexts) where
  open F use {Float}

  cell_total_lem :
      (n : ℕ) (rows : List (Row Float))
      → all (is_encodable F n) rows ≡ true
      → cell_total F rows ≡ length rows * n
  unfolding cell_total is_encodable width
  cell_total_lem n [] h = omega arith
  cell_total_lem n (not_sequence ∷ rows) h = cc
  cell_total_lem n (cells row ∷ rows) h = elim (Result-cases (encode_row F row)) [
    | inr (e, bad) ↦ absurd (ground arith)
    | inl (bs, good) ↦
        let width : length row ≡ n = ground arith in ground (arith, cell_total_lem n rows)
  ]

module _ (sha256 : List ℕ → String) (F : FloatTexts) where
  open F use {Float}

  -- The fields of an assembled result.
  pub assemble_lem :
      (p : ResultPolicy) (n k : ℕ) (encoded : List (List ℕ)) (r : CanonicalResult)
      → assemble sha256 p n k encoded ≡ ok r
      → (r.row_count ≡ length encoded)
        × (r.column_count ≡ n)
        × (r.cell_count ≡ k)
        × (r.canonical_bytes ≡ canonical_lines p n encoded)
        × (length r.canonical_bytes ≤ p.max_output_bytes)
        × (digest_of sha256 r.canonical_bytes ≡ ok r.digest)
  unfolding assemble
  assemble_lem p n k encoded r h =
      elim (Result-cases (digest_of sha256 (canonical_lines p n encoded))) [
        | inr (e, bad) ↦ absurd (ground arith)
        | inl (d, good) ↦
            (ground arith, ground arith, ground arith, ground arith, ground arith, ground arith)
      ]

  -- A canonical result counts every row and every cell of its table, and the rows, the cells and
  -- the bytes are within the limits of the policy.
  pub canonicalize_result_limits :
      (p : ResultPolicy) (d : Description) (z : Option ℤ) (rows : List (Row Float))
      (r : CanonicalResult)
      → canonicalize_result sha256 F p d z rows ≡ ok r
      → (r.row_count ≡ length rows)
        × (r.cell_count ≡ r.row_count * r.column_count)
        × (r.row_count ≤ p.max_rows)
        × (r.cell_count ≤ p.max_cells)
        × (length r.canonical_bytes ≤ p.max_output_bytes)
  unfolding fits
  canonicalize_result_limits p d z rows r h =
      let i = (canonicalize_result_iff sha256 F p d z rows r).0 h in
      let (rows_eq, columns_eq, cells_eq, _, size, _) = assemble_lem p i.count _ _ r i.assembled in
      let within = i.within in
      let total = cell_total_lem F i.count rows (ground arith) in
      let length_eq = length-arranged p (map (bytes_of F) rows) in
      let mapped = length-map (bytes_of F) rows in
      (
        omega arith,
        rw (cells_eq, rows_eq, columns_eq, length_eq, mapped) total,
        ground arith,
        ground arith,
        size,
      )
