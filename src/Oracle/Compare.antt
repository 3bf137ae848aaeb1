-- ===== src/Oracle/Compare.antt =====
-- What `exact_results_equal` of planrace/oracle_v2.py compares: the tagged cells of every row.
use planrace_subnet.Prelude.{
  ℕ, ◌≡◌, ◌↔◌, refl, ap, sym, ◌∙◌, String, true, Option, List, [], ◌∷◌, ◌++◌, map, ok, err, arith,
  all, inl, inr, Result-cases, string_eq, sequence,
}
use planrace_subnet.Prelude.Int.{ℤ}
use planrace_subnet.Digest.Payload.{quoted, quoted_codes, join, utf8_all}
use planrace_subnet.Oracle.Cells.{FloatTexts, encode_cell}
use planrace_subnet.Oracle.{
  ResultPolicy, CanonicalResult, Description, Row, cells, not_sequence, arranged, canonical_lines,
  digest_of, encode_row, cell_json, row_bytes, canonicalize_result, exact_results_equal,
}
use planrace_subnet.Oracle.Fits.{bytes_of, fits, is_encodable}
use planrace_subnet.Oracle.Exact.{canonicalize_result_iff}
use planrace_subnet.Oracle.Limits.{assemble_lem}
use planrace_subnet.Oracle.Read.{tagged, canonical_lines-injective, rows-injective}

abbrev tagged_json : List ℕ × List ℕ → List ℕ
tagged_json (tag, content) = 91 ∷ (quoted_codes tag ++ (44 ∷ (quoted_codes content ++ 93 ∷ [])))

map-tagged_json : (cs : List (String × List ℕ)) → map cell_json cs ≡ map tagged_json (map tagged cs)
unfolding quoted
map-tagged_json [] = refl
map-tagged_json ((k, v) ∷ cs) = ap (λ r. cell_json (k, v) ∷ r) (map-tagged_json cs)

row_bytes_of_tagged :
    (cs ds : List (String × List ℕ)) → map tagged cs ≡ map tagged ds → row_bytes cs ≡ row_bytes ds
unfolding row_bytes
row_bytes_of_tagged cs ds e =
    ap (λ js. utf8_all (91 ∷ (join (44 ∷ []) js ++ 93 ∷ [])))
      (map-tagged_json cs ∙ (ap (map tagged_json) e ∙ sym (map-tagged_json ds)))

rows_of_tagged :
    (xs ys : List (List (String × List ℕ)))
    → map (map tagged) xs ≡ map (map tagged) ys
    → map row_bytes xs ≡ map row_bytes ys
rows_of_tagged [] [] e = refl
rows_of_tagged [] (y ∷ ys) e = ground arith
rows_of_tagged (x ∷ xs) [] e = ground arith
rows_of_tagged (x ∷ xs) (y ∷ ys) e = ground (arith, row_bytes_of_tagged x y, rows_of_tagged xs ys)

module _ (F : FloatTexts) where
  open F use {Float}

  -- The tag and the text of every cell, none for a row that has no encoding.
  cells_of : Row Float → List (String × List ℕ)
  cells_of not_sequence = []
  cells_of (cells row) = elim (sequence (map (encode_cell F) row)) [ ok cs ↦ cs | err _ ↦ [] ]

  pub contents : List (Row Float) → List (List (List ℕ × List ℕ))
  contents rows = map (map tagged) (map cells_of rows)

  bytes_of-cells_of :
      (n : ℕ) (rows : List (Row Float))
      → all (is_encodable F n) rows ≡ true
      → map (bytes_of F) rows ≡ map row_bytes (map cells_of rows)
  unfolding bytes_of cells_of is_encodable encode_row
  bytes_of-cells_of n [] h = refl
  bytes_of-cells_of n (not_sequence ∷ rows) h = cc
  bytes_of-cells_of n (cells row ∷ rows) h =
      elim (Result-cases (sequence (map (encode_cell F) row))) [
        | inr (e, bad) ↦ absurd (ground arith)
        | inl (cs, good) ↦ ground (arith, bytes_of-cells_of n rows)
      ]

module _ (sha256 : List ℕ → String) (F : FloatTexts) where
  open F use {Float}

  -- The bytes of an ordered result.
  ordered_lines :
      (p : ResultPolicy) (d : Description) (z : Option ℤ) (rows : List (Row Float))
      (r : CanonicalResult)
      → p.ordered ≡ true
      → canonicalize_result sha256 F p d z rows ≡ ok r
      → (r.canonical_bytes
          ≡ canonical_lines p r.column_count (map row_bytes (map (cells_of F) rows)))
        × (digest_of sha256 r.canonical_bytes ≡ ok r.digest)
  unfolding arranged fits
  ordered_lines p d z rows r o h =
      let i = (canonicalize_result_iff sha256 F p d z rows r).0 h in
      let within = i.within in
      let (_, columns_eq, _, bytes_eq, _, digest_eq) =
        assemble_lem sha256 F p i.count _ _ r i.assembled in
      let kept : arranged p (map (bytes_of F) rows) ≡ map row_bytes (map (cells_of F) rows) =
        ground (arith, bytes_of-cells_of F i.count rows) in
      (rw (columns_eq, ← kept) bytes_eq, digest_eq)

  module _ (p : ResultPolicy) (z : Option ℤ) (a b : Description × List (Row Float))
      (r s : CanonicalResult) where
    same_bytes_iff :
        p.ordered ≡ true
        → canonicalize_result sha256 F p a.0 z a.1 ≡ ok r
        → canonicalize_result sha256 F p b.0 z b.1 ≡ ok s
        → (r.canonical_bytes ≡ s.canonical_bytes)
          ↔ ((r.column_count ≡ s.column_count) × (contents F a.1 ≡ contents F b.1))
    unfolding contents
    same_bytes_iff o h k =
        let (left, _) = ordered_lines p a.0 z a.1 r o h in
        let (right, _) = ordered_lines p b.0 z b.1 s o k in
        let xs = map (cells_of F) a.1 in
        let ys = map (cells_of F) b.1 in
        (
          λ e.
              let parts =
                canonical_lines-injective p r.column_count s.column_count xs ys
                  (sym left ∙ (e ∙ right)) in
              (parts.0, rows-injective xs ys parts.1),
          λ e. left ∙ (rw (e.0, rows_of_tagged xs ys e.1) refl ∙ sym right),
        )

    -- Under an ordered policy, two results that both have a canonical form compare as equal exactly
    -- when they have the same number of columns and the same rows in the same order, cell by cell
    -- with the same type tag and the same text; provided that their digests collide on no two
    -- different canonical texts.
    pub exact_results_equal_iff :
        p.ordered ≡ true
        → canonicalize_result sha256 F p a.0 z a.1 ≡ ok r
        → canonicalize_result sha256 F p b.0 z b.1 ≡ ok s
        → (r.digest ≡ s.digest → r.canonical_bytes ≡ s.canonical_bytes)
        → (exact_results_equal sha256 F p z a b ≡ ok true)
          ↔ ((r.column_count ≡ s.column_count) × (contents F a.1 ≡ contents F b.1))
    unfolding exact_results_equal
    exact_results_equal_iff o h k collision_free =
        let bytes = same_bytes_iff o h k in
        let (_, left) = ordered_lines p a.0 z a.1 r o h in
        let (_, right) = ordered_lines p b.0 z b.1 s o k in
        (
          λ e.
              let compared = rw (h, k) at e in
              bytes.0 (collision_free (ground (arith, string_eq.beq_iff r.digest s.digest))),
          λ e.
              let same = bytes.1 e in
              let digests : r.digest ≡ s.digest = ground arith in
              rw (h, k) (ground (arith, string_eq.beq_iff r.digest s.digest)),
        )
