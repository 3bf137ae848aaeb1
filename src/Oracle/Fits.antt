-- ===== src/Oracle/Fits.antt =====
-- The loop of `canonicalize_result` against a description without a loop: what the rows add up
-- to, and when they are within a policy.
use planrace_subnet.Prelude.{
  ℕ, ◌+◌, ◌≡◌, refl, ap, ◌∙◌, Bool, true, false, ◌&&◌, some, List, [], ◌∷◌, ◌++◌, map, ok, err, leb,
  length, all, ◌==◌, nat_eq, arith, inl, inr, Result-cases, ok-injective, length-append,
}
use mathlib.Core.List.{append_assoc, append-nil}
use planrace_subnet.Oracle.Cells.{FloatTexts}
use planrace_subnet.Oracle.{
  ResultPolicy, Scan, Row, cells, not_sequence, disagrees, encode_row, take_row, scan_row, scan,
}

module _ (F : FloatTexts) where
  open F use {Float}

  -- The bytes of a row, none for one that has no encoding.
  unfoldable pub bytes_of : Row Float → List ℕ
  bytes_of not_sequence = []
  bytes_of (cells row) = elim (encode_row F row) [ ok bs ↦ bs | err _ ↦ [] ]

  unfoldable pub width : Row Float → ℕ
  width not_sequence = 0
  width (cells row) = length row

  -- A sequence of `n` cells that all have an encoding.
  unfoldable pub is_encodable : ℕ → Row Float → Bool
  is_encodable n not_sequence = false
  is_encodable n (cells row) = elim (encode_row F row) [ ok _ ↦ length row == n | err _ ↦ false ]

  unfoldable pub cell_total : List (Row Float) → ℕ
  cell_total [] = 0
  cell_total (r ∷ rs) = width r + cell_total rs

  unfoldable pub byte_total : List (Row Float) → ℕ
  byte_total [] = 0
  byte_total (r ∷ rs) = length (bytes_of r) + byte_total rs

  -- The rows have `n` columns, and together with what was seen are within the limits.
  unfoldable pub fits : ResultPolicy → ℕ → Scan → List (Row Float) → Bool
  fits p n s rs =
      all (is_encodable n) rs
      && (leb (length s.encoded_rows + length rs) p.max_rows
          && (leb (s.cell_count + cell_total rs) p.max_cells
              && leb (s.running_size + byte_total rs) p.max_output_bytes))

  -- The loop's variables after the rows.
  unfoldable pub after : ℕ → Scan → List (Row Float) → Scan
  after n s rs = record {
    column_count = some n;
    cell_count = s.cell_count + cell_total rs;
    running_size = s.running_size + byte_total rs;
    encoded_rows = s.encoded_rows ++ map bytes_of rs;
  }

  -- A row that passes agrees with the columns, fits, and is added.
  scan_row_passed :
      (p : ResultPolicy) (r : Row Float) (s t : Scan)
      → scan_row F p r s ≡ ok t
      → (disagrees s.column_count (width r) ≡ false)
        × (fits p (width r) s (r ∷ []) ≡ true)
        × (t ≡ after (width r) s (r ∷ []))
  unfolding scan_row take_row fits after width cell_total byte_total is_encodable bytes_of
  scan_row_passed p not_sequence s t h = ground arith
  scan_row_passed p (cells row) s t h = elim (Result-cases (encode_row F row)) [
    | inr (e, bad) ↦ absurd (ground arith)
    | inl (bs, good) ↦ (ground arith, ground arith, ground arith)
  ]

  scan_row_passes :
      (p : ResultPolicy) (n : ℕ) (r : Row Float) (s : Scan)
      → disagrees s.column_count n ≡ false
      → fits p n s (r ∷ []) ≡ true
      → scan_row F p r s ≡ ok (after n s (r ∷ []))
  unfolding scan_row take_row fits after width cell_total byte_total is_encodable bytes_of
  scan_row_passes p n not_sequence s d h = cc
  scan_row_passes p n (cells row) s d h = elim (Result-cases (encode_row F row)) [
    | inr (e, bad) ↦ absurd (ground arith)
    | inl (bs, good) ↦ ground arith
  ]

  fits-cons :
      (p : ResultPolicy) (n : ℕ) (s : Scan) (r : Row Float) (rs : List (Row Float))
      → fits p n s (r ∷ rs) ≡ (fits p n s (r ∷ []) && fits p n (after n s (r ∷ [])) rs)
  unfolding fits after cell_total byte_total
  fits-cons p n s r rs = ground (arith, length-append s.encoded_rows (bytes_of r ∷ []))

  after-cons :
      (n : ℕ) (s : Scan) (r : Row Float) (rs : List (Row Float))
      → after n (after n s (r ∷ [])) rs ≡ after n s (r ∷ rs)
  unfolding after cell_total byte_total
  after-cons n s r rs =
      ground (arith, append_assoc s.encoded_rows (bytes_of r ∷ []) (map bytes_of rs))

  -- With the columns known, the loop ends well exactly on rows that fit, and adds them all.
  pub scan_passed :
      (p : ResultPolicy) (n : ℕ) (rs : List (Row Float)) (s t : Scan)
      → s.column_count ≡ some n
      → fits p n s [] ≡ true
      → scan F p rs s ≡ ok t
      → (fits p n s rs ≡ true) × (t ≡ after n s rs)
  unfolding scan
  scan_passed p n [] s t c w h = (
    w,
    unfold after cell_total byte_total in ground (arith, append-nil s.encoded_rows, ok-injective h),
  )
  scan_passed p n (r ∷ rs) s t c w h = elim (Result-cases (scan_row F p r s)) [
    | inr (e, bad) ↦ absurd (ground arith)
    | inl (u, good) ↦
        let (d, f, eq) = scan_row_passed p r s u good in
        let same : width r ≡ n = ground arith in
        let f' : fits p n s (r ∷ []) ≡ true = rw same at f in
        let eq' : u ≡ after n s (r ∷ []) = rw same at eq in
        let rest : scan F p rs (after n s (r ∷ [])) ≡ ok t = ground arith in
        let w' = fits-cons p n s r [] in
        let (g, end) =
          scan_passed p n rs (after n s (r ∷ [])) t (unfold after in refl) (ground arith) rest in
        (ground (arith, fits-cons p n s r rs), end ∙ after-cons n s r rs)
  ]

  pub scan_passes :
      (p : ResultPolicy) (n : ℕ) (rs : List (Row Float)) (s : Scan)
      → s.column_count ≡ some n
      → fits p n s rs ≡ true
      → scan F p rs s ≡ ok (after n s rs)
  unfolding scan
  scan_passes p n [] s c f =
      unfold after cell_total byte_total in ground (arith, append-nil s.encoded_rows)
  scan_passes p n (r ∷ rs) s c f =
      let parts = fits-cons p n s r rs in
      let first = scan_row_passes p n r s (ground arith) (ground arith) in
      let rest = scan_passes p n rs (after n s (r ∷ [])) (unfold after in refl) (ground arith) in
      rw first (rest ∙ ap ok (after-cons n s r rs))

  -- So too where the first row says how many columns there are.
  pub scan_first_passed :
      (p : ResultPolicy) (r : Row Float) (rs : List (Row Float)) (s t : Scan)
      → scan F p (r ∷ rs) s ≡ ok t
      → (fits p (width r) s (r ∷ rs) ≡ true) × (t ≡ after (width r) s (r ∷ rs))
  unfolding scan
  scan_first_passed p r rs s t h = elim (Result-cases (scan_row F p r s)) [
    | inr (e, bad) ↦ absurd (ground arith)
    | inl (u, good) ↦
        let n = width r in
        let (d, f, eq) = scan_row_passed p r s u good in
        let rest : scan F p rs (after n s (r ∷ [])) ≡ ok t = ground arith in
        let w = fits-cons p n s r [] in
        let (g, end) =
          scan_passed p n rs (after n s (r ∷ [])) t (unfold after in refl) (ground arith) rest in
        (ground (arith, fits-cons p n s r rs), end ∙ after-cons n s r rs)
  ]

  pub scan_first_passes :
      (p : ResultPolicy) (n : ℕ) (r : Row Float) (rs : List (Row Float)) (s : Scan)
      → disagrees s.column_count n ≡ false
      → fits p n s (r ∷ rs) ≡ true
      → scan F p (r ∷ rs) s ≡ ok (after n s (r ∷ rs))
  unfolding scan
  scan_first_passes p n r rs s d f =
      let parts = fits-cons p n s r rs in
      let first = scan_row_passes p n r s d (ground arith) in
      let rest = scan_passes p n rs (after n s (r ∷ [])) (unfold after in refl) (ground arith) in
      rw first (rest ∙ ap ok (after-cons n s r rs))
