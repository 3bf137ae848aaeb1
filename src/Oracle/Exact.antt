-- ===== src/Oracle/Exact.antt =====
-- `canonicalize_result` of planrace/oracle_v2.py against its description without a loop.
use planrace_subnet.Prelude.{
  ℕ, ◌≡◌, ◌≢◌, ◌↔◌, refl, ap, sym, ◌∙◌, String, true, Option, none, some, List, [], ◌∷◌, map, ok,
  arith, inl, inr, Result-cases, Option-cases,
}
use planrace_subnet.Prelude.Int.{ℤ}
use planrace_subnet.Oracle.Cells.{FloatTexts}
use planrace_subnet.Oracle.{
  ResultPolicy, CanonicalResult, Description, Row, Scan, scan, scan_start, declared_columns,
  conclude, arranged, assemble, canonicalize_result,
}
use planrace_subnet.Oracle.Fits.{
  bytes_of, width, fits, after, cell_total, byte_total, scan_passed, scan_passes, scan_first_passed,
  scan_first_passes,
}

module _ (F : FloatTexts) where
  open F use {Float}

  -- The number of columns: the declared one, or that of the first row.
  unfoldable pub columns_of : Option ℕ → List (Row Float) → Option ℕ
  columns_of (some n) rows = some n
  columns_of none [] = none
  columns_of none (r ∷ rs) = some (width F r)

  pub fits_start :
      (p : ResultPolicy) (c : Option ℕ) (n : ℕ) (rows : List (Row Float))
      → fits F p n (scan_start c) rows ≡ fits F p n (scan_start none) rows
  unfolding fits
  fits_start p c n rows = refl

  fits-none : (p : ResultPolicy) (n : ℕ) → fits F p n (scan_start none) [] ≡ true
  unfolding fits cell_total byte_total
  fits-none p n = ground arith

  -- The loop from its start.
  scan_start_passed :
      (p : ResultPolicy) (c : Option ℕ) (n : ℕ) (rows : List (Row Float)) (t : Scan)
      → columns_of c rows ≡ some n
      → scan F p rows (scan_start c) ≡ ok t
      → (fits F p n (scan_start none) rows ≡ true) × (t ≡ after F n (scan_start c) rows)
  unfolding columns_of
  scan_start_passed p none n [] t e h = cc
  scan_start_passed p none n (r ∷ rs) t e h =
      let same : width F r ≡ n = ground arith in
      rw same at (scan_first_passed F p r rs (scan_start none) t h)
  scan_start_passed p (some m) n rows t e h =
      let same : m ≡ n = ground arith in
      let (f, end) =
        scan_passed F p n rows (scan_start (some m)) t e
          (fits_start p (some m) n [] ∙ fits-none p n) h in
      (sym (fits_start p (some m) n rows) ∙ f, end)

  scan_start_passes :
      (p : ResultPolicy) (c : Option ℕ) (n : ℕ) (rows : List (Row Float))
      → columns_of c rows ≡ some n
      → fits F p n (scan_start none) rows ≡ true
      → scan F p rows (scan_start c) ≡ ok (after F n (scan_start c) rows)
  unfolding columns_of
  scan_start_passes p none n [] e f = cc
  scan_start_passes p none n (r ∷ rs) e f = scan_first_passes F p n r rs (scan_start none) refl f
  scan_start_passes p (some m) n rows e f =
      scan_passes F p n rows (scan_start (some m)) e (fits_start p (some m) n rows ∙ f)

module _ (sha256 : List ℕ → String) (F : FloatTexts) where
  open F use {Float}

  -- What a canonical result is: the columns are known, the rows fit, and the bytes are those of
  -- the rows in their arrangement.
  pub record IsResultOf (p : ResultPolicy) (d : Description) (z : Option ℤ)
      (rows : List (Row Float)) (r : CanonicalResult) : Type 0 where
    pub known : Option ℕ
    pub count : ℕ
    pub declared : declared_columns p d z ≡ ok known
    pub counted : columns_of F known rows ≡ some count
    pub within : fits F p count (scan_start none) rows ≡ true
    pub assembled :
        assemble sha256 p count (cell_total F rows) (arranged p (map (bytes_of F) rows)) ≡ ok r

  conclude-after :
      (p : ResultPolicy) (c : Option ℕ) (n : ℕ) (rows : List (Row Float))
      → conclude sha256 p (after F n (scan_start c) rows)
        ≡ assemble sha256 p n (cell_total F rows) (arranged p (map (bytes_of F) rows))
  unfolding conclude after
  conclude-after p c n rows = ground arith

  conclude_nothing :
      (p : ResultPolicy) (c : Option ℕ) (rows : List (Row Float)) (t : Scan) (r : CanonicalResult)
      → columns_of F c rows ≡ none
      → scan F p rows (scan_start c) ≡ ok t
      → conclude sha256 p t ≢ ok r
  unfolding conclude columns_of scan
  conclude_nothing p none [] t r h e k = ground arith
  conclude_nothing p none (x ∷ xs) t r h e k = cc
  conclude_nothing p (some n) rows t r h e k = cc

  canonicalize_passed :
      (p : ResultPolicy) (d : Description) (z : Option ℤ) (rows : List (Row Float))
      (r : CanonicalResult)
      → canonicalize_result sha256 F p d z rows ≡ ok r
      → IsResultOf p d z rows r
  unfolding canonicalize_result
  canonicalize_passed p d z rows r h = elim (Result-cases (declared_columns p d z)) [
    | inr (e, bad) ↦ absurd (ground arith)
    | inl (c, known) ↦ elim (Result-cases (scan F p rows (scan_start c))) [
      | inr (e, bad) ↦ absurd (ground arith)
      | inl (t, good) ↦
          let end : conclude sha256 p t ≡ ok r = ground arith in
          elim (Option-cases (columns_of F c rows)) [
            | inl empty ↦ absurd (conclude_nothing p c rows t r empty good end)
            | inr (n, counted) ↦
                let (f, eq) = scan_start_passed F p c n rows t counted good in
                record {
                  known = c;
                  count = n;
                  declared = known;
                  counted = counted;
                  within = f;
                  assembled =
                      sym (conclude-after p c n rows) ∙ (ap (conclude sha256 p) (sym eq) ∙ end);
                }
          ]
    ]
  ]

  canonicalize_passes :
      (p : ResultPolicy) (d : Description) (z : Option ℤ) (rows : List (Row Float))
      (r : CanonicalResult)
      → IsResultOf p d z rows r
      → canonicalize_result sha256 F p d z rows ≡ ok r
  unfolding canonicalize_result
  canonicalize_passes p d z rows r i =
      rw (i.declared, scan_start_passes F p i.known i.count rows i.counted i.within)
        (conclude-after p i.known i.count rows ∙ i.assembled)

  -- The loop refines its description: `canonicalize_result` returns a result exactly when the
  -- number of columns is known, every row is a sequence of that many cells with an encoding, the
  -- totals of rows, cells and bytes are within the limits, and the result is what the rows'
  -- bytes in their arrangement are assembled to.
  pub canonicalize_result_iff :
      (p : ResultPolicy) (d : Description) (z : Option ℤ) (rows : List (Row Float))
      (r : CanonicalResult)
      → (canonicalize_result sha256 F p d z rows ≡ ok r) ↔ IsResultOf p d z rows r
  canonicalize_result_iff p d z rows r =
      (canonicalize_passed p d z rows r, canonicalize_passes p d z rows r)
