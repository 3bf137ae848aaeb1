-- ===== src/Oracle/Reorder.antt =====
-- Results without an order, planrace/oracle_v2.py: sorted multisets of rows.
use native.Mathlib.Nat.{ℕ_set}
use mathlib.Core.Bool.{Bool-set}
use mathlib.Core.List.{Perm, foldr}
use mathlib.Core.List.Perm
use planrace_subnet.Prelude.{
  ℕ, ◌+◌, ◌≡◌, ◌↔◌, refl, ap, sym, ◌∙◌, String, Bool, true, false, ◌&&◌, Option, none, some, List,
  [], ◌∷◌, map, ok, length, arith, all, inl, inr, Result-cases,
}
use planrace_subnet.Prelude.Int.{ℤ}
use planrace_subnet.Prelude.Bytes.{sort_of_perm}
use planrace_subnet.Oracle.Cells.{FloatTexts}
use planrace_subnet.Oracle.{
  ResultPolicy, CanonicalResult, Description, Row, cells, not_sequence, scan_start, arranged,
  canonicalize_result, encode_row,
}
use planrace_subnet.Oracle.Fits.{bytes_of, width, fits, cell_total, byte_total, is_encodable}
use planrace_subnet.Oracle.Exact.{IsResultOf, columns_of, canonicalize_result_iff}

-- A sum of a measure over a list, and a test of all of it, as folds.
module _ {A : Type 0} (f : A → ℕ) where
  abbrev total : List A → ℕ
  total = foldr (λ a n. f a + n) 0

  total_of_perm : {xs ys : List A} → Perm xs ys → total xs ≡ total ys
  total_of_perm q = Perm.foldr-eq ℕ_set (λ a n. f a + n) (λ a b n. omega arith) q 0

module _ {A : Type 0} (t : A → Bool) where
  all-foldr : (xs : List A) → all t xs ≡ foldr (λ a b. t a && b) true xs
  all-foldr [] = refl
  all-foldr (x ∷ xs) = ap (λ b. t x && b) (all-foldr xs)

  all_of_perm : {xs ys : List A} → Perm xs ys → all t xs ≡ all t ys
  all_of_perm {xs} {ys} q =
      all-foldr xs
      ∙ (Perm.foldr-eq Bool-set (λ a b. t a && b) (λ a b c. ground arith) q true
          ∙ sym (all-foldr ys))

length-total : {A : Type 0} (xs : List A) → length xs ≡ total (λ a. 1) xs
length-total [] = refl
length-total (x ∷ xs) = omega (arith, length-total xs)

module _ (F : FloatTexts) where
  open F use {Float}

  cell_total-total : (rows : List (Row Float)) → cell_total F rows ≡ total (width F) rows
  unfolding cell_total
  cell_total-total [] = refl
  cell_total-total (r ∷ rs) = ap (λ n. width F r + n) (cell_total-total rs)

  byte_total-total :
      (rows : List (Row Float)) → byte_total F rows ≡ total (λ r. length (bytes_of F r)) rows
  unfolding byte_total
  byte_total-total [] = refl
  byte_total-total (r ∷ rs) = ap (λ n. length (bytes_of F r) + n) (byte_total-total rs)

  module _ {rows rows' : List (Row Float)} (q : Perm rows rows') where
    cell_total_of_perm : cell_total F rows ≡ cell_total F rows'
    cell_total_of_perm =
        cell_total-total rows ∙ (total_of_perm (width F) q ∙ sym (cell_total-total rows'))

    fits_of_perm :
        (p : ResultPolicy) (n : ℕ)
        → fits F p n (scan_start none) rows ≡ fits F p n (scan_start none) rows'
    unfolding fits
    fits_of_perm p n =
        let each = all_of_perm (is_encodable F n) q in
        let rows_eq : length rows ≡ length rows' =
          length-total rows ∙ (total_of_perm (λ r. 1) q ∙ sym (length-total rows')) in
        let bytes_eq : byte_total F rows ≡ byte_total F rows' =
          byte_total-total rows
          ∙ (total_of_perm (λ r. length (bytes_of F r)) q ∙ sym (byte_total-total rows')) in
        rw (each, rows_eq, cell_total_of_perm, bytes_eq) refl

    arranged_of_perm :
        (p : ResultPolicy)
        → p.ordered ≡ false
        → arranged p (map (bytes_of F) rows) ≡ arranged p (map (bytes_of F) rows')
    unfolding arranged
    arranged_of_perm p h = rw h (sort_of_perm (Perm.map (bytes_of F) q))

  width_of_encodable : (n : ℕ) (r : Row Float) → is_encodable F n r ≡ true → width F r ≡ n
  unfolding is_encodable width
  width_of_encodable n not_sequence h = cc
  width_of_encodable n (cells row) h = elim (Result-cases (encode_row F row)) [
    | inr (e, bad) ↦ absurd (ground arith)
    | inl (bs, good) ↦ ground arith
  ]

  columns_of_perm :
      (n : ℕ) (c : Option ℕ) (rows rows' : List (Row Float))
      → Perm rows rows'
      → all (is_encodable F n) rows ≡ true
      → columns_of F c rows ≡ some n
      → columns_of F c rows' ≡ some n
  unfolding columns_of
  columns_of_perm n (some m) rows rows' q e h = h
  columns_of_perm n none [] rows' q e h = cc
  columns_of_perm n none (r ∷ rs) [] q e h = absurd (ground (arith, Perm.eq-nil q))
  columns_of_perm n none (r ∷ rs) (r' ∷ rs') q e h =
      ground (arith, all_of_perm (is_encodable F n) q, width_of_encodable n r')

module _ (sha256 : List ℕ → String) (F : FloatTexts) where
  open F use {Float}

  reordered :
      (p : ResultPolicy) (d : Description) (z : Option ℤ) {rows rows' : List (Row Float)}
      (r : CanonicalResult)
      → p.ordered ≡ false
      → Perm rows rows'
      → IsResultOf sha256 F p d z rows r
      → IsResultOf sha256 F p d z rows' r
  unfolding fits
  reordered p d z {rows} {rows'} r u q i =
      let within = i.within in
      record {
        known = i.known;
        count = i.count;
        declared = i.declared;
        counted = columns_of_perm F i.count i.known rows rows' q (ground arith) i.counted;
        within = sym (fits_of_perm F q p i.count) ∙ i.within;
        assembled = rw (← cell_total_of_perm F q, ← arranged_of_perm F q p u) i.assembled;
      }

  -- Under a policy without an order, rows that come in another order have the same canonical
  -- result, or none in both orders: which rows come first decides neither the bytes, nor whether
  -- the limits are kept.
  pub canonicalize_result-reordered :
      (p : ResultPolicy) (d : Description) (z : Option ℤ) (rows rows' : List (Row Float))
      (r : CanonicalResult)
      → p.ordered ≡ false
      → Perm rows rows'
      → (canonicalize_result sha256 F p d z rows ≡ ok r)
        ↔ (canonicalize_result sha256 F p d z rows' ≡ ok r)
  canonicalize_result-reordered p d z rows rows' r u q =
      let here = canonicalize_result_iff sha256 F p d z rows r in
      let there = canonicalize_result_iff sha256 F p d z rows' r in
      (
        λ h. there.1 (reordered p d z r u q (here.0 h)),
        λ h. here.1 (reordered p d z r u (Perm.symm q) (there.0 h)),
      )
