-- ===== src/Oracle/Tests.antt =====
-- Concrete results of planrace/oracle_v2.py.
use mathlib.Core.List.{flat_map}
use mathlib.Core.List.Perm
use planrace_subnet.Prelude.{
  ℕ, ◌*◌, ◌+◌, ◌^◌, ◌≤◌, ◌≡◌, ◌↔◌, refl, String, Bool, true, false, none, some, List, [], ◌∷◌, ok,
  err, length,
}
use planrace_subnet.Prelude.Int.{pos, negsuc, ◌+ℤ◌}
use planrace_subnet.Prelude.Bytes.{bytes_le}
use planrace_subnet.Prelude.Sort.{sort}
use planrace_subnet.Digest.{frame}
use planrace_subnet.Digest.Payload.{codes, quoted, join, decimal, dumps, utf8_all}
use planrace_subnet.Oracle.Cells.{
  FloatTexts, null, bool, int, text, blob, finite, canonical_decimal, base64, row_limit, no_columns,
  projection_mismatch, bad_engine,
}
use planrace_subnet.Oracle.{
  ResultPolicy, CanonicalResult, absent, columns, Row, cells, check_result_policy,
  canonicalize_result, exact_results_equal, canonical_lines, declared_columns, scan, scan_row,
  encode_row, conclude, assemble, arranged,
}
use planrace_subnet.Oracle.Limits.{canonicalize_result_limits}
use planrace_subnet.Oracle.Exact.{IsResultOf, canonicalize_result_iff}
use planrace_subnet.Oracle.Reorder.{canonicalize_result-reordered}
use planrace_subnet.Oracle.Compare.{contents, exact_results_equal_iff}

abbrev float_texts : FloatTexts
float_texts = record {
  Float = ℕ;
  is_nan = λ x. false;
  is_infinite = λ x. false;
  is_positive = λ x. true;
  hex = decimal;
}

abbrev policy : Bool → ResultPolicy
policy ordered = record {
  engine = "sqlite-3.46.1";
  ordered = ordered;
  collation = "sqlite-binary";
  max_rows = 3;
  max_cells = 6;
  max_output_bytes = 400;
}

abbrev sha256 : List ℕ → String
sha256 bs = "ab"

-- 1 / 10 ^ 3, 12 * 10 ^ 2, and a negative zero
decimals :
    (canonical_decimal (finite false 100 (negsuc 4)) ≡ codes "0.001")
    × (canonical_decimal (finite false 12 (pos 2)) ≡ codes "1200")
    × (canonical_decimal (finite true 0 (pos 2)) ≡ codes "-0")
    × (canonical_decimal (finite true 1250 (negsuc 2)) ≡ codes "-1.25")
unfolding canonical_decimal decimal ◌+ℤ◌
decimals = (refl, refl, refl, refl)

-- The rounding to 28 digits identifies two decimals that differ in the 30th.
rounded_decimals :
    canonical_decimal (finite false (10 ^ 29 + 1) (negsuc 28))
    ≡ canonical_decimal (finite false 1 (pos 0))
unfolding canonical_decimal decimal ◌+ℤ◌
rounded_decimals = refl

encoded_blob : base64 (codes "any carnal pleas") ≡ codes "YW55IGNhcm5hbCBwbGVhcw=="
unfolding base64
encoded_blob = refl

abbrev one_row : List (Row ℕ)
one_row = cells (bool true ∷ text "a" ∷ []) ∷ []

abbrev same_row : List (Row ℕ)
same_row = cells (int (pos 1) ∷ text "a" ∷ []) ∷ []

abbrev expected : CanonicalResult
expected = record {
  digest = "sha256:ab";
  row_count = 1;
  column_count = 2;
  cell_count = 2;
  canonical_bytes =
      codes
        "{\"collation\":\"sqlite-binary\",\"column_count\":2,\"engine\":\"sqlite-3.46.1\",\"order\":\"ordered\",\"protocol\":\"planrace/2\",\"row_count\":1}\n[[\"integer\",\"1\"],[\"string\",\"a\"]]";
}

abbrev two_rows : List (Row ℕ)
two_rows = cells (null ∷ []) ∷ cells (blob (7 ∷ []) ∷ []) ∷ []

abbrev swapped_rows : List (Row ℕ)
swapped_rows = cells (blob (7 ∷ []) ∷ []) ∷ cells (null ∷ []) ∷ []

abbrev expected_unordered : CanonicalResult
expected_unordered = record {
  digest = "sha256:ab";
  row_count = 2;
  column_count = 1;
  cell_count = 2;
  canonical_bytes =
      codes
        "{\"collation\":\"sqlite-binary\",\"column_count\":1,\"engine\":\"sqlite-3.46.1\",\"order\":\"multiset\",\"protocol\":\"planrace/2\",\"row_count\":2}\n[[\"blob-base64\",\"Bw==\"]]\n[[\"null\",\"\"]]";
}

returns :
    (canonicalize_result sha256 float_texts (policy true) absent none one_row ≡ ok expected)
    × (canonicalize_result sha256 float_texts (policy true) absent none same_row ≡ ok expected)
    × (canonicalize_result sha256 float_texts (policy false) absent none two_rows
        ≡ ok expected_unordered)
unfolding canonicalize_result declared_columns scan scan_row encode_row utf8_all flat_map join
    quoted conclude assemble canonical_lines dumps sort decimal arranged frame bytes_le
returns = (refl, refl, refl)

-- The fourth row is over the limit, and an empty result needs its columns from elsewhere.
refused :
    (canonicalize_result sha256 float_texts
        (policy true)
        absent
        none
        (cells [] ∷ cells [] ∷ cells [] ∷ cells [] ∷ [])
      ≡ err row_limit)
    × (canonicalize_result sha256 float_texts (policy true) absent none [] ≡ err no_columns)
    × (canonicalize_result sha256 float_texts (policy true) (columns 2) (some (pos 3)) []
        ≡ err projection_mismatch)
unfolding canonicalize_result declared_columns scan scan_row encode_row utf8_all flat_map join
    conclude
refused = (refl, refl, refl)

refused_policy :
    check_result_policy (record (policy true) { engine = "sqlite-3.45.0" }) ≡ err bad_engine
unfolding check_result_policy
refused_policy = refl

canonicalize_result_limits_example :
    (1 ≡ length one_row) × (2 ≡ 1 * 2) × (1 ≤ 3) × (2 ≤ 6) × (length expected.canonical_bytes ≤ 400)
canonicalize_result_limits_example =
    canonicalize_result_limits sha256 float_texts (policy true) absent none one_row expected
      returns.0

canonicalize_result_iff_example :
    (canonicalize_result sha256 float_texts (policy true) absent none one_row ≡ ok expected)
    ↔ IsResultOf sha256 float_texts (policy true) absent none one_row expected
canonicalize_result_iff_example =
    canonicalize_result_iff sha256 float_texts (policy true) absent none one_row expected

canonicalize_result-reordered_example :
    (canonicalize_result sha256 float_texts (policy false) absent none two_rows
      ≡ ok expected_unordered)
    ↔ (canonicalize_result sha256 float_texts (policy false) absent none swapped_rows
        ≡ ok expected_unordered)
canonicalize_result-reordered_example =
    canonicalize_result-reordered sha256 float_texts (policy false) absent none two_rows
      swapped_rows expected_unordered refl
      (Perm.swap (cells (blob (7 ∷ []) ∷ [])) (cells (null ∷ [])) [])

exact_results_equal_iff_example :
    (exact_results_equal sha256 float_texts (policy true) none (absent, one_row) (absent, same_row)
      ≡ ok true)
    ↔ ((◌≡◌ {A = ℕ} 2 2) × (contents float_texts one_row ≡ contents float_texts same_row))
exact_results_equal_iff_example =
    exact_results_equal_iff sha256 float_texts (policy true) none (absent, one_row)
      (absent, same_row) expected expected refl returns.0 returns.1 (λ e. refl)
