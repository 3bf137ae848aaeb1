-- ===== src/Oracle/Read.antt =====
-- The canonical bytes of planrace/oracle_v2.py read back into rows of tagged cells.
use mathlib.Core.Path.{subst, ap₂}
use mathlib.Core.List.{append_assoc, append-nil, flat_map}
use planrace_subnet.Prelude.{
  ℕ, ◌≡◌, ◌≢◌, refl, ap, sym, ◌∙◌, String, List, [], ◌∷◌, ◌++◌, map, length, arith, All, nat_eq,
  append-injective, if◌then◌else◌,
}
use planrace_subnet.Digest.Payload.{
  codes, quoted, quoted_codes, join, dumps, utf8_all, pair, decimal,
}
use planrace_subnet.Digest.Payload.Reading.{
  utf8_all-injective, utf8_all-ne_nil, quoted_codes-injective, decimal-injective,
}
use planrace_subnet.Prelude.Sort.{sort}
use planrace_subnet.Digest.Payload.Lines.{
  IsLine, IsLine-append, utf8_all-IsLine, quoted_codes-IsLine, join-IsLine, dumps-IsLine,
}
use planrace_subnet.Oracle.{ResultPolicy, cell_json, row_bytes, header_bytes, canonical_lines}

-- A tagged cell as code points.
abbrev pub tagged : String × List ℕ → List ℕ × List ℕ
tagged (tag, content) = (codes tag, content)

cell_json-injective :
    (c d : String × List ℕ) (s t : List ℕ)
    → cell_json c ++ s ≡ cell_json d ++ t
    → (tagged c ≡ tagged d) × (s ≡ t)
unfolding quoted
cell_json-injective (k, v) (k', v') s t e =
    let outer = quoted_codes-injective (codes k) (codes k') _ _ (
      sym (append_assoc (quoted_codes (codes k)) (44 ∷ (quoted_codes v ++ 93 ∷ [])) s)
      ∙ (ground arith
          ∙ append_assoc (quoted_codes (codes k')) (44 ∷ (quoted_codes v' ++ 93 ∷ [])) t)) in
    let inner = quoted_codes-injective v v' _ _ (
      sym (append_assoc (quoted_codes v) (93 ∷ []) s)
      ∙ (ground arith ∙ append_assoc (quoted_codes v') (93 ∷ []) t)) in
    (ground arith, ground arith)

-- What follows the first cell of a row, up to its closing bracket.
abbrev later_cells : List (String × List ℕ) → List ℕ
later_cells [] = 93 ∷ []
later_cells (c ∷ cs) = 44 ∷ (cell_json c ++ later_cells cs)

join-later :
    (c : String × List ℕ) (cs : List (String × List ℕ))
    → join (44 ∷ []) (map cell_json (c ∷ cs)) ++ 93 ∷ [] ≡ cell_json c ++ later_cells cs
unfolding join
join-later c [] = refl
join-later c (d ∷ ds) =
    append_assoc (cell_json c) (44 ∷ join (44 ∷ []) (map cell_json (d ∷ ds))) (93 ∷ [])
    ∙ ap (λ s. cell_json c ++ 44 ∷ s) (join-later d ds)

later_cells-injective :
    (cs ds : List (String × List ℕ))
    → later_cells cs ≡ later_cells ds
    → map tagged cs ≡ map tagged ds
later_cells-injective [] [] e = refl
later_cells-injective [] (d ∷ ds) e = ground arith
later_cells-injective (c ∷ cs) [] e = ground arith
later_cells-injective (c ∷ cs) (d ∷ ds) e =
    let parts = cell_json-injective c d (later_cells cs) (later_cells ds) (ground arith) in
    let rest = later_cells-injective cs ds parts.1 in ground arith

not_empty :
    (c : String × List ℕ) (cs : List (String × List ℕ))
    → join (44 ∷ []) (map cell_json (c ∷ cs)) ++ 93 ∷ [] ≢ 93 ∷ []
not_empty (k, v) cs e =
    let opened : cell_json (k, v) ++ later_cells cs ≡ 93 ∷ [] = sym (join-later (k, v) cs) ∙ e in
    ground arith

-- The bytes of a row determine its tagged cells.
pub row_bytes-injective :
    (cs ds : List (String × List ℕ)) → row_bytes cs ≡ row_bytes ds → map tagged cs ≡ map tagged ds
unfolding row_bytes
row_bytes-injective cs ds e = texts cs ds (utf8_all-injective _ _ e)
  where
    texts :
        (cs ds : List (String × List ℕ))
        → ◌≡◌ {A = List ℕ}
            (91 ∷ (join (44 ∷ []) (map cell_json cs) ++ 93 ∷ []))
            (91 ∷ (join (44 ∷ []) (map cell_json ds) ++ 93 ∷ []))
        → map tagged cs ≡ map tagged ds
    texts [] [] e = refl
    texts [] (d ∷ ds) e = absurd (not_empty d ds (unfold join in ground arith))
    texts (c ∷ cs) [] e = absurd (not_empty c cs (unfold join in ground arith))
    texts (c ∷ cs) (d ∷ ds) e =
        later_cells-injective (c ∷ cs) (d ∷ ds)
          (ap (λ s. 44 ∷ s) (sym (join-later c cs) ∙ (ground arith ∙ join-later d ds)))

cell_json-IsLine : (c : String × List ℕ) → IsLine (cell_json c)
unfolding quoted
cell_json-IsLine (k, v) =
    IsLine-append (quoted_codes (codes k)) (44 ∷ (quoted_codes v ++ 93 ∷ []))
      (quoted_codes-IsLine (codes k))
      (IsLine-append (quoted_codes v) (93 ∷ []) (quoted_codes-IsLine v) refl)

cells-IsLine : (cs : List (String × List ℕ)) → All IsLine (map cell_json cs)
cells-IsLine [] = tt
cells-IsLine (c ∷ cs) = (cell_json-IsLine c, cells-IsLine cs)

row_bytes-IsLine : (cs : List (String × List ℕ)) → IsLine (row_bytes cs)
unfolding row_bytes
row_bytes-IsLine cs = utf8_all-IsLine (91 ∷ (join (44 ∷ []) (map cell_json cs) ++ 93 ∷ [])) (
    IsLine-append (join (44 ∷ []) (map cell_json cs)) (93 ∷ [])
      (join-IsLine (44 ∷ []) (map cell_json cs) refl (cells-IsLine cs)) refl)

header_bytes-IsLine : (p : ResultPolicy) (n k : ℕ) → IsLine (header_bytes p n k)
unfolding header_bytes
header_bytes-IsLine p n k = utf8_all-IsLine (dumps _) (dumps-IsLine _)

-- The first line ends where the first newline stands.
first_line :
    (xs ys us vs : List ℕ)
    → IsLine xs
    → IsLine ys
    → xs ++ 10 ∷ us ≡ ys ++ 10 ∷ vs
    → (xs ≡ ys) × (us ≡ vs)
first_line [] [] us vs hx hy e = ground arith
first_line [] (y ∷ ys) us vs hx hy e = absurd (ground arith)
first_line (x ∷ xs) [] us vs hx hy e = absurd (ground arith)
first_line (x ∷ xs) (y ∷ ys) us vs hx hy e =
    let rest = first_line xs ys us vs (ground arith) (ground arith) (ground arith) in ground arith

not_line : (xs us : List ℕ) → IsLine (xs ++ 10 ∷ us) → ⊥
not_line [] us h = cc
not_line (x ∷ xs) us h = not_line xs us (ground arith)

first_ne_nil : (cs : List (String × List ℕ)) (us : List ℕ) → row_bytes cs ++ us ≢ []
unfolding row_bytes utf8_all flat_map
first_ne_nil cs us e =
    utf8_all-ne_nil 91 (join (44 ∷ []) (map cell_json cs) ++ 93 ∷ []) (no_first _ us e)
  where
    no_first : (xs us : List ℕ) → xs ++ us ≡ [] → xs ≡ []
    no_first [] us e = refl
    no_first (x ∷ xs) us e = absurd (ground arith)

-- The lines after the header determine the rows.
rows_of_lines :
    (xs ys : List (List (String × List ℕ)))
    → join (10 ∷ []) (map row_bytes xs) ≡ join (10 ∷ []) (map row_bytes ys)
    → map row_bytes xs ≡ map row_bytes ys
unfolding join
rows_of_lines [] [] e = refl
rows_of_lines [] (y ∷ []) e = absurd (first_ne_nil y [] (append-nil (row_bytes y) ∙ sym e))
rows_of_lines [] (y ∷ y' ∷ ys) e = absurd (first_ne_nil y _ (sym e))
rows_of_lines (x ∷ []) [] e = absurd (first_ne_nil x [] (append-nil (row_bytes x) ∙ e))
rows_of_lines (x ∷ x' ∷ xs) [] e = absurd (first_ne_nil x _ e)
rows_of_lines (x ∷ []) (y ∷ []) e = ap (λ r. r ∷ []) e
rows_of_lines (x ∷ []) (y ∷ y' ∷ ys) e =
    absurd (not_line (row_bytes y) _ (subst IsLine e (row_bytes-IsLine x)))
rows_of_lines (x ∷ x' ∷ xs) (y ∷ []) e =
    absurd (not_line (row_bytes x) _ (subst IsLine (sym e) (row_bytes-IsLine y)))
rows_of_lines (x ∷ x' ∷ xs) (y ∷ y' ∷ ys) e =
    let parts =
      first_line (row_bytes x) (row_bytes y) _ _ (row_bytes-IsLine x) (row_bytes-IsLine y) e in
    ap₂ ◌∷◌ parts.0 (rows_of_lines (x' ∷ xs) (y' ∷ ys) parts.1)

abbrev later_fields : ResultPolicy → ℕ → List ℕ
later_fields p k =
    join (44 ∷ []) (
      map pair (
        ("engine", quoted p.engine)
        ∷ ("order", quoted (if p.ordered then "ordered" else "multiset"))
        ∷ ("protocol", quoted "planrace/2")
        ∷ ("row_count", decimal k)
        ∷ []))
    ++ 125 ∷ []

-- What stands in front of the number of columns.
first_fields : ResultPolicy → List ℕ
first_fields p =
    123
    ∷ (quoted "collation" ++ (58 ∷ quoted p.collation) ++ (44 ∷ (quoted "column_count" ++ 58 ∷ [])))

header_text :
    (p : ResultPolicy) (n k : ℕ)
    → header_bytes p n k ≡ utf8_all (first_fields p ++ (decimal n ++ 44 ∷ later_fields p k))
unfolding header_bytes dumps sort join first_fields
header_text p n k = simp append_assoc

-- The header determines the number of columns.
columns_of_header :
    (p : ResultPolicy) (m n k l : ℕ) → header_bytes p m k ≡ header_bytes p n l → m ≡ n
columns_of_header p m n k l e =
    let texts = utf8_all-injective _ _ (sym (header_text p m k) ∙ (e ∙ header_text p n l)) in
    decimal-injective m n (later_fields p k) (later_fields p l)
      ((append-injective (first_fields p) (first_fields p) _ _ refl texts).1)

-- The canonical lines determine the number of columns and the bytes of the rows.
pub canonical_lines-injective :
    (p : ResultPolicy) (m n : ℕ) (xs ys : List (List (String × List ℕ)))
    → canonical_lines p m (map row_bytes xs) ≡ canonical_lines p n (map row_bytes ys)
    → (m ≡ n) × (map row_bytes xs ≡ map row_bytes ys)
unfolding canonical_lines
canonical_lines-injective p m n xs ys e =
    let k = length (map row_bytes xs) in
    let l = length (map row_bytes ys) in
    let parts =
      first_line (header_bytes p m k) (header_bytes p n l) _ _ (header_bytes-IsLine p m k)
        (header_bytes-IsLine p n l) e in
    (columns_of_header p m n k l parts.0, rows_of_lines xs ys parts.1)

pub rows-injective :
    (xs ys : List (List (String × List ℕ)))
    → map row_bytes xs ≡ map row_bytes ys
    → map (map tagged) xs ≡ map (map tagged) ys
rows-injective [] [] e = refl
rows-injective [] (y ∷ ys) e = ground arith
rows-injective (x ∷ xs) [] e = ground arith
rows-injective (x ∷ xs) (y ∷ ys) e =
    ap₂ ◌∷◌ (row_bytes-injective x y (ground arith)) (rows-injective xs ys (ground arith))
