-- ===== src/Digest/Payload/Lines.antt =====
-- The canonical payloads as lines: the newlines of their texts are escaped.
use mathlib.Core.List.{flat_map}
use planrace_subnet.Prelude.{
  ℕ, zero, suc, ◌+◌, ◌%◌, ◌/◌, ◌≡◌, refl, inl, inr, String, true, false, not, List, [], ◌∷◌, ◌++◌,
  map, ltb, ◌==◌, nat_eq, arith, Bool-cases, all, All,
}
use planrace_subnet.Prelude.Int.{pos, negsuc}
use planrace_subnet.Prelude.Sort.{sort, All-sort}
use planrace_subnet.Digest.Payload.{
  Json, null, bool, int, float, str, arr, obj, Items, nil, cons, Fields, end, field, codes, text_le,
  utf8, utf8_all, escape, hex_digit, digits, decimal, quoted, quoted_codes, join, pair, dumps,
  dumps_items, dumps_fields,
}

-- No newline stands in the bytes.
abbrev pub IsLine : List ℕ → Type 0
IsLine bs = all (λ b. not (b == 10)) bs ≡ true

pub IsLine-append : (xs ys : List ℕ) → IsLine xs → IsLine ys → IsLine (xs ++ ys)
IsLine-append [] ys hx hy = hy
IsLine-append (x ∷ xs) ys hx hy = ground (arith, IsLine-append xs ys)

utf8-IsLine : (c : ℕ) → (c == 10) ≡ false → IsLine (utf8 c)
unfolding utf8
utf8-IsLine c h = ground arith

pub utf8_all-IsLine : (cs : List ℕ) → IsLine cs → IsLine (utf8_all cs)
unfolding utf8_all flat_map
utf8_all-IsLine [] h = refl
utf8_all-IsLine (c ∷ cs) h =
    IsLine-append (utf8 c) (utf8_all cs) (utf8-IsLine c (ground arith))
      (utf8_all-IsLine cs (ground arith))

escape-IsLine : (c : ℕ) → IsLine (escape c)
unfolding escape hex_digit
escape-IsLine c = ground arith

escaped-IsLine : (cs : List ℕ) → IsLine (flat_map escape cs)
unfolding flat_map
escaped-IsLine [] = refl
escaped-IsLine (c ∷ cs) =
    IsLine-append (escape c) (flat_map escape cs) (escape-IsLine c) (escaped-IsLine cs)

pub quoted_codes-IsLine : (cs : List ℕ) → IsLine (quoted_codes cs)
unfolding quoted_codes
quoted_codes-IsLine cs = IsLine-append (flat_map escape cs) (34 ∷ []) (escaped-IsLine cs) refl

digits-IsLine : (fuel n : ℕ) (acc : List ℕ) → IsLine acc → IsLine (digits fuel n acc)
unfolding digits
digits-IsLine zero n acc h = h
digits-IsLine (suc fuel) n acc h = elim (Bool-cases (ltb n 10)) [
  | inl e ↦ rw (e, digits) (ground arith)
  | inr e ↦ rw (e, digits) (digits-IsLine fuel (n / 10) ((b'0' + n % 10) ∷ acc) (ground arith))
]

decimal-IsLine : (n : ℕ) → IsLine (decimal n)
unfolding decimal
decimal-IsLine n = digits-IsLine (suc n) n [] refl

pub join-IsLine :
    (sep : List ℕ) (xs : List (List ℕ)) → IsLine sep → All IsLine xs → IsLine (join sep xs)
unfolding join
join-IsLine sep [] hs h = refl
join-IsLine sep (x ∷ []) hs h = h.0
join-IsLine sep (x ∷ y ∷ ys) hs h =
    IsLine-append x (sep ++ join sep (y ∷ ys)) h.0
      (IsLine-append sep (join sep (y ∷ ys)) hs (join-IsLine sep (y ∷ ys) hs h.1))

pair-IsLine :
    (kvs : List (String × List ℕ)) → All (λ kv. IsLine kv.1) kvs → All IsLine (map pair kvs)
unfolding quoted
pair-IsLine [] h = tt
pair-IsLine ((k, v) ∷ kvs) h = (
  IsLine-append (quoted_codes (codes k)) (58 ∷ v) (quoted_codes-IsLine (codes k)) h.0,
  pair-IsLine kvs h.1,
)

mutual
  unfolding dumps dumps_items dumps_fields quoted

  pub dumps-IsLine : (j : Json) → IsLine (dumps j)
  dumps-IsLine null = refl
  dumps-IsLine (bool true) = refl
  dumps-IsLine (bool false) = refl
  dumps-IsLine (int (pos n)) = decimal-IsLine n
  dumps-IsLine (int (negsuc n)) = decimal-IsLine (suc n)
  dumps-IsLine float = refl
  dumps-IsLine (str s) = quoted_codes-IsLine (codes s)
  dumps-IsLine (arr xs) =
      IsLine-append (join (44 ∷ []) (dumps_items xs)) (93 ∷ [])
        (join-IsLine (44 ∷ []) (dumps_items xs) refl (dumps_items-IsLine xs)) refl
  dumps-IsLine (obj fs) =
      let kvs = sort (λ a b. text_le a.0 b.0) (dumps_fields fs) in
      IsLine-append (join (44 ∷ []) (map pair kvs)) (125 ∷ [])
        (join-IsLine (44 ∷ []) (map pair kvs) refl (
          pair-IsLine kvs (
            All-sort (λ a b. text_le a.0 b.0) (λ kv. IsLine kv.1) (dumps_fields fs)
              (dumps_fields-IsLine fs))))
        refl

  dumps_items-IsLine : (xs : Items) → All IsLine (dumps_items xs)
  dumps_items-IsLine nil = tt
  dumps_items-IsLine (cons x xs) = (dumps-IsLine x, dumps_items-IsLine xs)

  dumps_fields-IsLine : (fs : Fields) → All (λ kv. IsLine kv.1) (dumps_fields fs)
  dumps_fields-IsLine end = tt
  dumps_fields-IsLine (field k v fs) = (dumps-IsLine v, dumps_fields-IsLine fs)
