-- ===== src/Digest/Payload/Reading.antt =====
-- The reading of UTF-8 bytes and of JSON text, which the writing of a canonical payload undoes.
use mathlib.Core.List.{flat_map, append_assoc}
use planrace_subnet.Prelude.{
  ℕ, zero, suc, ◌+◌, ◌-◌, ◌*◌, ◌%◌, ◌/◌, ◌<◌, ◌≡◌, ◌≢◌, refl, sym, ap, ◌∙◌, inl, inr, Bool, ◌&&◌,
  Option, none, some, List, [], ◌∷◌, ◌++◌, ltb, leb, ◌==◌, nat_eq, if◌then◌else◌, arith, Bool-cases,
}
use planrace_subnet.Digest.Payload.{
  utf8, utf8_all, escape, hex_digit, quoted_codes, digits, decimal,
}

abbrev put_low_bits : ℕ → ℕ → ℕ
put_low_bits c b = c * 64 + (b - 0x80)

-- One code point from the front of UTF-8 bytes.
decode : List ℕ → Option (ℕ × List ℕ)
decode [] = none
decode (a ∷ s) =
    if ltb a 0x80
    then some (a, s)
    else if ltb a 0xe0
    then elim s [ [] ↦ none | b ∷ t ↦ some (put_low_bits (a - 0xc0) b, t) ]
    else if ltb a 0xf0
    then elim s [
      | [] ↦ none
      | b ∷ t ↦ elim t [ [] ↦ none | c ∷ u ↦ some (put_low_bits (put_low_bits (a - 0xe0) b) c, u) ]
    ]
    else elim s [
      | [] ↦ none
      | b ∷ t ↦ elim t [
        | [] ↦ none
        | c ∷ u ↦ elim u [
          | [] ↦ none
          | d ∷ v ↦ some (put_low_bits (put_low_bits (put_low_bits (a - 0xf0) b) c) d, v)
        ]
      ]
    ]

decode-utf8 : (c : ℕ) (rest : List ℕ) → decode (utf8 c ++ rest) ≡ some (c, rest)
unfolding decode utf8
decode-utf8 c rest = ground arith

utf8_all-cons : (c : ℕ) (cs : List ℕ) → utf8_all (c ∷ cs) ≡ utf8 c ++ utf8_all cs
unfolding utf8_all flat_map
utf8_all-cons c cs = refl

pub utf8_all-ne_nil : (y : ℕ) (ys : List ℕ) → utf8_all (y ∷ ys) ≢ utf8_all []
unfolding utf8_all utf8 flat_map
utf8_all-ne_nil y ys e = ground arith

-- Two texts with the same UTF-8 bytes are the same text.
pub utf8_all-injective : (xs ys : List ℕ) → utf8_all xs ≡ utf8_all ys → xs ≡ ys
utf8_all-injective [] [] e = refl
utf8_all-injective [] (y ∷ ys) e = absurd (utf8_all-ne_nil y ys (sym e))
utf8_all-injective (x ∷ xs) [] e = absurd (utf8_all-ne_nil x xs e)
utf8_all-injective (x ∷ xs) (y ∷ ys) e =
    let here : decode (utf8_all (x ∷ xs)) ≡ some (x, utf8_all xs) =
      ap decode (utf8_all-cons x xs) ∙ decode-utf8 x (utf8_all xs) in
    let there : decode (utf8_all (y ∷ ys)) ≡ some (y, utf8_all ys) =
      ap decode (utf8_all-cons y ys) ∙ decode-utf8 y (utf8_all ys) in
    let both : ◌≡◌ {A = Option (ℕ × List ℕ)} (some (x, utf8_all xs)) (some (y, utf8_all ys)) =
      sym here ∙ (ap decode e ∙ there) in
    ground (arith, utf8_all-injective xs ys)

-- One character from the front of JSON text.
hex_read : ℕ → ℕ
hex_read d = if ltb d b'a' then d - b'0' else d - b'a' + 10

abbrev plain_escape : ℕ → ℕ
plain_escape x =
    if x == b'n'
    then 10
    else if x == b'r'
    then 13
    else if x == b't'
    then 9
    else if x == b'f'
    then 12
    else if x == b'b'
    then 8
    else x

unescape : List ℕ → Option (ℕ × List ℕ)
unescape [] = none
unescape (c ∷ []) = if c == 92 then none else some (c, [])
unescape (c ∷ x ∷ s) =
    if c == 92
    then (if x == b'u'
        then elim s [
          | [] ↦ none
          | _ ∷ t ↦ elim t [
            | [] ↦ none
            | _ ∷ u ↦ elim u [
              | [] ↦ none
              | h ∷ v ↦ elim v [ [] ↦ none | l ∷ w ↦ some (16 * hex_read h + hex_read l, w) ]
            ]
          ]
        ]
        else some (plain_escape x, s))
    else some (c, x ∷ s)

unescape-escape : (c : ℕ) (rest : List ℕ) → unescape (escape c ++ rest) ≡ some (c, rest)
unfolding unescape escape hex_digit hex_read
unescape-escape c [] = ground arith
unescape-escape c (x ∷ rest) = ground arith

-- No escaped character is a quote.
escape-ne_quote : (c : ℕ) (s t : List ℕ) → escape c ++ s ≢ 34 ∷ t
unfolding escape
escape-ne_quote c s t = ground arith

escaped-cons :
    (c : ℕ) (cs rest : List ℕ)
    → flat_map escape (c ∷ cs) ++ rest ≡ escape c ++ (flat_map escape cs ++ rest)
unfolding flat_map
escaped-cons c cs rest = append_assoc (escape c) (flat_map escape cs) rest

escaped-injective :
    (cs ds r s : List ℕ)
    → flat_map escape cs ++ 34 ∷ r ≡ flat_map escape ds ++ 34 ∷ s
    → (cs ≡ ds) × (r ≡ s)
unfolding flat_map
escaped-injective [] [] r s e = ground arith
escaped-injective [] (d ∷ ds) r s e =
    absurd (
      escape-ne_quote d (flat_map escape ds ++ 34 ∷ s) r (sym (escaped-cons d ds (34 ∷ s)) ∙ sym e))
escaped-injective (c ∷ cs) [] r s e =
    absurd
      (escape-ne_quote c (flat_map escape cs ++ 34 ∷ r) s (sym (escaped-cons c cs (34 ∷ r)) ∙ e))
escaped-injective (c ∷ cs) (d ∷ ds) r s e =
    let left = flat_map escape cs ++ 34 ∷ r in
    let right = flat_map escape ds ++ 34 ∷ s in
    let both : ◌≡◌ {A = Option (ℕ × List ℕ)} (some (c, left)) (some (d, right)) =
      sym (unescape-escape c left)
      ∙ (ap unescape (sym (escaped-cons c cs (34 ∷ r)) ∙ (e ∙ escaped-cons d ds (34 ∷ s)))
          ∙ unescape-escape d right) in
    let rest = escaped-injective cs ds r s (ground arith) in ground arith

-- JSON texts that stand at the front of the same bytes are the same text.
pub quoted_codes-injective :
    (cs ds r s : List ℕ) → quoted_codes cs ++ r ≡ quoted_codes ds ++ s → (cs ≡ ds) × (r ≡ s)
unfolding quoted_codes
quoted_codes-injective cs ds r s e = escaped-injective cs ds r s (
    sym (append_assoc (flat_map escape cs) (34 ∷ []) r)
    ∙ (ground arith ∙ append_assoc (flat_map escape ds) (34 ∷ []) s))

abbrev is_digit : ℕ → Bool
is_digit c = leb b'0' c && leb c b'9'

-- The number at the front of a text, behind the digits that were read.
read_number : ℕ → List ℕ → ℕ
read_number v [] = v
read_number v (c ∷ s) =
    let rest = read_number (v * 10 + (c - 48)) s in if is_digit c then rest else v

read_number-digits :
    (fuel n : ℕ) (acc s : List ℕ)
    → n < fuel
    → read_number 0 (digits fuel n acc ++ s) ≡ read_number n (acc ++ s)
unfolding read_number digits
read_number-digits zero n acc s h = elim h [ ]
read_number-digits (suc fuel) n acc s h = elim (Bool-cases (ltb n 10)) [
  | inl e ↦ rw (e, digits) (ground arith)
  | inr e ↦
      rw (e, digits)
        (read_number-digits fuel (n / 10) ((b'0' + n % 10) ∷ acc) s (ground arith) ∙ ground arith)
]

-- A number in front of a comma is read as that number.
pub decimal-injective : (m n : ℕ) (s t : List ℕ) → decimal m ++ 44 ∷ s ≡ decimal n ++ 44 ∷ t → m ≡ n
unfolding decimal read_number
decimal-injective m n s t e =
    sym (read_number-digits (suc m) m [] (44 ∷ s) (omega arith))
    ∙ (ap (read_number 0) e ∙ read_number-digits (suc n) n [] (44 ∷ t) (omega arith))
