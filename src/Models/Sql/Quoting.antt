-- ===== src/Models/Sql/Quoting.antt =====
-- How the quoted parts of a compiled index are read, by SQL's rule for quoted tokens.
use mathlib.Core.Path.{subst}
use mathlib.Core.List.{flat_map, append_assoc}
use planrace_subnet.Prelude.{
  ℕ, ◌≡◌, refl, sym, ap, ◌∙◌, inl, inr, String, Bool, true, false, Option, none, some, List, [],
  ◌∷◌, ◌++◌, ok, ◌==◌, nat_eq, if◌then◌else◌, arith, all, mem, Bool-cases,
}
use planrace_subnet.Digest.Payload.{codes}
use planrace_subnet.Models.Texts.{is_safe_identifier, is_word, is_identifier}
use planrace_subnet.Models.Index.{text_literal}
use planrace_subnet.Models.Sql.{quote_identifier, doubled, compile_literal}

abbrev put_first : ℕ → Option (List ℕ × List ℕ) → Option (List ℕ × List ℕ)
put_first c none = none
put_first c (some (text, rest)) = some (c ∷ text, rest)

-- The documented rule of SQL for a quoted token, behind its opening quote: a doubled quote stands for
-- one, and a single quote ends the token. What follows the token is returned with its text. There
-- is no reading over a NUL character, which Python's sqlite3 refuses in a statement.
unfoldable mutual
  pub read_quoted : ℕ → List ℕ → Option (List ℕ × List ℕ)
  read_quoted q [] = none
  read_quoted q (c ∷ s) = elim (c == q) [
    | true ↦ after_quote q s
    | false ↦ (elim (c == 0) [ true ↦ none | false ↦ put_first c (read_quoted q s) ])
  ]

  pub after_quote : ℕ → List ℕ → Option (List ℕ × List ℕ)
  after_quote q [] = some ([], [])
  after_quote q (d ∷ s) = elim (d == q) [
    | true ↦ put_first q (read_quoted q s)
    | false ↦ some ([], d ∷ s)
  ]

abbrev pub read_token : ℕ → List ℕ → Option (List ℕ × List ℕ)
read_token q [] = none
read_token q (c ∷ s) = if c == q then read_quoted q s else none

abbrev pub opens_with : ℕ → List ℕ → Bool
opens_with q [] = false
opens_with q (c ∷ s) = c == q

after_quote_end :
    (q : ℕ) (rest : List ℕ) → opens_with q rest ≡ false → after_quote q rest ≡ some ([], rest)
unfolding after_quote
after_quote_end q [] h = refl
after_quote_end q (d ∷ rest) h = ground arith

-- A text as it is read back: not at all, if it holds a NUL.
abbrev pub without_nul : List ℕ → List ℕ → Option (List ℕ × List ℕ)
without_nul text rest = if mem 0 text then none else some (text, rest)

without_nul_cons :
    (c : ℕ) (cs rest : List ℕ)
    → (c == 0) ≡ false
    → put_first c (without_nul cs rest) ≡ without_nul (c ∷ cs) rest
without_nul_cons c cs rest h = ground (arith, nat_eq.beq_iff 0 c, nat_eq.beq_iff c 0)

read_doubled :
    (cs rest : List ℕ)
    → opens_with 39 rest ≡ false
    → read_quoted 39 (flat_map doubled cs ++ 39 ∷ rest) ≡ without_nul cs rest
unfolding read_quoted after_quote doubled flat_map
read_doubled [] rest h = after_quote_end 39 rest h
read_doubled (c ∷ cs) rest h = elim (Bool-cases (c == 39)) [
  | inl e ↦ rw e (
      ap (put_first 39) (read_doubled cs rest h)
      ∙ without_nul_cons 39 cs rest refl
      ∙ ap (λ d. without_nul (d ∷ cs) rest) (sym ((nat_eq.beq_iff c 39).0 e)))
  | inr e ↦ rw e (elim (Bool-cases (c == 0)) [
    | inl z ↦ rw (e, z, read_quoted) (ground (arith, nat_eq.beq_iff 0 c, nat_eq.beq_iff c 0))
    | inr nz ↦
        rw (e, nz, read_quoted)
          (ap (put_first c) (read_doubled cs rest h) ∙ without_nul_cons c cs rest nz)
  ])
]

-- By SQL's rule for quoted tokens a text literal of a compiled predicate is read as that text and
-- ends where it was meant to end, provided that what follows it opens with no quote; if the
-- text holds a NUL character, it has no reading.
pub compile_literal-read :
    (s : String) (sql rest : List ℕ)
    → compile_literal (text_literal s) ≡ ok sql
    → opens_with 39 rest ≡ false
    → read_token 39 (sql ++ rest) ≡ without_nul (codes s) rest
unfolding compile_literal
compile_literal-read s sql rest h hr =
    let eq : 39 ∷ (flat_map doubled (codes s) ++ 39 ∷ []) ≡ sql = ground arith in
    subst (λ t. read_token 39 (t ++ rest) ≡ without_nul (codes s) rest) eq
      (ap (read_quoted 39) (append_assoc (flat_map doubled (codes s)) (39 ∷ []) rest)
        ∙ read_doubled (codes s) rest hr)

read_plain :
    (cs rest : List ℕ)
    → all is_word cs ≡ true
    → opens_with 34 rest ≡ false
    → read_quoted 34 (cs ++ 34 ∷ rest) ≡ some (cs, rest)
unfolding read_quoted after_quote
read_plain [] rest w h = after_quote_end 34 rest h
read_plain (c ∷ cs) rest w h =
    let other : (c == 34) ≡ false = ground arith in
    let visible : (c == 0) ≡ false = ground arith in ground (arith, read_plain cs rest)

identifier-words : (cs : List ℕ) → is_identifier cs ≡ true → all is_word cs ≡ true
identifier-words [] h = refl
identifier-words (c ∷ cs) h = ground arith

safe-identifier : (s : String) → is_safe_identifier s ≡ true → is_identifier (codes s) ≡ true
unfolding is_safe_identifier
safe-identifier s h = ground arith

-- By SQL's rule for quoted tokens a quoted identifier that passed the identifier grammar is read as
-- that identifier and ends where it was meant to end, provided that what follows it opens with no double quote.
pub quote_identifier-read :
    (s : String) (rest : List ℕ)
    → is_safe_identifier s ≡ true
    → opens_with 34 rest ≡ false
    → read_token 34 (quote_identifier s ++ rest) ≡ some (codes s, rest)
unfolding quote_identifier
quote_identifier-read s rest h hr =
    ap (read_quoted 34) (append_assoc (codes s) (34 ∷ []) rest)
    ∙ read_plain (codes s) rest (identifier-words (codes s) (safe-identifier s h)) hr
