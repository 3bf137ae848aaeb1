-- ===== src/Prelude/Raising.antt =====
-- A function that may raise returns a `Result`, with the exceptions of its module as errors.
use mathlib.Core.Bool.{Bool, true, false}
use mathlib.Core.List.{List, [], ◌∷◌, map}
use mathlib.Core.Path.{◌≡◌, refl, sym, subst}
use mathlib.Core.Logic.{◌⊎◌, inl, inr}
use native.Mathlib.Omega.{arith}
use planrace_subnet.Prelude.Equality.{All, All₂}

pub data Result {ℓ κ} (E : Type ℓ) (A : Type κ) : Type (ℓ ⊔ κ) where
  ok : A → Result E A
  err : E → Result E A

infixl 5 ◌>>=◌ ◌>>◌
abbrev pub ◌>>=◌ {ℓ κ μ} :
    {E : Type ℓ} {A : Type κ} {B : Type μ} → Result E A → (A → Result E B) → Result E B
ok a >>= f = f a
err e >>= f = err e

abbrev pub ◌>>◌ {ℓ κ} : {E : Type ℓ} {B : Type κ} → Result E (Unit {0}) → Result E B → Result E B
m >> k = m >>= λ _. k

-- `if c: raise e`
abbrev pub raise_if {ℓ} : {E : Type ℓ} → Bool → E → Result E (Unit {0})
raise_if true e = err e
raise_if false e = ok tt

-- Evaluates a list of fallible steps from left to right, stopping at the first error.
abbrev pub sequence {ℓ κ} : {E : Type ℓ} {A : Type κ} → List (Result E A) → Result E (List A)
sequence [] = ok []
sequence (r ∷ rs) = do a ← r; as' ← sequence rs; ok (a ∷ as')

pub Result-cases {ℓ κ} :
    {E : Type ℓ} {A : Type κ} (r : Result E A) → ((a : A) × (r ≡ ok a)) ⊎ ((e : E) × (r ≡ err e))
Result-cases (ok a) = inl (a, refl)
Result-cases (err e) = inr (e, refl)

-- What holds of the value, if one is returned.
abbrev pub Ensures {ℓ κ μ} : {E : Type ℓ} {A : Type κ} → (A → Type μ) → Result E A → Type μ
Ensures P (ok a) = P a
Ensures P (err e) = Unit

pub Ensures-bind {ℓ κ μ ν} :
    {E : Type ℓ} {A : Type κ} {B : Type μ} (P : B → Type ν) (m : Result E A) (f : A → Result E B)
    → ((a : A) → m ≡ ok a → Ensures P (f a))
    → Ensures P (m >>= f)
Ensures-bind P (ok a) f h = h a refl
Ensures-bind P (err e) f h = tt

pub of_Ensures {ℓ κ μ} :
    {E : Type ℓ} {A : Type κ} (P : A → Type μ) (m : Result E A) {a : A}
    → Ensures P m
    → m ≡ ok a
    → P a
of_Ensures P m h e = rw e at h

pub sequence-All {ℓ κ μ} :
    {E : Type ℓ} {A : Type κ} (P : A → Type μ) (rs : List (Result E A))
    → All (Ensures P) rs
    → Ensures (All P) (sequence rs)
sequence-All P [] h = tt
sequence-All P (ok a ∷ rs) (hr, hs) =
    Ensures-bind (All P) (sequence rs) (λ as'. ok (a ∷ as'))
      (λ as' e. (hr, of_Ensures (All P) (sequence rs) (sequence-All P rs hs) e))
sequence-All P (err e ∷ rs) h = tt

-- A list comprehension of fallible steps returns one value for each element.
pub sequence-map {ℓ κ μ} :
    {E : Type ℓ} {A : Type κ} {B : Type μ} (P : A → B → Type 0) (f : A → Result E B)
    → ((a : A) (b : B) → f a ≡ ok b → P a b)
    → (xs : List A) (ys : List B) → sequence (map f xs) ≡ ok ys
    → All₂ P xs ys
sequence-map P f step [] [] h = tt
sequence-map P f step [] (y ∷ ys) h = cc
sequence-map P f step (x ∷ xs) ys h = elim (Result-cases (f x)) [
  | inr (e, bad) ↦ absurd (ground arith)
  | inl (b, good) ↦ elim (Result-cases (sequence (map f xs))) [
    | inr (e, bad) ↦ absurd (ground arith)
    | inl (bs, rest) ↦
        let eq : ys ≡ b ∷ bs = ground arith in
        subst (All₂ P (x ∷ xs)) (sym eq) (step x b good, sequence-map P f step xs bs rest)
  ]
]

pub ok-injective {ℓ κ} :
    {E : Type ℓ} {A : Type κ} {a b : A} → ◌≡◌ {A = Result E A} (ok a) (ok b) → a ≡ b
ok-injective h = ground arith
