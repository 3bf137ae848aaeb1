-- ===== src/Prelude/Members.antt =====
-- Membership, uniqueness and predicates under the operations on lists.
use mathlib.Core.Path.{◌≡◌, refl}
use mathlib.Core.Logic.{inl, inr}
use mathlib.Core.Bool.{Bool, true, ◌&&◌, ◌||◌}
use mathlib.Core.List.{List, [], ◌∷◌, ◌++◌}
use native.Mathlib.Omega.{arith}
use planrace_subnet.Prelude.Tests.{Bool-cases}
use planrace_subnet.Prelude.Lists.{filter}
use planrace_subnet.Prelude.Equality.{Eq, ◌==◌, mem, distinct, All}

module _ {ℓ} {A : Type ℓ} ⦃e : Eq A⦄ where
  pub mem-filter : (p : A → Bool) (a : A) (xs : List A) → mem a (filter p xs) ≡ (mem a xs && p a)
  mem-filter p a [] = refl
  mem-filter p a (x ∷ xs) = elim (Bool-cases (a == x)) [
    | inl same ↦ rw ((e.beq_iff a x).0 same) (ground (arith, e.beq_iff x x, mem-filter p x xs))
    | inr other ↦ ground (arith, mem-filter p a xs)
  ]

  pub distinct-filter :
      (p : A → Bool) (xs : List A) → distinct xs ≡ true → distinct (filter p xs) ≡ true
  distinct-filter p [] h = refl
  distinct-filter p (x ∷ xs) h = ground (arith, mem-filter p x xs, distinct-filter p xs)

  pub mem-append : (a : A) (xs ys : List A) → mem a (xs ++ ys) ≡ (mem a xs || mem a ys)
  mem-append a [] ys = refl
  mem-append a (x ∷ xs) ys = ground (arith, mem-append a xs ys)

module _ {ℓ κ} {A : Type ℓ} where
  pub All-filter : (P : A → Type κ) (p : A → Bool) (xs : List A) → All P xs → All P (filter p xs)
  All-filter P p [] h = tt
  All-filter P p (x ∷ xs) (hx, hs) = elim (Bool-cases (p x)) [
    | inl e ↦ rw e (hx, All-filter P p xs hs)
    | inr e ↦ rw e (All-filter P p xs hs)
  ]

  pub All-append : (P : A → Type κ) (xs ys : List A) → All P xs → All P ys → All P (xs ++ ys)
  All-append P [] ys hx hy = hy
  All-append P (x ∷ xs) ys hx hy = (hx.0, All-append P xs ys hx.1 hy)
