-- ===== src/Prelude/Sort.antt =====
-- `sorted(xs)` by a Boolean order: a stable insertion sort.
use mathlib.Core.Path.{◌≡◌}
use mathlib.Core.Logic.{inl, inr}
use mathlib.Core.Bool.{Bool, true, false}
use mathlib.Core.List.{List, [], ◌∷◌, Perm}
use mathlib.Core.List.Perm
use planrace_subnet.Prelude.Tests.{if◌then◌else◌, Bool-cases}
use planrace_subnet.Prelude.Equality.{All}

module _ {ℓ} {A : Type ℓ} (le : A → A → Bool) where
  unfoldable pub insert_sorted : A → List A → List A
  insert_sorted a [] = a ∷ []
  insert_sorted a (x ∷ xs) = if le a x then a ∷ x ∷ xs else x ∷ insert_sorted a xs

  unfoldable pub sort : List A → List A
  unfolding insert_sorted
  sort [] = []
  sort (x ∷ xs) = insert_sorted x (sort xs)

  -- Every element is in order with each later one.
  abbrev pub IsSorted : List A → Type 0
  IsSorted [] = Unit
  IsSorted (x ∷ xs) = All (λ y. le x y ≡ true) xs × IsSorted xs

  insert_sorted-perm : (a : A) (xs : List A) → Perm (insert_sorted a xs) (a ∷ xs)
  unfolding insert_sorted
  insert_sorted-perm a [] = Perm.rfl
  insert_sorted-perm a (x ∷ xs) = elim (Bool-cases (le a x)) [
    | inl e ↦ rw e Perm.rfl
    | inr e ↦ rw e (Perm.trans (Perm.cons x (insert_sorted-perm a xs)) (Perm.swap a x xs))
  ]

  -- Sorting loses and repeats nothing.
  pub sort-perm : (xs : List A) → Perm (sort xs) xs
  unfolding sort
  sort-perm [] = Perm.rfl
  sort-perm (x ∷ xs) = Perm.trans (insert_sorted-perm x (sort xs)) (Perm.cons x (sort-perm xs))

  module _ {κ} (P : A → Type κ) where
    All-insert_sorted : (a : A) (xs : List A) → P a → All P xs → All P (insert_sorted a xs)
    unfolding insert_sorted
    All-insert_sorted a [] ha h = (ha, tt)
    All-insert_sorted a (x ∷ xs) ha h = elim (Bool-cases (le a x)) [
      | inl e ↦ rw e (ha, h)
      | inr e ↦ rw e (h.0, All-insert_sorted a xs ha h.1)
    ]

    pub All-sort : (xs : List A) → All P xs → All P (sort xs)
    unfolding sort
    All-sort [] h = tt
    All-sort (x ∷ xs) h = All-insert_sorted x (sort xs) h.0 (All-sort xs h.1)

-- Sorting by an order also sorts by a coarser one.
module _ {ℓ} {A : Type ℓ} (le coarse : A → A → Bool)
    (below : (a b : A) → le a b ≡ true → coarse a b ≡ true)
    (above : (a b : A) → le a b ≡ false → coarse b a ≡ true)
    (trans : (a b c : A) → coarse a b ≡ true → coarse b c ≡ true → coarse a c ≡ true) where
  below_all :
      (a x : A) (xs : List A)
      → coarse a x ≡ true
      → All (λ y. coarse x y ≡ true) xs
      → All (λ y. coarse a y ≡ true) xs
  below_all a x [] h hs = tt
  below_all a x (y ∷ ys) h hs = (trans a x y h hs.0, below_all a x ys h hs.1)

  insert_sorted-IsSorted_by :
      (a : A) (xs : List A) → IsSorted coarse xs → IsSorted coarse (insert_sorted le a xs)
  unfolding insert_sorted
  insert_sorted-IsSorted_by a [] h = (tt, tt)
  insert_sorted-IsSorted_by a (x ∷ xs) h = elim (Bool-cases (le a x)) [
    | inl e ↦ rw e ((below a x e, below_all a x xs (below a x e) h.0), h)
    | inr e ↦ rw e (
      All-insert_sorted le (λ y. coarse x y ≡ true) a xs (above a x e) h.0,
      insert_sorted-IsSorted_by a xs h.1,
    )
  ]

  pub sort-IsSorted_by : (xs : List A) → IsSorted coarse (sort le xs)
  unfolding sort
  sort-IsSorted_by [] = tt
  sort-IsSorted_by (x ∷ xs) = insert_sorted-IsSorted_by x (sort le xs) (sort-IsSorted_by xs)

-- A total order sorts.
pub sort-IsSorted {ℓ} :
    {A : Type ℓ} (le : A → A → Bool)
    → ((a b : A) → le a b ≡ false → le b a ≡ true)
    → ((a b c : A) → le a b ≡ true → le b c ≡ true → le a c ≡ true)
    → (xs : List A) → IsSorted le (sort le xs)
sort-IsSorted le total trans = sort-IsSorted_by le le (λ a b h. h) total trans
