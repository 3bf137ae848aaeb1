-- ===== src/Prelude/Bytes.antt =====
-- The order of Python's `bytes`, and sorting by it: one list of bytes for each multiset.
use Prim.Native.Nat.{ℕ}
use mathlib.Core.Path.{◌≡◌, refl, ap, sym, ◌∙◌}
use mathlib.Core.Bool.{Bool, true, false}
use mathlib.Core.List.{List, [], ◌∷◌, Perm, foldr}
use mathlib.Core.List.Perm
use native.Mathlib.Omega.{arith}
use planrace_subnet.Prelude.Tests.{ltb, if◌then◌else◌}
use planrace_subnet.Prelude.Sort.{insert_sorted, sort}

-- `<=` on bytes
unfoldable pub bytes_le : List ℕ → List ℕ → Bool
bytes_le [] ys = true
bytes_le (x ∷ xs) [] = false
bytes_le (x ∷ xs) (y ∷ ys) =
    let rest = bytes_le xs ys in if ltb x y then true else if ltb y x then false else rest

bytes_le-total : (a b : List ℕ) → bytes_le a b ≡ false → bytes_le b a ≡ true
unfolding bytes_le
bytes_le-total [] ys h = cc
bytes_le-total (x ∷ xs) [] h = refl
bytes_le-total (x ∷ xs) (y ∷ ys) h = ground (arith, bytes_le-total xs ys)

bytes_le_trans : (a b c : List ℕ) → bytes_le a b ≡ true → bytes_le b c ≡ true → bytes_le a c ≡ true
unfolding bytes_le
bytes_le_trans [] b c h k = refl
bytes_le_trans (x ∷ xs) [] c h k = cc
bytes_le_trans (x ∷ xs) (y ∷ ys) [] h k = cc
bytes_le_trans (x ∷ xs) (y ∷ ys) (z ∷ zs) h k = ground (arith, bytes_le_trans xs ys zs)

bytes_le_antisymm : (a b : List ℕ) → bytes_le a b ≡ true → bytes_le b a ≡ true → a ≡ b
unfolding bytes_le
bytes_le_antisymm [] [] h k = refl
bytes_le_antisymm [] (y ∷ ys) h k = cc
bytes_le_antisymm (x ∷ xs) [] h k = cc
bytes_le_antisymm (x ∷ xs) (y ∷ ys) h k = ground (arith, bytes_le_antisymm xs ys)

abbrev insert_bytes : List ℕ → List (List ℕ) → List (List ℕ)
insert_bytes = insert_sorted bytes_le

-- The order of two insertions does not matter.
insert_bytes_comm :
    (a b : List ℕ) (xs : List (List ℕ))
    → insert_bytes a (insert_bytes b xs) ≡ insert_bytes b (insert_bytes a xs)
unfolding insert_sorted
insert_bytes_comm a b [] = ground (arith, bytes_le-total a b, bytes_le_antisymm a b)
insert_bytes_comm a b (x ∷ xs) = ground (
  arith,
  insert_bytes_comm a b xs,
  bytes_le-total a b,
  bytes_le-total a x,
  bytes_le-total b x,
  bytes_le_antisymm a b,
  bytes_le_trans a b x,
  bytes_le_trans b a x,
)

sort-foldr : (xs : List (List ℕ)) → sort bytes_le xs ≡ foldr insert_bytes [] xs
unfolding sort
sort-foldr [] = refl
sort-foldr (x ∷ xs) = ap (insert_bytes x) (sort-foldr xs)

Rows-set : IsSet (List (List ℕ))
Rows-set = hlevel

-- Lists of bytes that are permutations of one another are sorted to the same list.
pub sort_of_perm : {xs ys : List (List ℕ)} → Perm xs ys → sort bytes_le xs ≡ sort bytes_le ys
sort_of_perm {xs} {ys} p =
    sort-foldr xs
    ∙ (Perm.foldr-eq Rows-set insert_bytes insert_bytes_comm p [] ∙ sym (sort-foldr ys))
