-- ===== src/Prelude/Perms.antt =====
-- Distinct names and groups of members under permutations and sorting.
use mathlib.Core.Path.{◌≡◌, refl, ap, ◌∙◌}
use mathlib.Core.Logic.{inl, inr, ∥∥₁_elim}
use mathlib.Core.Bool.{Bool, Bool-set, true, ◌||◌}
use mathlib.Core.List.{
  List, [], ◌∷◌, ◌++◌, map, Perm, Permᴰ, append_assoc, perm_append_comm, perm_middle,
}
use mathlib.Core.List.Perm
use native.Mathlib.Omega.{arith}
use planrace_subnet.Prelude.Tests.{Bool-cases}
use planrace_subnet.Prelude.Equality.{Eq, ◌==◌, mem, distinct}
use planrace_subnet.Prelude.Dict.{Dict, keys, append_group}
use planrace_subnet.Prelude.Sort.{insert_sorted, sort}

module _ {ℓ} {A : Type ℓ} ⦃e : Eq A⦄ where
  mem_of_pathed : (a : A) {xs ys : List A} → Permᴰ xs ys → mem a xs ≡ mem a ys
  mem_of_pathed a Permᴰ.nil = refl
  mem_of_pathed a (Permᴰ.cons h p) = rw (h, mem_of_pathed a p) refl
  mem_of_pathed a (Permᴰ.swap h k) = rw (h, k) (ground arith)
  mem_of_pathed a (Permᴰ.trans p q) = mem_of_pathed a p ∙ mem_of_pathed a q

  distinct_of_pathed : {xs ys : List A} → Permᴰ xs ys → distinct xs ≡ distinct ys
  distinct_of_pathed Permᴰ.nil = refl
  distinct_of_pathed (Permᴰ.cons {a} {b} h p) = rw (h, mem_of_pathed b p, distinct_of_pathed p) refl
  distinct_of_pathed (Permᴰ.swap {a} {b} {a'} {b'} h k) =
      rw (h, k) (ground (arith, e.beq_iff a' b', e.beq_iff b' a'))
  distinct_of_pathed (Permᴰ.trans p q) = distinct_of_pathed p ∙ distinct_of_pathed q

  pub distinct_of_perm : {xs ys : List A} → Perm xs ys → distinct xs ≡ distinct ys
  distinct_of_perm p = ∥∥₁_elim p (Bool-set _ _) (λ d. distinct_of_pathed d)

module _ {ℓ κ} {K : Type ℓ} {A : Type κ} where
  -- The members of all groups.
  abbrev pub flatten : Dict K (List A) → List A
  flatten [] = []
  flatten ((k, as') ∷ g) = as' ++ flatten g

  module _ (le : K × List A → K × List A → Bool) where
    flatten-insert_sorted :
        (a : K × List A) (g : Dict K (List A))
        → Perm (flatten (insert_sorted le a g)) (a.1 ++ flatten g)
    unfolding insert_sorted
    flatten-insert_sorted (k, as') [] = Perm.rfl
    flatten-insert_sorted (k, as') ((j, bs) ∷ g) = elim (Bool-cases (le (k, as') (j, bs))) [
      | inl e ↦ rw e Perm.rfl
      | inr e ↦ rw e (
          Perm.trans (Perm.append_left bs (flatten-insert_sorted (k, as') g)) (
            rw (← append_assoc bs as' (flatten g), ← append_assoc as' bs (flatten g))
              (Perm.append_right (flatten g) (perm_append_comm bs as'))))
    ]

    pub flatten-sort : (g : Dict K (List A)) → Perm (flatten (sort le g)) (flatten g)
    unfolding sort
    flatten-sort [] = Perm.rfl
    flatten-sort ((k, as') ∷ g) =
        Perm.trans (flatten-insert_sorted (k, as') (sort le g))
          (Perm.append_left as' (flatten-sort g))

module _ {ℓ κ} {K : Type ℓ} {A : Type κ} ⦃e : Eq K⦄ where
  pub flatten-append_group :
      (k : K) (a : A) (g : Dict K (List A)) → Perm (flatten (append_group k a g)) (a ∷ flatten g)
  flatten-append_group k a [] = Perm.rfl
  flatten-append_group k a ((j, as') ∷ g) = elim (Bool-cases (j == k)) [
    | inl same ↦ rw (same, append_assoc as' (a ∷ []) (flatten g)) (perm_middle as' (flatten g))
    | inr other ↦ rw other (
        Perm.trans (Perm.append_left as' (flatten-append_group k a g))
          (perm_middle as' (flatten g)))
  ]

  keys-append_group :
      (k j : K) (a : A) (g : Dict K (List A))
      → mem j (keys (append_group k a g)) ≡ (j == k || mem j (keys g))
  keys-append_group k j a [] = refl
  keys-append_group k j a ((i, as') ∷ g) =
      ground (arith, keys-append_group k j a g, e.beq_iff i k, e.beq_iff j i, e.beq_iff j k)

  pub distinct-append_group :
      (k : K) (a : A) (g : Dict K (List A))
      → distinct (keys g) ≡ true
      → distinct (keys (append_group k a g)) ≡ true
  distinct-append_group k a [] h = refl
  distinct-append_group k a ((i, as') ∷ g) h =
      ground (arith, distinct-append_group k a g, keys-append_group k i a g, e.beq_iff i k)

module _ {ℓ κ} {K : Type ℓ} {A : Type κ} where
  pub keys-map : (d : Dict K A) → keys d ≡ map (λ x. x.0) d
  keys-map [] = refl
  keys-map ((k, a) ∷ d) = ap (λ ks. k ∷ ks) (keys-map d)

  pub keys_of_perm : {d d' : Dict K A} → Perm d d' → Perm (keys d) (keys d')
  keys_of_perm {d} {d'} p = rw (keys-map d, keys-map d') (Perm.map (λ x. x.0) p)
