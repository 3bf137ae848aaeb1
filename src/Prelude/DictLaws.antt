-- ===== src/Prelude/DictLaws.antt =====
-- The keys and values of a dict under its operations.
use planrace_subnet.Prelude.Tests.{Bool-cases}
use planrace_subnet.Prelude.Lists.{length}
use planrace_subnet.Prelude.Equality.{Eq, ◌==◌, mem, All}
use planrace_subnet.Prelude.Dict.{Dict, keys, values, insert, erase, update}
use Prim.Native.Nat.{suc, ◌≤◌}
use mathlib.Core.Path.{◌≡◌, refl}
use mathlib.Core.Logic.{inl, inr}
use mathlib.Core.Bool.{true, ◌||◌}
use mathlib.Core.List.{[], ◌∷◌}
use native.Mathlib.Omega.{arith}

module _ {ℓ κ} {K : Type ℓ} {V : Type κ} ⦃e : Eq K⦄ where
  pub keys-insert :
      (k j : K) (v : V) (d : Dict K V) → mem k (keys (insert j v d)) ≡ (k == j || mem k (keys d))
  keys-insert k j v [] = refl
  keys-insert k j v ((i, w) ∷ d) =
      ground (arith, keys-insert k j v d, e.beq_iff i j, e.beq_iff k j, e.beq_iff k i)

  pub keys-update :
      (k : K) (d f : Dict K V) → mem k (keys (update d f)) ≡ (mem k (keys d) || mem k (keys f))
  keys-update k d [] = ground arith
  keys-update k d ((j, v) ∷ f) = ground (arith, keys-update k (insert j v d) f, keys-insert k j v d)

  -- Erasing a key leaves the other keys.
  pub keys-erase :
      (k j : K) (d : Dict K V) → (k == j || mem k (keys (erase j d))) ≡ (k == j || mem k (keys d))
  keys-erase k j [] = refl
  keys-erase k j ((i, w) ∷ d) =
      ground (arith, keys-erase k j d, e.beq_iff i j, e.beq_iff k j, e.beq_iff k i)

module _ {ℓ κ μ} {K : Type ℓ} {V : Type κ} ⦃e : Eq K⦄ (P : V → Type μ) where
  pub values-insert :
      (k : K) (v : V) (d : Dict K V) → P v → All P (values d) → All P (values (insert k v d))
  values-insert k v [] hv h = (hv, tt)
  values-insert k v ((j, w) ∷ d) hv h = elim (Bool-cases (j == k)) [
    | inl same ↦ rw same (hv, h.1)
    | inr other ↦ rw other (h.0, values-insert k v d hv h.1)
  ]

  pub values-update :
      (d f : Dict K V) → All P (values d) → All P (values f) → All P (values (update d f))
  values-update d [] hd he = hd
  values-update d ((k, v) ∷ f) hd he =
      values-update (insert k v d) f (values-insert k v d he.0 hd) he.1

  pub values-erase : (k : K) (d : Dict K V) → All P (values d) → All P (values (erase k d))
  values-erase k [] h = tt
  values-erase k ((j, v) ∷ d) h = elim (Bool-cases (j == k)) [
    | inl same ↦ rw same h.1
    | inr other ↦ rw other (h.0, values-erase k d h.1)
  ]

module _ {ℓ κ} {K : Type ℓ} {V : Type κ} ⦃e : Eq K⦄ where
  pub length-erase-le : (k : K) (d : Dict K V) → length (erase k d) ≤ length d
  length-erase-le k [] = omega arith
  length-erase-le k ((j, v) ∷ d) = ground (arith, length-erase-le k d)

  pub length-erase :
      (k : K) (d : Dict K V) → mem k (keys d) ≡ true → suc (length (erase k d)) ≡ length d
  length-erase k [] h = cc
  length-erase k ((j, v) ∷ d) h = ground (arith, length-erase k d, e.beq_iff k j, e.beq_iff j k)

  -- Every entry's key is a key.
  pub All_keys : (d : Dict K V) → All (λ x. mem x.0 (keys d) ≡ true) d
  All_keys d = weaken d d (λ k h. h)
    where
      weaken :
          (xs ys : Dict K V)
          → ((k : K) → mem k (keys xs) ≡ true → mem k (keys ys) ≡ true)
          → All (λ x. mem x.0 (keys ys) ≡ true) xs
      weaken [] ys h = tt
      weaken ((k, v) ∷ xs) ys h =
          (h k (ground (arith, e.beq_iff k k)), weaken xs ys (λ j mj. h j (ground arith)))
