-- ===== src/Network/Laws.antt =====
-- What the allowlist of planrace/network.py accepts and refuses.
use planrace_subnet.Prelude.{
  ℕ, ◌≡◌, refl, ◌⊎◌, ◌↔◌, inl, inr, true, false, not, List, [], ◌∷◌, ok, err, Bool-cases, ◌==◌,
  arith, mem, all_of_mem, list_eq, nat_eq,
}
use planrace_subnet.Network.{
  codes, mainnet_prohibited, not_allowlisted, allowed_networks, mainnet_aliases, strip, lower,
  ensure_supported_network, strip, lower,
}

abbrev pub IsAllowed : List ℕ → Type 0
IsAllowed n = (n ≡ codes "local") ⊎ (n ≡ codes "test")

mem-IsAllowed : (n : List ℕ) → mem n allowed_networks ≡ true → IsAllowed n
mem-IsAllowed n h =
    ground (arith, list_eq.beq_iff n (codes "local"), list_eq.beq_iff n (codes "test"))

-- The names by which the main network is known.
abbrev pub IsMainnet : List ℕ → Type 0
IsMainnet n =
    (n ≡ codes "finney")
    ⊎ (n ≡ codes "main")
    ⊎ (n ≡ codes "mainnet")
    ⊎ (n ≡ codes "wss://entrypoint-finney.opentensor.ai")
    ⊎ (n ≡ codes "wss://entrypoint-finney.opentensor.ai:443")

-- A name is one of a first one and the others.
abbrev IsOneOf : List ℕ → List (List ℕ) → List ℕ → Type 0
IsOneOf x [] n = n ≡ x
IsOneOf x (y ∷ ys) n = (n ≡ x) ⊎ IsOneOf y ys n

mem-IsOneOf :
    (x : List ℕ) (xs : List (List ℕ)) (n : List ℕ) → mem n (x ∷ xs) ≡ true → IsOneOf x xs n
mem-IsOneOf x [] n h = (list_eq.beq_iff n x).0 (ground arith)
mem-IsOneOf x (y ∷ ys) n h = elim (Bool-cases (n == x)) [
  | inl e ↦ inl ((list_eq.beq_iff n x).0 e)
  | inr e ↦ inr (mem-IsOneOf y ys n (ground arith))
]

aliases-IsMainnet : (n : List ℕ) → mem n mainnet_aliases ≡ true → IsMainnet n
aliases-IsMainnet n h =
    mem-IsOneOf (codes "finney")
      (codes "main"
        ∷ codes "mainnet"
        ∷ codes "wss://entrypoint-finney.opentensor.ai"
        ∷ codes "wss://entrypoint-finney.opentensor.ai:443"
        ∷ [])
      n h

IsMainnet-aliases : (n : List ℕ) → IsMainnet n → mem n mainnet_aliases ≡ true
IsMainnet-aliases n (inl e) = rw e refl
IsMainnet-aliases n (inr (inl e)) = rw e refl
IsMainnet-aliases n (inr (inr (inl e))) = rw e refl
IsMainnet-aliases n (inr (inr (inr (inl e)))) = rw e refl
IsMainnet-aliases n (inr (inr (inr (inr e)))) = rw e refl

IsAllowed-mem : (n : List ℕ) → IsAllowed n → mem n allowed_networks ≡ true
IsAllowed-mem n (inl e) = rw e refl
IsAllowed-mem n (inr e) = rw e refl

alias-not-allowed : (n : List ℕ) → mem n mainnet_aliases ≡ true → mem n allowed_networks ≡ false
alias-not-allowed n h =
    ground (arith, all_of_mem (λ v. not (mem v allowed_networks)) n mainnet_aliases refl h)

module _ (lower_other : ℕ → List ℕ) where
  -- A network is accepted exactly when its stripped and lowered name is "local" or "test", and
  -- that name is what is returned.
  pub supported_iff :
      (value n : List ℕ)
      → (ensure_supported_network lower_other value ≡ ok n)
        ↔ ((n ≡ lower lower_other (strip value)) × IsAllowed n)
  unfolding ensure_supported_network
  supported_iff value n =
      (λ h. ground (arith, mem-IsAllowed (lower lower_other (strip value))), λ h. ground arith)

  -- A name is refused as prohibited exactly when, stripped and lowered, it is one of the five names
  -- of the main network, and as not allowlisted exactly when it is neither one of these nor "local"
  -- or "test".
  pub refused_iff :
      (value : List ℕ)
      → let n = lower lower_other (strip value) in
        ((ensure_supported_network lower_other value ≡ err mainnet_prohibited) ↔ IsMainnet n)
        × ((ensure_supported_network lower_other value ≡ err not_allowlisted)
            ↔ ((¬ IsAllowed n) × (¬ IsMainnet n)))
  unfolding ensure_supported_network
  refused_iff value =
      let n = lower lower_other (strip value) in
      (
        (
          λ h. aliases-IsMainnet n (ground arith),
          λ m. let alias = IsMainnet-aliases n m in rw (alias-not-allowed n alias, alias) refl,
        ),
        (
          λ h. (λ a. ground (arith, IsAllowed-mem n a), λ m. ground (arith, IsMainnet-aliases n m)),
          λ (a, m).
              let foreign : mem n allowed_networks ≡ false = ground (arith, mem-IsAllowed n) in
              let unknown : mem n mainnet_aliases ≡ false = ground (arith, aliases-IsMainnet n) in
              rw (foreign, unknown) refl,
        ),
      )

  -- A name that was accepted is accepted again as it is.
  pub supported_again :
      (value n : List ℕ)
      → ensure_supported_network lower_other value ≡ ok n
      → ensure_supported_network lower_other n ≡ ok n
  supported_again value n h = elim ((supported_iff value n).0 h).1 [
    | inl e ↦ rw e (unfold ensure_supported_network lower strip in refl)
    | inr e ↦ rw e (unfold ensure_supported_network lower strip in refl)
  ]
