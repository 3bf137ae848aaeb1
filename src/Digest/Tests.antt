-- ===== src/Digest/Tests.antt =====
-- A concrete frame.
use planrace_subnet.Prelude.{ℕ, ◌≡◌, refl, List, [], ◌∷◌, list_eq, nat_eq, string_eq, pair_eq}
use planrace_subnet.Digest.{frame}
use planrace_subnet.Digest.Framing.{frame-injective}

abbrev prefix : List ℕ
prefix = 1 ∷ []

abbrev payload : List ℕ
payload = 2 ∷ 3 ∷ []

frame-injective_example : (prefix ≡ prefix) × (payload ≡ payload)
unfolding frame
frame-injective_example =
    frame-injective prefix payload prefix payload
      (0 ∷ 1 ∷ 1 ∷ 0 ∷ 0 ∷ 0 ∷ 0 ∷ 0 ∷ 0 ∷ 0 ∷ 2 ∷ 2 ∷ 3 ∷ []) refl refl
