-- ===== src/Network/Tests.antt =====
-- Concrete runs of `ensure_supported_network`.
use planrace_subnet.Prelude.{
  ℕ, ◌≡◌, refl, ◌↔◌, List, [], ◌∷◌, ok, err, list_eq, nat_eq, string_eq, pair_eq,
}
use planrace_subnet.Network.{
  codes, mainnet_prohibited, not_allowlisted, strip, lower, ensure_supported_network,
}
use planrace_subnet.Network.Laws.{IsAllowed, IsMainnet, supported_iff, refused_iff}

-- A character outside ASCII stays as it is.
abbrev same : ℕ → List ℕ
same c = c ∷ []

abbrev padded : List ℕ
padded = codes " Test "

supported_iff_example :
    (ensure_supported_network same padded ≡ ok (codes "test"))
    ↔ ((codes "test" ≡ lower same (strip padded)) × IsAllowed (codes "test"))
supported_iff_example = supported_iff same padded (codes "test")

-- One name of each kind.
refused_moon : ensure_supported_network same (codes "moon") ≡ err not_allowlisted
unfolding ensure_supported_network lower strip
refused_moon = refl

refused_iff_example :
    let n = lower same (strip (codes "FINNEY ")) in
    ((ensure_supported_network same (codes "FINNEY ") ≡ err mainnet_prohibited) ↔ IsMainnet n)
    × ((ensure_supported_network same (codes "FINNEY ") ≡ err not_allowlisted)
        ↔ ((¬ IsAllowed n) × (¬ IsMainnet n)))
refused_iff_example = refused_iff same (codes "FINNEY ")
