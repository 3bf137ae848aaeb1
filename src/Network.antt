-- ===== src/Network.antt =====
-- planrace/network.py: the allowlist of chain targets. A text is the list of its code points.
pub mod Laws
mod Tests
pub use planrace_subnet.Digest.Payload.{codes}
use planrace_subnet.Prelude.{
  ℕ, ◌+◌, String, Bool, ◌&&◌, ◌||◌, List, [], ◌∷◌, ◌++◌, Result, ok, err, leb, ltb, mem, list_eq,
  ◌==◌, nat_eq, if◌then◌else◌,
}
use mathlib.Core.List.{reverse}

pub data NetworkError : Type 0 where
  mainnet_prohibited not_allowlisted : NetworkError

abbrev pub allowed_networks : List (List ℕ)
allowed_networks = codes "local" ∷ codes "test" ∷ []

abbrev pub mainnet_aliases : List (List ℕ)
mainnet_aliases =
    codes "finney"
    ∷ codes "main"
    ∷ codes "mainnet"
    ∷ codes "wss://entrypoint-finney.opentensor.ai"
    ∷ codes "wss://entrypoint-finney.opentensor.ai:443"
    ∷ []

-- The characters that `str.strip` takes off.
is_space : ℕ → Bool
is_space c =
    leb 9 c && leb c 13
    || leb 28 c && leb c 32
    || c == 0x85
    || c == 0xa0
    || c == 0x1680
    || leb 0x2000 c && leb c 0x200a
    || c == 0x2028
    || c == 0x2029
    || c == 0x202f
    || c == 0x205f
    || c == 0x3000

strip_left : List ℕ → List ℕ
strip_left [] = []
strip_left (c ∷ cs) = let rest = strip_left cs in if is_space c then rest else c ∷ cs

unfoldable pub strip : List ℕ → List ℕ
unfolding strip_left is_space
strip s = reverse (strip_left (reverse (strip_left s)))

-- `lower_other` is what `str.lower` makes of a character outside ASCII.
module _ (lower_other : ℕ → List ℕ) where
  lower_char : ℕ → List ℕ
  lower_char c =
      if leb 65 c && leb c 90 then (c + 32) ∷ [] else if ltb c 128 then c ∷ [] else lower_other c

  unfoldable pub lower : List ℕ → List ℕ
  unfolding lower_char
  lower [] = []
  lower (c ∷ cs) = lower_char c ++ lower cs

  unfoldable pub ensure_supported_network : List ℕ → Result NetworkError (List ℕ)
  ensure_supported_network value =
      let normalized = lower (strip value) in
      if mem normalized allowed_networks
      then ok normalized
      else err (if mem normalized mainnet_aliases then mainnet_prohibited else not_allowlisted)
