-- ===== src/Models/Bundle/Strategy.antt =====
-- `optimization_strategy_digest` of planrace/models_v2.py: a bundle's executable part.
use planrace_subnet.Prelude.{ℕ, String, Bool, none, some, List, [], ◌∷◌, map, Result}
use planrace_subnet.Prelude.Sort.{sort}
use planrace_subnet.Prelude.Bytes.{bytes_le}
use planrace_subnet.Digest.{DigestError, domain_separated_digest}
use planrace_subnet.Digest.Payload.{str, array, object, dumps, utf8_all}
use planrace_subnet.Models.Index.{PredicateAtom, IndexSpec, atom_json, index_json}
use planrace_subnet.Models.Bundle.{OptimizationBundle, protocol_version}

-- `canonical_json_bytes(atom)`; an atom holds no float.
abbrev atom_bytes : PredicateAtom → List ℕ
atom_bytes a = utf8_all (dumps (atom_json a))

abbrev atom_le : PredicateAtom → PredicateAtom → Bool
atom_le a b = bytes_le (atom_bytes a) (atom_bytes b)

pub normalized_index : IndexSpec → IndexSpec
unfolding bytes_le
normalized_index s = elim s.predicate [
  | none ↦ s
  | some atoms ↦ record s { predicate = some (sort atom_le atoms) }
]

module _ (sha256 : List ℕ → String) where
  unfoldable pub optimization_strategy_digest : OptimizationBundle → Result DigestError String
  unfolding normalized_index
  optimization_strategy_digest b = domain_separated_digest sha256 "planrace/2:executable-strategy" (
      object (
        ("protocol_version", str protocol_version)
        ∷ ("engine_image_digest", str b.engine_image_digest)
        ∷ ("indexes", array (map (λ s. index_json (normalized_index s)) b.indexes))
        ∷ []))
