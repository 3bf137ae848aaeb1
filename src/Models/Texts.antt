-- ===== src/Models/Texts.antt =====
-- The constrained text types of planrace/models_v2.py, and the errors of its validators.
use planrace_subnet.Prelude.{
  ℕ, String, Bool, ◌&&◌, ◌||◌, List, [], ◌∷◌, all, leb, length, list_beq, nat_eq, take, drop, false,
  ◌==◌,
}
use planrace_subnet.Digest.Payload.{codes}

pub data ModelError : Type 0 where
  bad_text null_literal_misplaced bad_predicate repeated_column unique_with_tail bad_columns :
      ModelError
  bad_metadata too_many_indexes digest_mismatch bad_parameter_range bad_statistics : ModelError
  bad_budget bad_task bad_reveal foreign_task expiry_not_after_issue bad_links : ModelError

abbrev pub is_lower_hex : ℕ → Bool
is_lower_hex c = leb b'0' c && leb c b'9' || leb b'a' c && leb c b'f'

abbrev pub is_digit : ℕ → Bool
is_digit c = leb b'0' c && leb c b'9'

abbrev pub is_lower : ℕ → Bool
is_lower c = leb b'a' c && leb c b'z'

abbrev pub is_upper : ℕ → Bool
is_upper c = leb b'A' c && leb c b'Z'

-- `^[0-9a-f]{n}$`
pub is_hex : ℕ → List ℕ → Bool
is_hex n s = length s == n && all is_lower_hex s

-- `Sha256Digest`
unfoldable pub is_sha256_digest : String → Bool
unfolding is_hex
is_sha256_digest s = list_beq (take 7 (codes s)) (codes "sha256:") && is_hex 64 (drop 7 (codes s))

-- `OpaqueId`, `Hex32Bytes` and `SignatureHex`
unfoldable pub is_opaque_id : String → Bool
unfolding is_hex
is_opaque_id s = is_hex 32 (codes s)

unfoldable pub is_hex_32_bytes : String → Bool
unfolding is_hex
is_hex_32_bytes s = is_hex 64 (codes s)

unfoldable pub is_signature_hex : String → Bool
unfolding is_hex
is_signature_hex s = is_hex 128 (codes s)

-- `min_length` and `max_length`
unfoldable pub has_length : ℕ → ℕ → String → Bool
has_length least most s = leb least (length (codes s)) && leb (length (codes s)) most

abbrev is_base58 : ℕ → Bool
is_base58 c =
    leb b'1' c && leb c b'9'
    || leb b'A' c && leb c b'H'
    || leb b'J' c && leb c b'N'
    || leb b'P' c && leb c b'Z'
    || leb b'a' c && leb c b'k'
    || leb b'm' c && leb c b'z'

-- `Hotkey`
unfoldable pub is_hotkey : String → Bool
unfolding has_length
is_hotkey s = has_length 32 64 s && all is_base58 (codes s)

abbrev pub is_word : ℕ → Bool
is_word c = is_lower c || is_upper c || is_digit c || c == b'_'

abbrev starts_word : ℕ → Bool
starts_word c = is_lower c || is_upper c || c == b'_'

abbrev pub is_identifier : List ℕ → Bool
is_identifier [] = false
is_identifier (c ∷ cs) = starts_word c && all is_word cs

-- `SafeIdentifier`
unfoldable pub is_safe_identifier : String → Bool
unfolding has_length
is_safe_identifier s = has_length 1 63 s && is_identifier (codes s)

abbrev is_family_char : ℕ → Bool
is_family_char c = is_lower c || is_digit c || c == 45

abbrev is_family : List ℕ → Bool
is_family [] = false
is_family (c ∷ cs) = (is_lower c || is_digit c) && all is_family_char cs

-- `BenchmarkFamilyId`
unfoldable pub is_family_id : String → Bool
unfolding has_length
is_family_id s = has_length 1 63 s && is_family (codes s)
