-- ===== src/Digest.antt =====
-- The canonical payloads and domain-separated digests of planrace/models_v2.py. `json.dumps` is
-- written out for the values that a v2 payload may hold; SHA-256 is a parameter.
pub mod Payload
pub mod Framing
mod Tests
use Prim.Native.String.{◌++◌ as concat}
use planrace_subnet.Prelude.{
  ℕ, zero, suc, ◌+◌, ◌*◌, ◌/◌, ◌%◌, ◌^◌, String, Bool, not, ◌||◌, List, [], ◌∷◌, ◌++◌, Result, ok,
  err, ◌>>=◌, ◌>>◌, raise_if, length, all, leb, ltb, list_beq, nat_eq, take, any,
}
use planrace_subnet.Digest.Payload.{Json, codes, dumps, utf8_all, has_float}

pub data DigestError : Type 0 where
  bad_domain float_value length_overflow domain_not_ascii : DigestError

-- `n.to_bytes(k, "big")`, for an n that fits
pub to_bytes : ℕ → ℕ → List ℕ
to_bytes zero n = []
to_bytes (suc k) n = to_bytes k (n / 256) ++ n % 256 ∷ []

-- `canonical_json_bytes`
unfoldable pub canonical_json_bytes : Json → Result DigestError (List ℕ)
unfolding has_float dumps utf8_all
canonical_json_bytes value = do raise_if (has_float value) float_value; ok (utf8_all (dumps value))

-- The framed bytes that are hashed: both parts behind their lengths.
unfoldable pub frame : List ℕ → List ℕ → Result DigestError (List ℕ)
unfolding to_bytes
frame prefix payload = do
  raise_if (leb (256 ^ 2) (length prefix) || leb (256 ^ 8) (length payload)) length_overflow
  ok (to_bytes 2 (length prefix) ++ (prefix ++ (to_bytes 8 (length payload) ++ payload)))

-- `hashlib.sha256(...).hexdigest()` is the parameter.
module _ (sha256 : List ℕ → String) where
  unfoldable pub domain_separated_digest : String → Json → Result DigestError String
  unfolding canonical_json_bytes frame
  domain_separated_digest domain value = do
    let prefix = codes domain
    raise_if (not (list_beq (take 11 prefix) (codes "planrace/2:"))) bad_domain
    payload ← canonical_json_bytes value
    raise_if (any (λ c. leb 128 c) prefix) domain_not_ascii
    framed ← frame prefix payload
    ok (concat "sha256:" (sha256 framed))
