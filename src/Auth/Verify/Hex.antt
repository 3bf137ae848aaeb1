-- ===== src/Auth/Verify/Hex.antt =====
-- The signature of a response as a hexadecimal text.
use planrace_subnet.Prelude.{
  ℕ, zero, suc, ◌+◌, ◌/◌, ◌%◌, ◌<◌, ◌≡◌, refl, ap, ◌∙◌, String, some, List, [], ◌∷◌, ◌++◌, get_or,
  ltb, if◌then◌else◌, arith, All,
}
use Prim.Native.String.{◌++◌ as concat}
use Prim.Native.Char.{code}
use text.Mathlib.TextLemmas.{nil-append, cons-append}
use planrace_subnet.Digest.Payload.{codes}
use planrace_subnet.Models.Hex.{hex_digits, to_hex}
use planrace_subnet.Auth.Verify.{hex_value, from_hex}

codes-concat : (s t : String) → codes (concat s t) ≡ codes s ++ codes t
codes-concat String.[] t = ap codes (nil-append t)
codes-concat (String.◌∷◌ c s) t =
    ap codes (cons-append c s t) ∙ ap (λ cs. code c ∷ cs) (codes-concat s t)

abbrev digit_code : ℕ → ℕ
digit_code d = if ltb d 10 then 48 + d else 87 + d

digit_text : (d : ℕ) → d < 16 → codes (get_or hex_digits d "") ≡ digit_code d ∷ []
digit_text zero h = refl
digit_text (suc zero) h = refl
digit_text (suc (suc zero)) h = refl
digit_text (suc (suc (suc zero))) h = refl
digit_text (suc (suc (suc (suc zero)))) h = refl
digit_text (suc (suc (suc (suc (suc zero))))) h = refl
digit_text (suc (suc (suc (suc (suc (suc zero)))))) h = refl
digit_text (suc (suc (suc (suc (suc (suc (suc zero))))))) h = refl
digit_text (suc (suc (suc (suc (suc (suc (suc (suc zero)))))))) h = refl
digit_text (suc (suc (suc (suc (suc (suc (suc (suc (suc zero))))))))) h = refl
digit_text (suc (suc (suc (suc (suc (suc (suc (suc (suc (suc zero)))))))))) h = refl
digit_text (suc (suc (suc (suc (suc (suc (suc (suc (suc (suc (suc zero))))))))))) h = refl
digit_text (suc (suc (suc (suc (suc (suc (suc (suc (suc (suc (suc (suc zero)))))))))))) h = refl
digit_text (suc (suc (suc (suc (suc (suc (suc (suc (suc (suc (suc (suc (suc zero))))))))))))) h =
    refl
digit_text (suc (suc (suc (suc (suc (suc (suc (suc (suc (suc (suc (suc (suc (suc zero))))))))))))))
      h =
    refl
digit_text
      (suc (suc (suc (suc (suc (suc (suc (suc (suc (suc (suc (suc (suc (suc (suc zero)))))))))))))))
      h =
    refl
digit_text
      (suc
        (suc (suc (suc (suc (suc (suc (suc (suc (suc (suc (suc (suc (suc (suc (suc k))))))))))))))))
      h =
    absurd (omega arith)

codes-digit :
    (d : ℕ) (s : String)
    → d < 16
    → codes (concat (get_or hex_digits d "") s) ≡ digit_code d ∷ codes s
codes-digit d s h =
    codes-concat (get_or hex_digits d "") s ∙ ap (λ cs. cs ++ codes s) (digit_text d h)

hex_value-digit_code : (d : ℕ) → d < 16 → hex_value (digit_code d) ≡ some d
unfolding hex_value
hex_value-digit_code d h = ground arith

-- Bytes are read back from their hexadecimal text.
pub from_hex-to_hex : (bs : List ℕ) → All (λ b. b < 256) bs → from_hex (codes (to_hex bs)) ≡ some bs
unfolding from_hex to_hex
from_hex-to_hex [] h = refl
from_hex-to_hex (b ∷ bs) (hb, hs) =
    rw
      (
        codes-digit (b / 16) (concat (get_or hex_digits (b % 16) "") (to_hex bs)) (omega arith),
        codes-digit (b % 16) (to_hex bs) (omega arith),
        from_hex,
        hex_value-digit_code (b / 16) (omega arith),
        hex_value-digit_code (b % 16) (omega arith),
        from_hex-to_hex bs hs,
      )
      (ap (λ c. some (c ∷ bs)) (omega arith))
